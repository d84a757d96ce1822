-- ===== src/Lru/Flush/Laws.antt =====
-- What the evictions of src/node_shm_LRU.h that hand out bytes take out.
use shm_lru_aging_and_quotas.Base.Lists.{occurs, occurs-append}
use shm_lru_aging_and_quotas.Base.Tests.{
  ℕ, zero, suc, ◌+◌, ◌-◌, ◌*◌, ◌≤◌, ◌<◌, ◌≡◌, ◌≢◌, refl, ap, ◌∙◌, Bool, true, Option, none, some,
  List, [], ◌∷◌, ◌++◌, ltb, if◌then◌else◌, ◌||◌, arith, Bool-cases, inl, inr, ==_of_ne,
}
use shm_lru_aging_and_quotas.Lru.{
  Region, Cache, Hashes, get_el_untouched, fine, relink, free_element,
}
use shm_lru_aging_and_quotas.Lru.Elements.{del_el, evict_from, evict_least_used, delete_region}
use shm_lru_aging_and_quotas.Lru.Evict.{
  rev, victims, hashes_of, tail_prev, not_header, evicted, evicted-IsCache, evict_at-tail, survives,
  occurs-rev,
}
use shm_lru_aging_and_quotas.Lru.Hash.{HmapInterface, remove_key, hmap}
use shm_lru_aging_and_quotas.Lru.Flush.{
  Buffers, put_buffer, flush_at, flush_from, evict_least_used_to_value_map, near_from, near_bucket,
  bucket_of, evict_least_used_near_hash, after_near,
}
use shm_lru_aging_and_quotas.Lru.Turnover.{del_el-without}
use shm_lru_aging_and_quotas.Lru.Use.{IsCache, check_offset-fits}

-- the buffers of the elements, put into the map in this order
abbrev pub buffers_of : Region → List ℕ → Buffers → Buffers
buffers_of m [] ev_map = ev_map
buffers_of m (x ∷ xs) ev_map = buffers_of m xs (put_buffer (m x).hash (some (m x).payload) ev_map)

buffers_of-frame :
    (m n : Region) (xs : List ℕ) (ev_map : Buffers)
    → ((a : ℕ) → 0 < occurs a xs → ((n a).hash ≡ (m a).hash) × ((n a).payload ≡ (m a).payload))
    → buffers_of n xs ev_map ≡ buffers_of m xs ev_map
buffers_of-frame m n [] ev_map same = refl
buffers_of-frame m n (x ∷ xs) ev_map same =
    let at = same x (ground arith) in
    rw (at.0, at.1)
      (buffers_of-frame m n xs (put_buffer (m x).hash (some (m x).payload) ev_map)
        (λ a h. same a (omega arith)))

delete_region-payload : (m : Region) (f x a : ℕ) → (delete_region m f x a).payload ≡ (m a).payload
unfolding relink free_element
delete_region-payload m f x a = ground arith

delete_region-hash : (m : Region) (f x a : ℕ) → a ≢ x → (delete_region m f x a).hash ≡ (m a).hash
unfolding relink free_element
delete_region-hash m f x a ne = ground arith

occurs-victims :
    (n : ℕ) (m : Region) (cutoff : ℕ) (xs : List ℕ) (a : ℕ)
    → occurs a (victims n m cutoff xs) ≤ occurs a xs
occurs-victims n m cutoff [] a = omega arith
occurs-victims zero m cutoff (x ∷ xs) a = omega arith
occurs-victims (suc n) m cutoff (x ∷ xs) a = ground (arith, occurs-victims n m cutoff xs a)

module _ {T : Type 0} (i : HmapInterface T)
    (removes : (h : Hashes T) (k : ℕ)
      → (r : ℕ) × (u : Hashes T) × (remove_key i h k ≡ some (r, u))) where
  module _ (c : Cache T) (x : ℕ) (xs free : List ℕ) (valid : IsCache c (rev (x ∷ xs)) free) where
    flush_at-tail :
        (cutoff : ℕ) (ev_map : Buffers) (again : Buffers → Cache T → Option (Buffers × Cache T))
        → let kept = put_buffer (c.region x).hash (some (c.region x).payload) ev_map in
          (flush_at i c cutoff ev_map again (c.region c.step).prev ≡ (
            if ltb (c.region x).when cutoff
            then again kept (evicted i removes c x xs free valid)
            else some (kept, evicted i removes c x xs free valid)))
    unfolding get_el_untouched
    flush_at-tail cutoff ev_map again =
        let (r, h, e) = removes c.hashes (c.region x).hash in
        let at = valid.layout.fits x (ground (arith, occurs-append x (rev xs) (x ∷ []))) in
        let valid' : IsCache (record c { reason = fine }) (rev xs ++ (x ∷ [])) free = record {
          layout = valid.layout;
          counted = valid.counted;
          few = valid.few;
        } in
        ap (flush_at i c cutoff ev_map again) (tail_prev i removes c x xs free valid)
        ∙ rw
            (
              check_offset-fits c x at.1 at.2,
              ==_of_ne x 0 (not_header i removes c x xs free valid),
              del_el-without i (record c { reason = fine }) (rev xs) [] free x valid' r h e,
            )
            refl

    still_buffers :
        (n cutoff : ℕ) (ev_map : Buffers)
        → buffers_of
            (evicted i removes c x xs free valid).region
            (victims n (evicted i removes c x xs free valid).region cutoff xs)
            ev_map
          ≡ buffers_of c.region (victims n c.region cutoff xs) ev_map
    still_buffers n cutoff ev_map =
        let w = evicted i removes c x xs free valid in
        let apart = λ (a : ℕ) (h : 0 < occurs a (victims n c.region cutoff xs)).
          other a (omega (arith, h, occurs-victims n c.region cutoff xs a)) in
        ap (λ v. buffers_of w.region v ev_map) (survives i removes c x xs free valid n cutoff).0
        ∙ buffers_of-frame c.region w.region (victims n c.region cutoff xs) ev_map (λ a h. (
          delete_region-hash c.region (2 * c.step) x a (apart a h),
          delete_region-payload c.region (2 * c.step) x a,
        ))
      where
        other : (a : ℕ) → 0 < occurs a xs → a ≢ x
        other a h =
            ground
              (arith, valid.layout.unique x, occurs-append x (rev xs) (x ∷ []), occurs-rev x xs)

  -- the cache that both evictions leave
  abbrev Flushed : ℕ → (cutoff : ℕ) → Cache T → List ℕ → Buffers → Type 0
  Flushed n cutoff c xs ev_map =
      (w : Cache T) × (evict_from n i c cutoff
        ≡ some (hashes_of c.region (victims n c.region cutoff xs), w))
      × (flush_from n i c cutoff ev_map
          ≡ some (buffers_of c.region (victims n c.region cutoff xs) ev_map, w))

  flush_from-victims :
      (n cutoff : ℕ) (c : Cache T) (xs free : List ℕ) (ev_map : Buffers)
      → IsCache c (rev xs) free
      → Flushed n cutoff c xs ev_map
  unfolding evict_from flush_from
  flush_from-victims zero cutoff c [] free ev_map valid =
      (c, rw valid.layout.linked.1 refl, rw valid.layout.linked.1 refl)
  flush_from-victims (suc n) cutoff c [] free ev_map valid =
      (c, rw valid.layout.linked.1 refl, rw valid.layout.linked.1 refl)
  flush_from-victims zero cutoff c (x ∷ xs) free ev_map valid =
      let named = evict_at-tail i removes c x xs free valid cutoff (λ w. some ([], w)) in
      let kept = flush_at-tail c x xs free valid cutoff ev_map (λ b w. some (b, w)) in
      elim (Bool-cases (ltb (c.region x).when cutoff)) [
        | inl e ↦ (evicted i removes c x xs free valid, named ∙ rw e refl, kept ∙ rw e refl)
        | inr e ↦ (evicted i removes c x xs free valid, named ∙ rw e refl, kept ∙ rw e refl)
      ]
  flush_from-victims (suc n) cutoff c (x ∷ xs) free ev_map valid =
      let u = evicted i removes c x xs free valid in
      let kept = put_buffer (c.region x).hash (some (c.region x).payload) ev_map in
      let named = evict_at-tail i removes c x xs free valid cutoff (λ w. evict_from n i w cutoff) in
      let flushed =
        flush_at-tail c x xs free valid cutoff ev_map (λ b w. flush_from n i w cutoff b) in
      let (w, e, f) =
        flush_from-victims n cutoff u xs (x ∷ free) kept
          (evicted-IsCache i removes c x xs free valid) in
      let same = survives i removes c x xs free valid n cutoff in
      let still = still_buffers c x xs free valid n cutoff kept in
      elim (Bool-cases (ltb (c.region x).when cutoff)) [
        | inl old ↦ rw old (w, named ∙ rw (old, e, same.2) refl, flushed ∙ rw (old, f, still) refl)
        | inr young ↦ rw young (u, named ∙ rw young refl, flushed ∙ rw young refl)
      ]

  -- `evict_least_used_to_value_map` ends, leaves the same cache as `evict_least_used` with the same
  -- arguments, and puts the bytes of the elements that this takes out into the map under their hashes, in
  -- the order in which it lists these. The list of use is written from its back, and the hash table answers
  -- every removal.
  pub evict_least_used_to_value_map-evict_least_used :
      (max_evict cutoff : ℕ) (c : Cache T) (xs free : List ℕ) (ev_map : Buffers)
      → IsCache c (rev xs) free
      → let taken = victims (max_evict - 1) c.region cutoff xs in
        ((w : Cache T) × (evict_least_used i c cutoff max_evict
            ≡ some (hashes_of c.region taken, w))
          × (evict_least_used_to_value_map i c cutoff max_evict ev_map
              ≡ some (buffers_of c.region taken ev_map, w)))
  unfolding evict_least_used evict_least_used_to_value_map
  evict_least_used_to_value_map-evict_least_used max_evict cutoff c xs free ev_map valid =
      flush_from-victims (max_evict - 1) cutoff c xs free ev_map valid

module _ {T : Type 0} (i : HmapInterface T) where
  near_from_cutoff :
      (xs : List ℕ) (c : Cache T) (a b max_evict : ℕ) (ev_map : Buffers) (result : ℕ)
      → 0 < max_evict
      → near_from i xs c a max_evict ev_map result ≡ near_from i xs c b max_evict ev_map result
  unfolding near_from
  near_from_cutoff [] c a b max_evict ev_map result pos = refl
  near_from_cutoff (x ∷ xs) c a b max_evict ev_map result pos =
      let (code, buffer, c') = get_el_untouched c x in
      let kept = put_buffer (c.region x).hash buffer ev_map in
      rw (open_test (ltb (c.region x).when a), open_test (ltb (c.region x).when b))
        (λ j.
          if ltb result 12
          then after_near (λ w. near_from_cutoff xs w a b max_evict kept (result + 1) pos j)
              (del_el i c' x)
          else near_from_cutoff xs c a b max_evict ev_map result pos j)
    where
      open_test : (p : Bool) → (p || ltb 0 max_evict) ≡ true
      open_test p = ground arith

  -- The cutoff of `evict_least_used_near_hash` has no effect once `max_evict` is above 0: with any two
  -- cutoffs the call gives the same count, map and cache.
  pub evict_least_used_near_hash_cutoff :
      (c : Cache T) (hash a b max_evict : ℕ) (ev_map : Buffers)
      → 0 < max_evict
      → evict_least_used_near_hash i c hash a max_evict ev_map
        ≡ evict_least_used_near_hash i c hash b max_evict ev_map
  unfolding evict_least_used_near_hash
  evict_least_used_near_hash_cutoff c hash a b max_evict ev_map pos =
      either (bucket_of i (hmap c.hashes hash) hash)
    where
      either :
          (l : Option (List ℕ))
          → near_bucket i l c a max_evict ev_map ≡ near_bucket i l c b max_evict ev_map
      either none = refl
      either (some xs) = near_from_cutoff xs c a b max_evict ev_map 0 pos
