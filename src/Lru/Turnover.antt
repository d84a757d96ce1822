-- ===== src/Lru/Turnover.antt =====
-- How `add_el`, `del_el` and `evict_least_used` of src/node_shm_LRU.h move elements between the list of
-- use and the free list.
use native.Mathlib.Decide.{ℕ_discrete}
use shm_lru_aging_and_quotas.Base.Lists.{occurs, length, length-append}
use shm_lru_aging_and_quotas.Base.Tests.{
  ℕ, ◌+◌, ◌-◌, ◌*◌, ◌%◌, ◌^◌, ◌<◌, ◌≡◌, ◌≢◌, refl, ap, true, false, Option, none, some, List, [],
  ◌∷◌, ◌++◌, arith, ltb, ◌==◌, if◌then◌else◌, ==_of_ne,
}
use shm_lru_aging_and_quotas.Base.Words.{u32_max, u64_max, load64}
use shm_lru_aging_and_quotas.Lru.{
  Region, Cache, Hashes, fine, out_of_free, push_front, relink, free_element,
}
use shm_lru_aging_and_quotas.Lru.Elements.{
  record_bytes, add_front, added, add_el, delete_region, del_el,
}
use shm_lru_aging_and_quotas.Lru.Hash.{HmapInterface, store_in_hash, remove_key}
use shm_lru_aging_and_quotas.Lru.Layout.{Layout, Layout-frame, Layout-take_free, Layout-free}
use shm_lru_aging_and_quotas.Lru.Use.{IsCache, live, checked, free_checked, Free-prev}

-- What `add_el` can do.
pub data Added {T : Type 0} (c : Cache T) (order free : List ℕ) (bytes : List ℕ) (hash now : ℕ)
    (s : Option (ℕ × Hashes T)) : Option (ℕ × Cache T) → Type 0 where
  full :
      {r : Option (ℕ × Cache T)}
      → free ≡ []
      → r ≡ some (u32_max, record c { status = false; reason = out_of_free })
      → Added c order free bytes hash now s r
  diverged :
      {r : Option (ℕ × Cache T)}
      → free ≢ []
      → s ≡ none
      → r ≡ none
      → Added c order free bytes hash now s r
  frozen :
      {r : Option (ℕ × Cache T)} (h : Hashes T)
      → free ≢ []
      → s ≡ some (u64_max, h)
      → r ≡ some (u32_max, record c { hashes = h })
      → Added c order free bytes hash now s r
  stored :
      {r : Option (ℕ × Cache T)} (x : ℕ) (rest : List ℕ) (answer : ℕ) (h : Hashes T) (w : Cache T)
      → free ≡ x ∷ rest
      → s ≡ some (answer, h)
      → answer ≢ u64_max
      → r ≡ some (x, w)
      → w.hashes ≡ h
      → IsCache w (x ∷ order) rest
      → ((w.region x).payload ≡ record_bytes c.record_size bytes)
      → ((w.region x).hash ≡ hash)
      → ((w.region x).when ≡ now)
      → ((a : ℕ) → a ≢ x → (w.region a).payload ≡ (c.region a).payload)
      → Added c order free bytes hash now s r

add_front-payload :
    (m : Region) (ctrl_free x now hash : ℕ) (bytes : List ℕ) (a : ℕ)
    → (add_front m ctrl_free x now hash bytes a).payload ≡ (if a == x then bytes else (m a).payload)
unfolding add_front push_front
add_front-payload m ctrl_free x now hash bytes a = ground arith

add_front-hash :
    (m : Region) (ctrl_free x now hash : ℕ) (bytes : List ℕ)
    → (add_front m ctrl_free x now hash bytes x).hash ≡ hash
unfolding add_front
add_front-hash m ctrl_free x now hash bytes = ground arith

add_front-when :
    (m : Region) (ctrl_free x now hash : ℕ) (bytes : List ℕ)
    → (add_front m ctrl_free x now hash bytes x).when ≡ now
unfolding add_front
add_front-when m ctrl_free x now hash bytes = ground arith

add_front-Layout :
    (m : Region) (step size : ℕ) (order free : List ℕ) (x now hash : ℕ) (bytes : List ℕ)
    → Layout m step size order (x ∷ free)
    → Layout (add_front m (2 * step) x now hash bytes) step size (x ∷ order) free
unfolding add_front
add_front-Layout m step size order free x now hash bytes l =
    Layout-frame (Layout-take_free m step size order free x l) (λ a. ground arith)
      (λ a. ground arith)

more : (x : ℕ) (rest : List ℕ) → (x ∷ rest) ≢ []
more x rest e = absurd (omega (arith, ap (λ (l : List ℕ). length l) e))

module _ {T : Type 0} (i : HmapInterface T) (c : Cache T) (bytes : List ℕ)
    (full_hash hash_bucket now : ℕ) where
  added-Added :
      (order rest : List ℕ) (x hash : ℕ)
      → IsCache c order (x ∷ rest)
      → (s : Option (ℕ × Hashes T))
      → Added c order (x ∷ rest) bytes hash now s (added c bytes hash x now s)
  added-Added order rest x hash valid none = diverged (more x rest) refl refl
  added-Added order rest x hash valid (some (r, h)) = elim (ℕ_discrete r u64_max) [
    | yes e ↦ rw e (frozen h (more x rest) refl refl)
    | no ne ↦
        let w = record c {
          hashes = h;
          region = add_front c.region (2 * c.step) x now hash (record_bytes c.record_size bytes);
          count = (c.count + 1) % 2 ^ 16;
          count_free = if ltb 0 c.count_free then c.count_free - 1 else c.count_free;
        } in
        let wrote =
          add_front-payload c.region (2 * c.step) x now hash (record_bytes c.record_size bytes) in
        rw (==_of_ne r u64_max ne) (
          stored x rest r h w refl refl ne refl refl
            record {
              layout =
                  add_front-Layout c.region c.step c.region_size order rest x now hash
                    (record_bytes c.record_size bytes) valid.layout;
              counted = ground (arith, valid.counted);
              few = omega (arith, valid.few);
            }
            (ground (arith, wrote x))
            (add_front-hash c.region (2 * c.step) x now hash (record_bytes c.record_size bytes))
            (add_front-when c.region (2 * c.step) x now hash (record_bytes c.record_size bytes))
            (λ a ne. ground (arith, wrote a)))
  ]

  -- Adding an element to a well-formed cache: without a free element nothing changes but the status and
  -- the reason. Else the hash table is asked to store the first free element: if it does not return, nor does
  -- add_el; if it answers `UINT64_MAX`, only the table changes, to what it left; and on any other answer that
  -- element becomes the first of the list of use, with the bytes cut or padded to the size of a record, the
  -- hash and the time, the table is what it left, and the bytes of all other elements stay.
  pub add_el-Added :
      (order free : List ℕ)
      → IsCache c order free
      → Added c order free bytes
          (load64 full_hash hash_bucket)
          now
          (store_in_hash i c.hashes full_hash hash_bucket (c.region (2 * c.step)).next)
          (add_el i c bytes full_hash hash_bucket now)
  unfolding add_el
  add_el-Added order [] valid = full refl (rw valid.layout.freed refl)
  add_el-Added order (x ∷ rest) valid =
      let next = (c.region (2 * c.step)).next in
      let here : next ≡ x = valid.layout.freed.0 in
      let at = valid.layout.fits x (ground arith) in
      let some_free : next ≢ u32_max = omega (arith, here, at.0) in
      rw (==_of_ne next u32_max some_free, here)
        (added-Added order rest x (load64 full_hash hash_bucket) valid
          (store_in_hash i c.hashes full_hash hash_bucket x))

-- Deletions.
module _ {T : Type 0} (i : HmapInterface T) (c : Cache T) (xs ys free : List ℕ) (x : ℕ)
    (valid : IsCache c (xs ++ (x ∷ ys)) free) where
  -- the cache that `del_el` leaves
  abbrev pub without : Hashes T → Cache T
  without h = record c {
    reason = fine;
    region = delete_region c.region (2 * c.step) x;
    hashes = h;
    count_free = (c.count_free + 1) % 2 ^ 16;
  }

  pub without-IsCache : (h : Hashes T) → IsCache (without h) (xs ++ ys) (x ∷ free)
  without-IsCache h = record {
    layout = Layout-free c.region c.step c.region_size xs ys free x valid.layout;
    counted = omega (arith, valid.counted, valid.few, length-append xs (x ∷ ys));
    few = omega (arith, valid.few, length-append xs (x ∷ ys), length-append xs ys);
  }

  pub del_el-without :
      (r : ℕ) (h : Hashes T)
      → remove_key i c.hashes (c.region x).hash ≡ some (r, h)
      → del_el i c x ≡ some (true, without h)
  unfolding del_el
  del_el-without r h removes =
      rw
        (
          checked c xs ys free x valid,
          ==_of_ne (c.region x).prev u32_max (live c xs ys free x valid),
          removes,
        )
        refl

  -- In a well-formed cache, deleting an element in use, where the hash table answers the removal
  -- of its hash: the element leaves the list of use, whose order stays, and becomes the first
  -- free element, without a `prev`; the cache stays well-formed, so that one more is counted as
  -- free.
  pub del_el_lem :
      (r : ℕ) (h : Hashes T)
      → remove_key i c.hashes (c.region x).hash ≡ some (r, h)
      → (w : Cache T) × (del_el i c x ≡ some (true, w))
        × IsCache w (xs ++ ys) (x ∷ free)
        × (w.hashes ≡ h)
        × ((w.region x).prev ≡ u32_max)
  del_el_lem r h removes =
      let done = without-IsCache h in
      (without h, del_el-without r h removes, done, refl, done.layout.freed.1)

delete_region-next_max :
    (m : Region) (f x v : ℕ)
    → f < u32_max
    → x < u32_max
    → (free_element (relink m u32_max v) f x u32_max).next ≡ v
unfolding relink free_element
delete_region-next_max m f x v f_low x_low = ground arith

-- A second deletion.
module _ {T : Type 0} (i : HmapInterface T) (c : Cache T) (order free : List ℕ) (x : ℕ)
    (valid : IsCache c order free) (x_free : 0 < occurs x free) where
  -- In a well-formed cache, where the hash table answers the removal and the head of the free
  -- list lies below the end mark, the check for a second deletion misses every free element that
  -- carries the hash that `del_el` writes: the call answers that it has deleted the element, the
  -- count of free elements is no more that of the free list, and the link of the element is
  -- written to the offset `UINT32_MAX`, the mark of a free element, as if it were a place.
  pub del_el_twice :
      (r : ℕ) (h : Hashes T)
      → 2 * c.step < u32_max
      → (c.region x).hash ≡ u64_max
      → remove_key i c.hashes u64_max ≡ some (r, h)
      → (w : Cache T) × (del_el i c x ≡ some (true, w))
        × (w.count_free ≢ length free)
        × ((w.region u32_max).next ≡ (c.region x).next)
  unfolding del_el
  del_el_twice r h low mark removes =
      let m = delete_region c.region (2 * c.step) x in
      let free_mark = Free-prev c.region (2 * c.step) free valid.layout.freed x x_free in
      let at = valid.layout.fits x (omega arith) in
      (
        record c {
          reason = fine;
          region = m;
          hashes = h;
          count_free = (c.count_free + 1) % 2 ^ 16;
        },
        rw (free_checked c order free x valid x_free, mark, free_mark, removes) refl,
        omega (arith, valid.counted, valid.few),
        rw free_mark (delete_region-next_max c.region (2 * c.step) x (c.region x).next low at.0),
      )
