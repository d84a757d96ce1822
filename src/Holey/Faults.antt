-- ===== src/Holey/Faults.antt =====
-- Where `entry_remove`, the search through holes and the merge of src/holey_buffer.h lose entries or
-- do not end.
use shm_lru_aging_and_quotas.Base.Tests.{
  ℕ, zero, suc, ◌+◌, ◌-◌, ◌^◌, ◌≤◌, ◌<◌, ◌≡◌, ◌≢◌, refl, ap, sym, ◌∙◌, Bool, true, false, Option,
  none, some, inl, inr, ltb, ◌==◌, if◌then◌else◌, arith, Bool-cases, ==_of_ne,
}
use shm_lru_aging_and_quotas.Base.Words.{u32_max, add32}
use shm_lru_aging_and_quotas.Holey.Skips.{skip_up_lem, trim_end_lem}
use shm_lru_aging_and_quotas.Holey.{
  Buffer, skip_up, trim_end, bin_search_with_blackouts_increasing, blackout_loop, blackout_round,
  skip_down, found,
}
use shm_lru_aging_and_quotas.Holey.Entries.{
  write, Change, entry_remove, entry_key_upate, remove_new, search_old, update_old,
}
use shm_lru_aging_and_quotas.Holey.Manager.{
  Manager, pair, add_entry, remove_entry, merged, merge_sort_with_blackouts_increasing,
}
use shm_lru_aging_and_quotas.Holey.Merge.{
  UpdateSource, has_values, compress, take_updates, merge_late, merge_old, merge_sort,
  sort_small_mostly_increasing,
}
use shm_lru_aging_and_quotas.Holey.Updating.{full, early, entered, add_entry-Entered}

remove_new_endless :
    (fuel key : ℕ) (b : Buffer) (p end n m : ℕ)
    → (b p).first ≢ key
    → remove_new fuel key b p end n m ≡ none
unfolding remove_new
remove_new_endless zero key b p end n m other = refl
remove_new_endless (suc f) key b p end n m other =
    rw (==_of_ne (b p).first key other) (remove_new_endless f key b p end n m other)

-- `entry_remove` has no end when the search of the ordered pairs finds nothing, there are new pairs, and
-- the first of them does not have the key: the loop over the new pairs looks at the first one for ever.
pub entry_remove_endless :
    (key : ℕ) (b : Buffer) (lo n m : ℕ) (has_holes : Bool)
    → 0 < m
    → search_old has_holes key b lo n ≡ some none
    → (b (lo + n)).first ≢ key
    → (fuel : ℕ) → entry_remove fuel key b lo n m has_holes ≡ none
unfolding entry_remove
entry_remove_endless key b lo n m has_holes pos missed other fuel =
    let some_new : (m == 0) ≡ false = ground arith in
    let late : ltb 0 m ≡ true = ground arith in
    elim (Bool-cases (n == 0)) [
      | inl e ↦
          rw (e, some_new, missed, late)
            (remove_new_endless fuel key b (lo + n) (lo + n + m) n m other)
      | inr e ↦ rw (e, missed, late) (remove_new_endless fuel key b (lo + n) (lo + n + m) n m other)
    ]

-- After a pair has been added to a buffer that counts no hole, `remove_entry` of its key answers false and
-- the pair is still there: the call only counts the new pairs as ordered.
pub remove_entry-add_entry :
    (s w : Manager) (key value : ℕ)
    → s.max < u32_max
    → s.n + s.m < 2 ^ 32
    → s.blackout_count ≡ 0
    → add_entry s key value ≡ (true, w)
    → (fuel : ℕ)
    → (t : Manager) × (remove_entry fuel w key ≡ some (false, t))
      × (t.n ≡ s.n + s.m + 1)
      × (t.m ≡ 0)
      × (t.key_val (s.n + s.m) ≡ pair key value)
unfolding remove_entry
remove_entry-add_entry s w key value small counted no_holes adds fuel =
    elim (add_entry-Entered s key value small counted) [
      | full h r ↦ absurd (false_ne_true (ap (λ (x : Bool × Manager). x.0) (sym r ∙ adds)))
      | early room h k r ↦ absurd (false_ne_true (ap (λ (x : Bool × Manager). x.0) (sym r ∙ adds)))
      | entered u ordered r n m b fits here other bounds ↦
          let e : u ≡ w = ap (λ (x : Bool × Manager). x.1) (sym r ∙ adds) in
          let w_n = sym (ap (λ (x : Manager). x.n) e) ∙ n in
          let w_m = sym (ap (λ (x : Manager). x.m) e) ∙ m in
          let w_b = sym (ap (λ (x : Manager). x.blackout_count) e) ∙ b ∙ no_holes in
          let w_here = sym (ap (λ (x : Manager). x.key_val (s.n + s.m)) e) ∙ here in
          let within : u.n + u.m ≤ s.max = fits in
          let some_new : (w.m == 0) ≡ false = ground (arith, w_m) in
          let late : ltb 0 w.m ≡ true = ground (arith, w_m) in
          (
            record w { n = add32 w.n w.m; m = 0 },
            rw (some_new, w_b, late) (ground arith),
            omega (arith, w_n, w_m, n, m),
            refl,
            w_here,
          )
    ]
  where
    false_ne_true : false ≡ true → ⊥
    false_ne_true h = cc

-- a pair, a hole and a pair, and a key between those of the two pairs
module _ (key : ℕ) (b : Buffer) (above : (b 0).first < key) (blackout : (b 1).first ≡ u32_max)
    (below : key < (b 2).first) (real : (b 2).first < u32_max) where
  up_0 : skip_up b 3 0 ≡ 0
  unfolding skip_up
  up_0 = rw (==_of_ne (b 0).first u32_max (omega arith)) refl

  up_1 : skip_up b 2 1 ≡ 2
  unfolding skip_up
  up_1 = rw (blackout, ==_of_ne (b 2).first u32_max (omega arith)) refl

  down_1 : skip_down b 1 1 ≡ 0
  unfolding skip_down
  down_1 = rw blackout refl

  end_3 : trim_end b 3 3 ≡ 3
  unfolding trim_end
  end_3 = rw (==_of_ne (b 2).first u32_max (omega arith)) refl

  between_round : blackout_round b key 0 3 1 ≡ found (some 0)
  unfolding blackout_round
  between_round = rw (up_1, down_1) (ground arith)

  search_beside : bin_search_with_blackouts_increasing key b 0 3 ≡ some (some 0)
  unfolding bin_search_with_blackouts_increasing blackout_loop
  search_beside =
      let not_above : ltb (b 2).first key ≡ false = ground arith in
      let not_below : ltb key (b 0).first ≡ false = ground arith in
      rw (up_0, end_3, not_above, not_below, between_round) refl

  -- In a buffer of a pair, a hole and a pair, an update of a key between those of the two pairs, which no
  -- pair has, destroys the first pair, though that has a smaller key, and reports its place as the hole.
  pub entry_key_upate_other :
      (key_update value m : ℕ)
      → key ≤ key_update
      → m + 1 < 2 ^ 32
      → (r : Change) × (entry_key_upate key key_update b 0 3 m value true ≡ some r)
        × (r.code ≡ m + 1)
        × (r.buffer 0 ≡ pair u32_max u32_max)
        × (r.hole ≡ pair (b 0).first 0)
  unfolding entry_key_upate
  entry_key_upate_other key_update value m later small =
      let in_order : ltb key_update key ≡ false = ground arith in
      (
        update_old key_update value b 0 3 m 0,
        rw (in_order, search_beside) refl,
        omega arith,
        ground arith,
        refl,
      )

compress_bound :
    (f : ℕ) (b : Buffer) (next end output : ℕ) → (compress f b next end output).1 ≤ output + f
unfolding compress
compress_bound zero b next end output = omega arith
compress_bound (suc f) b next end output =
    let p = skip_up b (end - next) next in
    let b' = if ltb output p then write b output (b p).first (b p).second else b in
    ground
      (arith, compress_bound f b' (p + 1) end (output + 1), compress_bound f b p end (output + 1))

-- what is left of a merge of `n` ordered pairs
abbrev AtMost : ℕ → Option (ℕ × Buffer × UpdateSource) → Type 0
AtMost n r = (k : ℕ) × (b : Buffer) × (us : UpdateSource) × (r ≡ some (k, b, us)) × (k ≤ n)

module _ (sort : Buffer → (start stop : ℕ) → Buffer) (f : ℕ) (us : UpdateSource)
    (idle : has_values us ≡ false) where
  late-AtMost :
      (n : ℕ) (r : Buffer × ℕ)
      → r.1 ≤ n
      → AtMost n (merge_late sort r.0 r.1 (take_updates (suc f) r.0 us r.1 u32_max))
  unfolding take_updates merge_late
  late-AtMost n (b, output) le = rw idle (elim (Bool-cases (ltb u32_max (b (output - 1)).first)) [
    | inl e ↦ rw e (output, _, us, refl, le)
    | inr e ↦ rw e (output, b, us, refl, le)
  ])

  old-AtMost : (b : Buffer) (beg end : ℕ) → AtMost end (merge_old sort (suc f) b us beg end)
  unfolding merge_old
  old-AtMost b beg end =
      late-AtMost end (compress (end - beg) b beg end 0)
        (omega (arith, compress_bound (end - beg) b beg end 0))

  merge_sort-AtMost :
      (b : Buffer) (n m new_min : ℕ)
      → 0 < n
      → (b (n - 1)).first ≢ u32_max
      → (b (n - 1)).first ≤ new_min
      → AtMost n (merge_sort sort (suc f) b n m new_min us)
  unfolding merge_sort
  merge_sort-AtMost b n m new_min pos real after =
      let beg = skip_up b n 0 in
      let up = skip_up_lem b n 0 in
      let first_real : beg < n = ground (arith, up.0, up.1, up.2 (n - 1)) in
      let down = trim_end_lem b (n - beg) n (omega arith) in
      let last : trim_end b (n - beg) n ≡ n = ground (arith, down.0, down.2 (n - 1)) in
      let not_below : ltb new_min (b (n - 1)).first ≡ false = ground arith in
      let differ : (beg == n) ≡ false = ground arith in
      let positive : (n == 0) ≡ false = ground arith in
      rw (last, positive, differ, not_below)
        (old-AtMost (sort_small_mostly_increasing sort b n (n + m)) beg n)

-- A merge of a buffer whose last ordered pair is no hole and whose new keys are not below it, with no late
-- updates, ends, and counts no more pairs than were in order before, and no new ones: all new pairs are
-- lost.
pub merge_sort_loses :
    (sort : Buffer → (start stop : ℕ) → Buffer) (f : ℕ) (s : Manager)
    → has_values s.proc_queue ≡ false
    → 0 < s.n
    → (s.key_val (s.n - 1)).first ≢ u32_max
    → (s.key_val (s.n - 1)).first ≤ s.nouveau_min
    → (t : Manager) × (merge_sort_with_blackouts_increasing sort (suc f) s ≡ some t)
      × (t.n ≤ s.n)
      × (t.m ≡ 0)
unfolding merge_sort_with_blackouts_increasing
merge_sort_loses sort f s idle pos real after =
    let (k, b, us, e, le) =
      merge_sort-AtMost sort f s.proc_queue idle s.key_val s.n s.m s.nouveau_min pos real after in
    (_, ap (merged sort s) e, le, refl)
