-- ===== src/Holey/Reach.antt =====
-- The states that a `KeyValueManager` of src/holey_buffer.h can reach, and where its operations look.
use mathlib.Core.Path.{subst}
use shm_lru_aging_and_quotas.Base.Tests.{
  ℕ, ◌+◌, ◌-◌, ◌≡◌, refl, Bool, true, false, not, ◌&&◌, Option, none, some, ltb, leb, ◌==◌,
  if◌then◌else◌, arith, List,
}
use shm_lru_aging_and_quotas.Base.Words.{u32_max, add32, sub32}
use shm_lru_aging_and_quotas.Holey.{Pair, Buffer}
use shm_lru_aging_and_quotas.Holey.Entries.{Change, entry_key_upate, entry_remove}
use shm_lru_aging_and_quotas.Holey.Manager.{
  Manager, larger, lesser, add_entry, manage_new_hole, note_hole, removed, remove_entry, merged,
  merge_sort_with_blackouts_increasing, rectify_blackout_count, then_note_hole, updated,
  manage_update, true_and, update_entry, displaced, displace_from, close_up,
  displace_lowest_value_threshold,
}
use shm_lru_aging_and_quotas.Holey.Merge.{UpdateSource, merge_sort}

-- the offset of the last hole is not known
abbrev pub IsFar : Manager → Type 0
IsFar s = s.max_hole.second ≡ u32_max

module _ (sort : Buffer → (start stop : ℕ) → Buffer) where
  -- a call of an operation that returns
  pub data Step (s t : Manager) : Type 0 where
    adds : (key value : ℕ) (r : Bool) → add_entry s key value ≡ (r, t) → Step s t
    removes : (fuel key : ℕ) (r : Bool) → remove_entry fuel s key ≡ some (r, t) → Step s t
    updates :
        (fuel key old_key value : ℕ) (r : Bool)
        → update_entry sort fuel s key old_key value ≡ some (r, t)
        → Step s t
    rectifies :
        (fuel tolerance : ℕ) → rectify_blackout_count sort fuel s tolerance ≡ some t → Step s t
    displaces :
        (fuel min_max max_count : ℕ) (values : List ℕ)
        → displace_lowest_value_threshold sort fuel s min_max max_count ≡ some (values, t)
        → Step s t

  pub data Reach (s : Manager) : Manager → Type 0 where
    here : Reach s s
    next : {t u : Manager} → Reach s t → Step t u → Reach s u

-- what is left of a manager that an operation returns
abbrev FarIn : Option Manager → Type 0
FarIn none = Unit
FarIn (some t) = IsFar t

abbrev FarWith {ℓ} : {A : Type ℓ} → Option (A × Manager) → Type 0
FarWith none = Unit
FarWith (some (r, t)) = IsFar t

if_keeps {ℓ κ} :
    {A : Type ℓ} (P : A → Type κ) (b : Bool) (x y : A) → P x → P y → P (if b then x else y)
if_keeps P true x y p q = p
if_keeps P false x y p q = q

note_hole-IsFar : (s : Manager) (shift : ℕ) (hole : Pair) → IsFar s → IsFar (note_hole s shift hole)
note_hole-IsFar s shift hole far = ground arith

add_entry-IsFar : (s : Manager) (key value : ℕ) → IsFar s → IsFar (add_entry s key value).1
unfolding add_entry
add_entry-IsFar s key value far = ground arith

removed-IsFar :
    (s : Manager) (shift : ℕ) (c : Option Change) → IsFar s → FarWith (removed s shift c)
removed-IsFar s shift none far = tt
removed-IsFar s shift (some c) far =
    let s' = record s { key_val = c.buffer; n = add32 c.n shift } in
    let t = note_hole s' shift c.hole in
    let noted : IsFar t = note_hole-IsFar s' shift c.hole far in
    if_keeps FarWith (c.code == u32_max) (some (false, s'))
      (if s.m == c.code
        then some (true, record t { blackout_count = add32 s.blackout_count 1 })
        else some (true, record t { m = c.code }))
      far
      (if_keeps FarWith (s.m == c.code)
        (some (true, record t { blackout_count = add32 s.blackout_count 1 }))
        (some (true, record t { m = c.code })) noted noted)

remove_entry-IsFar :
    (fuel : ℕ) (s : Manager) (key : ℕ) → IsFar s → FarWith (remove_entry fuel s key)
unfolding remove_entry
remove_entry-IsFar fuel s key far =
    let start = s.max_hole.second in
    let far_part =
      removed s start
        (entry_remove fuel key s.key_val start (add32 (sub32 s.n start) 1) s.m false) in
    let near_part =
      removed s 0 (entry_remove fuel key s.key_val 0 s.n s.m (not (s.blackout_count == 0))) in
    if_keeps FarWith ((s.n == 0) && (s.m == 0)) (some (false, s))
      (if (s.blackout_count == 0) && ltb 0 s.m
        then some (false, record s { n = add32 s.n s.m; m = 0 })
        else if leb s.max_hole.first key
        then far_part
        else near_part)
      far
      (if_keeps FarWith ((s.blackout_count == 0) && ltb 0 s.m)
        (some (false, record s { n = add32 s.n s.m; m = 0 }))
        (if leb s.max_hole.first key then far_part else near_part) far
        (if_keeps FarWith (leb s.max_hole.first key) far_part near_part
          (removed-IsFar s start
            (entry_remove fuel key s.key_val start (add32 (sub32 s.n start) 1) s.m false) far)
          (removed-IsFar s 0
            (entry_remove fuel key s.key_val 0 s.n s.m (not (s.blackout_count == 0))) far)))

module _ (sort : Buffer → (start stop : ℕ) → Buffer) where
  merge-IsFar : (fuel : ℕ) (s : Manager) → FarIn (merge_sort_with_blackouts_increasing sort fuel s)
  unfolding merge_sort_with_blackouts_increasing
  merge-IsFar fuel s = go (merge_sort sort fuel s.key_val s.n s.m s.nouveau_min s.proc_queue)
    where
      go : (r : Option (ℕ × Buffer × UpdateSource)) → FarIn (merged sort s r)
      go none = tt
      go (some (n', b, us)) = refl

  then_note_hole-IsFar :
      (hole : Pair) (r : Option Manager) → FarIn r → FarIn (then_note_hole sort hole r)
  then_note_hole-IsFar hole none far = tt
  then_note_hole-IsFar hole (some s) far = note_hole-IsFar' s far
    where
      note_hole-IsFar' :
          (s : Manager)
          → IsFar s
          → IsFar (if hole.first == u32_max then s else manage_new_hole s hole)
      note_hole-IsFar' s far = ground arith

  updated-IsFar :
      (fuel : ℕ) (s : Manager) (key_update shift : ℕ) (c : Option Change)
      → IsFar s
      → FarIn (updated sort fuel s key_update shift c)
  updated-IsFar fuel s key_update shift none far = tt
  updated-IsFar fuel s key_update shift (some c) far =
      let s' = record s {
        key_val = c.buffer;
        n = add32 c.n shift;
        m = c.code;
        nouveau_max = larger key_update s.nouveau_max;
        nouveau_min = lesser key_update s.nouveau_min;
      } in
      let merged_or =
        if leb s.proc_count c.code
        then merge_sort_with_blackouts_increasing sort fuel s'
        else some s' in
      if_keeps FarIn (c.code == u32_max) (some (record s { key_val = c.buffer }))
        (then_note_hole sort c.hole merged_or) far
        (then_note_hole-IsFar c.hole merged_or (
          if_keeps FarIn (leb s.proc_count c.code)
            (merge_sort_with_blackouts_increasing sort fuel s') (some s') (merge-IsFar fuel s')
            far))

  manage_update-IsFar :
      (fuel : ℕ) (s : Manager) (key key_update maybe_value : ℕ)
      → IsFar s
      → FarIn (manage_update sort fuel s key key_update maybe_value)
  unfolding manage_update
  manage_update-IsFar fuel s key key_update maybe_value far =
      let start = s.max_hole.second in
      let far_change =
        entry_key_upate key key_update s.key_val start (sub32 s.n start) s.m maybe_value false in
      let near_change =
        entry_key_upate key key_update s.key_val 0 s.n s.m maybe_value
          (not (s.blackout_count == 0)) in
      if_keeps FarIn (leb s.max_hole.first key) (updated sort fuel s key_update start far_change)
        (updated sort fuel s key_update 0 near_change)
        (updated-IsFar fuel s key_update start far_change far)
        (updated-IsFar fuel s key_update 0 near_change far)

  update_entry-IsFar :
      (fuel : ℕ) (s : Manager) (key old_key maybe_value : ℕ)
      → IsFar s
      → FarWith (update_entry sort fuel s key old_key maybe_value)
  unfolding update_entry
  update_entry-IsFar fuel s key old_key maybe_value far =
      if_keeps FarWith (leb s.max (add32 s.n s.m)) (some (false, s))
        (true_and sort (manage_update sort fuel s old_key key maybe_value)) far
        (go (manage_update sort fuel s old_key key maybe_value)
          (manage_update-IsFar fuel s old_key key maybe_value far))
    where
      go : (r : Option Manager) → FarIn r → FarWith (true_and sort r)
      go none h = tt
      go (some t) h = h

  rectify-IsFar :
      (fuel : ℕ) (s : Manager) (tolerance : ℕ)
      → IsFar s
      → FarIn (rectify_blackout_count sort fuel s tolerance)
  unfolding rectify_blackout_count
  rectify-IsFar fuel s tolerance far =
      if_keeps FarIn (leb s.blackout_count tolerance)
        (merge_sort_with_blackouts_increasing sort fuel s) (some s) (merge-IsFar fuel s) far

  displaced-IsFar :
      (values : List ℕ) (r : Option Manager) → FarIn r → FarWith (displaced sort values r)
  displaced-IsFar values none far = tt
  displaced-IsFar values (some s) far = far

  displace-IsFar :
      (fuel : ℕ) (s : Manager) (min_max max_count : ℕ)
      → IsFar s
      → FarWith (displace_lowest_value_threshold sort fuel s min_max max_count)
  unfolding displace_lowest_value_threshold
  displace-IsFar fuel s min_max max_count far =
      let (values, b, p, copy, moved) =
        displace_from sort max_count s.key_val min_max 0 (max_count + 1) (s.n + s.m) 0 in
      let s' = record s {
        key_val = close_up sort b (s.n + s.m - copy) p copy;
        n = sub32 s.n moved;
      } in
      displaced-IsFar values (rectify_blackout_count sort fuel s' u32_max)
        (rectify-IsFar fuel s' u32_max far)

  FarWith-of :
      {A : Type 0} (r : Option (A × Manager)) (a : A) (t : Manager)
      → FarWith r
      → r ≡ some (a, t)
      → IsFar t
  FarWith-of r a t far e = subst FarWith e far

  Step-IsFar : {s t : Manager} → Step sort s t → IsFar s → IsFar t
  Step-IsFar {s} (adds key value r e) far =
      subst (λ (x : Bool × Manager). IsFar x.1) e (add_entry-IsFar s key value far)
  Step-IsFar {s} {t} (removes fuel key r e) far =
      FarWith-of (remove_entry fuel s key) r t (remove_entry-IsFar fuel s key far) e
  Step-IsFar {s} {t} (updates fuel key old_key value r e) far =
      FarWith-of (update_entry sort fuel s key old_key value) r t
        (update_entry-IsFar fuel s key old_key value far) e
  Step-IsFar {s} (rectifies fuel tolerance e) far =
      subst FarIn e (rectify-IsFar fuel s tolerance far)
  Step-IsFar {s} {t} (displaces fuel min_max max_count values e) far =
      FarWith-of (displace_lowest_value_threshold sort fuel s min_max max_count) values t
        (displace-IsFar fuel s min_max max_count far) e

  pub Reach-IsFar : {s t : Manager} → Reach sort s t → IsFar s → IsFar t
  Reach-IsFar here far = far
  Reach-IsFar (next r st) far = Step-IsFar st (Reach-IsFar r far)
