-- ===== src/Lru/Selector.antt =====
-- Which of the two hash tables of src/node_shm_LRU.h an operation uses.
use native.Mathlib.Decide.{ℕ_discrete}
use shm_lru_aging_and_quotas.Base.Tests.{
  ℕ, ◌%◌, ◌^◌, ◌<◌, ◌≡◌, ◌≢◌, refl, sym, ap, ◌∙◌, Option, none, some, List, [], ◌∷◌, arith, ◌==◌,
  ==_of_ne, ==_refl, Bool-cases, inl, inr,
}
use shm_lru_aging_and_quotas.Base.Words.{u32_max, load64, load64-eq-add}
use shm_lru_aging_and_quotas.Lru.{Hashes}
use shm_lru_aging_and_quotas.Lru.Hash.{
  HmapInterface, hmap, store_with, set_hmap, kept, store_in_hash, check_for_hash, remove_key, find,
  erase,
}

load64-parity : (full bucket : ℕ) → bucket < 2 ^ 32 → load64 full bucket % 2 ≡ bucket % 2
load64-parity full bucket lt = omega (arith, load64-eq-add full bucket lt)

find-erase : (k : ℕ) (xs : List (ℕ × ℕ)) → find k (erase k xs) ≡ none
find-erase k [] = refl
find-erase k ((a, v) ∷ xs) = ground (arith, find-erase k xs)

module _ {T : Type 0} where
  abbrev hashes_or : Hashes T → Option (ℕ × Hashes T) → Hashes T
  hashes_or h none = h
  hashes_or h (some (r, w)) = w

  hmap-set_hmap_apart :
      (h : Hashes T) (a b : ℕ) (t : T) → a % 2 ≢ b % 2 → hmap (set_hmap h a t) b ≡ hmap h b
  hmap-set_hmap_apart h a b t apart = elim (ℕ_discrete (a % 2) 0) [
    | yes e ↦ let odd : b % 2 ≢ 0 = omega arith in rw (e, ==_of_ne (b % 2) 0 odd) refl
    | no ne ↦ let even : b % 2 ≡ 0 = omega arith in rw (==_of_ne (a % 2) 0 ne, even) refl
  ]

  kept-hmap :
      (h : Hashes T) (a b : ℕ)
      → a % 2 ≢ b % 2
      → (s : Option (ℕ × T)) (r : ℕ) (w : Hashes T) → kept h a s ≡ some (r, w)
      → hmap w b ≡ hmap h b
  kept-hmap h a b apart none r w e = ground arith
  kept-hmap h a b apart (some (q, t)) r w e =
      ap (λ o. hmap (hashes_or h o) b) (sym e) ∙ hmap-set_hmap_apart h a b t apart

  no_hmap : (h : Hashes T) → h.hmap_0 ≡ none → h.hmap_1 ≡ none → (key : ℕ) → hmap h key ≡ none
  no_hmap h no_0 no_1 key = elim (Bool-cases (key % 2 == 0)) [
    | inl e ↦ rw e no_0
    | inr e ↦ rw e no_1
  ]

  both_there :
      (h : Hashes T) (t0 t1 : T)
      → h.hmap_0 ≡ some t0
      → h.hmap_1 ≡ some t1
      → (key : ℕ) → (t : T) × (hmap h key ≡ some t)
  both_there h t0 t1 here there key = elim (Bool-cases (key % 2 == 0)) [
    | inl e ↦ (t0, rw e here)
    | inr e ↦ (t1, rw e there)
  ]

module _ {T : Type 0} (i : HmapInterface T) (h : Hashes T) (full bucket offset : ℕ)
    (small : bucket < 2 ^ 32) where
  -- `store_in_hash` chooses the table by the full hash, `check_for_hash` by the key of 64 bits, whose lowest
  -- bit is that of the bucket. Where the two bits differ and both tables are there, what is stored has no
  -- influence on a later `check_for_hash` of the same key, which asks the other table.
  pub check_for_hash-store_in_hash_apart :
      (t0 t1 : T)
      → h.hmap_0 ≡ some t0
      → h.hmap_1 ≡ some t1
      → full % 2 ≢ bucket % 2
      → (r : ℕ) (w : Hashes T) → store_in_hash i h full bucket offset ≡ some (r, w)
      → check_for_hash i w (load64 full bucket) ≡ check_for_hash i h (load64 full bucket)
  unfolding check_for_hash store_in_hash
  check_for_hash-store_in_hash_apart t0 t1 here there apart r w stored =
      let k = load64 full bucket in
      let (t, at) = both_there h t0 t1 here there full in
      let (u, at_k) = both_there h t0 t1 here there k in
      let split : full % 2 ≢ k % 2 = omega (arith, load64-parity full bucket small) in
      let puts : kept h full (i.store t bucket full offset) ≡ some (r, w) =
        ap (λ o. store_with i h o full bucket offset) (sym at) ∙ stored in
      let same = kept-hmap h full k split (i.store t bucket full offset) r w puts in
      rw (same ∙ at_k, at_k) refl

  -- Without shared tables, for a bucket of 32 bits, a stored offset is found under its key until
  -- the key is removed, and then no more.
  pub remove_key-store_in_hash_local :
      h.hmap_0 ≡ none
      → h.hmap_1 ≡ none
      → (w v : Hashes T) × (store_in_hash i h full bucket offset ≡ some (0, w))
        × (check_for_hash i w (load64 full bucket) ≡ some offset)
        × (remove_key i w (load64 full bucket) ≡ some (0, v))
        × (check_for_hash i v (load64 full bucket) ≡ some u32_max)
  unfolding check_for_hash store_in_hash remove_key
  remove_key-store_in_hash_local no_0 no_1 =
      let k = load64 full bucket in
      let w = record h { local_hash_table = (k, offset) ∷ erase k h.local_hash_table } in
      let v = record h { local_hash_table = erase k (erase k h.local_hash_table) } in
      (
        w,
        v,
        rw (no_hmap h no_0 no_1 full) refl,
        rw (no_hmap w no_0 no_1 k, ==_refl k) refl,
        rw (no_hmap w no_0 no_1 k, ==_refl k) refl,
        rw (no_hmap v no_0 no_1 k, find-erase k (erase k h.local_hash_table)) refl,
      )
