-- ===== src/Hopscotch/Store.antt =====
-- `put_hh_hash` of src/node_shm_HH.h against the multiset of entries.
use native.Mathlib.Decide.{ℕ_discrete}
use shm_lru_aging_and_quotas.Base.Mem.{total, total-le}
use shm_lru_aging_and_quotas.Base.Tests.{
  ℕ, zero, suc, ◌+◌, ◌%◌, ◌<◌, ◌≡◌, ◌≢◌, refl, sym, ap, ◌∙◌, inl, inr, Bool, true, false, Option,
  some, ◌&&◌, ◌||◌, arith, ◌==◌, if◌then◌else◌, Bool-cases, ==_of_ne,
}
use shm_lru_aging_and_quotas.Base.Words.{u32_max}
use shm_lru_aging_and_quotas.Hopscotch.{Table, probe, Hop, place, finish_put, put_hh_hash}
use shm_lru_aging_and_quotas.Hopscotch.Inv.{IsTable, used, tally}
use shm_lru_aging_and_quotas.Hopscotch.Place.{place-IsTable, place-count, tally-place}
use shm_lru_aging_and_quotas.Hopscotch.Put.{
  Same, Same-refl, Frozen, Hopped, hopped, blocked, hop_back_lem,
}
use shm_lru_aging_and_quotas.Hopscotch.Scan.{full, hole, probe_lem}

-- `u` is `t` with one more entry, `v` in bucket `b`.
pub record Gains (t : Table) (b v : ℕ) (u : Table) : Type 0 where
  pub size : u.max_n ≡ t.max_n
  pub number : u.count ≡ t.count + 1
  pub entries :
      (c x : ℕ) → c < t.max_n → tally u c x ≡ tally t c x + (if c == b && x == v then 1 else 0)

-- Why a value is refused: it is 0, there is no empty slot, or the hole cannot be brought near.
pub data Refusal (t u : Table) (b v : ℕ) : Type 0 where
  no_value : v ≡ 0 → Refusal t u b v
  no_slot : ((p : ℕ) → p < t.max_n → t.region_v p ≢ 0) → Refusal t u b v
  no_move : Frozen u b → Refusal t u b v

pub data Stored (t : Table) (b v : ℕ) (r : Option (Bool × Table)) : Type 0 where
  stored : (u : Table) → IsTable u → Gains t b v u → r ≡ some (true, u) → Stored t b v r
  refused :
      (u : Table) → IsTable u → Same t u → Refusal t u b v → r ≡ some (false, u) → Stored t b v r

module _ {t : Table} (valid : IsTable t) where
  -- with as many entries as slots no slot is empty
  all_used :
      (n : ℕ) (v : ℕ → ℕ) → total n (λ p. if v p == 0 then 0 else 1) ≡ n → (p : ℕ) → p < n → v p ≢ 0
  unfolding total
  all_used zero v e p lt = absurd (omega arith)
  all_used (suc n) v e p lt =
      let most = total-le n (λ q. if v q == 0 then 0 else 1) (λ q. ground arith) in
      elim (ℕ_discrete p n) [
        | yes same ↦ rw same (ground arith)
        | no other ↦ all_used n v (ground arith) p (omega arith)
      ]

  no_slot_left : t.count ≡ t.max_n → (p : ℕ) → p < t.max_n → t.region_v p ≢ 0
  unfolding used
  no_slot_left e = all_used t.max_n t.region_v (sym valid.counted ∙ e)

  module _ (b v : ℕ) (bn : b < t.max_n) (value : v ≢ 0) where
    finish_put-Stored : {r : Hop} → Hopped t b r → Stored t b v (finish_put b v r)
    unfolding finish_put
    finish_put-Stored (hopped {u} {d} good same dk dn empty) =
        let bu : b < u.max_n = omega (arith, same.size) in
        let dk' : d < u.neighbor = omega (arith, same.reach) in
        let dn' : d < u.max_n = omega (arith, same.size) in
        stored (place u b d v) (place-IsTable good b d v bu dk' dn' empty value)
          (record {
            size = unfold place in same.size;
            number = place-count good b d v bu dk' dn' empty value ∙ ap (λ n. n + 1) same.number;
            entries = λ c x cn.
                let one =
                  tally-place good b d v bu dk' dn' empty value c x (omega (arith, same.size)) in
                one ∙ ap (λ n. n + (if c == b && x == v then 1 else 0)) (same.entries c x cn);
          })
          refl
    finish_put-Stored (blocked {u} good same f) = refused u good same (no_move f) refl

Refusal-early :
    (t : Table) → IsTable t → (b v : ℕ) → (t.count == t.max_n || v == 0) ≡ true → Refusal t t b v
Refusal-early t valid b v e = elim (ℕ_discrete t.count t.max_n) [
  | yes many ↦ no_slot (no_slot_left valid many)
  | no few ↦ no_value (ground arith)
]

-- Storing a value either adds exactly one entry to its bucket, or adds none and loses none, and
-- then says why; it always ends, and the table stays well formed.
pub put_hh_hash-Stored :
    {t : Table} → IsTable t → (hash v : ℕ) → Stored t (hash % t.max_n) v (put_hh_hash t hash v)
unfolding put_hh_hash
put_hh_hash-Stored {t} valid hash v =
    let b = hash % t.max_n in
    let bn : b < t.max_n = omega (arith, valid.positive) in
    elim (Bool-cases (t.count == t.max_n || v == 0)) [
      | inl e ↦ rw e (refused t valid (Same-refl t) (Refusal-early t valid b v e) refl)
      | inr go ↦ rw go (elim (probe_lem t b bn) [
        | full e all ↦ rw e (refused t valid (Same-refl t) (no_slot all) refl)
        | hole dn empty first ↦
            let e : (probe t b == u32_max) ≡ false = ==_of_ne _ _ (omega (arith, valid.small)) in
            rw e (
              finish_put-Stored valid b v bn (λ z. ground arith)
                (hop_back_lem (suc (probe t b)) t b (probe t b) valid bn dn empty (omega arith)))
      ])
    ]
