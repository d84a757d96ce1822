-- ===== src/Hopscotch/Put.antt =====
-- The loop of `put_hh_hash` in src/node_shm_HH.h brings the hole near the bucket.
use mathlib.Core.Path.{subst}
use native.Mathlib.Decide.{dec_lt}
use shm_lru_aging_and_quotas.Base.Tests.{
  ℕ, zero, suc, ◌+◌, ◌-◌, ◌*◌, ◌^◌, ◌≤◌, ◌<◌, ◌≡◌, ◌≢◌, refl, sym, ap, ◌∙◌, inl, inr, true, false,
  arith, ltb, ◌==◌, Bool-cases,
}
use shm_lru_aging_and_quotas.Base.Bits.{IsWord, ffs, ffs_lem}
use shm_lru_aging_and_quotas.Base.Words.{add32, sub32, mod_once}
use shm_lru_aging_and_quotas.Hopscotch.{Table, succ, swap, hop_scotch, Hop, frozen, near, hop_back}
use shm_lru_aging_and_quotas.Hopscotch.Inv.{slot, claims, IsTable, tally}
use shm_lru_aging_and_quotas.Hopscotch.Scan.{
  Next, nothing, hit, succ_lem, back, Movable, stuck, movable, hop_scotch_lem,
}
use shm_lru_aging_and_quotas.Hopscotch.Swap.{
  slot-lt, slot-add32, swap-IsTable, tally-swap, vacated, slot-swap,
}

-- The same size, neighborhood and count, and the same entries in each bucket.
pub record Same (t u : Table) : Type 0 where
  pub size : u.max_n ≡ t.max_n
  pub reach : u.neighbor ≡ t.neighbor
  pub number : u.count ≡ t.count
  pub entries : (b x : ℕ) → b < t.max_n → tally u b x ≡ tally t b x

pub Same-refl : (t : Table) → Same t t
Same-refl t = record { size = refl; reach = refl; number = refl; entries = λ b x lt. refl }

Same-trans : {t u w : Table} → Same t u → Same u w → Same t w
Same-trans p q = record {
  size = q.size ∙ p.size;
  reach = q.reach ∙ p.reach;
  number = q.number ∙ p.number;
  entries = λ b x lt. q.entries b x (omega (arith, p.size)) ∙ p.entries b x lt;
}

-- The hole at distance `d` is out of reach, and no entry can move into it.
pub record Frozen (t : Table) (h : ℕ) : Type 0 where
  pub distance : ℕ
  pub far : t.neighbor ≤ distance
  pub below : distance < t.max_n
  pub empty : t.region_v (slot t h distance) ≡ 0
  pub immovable : (i : ℕ) → 0 < i → i < t.neighbor → ¬ Movable t (slot t h distance) i

-- How the loop ends: never by its fuel, and with the entries it began with.
pub data Hopped (t : Table) (h : ℕ) : Hop → Type 0 where
  hopped :
      {u : Table} {d : ℕ}
      → IsTable u
      → Same t u
      → d < t.neighbor
      → d < t.max_n
      → u.region_v (slot u h d) ≡ 0
      → Hopped t h (near u d)
  blocked : {u : Table} → IsTable u → Same t u → Frozen u h → Hopped t h (frozen u)

Hopped-trans : {t u : Table} {h : ℕ} {r : Hop} → Same t u → Hopped u h r → Hopped t h r
Hopped-trans s (hopped valid same dk dn empty) =
    hopped valid (Same-trans s same) (omega (arith, s.reach)) (omega (arith, s.size)) empty
Hopped-trans s (blocked valid same f) = blocked valid (Same-trans s same) f

-- The bucket `j` slots before the hole.
back_arith :
    (n hd j : ℕ)
    → 2 * n + 64 ≤ 2 ^ 32
    → hd < n
    → 0 < j
    → j < n
    → (mod_once (sub32 (add32 n hd) j) n < n)
      × (mod_once (mod_once (sub32 (add32 n hd) j) n + j) n ≡ hd)
back_arith n hd j small hn pos lt = ground arith

-- The new distance is smaller, and leads to the vacated slot.
closer_arith :
    (n h d z i j : ℕ)
    → 2 * n + 64 ≤ 2 ^ 32
    → h < n
    → d < n
    → z < n
    → i < j
    → j < d
    → j < 64
    → mod_once (z + j) n ≡ mod_once (h + d) n
    → (mod_once (sub32 (add32 (add32 n z) i) h) n < d)
      × (mod_once (h + mod_once (sub32 (add32 (add32 n z) i) h) n) n ≡ mod_once (z + i) n)
closer_arith n h d z i j small hn dn zn ij jd j64 e =
    let flat : sub32 (add32 (add32 n z) i) h ≡ n + z + i - h = omega arith in
    let less : mod_once (n + z + i - h) n ≡ d - (j - i) = ground arith in
    rw (flat, less) (omega arith, ground arith)

-- One round of the loop, from a hole out of reach and a bucket that has a movable entry.
module _ {t : Table} (valid : IsTable t) (h d : ℕ) (hn : h < t.max_n) (dn : d < t.max_n)
    (far : t.neighbor ≤ d) (empty : t.region_v (slot t h d) ≡ 0) where
  abbrev hd : ℕ
  hd = mod_once (add32 h d) t.max_n

  at_hole : hd ≡ slot t h d
  at_hole = slot-add32 valid h d hn dn

  abbrev j : ℕ
  j = hop_scotch t hd

  abbrev z : ℕ
  z = back t hd j

  abbrev i : ℕ
  i = succ t z 0

  abbrev d' : ℕ
  d' = mod_once (sub32 (add32 (add32 t.max_n z) i) h) t.max_n

  record Round : Type 0 where
    inside : z < t.max_n
    nearer : i < j
    reach : j < t.neighbor
    bound : j < t.max_n
    claimed : claims t z i ≡ true
    hole : t.region_v (slot t z j) ≡ 0
    closer : d' < d
    lands : slot t h d' ≡ slot t z i

  movable_lt :
      (b k : ℕ)
      → IsWord (t.region_h b)
      → t.region_h b ≢ 0
      → ffs (t.region_h b) < k
      → Next (t.region_h b) 0 (succ t b 0)
      → (succ t b 0 < k) × (claims t b (succ t b 0) ≡ true)
  movable_lt b k w ne lt (nothing e clear) =
      let lowest = (ffs_lem (t.region_h b) w ne).0 in cc (clear (ffs (t.region_h b)) (omega arith))
  movable_lt b k w ne lt (hit low r32 set least) = elim (dec_lt (ffs (t.region_h b)) (succ t b 0)) [
    | no above ↦ (omega arith, set)
    | yes under ↦
        let lowest = (ffs_lem (t.region_h b) w ne).0 in
        cc (least (ffs (t.region_h b)) (omega arith) under)
  ]

  round : 0 < j → j ≤ t.neighbor - 1 → Movable t hd j → Round
  round pos le m =
      let hd_lt : hd < t.max_n = rw at_hole (slot-lt t h d hn dn) in
      let (inside, back_to) =
        back_arith t.max_n hd j valid.small hd_lt pos (omega (arith, valid.nearby)) in
      let (nearer, claimed) =
        movable_lt z j (valid.words z) m.occupied m.nearer
          (succ_lem t z 0 (valid.words z) (omega arith)) in
      let meets : slot t z j ≡ slot t h d = back_to ∙ at_hole in
      let (closer, lands) =
        closer_arith t.max_n h d z i j valid.small hn dn inside nearer (omega (arith, valid.nearby))
          (omega (arith, valid.nearby)) meets in
      record {
        inside = inside;
        nearer = nearer;
        reach = omega (arith, valid.nearby);
        bound = omega (arith, valid.nearby);
        claimed = claimed;
        hole = ap t.region_v meets ∙ empty;
        closer = closer;
        lands = lands;
      }

  -- after the round the table is as good as before, and the hole is nearer
  record After : Type 0 where
    valid' : IsTable (swap t z i j)
    same : Same t (swap t z i j)
    hole : (swap t z i j).region_v (slot (swap t z i j) h d') ≡ 0

  round_after : Round → After
  round_after r = record {
    valid' = swap-IsTable valid z i j r.inside r.nearer r.reach r.bound r.claimed r.hole;
    same =
        unfold swap in
        record {
          size = refl;
          reach = refl;
          number = refl;
          entries = tally-swap valid z i j r.inside r.nearer r.reach r.bound r.claimed r.hole;
        };
    hole =
        ap (swap t z i j).region_v (slot-swap t z i j h d' ∙ r.lands ∙ sym (slot-swap t z i j z i))
        ∙ vacated valid z i j r.inside r.nearer r.reach r.bound r.claimed r.hole;
  }

-- In a well-formed table, from an empty slot at a distance from a bucket, the hopscotch loop
-- ends within that distance plus one rounds. All buckets keep their entries; either there is an
-- empty slot in the neighborhood of the bucket, or no value in reach of the empty slot can move.
pub hop_back_lem :
    (f : ℕ) (t : Table) (h d : ℕ)
    → IsTable t
    → h < t.max_n
    → d < t.max_n
    → t.region_v (slot t h d) ≡ 0
    → d < f
    → Hopped t h (hop_back f t h d)
unfolding hop_back
hop_back_lem zero t h d valid hn dn empty fuel = absurd (omega arith)
hop_back_lem (suc f) t h d valid hn dn empty fuel = elim (Bool-cases (ltb d t.neighbor)) [
  | inl close ↦ rw close (hopped valid (Same-refl t) (ground arith) dn empty)
  | inr away ↦
      let far : t.neighbor ≤ d = ground arith in
      let hd = mod_once (add32 h d) t.max_n in
      let at = at_hole valid h d hn dn far empty in
      rw away (elim (hop_scotch_lem t hd) [
        | stuck e all ↦ rw e (
            blocked valid (Same-refl t) (record {
              distance = d;
              far = far;
              below = dn;
              empty = empty;
              immovable = λ k pos lt m.
                  all k pos (omega arith) (subst (λ (p : ℕ). Movable t p k) (sym at) m);
            }))
        | movable pos le m ↦
            let e : (hop_scotch t hd == 0) ≡ false = ground arith in
            let r = round valid h d hn dn far empty pos le m in
            let next = round_after valid h d hn dn far empty r in
            rw e (
              Hopped-trans next.same (
                hop_back_lem f _ h _ next.valid' (omega (arith, next.same.size))
                  (omega (arith, next.same.size, r.closer)) next.hole (omega (arith, r.closer))))
      ])
]
