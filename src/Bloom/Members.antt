-- ===== src/Bloom/Members.antt =====
-- Which members the filter of c_experiments/src/bloom.h finds.
use Prim.Native.Nat.{bit_and, bit_or}
use shm_lru_aging_and_quotas.Base.Bits.Digits.{testbit, testbit-and, testbit-or, testbit-pow}
use shm_lru_aging_and_quotas.Base.Tests.{
  ℕ, ◌%◌, ◌^◌, ◌≡◌, ◌≢◌, refl, sym, ap, ◌∙◌, arith, Bool, true, false, ◌&&◌, ◌||◌, ◌==◌, Bool-cases,
  eq_of_==, ne_of_==, ==_refl, inl, inr,
}
use shm_lru_aging_and_quotas.Bloom.{
  AtomicBloom, Hashes, byte_index, bit_offset, out_of_range, set_one, set_five, set_bloom_bits,
  check_one, check_five, check_bloom_bits,
}

-- the lowest bit, which is all that a check sees
abbrev low : ℕ → Bool
low x = x % 2 == 1

low-and : (x i : ℕ) → low (bit_and x (2 ^ i)) ≡ (low x && (i == 0))
unfolding testbit
low-and x i =
    let bit : testbit (2 ^ i) 0 ≡ (i == 0) = testbit-pow i 0 ∙ ground arith in
    testbit-and x (2 ^ i) 0 ∙ ap (λ (b : Bool). testbit x 0 && b) bit

low-or : (x i : ℕ) → low (bit_or x (2 ^ i)) ≡ (low x || (i == 0))
unfolding testbit
low-or x i =
    let bit : testbit (2 ^ i) 0 ≡ (i == 0) = testbit-pow i 0 ∙ ground arith in
    testbit-or x (2 ^ i) 0 ∙ ap (λ (b : Bool). testbit x 0 || b) bit

or_false : (b : Bool) → (b || false) ≡ b
or_false true = refl
or_false false = refl

or_true : (b : Bool) → (b || true) ≡ true
or_true true = refl
or_true false = refl

and_false : (b : Bool) → (b && false) ≡ false
and_false true = refl
and_false false = refl

-- the low bit that one of the updates sets
abbrev marks : (h p : ℕ) → Bool
marks h p = (p == byte_index h) && (bit_offset h == 0)

set_one-low :
    (bytes : ℕ → ℕ) (adding : Bool) (h p : ℕ)
    → low ((set_one (bytes, adding) h).0 p) ≡ (low (bytes p) || marks h p)
unfolding set_one
set_one-low bytes adding h p = elim (Bool-cases (p == byte_index h)) [
  | inl e ↦
      let same : p ≡ byte_index h = eq_of_== p (byte_index h) e in
      rw (e, same) (low-or (bytes (byte_index h)) (bit_offset h))
  | inr ne ↦
      let apart : p ≢ byte_index h = ne_of_== p (byte_index h) ne in
      rw ne (sym (or_false (low (bytes p))))
]

check_one_lem :
    (bytes : ℕ → ℕ) (included : Bool) (h : ℕ)
    → check_one bytes included h ≡ (included && (low (bytes (byte_index h)) && (bit_offset h == 0)))
unfolding check_one
check_one_lem bytes true h = low-and (bytes (byte_index h)) (bit_offset h)
check_one_lem bytes false h = refl

-- whether a hash is looked for and found
abbrev found : (ℕ → ℕ) → (h : ℕ) → Bool
found bytes h = low (bytes (byte_index h)) && (bit_offset h == 0)

check_five_lem :
    (bytes : ℕ → ℕ) (h : Hashes)
    → check_five bytes h ≡ (
        (((found bytes h.h1 && found bytes h.h2) && found bytes h.h3) && found bytes h.h4)
        && found bytes h.h5)
check_five_lem bytes h =
    let two = found bytes h.h1 && found bytes h.h2 in
    let three = two && found bytes h.h3 in
    rw
      (
        check_one_lem bytes true h.h1,
        check_one_lem bytes (found bytes h.h1) h.h2,
        check_one_lem bytes two h.h3,
        check_one_lem bytes three h.h4,
        check_one_lem bytes (three && found bytes h.h4) h.h5,
      )
      refl

or_keeps : (x y z : Bool) → (x && z) ≡ true → ((x || y) && z) ≡ true
or_keeps true y z e = e
or_keeps false y z e = absurd (cc e)

or_self : (x c : Bool) → ((x || c) && c) ≡ c
or_self true c = refl
or_self false true = refl
or_self false false = refl

-- nothing that is set is taken back
keeps :
    (bytes : ℕ → ℕ) (adding : Bool) (g h : ℕ)
    → found bytes h ≡ true
    → found (set_one (bytes, adding) g).0 h ≡ true
keeps bytes adding g h e =
    ap (λ (v : Bool). v && (bit_offset h == 0)) (set_one-low bytes adding g (byte_index h))
    ∙ or_keeps (low (bytes (byte_index h))) (marks g (byte_index h)) (bit_offset h == 0) e

-- what has been set is found where its offset is 0
sets :
    (bytes : ℕ → ℕ) (adding : Bool) (h : ℕ)
    → found (set_one (bytes, adding) h).0 h ≡ (bit_offset h == 0)
sets bytes adding h =
    let here : marks h (byte_index h) ≡ (bit_offset h == 0) = rw (==_refl (byte_index h)) refl in
    ap (λ (v : Bool). v && (bit_offset h == 0)) (set_one-low bytes adding h (byte_index h))
    ∙ ap (λ (m : Bool). (low (bytes (byte_index h)) || m) && (bit_offset h == 0)) here
    ∙ or_self (low (bytes (byte_index h))) (bit_offset h == 0)

later :
    (p : (ℕ → ℕ) × Bool) (g h : ℕ)
    → found p.0 h ≡ (bit_offset h == 0)
    → found (set_one p g).0 h ≡ (bit_offset h == 0)
later (bytes, adding) g h e = elim (Bool-cases (bit_offset h == 0)) [
  | inl at ↦ keeps bytes adding g h (e ∙ at) ∙ sym at
  | inr off ↦ rw off (and_false (low ((set_one (bytes, adding) g).0 (byte_index h))))
]

now : (p : (ℕ → ℕ) × Bool) (h : ℕ) → found (set_one p h).0 h ≡ (bit_offset h == 0)
now (bytes, adding) h = sets bytes adding h

-- the five tests of a call
abbrev pub all_five : (test : ℕ → Bool) → Hashes → Bool
all_five test h = (((test h.h1 && test h.h2) && test h.h3) && test h.h4) && test h.h5

set_five-found :
    (bytes : ℕ → ℕ) (h : Hashes)
    → check_five (set_five bytes h).0 h ≡ all_five (λ k. bit_offset k == 0) h
set_five-found bytes h =
    let one = set_one (bytes, false) h.h1 in
    let two = set_one one h.h2 in
    let three = set_one two h.h3 in
    let four = set_one three h.h4 in
    check_five_lem (set_five bytes h).0 h
    ∙ rw
        (
          later four h.h5 h.h1 (
              later three h.h4 h.h1
                (later two h.h3 h.h1 (later one h.h2 h.h1 (now (bytes, false) h.h1)))),
          later four h.h5 h.h2 (later three h.h4 h.h2 (later two h.h3 h.h2 (now one h.h2))),
          later four h.h5 h.h3 (later three h.h4 h.h3 (now two h.h3)),
          later four h.h5 h.h4 (now three h.h4),
          now four h.h5,
        )
        refl

-- A member whose five hashes lie in the region is found after it has been added exactly if each of the hashes
-- has the offset 0 in its byte, that is, is a multiple of 4: any other is not found.
pub check-set_bloom_bits :
    (b : AtomicBloom) (h : Hashes)
    → out_of_range b h ≡ false
    → ((set_bloom_bits b h).0 ≡ true)
      × (check_bloom_bits (set_bloom_bits b h).1 h ≡ all_five (λ k. k % 4 == 0) h)
unfolding set_bloom_bits check_bloom_bits
check-set_bloom_bits b h inside = (rw inside refl, rw (inside, inside) (set_five-found b.bytes h))

-- five updates keep what is found
keeps_five :
    (bytes : ℕ → ℕ) (g : Hashes) (k : ℕ)
    → found bytes k ≡ true
    → found (set_five bytes g).0 k ≡ true
keeps_five bytes g k e =
    let one = set_one (bytes, false) g.h1 in
    let two = set_one one g.h2 in
    let three = set_one two g.h3 in
    let four = set_one three g.h4 in
    keeps four.0 four.1 g.h5 k (
      keeps three.0 three.1 g.h4 k
        (keeps two.0 two.1 g.h3 k (keeps one.0 one.1 g.h2 k (keeps bytes false g.h1 k e))))

all_true :
    (a b c d e : Bool)
    → ((((a && b) && c) && d) && e) ≡ true
    → (a ≡ true) × (b ≡ true) × (c ≡ true) × (d ≡ true) × (e ≡ true)
all_true true true true true true h = (refl, refl, refl, refl, refl)
all_true true true true true false h = absurd (cc h)
all_true true true true false e h = absurd (cc h)
all_true true true false d e h = absurd (cc h)
all_true true false c d e h = absurd (cc h)
all_true false b c d e h = absurd (cc h)

check_five-keeps :
    (bytes : ℕ → ℕ) (g h : Hashes)
    → check_five bytes h ≡ true
    → check_five (set_five bytes g).0 h ≡ true
check_five-keeps bytes g h e =
    let (a, b, c, d, last) =
      all_true (found bytes h.h1) (found bytes h.h2) (found bytes h.h3) (found bytes h.h4)
        (found bytes h.h5) (sym (check_five_lem bytes h) ∙ e) in
    check_five_lem (set_five bytes g).0 h
    ∙ rw
        (
          keeps_five bytes g h.h1 a,
          keeps_five bytes g h.h2 b,
          keeps_five bytes g h.h3 c,
          keeps_five bytes g h.h4 d,
          keeps_five bytes g h.h5 last,
        )
        refl

-- A member that is found is found as well after any call of `set_bloom_bits`, whether it adds or refuses.
check-set_bloom_bits_other :
    (b : AtomicBloom) (g h : Hashes)
    → check_bloom_bits b h ≡ true
    → check_bloom_bits (set_bloom_bits b g).1 h ≡ true
unfolding set_bloom_bits check_bloom_bits
check-set_bloom_bits_other b g h e = elim (Bool-cases (out_of_range b g)) [
  | inl refused ↦ rw refused e
  | inr added ↦ rw added (elim (Bool-cases (out_of_range b h)) [
    | inl out ↦ absurd (cc (rw out at e))
    | inr inside ↦ rw inside (check_five-keeps b.bytes g h (rw inside at e))
  ])
]
