-- ===== src/Base/Bits/Digits.antt =====
-- The binary digits of native numbers: the laws of `&`, `|`, complements and truncation.
use Prim.Native.Nat.{bit_and, bit_or, digits, bit_and-bitwise, bit_or-bitwise, min, max}
use native.Mathlib.Nat.{
  pow-suc, one-le-pow, div-add-mod, mod-lt, mod-eq_of_lt, mul-add-mod_self_left,
}
use shm_lru_aging_and_quotas.Base.Tests.{
  ℕ, zero, suc, ◌+◌, ◌-◌, ◌*◌, ◌/◌, ◌%◌, ◌^◌, ◌≤◌, ◌<◌, ◌≡◌, refl, sym, ap, ◌∙◌, Bool, false, not,
  ◌&&◌, ◌||◌, arith, ltb, ◌==◌,
}

-- Digit `i` of `h`.
unfoldable pub testbit : ℕ → ℕ → Bool
testbit h zero = h % 2 == 1
testbit h (suc i) = testbit (h / 2) i

pub testbit-zero : (i : ℕ) → testbit 0 i ≡ false
unfolding testbit
testbit-zero zero = refl
testbit-zero (suc i) = testbit-zero i

-- A digit put in front of the digits of `x`.
testbit-cons : (x d i : ℕ) → d ≤ 1 → testbit (x * 2 + d) (suc i) ≡ testbit x i
unfolding testbit
testbit-cons x d i h = let e : (x * 2 + d) / 2 ≡ x = omega arith in ap (λ y. testbit y i) e

min-le : (a b : ℕ) → min (a % 2) (b % 2) ≤ 1
min-le a b = omega arith

max-le : (a b : ℕ) → max (a % 2) (b % 2) ≤ 1
max-le a b = omega arith

and_digits :
    (n a b i : ℕ) → a ≤ n → testbit (digits (λ b. zero) min n a b) i ≡ (testbit a i && testbit b i)
unfolding testbit
and_digits zero zero b i h = ground (arith, testbit-zero i)
and_digits zero (suc a) b i h = absurd (omega arith)
and_digits (suc n) zero b i h = ground (arith, testbit-zero i)
and_digits (suc n) (suc a) b zero h = ground arith
and_digits (suc n) (suc a) b (suc i) h =
    testbit-cons _ _ i (min-le (suc a) b) ∙ and_digits n (suc a / 2) (b / 2) i (omega arith)

or_digits :
    (n a b i : ℕ) → a ≤ n → testbit (digits (λ b. b) max n a b) i ≡ (testbit a i || testbit b i)
unfolding testbit
or_digits zero zero b i h = ground (arith, testbit-zero i)
or_digits zero (suc a) b i h = absurd (omega arith)
or_digits (suc n) zero b i h = ground (arith, testbit-zero i)
or_digits (suc n) (suc a) b zero h = ground arith
or_digits (suc n) (suc a) b (suc i) h =
    testbit-cons _ _ i (max-le (suc a) b) ∙ or_digits n (suc a / 2) (b / 2) i (omega arith)

pub testbit-and : (a b i : ℕ) → testbit (bit_and a b) i ≡ (testbit a i && testbit b i)
testbit-and a b i = ap (λ x. testbit x i) (bit_and-bitwise a b) ∙ and_digits a a b i (omega arith)

pub testbit-or : (a b i : ℕ) → testbit (bit_or a b) i ≡ (testbit a i || testbit b i)
testbit-or a b i = ap (λ x. testbit x i) (bit_or-bitwise a b) ∙ or_digits a a b i (omega arith)

-- Two numbers with the same digits are equal.
pub eq_of_testbit : (n a b : ℕ) → a ≤ n → b ≤ n → ((i : ℕ) → testbit a i ≡ testbit b i) → a ≡ b
unfolding testbit
eq_of_testbit zero a b p q h = omega arith
eq_of_testbit (suc n) a b p q h =
    let low : (a % 2 == 1) ≡ (b % 2 == 1) = h 0 in
    let high = eq_of_testbit n (a / 2) (b / 2) (omega arith) (omega arith) (λ i. h (suc i)) in
    ground arith

-- `1L << k`
pub testbit-pow : (k i : ℕ) → testbit (2 ^ k) i ≡ (i == k)
unfolding testbit
testbit-pow zero zero = refl
testbit-pow zero (suc i) = ground (arith, testbit-zero i)
testbit-pow (suc k) zero = ground (arith, pow-suc 2 k)
testbit-pow (suc k) (suc i) =
    let e : 2 ^ suc k / 2 ≡ 2 ^ k = omega (arith, pow-suc 2 k) in
    ap (λ x. testbit x i) e ∙ testbit-pow k i ∙ ground arith

-- the complement in `w` digits
pub testbit-complement :
    (w x i : ℕ) → x < 2 ^ w → testbit (2 ^ w - 1 - x) i ≡ (ltb i w && not (testbit x i))
unfolding testbit
testbit-complement zero x i h =
    let e : 2 ^ zero - 1 - x ≡ 0 = omega arith in
    ap (λ y. testbit y i) e ∙ testbit-zero i ∙ ground arith
testbit-complement (suc w) x zero h = ground (arith, pow-suc 2 w)
testbit-complement (suc w) x (suc i) h =
    let e : (2 ^ suc w - 1 - x) / 2 ≡ 2 ^ w - 1 - x / 2 = omega (arith, pow-suc 2 w) in
    ap (λ y. testbit y i) e
    ∙ testbit-complement w (x / 2) i (omega (arith, pow-suc 2 w))
    ∙ ground arith

pub testbit-ones : (k i : ℕ) → testbit (2 ^ k - 1) i ≡ ltb i k
unfolding testbit
testbit-ones zero i = testbit-zero i ∙ ground arith
testbit-ones (suc k) zero = ground (arith, pow-suc 2 k, one-le-pow k 2 (omega arith))
testbit-ones (suc k) (suc i) =
    let e : (2 ^ suc k - 1) / 2 ≡ 2 ^ k - 1 =
      omega (arith, pow-suc 2 k, one-le-pow k 2 (omega arith)) in
    ap (λ y. testbit y i) e ∙ testbit-ones k i ∙ ground arith

pub mod_double_low : (p x : ℕ) → 0 < p → x % (p * 2) % 2 ≡ x % 2
mod_double_low p x pos = omega (arith, div-add-mod x (p * 2))

pub mod_double_high : (p x : ℕ) → 0 < p → x % (p * 2) / 2 ≡ x / 2 % p
mod_double_high p x pos =
    let low : x % (p * 2) < p * 2 = mod-lt x (omega arith) in
    let e : x / 2 ≡ p * (x / (p * 2)) + x % (p * 2) / 2 = omega (arith, div-add-mod x (p * 2)) in
    sym (
      ap (λ y. y % p) e
      ∙ mul-add-mod_self_left p (x / (p * 2)) (x % (p * 2) / 2)
      ∙ mod-eq_of_lt (omega arith))

-- truncation to `w` digits
pub testbit-mod : (w x i : ℕ) → testbit (x % 2 ^ w) i ≡ (ltb i w && testbit x i)
unfolding testbit
testbit-mod zero x i =
    let e : x % 2 ^ zero ≡ 0 = omega arith in
    ap (λ y. testbit y i) e ∙ testbit-zero i ∙ ground arith
testbit-mod (suc w) x zero =
    rw (pow-suc 2 w) (ground (arith, mod_double_low (2 ^ w) x (one-le-pow w 2 (omega arith))))
testbit-mod (suc w) x (suc i) =
    let e : x % 2 ^ suc w / 2 ≡ (x / 2) % 2 ^ w =
      rw (pow-suc 2 w) (mod_double_high (2 ^ w) x (one-le-pow w 2 (omega arith))) in
    ap (λ y. testbit y i) e ∙ testbit-mod w (x / 2) i ∙ ground arith

pub testbit-high : (w h i : ℕ) → h < 2 ^ w → w ≤ i → testbit h i ≡ false
unfolding testbit
testbit-high zero h i lt le =
    let e : h ≡ 0 = omega arith in ap (λ y. testbit y i) e ∙ testbit-zero i
testbit-high (suc w) h zero lt le = absurd (omega arith)
testbit-high (suc w) h (suc i) lt le =
    testbit-high w (h / 2) i (omega (arith, pow-suc 2 w)) (omega arith)

pub lt-pow_of_testbit : (w h : ℕ) → ((i : ℕ) → w ≤ i → testbit h i ≡ false) → h < 2 ^ w
unfolding testbit
lt-pow_of_testbit zero h f =
    let e =
      eq_of_testbit h h 0 (omega arith) (omega arith)
        (λ i. f i (omega arith) ∙ ground (arith, testbit-zero i)) in
    omega arith
lt-pow_of_testbit (suc w) h f =
    let rest = lt-pow_of_testbit w (h / 2) (λ i le. f (suc i) (omega arith)) in
    omega (arith, pow-suc 2 w)

shift_suc : (hi w : ℕ) → hi * 2 ^ suc w ≡ hi * 2 ^ w * 2
shift_suc hi w = omega (arith, ap (λ (t : ℕ). hi * t) (pow-suc 2 w))

-- `(hi << w) | lo` puts two fields side by side.
testbit-pack :
    (w hi lo i : ℕ)
    → lo < 2 ^ w
    → testbit (hi * 2 ^ w + lo) i ≡ (testbit (hi * 2 ^ w) i || testbit lo i)
unfolding testbit
testbit-pack zero hi lo i lt =
    let e : hi * 2 ^ zero + lo ≡ hi * 2 ^ zero = omega arith in
    let z : lo ≡ 0 = omega arith in
    ground (arith, ap (λ y. testbit y i) e, ap (λ y. testbit y i) z, testbit-zero i)
testbit-pack (suc w) hi lo zero lt = let even = shift_suc hi w in ground arith
testbit-pack (suc w) hi lo (suc i) lt =
    let e : (hi * 2 ^ suc w + lo) / 2 ≡ hi * 2 ^ w + lo / 2 = omega (arith, shift_suc hi w) in
    let f : (hi * 2 ^ suc w) / 2 ≡ hi * 2 ^ w = omega (arith, shift_suc hi w) in
    ap (λ y. testbit y i) e
    ∙ testbit-pack w hi (lo / 2) i (omega (arith, pow-suc 2 w))
    ∙ ap (λ y. testbit y i || testbit (lo / 2) i) (sym f)

pub bit_or-pack : (w hi lo : ℕ) → lo < 2 ^ w → bit_or (hi * 2 ^ w) lo ≡ hi * 2 ^ w + lo
bit_or-pack w hi lo lt =
    let n = bit_or (hi * 2 ^ w) lo + (hi * 2 ^ w + lo) in
    eq_of_testbit n _ _ (omega arith) (omega arith)
      (λ i. testbit-or (hi * 2 ^ w) lo i ∙ sym (testbit-pack w hi lo i lt))
