-- ===== src/Base/Bits/Masks.antt =====
-- `&` and `|` of a word with a mask, as arithmetic.
use Prim.Native.Nat.{bit_and, bit_or}
use native.Mathlib.Nat.{pow-suc, one-le-pow, div-div-eq-div-mul}
use shm_lru_aging_and_quotas.Base.Bits.Digits.{
  testbit, testbit-zero, testbit-and, testbit-or, eq_of_testbit, testbit-ones, testbit-mod,
  mod_double_low, mod_double_high,
}
use shm_lru_aging_and_quotas.Base.Tests.{
  ℕ, zero, suc, ◌+◌, ◌-◌, ◌*◌, ◌/◌, ◌%◌, ◌^◌, ◌<◌, ◌≡◌, sym, ap, ◌∙◌, arith, ◌==◌, ◌&&◌, ◌||◌,
}

-- A mask of the low digits is a remainder.
pub bit_and-ones : (w x : ℕ) → bit_and x (2 ^ w - 1) ≡ x % 2 ^ w
bit_and-ones w x =
    let n = bit_and x (2 ^ w - 1) + x % 2 ^ w in
    eq_of_testbit n _ _ (omega arith) (omega arith)
      (λ i. ground (arith, testbit-and x (2 ^ w - 1) i, testbit-ones w i, testbit-mod w x i))

-- A mask that is even leaves the lowest digit out, and one that is odd keeps it.
half_digit : (x m i : ℕ) → testbit (bit_and x m / 2) i ≡ testbit (bit_and (x / 2) (m / 2)) i
unfolding testbit
half_digit x m i = testbit-and x m (suc i) ∙ sym (testbit-and (x / 2) (m / 2) i)

pub bit_and-half : (x m : ℕ) → bit_and x m / 2 ≡ bit_and (x / 2) (m / 2)
bit_and-half x m =
    let n = bit_and x m / 2 + bit_and (x / 2) (m / 2) in
    eq_of_testbit n _ _ (omega arith) (omega arith) (half_digit x m)

bit_and-lowest : (x m : ℕ) → (bit_and x m % 2 == 1) ≡ (testbit x 0 && testbit m 0)
unfolding testbit
bit_and-lowest x m = testbit-and x m 0

pub bit_and-even : (x m : ℕ) → bit_and x (m * 2) ≡ bit_and (x / 2) m * 2
unfolding testbit
bit_and-even x m =
    let e : (m * 2) / 2 ≡ m = omega arith in
    let half = bit_and-half x (m * 2) ∙ ap (bit_and (x / 2)) e in
    let low = bit_and-lowest x (m * 2) in ground arith

pub bit_and-odd : (x m : ℕ) → bit_and x (m * 2 + 1) ≡ bit_and (x / 2) m * 2 + x % 2
unfolding testbit
bit_and-odd x m =
    let e : (m * 2 + 1) / 2 ≡ m = omega arith in
    let half = bit_and-half x (m * 2 + 1) ∙ ap (bit_and (x / 2)) e in
    let low = bit_and-lowest x (m * 2 + 1) in ground arith

pub bit_and_none : (m : ℕ) → bit_and 0 m ≡ 0
bit_and_none m =
    eq_of_testbit (bit_and 0 m) _ 0 (omega arith) (omega arith)
      (λ i. ground (arith, testbit-and 0 m i, testbit-zero i))

-- A number below the lowest digit of a mask has nothing in common with it.
pub bit_and-apart : (k x m : ℕ) → x < 2 ^ k → bit_and x (m * 2 ^ k) ≡ 0
bit_and-apart zero x m lt =
    let e : x ≡ 0 = omega arith in ap (λ y. bit_and y (m * 2 ^ 0)) e ∙ bit_and_none (m * 2 ^ 0)
bit_and-apart (suc k) x m lt =
    let e : m * 2 ^ suc k ≡ m * 2 ^ k * 2 = omega (arith, ap (λ (t : ℕ). m * t) (pow-suc 2 k)) in
    ap (bit_and x) e
    ∙ bit_and-even x (m * 2 ^ k)
    ∙ ap (λ (t : ℕ). t * 2) (bit_and-apart k (x / 2) m (omega (arith, pow-suc 2 k)))

-- What a stamp on the word 0 holds, and the index that a word gives back.
pub bit_or_none : (x : ℕ) → bit_or 0 x ≡ x
bit_or_none x =
    let n = bit_or 0 x + x in
    eq_of_testbit n _ x (omega arith) (omega arith)
      (λ i. ground (arith, testbit-or 0 x i, testbit-zero i))

div_double : (k x : ℕ) → x / 2 ^ suc k ≡ x / 2 / 2 ^ k
div_double k x =
    ap (λ (t : ℕ). x / t) (omega (arith, pow-suc 2 k)) ∙ sym (div-div-eq-div-mul x 2 (2 ^ k))

-- The field of a word at a mask of `w` digits from digit `k` on.
pub bit_and-field : (k w x : ℕ) → bit_and x ((2 ^ w - 1) * 2 ^ k) ≡ x / 2 ^ k % 2 ^ w * 2 ^ k
bit_and-field zero w x =
    let e : (2 ^ w - 1) * 2 ^ 0 ≡ 2 ^ w - 1 = omega arith in
    let q : x ≡ x / 2 ^ 0 = omega arith in
    ap (bit_and x) e ∙ bit_and-ones w x ∙ omega (arith, ap (λ (t : ℕ). t % 2 ^ w) q)
bit_and-field (suc k) w x =
    let e : (2 ^ w - 1) * 2 ^ suc k ≡ (2 ^ w - 1) * 2 ^ k * 2 =
      omega (arith, ap (λ (t : ℕ). (2 ^ w - 1) * t) (pow-suc 2 k)) in
    let pos = one-le-pow k 2 (omega arith) in
    let q = div_double k x in
    let r = x / 2 / 2 ^ k % 2 ^ w in
    ap (bit_and x) e
    ∙ bit_and-even x _
    ∙ ap (λ (t : ℕ). t * 2) (bit_and-field k w (x / 2))
    ∙ omega (arith, ap (λ (t : ℕ). r * t) (pow-suc 2 k), ap (λ (t : ℕ). t % 2 ^ w * 2 ^ suc k) q)

pub bit_and_comm : (a b : ℕ) → bit_and a b ≡ bit_and b a
bit_and_comm a b =
    eq_of_testbit (bit_and a b + bit_and b a) _ _ (omega arith) (omega arith)
      (λ i. ground (arith, testbit-and a b i, testbit-and b a i))

pub bit_or_comm : (a b : ℕ) → bit_or a b ≡ bit_or b a
bit_or_comm a b =
    eq_of_testbit (bit_or a b + bit_or b a) _ _ (omega arith) (omega arith)
      (λ i. ground (arith, testbit-or a b i, testbit-or b a i))

mod_double : (k x : ℕ) → x % (2 ^ k * 2) ≡ x / 2 % 2 ^ k * 2 + x % 2
mod_double k x =
    let pos = one-le-pow k 2 (omega arith) in
    let low : x % (2 ^ k * 2) % 2 ≡ x % 2 = mod_double_low (2 ^ k) x pos in
    let high : x % (2 ^ k * 2) / 2 ≡ x / 2 % 2 ^ k = mod_double_high (2 ^ k) x pos in
    omega (arith, low, high)

-- A mask that is all ones below digit `k` leaves those digits as they are.
pub bit_and-low :
    (k x m : ℕ) → bit_and x (m * 2 ^ k + (2 ^ k - 1)) ≡ bit_and (x / 2 ^ k) m * 2 ^ k + x % 2 ^ k
bit_and-low zero x m =
    let e : m * 2 ^ 0 + (2 ^ 0 - 1) ≡ m = omega arith in
    let q : x ≡ x / 2 ^ 0 = omega arith in ap (bit_and x) e ∙ ap (λ y. bit_and y m) q ∙ omega arith
bit_and-low (suc k) x m =
    let pos = one-le-pow k 2 (omega arith) in
    let two : 2 ^ suc k ≡ 2 * 2 ^ k = omega (arith, pow-suc 2 k) in
    let e : m * 2 ^ suc k + (2 ^ suc k - 1) ≡ (m * 2 ^ k + (2 ^ k - 1)) * 2 + 1 =
      omega (arith, two, ap (λ (t : ℕ). m * t) (pow-suc 2 k)) in
    let q = div_double k x in
    let b = bit_and (x / 2 / 2 ^ k) m in
    let r : x % 2 ^ suc k ≡ x / 2 % 2 ^ k * 2 + x % 2 =
      ap (λ (t : ℕ). x % t) (pow-suc 2 k) ∙ mod_double k x in
    ap (bit_and x) e
    ∙ bit_and-odd x _
    ∙ ap (λ (t : ℕ). t * 2 + x % 2) (bit_and-low k (x / 2) m)
    ∙ omega
        (arith, r, ap (λ (t : ℕ). b * t) (pow-suc 2 k), ap (λ (t : ℕ). bit_and t m * 2 ^ suc k) q)

or_lowest : (x m : ℕ) → (bit_or x m % 2 == 1) ≡ (testbit x 0 || testbit m 0)
unfolding testbit
or_lowest x m = testbit-or x m 0

half_or : (x m i : ℕ) → testbit (bit_or x m / 2) i ≡ testbit (bit_or (x / 2) (m / 2)) i
unfolding testbit
half_or x m i = testbit-or x m (suc i) ∙ sym (testbit-or (x / 2) (m / 2) i)

pub bit_or-even : (x m : ℕ) → bit_or x (m * 2) ≡ bit_or (x / 2) m * 2 + x % 2
unfolding testbit
bit_or-even x m =
    let n = bit_or x (m * 2) / 2 + bit_or (x / 2) (m * 2 / 2) in
    let half = eq_of_testbit n _ _ (omega arith) (omega arith) (half_or x (m * 2)) in
    let e : (m * 2) / 2 ≡ m = omega arith in
    let to = half ∙ ap (bit_or (x / 2)) e in let low = or_lowest x (m * 2) in ground arith

-- A mask without a digit below `k` leaves those digits as they are.
pub bit_or-low : (k x m : ℕ) → bit_or x (m * 2 ^ k) ≡ bit_or (x / 2 ^ k) m * 2 ^ k + x % 2 ^ k
bit_or-low zero x m =
    let e : m * 2 ^ 0 ≡ m = omega arith in
    let q : x ≡ x / 2 ^ 0 = omega arith in ap (bit_or x) e ∙ ap (λ y. bit_or y m) q ∙ omega arith
bit_or-low (suc k) x m =
    let two : 2 ^ suc k ≡ 2 * 2 ^ k = omega (arith, pow-suc 2 k) in
    let e : m * 2 ^ suc k ≡ m * 2 ^ k * 2 = omega (arith, ap (λ (t : ℕ). m * t) (pow-suc 2 k)) in
    let q = div_double k x in
    let b = bit_or (x / 2 / 2 ^ k) m in
    let r : x % 2 ^ suc k ≡ x / 2 % 2 ^ k * 2 + x % 2 =
      ap (λ (t : ℕ). x % t) (pow-suc 2 k) ∙ mod_double k x in
    ap (bit_or x) e
    ∙ bit_or-even x _
    ∙ ap (λ (t : ℕ). t * 2 + x % 2) (bit_or-low k (x / 2) m)
    ∙ omega
        (arith, r, ap (λ (t : ℕ). b * t) (pow-suc 2 k), ap (λ (t : ℕ). bit_or t m * 2 ^ suc k) q)
