-- ===== src/Base/Bits.antt =====
-- The bit macros of src/hmap_interface.h (`GET`, `SET`, `UNSET`, `FFS`), and the mask of `_next`.
pub mod Digits
pub mod Masks
use Prim.Native.Nat.{bit_and, bit_or}
use native.Mathlib.Nat.{pow-suc, one-le-pow, pow-le-pow_right, le_of_lt}
use Digits.{
  testbit, testbit-zero, testbit-and, testbit-or, eq_of_testbit, testbit-pow, testbit-complement,
  testbit-ones, testbit-mod, testbit-high, lt-pow_of_testbit,
}
use shm_lru_aging_and_quotas.Base.Tests.{
  ℕ, zero, suc, ◌+◌, ◌-◌, ◌*◌, ◌/◌, ◌%◌, ◌^◌, ◌≤◌, ◌<◌, ◌≡◌, ◌≢◌, refl, sym, ap, ◌∙◌, inl, inr,
  Bool, true, false, not, ◌&&◌, ◌||◌, arith, leb, ◌==◌, if◌then◌else◌, Bool-cases,
}

-- `GET(hh, i)`: `hh & (1L << i)` taken as a condition
unfoldable pub get_bit : ℕ → ℕ → Bool
get_bit h i = not (bit_and h (2 ^ i) == 0)

-- `SET(hh, i)` on a `uint32_t`: `hh | (1L << i)`
unfoldable pub set_bit : ℕ → ℕ → ℕ
set_bit h i = bit_or h (2 ^ i) % 2 ^ 32

-- `UNSET(hh, i)`: `hh & ~(1L << i)`, the mask in 64 bits
unfoldable pub unset_bit : ℕ → ℕ → ℕ
unset_bit h i = bit_and h (2 ^ 64 - 1 - 2 ^ i)

-- `__builtin_ctzl`, on the digits left to look at; the source never calls it at 0
trailing_zeros : ℕ → ℕ → ℕ
trailing_zeros zero h = 0
trailing_zeros (suc n) h = let rest = trailing_zeros n (h / 2) in if h % 2 == 1 then 0 else suc rest

-- `FFS(x)`
unfoldable pub ffs : ℕ → ℕ
unfolding trailing_zeros
ffs h = trailing_zeros 64 h

pub get_bit-eq-testbit : (h i : ℕ) → get_bit h i ≡ testbit h i
unfolding get_bit
get_bit-eq-testbit h i = elim (Bool-cases (testbit h i)) [
  | inl one ↦ ground (arith, testbit-and h (2 ^ i) i, testbit-pow i i, testbit-zero i)
  | inr none ↦
      let e =
        eq_of_testbit (bit_and h (2 ^ i)) (bit_and h (2 ^ i)) 0 (omega arith) (omega arith)
          (λ j. testbit-and h (2 ^ i) j ∙ ground (arith, testbit-pow i j, testbit-zero j)) in
      ground arith
]

trailing_zeros_least :
    (h k : ℕ)
    → (h % 2 == 1) ≡ false
    → ((j : ℕ) → j < k → testbit (h / 2) j ≡ false)
    → (j : ℕ) → j < suc k
    → testbit h j ≡ false
unfolding testbit
trailing_zeros_least h k even least zero lt = even
trailing_zeros_least h k even least (suc j) lt = least j (omega arith)

trailing_zeros_lem :
    (n h : ℕ)
    → h ≢ 0
    → h < 2 ^ n
    → (testbit h (trailing_zeros n h) ≡ true)
      × (trailing_zeros n h < n)
      × ((j : ℕ) → j < trailing_zeros n h → testbit h j ≡ false)
unfolding trailing_zeros testbit
trailing_zeros_lem zero h ne lt = absurd (omega arith)
trailing_zeros_lem (suc n) h ne lt = elim (Bool-cases (h % 2 == 1)) [
  | inl odd ↦ rw odd (odd, omega arith, λ j lt. absurd (omega arith))
  | inr even ↦ rw even (
      let (hit, below, least) =
        trailing_zeros_lem n (h / 2) (ground arith) (omega (arith, pow-suc 2 n)) in
      (hit, omega arith, trailing_zeros_least h _ even least))
]

abbrev pub IsWord : ℕ → Type 0
IsWord h = h < 2 ^ 32

pub get_bit-zero : (i : ℕ) → get_bit 0 i ≡ false
get_bit-zero i = get_bit-eq-testbit 0 i ∙ testbit-zero i

pub get_bit-high : (h i : ℕ) → IsWord h → 32 ≤ i → get_bit h i ≡ false
get_bit-high h i w le = get_bit-eq-testbit h i ∙ testbit-high 32 h i w le

pub get_bit-lt : (h i : ℕ) → IsWord h → get_bit h i ≡ true → i < 32
get_bit-lt h i w b = ground (arith, get_bit-high h i)

pub get_bit-set_bit :
    (h i j : ℕ) → IsWord h → i < 32 → get_bit (set_bit h i) j ≡ (j == i || get_bit h j)
unfolding set_bit
get_bit-set_bit h i j w lt = ground (
  arith,
  get_bit-eq-testbit (bit_or h (2 ^ i) % 2 ^ 32) j,
  get_bit-eq-testbit h j,
  testbit-mod 32 (bit_or h (2 ^ i)) j,
  testbit-or h (2 ^ i) j,
  testbit-pow i j,
  testbit-high 32 h j w,
)

pub set_bit-IsWord : (h i : ℕ) → IsWord (set_bit h i)
unfolding set_bit
set_bit-IsWord h i = omega arith

pow-lt-64 : (i : ℕ) → i < 32 → 2 ^ i < 2 ^ 64
pow-lt-64 i lt = omega (arith, pow-le-pow_right {n = 2} (omega arith) (le_of_lt lt))

pub get_bit-unset_bit :
    (h i j : ℕ) → IsWord h → i < 32 → get_bit (unset_bit h i) j ≡ (not (j == i) && get_bit h j)
unfolding unset_bit
get_bit-unset_bit h i j w lt = ground (
  arith,
  get_bit-eq-testbit (bit_and h (2 ^ 64 - 1 - 2 ^ i)) j,
  get_bit-eq-testbit h j,
  testbit-and h (2 ^ 64 - 1 - 2 ^ i) j,
  testbit-complement 64 (2 ^ i) j (pow-lt-64 i lt),
  testbit-pow i j,
  testbit-high 32 h j w,
)

pub unset_bit-IsWord : (h i : ℕ) → IsWord h → i < 32 → IsWord (unset_bit h i)
unset_bit-IsWord h i w lt = lt-pow_of_testbit 32 (unset_bit h i) (λ j le. ground (
  arith,
  get_bit-eq-testbit (unset_bit h i) j,
  get_bit-unset_bit h i j w lt,
  get_bit-high h j w le,
))

-- A word with a bit is not 0, and one without is.
pub ne_zero_of_get_bit : (h i : ℕ) → get_bit h i ≡ true → h ≢ 0
ne_zero_of_get_bit h i b e =
    ground (arith, get_bit-eq-testbit h i, testbit-zero i, ap (λ x. testbit x i) e)

pub eq_zero_of_get_bit : (h : ℕ) → ((i : ℕ) → get_bit h i ≡ false) → h ≡ 0
eq_zero_of_get_bit h f =
    eq_of_testbit h h 0 (omega arith) (omega arith)
      (λ i. ground (arith, f i, get_bit-eq-testbit h i, testbit-zero i))

-- `_H & (~0 << i)` at a `uint32_t`
unfoldable pub mask_from : ℕ → ℕ → ℕ
mask_from h i = bit_and h (2 ^ 32 - 2 ^ i)

pub get_bit-mask_from :
    (h i j : ℕ) → IsWord h → i < 32 → get_bit (mask_from h i) j ≡ (leb i j && get_bit h j)
unfolding mask_from
get_bit-mask_from h i j w lt =
    let small : 2 ^ i ≤ 2 ^ 32 = pow-le-pow_right {n = 2} (omega arith) (le_of_lt lt) in
    let pos = one-le-pow i 2 (omega arith) in
    let e : 2 ^ 32 - 2 ^ i ≡ 2 ^ 32 - 1 - (2 ^ i - 1) = omega arith in
    ground (
      arith,
      get_bit-eq-testbit (bit_and h (2 ^ 32 - 2 ^ i)) j,
      get_bit-eq-testbit h j,
      testbit-and h (2 ^ 32 - 2 ^ i) j,
      ap (λ y. testbit y j) e,
      testbit-complement 32 (2 ^ i - 1) j (omega arith),
      testbit-ones i j,
      testbit-high 32 h j w,
    )

pub mask_from-IsWord : (h i : ℕ) → IsWord h → i < 32 → IsWord (mask_from h i)
mask_from-IsWord h i w lt = lt-pow_of_testbit 32 (mask_from h i) (λ j le. ground (
  arith,
  get_bit-eq-testbit (mask_from h i) j,
  get_bit-mask_from h i j w lt,
  get_bit-high h j w le,
))

-- `FFS` of a word that is not 0 is its lowest set bit.
pub ffs_lem :
    (h : ℕ)
    → IsWord h
    → h ≢ 0
    → (get_bit h (ffs h) ≡ true) × ((j : ℕ) → j < ffs h → get_bit h j ≡ false)
unfolding ffs
ffs_lem h w ne =
    let (hit, below, least) = trailing_zeros_lem 64 h ne (omega arith) in
    (get_bit-eq-testbit h _ ∙ hit, λ j lt. get_bit-eq-testbit h j ∙ least j lt)
