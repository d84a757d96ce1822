-- ===== src/Base/Words.antt =====
-- The machine words of the C code, with their wrap-around, and the macro `MOD`.
use Prim.Native.Nat.{bit_or}
use shm_lru_aging_and_quotas.Base.Bits.Digits.{bit_or-pack}
use shm_lru_aging_and_quotas.Base.Tests.{
  ℕ, ◌+◌, ◌-◌, ◌*◌, ◌/◌, ◌%◌, ◌^◌, ◌<◌, ◌≡◌, ap, ◌∙◌, arith, ltb, if◌then◌else◌,
}

abbrev pub u32_mod : ℕ
u32_mod = 2 ^ 32

-- `UINT32_MAX`
abbrev pub u32_max : ℕ
u32_max = 0xffff_ffff

-- `UINT64_MAX`
abbrev pub u64_max : ℕ
u64_max = 0xffff_ffff_ffff_ffff

-- `uint32_t` addition and subtraction
abbrev pub add32 : ℕ → ℕ → ℕ
add32 a b = (a + b) % 2 ^ 32

abbrev pub sub32 : ℕ → ℕ → ℕ
sub32 a b = (a + 2 ^ 32 - b) % 2 ^ 32

-- `MOD(x, n)`: one subtraction, no division
abbrev pub mod_once : ℕ → ℕ → ℕ
mod_once x n = if ltb x n then x else x - n

-- `(((uint64_t)hi) << HALF) | lo`
unfoldable pub load64 : ℕ → ℕ → ℕ
load64 hi lo = bit_or (hi * 2 ^ 32) lo

-- `x >> HALF` of a `uint64_t`
abbrev pub high_half : ℕ → ℕ
high_half x = x / 2 ^ 32

-- `x & HASH_MASK`, and a cast to `uint32_t`
abbrev pub low_half : ℕ → ℕ
low_half x = x % 2 ^ 32

pub load64-eq-add : (hi lo : ℕ) → lo < 2 ^ 32 → load64 hi lo ≡ hi * 2 ^ 32 + lo
unfolding load64
load64-eq-add hi lo lt = bit_or-pack 32 hi lo lt

pub low_half-load64 : (hi lo : ℕ) → lo < 2 ^ 32 → low_half (load64 hi lo) ≡ lo
low_half-load64 hi lo lt = ap low_half (load64-eq-add hi lo lt) ∙ omega arith

pub high_half-load64 : (hi lo : ℕ) → lo < 2 ^ 32 → high_half (load64 hi lo) ≡ hi
high_half-load64 hi lo lt = ap high_half (load64-eq-add hi lo lt) ∙ omega arith
