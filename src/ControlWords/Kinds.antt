-- ===== src/ControlWords/Kinds.antt =====
-- The kinds of bucket that the tests on `cbits` of c_experiments/src/hmap_interface.h tell apart.
use Prim.Native.Nat.{bit_and}
use shm_lru_aging_and_quotas.Base.Tests.{
  ℕ, ◌+◌, ◌*◌, ◌/◌, ◌%◌, ◌^◌, ◌<◌, ◌≡◌, ◌∙◌, Bool, arith, if◌then◌else◌,
}
use shm_lru_aging_and_quotas.ControlWords.{
  is_base_noop, is_base_in_ops, is_empty_bucket, is_member_bucket, cbit_base_inop_bits,
}
use shm_lru_aging_and_quotas.Base.Bits.Masks.{
  bit_and-ones, bit_and-odd, bit_and-field, bit_and_comm,
}

-- The lowest and the highest digit of a word, which both tests look at.
pub inop_bits : (c : ℕ) → c < 2 ^ 32 → bit_and c cbit_base_inop_bits ≡ c / 2 ^ 31 * 2 ^ 31 + c % 2
inop_bits c lt = bit_and-odd c 0x4000_0000 ∙ omega (arith, bit_and-field 30 1 (c / 2))

abbrev count : Bool → ℕ
count b = if b then 1 else 0

abbrev pub kinds : ℕ → ℕ
kinds c =
    count (is_empty_bucket c)
    + count (is_base_noop c)
    + count (is_member_bucket c)
    + count (is_base_in_ops c)

-- Every word is of exactly one kind of the four: it is that of an empty bucket, of a base that is left alone, of a
-- member, or of a base in operation.
pub kinds_lem : (c : ℕ) → c < 2 ^ 32 → kinds c ≡ 1
unfolding is_base_noop is_base_in_ops is_empty_bucket is_member_bucket
kinds_lem c lt =
    ground (arith, inop_bits c lt, bit_and_comm c cbit_base_inop_bits, bit_and-ones 1 c)
