-- ===== src/ControlWords/Fields.antt =====
-- The fields of the words of c_experiments/src/hmap_interface.h, as arithmetic.
use Prim.Native.Nat.{bit_or}
use shm_lru_aging_and_quotas.Base.Tests.{ℕ, ◌*◌, ◌/◌, ◌%◌, ◌^◌, ◌≡◌, ap, ◌∙◌, true, false, arith}
use shm_lru_aging_and_quotas.ControlWords.{
  tbit_stash_index_stamp, tbits_stash_index_of, is_base_tbits, base_reader_sem_count,
}
use shm_lru_aging_and_quotas.Base.Bits.Masks.{
  bit_and-ones, bit_and-field, bit_and_none, bit_or_none,
}

pub is_base_tbits-even : (t : ℕ) → t % 2 ≡ 0 → is_base_tbits t ≡ false
unfolding is_base_tbits
is_base_tbits-even t even = ground (arith, bit_and-ones 1 t)

pub is_base_tbits-odd : (t : ℕ) → t % 2 ≡ 1 → is_base_tbits t ≡ true
unfolding is_base_tbits
is_base_tbits-odd t odd = ground (arith, bit_and-ones 1 t)

pub tbit_stash_index_stamp_zero : (i : ℕ) → tbit_stash_index_stamp 0 i ≡ i * 2
unfolding tbit_stash_index_stamp
tbit_stash_index_stamp_zero i =
    ap (λ a. bit_or a (i * 2)) (bit_and_none 0xffff_0000) ∙ bit_or_none (i * 2)

pub tbits_stash_index_of_lem : (t : ℕ) → tbits_stash_index_of t ≡ t / 2 % 2 ^ 11
unfolding tbits_stash_index_of
tbits_stash_index_of_lem t = bit_and-ones 11 (t / 2)

pub base_reader_sem_count_base : (t : ℕ) → t % 2 ≡ 1 → base_reader_sem_count t ≡ t / 2 ^ 16 % 2 ^ 8
unfolding base_reader_sem_count
base_reader_sem_count_base t odd =
    rw (is_base_tbits-odd t odd) (omega (arith, bit_and-field 16 8 t))
