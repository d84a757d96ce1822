-- ===== src/ControlWords.antt =====
-- The words `cbits` and `tbits` of a bucket, of c_experiments/src/hmap_interface.h, and what they count.
-- A word is a number below 2^32, `~m` is 2^32 - 1 - m, and the casts of the C code are written out.
pub mod Counting
pub mod Entering
pub mod Exhausted
pub mod Fields
pub mod Kinds
pub mod Leaving
pub mod Race
pub mod Readers
pub mod Stash
pub mod Tests
pub mod Visits
use Prim.Native.Nat.{bit_and, bit_or}
use shm_lru_aging_and_quotas.Base.Tests.{
  ℕ, ◌-◌, ◌*◌, ◌/◌, ◌%◌, ◌^◌, Bool, false, not, ◌&&◌, ◌==◌, if◌then◌else◌,
}

abbrev pub cbit_inactive_base_root_bit : ℕ
cbit_inactive_base_root_bit = 0x1

abbrev pub cbit_base_member_bit : ℕ
cbit_base_member_bit = 0x8000_0000

abbrev pub cbit_base_inop_bits : ℕ
cbit_base_inop_bits = 0x8000_0001

abbrev pub tbit_actual_base_root_bit : ℕ
tbit_actual_base_root_bit = 0x1

abbrev pub tbit_sem_counter_mask : ℕ
tbit_sem_counter_mask = 0xff_0000

abbrev pub tbit_swpy_counter_mask : ℕ
tbit_swpy_counter_mask = 0xff00_0000

abbrev pub cbit_shifted_mem_r_count_max : ℕ
cbit_shifted_mem_r_count_max = 0x1f80_0000

abbrev pub cbit_mem_r_count_incr : ℕ
cbit_mem_r_count_incr = 0x80_0000

abbrev pub cbit_shifted_q_count_max : ℕ
cbit_shifted_q_count_max = 0x7e00_0000

abbrev pub tbits_reader_sem_incr : ℕ
tbits_reader_sem_incr = 0x1_0000

abbrev pub tbits_reader_swpy_incr : ℕ
tbits_reader_swpy_incr = 0x100_0000

abbrev pub bits_stash_post_shift_index_mask : ℕ
bits_stash_post_shift_index_mask = 0x7ff

-- what a bucket's `cbits` say of it
unfoldable pub is_base_noop : ℕ → Bool
is_base_noop cbits = not (bit_and cbits cbit_inactive_base_root_bit == 0)

unfoldable pub is_base_in_ops : ℕ → Bool
is_base_in_ops cbits = bit_and cbit_base_inop_bits cbits == 0 && not (cbits == 0)

unfoldable pub is_empty_bucket : ℕ → Bool
is_empty_bucket cbits = cbits == 0

unfoldable pub is_member_bucket : ℕ → Bool
is_member_bucket cbits = bit_and cbits cbit_base_inop_bits == cbit_base_member_bit

-- a word of taken spots that stands in its bucket, and not in the stash
unfoldable pub is_base_tbits : ℕ → Bool
is_base_tbits tbits = not (bit_and tbits tbit_actual_base_root_bit == 0)

-- an index of the stash in a word: `(0xFFFF0000 & tbits) | (stash_index << 1)`, and back
unfoldable pub tbit_stash_index_stamp : (tbits stash_index : ℕ) → ℕ
tbit_stash_index_stamp tbits stash_index = bit_or (bit_and tbits 0xffff_0000) (stash_index * 2)

unfoldable pub tbits_stash_index_of : ℕ → ℕ
tbits_stash_index_of tbits = bit_and (tbits / 2) bits_stash_post_shift_index_mask

-- the tests of the counts: `((uint8_t)word & mask)`, where the cast binds before the mask
unfoldable pub tbits_sem_at_zero : ℕ → Bool
tbits_sem_at_zero tbits = bit_and (tbits % 2 ^ 8) tbit_sem_counter_mask == 0

unfoldable pub tbits_sem_at_max : ℕ → Bool
tbits_sem_at_max tbits = bit_and (tbits % 2 ^ 8) tbit_sem_counter_mask == tbit_sem_counter_mask

unfoldable pub tbits_swappy_at_zero : ℕ → Bool
tbits_swappy_at_zero tbits = bit_and (tbits % 2 ^ 8) tbit_swpy_counter_mask == 0

unfoldable pub tbits_swappy_at_max : ℕ → Bool
tbits_swappy_at_max tbits = bit_and (tbits % 2 ^ 8) tbit_swpy_counter_mask == tbit_swpy_counter_mask

unfoldable pub cbits_reader_count_at_zero : ℕ → Bool
cbits_reader_count_at_zero cbits = bit_and (cbits % 2 ^ 8) cbit_shifted_mem_r_count_max == 0

unfoldable pub cbits_reader_count_at_max : ℕ → Bool
cbits_reader_count_at_max cbits =
    bit_and (cbits % 2 ^ 8) cbit_shifted_mem_r_count_max == cbit_shifted_mem_r_count_max

unfoldable pub cbits_q_count_at_zero : ℕ → Bool
cbits_q_count_at_zero cbits = bit_and (cbits % 2 ^ 8) cbit_shifted_q_count_max == 0

unfoldable pub cbits_q_count_at_max : ℕ → Bool
cbits_q_count_at_max cbits =
    bit_and (cbits % 2 ^ 8) cbit_shifted_q_count_max == cbit_shifted_q_count_max

-- the readers that a word of taken spots counts, as a `uint8_t`
unfoldable pub base_reader_sem_count : ℕ → ℕ
base_reader_sem_count tbits =
    if is_base_tbits tbits then bit_and tbits tbit_sem_counter_mask / 2 ^ 16 % 2 ^ 8 else 0
