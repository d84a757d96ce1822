-- ===== src/Bloom.antt =====
-- The bloom filter, `AtomicBloom` of c_experiments/src/bloom.h, as one thread runs it. A byte is a number, and stays below
-- 256 under the bits that are set in it.
pub mod Members
mod Tests
use Prim.Native.Nat.{bit_and, bit_or}
use shm_lru_aging_and_quotas.Base.Mem.{update}
use shm_lru_aging_and_quotas.Base.Tests.{
  ℕ, ◌+◌, ◌*◌, ◌/◌, ◌%◌, ◌^◌, Bool, true, false, ◌&&◌, ◌||◌, not, ltb, leb, ◌==◌, if◌then◌else◌,
}

-- `attached` where `_bloom_bytes` is no null pointer
pub record AtomicBloom : Type 0 where
  pub attached : Bool
  pub bytes : ℕ → ℕ
  pub bytes_count : ℕ
  pub bits_count : ℕ
  pub fill_count : ℕ

-- the constructor, on a region
abbrev pub atomic_bloom : (bytes : ℕ → ℕ) (bloom_bits_count : ℕ) → AtomicBloom
atomic_bloom bytes bloom_bits_count = record {
  attached = true;
  bytes = bytes;
  bytes_count = bloom_bits_count / 1;
  bits_count = bloom_bits_count;
  fill_count = 0;
}

-- `h >> 3`, and `h & 0x3`
abbrev pub byte_index : ℕ → ℕ
byte_index h = h / 8

abbrev pub bit_offset : ℕ → ℕ
bit_offset h = h % 4

-- the five hashes of a call
pub record Hashes : Type 0 where
  pub h1 : ℕ
  pub h2 : ℕ
  pub h3 : ℕ
  pub h4 : ℕ
  pub h5 : ℕ

-- whether a call returns before it looks at a byte
abbrev pub out_of_range : AtomicBloom → Hashes → Bool
out_of_range b h =
    if not b.attached
    then true
    else if leb b.bytes_count (byte_index h.h1)
    then true
    else if leb b.bytes_count (byte_index h.h2)
    then true
    else if leb b.bytes_count (byte_index h.h3)
    then true
    else if leb b.bytes_count (byte_index h.h4)
    then true
    else leb b.bytes_count (byte_index h.h5)

-- one of the five updates: the bytes, and `adding`
unfoldable pub set_one : (ℕ → ℕ) × Bool → (h : ℕ) → (ℕ → ℕ) × Bool
set_one (bytes, adding) h =
    let prev = bytes (byte_index h) in
    let updater = bit_or prev (2 ^ bit_offset h) in
    (update bytes (byte_index h) updater, (if updater == prev then adding else true))

-- the five updates
abbrev pub set_five : (ℕ → ℕ) → Hashes → (ℕ → ℕ) × Bool
set_five bytes h =
    set_one (set_one (set_one (set_one (set_one (bytes, false) h.h1) h.h2) h.h3) h.h4) h.h5

-- `set_bloom_bits`
unfoldable pub set_bloom_bits : AtomicBloom → Hashes → Bool × AtomicBloom
set_bloom_bits b h =
    if out_of_range b h
    then (false, b)
    else let (bytes, adding) = set_five b.bytes h in
      (
        true,
        record b {
          bytes = bytes;
          fill_count = if adding then (b.fill_count + 1) % 2 ^ 16 else b.fill_count;
        },
      )

-- `included &= value`, on a `bool`
abbrev pub and_value : (included : Bool) (value : ℕ) → Bool
and_value included value = if included then value % 2 == 1 else false

unfoldable pub check_one : (ℕ → ℕ) → (included : Bool) (h : ℕ) → Bool
check_one bytes included h = and_value included (bit_and (bytes (byte_index h)) (2 ^ bit_offset h))

abbrev pub check_five : (ℕ → ℕ) → Hashes → Bool
check_five bytes h =
    check_one bytes
      (check_one bytes (check_one bytes (check_one bytes (check_one bytes true h.h1) h.h2) h.h3)
        h.h4)
      h.h5

-- `check_bloom_bits`
unfoldable pub check_bloom_bits : AtomicBloom → Hashes → Bool
check_bloom_bits b h = if out_of_range b h then false else check_five b.bytes h
