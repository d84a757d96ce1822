-- ===== src/Hopscotch/Counters.antt =====
-- The counts of a bucket in both tables of src/node_shm_HH.h: `bucket_counts`, which takes hold of the word of a bucket,
-- and `bucket_count_incr`, which lets it go. The word is that of `controllers` at the bucket.
use Prim.Native.Nat.{bit_and, bit_or}
use shm_lru_aging_and_quotas.Base.Bits.Masks.{bit_and-ones, bit_and-field, bit_and-low, bit_or-low}
use shm_lru_aging_and_quotas.Base.Bits.Digits.{bit_or-pack}
use shm_lru_aging_and_quotas.Base.Tests.{
  ℕ, zero, suc, ◌+◌, ◌-◌, ◌*◌, ◌/◌, ◌%◌, ◌^◌, ◌<◌, ◌≡◌, ap, ◌∙◌, Bool, true, false, not, ◌==◌,
  arith, if◌then◌else◌, Option, none, some, ltb,
}
use shm_lru_aging_and_quotas.Base.Words.{u32_max}

abbrev pub count_mask : ℕ
count_mask = 0x3f

abbrev pub hi_count_mask : ℕ
hi_count_mask = 0x3f_0000

abbrev pub hold_bit_mask : ℕ
hold_bit_mask = 0x80

abbrev pub free_bit_mask : ℕ
free_bit_mask = 0xffff_ff7f

-- `controls & HOLD_BIT_MASK` as a condition
abbrev pub is_held : ℕ → Bool
is_held controls = not (bit_and controls hold_bit_mask == 0)

-- what `bucket_counts` returns: the counts of both tables
abbrev pub counts_of : ℕ → ℕ × ℕ
counts_of controls = (bit_and controls count_mask, bit_and (controls / 2 ^ 16) count_mask)

-- the loop around the exchange, in `f` rounds at most, from the value `controls` that was loaded on, where `word` is what
-- the exchange finds: the counts, and the word
unfoldable pub take_hold : (f controls word : ℕ) → Option ((ℕ × ℕ) × ℕ)
take_hold zero controls word = none
take_hold (suc f) controls word =
    let again = take_hold f word word in
    if word == controls
    then some (counts_of controls, bit_or controls hold_bit_mask)
    else if is_held word
    then some (counts_of word, word)
    else again

-- `bucket_counts`, with `f` rounds at most in each loop and no other process at work
unfoldable pub bucket_counts : (f word : ℕ) → Option ((ℕ × ℕ) × ℕ)
bucket_counts zero word = none
bucket_counts (suc f) word =
    let again = bucket_counts f word in if is_held word then again else take_hold (suc f) word word

-- `bucket_count_incr`: whether it leaves the status as it is, and the word
unfoldable pub bucket_count_incr : (word which_thread : ℕ) → Bool × ℕ
bucket_count_incr word which_thread = if not (is_held word) then (false, word) else (
  true,
  if which_thread == 0
      then (let counter = (bit_and word count_mask + 1) % 2 ^ 16 in
          bit_and (bit_or (bit_and word (u32_max - count_mask)) (bit_and count_mask counter))
            free_bit_mask)
      else (let counter = (bit_and (word / 2 ^ 16) count_mask + 1) % 2 ^ 16 in
          let update = bit_and (counter * 2 ^ 16) hi_count_mask in
          bit_and (bit_or (bit_and word (u32_max - hi_count_mask)) update) free_bit_mask),
)

-- the choice of the table that add_key_value tries first, where `bit` is what `_pop_random_bits` gives
unfoldable pub favored : (count_1 count_2 bit : ℕ) → ℕ × ℕ
favored count_1 count_2 bit =
    if ltb count_2 count_1
    then (1, 0)
    else if count_2 == count_1
    then (bit, (bit + 1) % 2)
    else (0, 1)

-- The word as its fields: the count of the second table, the six digits below, and the count of the first one.
pub hold_lem : (w : ℕ) → bit_and w hold_bit_mask ≡ w / 2 ^ 7 % 2 * 2 ^ 7
hold_lem w = bit_and-field 7 1 w

pub count_lem : (w : ℕ) → bit_and w count_mask ≡ w % 2 ^ 6
count_lem w = bit_and-ones 6 w

pub held_lem : (w : ℕ) → w / 2 ^ 7 % 2 ≡ 0 → bit_or w hold_bit_mask ≡ w + 2 ^ 7
held_lem w clear =
    let m = w / 2 ^ 7 in
    let e : bit_or m 1 ≡ m + 1 =
      ap (λ a. bit_or a 1) (omega (arith, clear))
      ∙ bit_or-pack 1 (m / 2) 1 (omega arith)
      ∙ omega (arith, clear) in
    bit_or-low 7 w 1 ∙ omega (arith, e)

pub free_lem : (w : ℕ) → w < 2 ^ 32 → w / 2 ^ 7 % 2 ≡ 1 → bit_and w free_bit_mask ≡ w - 2 ^ 7
free_lem w lt held =
    bit_and-low 7 w ((2 ^ 24 - 1) * 2) ∙ omega (arith, bit_and-field 1 24 (w / 2 ^ 7), held)

pub low_rest : (w : ℕ) → w < 2 ^ 32 → bit_and w (u32_max - count_mask) ≡ w / 2 ^ 6 * 2 ^ 6
low_rest w lt = bit_and-field 6 26 w ∙ omega arith

pub high_rest :
    (w : ℕ) → w < 2 ^ 32 → bit_and w (u32_max - hi_count_mask) ≡ w / 2 ^ 22 * 2 ^ 22 + w % 2 ^ 16
high_rest w lt =
    bit_and-low 16 w ((2 ^ 10 - 1) * 2 ^ 6) ∙ omega (arith, bit_and-field 6 10 (w / 2 ^ 16))
