-- ===== src/ControlWords/Counting.antt =====
-- The counts in the words of c_experiments/src/node_shm_HH.h, one call after the other: `wait_on_reader_count_incr`
-- and `reader_count_decr`, on the word of a member.
use shm_lru_aging_and_quotas.Base.Tests.{
  ℕ, zero, suc, ◌+◌, ◌*◌, ◌%◌, ◌^◌, ◌<◌, ◌≡◌, ap, ◌∙◌, Bool, true, false, arith, not, List, [], ◌∷◌,
  Option, none, some, if◌then◌else◌, refl,
}
use shm_lru_aging_and_quotas.Base.Words.{add32, sub32}
use shm_lru_aging_and_quotas.ControlWords.{
  is_member_bucket, cbits_reader_count_at_zero, cbits_reader_count_at_max, cbit_mem_r_count_incr,
  tbits_sem_at_zero, tbits_sem_at_max, tbits_swappy_at_zero, tbits_swappy_at_max,
  cbits_q_count_at_zero, cbits_q_count_at_max,
}
use shm_lru_aging_and_quotas.Base.Bits.Masks.{bit_and-apart}
use shm_lru_aging_and_quotas.ControlWords.Kinds.{inop_bits}

-- Each test of a count looks at the eight lowest digits alone, where the count is not.
pub tbits_sem_at_zero_lem : (t : ℕ) → tbits_sem_at_zero t ≡ true
unfolding tbits_sem_at_zero
tbits_sem_at_zero_lem t = ground (arith, bit_and-apart 8 (t % 2 ^ 8) 0xff00)

pub tbits_sem_at_max_lem : (t : ℕ) → tbits_sem_at_max t ≡ false
unfolding tbits_sem_at_max
tbits_sem_at_max_lem t = ground (arith, bit_and-apart 8 (t % 2 ^ 8) 0xff00)

pub tbits_swappy_at_zero_lem : (t : ℕ) → tbits_swappy_at_zero t ≡ true
unfolding tbits_swappy_at_zero
tbits_swappy_at_zero_lem t = ground (arith, bit_and-apart 8 (t % 2 ^ 8) 0xff_0000)

pub tbits_swappy_at_max_lem : (t : ℕ) → tbits_swappy_at_max t ≡ false
unfolding tbits_swappy_at_max
tbits_swappy_at_max_lem t = ground (arith, bit_and-apart 8 (t % 2 ^ 8) 0xff_0000)

pub cbits_reader_count_at_zero_lem : (c : ℕ) → cbits_reader_count_at_zero c ≡ true
unfolding cbits_reader_count_at_zero
cbits_reader_count_at_zero_lem c = ground (arith, bit_and-apart 8 (c % 2 ^ 8) 0x1f_8000)

pub cbits_reader_count_at_max_lem : (c : ℕ) → cbits_reader_count_at_max c ≡ false
unfolding cbits_reader_count_at_max
cbits_reader_count_at_max_lem c = ground (arith, bit_and-apart 8 (c % 2 ^ 8) 0x1f_8000)

pub cbits_q_count_at_zero_lem : (c : ℕ) → cbits_q_count_at_zero c ≡ true
unfolding cbits_q_count_at_zero
cbits_q_count_at_zero_lem c = ground (arith, bit_and-apart 8 (c % 2 ^ 8) 0x7e_0000)

pub cbits_q_count_at_max_lem : (c : ℕ) → cbits_q_count_at_max c ≡ false
unfolding cbits_q_count_at_max
cbits_q_count_at_max_lem c = ground (arith, bit_and-apart 8 (c % 2 ^ 8) 0x7e_0000)

-- `wait_on_reader_count_incr`, with `f` rounds at most, where no other thread changes the word
unfoldable pub wait_on_reader_count_incr : (f control_bits : ℕ) → Option ℕ
wait_on_reader_count_incr zero control_bits = none
wait_on_reader_count_incr (suc f) control_bits =
    let rest = wait_on_reader_count_incr f control_bits in
    if cbits_reader_count_at_max control_bits
    then rest
    else some (add32 control_bits cbit_mem_r_count_incr)

-- `reader_count_decr`: whether the count is 0, and the word
unfoldable pub reader_count_decr : (control_bits : ℕ) → Bool × ℕ
reader_count_decr control_bits =
    if not (cbits_reader_count_at_zero control_bits)
    then (let fetched = sub32 control_bits cbit_mem_r_count_incr in
        (cbits_reader_count_at_zero fetched, fetched))
    else (false, control_bits)

-- a call of a reader of a member: one that enters, or one that leaves
pub data ReaderCall : Type 0 where
  enters : ReaderCall
  leaves : ReaderCall

-- the calls in their order: the word, and how many that left were told that they were the last
unfoldable pub reader_calls : List ReaderCall → (control_bits last : ℕ) → Option (ℕ × ℕ)
reader_calls [] control_bits last = some (control_bits, last)
reader_calls (enters ∷ calls) control_bits last = elim (wait_on_reader_count_incr 1 control_bits) [
  | none ↦ none
  | some c ↦ reader_calls calls c last
]
reader_calls (leaves ∷ calls) control_bits last =
    let (told, c) = reader_count_decr control_bits in
    reader_calls calls c (if told then suc last else last)

unfoldable pub entered : List ReaderCall → ℕ
entered [] = 0
entered (enters ∷ calls) = suc (entered calls)
entered (leaves ∷ calls) = entered calls

incr_lem : (c : ℕ) → wait_on_reader_count_incr 1 c ≡ some (add32 c cbit_mem_r_count_incr)
unfolding wait_on_reader_count_incr
incr_lem c = rw (cbits_reader_count_at_max_lem c) refl

decr_lem : (c : ℕ) → reader_count_decr c ≡ (false, c)
unfolding reader_count_decr
decr_lem c = rw (cbits_reader_count_at_zero_lem c) refl

calls_lem :
    (calls : List ReaderCall)
    → (c last : ℕ) → c < 2 ^ 32
    → reader_calls calls c last ≡ some ((c + entered calls * cbit_mem_r_count_incr) % 2 ^ 32, last)
unfolding reader_calls entered
calls_lem [] c last lt = ap (λ (x : ℕ). some (x, last)) (omega arith)
calls_lem (enters ∷ calls) c last lt =
    rw (reader_calls, incr_lem c)
      (calls_lem calls (add32 c cbit_mem_r_count_incr) last (omega arith)
        ∙ ap (λ (x : ℕ). some (x, last)) (omega arith))
calls_lem (leaves ∷ calls) c last lt = rw (reader_calls, decr_lem c) (calls_lem calls c last lt)

wrapped :
    (c : ℕ)
    → c < 2 ^ 32
    → is_member_bucket c ≡ true
    → is_member_bucket ((c + 256 * cbit_mem_r_count_incr) % 2 ^ 32) ≡ false
unfolding is_member_bucket
wrapped c lt m =
    ground (arith, inop_bits c lt, inop_bits ((c + 256 * cbit_mem_r_count_incr) % 2 ^ 32))

-- Whatever calls the readers of a member make one after the other, each reader that enters does so at once and adds one
-- to the count, none that leaves takes one off or is told that it was the last, and with 256 that have entered the
-- word of a member says of it that it is no member.
pub reader_calls_lem :
    (calls : List ReaderCall)
    → (c : ℕ) → c < 2 ^ 32
    → (d : ℕ) × (reader_calls calls c 0 ≡ some (d, 0))
      × (d ≡ (c + entered calls * cbit_mem_r_count_incr) % 2 ^ 32)
      × (entered calls ≡ 256 → is_member_bucket c ≡ true → is_member_bucket d ≡ false)
reader_calls_lem calls c lt = (_, calls_lem calls c 0 lt, refl, λ e m. rw e (wrapped c lt m))
