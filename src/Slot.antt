-- ===== src/Slot.antt =====
-- The states of a message slot and the functions that wait for one and set one, of
-- src/atomic_proc_rw_state.h. What other processes do to the slot between two steps is an argument: the
-- values that successive loads give.
pub mod Waiting
pub mod Protocol
pub mod Tests
use shm_lru_aging_and_quotas.Base.Tests.{
  ℕ, zero, suc, ◌+◌, ◌%◌, ◌^◌, ◌≡◌, refl, ap, ◌∙◌, Bool, true, false, not, Option, none, some, List,
  [], ◌∷◌, ltb, ◌==◌, if◌then◌else◌, ◌&&◌, arith, sym, eq_of_==,
}

-- `COM_BUFFER_STATE`
pub data ComBufferState : Type 0 where
  clear_for_write cleared_for_alloc locked_for_alloc cleared_for_copy : ComBufferState

-- the numbers of the enumeration
abbrev pub code : ComBufferState → ℕ
code clear_for_write = 0
code cleared_for_alloc = 1
code locked_for_alloc = 2
code cleared_for_copy = 3

abbrev pub same : ComBufferState → ComBufferState → Bool
same a b = code a == code b

decode : ℕ → ComBufferState
decode zero = clear_for_write
decode (suc zero) = cleared_for_alloc
decode (suc (suc zero)) = locked_for_alloc
decode (suc (suc (suc n))) = cleared_for_copy

decode-code : (s : ComBufferState) → decode (code s) ≡ s
unfolding decode
decode-code clear_for_write = refl
decode-code cleared_for_alloc = refl
decode-code locked_for_alloc = refl
decode-code cleared_for_copy = refl

pub eq_of_same : (a b : ComBufferState) → same a b ≡ true → a ≡ b
eq_of_same a b e = sym (decode-code a) ∙ ap decode (eq_of_== (code a) (code b) e) ∙ decode-code b

-- The loop of the two waiting functions, at load `i`, with a counter of `width` bits.
unfoldable pub wait_from :
    ℕ
    → (loads : ℕ → ComBufferState) (wanted : ComBufferState) (limit width count i : ℕ) → Option Bool
wait_from zero loads wanted limit width count i = none
wait_from (suc f) loads wanted limit width count i =
    let count' = (count + 1) % 2 ^ width in
    let rest = wait_from f loads wanted limit width count' (i + 1) in
    if same (loads i) wanted then some true else if ltb limit count' then some false else rest

-- `wait_to_write`, with `f` loads at most; its counter is a `uint16_t`
unfoldable pub wait_to_write : ℕ → (loads : ℕ → ComBufferState) (loops : ℕ) → Option Bool
wait_to_write f loads loops = wait_from f loads clear_for_write loops 16 0 0

-- `MAX_WAIT_LOOPS`
abbrev pub max_wait_loops : ℕ
max_wait_loops = 1000

-- `await_write_offset`: the loads are those of the loop, since the value of the load before it is not
-- used, and neither is the argument `loops`
unfoldable pub await_write_offset : ℕ → (loads : ℕ → ComBufferState) (loops : ℕ) → Option Bool
await_write_offset f loads loops = wait_from f loads cleared_for_copy max_wait_loops 32 0 0

-- One round of a setting loop: the value in the slot at the exchange, whether a weak exchange fails
-- without a reason, and the value at the load after it.
pub record Attempt : Type 0 where
  pub seen : ComBufferState
  pub spurious : Bool
  pub reread : ComBufferState

-- The loop of the setting functions: whether the exchange was made or the state was found to be set;
-- `none` when it still goes on after the attempts.
unfoldable pub set_from : (target current : ComBufferState) → List Attempt → Option Bool
set_from target current [] = none
set_from target current (a ∷ rest) =
    let later = set_from target a.seen rest in
    if same current a.seen && not a.spurious
    then some true
    else if same a.reread target
    then some false
    else later

-- The setting functions, from the value of their first load.
abbrev pub set_clear_for_write : ComBufferState → List Attempt → Option Bool
set_clear_for_write current = set_from clear_for_write current

abbrev pub set_cleared_for_alloc : ComBufferState → List Attempt → Option Bool
set_cleared_for_alloc current = set_from cleared_for_alloc current

abbrev pub claim_for_alloc : ComBufferState → List Attempt → Option Bool
claim_for_alloc current = set_from locked_for_alloc current

abbrev pub clear_for_copy : ComBufferState → List Attempt → Option Bool
clear_for_copy current = set_from cleared_for_copy current
