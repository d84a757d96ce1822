-- ===== src/Slot/Waiting.antt =====
-- When the loops of src/atomic_proc_rw_state.h end, and with what.
use native.Mathlib.Decide.{ℕ_discrete}
use native.Mathlib.Nat.{mod-eq_of_lt}
use shm_lru_aging_and_quotas.Base.Tests.{
  ℕ, zero, suc, ◌+◌, ◌%◌, ◌^◌, ◌≤◌, ◌<◌, ◌≡◌, ◌≢◌, inl, inr, refl, ap, ◌∙◌, Bool, true, false, not,
  Option, none, some, List, ◌∷◌, ltb, ◌&&◌, arith, Bool-cases, ==_refl,
}
use shm_lru_aging_and_quotas.Slot.{
  ComBufferState, clear_for_write, cleared_for_copy, same, code, eq_of_same, wait_from,
  wait_to_write, await_write_offset, Attempt, set_from,
}

-- How a wait for a state ends that looks at `limit + 1` loads at most.
pub data Waited (loads : ℕ → ComBufferState) (wanted : ComBufferState) (limit : ℕ) (r : Option Bool)
    : Type 0 where
  arrived :
      (n : ℕ)
      → n ≤ limit
      → loads n ≡ wanted
      → ((j : ℕ) → j < n → loads j ≢ wanted)
      → r ≡ some true
      → Waited loads wanted limit r
  gave_up : ((j : ℕ) → j ≤ limit → loads j ≢ wanted) → r ≡ some false → Waited loads wanted limit r

same_refl : (s : ComBufferState) → same s s ≡ true
same_refl s = ==_refl (code s)

module _ (loads : ℕ → ComBufferState) (wanted : ComBufferState) (limit width : ℕ)
    (fits : suc limit < 2 ^ width) where
  other : (i : ℕ) → same (loads i) wanted ≡ false → loads i ≢ wanted
  other i e h = ground (arith, e, same_refl wanted, ap (λ s. same s wanted) h)

  so_far :
      (i : ℕ)
      → ((j : ℕ) → j < i → loads j ≢ wanted)
      → same (loads i) wanted ≡ false
      → (j : ℕ) → j < i + 1
      → loads j ≢ wanted
  so_far i before e j h = elim (ℕ_discrete j i) [
    | yes at ↦ rw at (other i e)
    | no ne ↦ before j (omega arith)
  ]

  -- from load `i` on, with all loads before it seen in vain
  wait_from_lem :
      (f i : ℕ)
      → limit < i + f
      → i ≤ limit
      → ((j : ℕ) → j < i → loads j ≢ wanted)
      → Waited loads wanted limit (wait_from f loads wanted limit width i i)
  unfolding wait_from
  wait_from_lem zero i enough le before = absurd (omega arith)
  wait_from_lem (suc f) i enough le before = elim (Bool-cases (same (loads i) wanted)) [
    | inl e ↦ rw e (arrived i le (eq_of_same (loads i) wanted e) before refl)
    | inr e ↦
        let exact : (i + 1) % 2 ^ width ≡ i + 1 = mod-eq_of_lt (omega arith) in
        rw (e, exact)
          (elim (Bool-cases (ltb limit (i + 1))) [
            | inl full ↦ rw full (gave_up (λ j h. so_far i before e j (ground arith)) refl)
            | inr more ↦ rw more (
                wait_from_lem f (i + 1) (omega arith) (ground arith)
                  (λ j h. so_far i before e j (ground arith)))
          ])
  ]

-- `wait_to_write` with fewer than 65535 loops ends within one load more than the loops: with true when a
-- load gives the wanted state, the first such load being the last one, and with false when none does.
pub wait_to_write-Waited :
    (loads : ℕ → ComBufferState) (loops : ℕ)
    → loops < 65535
    → Waited loads clear_for_write loops (wait_to_write (suc loops) loads loops)
unfolding wait_to_write
wait_to_write-Waited loads loops lt =
    wait_from_lem loads clear_for_write loops 16 (omega arith) (suc loops) 0 (omega arith)
      (omega arith) (λ j h. absurd (omega arith))

-- With 65535 loops the counter of 16 bits never exceeds the limit, so a wait for a state that does not come
-- has no end.
pub wait_to_write_endless :
    (loads : ℕ → ComBufferState)
    → ((j : ℕ) → loads j ≢ clear_for_write)
    → (f : ℕ) → wait_to_write f loads 65535 ≡ none
unfolding wait_to_write wait_from
wait_to_write_endless loads never f = spin f 0 0
  where
    spin : (n count i : ℕ) → wait_from n loads clear_for_write 65535 16 count i ≡ none
    spin zero count i = refl
    spin (suc n) count i =
        let low : ltb 65535 ((count + 1) % 2 ^ 16) ≡ false = ground arith in
        elim (Bool-cases (same (loads i) clear_for_write)) [
          | inl e ↦ absurd (never i (eq_of_same (loads i) clear_for_write e))
          | inr e ↦ rw (e, low) (spin n ((count + 1) % 2 ^ 16) (i + 1))
        ]

-- `await_write_offset` ends within 1001 loads, whatever number of loops it is given: with true
-- at the first load that gives the wanted state, and with false when none of them does.
pub await_write_offset-Waited :
    (loads : ℕ → ComBufferState) (loops : ℕ)
    → Waited loads cleared_for_copy 1000 (await_write_offset 1001 loads loops)
unfolding await_write_offset
await_write_offset-Waited loads loops =
    wait_from_lem loads cleared_for_copy 1000 32 (omega arith) 1001 0 (omega arith) (omega arith)
      (λ j h. absurd (omega arith))

-- A setting loop ends when two rounds running see the same value in the slot and the second exchange does
-- not fail without a reason: it has then made the exchange or found the state set.
pub set_from_settles :
    (target current : ComBufferState) (a b : Attempt) (rest : List Attempt)
    → b.seen ≡ a.seen
    → b.spurious ≡ false
    → set_from target current (a ∷ b ∷ rest) ≢ none
unfolding set_from
set_from_settles target current a b rest alone steady =
    let again : same a.seen b.seen ≡ true = ap (same a.seen) alone ∙ same_refl a.seen in
    rw (again, steady)
      (elim (Bool-cases (same current a.seen && not a.spurious)) [
        | inl e ↦ rw e (λ h. ground arith)
        | inr e ↦ rw e (elim (Bool-cases (same a.reread target)) [
          | inl t ↦ rw t (λ h. ground arith)
          | inr t ↦ rw t (λ h. ground arith)
        ])
      ])
