-- ===== src/Slot/Tests.antt =====
-- Examples for src/atomic_proc_rw_state.h.
use shm_lru_aging_and_quotas.Base.Tests.{ℕ, ◌≡◌, ◌⊎◌, refl, true, false, some, ltb, if◌then◌else◌}
use shm_lru_aging_and_quotas.Slot.{
  ComBufferState, clear_for_write, locked_for_alloc, cleared_for_copy, wait_from, wait_to_write,
}
use shm_lru_aging_and_quotas.Slot.Protocol.{looking, copied, no_offset, Moves, before_put}
use shm_lru_aging_and_quotas.Slot.Protocol.Copies.{put_method-Answer, put_method_lost}

-- locked at the first three loads, then clear
abbrev locked_thrice : ℕ → ComBufferState
locked_thrice n = if ltb n 3 then locked_for_alloc else clear_for_write

wait_to_write_run : wait_to_write 6 locked_thrice 5 ≡ some true
unfolding wait_to_write wait_from
wait_to_write_run = refl

impatient_run : wait_to_write 3 locked_thrice 2 ≡ some false
unfolding wait_to_write wait_from
impatient_run = refl

put_method_lost_example :
    Moves 7 9 false
      (λ _. 64)
      (before_put 0 0 0)
      record {
        marker = cleared_for_copy;
        hash_bucket = 7;
        full_hash = 9;
        offset = 0;
        writer = copied 0;
        reader = looking;
      }
put_method_lost_example = put_method_lost 7 9 (λ _. 64) 0 0 0

abbrev copied_to : ℕ
copied_to = 0

put_method-Answer_example : (copied_to ≡ 64) ⊎ (copied_to ≡ no_offset false)
put_method-Answer_example =
    put_method-Answer 7 9 false (λ _. 64) 0 0 0 0
      (record {
        marker = cleared_for_copy;
        hash_bucket = 7;
        full_hash = 9;
        offset = 0;
        writer = copied 0;
        reader = looking;
      })
      (put_method_lost 7 9 (λ _. 64) 0 0 0) refl
