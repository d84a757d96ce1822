-- ===== src/SharedQueue/Searching.antt =====
-- Where `search` of the queue of c_experiments/src/entry_holder.h does not end.
use shm_lru_aging_and_quotas.Base.Tests.{
  ℕ, ◌+◌, ◌≤◌, ◌<◌, ◌≡◌, refl, arith, false, Option, none, zero, suc, ◌==◌, if◌then◌else◌,
}
use shm_lru_aging_and_quotas.SharedQueue.{SharedQueue, search, search_from}

module _ {A : Type 0} (max : ℕ) (compare_key : A → Option ℕ) (q : SharedQueue A) where
  runs_on :
      0 < max
      → ((k : ℕ) → k < max → compare_key (q.entries k) ≡ none)
      → (f rd : ℕ) → 0 < rd
      → rd ≤ max
      → search_from f max compare_key q rd 0 ≡ none
  unfolding search_from
  runs_on pos none_hit zero rd low high = refl
  runs_on pos none_hit (suc f) rd low high =
      let away : (rd == 0) ≡ false = ground arith in
      let at : ℕ = if rd == max then 0 else rd in
      let below : at < max = ground arith in
      rw (away, none_hit at below) (runs_on pos none_hit f (at + 1) (omega arith) (omega arith))

  -- Where the queue has gone round, so that the next write is at the first entry and the next read is further on,
  -- and no entry has the key, `search` does not return, however many rounds of its loop are run.
  search_endless :
      q.w ≡ 0
      → 0 < q.r
      → q.r < max
      → ((k : ℕ) → k < max → compare_key (q.entries k) ≡ none)
      → (f : ℕ) → search f max compare_key q ≡ none
  unfolding search
  search_endless at_start further below none_hit f =
      let start : (if q.w == max then 0 else q.w) ≡ 0 = ground arith in
      rw start (runs_on (omega arith) none_hit f q.r further (omega arith))
