-- ===== src/SharedQueue.antt =====
-- The queue between two threads of a process, `SharedQueue_SRSW` of c_experiments/src/entry_holder.h: one
-- thread pushes, one thread pops. A pointer into the entries is its index; `max` is `ExpectedMax`.
pub mod Calls
pub mod Fifo
pub mod Ordered
pub mod Positions
pub mod Searching
pub mod Steps
mod Tests
pub mod Threads
use shm_lru_aging_and_quotas.Base.Mem.{update}
use shm_lru_aging_and_quotas.Base.Tests.{
  ℕ, zero, suc, ◌+◌, Bool, true, false, Option, none, some, leb, ◌==◌, if◌then◌else◌,
}

-- the atomic positions, and what each thread last saw of the other's
pub record SharedQueue (A : Type 0) : Type 0 where
  pub entries : ℕ → A
  pub r : ℕ
  pub r_cached : ℕ
  pub w : ℕ
  pub w_cached : ℕ

-- `wrt + 1`, or the start
abbrev pub next_write : (max wrt : ℕ) → ℕ
next_write max wrt = if wrt + 1 == max then 0 else wrt + 1

module _ {A : Type 0} where
  -- `reset`; `blank` is an entry of zeros
  abbrev pub reset : (blank : A) → SharedQueue A
  reset blank = record { entries = λ _. blank; r = 0; r_cached = 0; w = 0; w_cached = 0 }

  -- `emptiness`: the position to read, or `none` where it returns true
  abbrev pub emptiness : SharedQueue A → Option ℕ × SharedQueue A
  emptiness q =
      if q.r == q.w_cached
      then ((if q.r == q.w then none else some q.r), record q { w_cached = q.w })
      else (some q.r, q)

  -- the store of `_r` after the entry at `rr` has been read
  abbrev pub release_read : (max : ℕ) → SharedQueue A → (rr : ℕ) → SharedQueue A
  release_read max q rr = record q { r = if leb max (rr + 1) then 0 else rr + 1 }

  abbrev pub popped_from : (max : ℕ) → Option ℕ × SharedQueue A → Option A × SharedQueue A
  popped_from max (none, q) = (none, q)
  popped_from max (some rr, q) = (some (q.entries rr), release_read max q rr)

  -- `pop`: the entry, or `none` for the return of false
  unfoldable pub pop : (max : ℕ) → SharedQueue A → Option A × SharedQueue A
  pop max q = popped_from max (emptiness q)

  -- `full`: the position to write and the one after it, or `none` where it returns true
  abbrev pub full : (max : ℕ) → SharedQueue A → Option (ℕ × ℕ) × SharedQueue A
  full max q =
      let next_w = next_write max q.w in
      if q.r_cached == next_w
      then ((if q.r == next_w then none else some (q.w, next_w)), record q { r_cached = q.r })
      else (some (q.w, next_w), q)

  abbrev pub put_entry : SharedQueue A → (wrt : ℕ) → A → SharedQueue A
  put_entry q wrt x = record q { entries = update q.entries wrt x }

  abbrev pub release_write : SharedQueue A → (wrt_update : ℕ) → SharedQueue A
  release_write q wrt_update = record q { w = wrt_update }

  abbrev pub pushed_to : A → Option (ℕ × ℕ) × SharedQueue A → Bool × SharedQueue A
  pushed_to x (none, q) = (false, q)
  pushed_to x (some (wrt, wrt_update), q) = (true, release_write (put_entry q wrt x) wrt_update)

  -- `push`
  unfoldable pub push : (max : ℕ) → SharedQueue A → A → Bool × SharedQueue A
  push max q x = pushed_to x (full max q)

  -- `empty`
  abbrev pub empty : SharedQueue A → Bool
  empty q = q.r == q.w

  -- the loop of `search` at `rd`, with what `compare_key` gives for each entry; the position it stops at
  unfoldable pub search_from :
      ℕ → (max : ℕ) (compare_key : A → Option ℕ) → SharedQueue A → (rd wrt : ℕ) → Option (Option ℕ)
  search_from zero max compare_key q rd wrt = none
  search_from (suc f) max compare_key q rd wrt =
      let at = if rd == max then 0 else rd in
      let rest = search_from f max compare_key q (at + 1) wrt in
      if rd == wrt
      then some none
      else elim (compare_key (q.entries at)) [ none ↦ rest | some v ↦ some (some v) ]

  -- `search`: the value, or `some none` for `UINT32_MAX`
  unfoldable pub search :
      ℕ → (max : ℕ) (compare_key : A → Option ℕ) → SharedQueue A → Option (Option ℕ)
  unfolding search_from
  search f max compare_key q = search_from f max compare_key q q.r (if q.w == max then 0 else q.w)
