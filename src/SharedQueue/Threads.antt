-- ===== src/SharedQueue/Threads.antt =====
-- The two threads of the queue of c_experiments/src/entry_holder.h, interleaved: each step makes at most one
-- access to what the threads share. The pushing thread pushes `item 0`, `item 1` and so on, each again
-- until it is accepted, and the popping thread pops whenever it likes.
use shm_lru_aging_and_quotas.Base.Tests.{ℕ, ◌+◌, ◌≡◌, none, some}
use shm_lru_aging_and_quotas.SharedQueue.{
  SharedQueue, reset, emptiness, release_read, full, put_entry, release_write,
}

-- where `push` is: before `full`, before the entry is written, before `_w` is
pub data Pusher : Type 0 where
  resting : Pusher
  placing : (wrt wrt_update : ℕ) → Pusher
  placed : (wrt_update : ℕ) → Pusher

-- where `pop` is: before `emptiness`, before the entry is read, before `_r` is written
pub data Popper (A : Type 0) : Type 0 where
  resting : Popper A
  reading : (rr : ℕ) → Popper A
  took : (rr : ℕ) → A → Popper A

-- the queue, the threads, and how many items have been pushed and popped
pub record Threads (A : Type 0) : Type 0 where
  pub queue : SharedQueue A
  pub pusher : Pusher
  pub popper : Popper A
  pub pushed : ℕ
  pub popped : ℕ

module _ {A : Type 0} (max : ℕ) (item : ℕ → A) where
  pub data Turn (s : Threads A) : Threads A → Type 0 where
    finds_full :
        s.pusher ≡ Pusher.resting
        → (full max s.queue).0 ≡ none
        → Turn s (record s { queue = (full max s.queue).1 })
    finds_room :
        (wrt next : ℕ)
        → s.pusher ≡ Pusher.resting
        → (full max s.queue).0 ≡ some (wrt, next)
        → Turn s (record s { queue = (full max s.queue).1; pusher = placing wrt next })
    places :
        (wrt next : ℕ)
        → s.pusher ≡ placing wrt next
        → Turn s (record s { queue = put_entry s.queue wrt (item s.pushed); pusher = placed next })
    pushes :
        (next : ℕ)
        → s.pusher ≡ placed next
        → Turn s (record s {
          queue = release_write s.queue next;
          pusher = Pusher.resting;
          pushed = s.pushed + 1;
        })
    finds_empty :
        s.popper ≡ Popper.resting
        → (emptiness s.queue).0 ≡ none
        → Turn s (record s { queue = (emptiness s.queue).1 })
    finds_entry :
        (rr : ℕ)
        → s.popper ≡ Popper.resting
        → (emptiness s.queue).0 ≡ some rr
        → Turn s (record s { queue = (emptiness s.queue).1; popper = reading rr })
    takes :
        (rr : ℕ)
        → s.popper ≡ reading rr
        → Turn s (record s { popper = took rr (s.queue.entries rr) })
    pops :
        (rr : ℕ) (x : A)
        → s.popper ≡ took rr x
        → Turn s (record s {
          queue = release_read max s.queue rr;
          popper = Popper.resting;
          popped = s.popped + 1;
        })

  pub data Turns (s : Threads A) : Threads A → Type 0 where
    begin : Turns s s
    turn : {t u : Threads A} → Turns s t → Turn t u → Turns s u

-- a queue after `reset`, and both threads at rest
abbrev pub fresh : {A : Type 0} → A → Threads A
fresh blank = record {
  queue = reset blank;
  pusher = Pusher.resting;
  popper = Popper.resting;
  pushed = 0;
  popped = 0;
}
