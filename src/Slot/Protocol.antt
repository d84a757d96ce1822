-- ===== src/Slot/Protocol.antt =====
-- How `put_method` and `reader_operation` of src/node_shm_LRU.h pass a message through one slot: the writer
-- leaves the hash, the reader finds a place for it, and the writer copies its data there. Each step is one
-- access to the slot; a setting function of src/atomic_proc_rw_state.h is one write, since it ends when the
-- slot has the state. The reader takes the way of an element that is not yet stored, and filter_existence_check, which
-- looks for it first, is left out; the offset with which `add_key_value` succeeds for a hash is an argument, `place`.
pub mod Copies
use shm_lru_aging_and_quotas.Base.Tests.{
  ℕ, ◌≡◌, ◌≢◌, refl, ap, ◌∙◌, ◌⊎◌, inl, inr, Bool, true, false, ◌==◌, if◌then◌else◌, arith,
}
use shm_lru_aging_and_quotas.Base.Words.{u32_max, load64}
use shm_lru_aging_and_quotas.Slot.{
  ComBufferState, clear_for_write, cleared_for_alloc, locked_for_alloc, cleared_for_copy,
}

-- where `put_method` is
pub data Writer : Type 0 where
  waiting ready half written posted awaiting copying finished refused : Writer
  copied : ℕ → Writer

-- where the loops of `reader_operation` are with the slot
pub data Reader : Type 0 where
  looking saw claimed placed : Reader
  hashed : ℕ → Reader

-- the slot, at OFFSET_TO_MARKER, OFFSET_TO_HASH and OFFSET_TO_OFFSET, and the two processes
pub record Message : Type 0 where
  pub marker : ComBufferState
  pub hash_bucket : ℕ
  pub full_hash : ℕ
  pub offset : ℕ
  pub writer : Writer
  pub reader : Reader

-- the offset that `put_method` leaves for the answer
abbrev pub no_offset : (updating : Bool) → ℕ
no_offset updating = if updating then u32_max else 0

module _ (hash_bucket full_hash : ℕ) (updating : Bool) (place : ℕ → ℕ) where
  -- a step of `put_method` or of `reader_operation`, without the time-outs of the two waiting functions
  pub data Move (s : Message) : Message → Type 0 where
    may_write :
        s.writer ≡ waiting → s.marker ≡ clear_for_write → Move s (record s { writer = ready })
    sets_bucket : s.writer ≡ ready → Move s (record s { hash_bucket = hash_bucket; writer = half })
    sets_full_hash : s.writer ≡ half → Move s (record s { full_hash = full_hash; writer = written })
    posts : s.writer ≡ written → Move s (record s { marker = cleared_for_alloc; writer = posted })
    clears_offset :
        s.writer ≡ posted → Move s (record s { offset = no_offset updating; writer = awaiting })
    is_answered :
        s.writer ≡ awaiting → s.marker ≡ cleared_for_copy → Move s (record s { writer = copying })
    copies :
        s.writer ≡ copying
        → Move s (record s {
          writer =
              if updating
              then copied s.offset
              else if s.offset == u32_max
              then refused
              else copied s.offset;
        })
    ends :
        (w : ℕ)
        → s.writer ≡ copied w
        → Move s (record s { marker = clear_for_write; writer = finished })
    gives_up :
        s.writer ≡ refused → Move s (record s { marker = clear_for_write; writer = finished })
    sees : s.reader ≡ looking → s.marker ≡ cleared_for_alloc → Move s (record s { reader = saw })
    claims : s.reader ≡ saw → Move s (record s { marker = locked_for_alloc; reader = claimed })
    reads_hash :
        s.reader ≡ claimed
        → Move s (record s { reader = hashed (load64 s.full_hash s.hash_bucket) })
    places : (h : ℕ) → s.reader ≡ hashed h → Move s (record s { offset = place h; reader = placed })
    answers : s.reader ≡ placed → Move s (record s { marker = cleared_for_copy; reader = looking })

  pub data Moves (s : Message) : Message → Type 0 where
    at_first : Moves s s
    next : {t u : Message} → Moves s t → Move t u → Moves s u

-- a slot that is free, with the writer about to call and the reader about to look
abbrev pub before_put : (bucket full offset : ℕ) → Message
before_put bucket full offset = record {
  marker = clear_for_write;
  hash_bucket = bucket;
  full_hash = full;
  offset = offset;
  writer = waiting;
  reader = looking;
}
