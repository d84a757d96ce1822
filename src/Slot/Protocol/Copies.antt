-- ===== src/Slot/Protocol/Copies.antt =====
-- Where `put_method` of src/node_shm_LRU.h copies its data to.
use shm_lru_aging_and_quotas.Base.Tests.{
  ℕ, ◌≡◌, refl, ap, ◌∙◌, ◌⊎◌, inl, inr, Bool, true, false, ◌==◌, if◌then◌else◌, arith,
}
use shm_lru_aging_and_quotas.Base.Words.{u32_max, load64}
use shm_lru_aging_and_quotas.Slot.{
  clear_for_write, cleared_for_alloc, locked_for_alloc, cleared_for_copy,
}
use shm_lru_aging_and_quotas.Slot.Protocol.{
  waiting, ready, half, written, posted, awaiting, copying, finished, refused, copied, looking, saw,
  claimed, placed, hashed, Message, no_offset, Move, may_write, sets_bucket, sets_full_hash, posts,
  clears_offset, is_answered, copies, ends, gives_up, sees, claims, reads_hash, places, answers,
  Moves, at_first, next, before_put,
}

module _ (hash_bucket full_hash : ℕ) (updating : Bool) (place : ℕ → ℕ) where
  abbrev hash : ℕ
  hash = load64 full_hash hash_bucket

  abbrev Answer : ℕ → Type 0
  Answer w = (w ≡ place hash) ⊎ (w ≡ no_offset updating)

  abbrev Posted : Message → Type 0
  Posted s = (s.hash_bucket ≡ hash_bucket) × (s.full_hash ≡ full_hash)

  -- the phases of a message
  data Phase (s : Message) : Type 0 where
    early :
        s.reader ≡ looking
        → s.marker ≡ clear_for_write
        → (s.writer ≡ waiting) ⊎ (s.writer ≡ ready)
        → Phase s
    with_bucket :
        s.reader ≡ looking
        → s.marker ≡ clear_for_write
        → s.writer ≡ half
        → s.hash_bucket ≡ hash_bucket
        → Phase s
    with_both :
        s.reader ≡ looking → s.marker ≡ clear_for_write → s.writer ≡ written → Posted s → Phase s
    offered :
        (s.reader ≡ looking) ⊎ (s.reader ≡ saw)
        → s.marker ≡ cleared_for_alloc
        → (s.writer ≡ posted) ⊎ (s.writer ≡ awaiting)
        → Posted s
        → Phase s
    locked :
        (s.reader ≡ claimed) ⊎ (s.reader ≡ hashed hash)
        → s.marker ≡ locked_for_alloc
        → (s.writer ≡ posted) ⊎ (s.writer ≡ awaiting)
        → Posted s
        → Phase s
    located :
        s.reader ≡ placed
        → s.marker ≡ locked_for_alloc
        → (s.writer ≡ posted) ⊎ (s.writer ≡ awaiting)
        → Answer s.offset
        → Phase s
    answered :
        s.reader ≡ looking
        → s.marker ≡ cleared_for_copy
        → (s.writer ≡ posted) ⊎ ((s.writer ≡ awaiting) ⊎ (s.writer ≡ copying))
        → Answer s.offset
        → Phase s
    over :
        s.reader ≡ looking
        → s.marker ≡ cleared_for_copy
        → (w : ℕ) → s.writer ≡ copied w
        → Answer w
        → Phase s
    turned_down : s.reader ≡ looking → s.marker ≡ cleared_for_copy → s.writer ≡ refused → Phase s
    ended : s.reader ≡ looking → s.marker ≡ clear_for_write → s.writer ≡ finished → Phase s

  copied-Phase :
      (s : Message)
      → s.reader ≡ looking
      → s.marker ≡ cleared_for_copy
      → Answer s.offset
      → Phase (record s {
        writer =
            if updating
            then copied s.offset
            else if s.offset == u32_max
            then refused
            else copied s.offset;
      })
  copied-Phase s u v y = either updating (s.offset == u32_max)
    where
      either :
          (a b : Bool)
          → Phase (record s {
            writer = if a then copied s.offset else if b then refused else copied s.offset;
          })
      either true b = over u v s.offset refl y
      either false true = turned_down u v refl
      either false false = over u v s.offset refl y

  Move-Phase : {s t : Message} → Move hash_bucket full_hash updating place s t → Phase s → Phase t
  Move-Phase (may_write e f) p = elim p [
    | early u v x ↦ early u v (inr refl)
    | other ↦ ground arith
  ]
  Move-Phase (sets_bucket e) p = elim p [
    | early u v x ↦ with_bucket u v refl refl
    | other ↦ ground arith
  ]
  Move-Phase (sets_full_hash e) p = elim p [
    | with_bucket u v x y ↦ with_both u v refl (y, refl)
    | other ↦ ground arith
  ]
  Move-Phase (posts e) p = elim p [
    | with_both u v x y ↦ offered (inl u) refl (inl refl) y
    | other ↦ ground arith
  ]
  Move-Phase (clears_offset e) p = elim p [
    | offered u v x y ↦ offered u v (inr refl) y
    | locked u v x y ↦ locked u v (inr refl) y
    | located u v x y ↦ located u v (inr refl) (inr refl)
    | answered u v x y ↦ answered u v (inr (inl refl)) (inr refl)
    | other ↦ ground arith
  ]
  Move-Phase (is_answered e f) p = elim p [
    | answered u v x y ↦ answered u v (inr (inr refl)) y
    | other ↦ ground arith
  ]
  Move-Phase {s} (copies e) p = elim p [
    | answered u v x y ↦ copied-Phase s u v y
    | early u v x ↦ absurd (ground arith)
    | with_bucket u v x y ↦ absurd (ground arith)
    | with_both u v x y ↦ absurd (ground arith)
    | offered u v x y ↦ absurd (ground arith)
    | locked u v x y ↦ absurd (ground arith)
    | located u v x y ↦ absurd (ground arith)
    | over u v x y z ↦ absurd (ground arith)
    | turned_down u v x ↦ absurd (ground arith)
    | ended u v x ↦ absurd (ground arith)
  ]
  Move-Phase (ends w e) p = elim p [ over u v x y z ↦ ended u refl refl | other ↦ ground arith ]
  Move-Phase (gives_up e) p = elim p [
    | turned_down u v x ↦ ended u refl refl
    | other ↦ ground arith
  ]
  Move-Phase (sees e f) p = elim p [
    | offered u v x y ↦ offered (inr refl) v x y
    | other ↦ ground arith
  ]
  Move-Phase (claims e) p = elim p [
    | offered u v x y ↦ locked (inl refl) refl x y
    | other ↦ ground arith
  ]
  Move-Phase {s} (reads_hash e) p = elim p [
    | locked u v x y ↦
        locked (inr (ap hashed (ap (λ h. load64 h s.hash_bucket) y.1 ∙ ap (load64 full_hash) y.0)))
          v x y
    | other ↦ ground arith
  ]
  Move-Phase (places h e) p = elim p [
    | locked u v x y ↦ located refl v x (inl (ground (arith, e, u)))
    | other ↦ ground arith
  ]
  Move-Phase (answers e) p = elim p [
    | located u v x y ↦ answered refl refl (ground arith) y
    | other ↦ ground arith
  ]

  Moves-Phase : {s t : Message} → Moves hash_bucket full_hash updating place s t → Phase s → Phase t
  Moves-Phase at_first p = p
  Moves-Phase (next r m) p = Move-Phase m (Moves-Phase r p)

  Phase-Answer : (s : Message) (w : ℕ) → s.writer ≡ copied w → Phase s → Answer w
  Phase-Answer s w e p = elim p [
    | over u v w' x y ↦ ground (arith, e, x, y)
    | early u v x ↦ absurd (ground arith)
    | with_bucket u v x y ↦ absurd (ground arith)
    | with_both u v x y ↦ absurd (ground arith)
    | offered u v x y ↦ absurd (ground arith)
    | locked u v x y ↦ absurd (ground arith)
    | located u v x y ↦ absurd (ground arith)
    | answered u v x y ↦ absurd (ground arith)
    | turned_down u v x ↦ absurd (ground arith)
    | ended u v x ↦ absurd (ground arith)
  ]

-- From a free slot, without time-outs, and in any order of the steps of the writer and of one reader, the
-- place that `put_method` copies its data to is the one that the tier gives for the very hash of the call,
-- or the value that `put_method` itself has left for the answer.
pub put_method-Answer :
    (hash_bucket full_hash : ℕ) (updating : Bool) (place : ℕ → ℕ) (bucket full offset w : ℕ)
    (t : Message)
    → Moves hash_bucket full_hash updating place (before_put bucket full offset) t
    → t.writer ≡ copied w
    → (w ≡ place (load64 full_hash hash_bucket)) ⊎ (w ≡ no_offset updating)
put_method-Answer hash_bucket full_hash updating place bucket full offset w t moves at =
    Phase-Answer hash_bucket full_hash updating place t w at
      (Moves-Phase hash_bucket full_hash updating place moves (early refl refl (inl refl)))

-- The answer can be lost: whatever place the tier gives, there is an order of the steps, from a free slot
-- and without time-outs, in which the reader has answered and `put_method` of a new message copies its data
-- to the offset 0, since it clears the offset after it has posted the message.
pub put_method_lost :
    (hash_bucket full_hash : ℕ) (place : ℕ → ℕ) (bucket full offset : ℕ)
    → Moves hash_bucket full_hash false place (before_put bucket full offset) record {
      marker = cleared_for_copy;
      hash_bucket = hash_bucket;
      full_hash = full_hash;
      offset = 0;
      writer = copied 0;
      reader = looking;
    }
put_method_lost hash_bucket full_hash place bucket full offset =
    let told =
      next
        (next (next (next at_first (may_write refl refl)) (sets_bucket refl)) (sets_full_hash refl))
        (posts refl) in
    let found =
      next (next (next (next told (sees refl refl)) (claims refl)) (reads_hash refl))
        (places (load64 full_hash hash_bucket) refl) in
    next (next (next (next found (clears_offset refl)) (answers refl)) (is_answered refl refl))
      (copies refl)
