-- ===== src/ControlWords/Readers.antt =====
-- The readers and the swappy operations of c_experiments/src/node_shm_HH.h that enter and leave one bucket, one call
-- after the other in any order, and what its word of taken spots says of them.
use shm_lru_aging_and_quotas.Base.Lists.{length}
use shm_lru_aging_and_quotas.Base.Tests.{
  ℕ, zero, suc, ◌≤◌, ◌/◌, ◌%◌, ◌^◌, ◌<◌, ◌≡◌, ◌≢◌, refl, ap, ◌∙◌, false, ◌==◌, List, [], ◌∷◌, none,
  some, arith,
}
use shm_lru_aging_and_quotas.Base.Words.{u32_max}
use shm_lru_aging_and_quotas.ControlWords.{base_reader_sem_count}
use shm_lru_aging_and_quotas.ControlWords.Fields.{
  is_base_tbits-even, is_base_tbits-odd, base_reader_sem_count_base,
}
use shm_lru_aging_and_quotas.ControlWords.Stash.{TakenSpots}
use shm_lru_aging_and_quotas.ControlWords.Stash.{fetch_real_tbits, tbits_wait_for_readers}
use shm_lru_aging_and_quotas.ControlWords.Visits.{
  Visited, since, IsCalm, Bounded, nobody, reader_enters, swappy_enters, reader_leaves,
  swappy_leaves, Fresh, Registered, idle, busy,
}
use shm_lru_aging_and_quotas.ControlWords.Entering.{
  busy_word, add_reader-Busy, add_swappy-Busy, add_reader-Bounded, add_swappy-Bounded,
}
use shm_lru_aging_and_quotas.ControlWords.Leaving.{leave-Registered, leave-Bounded}

module _ (w : ℕ) (odd : w % 2 ≡ 1) (lt : w < 2 ^ 32) where
  enter_room :
      (entered : ℕ) (held : List ℕ) → length held ≤ entered → entered < 255 → length held < u32_max
  enter_room entered held few calm = omega arith

  word_of :
      (entered : ℕ) (i : ℕ) (held : List ℕ) (t : TakenSpots)
      → Bounded entered (i ∷ held) t
      → t.taken ≢ 0
  word_of entered i held t b e = omega (arith, e, b.low (omega arith))

  watched :
      (f : ℕ) (s : TakenSpots)
      → s.taken ≡ w
      → Fresh s
      → (held : List ℕ) (t : TakenSpots) → (v : Visited f s held t) → IsCalm f s held t v
      → Registered w held t × Bounded (since f s held t v) held t
  unfolding since IsCalm
  watched f s at k held t nobody calm = (
    idle refl at k,
    record { low = λ h. absurd (omega arith); high = λ h. absurd (omega arith); few = omega arith },
  )
  watched f s at k held t (reader_enters before u v r e) (calm, few) =
      let (reg, b) = watched f s at k before u v calm in
      let bound = add_reader-Bounded w odd lt f (since f s before u v) before u r few reg b e in
      (
        busy (word_of _ r.0 before r.1 bound)
            (add_reader-Busy w odd lt f before u r (enter_room _ before b.few few) reg e),
        bound,
      )
  watched f s at k held t (swappy_enters before u v r e) (calm, few) =
      let (reg, b) = watched f s at k before u v calm in
      let bound = add_swappy-Bounded w odd lt f (since f s before u v) before u r few reg b e in
      (
        busy (word_of _ r.0 before r.1 bound)
            (add_swappy-Busy w odd lt f before u r (enter_room _ before b.few few) reg e),
        bound,
      )
  watched f s at k held t (reader_leaves before u v xs ys i split) calm =
      let (reg, b) = watched f s at k before u v calm in
      (
        (leave-Registered w odd lt before xs ys i u split reg).0,
        (leave-Bounded w odd lt (since f s before u v) before xs ys i u split reg b).0,
      )
  watched f s at k held t (swappy_leaves before u v xs ys i split) calm =
      let (reg, b) = watched f s at k before u v calm in
      (
        (leave-Registered w odd lt before xs ys i u split reg).1,
        (leave-Bounded w odd lt (since f s before u v) before xs ys i u split reg b).1,
      )

  -- The taken spots of the bucket, as every thread finds them from the word.
  fetch-Registered :
      (held : List ℕ) (t : TakenSpots) → Registered w held t → fetch_real_tbits t t.taken ≡ w
  unfolding fetch_real_tbits
  fetch-Registered held t (idle none_held at k) =
      rw (fetch_real_tbits, at, is_base_tbits-odd w odd) refl
  fetch-Registered held t (busy ne b) =
      let (even, nonzero, named) = busy_word t.taken b.index b.named ne b.index_lt in
      rw (fetch_real_tbits, even, named) b.kept

  -- Whoever has entered and left, one call after the other, the word is again that of the bucket when nobody is inside; while somebody is, all
  -- hold one element of the stash, which the word names, and which counts them and has the taken spots; and the taken
  -- spots that a thread finds from the word are always the bucket's. The word is that of a base at first, no change waits
  -- in the stash, and at no time have more than 255 entered since nobody was inside.
  pub Visited-Registered :
      (f : ℕ) (s : TakenSpots)
      → s.taken ≡ w
      → Fresh s
      → (held : List ℕ) (t : TakenSpots) → (v : Visited f s held t) → IsCalm f s held t v
      → Registered w held t × (fetch_real_tbits t t.taken ≡ w)
  Visited-Registered f s at k held t v calm =
      let reg = (watched f s at k held t v calm).0 in (reg, fetch-Registered held t reg)

  waits_for_none : (t : ℕ) → t % 2 ≡ 0 → tbits_wait_for_readers 1 t ≡ some (record {})
  unfolding tbits_wait_for_readers base_reader_sem_count
  waits_for_none t even = rw (is_base_tbits-even t even) refl

  waits_on : (g : ℕ) → w / 2 ^ 16 % 2 ^ 8 ≢ 0 → tbits_wait_for_readers g w ≡ none
  unfolding tbits_wait_for_readers
  waits_on zero ne = refl
  waits_on (suc g) ne =
      let count : (base_reader_sem_count w == 0) ≡ false =
        ground (arith, base_reader_sem_count_base w odd) in
      rw count (waits_on g ne)

  -- In every state that readers and swappy operations lead to from the word of a base, with no change waiting in the
  -- stash, `tbits_wait_for_readers` ends at once while anybody is inside; when nobody is and one of the spots 16 to 23 is
  -- taken, it never ends. The calls run one after the other, and at no time have more than 255 entered since nobody
  -- was inside.
  pub tbits_wait_for_readers_lem :
      (f : ℕ) (s : TakenSpots)
      → s.taken ≡ w
      → Fresh s
      → (held : List ℕ) (t : TakenSpots) → (v : Visited f s held t) → IsCalm f s held t v
      → (0 < length held → tbits_wait_for_readers 1 t.taken ≡ some (record {}))
        × (held ≡ [] → w / 2 ^ 16 % 2 ^ 8 ≢ 0 → (g : ℕ) → tbits_wait_for_readers g t.taken ≡ none)
  tbits_wait_for_readers_lem f s at k held t v calm = waits (watched f s at k held t v calm).0
    where
      waits :
          Registered w held t
          → (0 < length held → tbits_wait_for_readers 1 t.taken ≡ some (record {}))
            × (held ≡ []
                → w / 2 ^ 16 % 2 ^ 8 ≢ 0
                → (g : ℕ) → tbits_wait_for_readers g t.taken ≡ none)
      waits (idle none_held back r) = (
        λ inside. absurd (omega (arith, ap (λ (h : List ℕ). length h) none_held)),
        λ e ne g. ap (tbits_wait_for_readers g) back ∙ waits_on g ne,
      )
      waits (busy ne b) = (
        λ inside. waits_for_none t.taken (omega (arith, b.named)),
        λ e. absurd (omega (arith, b.some_inside, ap (λ (h : List ℕ). length h) e)),
      )
