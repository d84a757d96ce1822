-- ===== src/Lru/Walk.antt =====
-- `_walk_free_list` of src/node_shm_LRU.h, which an attaching process calls to count the free elements.
use shm_lru_aging_and_quotas.Base.Lists.{length, occurs}
use shm_lru_aging_and_quotas.Base.Tests.{
  ℕ, zero, suc, ◌+◌, ◌-◌, ◌*◌, ◌%◌, ◌^◌, ◌≤◌, ◌<◌, ◌≡◌, ◌≢◌, ap, ◌∙◌, false, Option, none, some,
  List, [], ◌∷◌, leb, ◌==◌, if◌then◌else◌, arith, ==_of_ne,
}
use shm_lru_aging_and_quotas.Base.Words.{u32_max}
use shm_lru_aging_and_quotas.Lru.{Region, Cache}
use shm_lru_aging_and_quotas.Lru.Chain.{Free}
use shm_lru_aging_and_quotas.Lru.Layout.{Layout}

-- the loop, at the element `curr`; the count grows to `max_count` at most, which bounds the rounds
unfoldable pub walk_from : ℕ → Region → (max_count curr count : ℕ) → Option ℕ
walk_from zero m max_count curr count = none
walk_from (suc f) m max_count curr count =
    let count' = count + 1 in
    let rest = walk_from f m max_count (m curr).next count' in
    if (m curr).next == u32_max
    then some count
    else if leb max_count count'
    then some count'
    else rest

-- `count - _count_free` of a `size_t`
abbrev pub less_free : ℕ → Option ℕ → Option ℕ
less_free count_free none = none
less_free count_free (some count) = some ((count + 2 ^ 64 - count_free) % 2 ^ 64)

-- `_walk_free_list`
unfoldable pub walk_free_list : {T : Type 0} → Cache T → Option ℕ
walk_free_list c =
    less_free c.count_free
      (walk_from (suc c.max_count) c.region c.max_count (c.region (2 * c.step)).next 0)

module _ (m : Region) (max_count : ℕ) where
  walk_from-Free :
      (f count p : ℕ) (xs : List ℕ)
      → Free m p xs
      → ((a : ℕ) → 0 < occurs a xs → a ≢ u32_max)
      → count + length xs < max_count
      → length xs < f
      → walk_from f m max_count p count ≡ some (count + length xs)
  unfolding walk_from
  walk_from-Free zero count p xs l low room fuel = absurd (omega arith)
  walk_from-Free (suc f) count p [] l low room fuel = rw l (ap some (omega arith))
  walk_from-Free (suc f) count p (x ∷ xs) l low room fuel =
      let go_on : leb max_count (count + 1) ≡ false = ground arith in
      rw (l.0, ==_of_ne x u32_max (low x (ground arith)), go_on)
        (walk_from-Free f (count + 1) x xs l.2 (λ a h. low a (omega arith)) (omega arith)
            (omega arith)
          ∙ ap some (omega arith))

-- In a region with the layout of a cache, the walk of a free list of one element or more, and of no more than
-- `_max_count`, misses its last element, and what it returns is lessened by the count of the process: one
-- less than the length of the list at first, and 0 when the process has taken this result as its count.
pub walk_free_list-Layout :
    {T : Type 0} (c : Cache T) (order rest : List ℕ) (x : ℕ)
    → Layout c.region c.step c.region_size order (x ∷ rest)
    → c.count_free ≤ length rest
    → length rest < c.max_count
    → c.max_count < 2 ^ 16
    → walk_free_list c ≡ some (length rest - c.count_free)
unfolding walk_free_list
walk_free_list-Layout c order rest x l counted room small =
    rw
      (
        l.freed.0,
        walk_from-Free c.region c.max_count (suc c.max_count) 0 x rest l.freed.2
            (λ a h. ground (arith, l.fits a)) (omega arith) (omega arith),
      )
      (ap some (omega arith))
