-- ===== src/Lru/Recount.antt =====
-- `_walk_allocated_list` of src/node_shm_LRU.h, which an attaching process calls to count the elements in
-- use. What `call_mapper` selects only prints, or tests `_hmap_i == nullptr`, which an array never is.
use shm_lru_aging_and_quotas.Base.Lists.{length, length-append, occurs, occurs-append}
use shm_lru_aging_and_quotas.Base.Tests.{
  ℕ, zero, suc, ◌+◌, ◌-◌, ◌%◌, ◌^◌, ◌<◌, ◌≡◌, ◌≢◌, refl, sym, ap, ◌∙◌, Bool, true, false, Option,
  none, some, List, [], ◌∷◌, ◌++◌, leb, ◌==◌, if◌then◌else◌, arith, ==_of_ne, Bool-cases, inl, inr,
}
use shm_lru_aging_and_quotas.Base.Words.{u32_max}
use shm_lru_aging_and_quotas.Lru.{Element, Region, Cache}
use shm_lru_aging_and_quotas.Lru.Chain.{Linked}
use shm_lru_aging_and_quotas.Lru.Evict.{rev, occurs-rev}
use shm_lru_aging_and_quotas.Lru.Layout.{Layout}

-- the loop of both walks, at the element `curr`, by the field that it follows; the count grows to
-- `max_count` at most, which bounds the rounds
unfoldable pub walk_used : (link : Element → ℕ) → ℕ → Region → (max_count curr count : ℕ) → Option ℕ
walk_used link zero m max_count curr count = none
walk_used link (suc f) m max_count curr count =
    let count' = count + 1 in
    let rest = walk_used link f m max_count (link (m curr)) count' in
    if link (m curr) == u32_max
    then some count
    else if leb max_count count'
    then some count'
    else rest

-- `count - _count` of a `size_t`
abbrev pub less_used : ℕ → Option ℕ → Option ℕ
less_used used none = none
less_used used (some count) = some ((count + 2 ^ 64 - used) % 2 ^ 64)

-- `_walk_allocated_list_forwards`
unfoldable pub walk_allocated_list_forwards : {T : Type 0} → Cache T → Option ℕ
walk_allocated_list_forwards c =
    less_used c.count
      (walk_used (λ e. e.next) (suc c.max_count) c.region c.max_count (c.region 0).next 0)

-- `_walk_allocated_list_backwards`
unfoldable pub walk_allocated_list_backwards : {T : Type 0} → Cache T → Option ℕ
walk_allocated_list_backwards c =
    less_used c.count
      (walk_used (λ e. e.prev) (suc c.max_count) c.region c.max_count (c.region c.step).prev 0)

-- `_walk_allocated_list`
abbrev pub walk_allocated_list : {T : Type 0} → Cache T → (backwards : Bool) → Option ℕ
walk_allocated_list c backwards =
    if backwards then walk_allocated_list_backwards c else walk_allocated_list_forwards c

-- the smaller of two numbers
abbrev pub capped : (most n : ℕ) → ℕ
capped most n = if leb most n then most else n

-- the field leads from `a` through `xs` to `z`
abbrev Trail : (link : Element → ℕ) → Region → (a : ℕ) → List ℕ → (z : ℕ) → Type 0
Trail link m a [] z = link (m a) ≡ z
Trail link m a (x ∷ xs) z = (link (m a) ≡ x) × Trail link m x xs z

Trail-snoc :
    (link : Element → ℕ) (m : Region) (a : ℕ) (xs : List ℕ) (x z : ℕ)
    → Trail link m a xs x
    → link (m x) ≡ z
    → Trail link m a (xs ++ (x ∷ [])) z
Trail-snoc link m a [] x z p e = (p, e)
Trail-snoc link m a (y ∷ ys) x z p e = (p.0, Trail-snoc link m y ys x z p.1 e)

Linked-forwards :
    (m : Region) (p : ℕ) (xs : List ℕ) (q : ℕ) → Linked m p xs q → Trail (λ e. e.next) m p xs q
Linked-forwards m p [] q l = l.0
Linked-forwards m p (x ∷ xs) q l = (l.0, Linked-forwards m x xs q l.2)

Linked-backwards :
    (m : Region) (p : ℕ) (xs : List ℕ) (q : ℕ)
    → Linked m p xs q
    → Trail (λ e. e.prev) m q (rev xs) p
Linked-backwards m p [] q l = l.1
Linked-backwards m p (x ∷ xs) q l =
    Trail-snoc (λ e. e.prev) m q (rev xs) x p (Linked-backwards m x xs q l.2) l.1

length-rev : (xs : List ℕ) → length (rev xs) ≡ length xs
length-rev [] = refl
length-rev (x ∷ xs) = omega (arith, length-append (rev xs) (x ∷ []), length-rev xs)

module _ (link : Element → ℕ) (m : Region) (most z : ℕ) (stops : link (m z) ≡ u32_max) where
  walk_used-Trail :
      (f count a : ℕ) (xs : List ℕ)
      → Trail link m a xs z
      → ((b : ℕ) → 0 < occurs b (xs ++ (z ∷ [])) → b ≢ u32_max)
      → count < most
      → most < f + count
      → walk_used link f m most (link (m a)) count ≡ some (capped most (count + length xs))
  unfolding walk_used
  walk_used-Trail zero count a xs p low room fuel = absurd (omega arith)
  walk_used-Trail (suc f) count a [] p low room fuel =
      let cap : capped most (count + 0) ≡ count = ground arith in rw (p, stops, cap) refl
  walk_used-Trail (suc f) count a (x ∷ xs) p low room fuel =
      elim (Bool-cases (leb most (count + 1))) [
        | inl e ↦
            rw (p.0, ==_of_ne (link (m x)) u32_max (apart xs p.1 (λ b h. low b (omega arith))), e)
              (ground arith)
        | inr e ↦
            rw (p.0, ==_of_ne (link (m x)) u32_max (apart xs p.1 (λ b h. low b (omega arith))), e)
              (walk_used-Trail f (count + 1) x xs p.1 (λ b h. low b (omega arith)) (ground arith)
                  (omega arith)
                ∙ ap (λ n. some (capped most n)) (omega arith))
      ]
    where
      apart :
          (ys : List ℕ)
          → Trail link m x ys z
          → ((b : ℕ) → 0 < occurs b (ys ++ (z ∷ [])) → b ≢ u32_max)
          → link (m x) ≢ u32_max
      apart [] q below = ground (arith, below z)
      apart (y ∷ ys) q below = ground (arith, below y)

  walk_used_whole :
      (a : ℕ) (xs : List ℕ)
      → Trail link m a xs z
      → ((b : ℕ) → 0 < occurs b (xs ++ (z ∷ [])) → b ≢ u32_max)
      → 0 < most
      → walk_used link (suc most) m most (link (m a)) 0 ≡ some (capped most (length xs))
  walk_used_whole a xs p low room =
      walk_used-Trail (suc most) 0 a xs p low room (omega arith)
      ∙ ap (λ n. some (capped most n)) (omega arith)

-- In a region with the layout of a cache whose header has no `prev` and whose tail no `next`, as the
-- set-up leaves them, both walks of the list of use end and give the same count: the elements in use, or
-- `_max_count` when they are more, less the count of the process. The size of an element is below
-- 2 ^ 32 - 1, and `_max_count` is not 0.
pub walk_allocated_list-Layout :
    {T : Type 0} (c : Cache T) (order free : List ℕ)
    → Layout c.region c.step c.region_size order free
    → (c.region 0).prev ≡ u32_max
    → (c.region c.step).next ≡ u32_max
    → c.step < u32_max
    → 0 < c.max_count
    → (walk_allocated_list c true ≡ walk_allocated_list c false)
      × (walk_allocated_list c false ≡ less_used c.count (some (capped c.max_count (length order))))
unfolding walk_allocated_list_forwards walk_allocated_list_backwards
walk_allocated_list-Layout c order free l first last small room =
    let forwards =
      walk_used_whole (λ e. e.next) c.region c.max_count c.step last 0 order
        (Linked-forwards c.region 0 order c.step l.linked)
        (λ b h. ground (arith, l.fits b, occurs-append b order (c.step ∷ []))) room in
    let backwards =
      walk_used_whole (λ e. e.prev) c.region c.max_count 0 first c.step (rev order)
        (Linked-backwards c.region 0 order c.step l.linked)
        (λ b h. ground (arith, l.fits b, occurs-append b (rev order) (0 ∷ []), occurs-rev b order))
        room in
    (
      ap (less_used c.count)
          (backwards ∙ ap (λ n. some (capped c.max_count n)) (length-rev order) ∙ sym forwards),
      ap (less_used c.count) forwards,
    )
