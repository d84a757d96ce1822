-- ===== src/Lru/Attach.antt =====
-- Adding a basket to the list of use and removing its last element, of src/node_shm_LRU.h.
use mathlib.Core.Path.{subst}
use mathlib.Core.List.{append-nil}
use shm_lru_aging_and_quotas.Base.Lists.{occurs, occurs-append}
use shm_lru_aging_and_quotas.Base.Tests.{
  ℕ, ◌+◌, ◌≤◌, ◌<◌, ◌≡◌, ◌≢◌, refl, ap, ◌∙◌, some, List, [], ◌∷◌, ◌++◌, ◌==◌, if◌then◌else◌, arith,
  ==_of_ne,
}
use shm_lru_aging_and_quotas.Base.Words.{u32_max, add32, low_half}
use shm_lru_aging_and_quotas.Lru.{Region, set_next, set_prev, relink}
use shm_lru_aging_and_quotas.Lru.Basket.{
  head_or, last_or, thread, attach, set_share, attach_to_lru_list, lru_remove_last, leave_shared,
}
use shm_lru_aging_and_quotas.Lru.Chain.{Linked, Linked-frame, Linked-relink}

-- the links of a basket between what comes before and after it
abbrev Threaded : Region → (prev : ℕ) → List ℕ → (next : ℕ) → Type 0
Threaded m prev [] next = Unit
Threaded m prev (x ∷ xs) next =
    ((m x).prev ≡ prev) × ((m x).next ≡ head_or next xs) × Threaded m x xs next

thread_other :
    (m : Region) (prev : ℕ) (xs : List ℕ) (next a : ℕ)
    → occurs a xs ≡ 0
    → thread m prev xs next a ≡ m a
unfolding thread
thread_other m prev [] next a e = refl
thread_other m prev (x ∷ xs) next a e =
    thread_other (set_next (set_prev m x prev) x (head_or next xs)) x xs next a (omega arith)
    ∙ ground arith

thread-Threaded :
    (m : Region) (prev : ℕ) (xs : List ℕ) (next : ℕ)
    → ((a : ℕ) → occurs a xs ≤ 1)
    → Threaded (thread m prev xs next) prev xs next
unfolding thread
thread-Threaded m prev [] next once = tt
thread-Threaded m prev (x ∷ xs) next once =
    let n = set_next (set_prev m x prev) x (head_or next xs) in
    let kept = thread_other n x xs next x (ground (arith, once x)) in
    (
      ap (λ e. e.prev) kept ∙ ground arith,
      ap (λ e. e.next) kept ∙ ground arith,
      thread-Threaded n x xs next (λ a. omega (arith, once a)),
    )

last-has : (p : ℕ) (xs : List ℕ) → 0 < occurs (last_or p xs) (p ∷ xs)
last-has p [] = ground arith
last-has p (x ∷ xs) = omega (arith, last-has x xs)

head-has : (xs : List ℕ) (q : ℕ) → 0 < occurs (head_or q xs) (xs ++ (q ∷ []))
head-has [] q = ground arith
head-has (x ∷ xs) q = ground arith

-- a basket before a segment
Threaded-Linked :
    (n : Region) (p : ℕ) (xs order : List ℕ) (q : ℕ)
    → (n p).next ≡ head_or (head_or q order) xs
    → Threaded n p xs (head_or q order)
    → ((n (last_or p xs)).next ≡ head_or q order → Linked n (last_or p xs) order q)
    → Linked n p (xs ++ order) q
Threaded-Linked n p [] order q e t l = l e
Threaded-Linked n p (x ∷ xs) order q e t l = (e, t.0, Threaded-Linked n x xs order q t.1 t.2 l)

-- a segment behind another element
Linked-behind :
    (m n : Region) (p r : ℕ) (order : List ℕ) (q : ℕ)
    → Linked m p order q
    → (n r).next ≡ head_or q order
    → (n (head_or q order)).prev ≡ r
    → ((a : ℕ) → 0 < occurs a order → (n a).next ≡ (m a).next)
    → ((a : ℕ) → 0 < occurs a (order ++ (q ∷ [])) → a ≢ head_or q order → (n a).prev ≡ (m a).prev)
    → ((a : ℕ) → occurs a (order ++ (q ∷ [])) ≤ 1)
    → Linked n r order q
Linked-behind m n p r [] q l next prev f g once = (next, prev)
Linked-behind m n p r (y ∷ ys) q l next prev f g once =
    (next, prev, Linked-frame m n y ys q l.2 f (λ a h. g a (omega arith) (ground (arith, once y))))

head_write-first : (m : Region) (x u v a : ℕ) → u ≡ a → (set_prev (set_next m 0 x) u v a).prev ≡ v
head_write-first m x u v a e = ground arith

head_write-next :
    (m : Region) (x u v a : ℕ)
    → (set_prev (set_next m 0 x) u v a).next ≡ (if a == 0 then x else (m a).next)
head_write-next m x u v a = ground arith

header_write-prev :
    (m : Region) (x u v a : ℕ) → a ≢ u → (set_prev (set_next m 0 x) u v a).prev ≡ (m a).prev
header_write-prev m x u v a ne = ground arith

first-of :
    (m : Region) (p : ℕ) (order : List ℕ) (q : ℕ)
    → Linked m p order q
    → (m p).next ≡ head_or q order
first-of m p [] q l = l.0
first-of m p (y ∷ ys) q l = l.0

-- Behind the header at 0, a basket of elements that do not stand in the list of use: after `attach` the
-- list is the basket in its order, and then the list as it was.
pub Linked-attach :
    (m : Region) (offsets order : List ℕ) (q : ℕ)
    → Linked m 0 order q
    → offsets ≢ []
    → ((a : ℕ) → occurs a (0 ∷ q ∷ []) + occurs a offsets + occurs a order ≤ 1)
    → Linked (attach m offsets) 0 (offsets ++ order) q
Linked-attach m [] order q l some_one once = absurd (some_one refl)
Linked-attach m (x ∷ xs) order q l some_one once =
    let offsets = x ∷ xs in
    let n = attach m offsets in
    let base = set_prev (set_next m 0 x) (m 0).next (last_or 0 offsets) in
    let kept : (a : ℕ) → occurs a offsets ≡ 0 → n a ≡ base a =
      λ a e. unfold attach in thread_other base 0 offsets (m 0).next a e in
    let first = first-of m 0 order q l in
    let chain : Threaded n 0 offsets (head_or q order) =
      subst (λ (k : ℕ). Threaded n 0 offsets k) first
        (unfold attach in thread-Threaded base 0 offsets (m 0).next (λ a. omega (arith, once a))) in
    let first_in = head-has order q in
    let first_apart : occurs (head_or q order) offsets ≡ 0 =
      omega
        (arith, first_in, once (head_or q order), occurs-append (head_or q order) order (q ∷ [])) in
    let header = ap (λ e. e.next) (kept 0 (ground (arith, once 0))) in
    Threaded-Linked n 0 offsets order q (header ∙ ground (arith, once 0)) chain (λ e.
      Linked-behind m n 0 (last_or 0 offsets) order q l e
        (ap (λ e. e.prev) (kept (head_or q order) first_apart)
          ∙ head_write-first m x (m 0).next (last_or 0 offsets) (head_or q order) first)
        (λ a h.
          ap (λ e. e.next) (kept a (omega (arith, once a)))
          ∙ head_write-next m x (m 0).next (last_or 0 offsets) a
          ∙ ground (arith, once a))
        (λ a h ne.
          ap (λ e. e.prev) (kept a (omega (arith, once a, occurs-append a order (q ∷ []))))
          ∙ header_write-prev m x (m 0).next (last_or 0 offsets) a (λ at. ne (at ∙ first)))
        (λ a. omega (arith, once a, occurs-append a order (q ∷ []))))

set_share-next : (m : Region) (o v a : ℕ) → (set_share m o v a).next ≡ (m a).next
set_share-next m o v a = ground arith

set_share-prev : (m : Region) (o v a : ℕ) → (set_share m o v a).prev ≡ (m a).prev
set_share-prev m o v a = ground arith

set_share-hash : (m : Region) (o v a : ℕ) → (set_share m o v a).hash ≡ (m a).hash
set_share-hash m o v a = ground arith

last-of :
    (m : Region) (p : ℕ) (xs : List ℕ) (x q : ℕ) → Linked m p (xs ++ (x ∷ [])) q → (m q).prev ≡ x
last-of m p [] x q l = l.2.1
last-of m p (y ∷ ys) x q l = last-of m y ys x q l.2

after-last :
    (m : Region) (p : ℕ) (xs : List ℕ) (x q : ℕ) → Linked m p (xs ++ (x ∷ [])) q → (m x).next ≡ q
after-last m p [] x q l = l.2.0
after-last m p (y ∷ ys) x q l = after-last m y ys x q l.2

Linked-set_share :
    (m : Region) (o v p : ℕ) (xs : List ℕ) (q : ℕ)
    → Linked m p xs q
    → Linked (set_share m o v) p xs q
Linked-set_share m o v p xs q l =
    Linked-frame m (set_share m o v) p xs q l (λ a h. set_share-next m o v a)
      (λ a h. set_share-prev m o v a)

-- In a list of use with the tail at `step`, whose flag is not taken by a removal, a basket of one element
-- or more that stands nowhere in the list is added at the front, in its own order.
pub attach_to_lru_list-Linked :
    (m : Region) (step : ℕ) (offsets order : List ℕ)
    → Linked m 0 order step
    → offsets ≢ []
    → ((a : ℕ) → occurs a (0 ∷ step ∷ []) + occurs a offsets + occurs a order ≤ 1)
    → (m step).share_key ≢ u32_max
    → (n : Region) × (attach_to_lru_list m step offsets ≡ some n)
      × Linked n 0 (offsets ++ order) step
unfolding attach_to_lru_list
attach_to_lru_list-Linked m step offsets order l some_one once open_tail =
    let locked = set_share m step (add32 (m step).share_key 1) in
    let done = attach locked offsets in
    (
      set_share done step (leave_shared (done step).share_key),
      rw (==_of_ne (m step).share_key u32_max open_tail) refl,
      Linked-set_share done step (leave_shared (done step).share_key) 0 (offsets ++ order) step (
          Linked-attach locked offsets order step
            (Linked-set_share m step (add32 (m step).share_key 1) 0 order step l) some_one once),
    )

-- In a list of use of one element or more, with the tail at `step` and nobody at its flag, the last
-- element is removed: its offset and the low half of its hash are returned, the others stay in order,
-- and the flag is free again.
pub lru_remove_last-Linked :
    (m : Region) (step : ℕ) (xs : List ℕ) (x : ℕ)
    → Linked m 0 (xs ++ (x ∷ [])) step
    → ((a : ℕ) → occurs a (0 ∷ step ∷ []) + occurs a (xs ++ (x ∷ [])) ≤ 1)
    → (m step).share_key ≡ 0
    → (n : Region) × (lru_remove_last m step ≡ some (x, low_half (m x).hash, n))
      × Linked n 0 xs step
      × ((n step).share_key ≡ 0)
unfolding lru_remove_last
lru_remove_last-Linked m step xs x l once idle =
    let locked = set_share m step u32_max in
    let l' = Linked-set_share m step u32_max 0 (xs ++ (x ∷ [])) step l in
    let last : (locked step).prev ≡ x = last-of locked 0 xs x step l' in
    let after : (locked x).next ≡ step = after-last locked 0 xs x step l' in
    let short = Linked-relink locked 0 xs x [] step l' (λ a.
      omega (arith, once a, occurs-append a xs (x ∷ []), occurs-append a xs (x ∷ step ∷ []))) in
    let done = relink locked (locked x).prev step in
    (
      set_share done step 0,
      rw (idle, last, set_share-hash m step u32_max x) refl,
      Linked-set_share done step 0 0 xs step (
          subst (λ (k : List ℕ). Linked done 0 k step) (append-nil xs)
            (subst (λ (k : ℕ). Linked (relink locked (locked x).prev k) 0 (xs ++ []) step) after
              short)),
      ground arith,
    )
