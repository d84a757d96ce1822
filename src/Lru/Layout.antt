-- ===== src/Lru/Layout.antt =====
-- The shape of the region of src/node_shm_LRU.h: the header at 0, the tail at `step`, the head of the
-- free list at `2 * step`, and every other element either in the list of use or in the free list.
use shm_lru_aging_and_quotas.Base.Lists.{occurs, occurs-append}
use shm_lru_aging_and_quotas.Base.Tests.{
  ℕ, ◌+◌, ◌*◌, ◌%◌, ◌≤◌, ◌<◌, ◌≡◌, ◌≢◌, ◌∙◌, List, [], ◌∷◌, ◌++◌, arith, ◌==◌, if◌then◌else◌,
}
use shm_lru_aging_and_quotas.Base.Words.{u32_max}
use shm_lru_aging_and_quotas.Lru.{Region, relink, push_front, free_element, set_next}
use shm_lru_aging_and_quotas.Lru.Chain.{
  Linked, Free, Linked-frame, Free-frame, Linked-relink, Linked-push_front, relink-next,
  relink-prev, push_front-next, push_front-prev, prev-has, next-has,
}

-- `order` is the list of use, the last used element first.
pub record Layout (m : Region) (step size : ℕ) (order free : List ℕ) : Type 0 where
  pub linked : Linked m 0 order step
  pub freed : Free m (2 * step) free
  pub unique : (a : ℕ) → occurs a (0 ∷ step ∷ 2 * step ∷ []) + occurs a order + occurs a free ≤ 1
  pub fits :
      (a : ℕ) → 0 < occurs a order + occurs a free → (a < u32_max) × (a ≤ size) × (a % step ≡ 0)

-- only the `next` and `prev` fields count
pub Layout-frame :
    {step size : ℕ} {m n : Region} {order free : List ℕ}
    → Layout m step size order free
    → ((a : ℕ) → (n a).next ≡ (m a).next)
    → ((a : ℕ) → (n a).prev ≡ (m a).prev)
    → Layout n step size order free
Layout-frame {step} {size} {m} {n} {order} {free} l f g = record {
  linked = Linked-frame m n 0 order step l.linked (λ a h. f a) (λ a h. g a);
  freed = Free-frame m n (2 * step) free l.freed (λ a h. f a) (λ a h. g a);
  unique = l.unique;
  fits = l.fits;
}

head-has :
    (m : Region) (p : ℕ) (xs : List ℕ) (q : ℕ)
    → Linked m p xs q
    → 0 < occurs (m p).next (xs ++ (q ∷ []))
head-has m p [] q l = ground arith
head-has m p (x ∷ xs) q l = ground arith

module _ (m : Region) (step size : ℕ) (xs ys free : List ℕ) (x : ℕ)
    (l : Layout m step size (xs ++ (x ∷ ys)) free) where
  unique_split :
      (a : ℕ)
      → occurs a (0 ∷ step ∷ 2 * step ∷ []) + occurs a xs + occurs a (x ∷ ys) + occurs a free ≤ 1
  unique_split a = omega (arith, l.unique a, occurs-append a xs (x ∷ ys))

  before : 0 < occurs (m x).prev (0 ∷ xs)
  before = prev-has m x ys step 0 xs l.linked

  after : 0 < occurs (m x).next ys + occurs (m x).next (step ∷ [])
  after = omega (arith, next-has m x ys step 0 xs l.linked, occurs-append (m x).next ys (step ∷ []))

  abbrev unlinked : Region
  unlinked = relink m (m x).prev (m x).next

  -- an element taken out of the list of use
  pub unlink : Linked unlinked 0 (xs ++ ys) step
  unlink = Linked-relink m 0 xs x ys step l.linked (λ a. omega (
    arith,
    unique_split a,
    occurs-append a xs (x ∷ (ys ++ (step ∷ []))),
    occurs-append a ys (step ∷ []),
  ))

  pub unlink_Free : Free unlinked (2 * step) free
  unlink_Free =
      Free-frame m unlinked (2 * step) free l.freed
        (λ a h. ground (arith, relink-next m (m x).prev (m x).next a, unique_split a, before))
        (λ a h. ground (arith, relink-prev m (m x).prev (m x).next a, unique_split a, after))

-- The rest of a free list, from another head.
Free-move :
    (m n : Region) (p r : ℕ) (zs : List ℕ)
    → Free m p zs
    → (n r).next ≡ (m p).next
    → ((a : ℕ) → 0 < occurs a zs → (n a).next ≡ (m a).next)
    → ((a : ℕ) → 0 < occurs a zs → (n a).prev ≡ (m a).prev)
    → Free n r zs
Free-move m n p r [] l e f g = e ∙ l
Free-move m n p r (z ∷ zs) l e f g =
    (e ∙ l.0, ground (arith, g z), Free-frame m n z zs l.2 f (λ a h. g a (omega arith)))

-- An element that stands in neither list, put in front of the list of use.
pub Layout-push_front :
    (m : Region) (step size : ℕ) (order free : List ℕ) (x : ℕ)
    → Linked m 0 order step
    → Free m (2 * step) free
    → ((a : ℕ) → occurs a (0 ∷ step ∷ 2 * step ∷ []) + occurs a (x ∷ order) + occurs a free ≤ 1)
    → ((a : ℕ)
        → 0 < occurs a (x ∷ order) + occurs a free
        → (a < u32_max) × (a ≤ size) × (a % step ≡ 0))
    → Layout (push_front m x) step size (x ∷ order) free
Layout-push_front m step size order free x l f once fits =
    let first = head-has m 0 order step l in
    let first_in = occurs-append (m 0).next order (step ∷ []) in
    record {
      linked =
          Linked-push_front m x order step l
            (λ a. omega (arith, once a, occurs-append a order (step ∷ [])));
      freed =
          Free-frame m (push_front m x) (2 * step) free f
            (λ a h. ground (arith, push_front-next m x a, once a))
            (λ a h. ground (arith, push_front-prev m x a, once a, first, first_in));
      unique = once;
      fits = fits;
    }

-- `touch` moves an element to the front.
pub Layout-touch :
    (m : Region) (step size : ℕ) (xs ys free : List ℕ) (x : ℕ)
    → Layout m step size (xs ++ (x ∷ ys)) free
    → Layout (push_front (relink m (m x).prev (m x).next) x) step size (x ∷ (xs ++ ys)) free
Layout-touch m step size xs ys free x l =
    Layout-push_front (relink m (m x).prev (m x).next) step size (xs ++ ys) free x
      (unlink m step size xs ys free x l) (unlink_Free m step size xs ys free x l)
      (λ a. omega (arith, l.unique a, occurs-append a xs (x ∷ ys), occurs-append a xs ys))
      (λ a h. l.fits a (omega (arith, occurs-append a xs (x ∷ ys), occurs-append a xs ys)))

-- `add_el` takes the first element off the free list.
pub Layout-take_free :
    (m : Region) (step size : ℕ) (order free : List ℕ) (x : ℕ)
    → Layout m step size order (x ∷ free)
    → Layout (push_front (set_next m (2 * step) (m x).next) x) step size (x ∷ order) free
Layout-take_free m step size order free x l =
    let n = set_next m (2 * step) (m x).next in
    Layout-push_front n step size order free x
      (Linked-frame m n 0 order step l.linked (λ a h. ground (arith, l.unique a))
        (λ a h. ground arith))
      (Free-move m n x (2 * step) free l.freed.2 (ground arith) (λ a h. ground (arith, l.unique a))
        (λ a h. ground arith))
      (λ a. omega (arith, l.unique a)) (λ a h. l.fits a (omega arith))

free_element-next :
    (m : Region) (f o a : ℕ)
    → f ≢ o
    → (free_element m f o a).next
      ≡ (if a == f then o else if a == o then (m f).next else (m a).next)
unfolding free_element
free_element-next m f o a ne = ground arith

free_element-prev :
    (m : Region) (f o a : ℕ)
    → (free_element m f o a).prev ≡ (if a == o then u32_max else (m a).prev)
unfolding free_element
free_element-prev m f o a = ground arith

-- `del_el` moves an element to the front of the free list.
pub Layout-free :
    (m : Region) (step size : ℕ) (xs ys free : List ℕ) (x : ℕ)
    → Layout m step size (xs ++ (x ∷ ys)) free
    → Layout
        (free_element (relink m (m x).prev (m x).next) (2 * step) x)
        step
        size
        (xs ++ ys)
        (x ∷ free)
Layout-free m step size xs ys free x l =
    let n = relink m (m x).prev (m x).next in
    let w = free_element n (2 * step) x in
    let in_order = λ (a : ℕ). occurs-append a xs (x ∷ ys) in
    let in_rest = λ (a : ℕ). occurs-append a xs ys in
    let in_rest' = λ (a : ℕ). occurs-append a (xs ++ ys) (step ∷ []) in
    let apart : 2 * step ≢ x = ground (arith, l.unique x, in_order x) in
    let next = λ (a : ℕ). free_element-next n (2 * step) x a apart in
    let prev = free_element-prev n (2 * step) x in
    record {
      linked =
          Linked-frame n w 0 (xs ++ ys) step (unlink m step size xs ys free x l)
            (λ a h. ground (arith, next a, l.unique a, in_order a, in_rest a))
            (λ a h. ground (arith, prev a, l.unique a, in_order a, in_rest a, in_rest' a));
      freed = (
        ground (arith, next (2 * step)),
        ground (arith, prev x),
        Free-move n w (2 * step) x free (unlink_Free m step size xs ys free x l)
            (ground (arith, next x)) (λ a h. ground (arith, next a, l.unique a, in_order a))
            (λ a h. ground (arith, prev a, l.unique a, in_order a)),
      );
      unique = λ a. omega (arith, l.unique a, in_order a, in_rest a);
      fits = λ a h. l.fits a (omega (arith, in_order a, in_rest a));
    }
