-- ===== src/Lru/Chain.antt =====
-- Doubly linked segments of the region, and what the list writes of src/node_shm_LRU.h do to them.
use shm_lru_aging_and_quotas.Base.Lists.{occurs, occurs-append, Once}
use shm_lru_aging_and_quotas.Base.Tests.{
  ℕ, ◌<◌, ◌≡◌, List, [], ◌∷◌, ◌++◌, arith, ◌==◌, if◌then◌else◌,
}
use shm_lru_aging_and_quotas.Base.Words.{u32_max}
use shm_lru_aging_and_quotas.Lru.{Region, relink, push_front}

-- From `p` the `next` offsets lead through `xs` to `q`, and the `prev` offsets lead back.
abbrev pub Linked : Region → (p : ℕ) → List ℕ → (q : ℕ) → Type 0
Linked m p [] q = ((m p).next ≡ q) × ((m q).prev ≡ p)
Linked m p (x ∷ xs) q = ((m p).next ≡ x) × ((m x).prev ≡ p) × Linked m x xs q

-- From `p` the `next` offsets lead through `xs` to the end mark, and each of `xs` has no `prev`.
abbrev pub Free : Region → (p : ℕ) → List ℕ → Type 0
Free m p [] = (m p).next ≡ u32_max
Free m p (x ∷ xs) = ((m p).next ≡ x) × ((m x).prev ≡ u32_max) × Free m x xs

-- A segment stays where its `next` and `prev` fields stay.
pub Linked-frame :
    (m n : Region) (p : ℕ) (xs : List ℕ) (q : ℕ)
    → Linked m p xs q
    → ((a : ℕ) → 0 < occurs a (p ∷ xs) → (n a).next ≡ (m a).next)
    → ((a : ℕ) → 0 < occurs a (xs ++ (q ∷ [])) → (n a).prev ≡ (m a).prev)
    → Linked n p xs q
Linked-frame m n p [] q l f g = (ground (arith, f p), ground (arith, g q))
Linked-frame m n p (x ∷ xs) q l f g = (
  ground (arith, f p),
  ground (arith, g x),
  Linked-frame m n x xs q l.2 (λ a h. f a (omega arith)) (λ a h. g a (omega arith)),
)

pub Free-frame :
    (m n : Region) (p : ℕ) (xs : List ℕ)
    → Free m p xs
    → ((a : ℕ) → 0 < occurs a (p ∷ xs) → (n a).next ≡ (m a).next)
    → ((a : ℕ) → 0 < occurs a xs → (n a).prev ≡ (m a).prev)
    → Free n p xs
Free-frame m n p [] l f g = ground (arith, f p)
Free-frame m n p (x ∷ xs) l f g = (
  ground (arith, f p),
  ground (arith, g x),
  Free-frame m n x xs l.2 (λ a h. f a (omega arith)) (λ a h. g a (omega arith)),
)

-- The fields after the writes.
pub relink-next :
    (m : Region) (u v a : ℕ) → (relink m u v a).next ≡ (if a == u then v else (m a).next)
unfolding relink
relink-next m u v a = ground arith

pub relink-prev :
    (m : Region) (u v a : ℕ) → (relink m u v a).prev ≡ (if a == v then u else (m a).prev)
unfolding relink
relink-prev m u v a = ground arith

pub push_front-next :
    (m : Region) (o a : ℕ)
    → (push_front m o a).next ≡ (if a == 0 then o else if a == o then (m 0).next else (m a).next)
unfolding push_front
push_front-next m o a = ground arith

pub push_front-prev :
    (m : Region) (o a : ℕ)
    → (push_front m o a).prev ≡ (if a == o then 0 else if a == (m 0).next then o else (m a).prev)
unfolding push_front
push_front-prev m o a = ground arith

module _ (m : Region) (x : ℕ) (ys : List ℕ) (q : ℕ) where
  -- the neighbours of an element of a segment
  pub prev-has :
      (p : ℕ) (xs : List ℕ) → Linked m p (xs ++ (x ∷ ys)) q → 0 < occurs (m x).prev (p ∷ xs)
  prev-has p [] l = ground arith
  prev-has p (a ∷ xs) l = ground (arith, prev-has a xs l.2)

  pub next-has :
      (p : ℕ) (xs : List ℕ) → Linked m p (xs ++ (x ∷ ys)) q → 0 < occurs (m x).next (ys ++ (q ∷ []))
  next-has p [] l = head ys l.2
    where
      head : (zs : List ℕ) → Linked m x zs q → 0 < occurs (m x).next (zs ++ (q ∷ []))
      head [] k = ground arith
      head (z ∷ zs) k = ground arith
  next-has p (a ∷ xs) l = next-has a xs l.2

-- An element taken out of a segment.
pub Linked-relink :
    (m : Region) (p : ℕ) (xs : List ℕ) (x : ℕ) (ys : List ℕ) (q : ℕ)
    → Linked m p (xs ++ (x ∷ ys)) q
    → Once (p ∷ xs ++ (x ∷ (ys ++ (q ∷ []))))
    → Linked (relink m (m x).prev (m x).next) p (xs ++ ys) q
Linked-relink m p [] x [] q l once =
    let next = relink-next m (m x).prev (m x).next in
    let prev = relink-prev m (m x).prev (m x).next in
    (ground (arith, next p), ground (arith, prev q))
Linked-relink m p [] x (y ∷ ys) q l once =
    let next = relink-next m (m x).prev (m x).next in
    let prev = relink-prev m (m x).prev (m x).next in
    (
      ground (arith, next p),
      ground (arith, prev y),
      Linked-frame m (relink m (m x).prev (m x).next) y ys q l.2.2
          (λ a h.
            ground
              (arith, next a, once p, occurs-append p ys (q ∷ []), occurs-append a ys (q ∷ [])))
          (λ a h. ground (arith, prev a, once y)),
    )
Linked-relink m p (b ∷ xs) x ys q l once =
    let next = relink-next m (m x).prev (m x).next in
    let prev = relink-prev m (m x).prev (m x).next in
    let u_in = prev-has m x ys q b xs l.2 in
    let v_in = next-has m x ys q b xs l.2 in
    let both = λ (a : ℕ). occurs-append a xs (x ∷ (ys ++ (q ∷ []))) in
    (
      ground (arith, next p, both p, once p),
      ground (arith, prev b, both b, once b),
      Linked-relink m b xs x ys q l.2 (λ a. omega (arith, once a)),
    )

-- An element put in front of the list.
pub Linked-push_front :
    (m : Region) (o : ℕ) (xs : List ℕ) (q : ℕ)
    → Linked m 0 xs q
    → Once (o ∷ 0 ∷ xs ++ (q ∷ []))
    → Linked (push_front m o) 0 (o ∷ xs) q
Linked-push_front m o [] q l once =
    let next = push_front-next m o in
    let prev = push_front-prev m o in
    (
      ground (arith, next 0),
      ground (arith, prev o),
      (ground (arith, next o, once o), ground (arith, prev q, once q, once o)),
    )
Linked-push_front m o (x ∷ xs) q l once =
    let next = push_front-next m o in
    let prev = push_front-prev m o in
    let both = λ (a : ℕ). occurs-append a xs (q ∷ []) in
    (
      ground (arith, next 0),
      ground (arith, prev o),
      (
        ground (arith, next o, once o),
        ground (arith, prev x, once x, once o),
        Linked-frame m (push_front m o) x xs q l.2
            (λ a h. ground (arith, next a, once o, once 0, both o, both 0))
            (λ a h. ground (arith, prev a, once x, once o)),
      ),
    )
