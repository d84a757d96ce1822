-- ===== src/Lru/Evict.antt =====
-- Which elements `evict_least_used` of src/node_shm_LRU.h takes out.
use mathlib.Core.List.{append_assoc}
use shm_lru_aging_and_quotas.Base.Lists.{occurs, occurs-append}
use shm_lru_aging_and_quotas.Base.Tests.{
  ℕ, zero, suc, ◌-◌, ◌*◌, ◌<◌, ◌≡◌, ◌≢◌, refl, sym, ap, ◌∙◌, Bool, true, false, Option, some, List,
  [], ◌∷◌, ◌++◌, arith, ltb, if◌then◌else◌, ==_of_ne, Bool-cases, inl, inr,
}
use shm_lru_aging_and_quotas.Lru.{Region, Cache, Hashes, relink, free_element}
use shm_lru_aging_and_quotas.Lru.Chain.{Linked}
use shm_lru_aging_and_quotas.Lru.Elements.{
  listed, evict_at, delete_region, evict_from, evict_least_used,
}
use shm_lru_aging_and_quotas.Lru.Hash.{HmapInterface, remove_key}
use shm_lru_aging_and_quotas.Lru.Turnover.{without, without-IsCache, del_el-without}
use shm_lru_aging_and_quotas.Lru.Use.{IsCache}

-- A list from its back.
abbrev pub rev : List ℕ → List ℕ
rev [] = []
rev (x ∷ xs) = rev xs ++ (x ∷ [])

-- The elements to go, of a list of use read from its back: the first one goes, and the next one after an
-- element older than `cutoff`, while there are rounds left.
abbrev pub victims : ℕ → Region → (cutoff : ℕ) → List ℕ → List ℕ
victims n m cutoff [] = []
victims zero m cutoff (x ∷ xs) = x ∷ []
victims (suc n) m cutoff (x ∷ xs) =
    x ∷ (if ltb (m x).when cutoff then victims n m cutoff xs else [])

-- the rest
abbrev pub survivors : ℕ → Region → (cutoff : ℕ) → List ℕ → List ℕ
survivors n m cutoff [] = []
survivors zero m cutoff (x ∷ xs) = xs
survivors (suc n) m cutoff (x ∷ xs) = if ltb (m x).when cutoff then survivors n m cutoff xs else xs

abbrev pub hashes_of : Region → List ℕ → List ℕ
hashes_of m [] = []
hashes_of m (x ∷ xs) = (m x).hash ∷ hashes_of m xs

last_prev :
    (m : Region) (p : ℕ) (xs : List ℕ) (x q : ℕ) → Linked m p (xs ++ (x ∷ [])) q → (m q).prev ≡ x
last_prev m p [] x q l = l.2.1
last_prev m p (y ∷ ys) x q l = last_prev m y ys x q l.2

-- A deletion leaves the hashes and the times of the other elements.
module _ (m n : Region) (x : ℕ)
    (same : (a : ℕ) → a ≢ x → ((n a).hash ≡ (m a).hash) × ((n a).when ≡ (m a).when)) where
  same_victims :
      (k cutoff : ℕ) (xs : List ℕ)
      → ((a : ℕ) → 0 < occurs a xs → a ≢ x)
      → (victims k n cutoff xs ≡ victims k m cutoff xs)
        × (survivors k n cutoff xs ≡ survivors k m cutoff xs)
        × (hashes_of n (victims k n cutoff xs) ≡ hashes_of m (victims k m cutoff xs))
  same_victims k cutoff [] apart = (refl, refl, refl)
  same_victims zero cutoff (y ∷ ys) apart =
      (refl, refl, ap (λ h. h ∷ []) (same y (apart y (ground arith))).0)
  same_victims (suc k) cutoff (y ∷ ys) apart =
      let at = same y (apart y (ground arith)) in
      let rest = same_victims k cutoff ys (λ a h. apart a (omega arith)) in
      elim (Bool-cases (ltb (m y).when cutoff)) [
        | inl e ↦
            rw (at.1, e, at.0) (ap (λ zs. y ∷ zs) rest.0, rest.1, ap (λ zs. (m y).hash ∷ zs) rest.2)
        | inr e ↦ rw (at.1, e, at.0) (refl, refl, refl)
      ]

append_nil : (xs : List ℕ) → xs ++ [] ≡ xs
append_nil [] = refl
append_nil (x ∷ xs) = ap (λ zs. x ∷ zs) (append_nil xs)

IsCache-cast :
    {T : Type 0} (c : Cache T) (o o' f f' : List ℕ)
    → o ≡ o'
    → f ≡ f'
    → IsCache c o f
    → IsCache c o' f'
IsCache-cast c o o' f f' e g v = rw (sym e, sym g) v

delete_region-same :
    (m : Region) (f x a : ℕ)
    → a ≢ x
    → ((delete_region m f x a).hash ≡ (m a).hash) × ((delete_region m f x a).when ≡ (m a).when)
unfolding relink free_element
delete_region-same m f x a ne = (ground arith, ground arith)

pub occurs-rev : (a : ℕ) (xs : List ℕ) → occurs a (rev xs) ≡ occurs a xs
occurs-rev a [] = refl
occurs-rev a (x ∷ xs) = omega (arith, occurs-append a (rev xs) (x ∷ []), occurs-rev a xs)

module _ {T : Type 0} (i : HmapInterface T)
    (removes : (h : Hashes T) (k : ℕ)
      → (r : ℕ) × (u : Hashes T) × (remove_key i h k ≡ some (r, u))) where
  module _ (c : Cache T) (x : ℕ) (xs free : List ℕ) (valid : IsCache c (rev (x ∷ xs)) free) where
    pub tail_prev : (c.region c.step).prev ≡ x
    tail_prev = last_prev c.region 0 (rev xs) x c.step valid.layout.linked

    pub not_header : x ≢ 0
    not_header = ground (arith, valid.layout.unique x, occurs-append x (rev xs) (x ∷ []))

    abbrev pub evicted : Cache T
    evicted = without i c (rev xs) [] free x valid (removes c.hashes (c.region x).hash).1

    pub evicted-IsCache : IsCache evicted (rev xs) (x ∷ free)
    evicted-IsCache =
        IsCache-cast evicted (rev xs ++ []) (rev xs) (x ∷ free) (x ∷ free) (append_nil (rev xs))
          refl (without-IsCache i c (rev xs) [] free x valid (removes c.hashes (c.region x).hash).1)

    pub evict_at-tail :
        (cutoff : ℕ) (again : Cache T → Option (List ℕ × Cache T))
        → evict_at i c cutoff again (c.region c.step).prev ≡ (
            if ltb (c.region x).when cutoff
            then listed (c.region x).hash (again evicted)
            else some ((c.region x).hash ∷ [], evicted))
    evict_at-tail cutoff again =
        let (r, h, e) = removes c.hashes (c.region x).hash in
        ap (evict_at i c cutoff again) tail_prev
        ∙ rw (==_of_ne x 0 not_header, del_el-without i c (rev xs) [] free x valid r h e) refl

    pub survives :
        (n cutoff : ℕ)
        → (victims n evicted.region cutoff xs ≡ victims n c.region cutoff xs)
          × (survivors n evicted.region cutoff xs ≡ survivors n c.region cutoff xs)
          × (hashes_of evicted.region (victims n evicted.region cutoff xs)
              ≡ hashes_of c.region (victims n c.region cutoff xs))
    survives n cutoff =
        same_victims c.region evicted.region x (delete_region-same c.region (2 * c.step) x) n cutoff
          xs
          (λ a h.
            ground
              (arith, valid.layout.unique x, occurs-append x (rev xs) (x ∷ []), occurs-rev x xs))

  -- the loop, with `n` rounds after the first
  evict_from-victims :
      (n cutoff : ℕ) (c : Cache T) (xs free : List ℕ)
      → IsCache c (rev xs) free
      → (w : Cache T) × (evict_from n i c cutoff
          ≡ some (hashes_of c.region (victims n c.region cutoff xs), w))
        × IsCache w
            (rev (survivors n c.region cutoff xs))
            (rev (victims n c.region cutoff xs) ++ free)
  unfolding evict_from
  evict_from-victims zero cutoff c [] free valid = (c, rw valid.layout.linked.1 refl, valid)
  evict_from-victims (suc n) cutoff c [] free valid = (c, rw valid.layout.linked.1 refl, valid)
  evict_from-victims zero cutoff c (x ∷ xs) free valid = (
    evicted c x xs free valid,
    evict_at-tail c x xs free valid cutoff (λ w. some ([], w))
        ∙ either (ltb (c.region x).when cutoff),
    evicted-IsCache c x xs free valid,
  )
    where
      either :
          (b : Bool)
          → (if b
              then listed (c.region x).hash (some ([], evicted c x xs free valid))
              else some ((c.region x).hash ∷ [], evicted c x xs free valid))
            ≡ some ((c.region x).hash ∷ [], evicted c x xs free valid)
      either true = refl
      either false = refl
  evict_from-victims (suc n) cutoff c (x ∷ xs) free valid =
      let u = evicted c x xs free valid in
      let done = evict_at-tail c x xs free valid cutoff (λ w. evict_from n i w cutoff) in
      let (w, e, after) =
        evict_from-victims n cutoff u xs (x ∷ free) (evicted-IsCache c x xs free valid) in
      let same = survives c x xs free valid n cutoff in
      elim (Bool-cases (ltb (c.region x).when cutoff)) [
        | inl old ↦ rw old (
          w,
          done ∙ rw (old, e, same.2) refl,
          IsCache-cast w (rev (survivors n u.region cutoff xs))
              (rev (survivors n c.region cutoff xs))
              (rev (victims n u.region cutoff xs) ++ (x ∷ free))
              ((rev (victims n c.region cutoff xs) ++ (x ∷ [])) ++ free) (ap rev same.1)
              (ap (λ l. rev l ++ (x ∷ free)) same.0
                ∙ sym (append_assoc (rev (victims n c.region cutoff xs)) (x ∷ []) free))
              after,
        )
        | inr young ↦ rw young (u, done ∙ rw young refl, evicted-IsCache c x xs free valid)
      ]

  -- `evict_least_used` ends and takes out, from the back of the list of use, one element and, as long as
  -- the last one taken is older than the cutoff and fewer than `max_evict` are taken, one more; it returns
  -- their hashes in this order, the others stay in their order, and those taken out are the head of the
  -- free list. The list of use is written from its back, and the hash table answers every removal.
  pub evict_least_used-victims :
      (max_evict cutoff : ℕ) (c : Cache T) (xs free : List ℕ)
      → IsCache c (rev xs) free
      → (w : Cache T) × (evict_least_used i c cutoff max_evict
          ≡ some (hashes_of c.region (victims (max_evict - 1) c.region cutoff xs), w))
        × IsCache w
            (rev (survivors (max_evict - 1) c.region cutoff xs))
            (rev (victims (max_evict - 1) c.region cutoff xs) ++ free)
  unfolding evict_least_used
  evict_least_used-victims max_evict cutoff c xs free valid =
      evict_from-victims (max_evict - 1) cutoff c xs free valid
