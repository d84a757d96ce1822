-- ===== src/Base/Lists.antt =====
-- Lists of positions: how often a position stands in one.
use shm_lru_aging_and_quotas.Base.Tests.{
  ℕ, zero, suc, ◌+◌, ◌-◌, ◌≤◌, refl, ap, ◌≡◌, List, [], ◌∷◌, ◌++◌, arith, ◌==◌, if◌then◌else◌,
}

module _ {ℓ} {A : Type ℓ} where
  abbrev pub length : List A → ℕ
  length [] = 0
  length (x ∷ xs) = suc (length xs)

  pub length-append : (xs ys : List A) → length (xs ++ ys) ≡ length xs + length ys
  length-append [] ys = omega arith
  length-append (x ∷ xs) ys = omega (arith, length-append xs ys)

  abbrev pub take : ℕ → List A → List A
  take zero xs = []
  take (suc n) [] = []
  take (suc n) (x ∷ xs) = x ∷ take n xs

  abbrev pub drop : ℕ → List A → List A
  drop zero xs = xs
  drop (suc n) [] = []
  drop (suc n) (x ∷ xs) = drop n xs

  pub take-all : (n : ℕ) (xs : List A) → length xs ≤ n → take n xs ≡ xs
  take-all zero [] le = refl
  take-all zero (x ∷ xs) le = absurd (omega arith)
  take-all (suc n) [] le = refl
  take-all (suc n) (x ∷ xs) le = ap (λ (ys : List A). x ∷ ys) (take-all n xs (omega arith))

  pub drop-all : (n : ℕ) (xs : List A) → length xs ≤ n → drop n xs ≡ []
  drop-all zero [] le = refl
  drop-all zero (x ∷ xs) le = absurd (omega arith)
  drop-all (suc n) [] le = refl
  drop-all (suc n) (x ∷ xs) le = drop-all n xs (omega arith)

  pub length-drop : (n : ℕ) (xs : List A) → length (drop n xs) ≡ length xs - n
  length-drop zero xs = omega arith
  length-drop (suc n) [] = omega arith
  length-drop (suc n) (x ∷ xs) = omega (arith, length-drop n xs)

abbrev pub occurs : ℕ → List ℕ → ℕ
occurs a [] = 0
occurs a (x ∷ xs) = (if a == x then 1 else 0) + occurs a xs

pub occurs-le : (a : ℕ) (xs : List ℕ) → occurs a xs ≤ length xs
occurs-le a [] = omega arith
occurs-le a (x ∷ xs) = ground (arith, occurs-le a xs)

pub occurs-append :
    (p : ℕ) (front back : List ℕ) → occurs p (front ++ back) ≡ occurs p front + occurs p back
occurs-append p [] back = omega arith
occurs-append p (q ∷ front) back = omega (occurs-append p front back, arith)

-- no position stands twice in the list
abbrev pub Once : List ℕ → Type 0
Once xs = (a : ℕ) → occurs a xs ≤ 1
