-- ===== src/ControlWords/Visits.antt =====
-- The states of one bucket of c_experiments/src/node_shm_HH.h that readers and swappy operations lead to, which enter
-- and leave one call after the other in any order, and what the word of taken spots says of them.
use Prim.{Unit}
use shm_lru_aging_and_quotas.Base.Lists.{length, occurs}
use shm_lru_aging_and_quotas.Base.Mem.{update}
use shm_lru_aging_and_quotas.Base.Tests.{
  ℕ, suc, ◌+◌, ◌≤◌, ◌*◌, ◌%◌, ◌^◌, ◌<◌, ◌≡◌, ◌≢◌, ◌⊎◌, inl, inr, refl, ◌==◌, List, [], ◌∷◌, ◌++◌,
  Option, none, some, Bool-cases,
}
use shm_lru_aging_and_quotas.ControlWords.Stash.{
  TbitStashEl, TakenSpots, tbits_add_reader, tbits_remove_reader, tbits_add_swappy_op,
  tbits_remove_swappy_op,
}

-- The states that calls from `s` lead to, with the elements of the stash that those inside hold: each call that enters
-- is given one, and each that leaves gives back one of them, whichever it is.
pub data Visited (f : ℕ) (s : TakenSpots) : List ℕ → TakenSpots → Type 0 where
  nobody : Visited f s [] s
  reader_enters :
      (held : List ℕ) (t : TakenSpots)
      → Visited f s held t
      → (r : ℕ × TakenSpots) → tbits_add_reader f t ≡ some r
      → Visited f s (r.0 ∷ held) r.1
  swappy_enters :
      (held : List ℕ) (t : TakenSpots)
      → Visited f s held t
      → (r : ℕ × TakenSpots) → tbits_add_swappy_op f t ≡ some r
      → Visited f s (r.0 ∷ held) r.1
  reader_leaves :
      (held : List ℕ) (t : TakenSpots)
      → Visited f s held t
      → (xs ys : List ℕ) (i : ℕ) → held ≡ xs ++ i ∷ ys
      → Visited f s (xs ++ ys) (tbits_remove_reader t i)
  swappy_leaves :
      (held : List ℕ) (t : TakenSpots)
      → Visited f s held t
      → (xs ys : List ℕ) (i : ℕ) → held ≡ xs ++ i ∷ ys
      → Visited f s (xs ++ ys) (tbits_remove_swappy_op t i)

abbrev pub emptied : List ℕ → ℕ → ℕ
emptied [] entered = 0
emptied (x ∷ xs) entered = entered

module _ (f : ℕ) (s : TakenSpots) where
  -- how many have entered since nobody was inside
  unfoldable pub since : (held : List ℕ) (t : TakenSpots) → Visited f s held t → ℕ
  since held t nobody = 0
  since held t (reader_enters before u v r e) = suc (since before u v)
  since held t (swappy_enters before u v r e) = suc (since before u v)
  since held t (reader_leaves before u v xs ys i split) = emptied (xs ++ ys) (since before u v)
  since held t (swappy_leaves before u v xs ys i split) = emptied (xs ++ ys) (since before u v)

  -- at no time have more than 255 entered since nobody was inside
  unfoldable pub IsCalm : (held : List ℕ) (t : TakenSpots) → Visited f s held t → Type 0
  IsCalm held t nobody = Unit
  IsCalm held t (reader_enters before u v r e) = IsCalm before u v × (since before u v < 255)
  IsCalm held t (swappy_enters before u v r e) = IsCalm before u v × (since before u v < 255)
  IsCalm held t (reader_leaves before u v xs ys i split) = IsCalm before u v
  IsCalm held t (swappy_leaves before u v xs ys i split) = IsCalm before u v

-- no change of the taken spots waits in the stash
pub record Fresh (s : TakenSpots) : Type 0 where
  pub no_change : (j : ℕ) → ((s.stash j).add_update ≡ 0) × ((s.stash j).remove_update ≡ 0)

-- somebody is inside: all hold one element, which has the taken spots and counts them, and the word names it
pub record Busy (w : ℕ) (held : List ℕ) (s : TakenSpots) : Type 0 where
  pub index : ℕ
  pub index_lt : index < 2 ^ 8
  pub together : occurs index held ≡ length held
  pub some_inside : 0 < length held
  pub counted : (s.stash index).updating ≡ length held
  pub kept : (s.stash index).real_bits ≡ w
  pub named : s.taken % 2 ^ 16 ≡ index * 2
  pub fresh : Fresh s

pub data Registered (w : ℕ) (held : List ℕ) (s : TakenSpots) : Type 0 where
  idle : held ≡ [] → s.taken ≡ w → Fresh s → Registered w held s
  busy : s.taken ≢ 0 → Busy w held s → Registered w held s

-- the word and the number of those inside, when `entered` have entered since nobody was
pub record Bounded (entered : ℕ) (held : List ℕ) (s : TakenSpots) : Type 0 where
  pub low : 0 < length held → 2 ^ 16 ≤ s.taken
  pub high : 0 < length held → s.taken < 2 ^ 16 + entered * 2 ^ 24
  pub few : length held ≤ entered

pub List-cases : (xs : List ℕ) → (xs ≡ []) ⊎ ((x : ℕ) × (rest : List ℕ) × (xs ≡ x ∷ rest))
List-cases [] = inl refl
List-cases (x ∷ rest) = inr (x, rest, refl)

pub Option-cases :
    (o : Option (ℕ × TakenSpots)) → (o ≡ none) ⊎ ((r : ℕ × TakenSpots) × (o ≡ some r))
Option-cases none = inl refl
Option-cases (some r) = inr (r, refl)

-- What a change of one element keeps of `Fresh`.
pub updated-Fresh :
    (s : TakenSpots) (i : ℕ) (e : TbitStashEl) (free : List ℕ) (taken : ℕ)
    → Fresh s
    → (e.add_update ≡ 0) × (e.remove_update ≡ 0)
    → Fresh (record { taken = taken; stash = update s.stash i e; free = free })
updated-Fresh s i e free taken k un = record {
  no_change =
      λ j. elim (Bool-cases (j == i)) [ inl at ↦ rw at un | inr off ↦ rw off (k.no_change j) ];
}
