-- ===== src/Holey/Blackouts.antt =====
-- What the search of src/holey_buffer.h through a buffer with holes finds.
use shm_lru_aging_and_quotas.Base.Tests.{ℕ, ◌+◌, ◌≤◌, ◌<◌, ◌≡◌, ◌≢◌, Option, none, some}
use shm_lru_aging_and_quotas.Base.Words.{u32_max}
use shm_lru_aging_and_quotas.Holey.{Buffer, Round, found, narrow}

-- What the search gives for a key, in the pairs from `lo` to `hi`: a pair with the key; or, where no pair
-- has the key, nothing, a hole, or a pair with a smaller key that stands before a hole.
pub data Answered (m : Buffer) (key lo hi : ℕ) (r : Option (Option ℕ)) : Type 0 where
  exact : (p : ℕ) → (m p).first ≡ key → r ≡ some (some p) → Answered m key lo hi r
  nothing : ((p : ℕ) → lo ≤ p → p < hi → (m p).first ≢ key) → r ≡ some none → Answered m key lo hi r
  hole :
      (p : ℕ)
      → ((i : ℕ) → lo ≤ i → i < hi → (m i).first ≢ key)
      → (m p).first ≡ u32_max
      → r ≡ some (some p)
      → Answered m key lo hi r
  beside :
      (p : ℕ)
      → ((i : ℕ) → lo ≤ i → i < hi → (m i).first ≢ key)
      → (m p).first < key
      → (m (p + 1)).first ≡ u32_max
      → r ≡ some (some p)
      → Answered m key lo hi r

-- the keys of the pairs from `lo` to `hi` that are no holes increase, up to the keys of the pairs behind
-- them, which stand below `top`
abbrev pub IsIncreasingWithHoles : Buffer → (lo hi top : ℕ) → Type 0
IsIncreasingWithHoles m lo hi top =
    (p q : ℕ)
    → lo ≤ p
    → p < hi
    → p ≤ q
    → q < top
    → (m p).first ≢ u32_max
    → (m q).first ≢ u32_max
    → (m p).first ≤ (m q).first

module _ (m : Buffer) (key lo hi top : ℕ) (real : key < u32_max)
    (sorted : IsIncreasingWithHoles m lo hi top) where
  -- every pair with the key stands from `beg` to `end`
  abbrev Inside : (beg end : ℕ) → Type 0
  Inside beg end = (p : ℕ) → lo ≤ p → p < hi → (m p).first ≡ key → (beg ≤ p) × (p < end)

  data Rounded (beg half : ℕ) (r : Round) : Type 0 where
    done : (o : Option ℕ) → Answered m key lo hi (some o) → r ≡ found o → Rounded beg half r
    goes_on :
        (b e : ℕ)
        → beg ≤ b
        → e ≤ b + half
        → b + half + half ≤ top
        → Inside b e
        → r ≡ narrow b e
        → Rounded beg half r
