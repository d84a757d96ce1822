-- ===== src/Lru/Setup.antt =====
-- `setup_region_free_list` of src/node_shm_LRU.h: an initial region has an empty list of use, and every
-- other place of the region on the free list.
use native.Mathlib.Nat.{add-mod_left, mul-mod_left}
use shm_lru_aging_and_quotas.Base.Lists.{occurs, length}
use shm_lru_aging_and_quotas.Base.Mem.{update}
use shm_lru_aging_and_quotas.Base.Tests.{
  ℕ, zero, suc, ◌+◌, ◌*◌, ◌%◌, ◌^◌, ◌≤◌, ◌<◌, ◌≡◌, refl, ap, ◌∙◌, true, false, List, [], ◌∷◌, arith,
  ltb, leb, if◌then◌else◌, Bool-cases, inl, inr,
}
use shm_lru_aging_and_quotas.Base.Words.{u32_max, u64_max}
use shm_lru_aging_and_quotas.Lru.{Region, Element}
use shm_lru_aging_and_quotas.Lru.Chain.{Free}
use shm_lru_aging_and_quotas.Lru.Layout.{Layout, Layout-frame}

-- the writes to one element; its bytes stay
abbrev pub write_header : Region → (offset prev next hash : ℕ) → Region
write_header m offset prev next hash =
    update m offset (record (m offset) { prev = prev; next = next % 2 ^ 32; hash = hash; when = 0 })

-- a round of the loop, at the place `curr`
abbrev pub write_free : Region → (step region_size curr : ℕ) → Region
write_free m step region_size curr =
    write_header m curr u32_max (if leb region_size (curr + step) then u32_max else curr + step)
      u64_max

-- the loop, with the number of elements that it has counted so far
unfoldable pub free_loop : ℕ → Region → (step region_size curr free_count : ℕ) → ℕ × Region
free_loop zero m step region_size curr free_count = (free_count, m)
free_loop (suc n) m step region_size curr free_count =
    if ltb curr region_size
    then free_loop n (write_free m step region_size curr) step region_size (curr + step)
        ((free_count + 1) % 2 ^ 16)
    else (free_count, m)

-- the writes before the loop
abbrev pub three_ends : Region → ℕ → Region
three_ends m step =
    let hdr = write_header m 0 u32_max step 0 in
    let tail = write_header hdr step 0 u32_max 0 in
    write_header tail (2 * step) u32_max (3 * step) 0

-- `ctrl_free->_hash = free_count`
abbrev pub note_count : ℕ → ℕ × Region → ℕ × Region
note_count ctrl_free (free_count, w) =
    (free_count, update w ctrl_free (record (w ctrl_free) { hash = free_count }))

-- `setup_region_free_list`: the count, and the region. The loop has a round for each element, of which a
-- region has no more than bytes.
unfoldable pub setup_region_free_list : Region → (step region_size : ℕ) → ℕ × Region
setup_region_free_list m step region_size =
    note_count (2 * step) (free_loop region_size (three_ends m step) step region_size (3 * step) 0)

-- the places from `curr` on
abbrev pub places : ℕ → (step region_size curr : ℕ) → List ℕ
places zero step region_size curr = []
places (suc n) step region_size curr =
    if ltb curr region_size then curr ∷ places n step region_size (curr + step) else []

module _ (step size : ℕ) (pos : 0 < step) (small : size ≤ u32_max) where
  loop_below :
      (n : ℕ) (m : Region) (curr k a : ℕ) → a < curr → ((free_loop n m step size curr k).1 a) ≡ m a
  unfolding free_loop
  loop_below zero m curr k a lt = refl
  loop_below (suc n) m curr k a lt = elim (Bool-cases (ltb curr size)) [
    | inl e ↦ rw e (
        loop_below n (write_free m step size curr) (curr + step) ((k + 1) % 2 ^ 16) a (omega arith)
        ∙ ground arith)
    | inr e ↦ rw e refl
  ]

  loop_go :
      (n : ℕ) (m : Region) (curr k : ℕ)
      → curr < size
      → free_loop (suc n) m step size curr k
        ≡ free_loop n (write_free m step size curr) step size (curr + step) ((k + 1) % 2 ^ 16)
  unfolding free_loop
  loop_go n m curr k lt = let e : ltb curr size ≡ true = ground arith in rw e refl

  loop_stop :
      (n : ℕ) (m : Region) (curr k : ℕ) → size ≤ curr → free_loop n m step size curr k ≡ (k, m)
  unfolding free_loop
  loop_stop zero m curr k le = refl
  loop_stop (suc n) m curr k le = let e : ltb curr size ≡ false = ground arith in rw e refl

  places_go :
      (n curr : ℕ)
      → curr < size
      → places (suc n) step size curr ≡ curr ∷ places n step size (curr + step)
  places_go n curr lt = let e : ltb curr size ≡ true = ground arith in rw e refl

  places_stop : (n curr : ℕ) → size ≤ curr → places n step size curr ≡ []
  places_stop zero curr le = refl
  places_stop (suc n) curr le = let e : ltb curr size ≡ false = ground arith in rw e refl

  Chained : Region → (n curr : ℕ) → Type 0
  Chained m n curr = Free m curr (places n step size (curr + step)) × ((m curr).prev ≡ u32_max)

  chain_end :
      (n : ℕ) (m : Region) (curr k : ℕ)
      → curr < size
      → size ≤ curr + step
      → Chained (free_loop (suc n) m step size curr k).1 n curr
  unfolding Chained
  chain_end n m curr k lt le =
      rw
        (
          loop_go n m curr k lt,
          loop_stop n (write_free m step size curr) (curr + step) ((k + 1) % 2 ^ 16) le,
          places_stop n (curr + step) le,
        )
        (ground arith, ground arith)

  -- from a place of the region, the loop links the places after it
  loop_chain :
      (n : ℕ) (m : Region) (curr k : ℕ)
      → curr < size
      → size ≤ curr + suc n
      → Chained (free_loop (suc n) m step size curr k).1 n curr
  unfolding Chained
  loop_chain zero m curr k lt fuel = chain_end zero m curr k lt (omega arith)
  loop_chain (suc n) m curr k lt fuel = elim (Bool-cases (ltb (curr + step) size)) [
    | inl more ↦
        let m' = write_free m step size curr in
        let k' = (k + 1) % 2 ^ 16 in
        let rest = loop_chain n m' (curr + step) k' (ground arith) (omega arith) in
        let here = loop_below (suc n) m' (curr + step) k' curr (omega arith) in
        rw (loop_go (suc n) m curr k lt, places_go n (curr + step) (ground arith), here)
          ((ground arith, rest.1, rest.0), ground arith)
    | inr none_more ↦ chain_end (suc n) m curr k lt (ground arith)
  ]

  loop_count :
      (n : ℕ) (m : Region) (curr k : ℕ)
      → (free_loop n m step size curr (k % 2 ^ 16)).0
        ≡ (k + length (places n step size curr)) % 2 ^ 16
  unfolding free_loop
  loop_count zero m curr k = omega arith
  loop_count (suc n) m curr k = elim (Bool-cases (ltb curr size)) [
    | inl e ↦ rw e (
        ap (λ c. (free_loop n (write_free m step size curr) step size (curr + step) c).0)
          (omega arith)
        ∙ loop_count n (write_free m step size curr) (curr + step) (k + 1)
        ∙ omega arith)
    | inr e ↦ rw e (omega arith)
  ]

  -- what stands among the places
  places_once :
      (n curr a : ℕ)
      → (occurs a (places n step size curr) ≤ 1)
        × (0 < occurs a (places n step size curr) → (curr ≤ a) × (a < size))
  places_once zero curr a = (omega arith, λ h. absurd (omega arith))
  places_once (suc n) curr a = elim (Bool-cases (ltb curr size)) [
    | inl e ↦ rw e (
      ground (arith, places_once n (curr + step) a),
      ground (arith, places_once n (curr + step) a),
    )
    | inr e ↦ rw e (omega arith, λ h. absurd (omega arith))
  ]

  places_aligned :
      (n curr a : ℕ) → curr % step ≡ 0 → 0 < occurs a (places n step size curr) → a % step ≡ 0
  places_aligned zero curr a e = λ h. absurd (omega arith)
  places_aligned (suc n) curr a e = elim (Bool-cases (ltb curr size)) [
    | inl t ↦ rw t (λ h. ground (arith, places_aligned n (curr + step) a (add_right curr ∙ e)))
    | inr t ↦ rw t (λ h. absurd (omega arith))
  ]
    where
      add_right : (x : ℕ) → (x + step) % step ≡ x % step
      add_right x = ap (λ z. z % step) (omega arith) ∙ add-mod_left step x

  module _ (m : Region) (n : ℕ) (room : 3 * step < size) (fuel : size ≤ suc n) where
    abbrev looped : Region
    looped = (free_loop (suc n) (three_ends m step) step size (3 * step) 0).1

    abbrev found : List ℕ
    found = places (suc n) step size (3 * step)

    below : (a : ℕ) → a < 3 * step → looped a ≡ three_ends m step a
    below a lt = loop_below (suc n) (three_ends m step) (3 * step) 0 a lt

    looped-Free : Free looped (2 * step) found
    unfolding Chained
    looped-Free =
        let at : looped (2 * step) ≡ three_ends m step (2 * step) =
          below (2 * step) (omega arith) in
        let rest = loop_chain n (three_ends m step) (3 * step) 0 room (omega arith) in
        rw (places_go n (3 * step) room) (ap (λ e. e.next) at ∙ ground arith, rest.1, rest.0)

    looped-Layout : Layout looped step size [] found
    looped-Layout =
        let first : looped 0 ≡ three_ends m step 0 = below 0 (omega arith) in
        let last : looped step ≡ three_ends m step step = below step (omega arith) in
        record {
          linked = (ap (λ e. e.next) first ∙ ground arith, ap (λ e. e.prev) last ∙ ground arith);
          freed = looped-Free;
          unique = λ a. ground (arith, places_once (suc n) (3 * step) a);
          fits = λ a h.
              let at = (places_once (suc n) (3 * step) a).1 (omega arith) in
              (
                omega arith,
                omega arith,
                places_aligned (suc n) (3 * step) a (mul-mod_left 3 step) (omega arith),
              );
        }

-- The set-up of a region with room for an element, that 32 bit offsets can address: the list of use is
-- empty, the free list has every place of the region from the fourth on, and the result is their number
-- modulo 2 ^ 16, which also stands in the hash field of the head of the free list.
pub setup_region_free_list-Layout :
    (m : Region) (step size : ℕ)
    → 0 < step
    → 3 * step < size
    → size ≤ u32_max
    → Layout (setup_region_free_list m step size).1 step size [] (places size step size (3 * step))
      × ((setup_region_free_list m step size).0
          ≡ length (places size step size (3 * step)) % 2 ^ 16)
      × (((setup_region_free_list m step size).1 (2 * step)).hash
          ≡ (setup_region_free_list m step size).0)
unfolding setup_region_free_list
setup_region_free_list-Layout m step zero pos room small = absurd (omega arith)
setup_region_free_list-Layout m step (suc n) pos room small = (
  Layout-frame (looped-Layout step (suc n) pos small m n room (omega arith)) (λ a. ground arith)
      (λ a. ground arith),
  loop_count step (suc n) pos small (suc n) (three_ends m step) (3 * step) 0
      ∙ ap (λ z. z % 2 ^ 16) (omega arith),
  ground arith,
)

-- the fields at the three ends that no operation on the lists writes
pub setup_region_free_list-ends :
    (m : Region) (step size : ℕ)
    → 0 < step
    → 3 * step < size
    → size ≤ u32_max
    → (((setup_region_free_list m step size).1 0).prev ≡ u32_max)
      × (((setup_region_free_list m step size).1 step).next ≡ u32_max)
      × (((setup_region_free_list m step size).1 (2 * step)).prev ≡ u32_max)
unfolding setup_region_free_list
setup_region_free_list-ends m step zero pos room small = absurd (omega arith)
setup_region_free_list-ends m step (suc n) pos room small =
    let at = below step (suc n) pos small m n room (omega arith) in
    let header = ap (λ (e : Element). e.prev) (at 0 (omega arith)) in
    let tail = ap (λ (e : Element). e.next) (at step (omega arith)) in
    let free = ap (λ (e : Element). e.prev) (at (2 * step) (omega arith)) in
    (ground (arith, header), ground (arith, tail), ground (arith, free))
