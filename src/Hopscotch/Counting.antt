-- ===== src/Hopscotch/Counting.antt =====
-- What the counts of a bucket of src/node_shm_HH.h come to, when processes take hold of its word and count one after the
-- other, and when two of them do at the same time.
use Prim.Native.Nat.{bit_and, bit_or}
use shm_lru_aging_and_quotas.Base.Bits.Digits.{bit_or-pack}
use shm_lru_aging_and_quotas.Base.Bits.Masks.{bit_and-field, bit_and_comm, bit_or-low}
use shm_lru_aging_and_quotas.Base.Lists.{length, occurs, occurs-le}
use shm_lru_aging_and_quotas.Base.Tests.{
  ℕ, zero, suc, ◌+◌, ◌-◌, ◌*◌, ◌/◌, ◌%◌, ◌^◌, ◌<◌, ◌≡◌, refl, sym, ap, ap₂, ◌∙◌, true, false, ◌==◌,
  arith, Option, none, some, List, [], ◌∷◌, if◌then◌else◌, ==_refl,
}
use shm_lru_aging_and_quotas.Hopscotch.Counters.{
  take_hold, bucket_counts, bucket_count_incr, is_held, counts_of, count_mask, hi_count_mask,
  free_bit_mask, hold_lem, count_lem, held_lem, free_lem, low_rest, high_rest,
}

is_held-free : (w : ℕ) → w / 2 ^ 7 % 2 ≡ 0 → is_held w ≡ false
is_held-free w free = ground (arith, hold_lem w, free)

is_held-held : (w : ℕ) → w / 2 ^ 7 % 2 ≡ 1 → is_held w ≡ true
is_held-held w held = ground (arith, hold_lem w, held)

bucket_counts_free :
    (f w : ℕ) → w / 2 ^ 7 % 2 ≡ 0 → bucket_counts (suc f) w ≡ some (counts_of w, w + 2 ^ 7)
unfolding bucket_counts take_hold
bucket_counts_free f w free = rw (is_held-free w free, ==_refl w, held_lem w free) refl

incr_first :
    (w : ℕ)
    → w < 2 ^ 32
    → w / 2 ^ 7 % 2 ≡ 1
    → bucket_count_incr w 0 ≡ (true, w / 2 ^ 6 * 2 ^ 6 + (w % 2 ^ 6 + 1) % 2 ^ 6 - 2 ^ 7)
unfolding bucket_count_incr
incr_first w lt held =
    let c = (bit_and w count_mask + 1) % 2 ^ 16 in
    let low : bit_and count_mask c ≡ (w % 2 ^ 6 + 1) % 2 ^ 6 =
      bit_and_comm count_mask c ∙ count_lem c ∙ omega (arith, count_lem w) in
    let r = w / 2 ^ 6 * 2 ^ 6 + (w % 2 ^ 6 + 1) % 2 ^ 6 in
    let or : bit_or (w / 2 ^ 6 * 2 ^ 6) ((w % 2 ^ 6 + 1) % 2 ^ 6) ≡ r =
      bit_or-pack 6 (w / 2 ^ 6) ((w % 2 ^ 6 + 1) % 2 ^ 6) (omega arith) in
    let keep : bit_and r free_bit_mask ≡ r - 2 ^ 7 =
      free_lem r (omega arith) (omega (arith, held)) in
    rw (is_held-held w held) (
      ap (λ (x : ℕ). (true, bit_and x free_bit_mask)) (ap₂ bit_or (low_rest w lt) low ∙ or)
      ∙ ap (λ (x : ℕ). (true, x)) keep)

incr_second :
    (w t : ℕ)
    → w < 2 ^ 32
    → w / 2 ^ 7 % 2 ≡ 1
    → bucket_count_incr w (suc t)
      ≡ (true, w / 2 ^ 22 * 2 ^ 22 + (w / 2 ^ 16 % 2 ^ 6 + 1) % 2 ^ 6 * 2 ^ 16 + w % 2 ^ 16 - 2 ^ 7)
unfolding bucket_count_incr
incr_second w t lt held =
    let c = (bit_and (w / 2 ^ 16) count_mask + 1) % 2 ^ 16 in
    let d = (w / 2 ^ 16 % 2 ^ 6 + 1) % 2 ^ 6 in
    let high : bit_and (c * 2 ^ 16) hi_count_mask ≡ d * 2 ^ 16 =
      bit_and-field 16 6 (c * 2 ^ 16) ∙ omega (arith, count_lem (w / 2 ^ 16)) in
    let x = w / 2 ^ 22 * 2 ^ 22 + w % 2 ^ 16 in
    let top : x / 2 ^ 16 ≡ w / 2 ^ 22 * 2 ^ 6 = omega arith in
    let or : bit_or x (d * 2 ^ 16) ≡ w / 2 ^ 22 * 2 ^ 22 + d * 2 ^ 16 + w % 2 ^ 16 =
      bit_or-low 16 x d
      ∙ omega (arith, ap (λ a. bit_or a d) top, bit_or-pack 6 (w / 2 ^ 22) d (omega arith)) in
    let r = w / 2 ^ 22 * 2 ^ 22 + d * 2 ^ 16 + w % 2 ^ 16 in
    let keep : bit_and r free_bit_mask ≡ r - 2 ^ 7 =
      free_lem r (omega arith) (omega (arith, held)) in
    let other : (suc t == 0) ≡ false = ground arith in
    rw (is_held-held w held, other)
      (ap (λ (y : ℕ). (true, bit_and y free_bit_mask)) (ap₂ bit_or (high_rest w lt) high ∙ or)
        ∙ ap (λ (y : ℕ). (true, y)) keep)

-- calls of bucket_counts for one bucket, each followed by one of bucket_count_incr for the table that is given with it;
-- `none` if one waits without end or finds that it has no hold. add_key_value makes these two calls with a loop between
-- them, which waits for threads and is not part of this.
unfoldable pub count_all : (f : ℕ) → (tables : List ℕ) → (word : ℕ) → Option ℕ
count_all f [] word = some word
count_all f (which ∷ tables) word = elim (bucket_counts f word) [
  | none ↦ none
  | some (counts, held) ↦
      let (ok, next) = bucket_count_incr held which in
      let rest = count_all f tables next in if ok then rest else none
]

-- the word after one more, from one that nobody holds
stepped : (w which : ℕ) → ℕ
stepped w zero = w / 2 ^ 6 * 2 ^ 6 + (w % 2 ^ 6 + 1) % 2 ^ 6
stepped w (suc t) = w / 2 ^ 22 * 2 ^ 22 + (w / 2 ^ 16 % 2 ^ 6 + 1) % 2 ^ 6 * 2 ^ 16 + w % 2 ^ 16

count_one :
    (w which : ℕ)
    → w < 2 ^ 32
    → w / 2 ^ 7 % 2 ≡ 0
    → bucket_count_incr (w + 2 ^ 7) which ≡ (true, stepped w which)
unfolding stepped
count_one w zero lt free =
    incr_first (w + 2 ^ 7) (omega (arith, free)) (omega (arith, free))
    ∙ ap (λ (x : ℕ). (true, x)) (omega (arith, free))
count_one w (suc t) lt free =
    incr_second (w + 2 ^ 7) t (omega (arith, free)) (omega (arith, free))
    ∙ ap (λ (x : ℕ). (true, x)) (omega (arith, free))

-- the fields of a word that nobody holds
pub record Counted (n_1 n_2 w : ℕ) : Type 0 where
  pub word : w < 2 ^ 32
  pub free : w / 2 ^ 7 % 2 ≡ 0
  pub first : w % 2 ^ 6 ≡ n_1 % 2 ^ 6
  pub second : w / 2 ^ 16 % 2 ^ 6 ≡ n_2 % 2 ^ 6

stepped-Counted :
    (n_1 n_2 w which : ℕ)
    → Counted n_1 n_2 w
    → Counted
        (n_1 + (if which == 0 then 1 else 0))
        (n_2 + (if which == 0 then 0 else 1))
        (stepped w which)
unfolding stepped
stepped-Counted n_1 n_2 w zero k = record {
  word = omega (arith, k.word);
  free = omega (arith, k.free);
  first = omega (arith, k.first);
  second = omega (arith, k.second);
}
stepped-Counted n_1 n_2 w (suc t) k =
    let other : (suc t == 0) ≡ false = ground arith in
    rw other (record {
      word = omega (arith, k.word);
      free = omega (arith, k.free);
      first = omega (arith, k.first);
      second = omega (arith, k.second);
    })

add_zero : (n : ℕ) → n + 0 ≡ n
add_zero n = omega arith

stepped_free : (w which : ℕ) → w / 2 ^ 7 % 2 ≡ 0 → stepped w which / 2 ^ 7 % 2 ≡ 0
unfolding stepped
stepped_free w zero free = omega (arith, free)
stepped_free w (suc t) free = omega (arith, free)

refused : (w which : ℕ) → w / 2 ^ 7 % 2 ≡ 0 → bucket_count_incr w which ≡ (false, w)
unfolding bucket_count_incr
refused w which free = rw (is_held-free w free) refl

counts_lem : (w : ℕ) → counts_of w ≡ (w % 2 ^ 6, w / 2 ^ 16 % 2 ^ 6)
counts_lem w = ap₂ (λ (a b : ℕ). (a, b)) (count_lem w) (count_lem (w / 2 ^ 16))

count_all-Counted :
    (f : ℕ) (tables : List ℕ) (n_1 n_2 w : ℕ)
    → Counted n_1 n_2 w
    → (v : ℕ) × (count_all (suc f) tables w ≡ some v)
      × Counted (n_1 + occurs 0 tables) (n_2 + (length tables - occurs 0 tables)) v
unfolding count_all
count_all-Counted f [] n_1 n_2 w k = (w, refl, rw (add_zero n_1, add_zero n_2) k)
count_all-Counted f (which ∷ tables) n_1 n_2 w k =
    let (v, ran, counted) =
      count_all-Counted f tables _ _ (stepped w which) (stepped-Counted n_1 n_2 w which k) in
    (
      v,
      rw (count_all, bucket_counts_free f w k.free, count_one w which k.word k.free) ran,
      record {
        word = counted.word;
        free = counted.free;
        first = counted.first ∙ ground arith;
        second = counted.second ∙ ground (arith, occurs-le 0 tables);
      },
    )

-- However calls of bucket_counts, each followed by one of bucket_count_incr for one of the two tables, follow one another
-- from a word of 0, with no other process at work, none waits and none is refused; the counts are then the numbers of
-- calls for the two tables, modulo 64, and nobody holds the word.
pub count_all_lem :
    (f : ℕ) (tables : List ℕ)
    → (v : ℕ) × (count_all (suc f) tables 0 ≡ some v)
      × (counts_of v ≡ (occurs 0 tables % 2 ^ 6, (length tables - occurs 0 tables) % 2 ^ 6))
      × (is_held v ≡ false)
count_all_lem f tables =
    let start : Counted 0 0 0 = record {
      word = omega arith;
      free = refl;
      first = refl;
      second = refl;
    } in
    let (v, ran, k) = count_all-Counted f tables 0 0 0 start in
    (
      v,
      ran,
      counts_lem v ∙ ap₂ (λ (a b : ℕ). (a, b)) (k.first ∙ omega arith) (k.second ∙ omega arith),
      is_held-free v k.free,
    )

-- Two processes load the word of a bucket that nobody holds. The one whose exchange comes first takes hold; the other one's
-- fails, and it goes on with the same counts as though it had. Whichever tables they insert into, the first to count
-- itself lets go, and the other is then refused, its insertion not counted.
pub take_hold_race :
    (w : ℕ)
    → w < 2 ^ 32
    → w / 2 ^ 7 % 2 ≡ 0
    → (held : ℕ) × (take_hold 1 w w ≡ some (counts_of w, held))
      × (take_hold 1 w held ≡ some (counts_of w, held))
      × ((a b : ℕ)
          → (v : ℕ) × (bucket_count_incr held a ≡ (true, v)) × (bucket_count_incr v b ≡ (false, v)))
unfolding take_hold
take_hold_race w lt free =
    let held = w + 2 ^ 7 in
    let lost : (held == w) ≡ false = ground arith in
    let same : counts_of held ≡ counts_of w =
      counts_lem held
      ∙ ap₂ (λ (a b : ℕ). (a, b)) (omega (arith, free)) (omega (arith, free))
      ∙ sym (counts_lem w) in
    (
      held,
      rw (==_refl w, held_lem w free) refl,
      rw (lost, is_held-held held (omega (arith, free))) (ap (λ (c : ℕ × ℕ). some (c, held)) same),
      λ a b. (stepped w a, count_one w a lt free, refused (stepped w a) b (stepped_free w a free)),
    )
