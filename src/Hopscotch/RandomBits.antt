-- ===== src/Hopscotch/RandomBits.antt =====
-- `Random_bits_generator` of src/node_shm_HH.h, which is to choose between two tables. What the bernoulli
-- distribution draws is an argument, `draws`, and a generator knows how many it has drawn.
pub mod Stock
use shm_lru_aging_and_quotas.Base.Tests.{
  ℕ, zero, suc, ◌+◌, ◌*◌, ◌/◌, ◌%◌, ◌^◌, Bool, true, false, Option, none, some, List, [], ◌∷◌, ◌++◌,
  ◌==◌, if◌then◌else◌,
}

pub record Generator : Type 0 where
  pub bits : List ℕ
  pub drawn : ℕ
  pub last_bits : ℕ
  pub bcount : ℕ
  pub gen_count : ℕ

-- `BITS_GEN_COUNT_LAPSE`
abbrev pub gen_count_lapse : ℕ
gen_count_lapse = 3

module _ (draws : ℕ → Bool) where
  -- the loop of `generate_word`
  unfoldable pub word_from : (rounds drawn bits : ℕ) → ℕ
  word_from zero drawn bits = bits
  word_from (suc n) drawn bits =
      word_from n (drawn + 1) ((bits * 2 + (if draws drawn then 1 else 0)) % 2 ^ 32)

  -- `generate_word`, after which 32 more have been drawn
  abbrev pub generate_word : (drawn : ℕ) → ℕ
  generate_word drawn = word_from 32 drawn 0

  -- `generate`
  unfoldable pub generate : (n drawn : ℕ) → List ℕ
  generate zero drawn = []
  generate (suc n) drawn = generate_word drawn ∷ generate n (drawn + 32)

  -- the constructor; `_last_bits` is left as it is
  abbrev pub random_bits_generator : (last_bits drawn : ℕ) → Generator
  random_bits_generator last_bits drawn = record {
    bits = generate 256 drawn;
    drawn = drawn + 256 * 32;
    last_bits = last_bits;
    bcount = 0;
    gen_count = 0;
  }

  -- the first lines of `pop_bit`: a word is taken from the list, and every third time three are added
  abbrev pub next_word : Generator → List ℕ → Option Generator
  next_word g [] = none
  next_word g (word ∷ rest) =
      let gen_count = (g.gen_count + 1) % gen_count_lapse in
      let taken = record g { bits = rest; last_bits = word; gen_count = gen_count } in
      some (
        if gen_count == 0
        then record taken {
          bits = rest ++ generate gen_count_lapse g.drawn;
          drawn = g.drawn + gen_count_lapse * 32;
        }
        else taken)

  abbrev pub low_bit : Option Generator → Option (ℕ × Generator)
  low_bit none = none
  low_bit (some g) =
      some (g.last_bits % 2, record g { bcount = g.bcount % 32; last_bits = g.last_bits / 2 })

  -- `pop_bit`; in `_bcount = _bcount++ % 32` the assignment comes after the increment
  unfoldable pub pop_bit : Generator → Option (ℕ × Generator)
  pop_bit g = low_bit (if g.bcount == 0 then next_word g g.bits else some g)

  -- one call after the other
  abbrev pub and_bit : ℕ → Option (List ℕ × Generator) → Option (List ℕ × Generator)
  and_bit bit none = none
  and_bit bit (some (bits, g)) = some (bit ∷ bits, g)

  abbrev pub then_pop :
      (Generator → Option (List ℕ × Generator))
      → Option (ℕ × Generator)
      → Option (List ℕ × Generator)
  then_pop again none = none
  then_pop again (some (bit, g)) = and_bit bit (again g)

  unfoldable pub pop_bits : ℕ → Generator → Option (List ℕ × Generator)
  pop_bits zero g = some ([], g)
  pop_bits (suc n) g = then_pop (pop_bits n) (pop_bit g)
