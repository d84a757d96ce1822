-- ===== src/Hopscotch/RandomBits/Stock.antt =====
-- How many words a `Random_bits_generator` of src/node_shm_HH.h holds and draws.
use mathlib.Core.Path.{subst}
use shm_lru_aging_and_quotas.Base.Lists.{length, length-append}
use shm_lru_aging_and_quotas.Base.Tests.{
  ℕ, zero, suc, ◌+◌, ◌-◌, ◌*◌, ◌%◌, ◌≡◌, refl, ap, ◌∙◌, Bool, true, some, List, [], ◌∷◌, ◌==◌,
  if◌then◌else◌, arith, Bool-cases, inl, inr, eq_of_==, ne_of_==, ◌≢◌,
}
use shm_lru_aging_and_quotas.Hopscotch.RandomBits.{
  Generator, gen_count_lapse, generate, random_bits_generator, next_word, low_bit, pop_bit, and_bit,
  then_pop, pop_bits,
}

-- after `n` calls of a generator that had drawn `start`
record Stocked (start n : ℕ) (g : Generator) : Type 0 where
  first_bit : g.bcount ≡ 0
  words : length g.bits + n % 3 ≡ 256
  lapse : g.gen_count ≡ n % 3
  used : g.drawn ≡ start + 32 * (256 + n - n % 3)

module _ (draws : ℕ → Bool) where
  length-generate : (n drawn : ℕ) → length (generate draws n drawn) ≡ n
  unfolding generate
  length-generate zero drawn = refl
  length-generate (suc n) drawn = ap suc (length-generate n (drawn + 32))

  next_word-Stocked :
      (start n : ℕ) (g : Generator) (bits : List ℕ)
      → bits ≡ g.bits
      → Stocked start n g
      → (bit : ℕ) × (h : Generator) × (low_bit draws (next_word draws g bits) ≡ some (bit, h))
        × Stocked start (n + 1) h
  next_word-Stocked start n g [] e s = absurd (omega (arith, s.words, ap length e))
  next_word-Stocked start n g (word ∷ rest) e s =
      elim (Bool-cases ((g.gen_count + 1) % gen_count_lapse == 0)) [
        | inl third ↦
            let at : (g.gen_count + 1) % 3 ≡ 0 =
              eq_of_== ((g.gen_count + 1) % gen_count_lapse) 0 third in
            let more = generate draws gen_count_lapse g.drawn in
            let number = length-generate gen_count_lapse g.drawn in
            let all = length-append rest more in
            rw third (
              word % 2,
              _,
              refl,
              record {
                first_bit = ground (arith, s.first_bit);
                words = omega (arith, s.words, s.lapse, ap length e, all, number, at);
                lapse = omega (arith, s.lapse, at);
                used = omega (arith, s.used, s.lapse, at);
              },
            )
        | inr other ↦
            let at : (g.gen_count + 1) % 3 ≢ 0 =
              ne_of_== ((g.gen_count + 1) % gen_count_lapse) 0 other in
            rw other (
              word % 2,
              _,
              refl,
              record {
                first_bit = ground (arith, s.first_bit);
                words = omega (arith, s.words, s.lapse, ap length e, at);
                lapse = omega (arith, s.lapse, at);
                used = omega (arith, s.used, s.lapse, at);
              },
            )
      ]

  pop_bit-Stocked :
      (start n : ℕ) (g : Generator)
      → Stocked start n g
      → (bit : ℕ) × (h : Generator) × (pop_bit draws g ≡ some (bit, h)) × Stocked start (n + 1) h
  unfolding pop_bit
  pop_bit-Stocked start n g s =
      let (bit, h, e, t) = next_word-Stocked start n g g.bits refl s in
      let empty : (g.bcount == 0) ≡ true = ground (arith, s.first_bit) in
      (
        bit,
        h,
        ap (λ (b : Bool). low_bit draws (if b then next_word draws g g.bits else some g)) empty ∙ e,
        t,
      )

  pop_bits-Stocked :
      (k start n : ℕ) (g : Generator)
      → Stocked start n g
      → (bits : List ℕ) × (h : Generator) × (pop_bits draws k g ≡ some (bits, h))
        × (length bits ≡ k)
        × Stocked start (n + k) h
  unfolding pop_bits
  pop_bits-Stocked zero start n g s =
      ([], g, refl, refl, subst (λ j. Stocked start j g) (omega arith) s)
  pop_bits-Stocked (suc k) start n g s =
      let (bit, h, e, t) = pop_bit-Stocked start n g s in
      let (bits, w, f, number, last) = pop_bits-Stocked k start (n + 1) h t in
      (
        bit ∷ bits,
        w,
        ap (then_pop draws (pop_bits draws k)) e ∙ ap (and_bit draws bit) f,
        ap suc number,
        subst (λ j. Stocked start j w) (omega arith) last,
      )

-- A new generator gives any number of bits, one after the other, and never runs out of words. For `n` bits
-- it draws 32 times the largest multiple of three up to `n`, beyond the 8192 draws of the constructor.
pub pop_bits_lem :
    (draws : ℕ → Bool) (last_bits drawn n : ℕ)
    → (bits : List ℕ) × (h : Generator) × (pop_bits draws n
          (random_bits_generator draws last_bits drawn)
        ≡ some (bits, h))
      × (length bits ≡ n)
      × (h.drawn ≡ drawn + 32 * (256 + n - n % 3))
pop_bits_lem draws last_bits drawn n =
    let (bits, h, e, number, s) =
      pop_bits-Stocked draws n drawn 0 (random_bits_generator draws last_bits drawn) record {
        first_bit = refl;
        words = omega (arith, length-generate draws 256 drawn);
        lapse = refl;
        used = omega arith;
      } in
    (bits, h, e, number, omega (arith, s.used))
