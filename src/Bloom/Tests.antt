-- ===== src/Bloom/Tests.antt =====
-- Examples for c_experiments/src/bloom.h.
use shm_lru_aging_and_quotas.Base.Tests.{◌≡◌, ◌%◌, refl, true, false, ◌==◌}
use shm_lru_aging_and_quotas.Bloom.{
  AtomicBloom, Hashes, atomic_bloom, set_one, set_bloom_bits, check_one, check_bloom_bits,
}
use shm_lru_aging_and_quotas.Bloom.Members.{all_five, check-set_bloom_bits}

abbrev empty_bloom : AtomicBloom
empty_bloom = atomic_bloom (λ p. 0) 64

abbrev fours : Hashes
fours = record { h1 = 4; h2 = 8; h3 = 12; h4 = 200; h5 = 40 }

abbrev odd : Hashes
odd = record fours { h2 = 9 }

refused_run : (set_bloom_bits empty_bloom (record fours { h3 = 512 })).0 ≡ false
unfolding set_bloom_bits
refused_run = refl

fill_run : (set_bloom_bits (set_bloom_bits empty_bloom fours).1 fours).1.fill_count ≡ 1
unfolding set_bloom_bits set_one
fill_run = refl

odd_run : check_bloom_bits (set_bloom_bits empty_bloom odd).1 odd ≡ false
unfolding set_bloom_bits check_bloom_bits set_one check_one
odd_run = refl

fours_found : check_bloom_bits (set_bloom_bits empty_bloom fours).1 fours ≡ true
unfolding set_bloom_bits check_bloom_bits set_one check_one
fours_found = refl

check-set_bloom_bits_example :
    ((set_bloom_bits empty_bloom odd).0 ≡ true)
    × (check_bloom_bits (set_bloom_bits empty_bloom odd).1 odd ≡ all_five (λ k. k % 4 == 0) odd)
check-set_bloom_bits_example = check-set_bloom_bits empty_bloom odd refl
