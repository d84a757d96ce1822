-- ===== src/ControlWords/Tests.antt =====
-- Examples for the words of c_experiments/src/hmap_interface.h and the stash of c_experiments/src/node_shm_HH.h.
use shm_lru_aging_and_quotas.Base.Mem.{update}
use shm_lru_aging_and_quotas.Base.Tests.{
  ℕ, ◌/◌, ◌%◌, ◌^◌, ◌<◌, ◌≡◌, ◌≢◌, refl, arith, true, none, some, List, [], ◌∷◌,
}
use shm_lru_aging_and_quotas.ControlWords.{
  is_member_bucket, is_base_tbits, tbit_stash_index_stamp, tbits_stash_index_of, tbits_sem_at_max,
  tbits_sem_at_zero,
}
use shm_lru_aging_and_quotas.ControlWords.Exhausted.{readings, readings_lem}
use shm_lru_aging_and_quotas.ControlWords.Race.{stash_race}
use shm_lru_aging_and_quotas.ControlWords.Readers.{Visited-Registered, tbits_wait_for_readers_lem}
use shm_lru_aging_and_quotas.ControlWords.Stash.{
  TbitStashEl, TakenSpots, stash_taken_spots, stash_exchange, unstash_base_tbits, tbits_add_reader,
  tbits_remove_reader, tbits_wait_for_readers, fetch_real_tbits,
}
use shm_lru_aging_and_quotas.ControlWords.Visits.{
  Visited, IsCalm, since, nobody, reader_enters, Registered, Fresh,
}

-- a member two places behind its base
abbrev member : ℕ
member = 0x8000_0004

-- a base with the spots 0, 2, 16 and 17 taken
abbrev base : ℕ
base = 0x3_0005

abbrev empty_el : TbitStashEl
empty_el = record { real_bits = 0; updating = 0; add_update = 0; remove_update = 0 }

abbrev bucket : TakenSpots
bucket = record { taken = base; stash = λ j. empty_el; free = 0 ∷ 5 ∷ [] }

bucket-Fresh : Fresh bucket
bucket-Fresh = record { no_change = λ j. (refl, refl) }

base_stamp : tbit_stash_index_stamp 0x12_3456 5 ≡ 0x12_000a
unfolding tbit_stash_index_stamp
base_stamp = refl

base_stamp_index : tbits_stash_index_of 0x12_000a ≡ 5
unfolding tbits_stash_index_of
base_stamp_index = refl

member_run : is_member_bucket member ≡ true
unfolding is_member_bucket
member_run = refl

abbrev held_one : List ℕ
held_one = 0 ∷ []

-- One reader has entered.
abbrev one_in : TakenSpots
one_in = record {
  taken = 0x1_0000;
  stash =
      update (λ j. empty_el) 0
        (record { real_bits = base; updating = 1; add_update = 0; remove_update = 0 });
  free = 5 ∷ [];
}

enters_run : tbits_add_reader 1 bucket ≡ some (0, one_in)
unfolding tbits_add_reader stash_taken_spots stash_exchange is_base_tbits tbit_stash_index_stamp
    tbits_stash_index_of tbits_sem_at_max
enters_run = refl

abbrev one_inside : Visited 1 bucket (0 ∷ []) one_in
one_inside = reader_enters [] bucket nobody (0, one_in) enters_run

one-IsCalm : IsCalm 1 bucket (0 ∷ []) one_in one_inside
unfolding IsCalm since
one-IsCalm = (record {}, omega arith)

leaves_run : (tbits_remove_reader one_in 0).taken ≡ base
unfolding tbits_remove_reader unstash_base_tbits is_base_tbits tbits_sem_at_zero
leaves_run = refl

Visited-Registered_example :
    Registered base (0 ∷ []) one_in × (fetch_real_tbits one_in 0x1_0000 ≡ base)
Visited-Registered_example =
    Visited-Registered base refl (omega arith) 1 bucket refl bucket-Fresh (0 ∷ []) one_in one_inside
      one-IsCalm

tbits_wait_for_readers_lem_example :
    (0 < 1 → tbits_wait_for_readers 1 0x1_0000 ≡ some (record {}))
    × (held_one ≡ []
        → base / 2 ^ 16 % 2 ^ 8 ≢ 0
        → (g : ℕ) → tbits_wait_for_readers g 0x1_0000 ≡ none)
tbits_wait_for_readers_lem_example =
    tbits_wait_for_readers_lem base refl (omega arith) 1 bucket refl bucket-Fresh (0 ∷ []) one_in
      one_inside one-IsCalm

readings_lem_example :
    (t : TakenSpots) × (readings 2 bucket ≡ some t)
    × (t.taken ≡ base)
    × ((f : ℕ) → tbits_add_reader f t ≡ none)
readings_lem_example =
    readings_lem base refl (omega arith) bucket refl bucket-Fresh (0 ∷ 5 ∷ []) refl

stash_race_example :
    (s1 : TakenSpots) × (stash_taken_spots 1 base bucket ≡ some (0, s1))
    × (s2 : TakenSpots) × (stash_taken_spots 2 base s1 ≡ some (5, s2))
    × (fetch_real_tbits s2 s2.taken ≡ 0)
    × ((unstash_base_tbits (unstash_base_tbits s2 0) 5).taken ≡ 0)
    × ((unstash_base_tbits (unstash_base_tbits s2 5) 0).taken ≡ base)
stash_race_example =
    stash_race base refl (omega arith) bucket 0 5 [] refl bucket-Fresh refl
      (λ e. absurd (omega (arith, e)))
