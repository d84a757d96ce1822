-- ===== src/Hopscotch/Tests.antt =====
-- Runs of the table on small inputs, and the theorems at such inputs.
use shm_lru_aging_and_quotas.Base.Bits.{get_bit, set_bit, unset_bit, mask_from, ffs}
use shm_lru_aging_and_quotas.Base.Tests.{
  false, ◌+◌, ◌-◌, ◌*◌, ◌%◌, true, List, ℕ, ◌%◌, ◌<◌, ◌≡◌, refl, Option, none, some, [], ◌∷◌, arith,
}
use shm_lru_aging_and_quotas.Base.Words.{load64}
use shm_lru_aging_and_quotas.Hopscotch.Counters.{take_hold, bucket_count_incr, is_held, counts_of}
use shm_lru_aging_and_quotas.Hopscotch.Counting.{count_all, count_all_lem, take_hold_race}
use shm_lru_aging_and_quotas.Hopscotch.{
  Table, setup, next, succ, succ_hh_hash, scan_free, probe, hop_from, hop_scotch, swap, place,
  finish_put, put_hh_hash, get_val_at_hh_hash, cmp, take_out, del_hh_hash, hunt_from, hunt_hash_set,
  get_hh_set, del_hh_set, put_hh_set, hop_back,
}
use shm_lru_aging_and_quotas.Hopscotch.Api.{
  store, put_hh_map, get, get_hh_map, del_hh_map, get_bucket,
}
use shm_lru_aging_and_quotas.Hopscotch.Delete.{Deleted, del-Deleted}
use shm_lru_aging_and_quotas.Hopscotch.Inv.{IsTable, tally}
use shm_lru_aging_and_quotas.Hopscotch.Lookup.{Absent, Looked, get-Looked}
use shm_lru_aging_and_quotas.Hopscotch.Put.{Hopped, hop_back_lem}
use shm_lru_aging_and_quotas.Hopscotch.RoundTrip.{
  Storable, Puts, Puts-Gains, get-store, get-del-store,
}
use shm_lru_aging_and_quotas.Hopscotch.RandomBits.{Generator, random_bits_generator, pop_bits}
use shm_lru_aging_and_quotas.Hopscotch.RandomBits.Stock.{pop_bits_lem}
use shm_lru_aging_and_quotas.Base.Lists.{length}
use shm_lru_aging_and_quotas.Hopscotch.Setup.{setup-IsTable}
use shm_lru_aging_and_quotas.Hopscotch.Store.{Stored, put_hh_hash-Stored}

-- everything that a run computes with
program : Unit {0}
unfolding setup next succ succ_hh_hash scan_free probe hop_from hop_scotch swap place finish_put
    put_hh_hash get_val_at_hh_hash cmp take_out del_hh_hash hunt_from hunt_hash_set get_hh_set
    del_hh_set put_hh_set hop_back store put_hh_map get get_hh_map del_hh_map get_bucket get_bit
    set_bit unset_bit mask_from ffs load64
program = tt

-- what follows a call that has returned
then_do : {A : Type 0} → Option (ℕ × Table) → (ℕ → Table → Option A) → Option A
then_do none f = none
then_do (some (r, t)) f = f r t

get-store_run : then_do (store (setup 8) 11 5 77) (λ r t. get_hh_map t (load64 5 11)) ≡ some 77
unfolding program then_do
get-store_run = refl

-- `get(5,11)` looks in bucket 5 for the key 11.
get_swapped_run : then_do (store (setup 8) 11 5 77) (λ r t. get t 5 11) ≡ some 0
unfolding program then_do
get_swapped_run = refl

get_bucket_first_run : then_do (store (setup 8) 11 5 77) (λ r t. get t 11 5) ≡ some 77
unfolding program then_do
get_bucket_first_run = refl

-- two values of one bucket, which wraps round the end of the slots
get_bucket_run :
    then_do (store (setup 8) 7 5 77) (λ r t. then_do (store t 7 6 88) (λ s u. get_bucket u 7))
    ≡ some (77 ∷ 88 ∷ [])
unfolding program then_do
get_bucket_run = refl

del_run :
    then_do (store (setup 8) 3 5 77) (λ r t. then_do (del_hh_map t (load64 5 3)) (λ v u. some v))
    ≡ some 77
unfolding program then_do
del_run = refl

abbrev empty_table : Table
empty_table = setup 8

empty_table-IsTable : IsTable empty_table
empty_table-IsTable = (setup-IsTable 8 (omega arith) (omega arith)).0

empty_table-Absent : (b key : ℕ) → Absent empty_table b key
empty_table-Absent = (setup-IsTable 8 (omega arith) (omega arith)).1

-- a table with the value 77 under key 5 in bucket 3, and the same with 88 under that key
abbrev one_entry : Table
one_entry = place empty_table 3 0 (load64 77 5)

abbrev two_entries : Table
two_entries = place one_entry 3 1 (load64 88 5)

one_entry-Puts : Puts empty_table 5 11 77 one_entry
unfolding program
one_entry-Puts = refl

two_entries-Puts : Puts one_entry 5 11 88 two_entries
unfolding program
two_entries-Puts = refl

fit_77 : Storable 5 11 77
fit_77 = omega arith

fit_88 : Storable 5 11 88
fit_88 = omega arith

one_entry-IsTable : IsTable one_entry
one_entry-IsTable = (Puts-Gains empty_table-IsTable fit_77 one_entry-Puts).0

put_hh_hash-Stored_example :
    Stored one_entry (19 % one_entry.max_n) (load64 9 4) (put_hh_hash one_entry 19 (load64 9 4))
put_hh_hash-Stored_example = put_hh_hash-Stored one_entry-IsTable 19 (load64 9 4)

get-Looked_example : Looked one_entry (11 % one_entry.max_n) 5 (get_hh_map one_entry (load64 5 11))
get-Looked_example = get-Looked one_entry-IsTable 5 11 (omega arith) (omega arith)

del-Deleted_example :
    Deleted one_entry (11 % one_entry.max_n) 5 (del_hh_map one_entry (load64 5 11))
del-Deleted_example = del-Deleted one_entry-IsTable 5 11 (omega arith) (omega arith) (omega arith)

get-store_example : get_hh_map one_entry (load64 5 11) ≡ some 77
get-store_example =
    get-store empty_table-IsTable fit_77 one_entry-Puts
      (empty_table-Absent (11 % empty_table.max_n) 5)

get-del-store_example :
    (w : Table) × (del_hh_map one_entry (load64 5 11) ≡ some (77, w))
    × IsTable w
    × ((b y : ℕ) → b < empty_table.max_n → tally w b y ≡ tally empty_table b y)
    × (get_hh_map w (load64 5 11) ≡ some 0)
get-del-store_example =
    get-del-store empty_table-IsTable fit_77 one_entry-Puts
      (empty_table-Absent (11 % empty_table.max_n) 5) (omega arith)

-- an entry under the key 0
abbrev zero_key : Table
zero_key = place empty_table 3 0 (load64 77 0)

zero_key-Puts : Puts empty_table 0 11 77 zero_key
unfolding program
zero_key-Puts = refl

hop_back_lem_example : Hopped one_entry 3 (hop_back 3 one_entry 3 2)
hop_back_lem_example =
    hop_back_lem 3 one_entry 3 2 one_entry-IsTable (unfold program in omega arith)
      (unfold program in omega arith) (unfold program in refl) (omega arith)

pop_bits_lem_example :
    (bits : List ℕ) × (h : Generator) × (pop_bits
        (λ _. true)
        7
        (random_bits_generator (λ _. true) 0 0)
      ≡ some (bits, h))
    × (length bits ≡ 7)
    × (h.drawn ≡ 0 + 32 * (256 + 7 - 7 % 3))
pop_bits_lem_example = pop_bits_lem (λ _. true) 0 0 7

pub store_run : store (setup 8) 3 6 24 ≡ some (load64 6 3, place (setup 8) 3 0 (load64 24 6))
unfolding program
store_run = refl

abbrev placed : List ℕ
placed = 0 ∷ 1 ∷ 0 ∷ []

count_all_lem_example :
    (v : ℕ) × (count_all 1 placed 0 ≡ some v) × (counts_of v ≡ (2, 1)) × (is_held v ≡ false)
count_all_lem_example = count_all_lem 0 placed

take_hold_race_example :
    (held : ℕ) × (take_hold 1 0x2_0001 0x2_0001 ≡ some (counts_of 0x2_0001, held))
    × (take_hold 1 0x2_0001 held ≡ some (counts_of 0x2_0001, held))
    × ((a b : ℕ)
        → (v : ℕ) × (bucket_count_incr held a ≡ (true, v)) × (bucket_count_incr v b ≡ (false, v)))
take_hold_race_example = take_hold_race 0x2_0001 (omega arith) refl
