-- ===== src/ControlWords/Stash.antt =====
-- The stash of the words of taken spots, of c_experiments/src/node_shm_HH.h: `stash_taken_spots`,
-- `_unstash_base_tbits`, and the calls of readers and of swappy operations.
-- A pointer to an element of the stash is its index: `stash_el_reference` never gives a null pointer. The elements that
-- are free stand in a list, in the order in which `pop_one_wait_free` hands them out (see AtomicStack/Stash.antt).
use Prim.{Unit}
use Prim.Native.Nat.{bit_and, bit_or}
use shm_lru_aging_and_quotas.Base.Tests.{
  ℕ, zero, suc, ◌-◌, ◌%◌, ◌^◌, Bool, ◌==◌, not, ◌||◌, List, [], ◌∷◌, Option, none, some,
  if◌then◌else◌,
}
use shm_lru_aging_and_quotas.Base.Mem.{update}
use shm_lru_aging_and_quotas.Base.Words.{u32_max, add32, sub32}
use shm_lru_aging_and_quotas.ControlWords.{
  is_base_tbits, tbit_stash_index_stamp, tbits_stash_index_of, tbits_sem_at_zero, tbits_sem_at_max,
  tbits_swappy_at_zero, tbits_swappy_at_max, base_reader_sem_count, tbits_reader_sem_incr,
  tbits_reader_swpy_incr,
}

-- `TBIT_STASH_ELEMENT`, without `_next`, `_index` and `info`, which are not read here
pub record TbitStashEl : Type 0 where
  pub real_bits : ℕ
  pub updating : ℕ
  pub add_update : ℕ
  pub remove_update : ℕ

-- the word of taken spots of one bucket, `tv.taken`, and the stash
pub record TakenSpots : Type 0 where
  pub taken : ℕ
  pub stash : ℕ → TbitStashEl
  pub free : List ℕ

-- one more that holds the element
abbrev pub hold : TbitStashEl → TbitStashEl
hold e = record e { updating = add32 e.updating 1 }

-- the loop of `compare_exchange_weak`, from the value that the thread expects; a failure loads the word again
unfoldable pub stash_exchange : (f tbits stash_index : ℕ) → TakenSpots → Option (ℕ × TakenSpots)
stash_exchange zero tbits stash_index s = none
stash_exchange (suc f) tbits stash_index s =
    let tbits_op = tbit_stash_index_stamp 0 stash_index in
    let already_stashed = tbits_stash_index_of tbits_op in
    let again = stash_exchange f s.taken stash_index s in
    let e = s.stash stash_index in
    if s.taken == tbits
    then some (
      stash_index,
      record s {
        taken = tbits_op;
        stash = update s.stash stash_index (record e { real_bits = tbits; updating = 1 });
      },
    )
    else if not (already_stashed == stash_index)
    then some (
      already_stashed,
      record s {
        stash = update s.stash already_stashed (hold (s.stash already_stashed));
        free = stash_index ∷ s.free;
      },
    )
    else again

-- `stash_taken_spots`, from the word that it loaded on: the element, where `none` is a wait without end
unfoldable pub stash_taken_spots : (f tbits : ℕ) → TakenSpots → Option (ℕ × TakenSpots)
stash_taken_spots f tbits s =
    let already_stashed = tbits_stash_index_of tbits in
    if is_base_tbits tbits || tbits == 0
    then elim s.free [
      | [] ↦ none
      | i ∷ rest ↦ stash_exchange f tbits (i % 2 ^ 8) (record s { free = rest })
    ]
    else some (
      already_stashed,
      record s { stash = update s.stash already_stashed (hold (s.stash already_stashed)) },
    )

abbrev pub real_update : TbitStashEl → ℕ
real_update e = bit_or (bit_and e.real_bits (u32_max - e.remove_update)) e.add_update

-- `_unstash_base_tbits`, where no other thread changes the word meanwhile
unfoldable pub unstash_base_tbits : TakenSpots → (tse : ℕ) → TakenSpots
unstash_base_tbits s tse =
    let e = s.stash tse in
    let left = e.updating - 1 in
    let t = record s { stash = update s.stash tse (record e { updating = left }) } in
    if left == 0 then record t { taken = real_update e } else t

-- the count of a call that enters, and of one that leaves
abbrev raise : (at_max : ℕ → Bool) (incr : ℕ) → ℕ × TakenSpots → ℕ × TakenSpots
raise at_max incr (tse, s) =
    if not (at_max s.taken) then (tse, record s { taken = add32 s.taken incr }) else (tse, s)

abbrev lower : (at_zero : ℕ → Bool) (incr : ℕ) → TakenSpots → TakenSpots
lower at_zero incr s = if not (at_zero s.taken) then record s { taken = sub32 s.taken incr } else s

-- `tbits_add_reader`
unfoldable pub tbits_add_reader : (f : ℕ) → TakenSpots → Option (ℕ × TakenSpots)
tbits_add_reader f s = elim (stash_taken_spots f s.taken s) [
  | none ↦ none
  | some r ↦ some (raise tbits_sem_at_max tbits_reader_sem_incr r)
]

-- `tbits_remove_reader`
unfoldable pub tbits_remove_reader : TakenSpots → (tse : ℕ) → TakenSpots
tbits_remove_reader s tse =
    if is_base_tbits s.taken
    then s
    else unstash_base_tbits (lower tbits_sem_at_zero tbits_reader_sem_incr s) tse

-- `tbits_add_swappy_op`
unfoldable pub tbits_add_swappy_op : (f : ℕ) → TakenSpots → Option (ℕ × TakenSpots)
tbits_add_swappy_op f s = elim (stash_taken_spots f s.taken s) [
  | none ↦ none
  | some r ↦ some (raise tbits_swappy_at_max tbits_reader_swpy_incr r)
]

-- `tbits_remove_swappy_op`
unfoldable pub tbits_remove_swappy_op : TakenSpots → (tse : ℕ) → TakenSpots
tbits_remove_swappy_op s tse =
    if is_base_tbits s.taken
    then s
    else unstash_base_tbits (lower tbits_swappy_at_zero tbits_reader_swpy_incr s) tse

-- `tbits_wait_for_readers`, in `f` rounds at most: the loop looks at the word that was loaded before it
unfoldable pub tbits_wait_for_readers : (f tbits : ℕ) → Option (Unit {0})
tbits_wait_for_readers zero tbits = none
tbits_wait_for_readers (suc f) tbits =
    let rest = tbits_wait_for_readers f tbits in
    if base_reader_sem_count tbits == 0 then some (record {}) else rest

-- `fetch_real_tbits`
unfoldable pub fetch_real_tbits : TakenSpots → (tbit_carrier : ℕ) → ℕ
fetch_real_tbits s tbit_carrier =
    if is_base_tbits tbit_carrier
    then tbit_carrier
    else (s.stash (tbits_stash_index_of tbit_carrier)).real_bits
