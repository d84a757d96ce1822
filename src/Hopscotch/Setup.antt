-- ===== src/Hopscotch/Setup.antt =====
-- The construction and `clear` of `HH_map` in src/node_shm_HH.h.
use shm_lru_aging_and_quotas.Base.Bits.{get_bit-zero}
use shm_lru_aging_and_quotas.Base.Mem.{total, total_congr}
use shm_lru_aging_and_quotas.Base.Tests.{
  ℕ, zero, suc, ◌+◌, ◌*◌, ◌/◌, ◌^◌, ◌≤◌, ◌<◌, ◌≡◌, refl, sym, ◌∙◌, Bool, true, arith, if◌then◌else◌,
}
use shm_lru_aging_and_quotas.Hopscotch.{Table, setup}
use shm_lru_aging_and_quotas.Hopscotch.Inv.{IsTable, used, tally}
use shm_lru_aging_and_quotas.Hopscotch.Lookup.{Absent}

-- The fields of `HH_map` that its constructor and `clear` use, with one of its tables.
pub record HhMap : Type 0 where
  pub initializer : Bool
  pub max_count : ℕ
  pub table : Table

-- the constructor of the process that initialises the region; each table gets half of the elements
unfoldable pub construct : ℕ → HhMap
construct max_element_count = record {
  initializer = true;
  max_count = max_element_count;
  table = setup (max_element_count / 2);
}

-- `clear`
unfoldable pub clear : HhMap → HhMap
clear m = if m.initializer then record m { table = setup m.max_count } else m

total-zero : (n : ℕ) → total n (λ p. 0) ≡ 0
unfolding total
total-zero zero = refl
total-zero (suc n) = omega (arith, total-zero n)

-- A table that is set up for at least one element, with a size that leaves room in 32 bits, is
-- well formed and has no entry.
pub setup-IsTable :
    (n : ℕ)
    → 0 < n
    → 2 * n + 64 ≤ 2 ^ 32
    → IsTable (setup n) × ((b key : ℕ) → Absent (setup n) b key)
unfolding setup used tally
setup-IsTable n pos small = (
  record {
    positive = pos;
    small = small;
    nearby = (omega arith, omega arith);
    words = λ b. omega arith;
    within = λ b i bn c. cc (get_bit-zero i);
    filled = λ b i bn c. cc (get_bit-zero i);
    owned = λ b i c j bn cn p q. cc (get_bit-zero i);
    counted = sym (total-zero n);
  },
  λ b key x e. total_congr 32 _ (λ _. 0) (λ i lt. ground (arith, get_bit-zero i)) ∙ total-zero 32,
)

-- For a constructor's element count of at least 2, `clear` leaves an empty table of that count,
-- which is larger than the one that the constructor made.
pub clear-construct :
    (n : ℕ)
    → 2 ≤ n
    → ((clear (construct n)).table ≡ setup n)
      × ((construct n).table.max_n < (clear (construct n)).table.max_n)
unfolding clear construct setup
clear-construct n h = (refl, omega arith)
