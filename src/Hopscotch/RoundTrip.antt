-- ===== src/Hopscotch/RoundTrip.antt =====
-- `store`, `get(key)` and `del` of src/node_shm_HH.h after one another.
use mathlib.Core.Path.{subst}
use shm_lru_aging_and_quotas.Base.Tests.{
  ℕ, ◌+◌, ◌%◌, ◌^◌, ◌≤◌, ◌<◌, ◌≡◌, ◌≢◌, ap, ◌∙◌, inl, inr, Bool, false, Option, some, arith, ◌==◌,
  if◌then◌else◌, Bool-cases, ==_of_ne,
}
use shm_lru_aging_and_quotas.Base.Words.{
  u64_max, load64, low_half, high_half, load64-eq-add, low_half-load64, high_half-load64,
}
use shm_lru_aging_and_quotas.Hopscotch.{Table}
use shm_lru_aging_and_quotas.Hopscotch.Api.{loaded_key, store, get_hh_map, del_hh_map}
use shm_lru_aging_and_quotas.Hopscotch.Delete.{Loses, untouched, deleted, del-Deleted}
use shm_lru_aging_and_quotas.Hopscotch.Inv.{IsTable, tally}
use shm_lru_aging_and_quotas.Hopscotch.Lookup.{Absent, missing, present, get-Looked, bucket-lt}
use shm_lru_aging_and_quotas.Hopscotch.Store.{Gains, Stored, stored, refused, put_hh_hash-Stored}

-- A key, a bucket number and a value that the table can hold.
pub record Storable (key hash value : ℕ) : Type 0 where
  pub key_word : key < 2 ^ 32
  pub hash_word : hash + 32 ≤ 2 ^ 32
  pub value_word : value < 2 ^ 32
  pub has_value : value ≢ 0

-- `store` succeeded: it returned the loaded key and the table `u`.
abbrev pub Puts : Table → (key hash value : ℕ) → Table → Type 0
Puts t key hash value u = store t hash key value ≡ some (load64 key hash, u)

module _ {t u : Table} (valid : IsTable t) {key hash value : ℕ} (fit : Storable key hash value)
    (done : Puts t key hash value u) where
  -- a loaded key is never `UINT64_MAX`
  key_ne_max : load64 key hash ≢ u64_max
  key_ne_max e = omega (arith, load64-eq-add key hash (omega (arith, fit)), fit)

  Stored-table :
      {r : Option (Bool × Table)}
      → Stored t (hash % t.max_n) (load64 value key) r
      → loaded_key key hash r ≡ some (load64 key hash, u)
      → IsTable u × Gains t (hash % t.max_n) (load64 value key) u
  unfolding loaded_key
  Stored-table (stored w good gains e) d =
      let d' = rw e at d in
      let same : w ≡ u = cc in
      subst (λ (x : Table). IsTable x × Gains t (hash % t.max_n) (load64 value key) x) same
        (good, gains)
  Stored-table (refused w good same why e) d =
      let d' = rw e at d in let bad : load64 key hash ≡ u64_max = cc in absurd (key_ne_max bad)

  -- A successful `store` adds exactly its entry.
  pub Puts-Gains : IsTable u × Gains t (hash % t.max_n) (load64 value key) u
  unfolding store
  Puts-Gains =
      let some_value : (value == 0) ≡ false = ==_of_ne _ _ fit.has_value in
      Stored-table (put_hh_hash-Stored valid hash (load64 value key)) (rw some_value at done)

  abbrev x : ℕ
  x = load64 value key

  x_key : low_half x ≡ key
  x_key = low_half-load64 value key fit.key_word

  x_value : high_half x ≡ value
  x_value = high_half-load64 value key fit.key_word

  pub same_bucket : hash % u.max_n ≡ hash % t.max_n
  same_bucket = ap (λ (n : ℕ). hash % n) Puts-Gains.1.size

  -- the bucket after the `store`
  pub tally-Puts :
      (y : ℕ) → tally u (hash % u.max_n) y ≡ tally t (hash % t.max_n) y + (if y == x then 1 else 0)
  tally-Puts y =
      rw (same_bucket)
        (ground (arith, Puts-Gains.1.entries (hash % t.max_n) y (bucket-lt valid hash)))

  here_now : tally u (hash % u.max_n) x ≡ tally t (hash % t.max_n) x + 1
  here_now = tally-Puts x ∙ ground arith

  module _ (absent : Absent t (hash % t.max_n) key) where
    -- the new entry is the only one with the key
    only : (y : ℕ) → low_half y ≡ key → tally u (hash % u.max_n) y ≢ 0 → y ≡ x
    only y k here = ground (arith, tally-Puts y, absent y k)

    get_of_Puts : get_hh_map u (load64 key hash) ≡ some value
    get_of_Puts = elim (get-Looked Puts-Gains.0 key hash fit.key_word fit.hash_word) [
      | missing none_left e ↦ absurd (omega (arith, none_left x x_key, here_now))
      | present y k here e ↦ e ∙ ap some (ap high_half (only y k here) ∙ x_value)
    ]

    module _ {y : ℕ} {w : Table} (good : IsTable w) (k : low_half y ≡ key)
        (loses : Loses u (hash % u.max_n) y w) where
      bu : hash % u.max_n < u.max_n
      bu = bucket-lt Puts-Gains.0 hash

      was_x : y ≡ x
      was_x = only y k (ground (arith, loses.entries (hash % u.max_n) y bu))

      as_before : (b z : ℕ) → b < t.max_n → tally w b z ≡ tally t b z
      as_before b z lt = ground (
        arith,
        was_x,
        same_bucket,
        Puts-Gains.1.entries b z lt,
        loses.entries b z (omega (arith, Puts-Gains.1.size)),
      )

      get_after : get_hh_map w (load64 key hash) ≡ some 0
      get_after = elim (get-Looked good key hash fit.key_word fit.hash_word) [
        | missing none_left e ↦ e
        | present z kz here e ↦ absurd (
            here (
              let size : hash % w.max_n ≡ hash % t.max_n =
                ap (λ (n : ℕ). hash % n) loses.size ∙ same_bucket in
              rw size (as_before _ z (bucket-lt valid hash) ∙ absent z kz)))
      ]

-- In a well-formed table, after a successful `store` of a value that is not 0, under a key that
-- its bucket did not hold, `get` of the loaded key returns the value. The key and the value have
-- 32 bits, and the bucket number leaves room for 32 positions.
pub get-store :
    {t u : Table}
    → IsTable t
    → {key hash value : ℕ} → Storable key hash value
    → Puts t key hash value u
    → Absent t (hash % t.max_n) key
    → get_hh_map u (load64 key hash) ≡ some value
get-store valid fit done absent = get_of_Puts valid fit done absent

-- In a well-formed table, after a successful `store` and a deletion under a key other than 0
-- that the bucket did not hold, with a value that is not 0, a key and a value of 32 bits and a bucket number
-- that leaves room for 32 positions, the
-- deletion has returned the value, every bucket has the entries that it had before the `store`,
-- and `get` of the loaded key finds none.
pub get-del-store :
    {t u : Table}
    → IsTable t
    → {key hash value : ℕ} → Storable key hash value
    → Puts t key hash value u
    → Absent t (hash % t.max_n) key
    → key ≢ 0
    → (w : Table) × (del_hh_map u (load64 key hash) ≡ some (value, w))
      × IsTable w
      × ((b y : ℕ) → b < t.max_n → tally w b y ≡ tally t b y)
      × (get_hh_map w (load64 key hash) ≡ some 0)
get-del-store valid {key} {hash} fit done absent ne =
    elim (del-Deleted (Puts-Gains valid fit done).0 key hash fit.key_word fit.hash_word ne) [
      | untouched none_left e ↦
          absurd (omega (arith, none_left _ (x_key valid fit done), here_now valid fit done))
      | deleted y w k good loses e ↦ (
        w,
        e
            ∙ ap (λ (v : ℕ). some (v, w))
                (ap high_half (was_x valid fit done absent good k loses) ∙ x_value valid fit done),
        good,
        as_before valid fit done absent good k loses,
        get_after valid fit done absent good k loses,
      )
    ]

-- Of two stored entries one is left after a deletion.
left_over :
    {t u w s : Table} (valid : IsTable t) {key hash first second y : ℕ}
    (fit : Storable key hash first) (fit' : Storable key hash second)
    (done : Puts t key hash first u) (done' : Puts u key hash second w)
    → Loses w (hash % w.max_n) y s
    → (z : ℕ) × (low_half z ≡ key) × (tally s (hash % s.max_n) z ≢ 0)
left_over {t} {u} {w} {s} valid {key} {hash} {first} {second} {y} fit fit' done done' loses =
    let good_u = (Puts-Gains valid fit done).0 in
    let good_w = (Puts-Gains good_u fit' done').0 in
    let x₁ = load64 first key in
    let x₂ = load64 second key in
    let z = if y == x₁ then x₂ else x₁ in
    let kz : low_half z ≡ key = elim (Bool-cases (y == x₁)) [
      | inl e ↦ rw e (x_key good_u fit' done')
      | inr e ↦ rw e (x_key valid fit done)
    ] in
    let size : hash % s.max_n ≡ hash % w.max_n = ap (λ (n : ℕ). hash % n) loses.size in
    (
      z,
      kz,
      rw size (λ none_left. ground (
        arith,
        loses.entries (hash % w.max_n) z (bucket-lt good_w hash),
        tally-Puts good_u fit' done' z,
        tally-Puts valid fit done z,
      )),
    )

-- `store` is no update: in a well-formed table, after two successful `store`s under one key
-- other than 0, one deletion leaves an entry with the key behind, so `get` still finds one.
pub get-del-store_twice :
    {t u w : Table}
    → IsTable t
    → {key hash first second : ℕ} → Storable key hash first
    → Storable key hash second
    → Puts t key hash first u
    → Puts u key hash second w
    → key ≢ 0
    → (v : ℕ) × (s : Table) × (x : ℕ) × (del_hh_map w (load64 key hash) ≡ some (v, s))
      × (low_half x ≡ key)
      × (get_hh_map s (load64 key hash) ≡ some (high_half x))
      × (tally s (hash % s.max_n) x ≢ 0)
get-del-store_twice {u} {w} valid {key} {hash} fit fit' done done' ne =
    let good_u = (Puts-Gains valid fit done).0 in
    let good_w = (Puts-Gains good_u fit' done').0 in
    elim (del-Deleted good_w key hash fit.key_word fit.hash_word ne) [
      | untouched none_left e ↦
          absurd (omega (arith, none_left _ (x_key good_u fit' done'), here_now good_u fit' done'))
      | deleted y s k good loses e ↦
          let (z, kz, here) = left_over valid fit fit' done done' loses in
          elim (get-Looked good key hash fit.key_word fit.hash_word) [
            | missing none_left f ↦ absurd (here (none_left z kz))
            | present x kx there f ↦ (high_half y, s, x, e, kx, f, there)
          ]
    ]
