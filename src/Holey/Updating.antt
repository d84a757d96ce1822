-- ===== src/Holey/Updating.antt =====
-- What `add_entry` and `entry_key_upate` of src/holey_buffer.h do to the pairs.
use native.Mathlib.Decide.{ℕ_discrete, dec_lt}
use shm_lru_aging_and_quotas.Base.Tests.{
  ℕ, ◌+◌, ◌-◌, ◌^◌, ◌≤◌, ◌<◌, ◌≡◌, ◌≢◌, refl, ap, Bool, true, false, Option, none, some, inl, inr,
  ltb, leb, ◌==◌, arith, Bool-cases,
}
use shm_lru_aging_and_quotas.Base.Words.{u32_max, add32}
use shm_lru_aging_and_quotas.Holey.{Buffer, back, scan}
use shm_lru_aging_and_quotas.Holey.Entries.{
  Change, unchanged, entry_add, entry_key_upate, update_old, update_new, value_or,
}
use shm_lru_aging_and_quotas.Holey.Halving.{
  Searched, hit_at, no_hit, scan_lem, IsIncreasing, b_search-Searched,
}
use shm_lru_aging_and_quotas.Holey.Manager.{Manager, pair, add_entry}

-- What `add_entry` can do.
pub data Entered (s : Manager) (key value : ℕ) (r : Bool × Manager) : Type 0 where
  full : s.max ≤ s.n + s.m → r ≡ (false, s) → Entered s key value r
  early :
      s.n + s.m < s.max
      → 0 < s.n
      → key < (s.key_val (s.n - 1)).first
      → r ≡ (false, s)
      → Entered s key value r
  entered :
      (w : Manager)
      → (0 < s.n → (s.key_val (s.n - 1)).first ≤ key)
      → r ≡ (true, w)
      → w.n ≡ s.n
      → w.m ≡ s.m + 1
      → w.blackout_count ≡ s.blackout_count
      → w.n + w.m ≤ s.max
      → w.key_val (s.n + s.m) ≡ pair key value
      → ((p : ℕ) → p ≢ s.n + s.m → w.key_val p ≡ s.key_val p)
      → (w.nouveau_min ≤ key) × (key ≤ w.nouveau_max)
      → Entered s key value r

pub add_entry-Entered :
    (s : Manager) (key value : ℕ)
    → s.max < u32_max
    → s.n + s.m < 2 ^ 32
    → Entered s key value (add_entry s key value)
unfolding add_entry entry_add
add_entry-Entered s key value small counted = elim (Bool-cases (leb s.max (add32 s.n s.m))) [
  | inl e ↦ rw e (full (ground arith) refl)
  | inr e ↦
      let exact : add32 s.m 1 ≡ s.m + 1 = ground arith in
      let real : (add32 s.m 1 == u32_max) ≡ false = ground arith in
      rw e (elim (Bool-cases (s.n == 0)) [
        | inl z ↦
            rw (z, real)
              (entered _ (λ h. ground arith) refl refl exact refl (ground arith) (ground arith)
                (λ p ne. ground arith) (ground arith, ground arith))
        | inr nz ↦ rw nz (elim (Bool-cases (ltb key (s.key_val (s.n - 1)).first)) [
          | inl before ↦ rw before (early (ground arith) (ground arith) (ground arith) refl)
          | inr after ↦
              rw (after, real)
                (entered _ (λ h. ground arith) refl refl exact refl (ground arith) (ground arith)
                  (λ p ne. ground arith) (ground arith, ground arith))
        ])
      ])
]

-- What an update of a key can do to `n` ordered pairs from `lo` on and the `m` new ones after them.
pub data KeyUpdated (key key_update maybe_value : ℕ) (b : Buffer) (lo n m : ℕ) (r : Option Change)
    : Type 0 where
  earlier :
      key_update < key → r ≡ some (unchanged b n) → KeyUpdated key key_update maybe_value b lo n m r
  absent :
      key ≤ key_update
      → ((p : ℕ) → lo ≤ p → p < lo + n + m → (b p).first ≢ key)
      → r ≡ some (unchanged b n)
      → KeyUpdated key key_update maybe_value b lo n m r
  in_place :
      (p : ℕ) (c : Change)
      → key ≤ key_update
      → lo ≤ p
      → lo + n ≤ p + 1
      → p < lo + n + m
      → (b p).first ≡ key
      → r ≡ some c
      → c.code ≡ m
      → c.n ≡ n
      → c.buffer p ≡ pair key_update (value_or maybe_value (b p).second)
      → ((q : ℕ) → q ≢ p → c.buffer q ≡ b q)
      → KeyUpdated key key_update maybe_value b lo n m r
  moved :
      (p : ℕ) (c : Change)
      → key ≤ key_update
      → lo ≤ p
      → p + 1 < lo + n
      → (b p).first ≡ key
      → r ≡ some c
      → c.code ≡ m + 1
      → c.n ≡ n
      → c.buffer p ≡ pair u32_max u32_max
      → c.buffer (lo + n + m) ≡ pair key_update (value_or maybe_value (b p).second)
      → ((q : ℕ) → q ≢ p → q ≢ lo + n + m → c.buffer q ≡ b q)
      → c.hole ≡ pair key (p - lo)
      → KeyUpdated key key_update maybe_value b lo n m r

module _ (key key_update maybe_value : ℕ) (b : Buffer) (lo n m : ℕ) (later : key ≤ key_update) where
  update_old-KeyUpdated :
      (p : ℕ)
      → 0 < n
      → lo + n < 2 ^ 61
      → m + 1 < 2 ^ 32
      → lo ≤ p
      → p < lo + n
      → (b p).first ≡ key
      → KeyUpdated key key_update maybe_value b lo n m
          (some (update_old key_update maybe_value b lo n m p))
  update_old-KeyUpdated p pos low small l h e = elim (ℕ_discrete p (lo + n - 1)) [
    | yes at ↦
        let last : (p == back (lo + n)) ≡ true = ground arith in
        rw last (
          in_place p _ later l (omega arith) (omega arith) e refl refl refl (ground arith)
            (λ q ne. ground arith))
    | no ne ↦
        let inner : (p == back (lo + n)) ≡ false = ground arith in
        rw inner (
          moved p _ later l (omega arith) e refl (omega arith) refl (ground arith) (ground arith)
            (λ q a c. ground arith) (ground arith))
  ]

  update_new-KeyUpdated :
      ((p : ℕ) → lo ≤ p → p < lo + n → (b p).first ≢ key)
      → (o : Option ℕ) → Searched (λ p. (b p).first == key) (lo + n) (lo + n + m) (some o)
      → KeyUpdated key key_update maybe_value b lo n m
          (some (update_new key_update maybe_value b n m o))
  update_new-KeyUpdated none_old o s = elim s [
    | hit_at p l h t r ↦ rw (ap unwrap r) (elim (Bool-cases (maybe_value == u32_max)) [
      | inl e ↦
          in_place p _ later (omega arith) (omega arith) h (ground arith) refl refl refl
            (rw e (ground arith)) (λ q ne. rw e (ground arith))
      | inr e ↦
          in_place p _ later (omega arith) (omega arith) h (ground arith) refl refl refl
            (rw e (ground arith)) (λ q ne. rw e (ground arith))
    ])
    | no_hit all r ↦ rw (ap unwrap r) (
        absent later
          (λ p l h. elim (dec_lt p (lo + n)) [
            | yes old ↦ none_old p l old
            | no new ↦ let miss = all p (omega arith) h in ground (arith, miss)
          ])
          refl)
  ]
    where
      unwrap : Option (Option ℕ) → Option ℕ
      unwrap none = none
      unwrap (some x) = x

-- An update of a key in a buffer whose ordered keys increase without holes, that has at least one ordered
-- pair: an earlier key is refused. No other key is: a key that no pair has changes nothing. Else a pair with the key
-- gets the new key, and the new value unless that is `UINT32_MAX`, and all other pairs stay: the last
-- ordered pair and a new pair in their place, any other as one more new pair, a hole being left and told.
pub entry_key_upate-KeyUpdated :
    (key key_update maybe_value : ℕ) (b : Buffer) (lo n m : ℕ)
    → 0 < n
    → n < 2 ^ 32
    → m + 1 < 2 ^ 32
    → lo < 2 ^ 60
    → IsIncreasing (λ p. (b p).first) lo n
    → KeyUpdated key key_update maybe_value b lo n m
        (entry_key_upate key key_update b lo n m maybe_value false)
unfolding entry_key_upate
entry_key_upate-KeyUpdated key key_update maybe_value b lo n m pos n_small m_small low sorted =
    elim (Bool-cases (ltb key_update key)) [
      | inl e ↦ rw e (earlier (ground arith) refl)
      | inr e ↦ rw e (elim (b_search-Searched key b lo n pos n_small low sorted) [
        | hit_at p l h t r ↦ rw r (
            update_old-KeyUpdated key key_update maybe_value b lo n m (ground arith) p pos
              (omega arith) m_small l h (ground arith))
        | no_hit all r ↦ rw r (
            update_new-KeyUpdated key key_update maybe_value b lo n m (ground arith)
              (λ p l h. let miss = all p l h in ground (arith, miss))
              (scan (λ p. (b p).first == key) m (lo + n))
              (scan_lem (λ p. (b p).first == key) m (lo + n)))
      ])
    ]
