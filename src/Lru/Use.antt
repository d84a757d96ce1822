-- ===== src/Lru/Use.antt =====
-- What the element operations of src/node_shm_LRU.h do to the list of use and to the free list.
use shm_lru_aging_and_quotas.Base.Lists.{occurs, occurs-append, length, length-append}
use shm_lru_aging_and_quotas.Base.Tests.{
  ==_of_ne, ℕ, ◌+◌, ◌*◌, ◌%◌, ◌^◌, ◌≤◌, ◌<◌, ◌≡◌, ◌≢◌, refl, true, false, some, List, [], ◌∷◌, ◌++◌,
  arith,
}
use shm_lru_aging_and_quotas.Base.Words.{u32_max}
use shm_lru_aging_and_quotas.Lru.{
  Region, Cache, relink, push_front, touch, check_offset, get_el, get_el_untouched, update_el,
  set_payload, set_when, fine, deleted,
}
use shm_lru_aging_and_quotas.Lru.Chain.{Free, prev-has}
use shm_lru_aging_and_quotas.Lru.Layout.{Layout, Layout-frame, Layout-touch}

-- `order` are the elements in use, the last used first; `free` is the free list.
pub record IsCache {T : Type 0} (c : Cache T) (order free : List ℕ) : Type 0 where
  pub layout : Layout c.region c.step c.region_size order free
  pub counted : c.count_free ≡ length free
  pub few : length order + length free < 2 ^ 16

-- a free element has no `prev`
pub Free-prev :
    (m : Region) (p : ℕ) (xs : List ℕ)
    → Free m p xs
    → (x : ℕ) → 0 < occurs x xs
    → (m x).prev ≡ u32_max
Free-prev m p [] f x h = absurd (omega arith)
Free-prev m p (y ∷ ys) f x h = ground (arith, Free-prev m y ys f.2 x)

module _ {T : Type 0} where
  pub check_offset-fits :
      (c : Cache T) (x : ℕ)
      → x ≤ c.region_size
      → x % c.step ≡ 0
      → check_offset c x ≡ (true, record c { reason = fine })
  unfolding check_offset
  check_offset-fits c x le e = ground arith

module _ {T : Type 0} (c : Cache T) (xs ys free : List ℕ) (x : ℕ)
    (valid : IsCache c (xs ++ (x ∷ ys)) free) where
  x_in : 0 < occurs x (xs ++ (x ∷ ys)) + occurs x free
  x_in = ground (arith, occurs-append x xs (x ∷ ys))

  prev_in : 0 < occurs (c.region x).prev (0 ∷ xs)
  prev_in = prev-has c.region x ys c.step 0 xs valid.layout.linked

  -- an element in use is not marked as deleted
  pub live : (c.region x).prev ≢ u32_max
  live = ground (
    arith,
    prev_in,
    valid.layout.fits (c.region x).prev,
    occurs-append (c.region x).prev xs (x ∷ ys),
  )

  pub touched : Region → ℕ → Region
  touched m now = set_when (push_front (relink m (m x).prev (m x).next) x) x now

  pub checked : check_offset c x ≡ (true, record c { reason = fine })
  checked = let at = valid.layout.fits x x_in in check_offset-fits c x at.1 at.2

  touch-live : (now : ℕ) → touch c.region x now ≡ (true, touched c.region now)
  unfolding touch touched
  touch-live now = rw (==_of_ne (c.region x).prev u32_max live) refl

  touched-IsCache :
      (now : ℕ)
      → IsCache (record c { reason = fine; region = touched c.region now }) (x ∷ (xs ++ ys)) free
  unfolding touched
  touched-IsCache now = record {
    layout =
        Layout-frame (Layout-touch c.region c.step c.region_size xs ys free x valid.layout)
          (λ a. ground arith) (λ a. ground arith);
    counted = valid.counted;
    few = omega (arith, valid.few, length-append xs (x ∷ ys), length-append xs ys);
  }

  touched-payload : (now a : ℕ) → (touched c.region now a).payload ≡ (c.region a).payload
  unfolding touched relink push_front
  touched-payload now a = ground arith

  touched-when : (now : ℕ) → (touched c.region now x).when ≡ now
  unfolding touched
  touched-when now = ground arith

  -- In a well-formed cache, reading an element in use gives its bytes and the code 0, stamps it
  -- with the time, and makes it the first of the list of use; the order of the others, the free
  -- list and all the bytes stay.
  pub get_el_lem :
      (now : ℕ)
      → (w : Cache T) × (get_el c x now ≡ (0, some (c.region x).payload, w))
        × IsCache w (x ∷ (xs ++ ys)) free
        × ((w.region x).when ≡ now)
        × ((a : ℕ) → (w.region a).payload ≡ (c.region a).payload)
  unfolding get_el
  get_el_lem now = (
    record c { reason = fine; region = touched c.region now },
    rw (checked, touch-live now) refl,
    touched-IsCache now,
    touched-when now,
    touched-payload now,
  )

  -- In a well-formed cache, an update of an element in use writes the bytes, which a read then
  -- gives, leaves the bytes of all others, and makes the element the first of the list of use.
  pub get_el_untouched-update_el :
      (now : ℕ) (bytes : List ℕ)
      → (w : Cache T) × (update_el c x now bytes ≡ (true, w))
        × IsCache w (x ∷ (xs ++ ys)) free
        × (get_el_untouched w x ≡ (0, some bytes, w))
        × ((a : ℕ) → a ≢ x → (w.region a).payload ≡ (c.region a).payload)
  unfolding update_el get_el_untouched
  get_el_untouched-update_el now bytes =
      let w = record c { reason = fine; region = set_payload (touched c.region now) x bytes } in
      let at = valid.layout.fits x x_in in
      let rest = touched-IsCache now in
      (
        w,
        rw (checked, touch-live now) refl,
        record {
          layout = Layout-frame rest.layout (λ a. ground arith) (λ a. ground arith);
          counted = rest.counted;
          few = rest.few;
        },
        rw (check_offset-fits w x at.1 at.2) (ground arith),
        λ a ne. ground (arith, touched-payload now a),
      )

module _ {T : Type 0} (c : Cache T) (order free : List ℕ) (x : ℕ) (valid : IsCache c order free)
    (x_free : 0 < occurs x free) where
  pub free_checked : check_offset c x ≡ (true, record c { reason = fine })
  free_checked = let at = valid.layout.fits x (omega arith) in check_offset-fits c x at.1 at.2

  -- In a well-formed cache, an element on the free list is seen to be deleted: a read gives its
  -- bytes with the code 1, an update is refused, and neither changes more than the reason.
  pub get_el-update_el_free :
      (now : ℕ) (bytes : List ℕ)
      → (get_el c x now ≡ (1, some (c.region x).payload, record c { reason = fine }))
        × (update_el c x now bytes ≡ (false, record c { reason = deleted }))
  unfolding get_el update_el touch
  get_el-update_el_free now bytes =
      let mark = Free-prev c.region (2 * c.step) free valid.layout.freed x x_free in
      (rw (free_checked, mark) refl, rw (free_checked, mark) refl)
