-- ===== src/AtomicStack/Threads.antt =====
-- Threads that pop and push at the list of c_experiments/src/atomic_stack.h at once: each step makes one access to
-- the head or to the `_next` of an element. The counts, which do not touch the list, are left out.
use shm_lru_aging_and_quotas.Base.Mem.{update}
use shm_lru_aging_and_quotas.Base.Tests.{ℕ, ◌≡◌, ◌≢◌, Bool, true, List, [], ◌∷◌, ◌++◌}
use shm_lru_aging_and_quotas.Base.Words.{u32_max}
use shm_lru_aging_and_quotas.AtomicStack.{FreeStack, push_link}

-- where a thread is: between calls; in the loop of `pop_number` with the header offset last seen, before or after
-- it has read the `_next` there; or before the exchange of a push
pub data Local : Type 0 where
  resting : Local
  looking : (hdr_offset : ℕ) → Local
  looked : (hdr_offset next_offset : ℕ) → Local
  linked : (el_offset hdr_offset : ℕ) → Local

-- the threads by number, and the offsets handed out and given back, in order
pub record Sharing : Type 0 where
  pub stack : FreeStack
  pub threads : ℕ → Local
  pub handed : List ℕ
  pub returned : List ℕ

abbrev pub moved : Sharing → (i : ℕ) → Local → Sharing
moved s i l = record s { threads = update s.threads i l }

abbrev pub with_head : Sharing → ℕ → Sharing
with_head s h = record s { stack = record s.stack { head = h } }

-- `pushers` says whether threads push at all
pub data Access (pushers : Bool) (s : Sharing) : Sharing → Type 0 where
  loads :
      (i : ℕ) → s.threads i ≡ Local.resting → Access pushers s (moved s i (looking s.stack.head))
  gives_up : (i : ℕ) → s.threads i ≡ looking u32_max → Access pushers s (moved s i Local.resting)
  reads :
      (i hdr : ℕ)
      → s.threads i ≡ looking hdr
      → hdr ≢ u32_max
      → Access pushers s (moved s i (looked hdr (s.stack.next hdr)))
  takes :
      (i hdr nxt : ℕ)
      → s.threads i ≡ looked hdr nxt
      → s.stack.head ≡ hdr
      → Access pushers s
          (record (with_head (moved s i (looking hdr)) nxt) { handed = s.handed ++ (hdr ∷ []) })
  misses :
      (i hdr nxt : ℕ)
      → s.threads i ≡ looked hdr nxt
      → s.stack.head ≢ hdr
      → Access pushers s (moved s i (looking s.stack.head))
  leaves : (i hdr : ℕ) → s.threads i ≡ looking hdr → Access pushers s (moved s i Local.resting)
  links :
      (i o : ℕ)
      → pushers ≡ true
      → s.threads i ≡ Local.resting
      → Access pushers s
          (moved (record s { stack = push_link s.stack o }) i (linked o s.stack.head))
  swaps :
      (i o hdr : ℕ)
      → s.threads i ≡ linked o hdr
      → s.stack.head ≡ hdr
      → Access pushers s
          (record (with_head (moved s i Local.resting) o) { returned = s.returned ++ (o ∷ []) })
  swaps_later :
      (i o hdr : ℕ)
      → s.threads i ≡ linked o hdr
      → s.stack.head ≢ hdr
      → Access pushers s (moved s i (linked o s.stack.head))

pub data Accesses (pushers : Bool) (s : Sharing) : Sharing → Type 0 where
  begin : Accesses pushers s s
  access : {t u : Sharing} → Accesses pushers s t → Access pushers t u → Accesses pushers s u

abbrev pub at_rest : FreeStack → Sharing
at_rest stack = record { stack = stack; threads = λ i. Local.resting; handed = []; returned = [] }
