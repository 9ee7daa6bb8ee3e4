-- ===== src/Remote/Backend/Queue.antt =====
-- The ring of include/sub0tieredcache/remote/mirror_backend.hpp against a bounded queue.
pub mod Refines
use native.Mathlib.Nat.{mod-add-mod, mod-eq_of_lt, mod-eq-sub-mod, add-zero, mod-lt}
use mathlib.Core.Path.{ap₂}
use sub0tiered_cache.Base.{
  ℕ, zero, suc, ◌+◌, ◌-◌, ◌%◌, ◌≤◌, ◌<◌, ◌≡◌, ◌≢◌, refl, sym, ap, ◌∙◌, subst, arith, Bool, true,
  false, ◌||◌, not, Option, none, some, List, [], ◌∷◌, ◌++◌, length, length-append, ◌⊎◌, update,
  update_self, update_ne, ◌==◌, if◌then◌else◌, dec_lt, Bool-cases, inl, inr,
}
use sub0tiered_cache.Remote.Backend.{
  FillRequest, SourceEntry, WorkItem, MirrorBackend, MirrorBackendConfig, find_source, item_for,
  create, submit, pop_front, take_item, drain_ring, shutdown,
}

-- The ring is not empty of positions, and its head and its size are within it.
pub record IsRing (b : MirrorBackend) : Type 0 where
  pub some_room : 0 < b.capacity
  pub head_in : b.head < b.capacity
  pub size_in : b.ring_size ≤ b.capacity

module _ (ring : ℕ → WorkItem) (cap : ℕ) where
  -- What stands at the `n` positions from `head` on, modulo `cap`.
  abbrev pub window : (head n : ℕ) → List WorkItem
  window head zero = []
  window head (suc n) = window head n ++ ring ((head + n) % cap) ∷ []

  pub length-window : (head n : ℕ) → length (window head n) ≡ n
  length-window head zero = refl
  length-window head (suc n) =
      omega
        (arith, length-append (window head n) (ring ((head + n) % cap) ∷ []), length-window head n)

  -- The first item of a window stands at its head, and the rest is the window behind it.
  pub window-first :
      (head n : ℕ) → head < cap → window head (suc n) ≡ ring head ∷ window ((head + 1) % cap) n
  window-first head zero p = ap (λ (i : ℕ). ring i ∷ []) (rw add-zero (mod-eq_of_lt p))
  window-first head (suc n) p =
      ap₂ (λ (xs : List WorkItem) (i : ℕ). xs ++ ring i ∷ []) (window-first head n p)
        (sym (mod-add-mod (head + 1) cap n ∙ ap (λ (i : ℕ). i % cap) (omega arith)))

-- The requests that wait, oldest first.
abbrev pub contents : MirrorBackend → List WorkItem
contents b = window b.ring b.capacity b.head b.ring_size

-- A position below twice the capacity, reduced.
reduced : (cap x : ℕ) → x < cap + cap → (x % cap ≡ x) × (x < cap) ⊎ (x % cap + cap ≡ x) × (cap ≤ x)
reduced cap x p = elim (dec_lt x cap) [
  | yes below ↦ inl (mod-eq_of_lt below, below)
  | no above ↦
      let here : cap ≤ x = omega arith in
      inr (
        omega (
          arith,
          mod-eq-sub-mod here,
          mod-eq_of_lt {n = x - cap} {m = cap} (omega (arith, p, here)),
        ),
        here,
      )
]

-- Two positions of a window are different ones of the ring.
apart : (cap head i j : ℕ) → head < cap → i < j → j < cap → (head + i) % cap ≢ (head + j) % cap
apart cap head i j p q r =
    let a = reduced cap (head + i) (omega (arith, p, q, r)) in
    let b = reduced cap (head + j) (omega (arith, p, r)) in
    λ same. ground (arith, a, b, p, q, r, same)

-- A write behind the window leaves its items alone.
window_behind :
    (ring : ℕ → WorkItem) (cap head j n : ℕ) (x : WorkItem)
    → head < cap
    → j < cap
    → n ≤ j
    → window (update ring ((head + j) % cap) x) cap head n ≡ window ring cap head n
window_behind ring cap head j zero x p q r = refl
window_behind ring cap head j (suc n) x p q r =
    ap₂ (λ (xs : List WorkItem) (y : WorkItem). xs ++ y ∷ [])
      (window_behind ring cap head j n x p q (omega (arith, r)))
      (update_ne ring ((head + j) % cap) x ((head + n) % cap) (apart cap head n j p r q))

-- A write just behind a window extends it by that item.
window-update :
    (ring : ℕ → WorkItem) (cap head n : ℕ) (x : WorkItem)
    → head < cap
    → n < cap
    → window (update ring ((head + n) % cap) x) cap head (suc n) ≡ window ring cap head n ++ x ∷ []
window-update ring cap head n x p q =
    ap₂ (λ (xs : List WorkItem) (y : WorkItem). xs ++ y ∷ [])
      (window_behind ring cap head n n x p q (omega arith)) (update_self ring ((head + n) % cap) x)

-- The bounded queue, and the three calls that move items through it.
pub record Queue : Type 0 where
  pub items : List WorkItem
  pub closed : Bool

pub data Op : Type 0 where
  submits : FillRequest → Op
  takes : Op
  shuts_down : Op

-- What a call answers: whether a request was accepted, the item taken, the items to cancel.
pub data Reply : Type 0 where
  accepted : Bool → Reply
  taken : Option WorkItem → Reply
  cancelled : List WorkItem → Reply

module _ (cap : ℕ) (sources : List SourceEntry) where
  unfoldable pub call_queue : Queue → Op → Queue × Reply
  call_queue q (submits r) = if q.closed || length q.items == cap then (q, accepted false) else (
    record q {
      items = q.items ++ record { request = r; mirror = find_source sources r.source } ∷ [];
    },
    accepted true,
  )
  call_queue q takes = elim q.items [
    | [] ↦ (q, taken none)
    | x ∷ rest ↦ (record q { items = rest }, taken (some x))
  ]
  call_queue q shuts_down =
      if q.closed
      then (q, cancelled [])
      else (record { items = []; closed = true }, cancelled q.items)

  unfoldable pub run_queue : Queue → List Op → List Reply
  run_queue q [] = []
  run_queue q (op ∷ ops) = let (r, reply) = call_queue q op in reply ∷ run_queue r ops

unfoldable pub taken_of : MirrorBackend → Option (WorkItem × MirrorBackend) → MirrorBackend × Reply
taken_of b none = (b, taken none)
taken_of b (some (item, c)) = (c, taken (some item))

unfoldable pub call : MirrorBackend → Op → MirrorBackend × Reply
call b (submits r) = let (c, ok) = submit b r in (c, accepted ok)
call b takes = taken_of b (take_item b)
call b shuts_down = let (c, items) = shutdown b in (c, cancelled items)

-- The replies to the calls in order.
unfoldable pub run : MirrorBackend → List Op → List Reply
run b [] = []
run b (op ∷ ops) = let (c, reply) = call b op in reply ∷ run c ops

abbrev pub queue_of : MirrorBackend → Queue
queue_of b = record { items = contents b; closed = b.shutting_down }

-- `d` holds the queue and has the ring's size and the sources of `b`.
pub record Holds (b d : MirrorBackend) (q : Queue) : Type 0 where
  pub ring : IsRing d
  pub queue : queue_of d ≡ q
  pub capacity : d.capacity ≡ b.capacity
  pub sources : d.sources ≡ b.sources
