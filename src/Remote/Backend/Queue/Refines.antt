-- ===== src/Remote/Backend/Queue/Refines.antt =====
-- No sequence of calls tells the ring from the bounded queue.
use native.Mathlib.Nat.{mod-lt}
use sub0tiered_cache.Base.{
  ℕ, zero, suc, ◌+◌, ◌-◌, ◌%◌, ◌<◌, ◌≡◌, refl, sym, ap, ◌∙◌, arith, true, false, ◌||◌, List, [],
  ◌∷◌, ◌++◌, update, ◌==◌, Bool-cases, inl, inr, Zero-cases,
}
use sub0tiered_cache.Remote.Backend.{
  FillRequest, WorkItem, MirrorBackend, item_for, submit, pop_front, take_item, drain_ring,
  shutdown,
}
use sub0tiered_cache.Remote.Backend.Queue.{
  IsRing, window, length-window, contents, window-update, window-first, Queue, Op, submits, takes,
  shuts_down, cancelled, call_queue, run_queue, taken_of, call, run, queue_of, Holds,
}

-- The ring's front, where it has one, is the head of its queue.
pub front :
    (b : MirrorBackend)
    → IsRing b
    → 0 < b.ring_size
    → contents b ≡ b.ring b.head ∷ contents (pop_front b)
unfolding pop_front
front b v h =
    ap (window b.ring b.capacity b.head) {x = b.ring_size} {y = suc (b.ring_size - 1)}
      (omega (arith, h))
    ∙ window-first b.ring b.capacity b.head (b.ring_size - 1) v.head_in

pub pop_front-IsRing : (b : MirrorBackend) → IsRing b → IsRing (pop_front b)
unfolding pop_front
pop_front-IsRing b v = record {
  some_room = v.some_room;
  head_in = mod-lt (b.head + 1) v.some_room;
  size_in = omega (arith, v.size_in);
}

popped : (b : MirrorBackend) (n : ℕ) → b.ring_size ≡ suc n → (pop_front b).ring_size ≡ n
unfolding pop_front
popped b n e = omega (arith, e)

Holds_of_popped : (b d : MirrorBackend) (q : Queue) → Holds (pop_front b) d q → Holds b d q
unfolding pop_front
Holds_of_popped b d q h = record {
  ring = h.ring;
  queue = h.queue;
  capacity = h.capacity;
  sources = h.sources;
}

-- The loop of `shutdown` gives the queue, and leaves none of it.
pub drain_ring_lem :
    (n : ℕ) (b : MirrorBackend)
    → IsRing b
    → b.ring_size ≡ n
    → ((drain_ring n b).1 ≡ contents b)
      × Holds b (drain_ring n b).0 (record { items = []; closed = b.shutting_down })
unfolding drain_ring pop_front
drain_ring_lem zero b v e = (
  ap (window b.ring b.capacity b.head) (sym e),
  record {
    ring = v;
    queue =
        ap
          (λ (k : ℕ). record {
            items = window b.ring b.capacity b.head k;
            closed = b.shutting_down;
          })
          e;
    capacity = refl;
    sources = refl;
  },
)
drain_ring_lem (suc n) b v e =
    let (items, h) = drain_ring_lem n (pop_front b) (pop_front-IsRing b v) (popped b n e) in
    (
      ap (λ (xs : List WorkItem). b.ring b.head ∷ xs) items ∙ sym (front b v (omega (arith, e))),
      Holds_of_popped b _ _ h,
    )

-- A request written behind the ring's last is the last of the contents.
pub contents-behind :
    (b : MirrorBackend) (r : FillRequest)
    → IsRing b
    → b.ring_size < b.capacity
    → window
        (update b.ring ((b.head + b.ring_size) % b.capacity) (item_for b r))
        b.capacity
        b.head
        (b.ring_size + 1)
      ≡ contents b ++ item_for b r ∷ []
contents-behind b r v room =
    ap
      (window (update b.ring ((b.head + b.ring_size) % b.capacity) (item_for b r)) b.capacity
        b.head)
      {x = b.ring_size + 1} {y = suc b.ring_size} (omega arith)
    ∙ window-update b.ring b.capacity b.head b.ring_size (item_for b r) v.head_in room

module _ (b : MirrorBackend) (v : IsRing b) where
  pub submits_refines :
      (r : FillRequest)
      → (let (c, reply) = call b (submits r) in
          let (q, reply') = call_queue b.capacity b.sources (queue_of b) (submits r) in
          (reply ≡ reply') × Holds b c q)
  unfolding call submit call_queue
  submits_refines r = elim (Bool-cases (b.shutting_down || b.ring_size == b.capacity)) [
    | inl e ↦
        rw (length-window b.ring b.capacity b.head b.ring_size, e)
          (
            refl,
            record {
              ring = record { some_room = v.some_room; head_in = v.head_in; size_in = v.size_in };
              queue = refl;
              capacity = refl;
              sources = refl;
            },
          )
    | inr e ↦
        let room : b.ring_size < b.capacity = ground (arith, v.size_in) in
        rw (length-window b.ring b.capacity b.head b.ring_size, e)
          (
            refl,
            record {
              ring = record {
                some_room = v.some_room;
                head_in = v.head_in;
                size_in = omega (arith, room);
              };
              queue =
                  ap (λ (xs : List WorkItem). record { items = xs; closed = b.shutting_down })
                    (contents-behind b r v room);
              capacity = refl;
              sources = refl;
            },
          )
  ]

  takes_refines :
      let (c, reply) = call b takes in
      let (q, reply') = call_queue b.capacity b.sources (queue_of b) takes in
      (reply ≡ reply') × Holds b c q
  unfolding call take_item taken_of call_queue pop_front
  takes_refines = elim (Zero-cases b.ring_size) [
    | inl e ↦ rw e (
      refl,
      record {
        ring = record { some_room = v.some_room; head_in = v.head_in; size_in = omega arith };
        queue = refl;
        capacity = refl;
        sources = refl;
      },
    )
    | inr h ↦
        let w = pop_front-IsRing b v in
        let filled : (b.ring_size == 0) ≡ false = ground arith in
        rw (filled, front b v h)
          (
            refl,
            record {
              ring = record { some_room = w.some_room; head_in = w.head_in; size_in = w.size_in };
              queue = refl;
              capacity = refl;
              sources = refl;
            },
          )
  ]

  pub shuts_down_refines :
      let (c, reply) = call b shuts_down in
      let (q, reply') = call_queue b.capacity b.sources (queue_of b) shuts_down in
      (reply ≡ reply') × Holds b c q
  unfolding call shutdown call_queue
  shuts_down_refines = elim (Bool-cases b.shutting_down) [
    | inl e ↦ rw e (
      refl,
      record {
        ring = record { some_room = v.some_room; head_in = v.head_in; size_in = v.size_in };
        queue = refl;
        capacity = refl;
        sources = refl;
      },
    )
    | inr e ↦
        let c = record b { shutting_down = true } in
        let (items, h) =
          drain_ring_lem b.ring_size c
            (record { some_room = v.some_room; head_in = v.head_in; size_in = v.size_in }) refl in
        rw e (
          ap cancelled items,
          record { ring = h.ring; queue = h.queue; capacity = h.capacity; sources = h.sources },
        )
  ]

  -- A call on the ring answers as the call on the bounded queue, and leaves the ring holding the
  -- queue that the other leaves.
  pub call_refines :
      (op : Op)
      → (let (c, reply) = call b op in
          let (q, reply') = call_queue b.capacity b.sources (queue_of b) op in
          (reply ≡ reply') × Holds b c q)
  call_refines (submits r) = submits_refines r
  call_refines takes = takes_refines
  call_refines shuts_down = shuts_down_refines

-- No sequence of submissions, takes by workers and shutdowns tells a backend from a bounded
-- queue that is closed for good by the first shutdown: which requests are accepted, which item
-- each worker takes, and which items a shutdown cancels, are the same.
pub run_refines :
    (ops : List Op) (b : MirrorBackend)
    → IsRing b
    → run b ops ≡ run_queue b.capacity b.sources (queue_of b) ops
unfolding run run_queue
run_refines [] b v = refl
run_refines (op ∷ ops) b v =
    let (same, h) = call_refines b v op in
    rw (run_refines ops (call b op).0 h.ring, h.queue, h.capacity, h.sources, same) refl
