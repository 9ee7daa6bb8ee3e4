-- ===== src/Remote/Backend/Delivery/Ops.antt =====
-- What a take, a delivery and a shutdown do to the ring and to the counters.
use mathlib.Core.List.{append-nil}
use sub0tiered_cache.Base.{
  ℕ, zero, suc, ◌+◌, ◌-◌, ◌<◌, ◌≡◌, ◌≢◌, refl, sym, ap, ◌∙◌, subst, arith, Bool, true, false, ◌||◌,
  Option, none, some, List, [], ◌∷◌, ◌++◌, ◌==◌, if◌then◌else◌, Bool-cases, inl, inr, Zero-cases,
}
use sub0tiered_cache.Status.{MempageStatus}
use sub0tiered_cache.Remote.Backend.{
  FillRequest, WorkItem, MirrorBackend, MirrorBackendStats, Completion, ReadOutcome, submit,
  take_item, perform, shutdown, drain_ring, cancel, pop_front, is_ok, report, count_result,
  item_for,
}
use sub0tiered_cache.Remote.Backend.Queue.{Queue, IsRing, contents}
use sub0tiered_cache.Remote.Backend.Queue.Refines.{
  front, pop_front-IsRing, drain_ring_lem, contents-behind,
}

-- A take moves the oldest item to the worker.
pub record TakesFront (b : MirrorBackend) (item : WorkItem) (c : MirrorBackend) : Type 0 where
  pub contents_of : contents b ≡ item ∷ contents c
  pub ring : IsRing c
  pub waits : b.ring_size ≢ 0
  pub size : b.ring_size ≡ suc c.ring_size
  pub closed : c.shutting_down ≡ b.shutting_down
  pub stats : c.stats ≡ record (b.stats) { in_flight = b.stats.in_flight + 1 }

abbrev pub after_take : MirrorBackend → MirrorBackend
after_take b = record (pop_front b) {
  stats = record (b.stats) { in_flight = b.stats.in_flight + 1 };
}

take_front :
    (b : MirrorBackend) → IsRing b → 0 < b.ring_size → TakesFront b (b.ring b.head) (after_take b)
unfolding pop_front
take_front b v h =
    let w = pop_front-IsRing b v in
    record {
      contents_of = front b v h;
      ring = record { some_room = w.some_room; head_in = w.head_in; size_in = w.size_in };
      waits = λ z. omega (arith, z, h);
      size = omega (arith, h);
      closed = refl;
      stats = refl;
    }

pub take_item-some :
    (b : MirrorBackend) → 0 < b.ring_size → take_item b ≡ some (b.ring b.head, after_take b)
unfolding take_item
take_item-some b h = let filled : (b.ring_size == 0) ≡ false = ground arith in rw filled refl

take_item-none : (b : MirrorBackend) → b.ring_size ≡ 0 → take_item b ≡ none
unfolding take_item
take_item-none b z = rw z refl

pub take_item_lem :
    (b c : MirrorBackend) (item : WorkItem)
    → IsRing b
    → take_item b ≡ some (item, c)
    → TakesFront b item c
take_item_lem b c item v e = elim (Zero-cases b.ring_size) [
  | inl z ↦ absurd (cc (take_item-none b z))
  | inr h ↦
      let f = take_item-some b h in
      subst (λ (p : WorkItem × MirrorBackend). TakesFront b p.0 p.1) {y = (item, c)} (cc (e, f))
        (take_front b v h)
]

-- A delivery: for its token, by what it leaves alone, and one more result counted.
pub record Delivers (b c : MirrorBackend) (item : WorkItem) (d : Completion) : Type 0 where
  pub contents_of : contents c ≡ contents b
  pub ring : IsRing b → IsRing c
  pub closed : c.shutting_down ≡ b.shutting_down
  pub size : c.ring_size ≡ b.ring_size
  pub token : d.token ≡ item.request.token
  pub accepted : c.stats.accepted ≡ b.stats.accepted
  pub delivered :
      c.stats.completed_ok + c.stats.short_reads + c.stats.errors + c.stats.cancelled
      ≡ suc (b.stats.completed_ok + b.stats.short_reads + b.stats.errors + b.stats.cancelled)

-- The counters alone differ.
counted :
    (b : MirrorBackend) (item : WorkItem) (s : MirrorBackendStats) (status : MempageStatus)
    (bytes : ℕ)
    → s.accepted ≡ b.stats.accepted
    → s.completed_ok + s.short_reads + s.errors + s.cancelled
      ≡ suc (b.stats.completed_ok + b.stats.short_reads + b.stats.errors + b.stats.cancelled)
    → Delivers b
        (record b { stats = s })
        item
        (record { token = item.request.token; status = status; bytes = bytes })
counted b item s status bytes a n = record {
  contents_of = refl;
  ring = λ v. record { some_room = v.some_room; head_in = v.head_in; size_in = v.size_in };
  closed = refl;
  size = refl;
  token = refl;
  accepted = a;
  delivered = n;
}

count_result_lem :
    (status : MempageStatus) (bytes size : ℕ) (s : MirrorBackendStats)
    → (let t = count_result status bytes size s in
        (t.accepted ≡ s.accepted)
        × (t.in_flight ≡ s.in_flight - 1)
        × (t.completed_ok + t.short_reads + t.errors + t.cancelled
            ≡ suc (s.completed_ok + s.short_reads + s.errors + s.cancelled)))
unfolding count_result
count_result_lem status bytes size s = elim (Bool-cases (is_ok status)) [
  | inl e ↦ elim (Bool-cases (bytes == size)) [
    | inl f ↦ rw (e, f) (refl, refl, omega arith)
    | inr f ↦ rw (e, f) (refl, refl, omega arith)
  ]
  | inr e ↦ rw e (refl, refl, omega arith)
]

perform-none :
    (b : MirrorBackend) (item : WorkItem) (outcome : ReadOutcome)
    → item.mirror ≡ none
    → perform b item outcome ≡ (
      record b {
        stats = record (b.stats) { errors = b.stats.errors + 1; in_flight = b.stats.in_flight - 1 };
      },
      record { token = item.request.token; status = MempageStatus.invalid_argument; bytes = 0 },
    )
unfolding perform
perform-none b item outcome e = rw e refl

perform-some :
    (b : MirrorBackend) (item : WorkItem) (outcome : ReadOutcome) (m : ℕ)
    → item.mirror ≡ some m
    → perform b item outcome ≡ (
      record b {
        stats = count_result (report outcome).0 (report outcome).1 item.request.size b.stats;
      },
      record {
        token = item.request.token;
        status = (report outcome).0;
        bytes = (report outcome).1;
      },
    )
unfolding perform
perform-some b item outcome m e = rw e refl

pub perform_lem :
    (b : MirrorBackend) (item : WorkItem) (outcome : ReadOutcome)
    → (let (c, d) = perform b item outcome in
        Delivers b c item d × (c.stats.in_flight ≡ b.stats.in_flight - 1))
perform_lem b item outcome = by_mirror item.mirror refl
  where
    by_mirror :
        (m : Option ℕ)
        → item.mirror ≡ m
        → (let (c, d) = perform b item outcome in
            Delivers b c item d × (c.stats.in_flight ≡ b.stats.in_flight - 1))
    by_mirror none e =
        rw (perform-none b item outcome e) (counted b item _ _ _ refl (omega arith), refl)
    by_mirror (some m) e =
        let (a, f, n) =
          count_result_lem (report outcome).0 (report outcome).1 item.request.size b.stats in
        rw (perform-some b item outcome m e) (counted b item _ _ _ a n, f)

pub cancel_lem :
    (b : MirrorBackend) (item : WorkItem)
    → (let (c, d) = cancel b item in Delivers b c item d × (c.stats.in_flight ≡ b.stats.in_flight))
unfolding cancel
cancel_lem b item = (counted b item _ _ _ refl (omega arith), refl)

-- A submission: what it leaves waiting, and what it counts.
pub record Submits (b c : MirrorBackend) (r : FillRequest) (ok : Bool) : Type 0 where
  pub contents_of : contents c ≡ (if ok then contents b ++ item_for b r ∷ [] else contents b)
  pub ring : IsRing c
  pub closed : c.shutting_down ≡ true → c.ring_size ≡ b.ring_size
  pub still : c.shutting_down ≡ b.shutting_down
  pub accepted : c.stats.accepted ≡ (if ok then 1 else 0) + b.stats.accepted
  pub in_flight : c.stats.in_flight ≡ b.stats.in_flight
  pub delivered :
      c.stats.completed_ok + c.stats.short_reads + c.stats.errors + c.stats.cancelled
      ≡ b.stats.completed_ok + b.stats.short_reads + b.stats.errors + b.stats.cancelled

pub submit_lem :
    (b : MirrorBackend) (r : FillRequest) → IsRing b → Submits b (submit b r).0 r (submit b r).1
unfolding submit
submit_lem b r v = elim (Bool-cases (b.shutting_down || b.ring_size == b.capacity)) [
  | inl e ↦ rw e (record {
    contents_of = refl;
    ring = record { some_room = v.some_room; head_in = v.head_in; size_in = v.size_in };
    closed = λ _. refl;
    still = refl;
    accepted = omega arith;
    in_flight = refl;
    delivered = refl;
  })
  | inr e ↦
      let room : b.ring_size < b.capacity = ground (arith, v.size_in) in
      let open_ : b.shutting_down ≡ false = ground arith in
      rw e (record {
        contents_of = contents-behind b r v room;
        ring = record {
          some_room = v.some_room;
          head_in = v.head_in;
          size_in = omega (arith, room);
        };
        closed = λ shut. cc;
        still = refl;
        accepted = omega arith;
        in_flight = refl;
        delivered = refl;
      })
]

-- A shutdown: it takes all that wait, once, and counts nothing.
pub record Shuts (b c : MirrorBackend) (items : List WorkItem) : Type 0 where
  pub contents_of : contents b ≡ items ++ contents c
  pub ring : IsRing c
  pub closed : c.shutting_down ≡ true
  pub emptied : (b.shutting_down ≡ true → b.ring_size ≡ 0) → c.ring_size ≡ 0
  pub stats : c.stats ≡ b.stats

drain_ring-stats : (n : ℕ) (b : MirrorBackend) → (drain_ring n b).0.stats ≡ b.stats
unfolding drain_ring pop_front
drain_ring-stats zero b = refl
drain_ring-stats (suc n) b = drain_ring-stats n (pop_front b)

drain_ring-size : (n : ℕ) (b : MirrorBackend) → (drain_ring n b).0.ring_size ≡ b.ring_size - n
unfolding drain_ring pop_front
drain_ring-size zero b = omega arith
drain_ring-size (suc n) b = omega (arith, drain_ring-size n (pop_front b))

pub shutdown_lem : (b : MirrorBackend) → IsRing b → Shuts b (shutdown b).0 (shutdown b).1
unfolding shutdown
shutdown_lem b v = elim (Bool-cases b.shutting_down) [
  | inl e ↦ rw e (record {
    contents_of = refl;
    ring = record { some_room = v.some_room; head_in = v.head_in; size_in = v.size_in };
    closed = refl;
    emptied = λ f. f refl;
    stats = refl;
  })
  | inr e ↦
      let c = record b { shutting_down = true } in
      let (items, h) =
        drain_ring_lem b.ring_size c
          (record { some_room = v.some_room; head_in = v.head_in; size_in = v.size_in }) refl in
      rw e (record {
        contents_of =
            rw (items, ap (λ (q : Queue). q.items) h.queue) (sym (append-nil (contents c)));
        ring = record {
          some_room = h.ring.some_room;
          head_in = h.ring.head_in;
          size_in = h.ring.size_in;
        };
        closed = ap (λ (q : Queue). q.closed) h.queue;
        emptied = λ _. drain_ring-size b.ring_size c ∙ omega arith;
        stats = drain_ring-stats b.ring_size c;
      })
]
