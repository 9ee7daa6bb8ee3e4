-- ===== src/Remote/Backend/Delivery/Exact.antt =====
-- Every accepted request is delivered exactly once.
use sub0tiered_cache.Base.{
  ℕ, suc, ◌+◌, ◌-◌, ◌≡◌, refl, sym, ap, ◌∙◌, subst, arith, Bool, true, false, ◌||◌, none, some,
  List, [], ◌∷◌, ◌++◌, length, length-append, ◌==◌, if◌then◌else◌, Bool-cases, inl, inr,
}
use sub0tiered_cache.Remote.Backend.{
  FillRequest, WorkItem, MirrorBackend, MirrorBackendConfig, create, idle_backend, Completion,
  is_known, find_source, register_mirror, item_for,
}
use sub0tiered_cache.Remote.Backend.Queue.{IsRing, contents}
use sub0tiered_cache.Remote.Backend.Delivery.Ops.{
  TakesFront, Delivers, take_item_lem, perform_lem, cancel_lem, Submits, submit_lem, Shuts,
  shutdown_lem,
}
use sub0tiered_cache.Remote.Backend.Delivery.{
  World, accept, Step, registers, submits, takes, performs, shuts_down, cancels, Reach, here,
  further,
}

-- How often a token occurs among items, deliveries, tokens.
abbrev pub among_items : ℕ → List WorkItem → ℕ
among_items token [] = 0
among_items token (x ∷ xs) = (if x.request.token == token then 1 else 0) + among_items token xs

abbrev pub among_deliveries : ℕ → List Completion → ℕ
among_deliveries token [] = 0
among_deliveries token (c ∷ cs) = (if c.token == token then 1 else 0) + among_deliveries token cs

abbrev pub among : ℕ → List ℕ → ℕ
among token [] = 0
among token (t ∷ ts) = (if t == token then 1 else 0) + among token ts

pub among_items-append :
    (token : ℕ) (xs ys : List WorkItem)
    → among_items token (xs ++ ys) ≡ among_items token xs + among_items token ys
among_items-append token [] ys = omega arith
among_items-append token (x ∷ xs) ys = omega (arith, among_items-append token xs ys)

-- A token was accepted as often as it waits, is worked on, is being cancelled, or was delivered;
-- and the counters agree with that.
pub record IsExact (w : World) : Type 0 where
  pub ring : IsRing w.backend
  pub closed : w.backend.shutting_down ≡ true → w.backend.ring_size ≡ 0
  pub once :
      (token : ℕ)
      → among token w.accepted
        ≡ among_items token (contents w.backend)
          + among_items token w.working
          + among_items token w.cancelling
          + among_deliveries token w.delivered
  pub accepted : w.backend.stats.accepted ≡ length w.accepted
  pub in_flight : w.backend.stats.in_flight ≡ length w.working
  pub delivered :
      w.backend.stats.completed_ok + w.backend.stats.short_reads + w.backend.stats.errors
        + w.backend.stats.cancelled
      ≡ length w.delivered

register_mirror_lem :
    (b : MirrorBackend) (source mirror : ℕ)
    → (register_mirror b source mirror).0
      ≡ record b { sources = (register_mirror b source mirror).0.sources }
unfolding register_mirror
register_mirror_lem b source mirror = elim (Bool-cases (is_known (find_source b.sources source))) [
  | inl e ↦ rw e refl
  | inr e ↦ elim (Bool-cases (length b.sources == b.max_sources)) [
    | inl f ↦ rw (e, f) refl
    | inr f ↦ rw (e, f) refl
  ]
]

Submits-IsExact :
    (w : World) (r : FillRequest) (b : MirrorBackend) (ok : Bool)
    → Submits w.backend b r ok
    → IsExact w
    → IsExact (record w { backend = b; accepted = accept ok r.token w.accepted })
Submits-IsExact w r b true s v = record {
  ring = s.ring;
  closed = λ shut. s.closed shut ∙ v.closed (sym s.still ∙ shut);
  once = λ token. omega (
    arith,
    v.once token,
    ap (among_items token) s.contents_of,
    among_items-append token (contents w.backend) (item_for w.backend r ∷ []),
  );
  accepted = omega (arith, s.accepted, v.accepted);
  in_flight = s.in_flight ∙ v.in_flight;
  delivered = s.delivered ∙ v.delivered;
}
Submits-IsExact w r b false s v = record {
  ring = s.ring;
  closed = λ shut. s.closed shut ∙ v.closed (sym s.still ∙ shut);
  once = λ token. rw s.contents_of (v.once token);
  accepted = omega (arith, s.accepted, v.accepted);
  in_flight = s.in_flight ∙ v.in_flight;
  delivered = s.delivered ∙ v.delivered;
}

takes-IsExact :
    (w : World) (item : WorkItem) (b : MirrorBackend)
    → TakesFront w.backend item b
    → IsExact w
    → IsExact (record w { backend = b; working = item ∷ w.working })
takes-IsExact w item b t v = record {
  ring = t.ring;
  closed = λ shut. absurd (t.waits (v.closed (sym t.closed ∙ shut)));
  once = λ token. omega (arith, v.once token, ap (among_items token) t.contents_of);
  accepted = rw t.stats v.accepted;
  in_flight = rw t.stats (omega (arith, v.in_flight));
  delivered = rw t.stats v.delivered;
}

performs-IsExact :
    (w : World) (before : List WorkItem) (item : WorkItem) (after : List WorkItem)
    (b : MirrorBackend) (d : Completion)
    → Delivers w.backend b item d
    → b.stats.in_flight ≡ w.backend.stats.in_flight - 1
    → IsExact (record w { working = before ++ item ∷ after })
    → IsExact (record w { backend = b; working = before ++ after; delivered = d ∷ w.delivered })
performs-IsExact w before item after b d t f v = record {
  ring = t.ring v.ring;
  closed = λ shut. t.size ∙ v.closed (sym t.closed ∙ shut);
  once = λ token. omega (
    arith,
    v.once token,
    ap (among_items token) t.contents_of,
    among_items-append token before (item ∷ after),
    among_items-append token before after,
    ap {B = ℕ} (λ (k : ℕ). (if k == token then 1 else 0)) t.token,
  );
  accepted = t.accepted ∙ v.accepted;
  in_flight =
      omega
        (arith, f, v.in_flight, length-append before (item ∷ after), length-append before after);
  delivered = t.delivered ∙ ap suc v.delivered;
}

Shuts-IsExact :
    (w : World) (b : MirrorBackend) (items : List WorkItem)
    → Shuts w.backend b items
    → IsExact w
    → IsExact (record w { backend = b; cancelling = w.cancelling ++ items })
Shuts-IsExact w b items t v = record {
  ring = t.ring;
  closed = λ _. t.emptied v.closed;
  once = λ token. omega (
    arith,
    v.once token,
    ap (among_items token) t.contents_of,
    among_items-append token items (contents b),
    among_items-append token w.cancelling items,
  );
  accepted = rw t.stats v.accepted;
  in_flight = rw t.stats v.in_flight;
  delivered = rw t.stats v.delivered;
}

cancels-IsExact :
    (w : World) (item : WorkItem) (rest : List WorkItem) (b : MirrorBackend) (d : Completion)
    → Delivers w.backend b item d
    → b.stats.in_flight ≡ w.backend.stats.in_flight
    → IsExact (record w { cancelling = item ∷ rest })
    → IsExact (record w { backend = b; cancelling = rest; delivered = d ∷ w.delivered })
cancels-IsExact w item rest b d t f v = record {
  ring = t.ring v.ring;
  closed = λ shut. t.size ∙ v.closed (sym t.closed ∙ shut);
  once = λ token. omega (
    arith,
    v.once token,
    ap (among_items token) t.contents_of,
    ap {B = ℕ} (λ (k : ℕ). (if k == token then 1 else 0)) t.token,
  );
  accepted = t.accepted ∙ v.accepted;
  in_flight = f ∙ v.in_flight;
  delivered = t.delivered ∙ ap suc v.delivered;
}

pub Step-IsExact : (w u : World) → Step w u → IsExact w → IsExact u
Step-IsExact _ _ (registers w source mirror) v =
    rw (register_mirror_lem w.backend source mirror) (record {
      ring = record {
        some_room = v.ring.some_room;
        head_in = v.ring.head_in;
        size_in = v.ring.size_in;
      };
      closed = v.closed;
      once = v.once;
      accepted = v.accepted;
      in_flight = v.in_flight;
      delivered = v.delivered;
    })
Step-IsExact _ _ (submits w r) v = Submits-IsExact w r _ _ (submit_lem w.backend r v.ring) v
Step-IsExact _ _ (takes w item b e) v =
    takes-IsExact w item b (take_item_lem w.backend b item v.ring e) v
Step-IsExact _ _ (performs w before item after outcome) v =
    let (t, f) = perform_lem w.backend item outcome in
    performs-IsExact w before item after _ _ t f v
Step-IsExact _ _ (shuts_down w) v = Shuts-IsExact w _ _ (shutdown_lem w.backend v.ring) v
Step-IsExact _ _ (cancels w item rest) v =
    let (t, f) = cancel_lem w.backend item in cancels-IsExact w item rest _ _ t f v

-- However submissions, registrations, takes, the workers' deliveries, shutdowns and the
-- cancellations of a shutdown interleave, an exact backend stays exact: every token was accepted
-- as often as it waits, is worked on, is being cancelled or was delivered, so that nothing is
-- lost and nothing is delivered twice; a closed ring is empty; and the counters of accepted,
-- running and delivered requests are the numbers of those.
pub Reach-IsExact : (w u : World) → Reach w u → IsExact w → IsExact u
Reach-IsExact w _ here v = v
Reach-IsExact w _ (further u x r s) v = Step-IsExact u x s (Reach-IsExact w u r v)

-- The world of a backend that nobody has called yet.
abbrev pub started : MirrorBackend → World
started b = record { backend = b; working = []; cancelling = []; delivered = []; accepted = [] }

module _ (c : MirrorBackendConfig) where
  refused : (c.workers == 0 || c.queue_capacity == 0 || c.max_sources == 0) ≡ true → create c ≡ none
  unfolding create
  refused t = rw t refl

  made :
      (c.workers == 0 || c.queue_capacity == 0 || c.max_sources == 0) ≡ false
      → create c ≡ some (idle_backend c)
  unfolding create
  made f = rw f refl

-- A backend that `create` makes is exact.
pub create-IsExact :
    (c : MirrorBackendConfig) (b : MirrorBackend) → create c ≡ some b → IsExact (started b)
create-IsExact c b e =
    elim (Bool-cases (c.workers == 0 || c.queue_capacity == 0 || c.max_sources == 0)) [
      | inl t ↦ absurd (cc (e, refused c t))
      | inr f ↦
          subst (λ (d : MirrorBackend). IsExact (started d)) {x = idle_backend c} (cc (e, made c f))
            (record {
              ring = record {
                some_room = ground arith;
                head_in = ground arith;
                size_in = omega arith;
              };
              closed = λ _. refl;
              once = λ token. refl;
              accepted = refl;
              in_flight = refl;
              delivered = refl;
            })
    ]
