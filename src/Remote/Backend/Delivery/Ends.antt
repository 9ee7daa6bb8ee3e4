-- ===== src/Remote/Backend/Delivery/Ends.antt =====
-- The workers and a shutdown's cancellations come to an end, with every request delivered.
use sub0tiered_cache.Base.{
  ℕ, zero, suc, ◌+◌, ◌*◌, ◌≤◌, ◌<◌, ◌≡◌, refl, sym, ap, ◌∙◌, subst, arith, Bool, true, false, List,
  [], ◌∷◌, length, length-append, inl, inr, Zero-cases,
}
use sub0tiered_cache.Remote
use sub0tiered_cache.Remote.Backend.{WorkItem, MirrorBackend, ReadOutcome}
use sub0tiered_cache.Remote.Backend.Queue.{contents, length-window}
use sub0tiered_cache.Remote.Backend.Delivery.Ops.{
  TakesFront, take_item_lem, perform_lem, cancel_lem, take_item-some, after_take,
}
use sub0tiered_cache.Remote.Backend.Delivery.Exact.{
  IsExact, among, among_items, among_deliveries, Step-IsExact,
}
use sub0tiered_cache.Remote.Backend.Delivery.{
  World, Step, registers, submits, takes, performs, shuts_down, cancels, Reach, here, further,
}

-- What is still to be done: an item that waits is taken and delivered.
abbrev pub outstanding : World → ℕ
outstanding w = 2 * w.backend.ring_size + length w.working + length w.cancelling

-- The steps of workers, and those of a shutdown that cancels.
abbrev pub is_work : {w u : World} → Step w u → Bool
is_work (registers w source mirror) = false
is_work (submits w r) = false
is_work (takes w item b e) = true
is_work (performs w before item after outcome) = true
is_work (shuts_down w) = false
is_work (cancels w item rest) = true

takes-outstanding :
    (w : World) (item : WorkItem) (b : MirrorBackend)
    → TakesFront w.backend item b
    → outstanding (record w { backend = b; working = item ∷ w.working }) < outstanding w
takes-outstanding w item b t = omega (arith, t.size)

-- Whatever order the workers and the cancellations go in, each of their steps leaves less to be
-- done, so that they come to an end.
pub Step-outstanding :
    (w u : World) (s : Step w u) → IsExact w → is_work s ≡ true → outstanding u < outstanding w
Step-outstanding _ _ (registers w source mirror) v e = absurd (cc)
Step-outstanding _ _ (submits w r) v e = absurd (cc)
Step-outstanding _ _ (takes w item b e) v f =
    takes-outstanding w item b (take_item_lem w.backend b item v.ring e)
Step-outstanding _ _ (performs w before item after outcome) v e =
    let (t, f) = perform_lem w.backend item outcome in
    omega (arith, t.size, length-append before (item ∷ after), length-append before after)
Step-outstanding _ _ (shuts_down w) v e = absurd (cc)
Step-outstanding _ _ (cancels w item rest) v e =
    let (t, f) = cancel_lem w.backend item in omega (arith, t.size)

-- A step that some thread can take, where there is something to be done.
record Goes (w : World) : Type 0 where
  next : World
  step : Step w next
  less : outstanding next < outstanding w
  accepted : next.accepted ≡ w.accepted

Goes-takes : (w : World) → IsExact w → 0 < w.backend.ring_size → Goes w
Goes-takes w v h =
    let s =
      takes w (w.backend.ring w.backend.head) (after_take w.backend) (take_item-some w.backend h) in
    record { next = _; step = s; less = Step-outstanding w _ s v refl; accepted = refl }

ok_outcome : ReadOutcome
ok_outcome = record { status = Remote.Status.ok; bytes = 0 }

module _ (w : World) (item : WorkItem) (rest : List WorkItem) where
  Goes-performs : w.working ≡ item ∷ rest → IsExact w → Goes w
  Goes-performs e =
      subst
        (λ (xs : List WorkItem).
          IsExact (record w { working = xs }) → Goes (record w { working = xs }))
        (sym e)
        (λ v.
          let s = performs w [] item rest ok_outcome in
          record { next = _; step = s; less = Step-outstanding _ _ s v refl; accepted = refl })

  Goes-cancels : w.cancelling ≡ item ∷ rest → IsExact w → Goes w
  Goes-cancels e =
      subst
        (λ (xs : List WorkItem).
          IsExact (record w { cancelling = xs }) → Goes (record w { cancelling = xs }))
        (sym e)
        (λ v.
          let s = cancels w item rest in
          record { next = _; step = s; less = Step-outstanding _ _ s v refl; accepted = refl })

goes : (w : World) → IsExact w → 0 < outstanding w → Goes w
goes w v h = by_list w.working w.cancelling refl refl
  where
    by_list : (xs ys : List WorkItem) → w.working ≡ xs → w.cancelling ≡ ys → Goes w
    by_list (x ∷ xs) ys e f = Goes-performs w x xs e v
    by_list [] (y ∷ ys) e f = Goes-cancels w y ys f v
    by_list [] [] e f = Goes-takes w v (omega (arith, ap length e, ap length f))

step_first : (w u x : World) → Step w u → Reach u x → Reach w x
step_first w u _ s here = further w u here s
step_first w u x s (further y _ r t) = further y x (step_first w u y s r) t

-- Where every request went that was accepted.
record Ends (w : World) : Type 0 where
  last : World
  reached : Reach w last
  same : last.accepted ≡ w.accepted
  done : (token : ℕ) → among_deliveries token last.delivered ≡ among token w.accepted

no_items : (token : ℕ) (xs : List WorkItem) → length xs ≡ 0 → among_items token xs ≡ 0
no_items token [] e = refl
no_items token (x ∷ xs) e = absurd (omega (arith, e))

ended : (w : World) → IsExact w → outstanding w ≡ 0 → Ends w
ended w v z = record {
  last = w;
  reached = here;
  same = refl;
  done = λ token. omega (
    arith,
    v.once token,
    no_items token w.working (omega (arith, z)),
    no_items token w.cancelling (omega (arith, z)),
    no_items token (contents w.backend) (
        length-window w.backend.ring w.backend.capacity w.backend.head w.backend.ring_size
        ∙ omega (arith, z)),
  );
}

ends : (n : ℕ) (w : World) → outstanding w ≤ n → IsExact w → Ends w
ends zero w h v = ended w v (omega arith)
ends (suc n) w h v = elim (Zero-cases (outstanding w)) [
  | inl z ↦ ended w v z
  | inr p ↦
      let g = goes w v p in
      let r = ends n g.next (omega (arith, g.less, h)) (Step-IsExact w g.next g.step v) in
      record {
        last = r.last;
        reached = step_first w g.next r.last g.step r.reached;
        same = r.same ∙ g.accepted;
        done = λ token. r.done token ∙ ap (among token) g.accepted;
      }
]

-- From an exact world the workers and the cancellations can always go on until each request
-- that was accepted has been delivered, as often as it was accepted, with none accepted anew:
-- there is a run that ends so.
pub delivered_in_the_end :
    (w : World)
    → IsExact w
    → (u : World) × Reach w u
      × (u.accepted ≡ w.accepted)
      × ((token : ℕ) → among_deliveries token u.delivered ≡ among token w.accepted)
delivered_in_the_end w v =
    let r = ends (outstanding w) w (omega arith) v in (r.last, r.reached, r.same, r.done)
