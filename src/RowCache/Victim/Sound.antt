-- ===== src/RowCache/Victim/Sound.antt =====
-- claim_victim answers a slot that nobody uses, and disturbs no slot that somebody does.
use mathlib.Core.Option.{some-injective}
use sub0tiered_cache.Base.{
  ℕ, zero, suc, ◌<◌, ◌≡◌, ◌≢◌, ◌⊎◌, inl, inr, refl, sym, ap, subst, ◌∙◌, arith, false, Option, some,
  update_cases, update_self, update_ne,
}
use sub0tiered_cache.RowCache.State.{Table, Slot, SlotState, with_slot, is_filling}
use sub0tiered_cache.RowCache.Lookup.{make_free, unentered, freed}
use sub0tiered_cache.RowCache.Lookup.Frame.{make_free_frame}
use sub0tiered_cache.RowCache.Valid.{IsValid}
use sub0tiered_cache.RowCache.Valid.Slots.{quiet-IsValid, make_free-IsValid}
use sub0tiered_cache.RowCache.Victim.{
  Verdict, judge, advance_hand, count_eviction, spared, sweep, claim_victim,
}

-- The slot but for its second-chance bit.
abbrev pub SameButReferenced : Slot → Slot → Type 0
SameButReferenced s s' = s' ≡ record s { referenced = s'.referenced }

-- The table but for what a sweep may touch.
abbrev pub swept : Table → Table → Table
swept t u = record t {
  slots = u.slots;
  index = u.index;
  non_free = u.non_free;
  clock_hand = u.clock_hand;
  counters = u.counters;
}

-- What `claim_victim` may have done: the slot that it answers is Free now, and was neither pinned
-- nor Filling; every other slot is the same but for its second-chance bit.
pub record Claimed (t u : Table) (victim : Option ℕ) : Type 0 where
  pub frame : u ≡ swept t u
  pub valid : IsValid u
  pub kept : (j : ℕ) → victim ≢ some j → SameButReferenced (t.slots j) (u.slots j)
  pub within : (i : ℕ) → victim ≡ some i → i < t.config.budget_rows
  pub free : (i : ℕ) → victim ≡ some i → (u.slots i).state ≡ SlotState.free
  pub unused :
      (i : ℕ) → victim ≡ some i → (is_filling (t.slots i).state ≡ false) × ((t.slots i).pins ≡ 0)
  pub epoch : (i : ℕ) → victim ≡ some i → (u.slots i).epoch ≡ (t.slots i).epoch

SameButReferenced-trans :
    (s s' s'' : Slot) → SameButReferenced s s' → SameButReferenced s' s'' → SameButReferenced s s''
SameButReferenced-trans s s' s'' e f =
    f ∙ ap (λ (x : Slot). record x { referenced = s''.referenced }) e

swept_trans : (t u w : Table) → u ≡ swept t u → w ≡ swept u w → w ≡ swept t w
swept_trans t u w e f = f ∙ ap (λ (x : Table). swept x w) e

-- A round of the sweep that leaves every slot as it was, but for the bit.
record Passed (t u : Table) : Type 0 where
  frame : u ≡ swept t u
  valid : IsValid u
  kept : (j : ℕ) → SameButReferenced (t.slots j) (u.slots j)

Passed-Claimed :
    (t u w : Table) (victim : Option ℕ) → Passed t u → Claimed u w victim → Claimed t w victim
Passed-Claimed t u w victim p c = record {
  frame = swept_trans t u w p.frame c.frame;
  valid = c.valid;
  kept =
      λ j ne. SameButReferenced-trans (t.slots j) (u.slots j) (w.slots j) (p.kept j) (c.kept j ne);
  within = λ i e. rw (ap (λ (x : Table). x.config.budget_rows) p.frame) at (c.within i e);
  free = c.free;
  unused = λ i e. (
    ap (λ (s : Slot). is_filling s.state) (sym (p.kept i)) ∙ (c.unused i e).0,
    ap (λ (s : Slot). s.pins) (sym (p.kept i)) ∙ (c.unused i e).1,
  );
  epoch = λ i e. c.epoch i e ∙ ap (λ (s : Slot). s.epoch) (p.kept i);
}

advance_frame : (t : Table) → advance_hand t ≡ record t { clock_hand = (advance_hand t).clock_hand }
unfolding advance_hand
advance_frame t = refl

advance-lt :
    (t : Table)
    → t.clock_hand < t.config.budget_rows
    → (advance_hand t).clock_hand < t.config.budget_rows
unfolding advance_hand
advance-lt t h = ground arith

advance-Passed : (t : Table) → IsValid t → Passed t (advance_hand t)
unfolding advance_hand
advance-Passed t v = record {
  frame = refl;
  valid = record {
    indexed = v.indexed;
    marked = v.marked;
    counted = v.counted;
    bound = v.bound;
    hand = advance-lt t v.hand;
  };
  kept = λ j. refl;
}

module _ (t : Table) (i : ℕ) (v : IsValid t) (h : i < t.config.budget_rows) where
  spare-Passed : Passed t (with_slot t i (spared (t.slots i)))
  spare-Passed = record {
    frame = refl;
    valid =
        quiet-IsValid t i v h (spared (t.slots i))
          (record { indexed = refl; row = refl; generation = refl; state = refl; binding = refl })
          refl;
    kept = λ j. elim (update_cases t.slots i (spared (t.slots i)) j) [
      | inl (here, e) ↦
          subst (SameButReferenced (t.slots j)) (sym e)
            (subst (λ (x : ℕ). SameButReferenced (t.slots x) (spared (t.slots i))) (sym here) refl)
      | inr (other, e) ↦ subst (SameButReferenced (t.slots j)) (sym e) refl
    ];
  }

  Claimed-at :
      (u : Table)
      → u ≡ swept t u
      → IsValid u
      → ((j : ℕ) → j ≢ i → u.slots j ≡ t.slots j)
      → (u.slots i).state ≡ SlotState.free
      → is_filling (t.slots i).state ≡ false
      → (t.slots i).pins ≡ 0
      → (u.slots i).epoch ≡ (t.slots i).epoch
      → Claimed t u (some i)
  Claimed-at u frame valid same free idle unpinned epoch = record {
    frame = frame;
    valid = valid;
    kept = λ j ne.
        subst (SameButReferenced (t.slots j)) (sym (same j (λ e. ne (ap some (sym e))))) refl;
    within = λ j f. subst (λ (x : ℕ). x < t.config.budget_rows) (some-injective i j f) h;
    free = λ j f. subst (λ (x : ℕ). (u.slots x).state ≡ SlotState.free) (some-injective i j f) free;
    unused = λ j f.
        subst (λ (x : ℕ). (is_filling (t.slots x).state ≡ false) × ((t.slots x).pins ≡ 0))
          (some-injective i j f) (idle, unpinned);
    epoch = λ j f.
        subst (λ (x : ℕ). (u.slots x).epoch ≡ (t.slots x).epoch) (some-injective i j f) epoch;
  }

  free-Claimed :
      is_filling (t.slots i).state ≡ false
      → (t.slots i).pins ≡ 0
      → Claimed t (make_free t i) (some i)
  free-Claimed e p =
      let frame = make_free_frame t i in
      let slots = ap (λ (x : Table). x.slots) frame in
      let at = λ (j : ℕ). ap (λ (f : ℕ → Slot). f j) slots in
      let here = at i ∙ update_self t.slots i (freed (unentered (t.slots i))) in
      Claimed-at (make_free t i) (frame ∙ ap (swept t) (sym frame)) (make_free-IsValid t i v h e p)
        (λ j ne. at j ∙ update_ne t.slots i (freed (unentered (t.slots i))) j ne)
        (ap (λ (s : Slot). s.state) here) e p (ap (λ (s : Slot). s.epoch) here)

  take-Claimed : (t.slots i).state ≡ SlotState.free → Claimed t t (some i)
  take-Claimed e = Claimed-at t refl v (λ j ne. refl) e (rw e) (v.counted.unpinned i (rw e)) refl

evict-Passed : (t : Table) → IsValid t → Passed t (count_eviction t)
evict-Passed t v = record {
  frame = refl;
  valid = record {
    indexed = v.indexed;
    marked = v.marked;
    counted = v.counted;
    bound = v.bound;
    hand = v.hand;
  };
  kept = λ j. refl;
}

-- What the verdict on a slot says of it.
judge_cases :
    (s : Slot)
    → ((judge s.state s.pins s.referenced ≡ Verdict.take) × (s.state ≡ SlotState.free))
      ⊎ (judge s.state s.pins s.referenced ≡ Verdict.skip)
      ⊎ (judge s.state s.pins s.referenced ≡ Verdict.spare)
      ⊎ ((judge s.state s.pins s.referenced ≡ Verdict.reclaim)
          × (is_filling s.state ≡ false)
          × (s.pins ≡ 0))
      ⊎ ((judge s.state s.pins s.referenced ≡ Verdict.evict)
          × (is_filling s.state ≡ false)
          × (s.pins ≡ 0))
unfolding judge
judge_cases s = ground arith

pub sweep-Claimed :
    (steps : ℕ) (t : Table) → IsValid t → Claimed t (sweep steps t).0 (sweep steps t).1
unfolding sweep advance_hand
sweep-Claimed zero t v = record {
  frame = refl;
  valid = v;
  kept = λ j ne. refl;
  within = λ i e. cc;
  free = λ i e. cc;
  unused = λ i e. cc;
  epoch = λ i e. refl;
}
sweep-Claimed (suc steps) t v =
    let u = advance_hand t in
    let p = advance-Passed t v in
    elim (judge_cases (t.slots t.clock_hand)) [
      | inl (e, f) ↦
          rw (e, sweep) (Passed-Claimed t u u _ p (take-Claimed u t.clock_hand p.valid v.hand f))
      | inr (inl e) ↦ rw (e, sweep) (Passed-Claimed t u _ _ p (sweep-Claimed steps u p.valid))
      | inr (inr (inl e)) ↦
          let q = spare-Passed u t.clock_hand p.valid v.hand in
          rw (e, sweep)
            (Passed-Claimed t u _ _ p (Passed-Claimed u _ _ _ q (sweep-Claimed steps _ q.valid)))
      | inr (inr (inr (inl (e, idle, unpinned)))) ↦
          rw (e, sweep)
            (Passed-Claimed t u _ _ p (free-Claimed u t.clock_hand p.valid v.hand idle unpinned))
      | inr (inr (inr (inr (e, idle, unpinned)))) ↦
          let q = evict-Passed u p.valid in
          rw (e, sweep)
            (Passed-Claimed t u _ _ p (
              Passed-Claimed u _ _ _ q
                (free-Claimed (count_eviction u) t.clock_hand q.valid v.hand idle unpinned)))
    ]

-- A victim is a slot that was neither Filling nor pinned, and is Free now. Every other slot keeps
-- its row, its epoch, its state, its pins and all else but its second-chance bit, and the table
-- stays valid.
pub claim_victim-Claimed : (t : Table) → IsValid t → Claimed t (claim_victim t).0 (claim_victim t).1
unfolding claim_victim
claim_victim-Claimed t v = sweep-Claimed _ t v

module _ (t : Table) (v : IsValid t) where
  -- A sweep keeps the table valid.
  pub claim_victim-IsValid : IsValid (claim_victim t).0
  claim_victim-IsValid = (claim_victim-Claimed t v).valid

  -- The slot that a sweep answers is one of the table's; it was neither Filling nor pinned, it is
  -- Free now, and its epoch is that of before.
  pub claim_victim-some :
      (i : ℕ)
      → (claim_victim t).1 ≡ some i
      → (i < t.config.budget_rows)
        × (is_filling (t.slots i).state ≡ false)
        × ((t.slots i).pins ≡ 0)
        × (((claim_victim t).0.slots i).state ≡ SlotState.free)
        × (((claim_victim t).0.slots i).epoch ≡ (t.slots i).epoch)
  claim_victim-some i e =
      let c = claim_victim-Claimed t v in
      let (idle, unpinned) = c.unused i e in (c.within i e, idle, unpinned, c.free i e, c.epoch i e)

  -- Every slot that the sweep does not answer is the same, but for its second-chance bit.
  pub claim_victim_others :
      (j : ℕ)
      → (claim_victim t).1 ≢ some j
      → SameButReferenced (t.slots j) ((claim_victim t).0.slots j)
  claim_victim_others = (claim_victim-Claimed t v).kept
