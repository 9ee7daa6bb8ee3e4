-- ===== src/RowCache/Valid/Slots.antt =====
-- Changes of one slot that keep the invariant of a Table.
use sub0tiered_cache.Base.{
  ℕ, ◌+◌, ◌≤◌, ◌<◌, ◌≡◌, ◌≢◌, refl, sym, subst, arith, inl, true, false, Option, none, some,
  le-total,
}
use sub0tiered_cache.RowCache.State.{Table, Slot, Binding, with_slot, is_free, is_filling}
use sub0tiered_cache.RowCache.Lookup.{make_free, unentered, freed}
use sub0tiered_cache.RowCache.Lookup.Frame.{make_free_frame}
use sub0tiered_cache.RowCache.Lookup.Agreement.{unindex_then}
use sub0tiered_cache.RowCache.Indexed.{touch-Agrees}
use sub0tiered_cache.RowCache.Valid.{
  IsValid, Bound, Alive, RetiringFollows, update-Counted, update-Marked, update-Bound, taken,
  flying_on,
}

-- A retiring binding goes on as it is where a slot flies on the same binding before and after.
pub RetiringFollows-still :
    (old new : Slot) (b : Option Binding)
    → ((id : ℕ) → flying_on id old ≡ flying_on id new)
    → RetiringFollows old new b b
RetiringFollows-still old new none e = tt
RetiringFollows-still old new (some b) e = (refl, omega (arith, e b.id))

-- Nor does a change on the current binding concern it.
pub RetiringFollows-other :
    {n : ℕ} {slots : ℕ → Slot} {current : Binding} {bindings : ℕ} (old new : Slot)
    (b : Option Binding)
    → Bound n slots current b bindings
    → ((id : ℕ) → id ≢ current.id → flying_on id old ≡ flying_on id new)
    → RetiringFollows old new b b
RetiringFollows-other old new none v e = tt
RetiringFollows-other old new (some b) v e = (refl, omega (arith, e b.id v.retired.1))

-- The current binding is there.
pub Alive-current : (current : Binding) (b : Option Binding) → Alive (some current.id) current b
Alive-current current none = refl
Alive-current current (some b) = inl refl

pub taken-le : (s : Slot) → taken s ≤ 1
taken-le s = ground arith

-- Alike but for what the invariant does not speak of.
pub record Alike (s s' : Slot) : Type 0 where
  pub indexed : s'.indexed ≡ s.indexed
  pub row : s'.row_index ≡ s.row_index
  pub generation : s'.row_generation ≡ s.row_generation
  pub state : s'.state ≡ s.state
  pub binding : s'.fill_binding ≡ s.fill_binding

flying_on-Alike : (s s' : Slot) → Alike s s' → (id : ℕ) → flying_on id s ≡ flying_on id s'
flying_on-Alike s s' a id = rw (a.state, a.binding)

module _ (t : Table) (i : ℕ) (v : IsValid t) (h : i < t.config.budget_rows) where
  -- A change of a slot's pins, with that of the total.
  pub repin-IsValid :
      (s : Slot) (pins_total : ℕ)
      → Alike (t.slots i) s
      → pins_total + (t.slots i).pins ≡ t.pins_total + s.pins
      → (is_free s.state ≡ true → s.pins ≡ 0)
      → IsValid (record (with_slot t i s) { pins_total = pins_total })
  repin-IsValid s pins_total a p zero = record {
    indexed = touch-Agrees i s v.indexed a.indexed (λ _. (a.row, a.generation));
    marked = update-Marked i s h v.marked (rw (a.indexed, a.state) (v.marked.live i));
    counted =
        update-Counted i s h t.in_flight pins_total t.non_free v.counted (rw a.state) p (rw a.state)
          zero;
    bound =
        update-Bound i s h t.current_binding t.retiring_binding v.bound refl
          (rw (flying_on-Alike (t.slots i) s a))
          (RetiringFollows-still (t.slots i) s t.retiring_binding (flying_on-Alike (t.slots i) s a))
          (λ e. rw a.binding (v.bound.alive i (rw a.state at e)));
    hand = v.hand;
  }

  -- A change that keeps the pins too.
  pub quiet-IsValid :
      (s : Slot) → Alike (t.slots i) s → s.pins ≡ (t.slots i).pins → IsValid (with_slot t i s)
  quiet-IsValid s a p =
      repin-IsValid s t.pins_total a (rw p) (λ e. rw p (v.counted.unpinned i (rw a.state at e)))

  -- A slot that is not Filling and not pinned can be freed.
  pub make_free-IsValid :
      is_filling (t.slots i).state ≡ false → (t.slots i).pins ≡ 0 → IsValid (make_free t i)
  make_free-IsValid e p =
      let s = freed (unentered (t.slots i)) in
      subst IsValid (sym (make_free_frame t i)) (record {
        indexed = unindex_then t v.indexed i s refl;
        marked = update-Marked i s h v.marked refl;
        counted =
            update-Counted i s h t.in_flight t.pins_total _ v.counted (ground arith) refl
              (ground (arith, le-total t.config.budget_rows taken t.slots i h, v.counted.used))
              (λ _. p);
        bound =
            update-Bound i s h t.current_binding t.retiring_binding v.bound refl (ground arith)
              (RetiringFollows-still (t.slots i) s t.retiring_binding (λ id. ground arith))
              (λ no_flight. cc);
        hand = v.hand;
      })
