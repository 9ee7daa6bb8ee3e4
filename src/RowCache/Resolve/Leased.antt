-- ===== src/RowCache/Resolve/Leased.antt =====
-- The lease that an admission or a lookup gives, in resolve_into and try_get.
use sub0tiered_cache.Base.{
  ℕ, ◌+◌, ◌<◌, ◌==◌, ◌≡◌, inl, inr, refl, sym, subst, ◌∙◌, arith, Bool, true, false, some,
  if◌then◌else◌, Option-cases,
}
use sub0tiered_cache.RowCache.Config.{Result, value, unexpected, Transport}
use sub0tiered_cache.RowCache.State.{Table, Slot, RowLease, TableStats}
use sub0tiered_cache.RowCache.Lookup.{index_find}
use sub0tiered_cache.RowCache.Lookup.Agreement.{index_find_iff}
use sub0tiered_cache.RowCache.Valid.{IsValid}
use sub0tiered_cache.RowCache.Lease.{pin, lease_on, published, count_hit}
use sub0tiered_cache.RowCache.Lease.Pins.{pin-IsValid, entered-busy}
use sub0tiered_cache.RowCache.Resolve.{count_coalesced, admit}
use sub0tiered_cache.RowCache.Resolve.Admitted.{
  Stays-refl, Stays-trans, PinnedStay, Undisturbed, Taken, Missed, admit_miss-Missed, pin-slot,
  pin-pins,
}

-- The lease is on the slot's present row.
pub record Current (slots : ℕ → Slot) (l : RowLease) : Type 0 where
  pub held : l.held ≡ true
  pub epoch : (slots l.slot).epoch ≡ l.epoch
  pub row : (slots l.slot).row_index ≡ l.row_index
  pub generation : (slots l.slot).row_generation ≡ l.generation

-- `u` is `t` behind a call that gave the lease: one more pin on its slot, and no other change of
-- pins; what was pinned stays.
pub record Leased (t u : Table) (row : ℕ) (l : RowLease) : Type 0 where
  pub valid : IsValid u
  pub stay : PinnedStay t u
  pub pins : (j : ℕ) → (u.slots j).pins ≡ (t.slots j).pins + (if j == l.slot then 1 else 0)
  pub config : u.config ≡ t.config
  pub generation : u.current_generation ≡ t.current_generation
  pub current : Current u.slots l
  pub for_row : l.row_index ≡ row
  pub of_generation : l.generation ≡ t.current_generation

abbrev pub Admits : Table → Table → ℕ → Result RowLease → Type 0
Admits t u row (value l) = Leased t u row l
Admits t u row (unexpected e) = Undisturbed t u

-- Only counters change.
abbrev pub tallied : Table → TableStats → Table
tallied t c = record t { counters = c }

pub tallied-IsValid : (t : Table) (c : TableStats) → IsValid t → IsValid (tallied t c)
tallied-IsValid t c v = record {
  indexed = v.indexed;
  marked = v.marked;
  counted = v.counted;
  bound = v.bound;
  hand = v.hand;
}

pub tallied-Undisturbed : (t : Table) (c : TableStats) → IsValid t → Undisturbed t (tallied t c)
tallied-Undisturbed t c v = record {
  valid = tallied-IsValid t c v;
  stay = λ j held. Stays-refl (t.slots j);
  pins = λ j. refl;
  config = refl;
  generation = refl;
}

pub tallied-Leased :
    (t u : Table) (c : TableStats) (row : ℕ) (l : RowLease)
    → Leased t u row l
    → Leased t (tallied u c) row l
tallied-Leased t u c row l a = record {
  valid = tallied-IsValid u c a.valid;
  stay = a.stay;
  pins = a.pins;
  config = a.config;
  generation = a.generation;
  current = a.current;
  for_row = a.for_row;
  of_generation = a.of_generation;
}

-- What held of the pins before an undisturbing call holds before both.
Undisturbed-Leased :
    (t u w : Table) (row : ℕ) (l : RowLease) → Undisturbed t u → Leased u w row l → Leased t w row l
Undisturbed-Leased t u w row l q a = record {
  valid = a.valid;
  stay = λ j held.
      Stays-trans (t.slots j) (u.slots j) (w.slots j) (q.stay j held)
        (a.stay j (λ e. held (sym (q.pins j) ∙ e)));
  pins = λ j. omega (arith, a.pins j, q.pins j);
  config = a.config ∙ q.config;
  generation = a.generation ∙ q.generation;
  current = a.current;
  for_row = a.for_row;
  of_generation = a.of_generation ∙ q.generation;
}

module _ (t : Table) (i row : ℕ) (v : IsValid t) (h : i < t.config.budget_rows)
    (s : Taken row t.current_generation (t.slots i)) where
  pin-Leased : Leased t (pin t i) row (lease_on (pin t i) i row)
  unfolding pin lease_on
  pin-Leased = record {
    valid = pin-IsValid t i v h s.busy;
    stay = λ j held. pin-slot t i j;
    pins = pin-pins t i;
    config = refl;
    generation = refl;
    current = record {
      held = refl;
      epoch = refl;
      row = (pin-slot t i i).row ∙ s.keyed;
      generation = refl;
    };
    for_row = refl;
    of_generation = (pin-slot t i i).generation ∙ s.dated;
  }

-- A row that the index has can be pinned.
found-Taken :
    (t : Table) (row i : ℕ)
    → IsValid t
    → index_find t row t.current_generation ≡ some i
    → (i < t.config.budget_rows) × Taken row t.current_generation (t.slots i)
found-Taken t row i v e =
    let (member, keyed, dated) = (index_find_iff t v.indexed row t.current_generation i).0 e in
    (
      v.indexed.inside i member,
      record { keyed = keyed; dated = dated; busy = entered-busy t i v member },
    )

module _ (t : Table) (row : ℕ) (v : IsValid t) where
  pub hit-Leased :
      (i : ℕ)
      → index_find t row t.current_generation ≡ some i
      → (c : TableStats) → Leased t (pin (tallied t c) i) row (lease_on (pin (tallied t c) i) i row)
  hit-Leased i e c =
      let (h, s) = found-Taken t row i v e in
      Undisturbed-Leased t (tallied t c) _ row _ (tallied-Undisturbed t c v) (
        pin-Leased (tallied t c) i row (tallied-IsValid t c v) h
          (record { keyed = s.keyed; dated = s.dated; busy = s.busy }))

  -- The counters behind a hit.
  hit-Admits :
      (i : ℕ)
      → index_find t row t.current_generation ≡ some i
      → (filling ready : Bool)
      → Leased t
          (if ready
            then count_hit (pin (if filling then count_coalesced t else t) i)
            else pin (if filling then count_coalesced t else t) i)
          row
          (lease_on (pin (if filling then count_coalesced t else t) i) i row)
  unfolding count_hit count_coalesced
  hit-Admits i e false false = hit-Leased i e _
  hit-Admits i e true false = hit-Leased i e _
  hit-Admits i e false true = tallied-Leased t _ _ row _ (hit-Leased i e _)
  hit-Admits i e true true = tallied-Leased t _ _ row _ (hit-Leased i e _)

  Missed-Admits :
      (u : Table) (r : Result ℕ)
      → Missed t u row r
      → (let x : Table × Result RowLease = elim r [
        | unexpected e ↦ (u, unexpected e)
        | value slot ↦ (pin u slot, value (lease_on (pin u slot) slot row))
      ] in
          Admits t x.0 row x.1)
  Missed-Admits u (unexpected e) m = m.quiet
  Missed-Admits u (value i) m =
      let (h, s) = m.got i refl in
      Undisturbed-Leased t u _ row _ m.quiet (
        pin-Leased u i row m.quiet.valid h
          (subst (λ (g : ℕ). Taken row g (u.slots i)) (sym m.quiet.generation) s))

  pub published-Leased :
      (u : Table) (l : RowLease) → Leased t u row l → Leased t u row (published u l)
  unfolding published
  published-Leased u l a = record {
    valid = a.valid;
    stay = a.stay;
    pins = a.pins;
    config = a.config;
    generation = a.generation;
    current = record {
      held = a.current.held;
      epoch = a.current.epoch;
      row = a.current.row;
      generation = a.current.generation;
    };
    for_row = a.for_row;
    of_generation = a.of_generation;
  }

module _ (tr : Transport) (t : Table) (row : ℕ) (v : IsValid t) where
  -- An admission gives a lease on the row's own slot, with one pin more on that slot and no other
  -- change of pins, or fails and changes none. What was pinned stays, and the table stays valid.
  pub admit-Admits : Admits t (admit tr t row).0 row (admit tr t row).1
  unfolding admit
  admit-Admits = elim (Option-cases (index_find t row t.current_generation)) [
    | inl e ↦ rw (e, admit) (Missed-Admits t row v _ _ (admit_miss-Missed tr t row v e))
    | inr (i, e) ↦ rw (e, admit) (hit-Admits t row v i e _ _)
  ]
