-- ===== src/RowCache/Admin/Retire.antt =====
-- invalidate swaps the bindings: the one that was current retires once the last one is idle.
use sub0tiered_cache.Base.{
  ℕ, ◌+◌, ◌==◌, ◌≤◌, ◌≡◌, ◌≢◌, ◌⊎◌, inl, inr, refl, sym, ap, ◌∙◌, arith, Bool, true, false, ◌||◌,
  Option, none, some, List, length, Bool-cases, total, total-eq-zero, le-total, ltb,
}
use sub0tiered_cache.Status.{Status}
use sub0tiered_cache.RowCache.Config.{
  Result, value, unexpected, Transport, TableConfig, ShardSource, RowExtentResolver,
}
use sub0tiered_cache.RowCache.Lookup.{index_find}
use sub0tiered_cache.RowCache.Lookup.Agreement.{index_find-eq-none_iff}
use sub0tiered_cache.RowCache.State.{Table, Slot, Binding, converts, is_filling}
use sub0tiered_cache.RowCache.Valid.{IsValid, Marked, Bound, flying_on}
use sub0tiered_cache.RowCache.Admin.Opened.{NamesFailures, unmade}
use sub0tiered_cache.RowCache.Admin.{
  some_empty, make_binding, binding_calls, binding_busy, invalidate,
}

flying_on-in :
    (n : ℕ) (slots : ℕ → Slot) (i id : ℕ)
    → Marked n slots
    → is_filling (slots i).state ≡ true
    → (slots i).fill_binding ≡ some id
    → 1 ≤ total n (flying_on id) slots
flying_on-in n slots i id m e f = elim (Bool-cases (ltb i n)) [
  | inl h ↦ ground (arith, le-total n (flying_on id) slots i)
  | inr h ↦ ground (arith, m.beyond i)
]

idle_zero : (b : Binding) → binding_busy (some b) ≡ false → b.in_flight ≡ 0
idle_zero b e = ground arith

-- No fill runs on a retiring binding that counts none.
pub idle_retiring :
    {n : ℕ} {slots : ℕ → Slot} {current : Binding} {bindings : ℕ} (retiring : Option Binding)
    → Marked n slots
    → Bound n slots current retiring bindings
    → binding_busy retiring ≡ false
    → Bound n slots current none bindings
idle_retiring none m v idle = v
idle_retiring {n} {slots} {current} (some b) m v idle = record {
  alive = λ i e. elim (v.alive i e) [
    | inl same ↦ same
    | inr same ↦
        absurd (omega (arith, flying_on-in n slots i b.id m e same, v.retired.0, idle_zero b idle))
  ];
  counted = v.counted;
  fresh = v.fresh;
  retired = tt;
}

-- The current binding retires, for one with a number of its own that counts no fill.
pub retire-Bound :
    {n : ℕ} {slots : ℕ → Slot} {current : Binding} {bindings : ℕ} (b : Binding)
    → Bound n slots current none bindings
    → b.id ≡ bindings
    → b.in_flight ≡ 0
    → Bound n slots b (some current) (bindings + 1)
retire-Bound {n} {slots} {current} {bindings} b v e zero = record {
  alive = λ i f. inr (v.alive i f);
  counted = zero ∙ sym (total-eq-zero n (flying_on b.id) slots (λ i. elsewhere i _ refl _ refl));
  fresh = omega (arith, e);
  retired = (v.counted, (λ same. omega (arith, v.fresh, e, same)), omega (arith, v.fresh));
}
  where
    elsewhere :
        (i : ℕ) (f : Bool)
        → is_filling (slots i).state ≡ f
        → (on : Option ℕ) → (slots i).fill_binding ≡ on
        → flying_on b.id (slots i) ≡ 0
    elsewhere i false p on q = rw p refl
    elsewhere i true p on q = ground (arith, v.alive i p, v.fresh, e)

pub made :
    (tr : Transport) (c : TableConfig) (converting : Bool) (chunks calls id : ℕ)
    (sources : List ShardSource) (resolver : RowExtentResolver) (b : Binding)
    → make_binding tr c converting chunks calls id sources resolver ≡ value b
    → (b.id ≡ id) × (b.in_flight ≡ 0)
unfolding make_binding
made tr c converting chunks calls id sources resolver b e = ground arith

-- The table but for what `invalidate` may touch.
abbrev pub rebound : Table → Table → Table
rebound t u = record t {
  current_binding = u.current_binding;
  retiring_binding = u.retiring_binding;
  current_generation = u.current_generation;
  calls = u.calls;
  bindings = u.bindings;
}

-- `u` is `t` behind `invalidate`: the new generation is in force and the old binding retires, or
-- the generation and the binding are those of before.
pub record Invalidated (t u : Table) (generation : ℕ) (sources : List ShardSource) (status : Status)
    : Type 0 where
  pub frame : u ≡ rebound t u
  pub valid : IsValid u
  pub outcome :
      ((status ≡ Status.ok)
        × (binding_busy t.retiring_binding ≡ false)
        × (u.current_generation ≡ generation)
        × (u.current_binding.id ≡ t.bindings)
        × (u.retiring_binding ≡ some t.current_binding))
      ⊎ ((u.current_generation ≡ t.current_generation) × (u.current_binding ≡ t.current_binding))

module _ (tr : Transport) (t : Table) (generation : ℕ) (sources : List ShardSource)
    (v : IsValid t) where
  same-Invalidated : (status : Status) → Invalidated t t generation sources status
  same-Invalidated status = record { frame = refl; valid = v; outcome = inr (refl, refl) }

  made-Invalidated :
      (calls : ℕ) (r : Result Binding)
      → binding_busy t.retiring_binding ≡ false
      → ((b : Binding) → r ≡ value b → (b.id ≡ t.bindings) × (b.in_flight ≡ 0))
      → (let x : Table × Status = elim r [
        | unexpected e ↦ (record t { retiring_binding = none; calls = calls }, e)
        | value b ↦ (
          record t {
            retiring_binding = some t.current_binding;
            current_binding = b;
            current_generation = generation;
            calls = calls;
            bindings = t.bindings + 1;
          },
          Status.ok,
        )
      ] in
          Invalidated t x.0 generation sources x.1)
  made-Invalidated calls (unexpected e) idle new = record {
    frame = refl;
    valid = record {
      indexed = v.indexed;
      marked = v.marked;
      counted = v.counted;
      bound = idle_retiring t.retiring_binding v.marked v.bound idle;
      hand = v.hand;
    };
    outcome = inr (refl, refl);
  }
  made-Invalidated calls (value b) idle new = record {
    frame = refl;
    valid = record {
      indexed = v.indexed;
      marked = v.marked;
      counted = v.counted;
      bound =
          retire-Bound b (idle_retiring t.retiring_binding v.marked v.bound idle) (new b refl).0
            (new b refl).1;
      hand = v.hand;
    };
    outcome = inl (refl, idle, refl, (new b refl).0, refl);
  }

  -- An invalidation keeps the table valid and leaves its slots and its index alone. If it takes
  -- effect, no fill is in flight on the binding that it discards, and the new binding has a number
  -- of its own; otherwise the generation and the current binding are those of before.
  pub invalidate-Invalidated :
      (resolver : Option RowExtentResolver)
      → Invalidated t
          (invalidate tr t generation sources resolver).0
          generation
          sources
          (invalidate tr t generation sources resolver).1
  unfolding invalidate
  invalidate-Invalidated resolver = elim (Bool-cases (length sources == 0 || some_empty sources)) [
    | inl e ↦ rw (e, invalidate) (same-Invalidated Status.invalid_argument)
    | inr e ↦ elim (Bool-cases (binding_busy t.retiring_binding)) [
      | inl f ↦ rw (e, invalidate) (rw (f, invalidate) (same-Invalidated Status.busy))
      | inr f ↦
          rw (e, invalidate)
            (rw (f, invalidate)
              (made-Invalidated (t.calls + binding_calls (converts t) sources) _ f
                (λ b g. made tr t.config _ _ _ _ sources _ b g)))
    ]
  ]

  binding_effect :
      (calls : ℕ) (r : Result Binding)
      → ((e : Status) → r ≡ unexpected e → e ≢ Status.ok)
      → (let x : Table × Status = elim r [
        | unexpected e ↦ (record t { retiring_binding = none; calls = calls }, e)
        | value b ↦ (
          record t {
            retiring_binding = some t.current_binding;
            current_binding = b;
            current_generation = generation;
            calls = calls;
            bindings = t.bindings + 1;
          },
          Status.ok,
        )
      ] in
          x.1 ≡ Status.ok → x.0.current_generation ≡ generation)
  binding_effect calls (unexpected e) failure ok = absurd (failure e refl ok)
  binding_effect calls (value b) failure ok = refl

  takes_effect :
      (resolver : Option RowExtentResolver)
      → NamesFailures tr
      → (invalidate tr t generation sources resolver).1 ≡ Status.ok
      → (invalidate tr t generation sources resolver).0.current_generation ≡ generation
  unfolding invalidate
  takes_effect resolver named = elim (Bool-cases (length sources == 0 || some_empty sources)) [
    | inl e ↦ rw (e, invalidate) (λ ok. absurd (cc ok))
    | inr e ↦ elim (Bool-cases (binding_busy t.retiring_binding)) [
      | inl f ↦ rw (e, invalidate) (rw (f, invalidate) (λ ok. absurd (cc ok)))
      | inr f ↦
          rw (e, invalidate)
            (rw (f, invalidate)
              (binding_effect (t.calls + binding_calls (converts t) sources) _
                (λ b g. unmade tr t.config _ _ _ _ sources _ named b g)))
    ]
  ]

  -- If no failure of a transfer set is called ok, an invalidation that reports ok has put the
  -- generation given in force, and if no row in the index had that generation, no lookup finds a
  -- row behind it.
  pub invalidate_hides :
      (resolver : Option RowExtentResolver)
      → NamesFailures tr
      → (invalidate tr t generation sources resolver).1 ≡ Status.ok
      → ((j : ℕ) → (t.slots j).indexed ≡ true → (t.slots j).row_generation ≢ generation)
      → ((invalidate tr t generation sources resolver).0.current_generation ≡ generation)
        × ((row : ℕ)
            → index_find
                (invalidate tr t generation sources resolver).0
                row
                (invalidate tr t generation sources resolver).0.current_generation
              ≡ none)
  invalidate_hides resolver named ok fresh =
      let u = (invalidate tr t generation sources resolver).0 in
      let i = invalidate-Invalidated resolver in
      let now : u.current_generation ≡ generation = takes_effect resolver named ok in
      (
        now,
        λ row.
            (index_find-eq-none_iff u i.valid.indexed row u.current_generation).1
              (λ j (member, same, dated).
                fresh j (sym (ap (λ (x : Table). (x.slots j).indexed) i.frame) ∙ member)
                  (sym (ap (λ (x : Table). (x.slots j).row_generation) i.frame) ∙ dated ∙ now)),
      )
