-- ===== src/RowCache/Admin/Created.antt =====
-- create gives a table that is valid, or the first check that fails.
use native.Mathlib.Nat.{add-zero}
use mathlib.Core.Bool.{false≢true}
use sub0tiered_cache.Base.{
  ℕ, zero, suc, ◌+◌, ◌*◌, ◌^◌, ◌≤◌, ◌<◌, ◌≡◌, ◌≢◌, inl, inr, refl, sym, ap, subst, ◌∙◌, arith, not,
  none, Bool-cases, Option-cases, total-eq-zero, leb,
}
use sub0tiered_cache.Status.{Status}
use sub0tiered_cache.RowCache.Config.{
  Result, value, unexpected, Transport, TableConfig, none_slot, RowExtentResolver,
}
use sub0tiered_cache.RowCache.State.{Table, Binding, empty_slot}
use sub0tiered_cache.RowCache.Index.Shape.{occupied}
use sub0tiered_cache.RowCache.Indexed.{entered}
use sub0tiered_cache.RowCache.Lookup.Agreement.{IsIndexed}
use sub0tiered_cache.RowCache.Valid.{IsValid, flying, pins_of, taken, flying_on}
use sub0tiered_cache.RowCache.Admin.{
  ceil_exponent, check_counts, check_config, chunk_count, make_binding, new_table, create,
  is_identity,
}
use sub0tiered_cache.RowCache.Admin.Retire.{made}

-- The exponent is big enough, where the fuel is, and not above it.
pub ceil_exponent_bounds :
    (fuel n k : ℕ)
    → n ≤ 2 ^ (k + fuel)
    → (n ≤ 2 ^ ceil_exponent fuel n k) × (ceil_exponent fuel n k ≤ k + fuel)
unfolding ceil_exponent
ceil_exponent_bounds zero n k h = (rw (add-zero k) at h, omega arith)
ceil_exponent_bounds (suc fuel) n k h =
    let (a, b) =
      ceil_exponent_bounds fuel n (k + 1) (subst (λ (x : ℕ). n ≤ 2 ^ x) (omega arith) h) in
    elim (Bool-cases (leb n (2 ^ k))) [
      | inl e ↦ rw (e, ceil_exponent) (ground arith, omega arith)
      | inr e ↦ rw (e, ceil_exponent) (a, omega (arith, b))
    ]

module _ (c : TableConfig) (b : Binding) (some_rows : c.budget_rows ≢ 0)
    (few : c.budget_rows < none_slot) where
  new_table-IsIndexed : IsIndexed (new_table c b)
  unfolding new_table
  new_table-IsIndexed =
      let (wide, low) = ceil_exponent_bounds 64 (c.budget_rows * 2) 0 (omega arith) in
      record {
        bits-le = omega (arith, low);
        room = omega (arith, wide, some_rows);
        inside = λ s e. absurd (false≢true e);
        shape = record {
          reach = λ p q s h k e. cc;
          distinct = λ p q s h k e. cc;
          sound = λ p s h e. cc;
          complete = λ s e. absurd (false≢true e);
        };
        load =
            total-eq-zero _ occupied (λ i. none) (λ i. refl)
            ∙ sym (total-eq-zero _ entered (λ i. empty_slot) (λ i. refl));
        unique = λ i j e. absurd (false≢true e);
      }

  -- A table as its constructor leaves it is valid.
  pub new_table-IsValid : b.id ≡ 0 → b.in_flight ≡ 0 → IsValid (new_table c b)
  unfolding new_table
  new_table-IsValid e f = record {
    indexed = new_table-IsIndexed;
    marked = record { live = λ i. refl; beyond = λ i h. refl };
    counted = record {
      flights = sym (total-eq-zero _ flying (λ i. empty_slot) (λ i. refl));
      pins = sym (total-eq-zero _ pins_of (λ i. empty_slot) (λ i. refl));
      used = sym (total-eq-zero _ taken (λ i. empty_slot) (λ i. refl));
      unpinned = λ i h. refl;
    };
    bound = record {
      alive = λ i h. cc;
      counted = f ∙ sym (total-eq-zero _ (flying_on b.id) (λ i. empty_slot) (λ i. refl));
      fresh = omega (arith, e);
      retired = tt;
    };
    hand = omega (arith, some_rows);
  }

check_counts-rows :
    (c : TableConfig) → check_counts c ≡ none → (c.budget_rows ≢ 0) × (c.budget_rows < none_slot)
unfolding check_counts
check_counts-rows c e = ground arith

checked : (c : TableConfig) → check_config c ≡ none → check_counts c ≡ none
unfolding check_config
checked c e = ground arith

module _ (tr : Transport) (c : TableConfig) where
  bound_for : RowExtentResolver → Result Binding
  bound_for resolver =
      make_binding tr c (not (is_identity c.representation)) (chunk_count c) 0 0 c.sources resolver

  picked :
      (t : Table) (r : Result Binding)
      → (let x : Result Table = elim r [
        | unexpected _ ↦ unexpected Status.invalid_argument
        | value b ↦ value (new_table c b)
      ] in
          x ≡ value t)
      → (b : Binding) × (r ≡ value b) × (t ≡ new_table c b)
  picked t (unexpected e) f = absurd (cc)
  picked t (value b) f = (b, refl, cc)

  -- A table that `create` gives is the new table of a binding that is made for it.
  create-new_table :
      (t : Table)
      → create tr c ≡ value t
      → (check_config c ≡ none)
        × (b : Binding) × (t ≡ new_table c b)
        × (b.id ≡ 0)
        × (b.in_flight ≡ 0)
  unfolding create bound_for
  create-new_table t e = elim (Option-cases (check_config c)) [
    | inr (s, f) ↦ (let g = rw (f, create) at e in absurd (cc))
    | inl f ↦ elim (Option-cases c.resolve_extent) [
      | inl g ↦ (let h = rw (g, create) at (rw (f, create) at e) in absurd (cc))
      | inr (resolver, g) ↦
          let (b, h, same) =
            picked t (bound_for resolver) (rw (g, create) at (rw (f, create) at e)) in
          let (id, none_yet) = made tr c _ _ _ _ c.sources resolver b h in
          (f, b, same, id, none_yet)
    ]
  ]

  -- A table that `create` gives is valid, with the configuration asked for.
  pub create-IsValid : (t : Table) → create tr c ≡ value t → IsValid t × (t.config ≡ c)
  unfolding new_table
  create-IsValid t e =
      let (ok, b, same, id, none_yet) = create-new_table t e in
      let (some_rows, few) = check_counts-rows c (checked c ok) in
      subst (λ (x : Table). IsValid x × (x.config ≡ c)) (sym same)
        (new_table-IsValid c b some_rows few id none_yet, refl)

  pub create-pins : (t : Table) → create tr c ≡ value t → (i : ℕ) → (t.slots i).pins ≡ 0
  unfolding new_table
  create-pins t e i =
      let (ok, b, same, id, none_yet) = create-new_table t e in
      ap (λ (x : Table). (x.slots i).pins) same
