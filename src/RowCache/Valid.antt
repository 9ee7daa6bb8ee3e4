-- ===== src/RowCache/Valid.antt =====
-- The invariant of a Table: what holds between any two critical sections of
-- include/sub0tieredcache/row_cache.hpp. Its parts stand over the fields that they speak of.
pub mod Slots
use sub0tiered_cache.Base.{
  ℕ, ◌+◌, ◌≤◌, ◌<◌, ◌≡◌, ◌≢◌, ◌⊎◌, inl, inr, refl, sym, arith, Bool, true, false, ◌&&◌, Option,
  none, some, update, total, total-update, ◌==◌, if◌then◌else◌,
}
use sub0tiered_cache.RowCache.State.{Table, Slot, SlotState, Binding, is_free, is_filling, is_ready}
use sub0tiered_cache.RowCache.Lookup.Agreement.{IsIndexed}

-- A slot that is Filling or Ready.
abbrev pub is_live : SlotState → Bool
is_live SlotState.filling = true
is_live SlotState.ready = true
is_live _ = false

abbrev pub flying : Slot → ℕ
flying s = if is_filling s.state then 1 else 0

abbrev pub pins_of : Slot → ℕ
pins_of s = s.pins

abbrev pub taken : Slot → ℕ
taken s = if is_free s.state then 0 else 1

abbrev pub names : Option ℕ → ℕ → Bool
names none id = false
names (some b) id = b == id

-- The slot's fill runs on the binding.
abbrev pub flying_on : ℕ → Slot → ℕ
flying_on id s = if is_filling s.state then if names s.fill_binding id then 1 else 0 else 0

-- The totals that a table keeps are those of its slots, and no Free slot is pinned.
pub record Counted (n : ℕ) (slots : ℕ → Slot) (in_flight pins_total non_free : ℕ) : Type 0 where
  pub flights : in_flight ≡ total n flying slots
  pub pins : pins_total ≡ total n pins_of slots
  pub used : non_free ≡ total n taken slots
  pub unpinned : (i : ℕ) → is_free (slots i).state ≡ true → (slots i).pins ≡ 0

-- A slot is in the index exactly while it is Filling or Ready, and slots past the budget are Free.
pub record Marked (n : ℕ) (slots : ℕ → Slot) : Type 0 where
  pub live : (i : ℕ) → (slots i).indexed ≡ is_live (slots i).state
  pub beyond : (i : ℕ) → n ≤ i → is_free (slots i).state ≡ true

-- The binding named is the current one, or the one that is retiring.
abbrev pub Alive : Option ℕ → Binding → Option Binding → Type 0
Alive id current none = id ≡ some current.id
Alive id current (some b) = (id ≡ some current.id) ⊎ (id ≡ some b.id)

abbrev pub RetiringCounted : ℕ → (ℕ → Slot) → Binding → Option Binding → ℕ → Type 0
RetiringCounted n slots current none bindings = Unit {0}
RetiringCounted n slots current (some b) bindings =
    (b.in_flight ≡ total n (flying_on b.id) slots) × (b.id ≢ current.id) × (b.id < bindings)

-- Every fill in flight runs on a binding that is still there, and each binding counts its own.
pub record Bound (n : ℕ) (slots : ℕ → Slot) (current : Binding) (retiring : Option Binding)
    (bindings : ℕ) : Type 0 where
  pub alive :
      (i : ℕ) → is_filling (slots i).state ≡ true → Alive (slots i).fill_binding current retiring
  pub counted : current.in_flight ≡ total n (flying_on current.id) slots
  pub fresh : current.id < bindings
  pub retired : RetiringCounted n slots current retiring bindings

pub record IsValid (t : Table) : Type 0 where
  pub indexed : IsIndexed t
  pub marked : Marked t.config.budget_rows t.slots
  pub counted : Counted t.config.budget_rows t.slots t.in_flight t.pins_total t.non_free
  pub bound : Bound t.config.budget_rows t.slots t.current_binding t.retiring_binding t.bindings
  pub hand : t.clock_hand < t.config.budget_rows

-- How the binding that is retiring follows the change of a slot.
abbrev pub RetiringFollows : Slot → Slot → Option Binding → Option Binding → Type 0
RetiringFollows old new none none = Unit {0}
RetiringFollows old new (some b) (some b') =
    (b'.id ≡ b.id) × (b'.in_flight + flying_on b.id old ≡ b.in_flight + flying_on b.id new)
RetiringFollows old new _ _ = ⊥

module _ {n : ℕ} {slots : ℕ → Slot} (i : ℕ) (s : Slot) (h : i < n) where
  -- One slot changes, and the totals with it.
  pub update-Counted :
      {in_flight pins_total non_free : ℕ} (in_flight' pins_total' non_free' : ℕ)
      → Counted n slots in_flight pins_total non_free
      → in_flight' + flying (slots i) ≡ in_flight + flying s
      → pins_total' + (slots i).pins ≡ pins_total + s.pins
      → non_free' + taken (slots i) ≡ non_free + taken s
      → (is_free s.state ≡ true → s.pins ≡ 0)
      → Counted n (update slots i s) in_flight' pins_total' non_free'
  update-Counted in_flight' pins_total' non_free' v a b c d = record {
    flights = omega (arith, v.flights, total-update n flying slots i s h);
    pins = omega (arith, v.pins, total-update n pins_of slots i s h);
    used = omega (arith, v.used, total-update n taken slots i s h);
    unpinned = λ j e. ground (arith, v.unpinned j);
  }

  pub update-Marked : Marked n slots → s.indexed ≡ is_live s.state → Marked n (update slots i s)
  update-Marked v e = record {
    live = λ j. ground (arith, v.live j);
    beyond = λ j k. ground (arith, v.beyond j);
  }

  pub update-Bound :
      {current : Binding} {retiring : Option Binding} {bindings : ℕ} (current' : Binding)
      (retiring' : Option Binding)
      → Bound n slots current retiring bindings
      → current'.id ≡ current.id
      → current'.in_flight + flying_on current.id (slots i)
        ≡ current.in_flight + flying_on current.id s
      → RetiringFollows (slots i) s retiring retiring'
      → (is_filling s.state ≡ true → Alive s.fill_binding current' retiring')
      → Bound n (update slots i s) current' retiring' bindings
  update-Bound {current} {retiring = none} current' none v same count follows alive = record {
    alive = λ j e. ground (arith, v.alive j);
    counted = rw same (omega (arith, v.counted, total-update n (flying_on current.id) slots i s h));
    fresh = rw same v.fresh;
    retired = tt;
  }
  update-Bound {current} {retiring = some b} current' (some b') v same count follows alive =
      record {
        alive = λ j e. ground (arith, v.alive j);
        counted =
            rw same (omega (arith, v.counted, total-update n (flying_on current.id) slots i s h));
        fresh = rw same v.fresh;
        retired =
            rw (follows.0, same)
              (
                omega (arith, v.retired, follows, total-update n (flying_on b.id) slots i s h),
                v.retired.1,
                v.retired.2,
              );
      }
  update-Bound {current} {retiring = none} current' (some b') v same count follows alive =
      absurd follows
  update-Bound {current} {retiring = some b} current' none v same count follows alive =
      absurd follows
