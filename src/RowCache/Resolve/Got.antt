-- ===== src/RowCache/Resolve/Got.antt =====
-- What try_get of include/sub0tieredcache/row_cache.hpp answers, and what it changes.
use mathlib.Core.Option.{some-injective}
use sub0tiered_cache.Base.{
  ℕ, ◌+◌, ◌*◌, ◌<◌, ◌≤◌, ◌≡◌, ◌≢◌, ◌⊎◌, inl, inr, refl, sym, ap, subst, ◌∙◌, arith, true, false,
  Option, none, some, Bool-cases, Option-cases, ltb, update_self, update_ne,
}
use sub0tiered_cache.RowCache.State.{Table, Slot, RowLease, is_ready}
use sub0tiered_cache.RowCache.Lookup.{index_find}
use sub0tiered_cache.RowCache.Lookup.Agreement.{IsEntered, index_find_iff, index_find-eq-none_iff}
use sub0tiered_cache.RowCache.Valid.{IsValid}
use sub0tiered_cache.RowCache.Lease.{
  pin, lease_on, published, count_hit, count_miss, take_ready, try_get,
}
use sub0tiered_cache.RowCache.Resolve.Admitted.{Undisturbed}
use sub0tiered_cache.RowCache.Resolve.Leased.{
  Leased, tallied-Undisturbed, tallied-Leased, hit-Leased, published-Leased,
}

-- A hit: the lease is on a slot that has the row Ready under the current generation, it exposes
-- the range that the slot publishes, and the slot has one pin more and its second-chance bit set.
-- One pin and one hit are counted, and nothing else changes.
pub record Hit (t u : Table) (row : ℕ) (l : RowLease) : Type 0 where
  pub leased : Leased t u row l
  pub in_range : row < t.config.row_count
  pub entered : IsEntered t row t.current_generation l.slot
  pub ready : is_ready (t.slots l.slot).state ≡ true
  pub offset :
      l.bytes_offset ≡ l.slot * t.config.output_row_bytes + (t.slots l.slot).published_offset
  pub size : l.bytes_size ≡ (t.slots l.slot).published_bytes
  pub slot :
      u.slots l.slot
      ≡ record (t.slots l.slot) { pins = (t.slots l.slot).pins + 1; referenced = true }
  pub others : (j : ℕ) → j ≢ l.slot → u.slots j ≡ t.slots j
  pub frame : u ≡ record t {
    slots = u.slots;
    pins_total = t.pins_total + 1;
    counters = record (t.counters) { hits = t.counters.hits + 1 };
  }

-- The table with one miss more.
abbrev pub missed : Table → Table
missed t = record t { counters = record (t.counters) { misses = t.counters.misses + 1 } }

-- What a lookup makes of the table: a hit; or no lease, where the row is out of range and nothing
-- changes, or no slot has the row Ready under the current generation and one miss is counted.
abbrev pub Gets : Table → Table → ℕ → Option RowLease → Type 0
Gets t u row (some l) = Hit t u row l
Gets t u row none =
    ((t.config.row_count ≤ row) × (u ≡ t))
    ⊎ ((row < t.config.row_count)
        × ((i : ℕ) → IsEntered t row t.current_generation i → is_ready (t.slots i).state ≡ false)
        × (u ≡ missed t))

module _ (t : Table) (row : ℕ) (v : IsValid t) where
  taken-Gets :
      (i : ℕ)
      → index_find t row t.current_generation ≡ some i
      → is_ready (t.slots i).state ≡ true
      → row < t.config.row_count
      → Gets t
          (take_ready (count_hit (pin t i)) i row).0
          row
          (take_ready (count_hit (pin t i)) i row).1
  unfolding take_ready count_hit published lease_on pin
  taken-Gets i e ready inside = record {
    leased =
        published-Leased t row v _ _
          (tallied-Leased t _ _ row _ (hit-Leased t row v i e t.counters));
    in_range = inside;
    entered = (index_find_iff t v.indexed row t.current_generation i).0 e;
    ready = ready;
    offset =
        ap (λ (x : Slot). i * t.config.output_row_bytes + x.published_offset)
          (update_self t.slots i _);
    size = ap (λ (x : Slot). x.published_bytes) (update_self t.slots i _);
    slot = update_self t.slots i _;
    others = λ j other. update_ne t.slots i _ j other;
    frame = refl;
  }

  -- In a valid table, a lookup gives a lease only for a row in range, on a slot that has the row
  -- Ready under the current generation. The lease exposes the range that the slot publishes, and
  -- but for one pin more on that slot, its second-chance bit and one hit counted the table is as
  -- before. Otherwise there is no lease: for a row out of range nothing changes, and for any other
  -- row no slot has it Ready under the current generation, and one miss counted is all that
  -- changes.
  pub try_get-Gets : Gets t (try_get t row).0 row (try_get t row).1
  unfolding try_get count_miss
  try_get-Gets = elim (Bool-cases (ltb row t.config.row_count)) [
    | inl f ↦ elim (Option-cases (index_find t row t.current_generation)) [
      | inl e ↦
          rw (f, try_get)
            (rw (e, try_get)
              (inr (
                ground (arith, f),
                λ i entered.
                    absurd
                      ((index_find-eq-none_iff t v.indexed row t.current_generation).0 e i entered),
                refl,
              )))
      | inr (i, e) ↦ elim (Bool-cases (is_ready (t.slots i).state)) [
        | inl ready ↦
            rw (f, try_get)
              (rw (e, try_get) (rw (ready, try_get) (taken-Gets i e ready (ground (arith, f)))))
        | inr unready ↦
            rw (f, try_get)
              (rw (e, try_get)
                (rw (unready, try_get)
                  (inr (ground (arith, f), unready_everywhere i e unready, refl))))
      ]
    ]
    | inr f ↦ rw (f, try_get) (inl (ground (arith, f), refl))
  ]
    where
      unready_everywhere :
          (i : ℕ)
          → index_find t row t.current_generation ≡ some i
          → is_ready (t.slots i).state ≡ false
          → (j : ℕ) → IsEntered t row t.current_generation j
          → is_ready (t.slots j).state ≡ false
      unready_everywhere i e unready j entered =
          let same : i ≡ j =
            some-injective i j
              (sym e ∙ (index_find_iff t v.indexed row t.current_generation j).1 entered) in
          subst (λ (x : ℕ). is_ready (t.slots x).state ≡ false) same unready

  -- A lookup without a lease leaves the pins and every pinned slot alone.
  pub missed-Undisturbed : (u : Table) → Gets t u row none → Undisturbed t u
  missed-Undisturbed u (inl (_, e)) =
      subst (Undisturbed t) (sym e) (tallied-Undisturbed t t.counters v)
  missed-Undisturbed u (inr (_, _, e)) = subst (Undisturbed t) (sym e) (tallied-Undisturbed t _ v)
