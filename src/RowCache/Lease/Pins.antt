-- ===== src/RowCache/Lease/Pins.antt =====
-- Pinning and unpinning keep the invariant, and a lookup's lease is on the row's own slot.
use mathlib.Core.Bool.{false≢true}
use sub0tiered_cache.Base.{
  ℕ, ◌+◌, ◌-◌, ◌<◌, ◌≡◌, ◌≢◌, inl, inr, refl, sym, ◌∙◌, arith, true, false, le-total, Bool-cases,
  ltb,
}
use sub0tiered_cache.RowCache.State.{Table, is_free}
use sub0tiered_cache.RowCache.Valid.{IsValid, pins_of}
use sub0tiered_cache.RowCache.Valid.Slots.{repin-IsValid, quiet-IsValid}
use sub0tiered_cache.RowCache.Finish.{take_over, relinquish}
use sub0tiered_cache.RowCache.Lease.{pin, unpin_locked}

module _ (t : Table) (i : ℕ) (v : IsValid t) (h : i < t.config.budget_rows) where
  pub pin-IsValid : is_free (t.slots i).state ≡ false → IsValid (pin t i)
  unfolding pin
  pin-IsValid busy =
      repin-IsValid t i v h (record (t.slots i) { pins = (t.slots i).pins + 1; referenced = true })
        (t.pins_total + 1)
        (record { indexed = refl; row = refl; generation = refl; state = refl; binding = refl })
        (omega arith) (λ e. absurd (false≢true (sym busy ∙ e)))

  -- No count falls below zero: a pinned slot is counted.
  pub unpin-IsValid : (t.slots i).pins ≢ 0 → IsValid (unpin_locked t i)
  unfolding unpin_locked
  unpin-IsValid held =
      repin-IsValid t i v h (record (t.slots i) { pins = (t.slots i).pins - 1 }) (t.pins_total - 1)
        (record { indexed = refl; row = refl; generation = refl; state = refl; binding = refl })
        (omega (arith, held, v.counted.pins, le-total t.config.budget_rows pins_of t.slots i h))
        (λ e. absurd (held (v.counted.unpinned i e)))

  pub take_over-IsValid : IsValid (take_over t i)
  unfolding take_over
  take_over-IsValid =
      quiet-IsValid t i v h (record (t.slots i) { finishing = true })
        (record { indexed = refl; row = refl; generation = refl; state = refl; binding = refl })
        refl

  pub relinquish-IsValid : IsValid (relinquish t i)
  unfolding relinquish
  relinquish-IsValid =
      quiet-IsValid t i v h (record (t.slots i) { finishing = false })
        (record { indexed = refl; row = refl; generation = refl; state = refl; binding = refl })
        refl

-- A slot that is pinned, or in the index, is one of the table's, and not Free.
pub pinned-lt : (t : Table) (i : ℕ) → IsValid t → (t.slots i).pins ≢ 0 → i < t.config.budget_rows
pinned-lt t i v held = elim (Bool-cases (ltb i t.config.budget_rows)) [
  | inl e ↦ ground arith
  | inr e ↦ absurd (held (v.counted.unpinned i (v.marked.beyond i (ground arith))))
]

pub entered-busy :
    (t : Table) (i : ℕ) → IsValid t → (t.slots i).indexed ≡ true → is_free (t.slots i).state ≡ false
entered-busy t i v e = ground (arith, v.marked.live i)
