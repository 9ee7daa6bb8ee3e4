-- ===== src/RowCache/Finish/Retry.antt =====
-- A failed fill leaves nothing in the index.
use mathlib.Core.Bool.{false≢true}
use sub0tiered_cache.Base.{ℕ, ◌<◌, ◌≡◌, ◌≢◌, inl, inr, sym, ap, ◌∙◌, false, none, ℕ_discrete}
use sub0tiered_cache.Status.{Status}
use sub0tiered_cache.RowCache.State.{Table, Slot, SlotState}
use sub0tiered_cache.RowCache.Lookup.{index_find}
use sub0tiered_cache.RowCache.Lookup.Agreement.{IsEntered, index_find-eq-none_iff}
use sub0tiered_cache.RowCache.Valid.{IsValid, is_live}
use sub0tiered_cache.RowCache.Finish.{publish}
use sub0tiered_cache.RowCache.Finish.Published.{Ended, publish-Published}

Ended-outside : (e : Status) (s : Slot) → e ≢ Status.ok → Ended e s → s.indexed ≡ false
Ended-outside e s ne (inl a) = absurd (ne a.0)
Ended-outside e s ne (inr a) = a.3

module _ (t : Table) (i : ℕ) (v : IsValid t) (h : i < t.config.budget_rows)
    (flies : (t.slots i).state ≡ SlotState.filling) where
  -- Behind a fill that failed, the index has no slot for the row, so that the next request for it
  -- starts a fill of its own.
  pub publish_retries :
      (e : Status)
      → e ≢ Status.ok
      → index_find (publish t i e) (t.slots i).row_index (t.slots i).row_generation ≡ none
  publish_retries e ne =
      let u = publish t i e in
      let p = publish-Published t i v h flies e in
      (index_find-eq-none_iff u p.valid.indexed (t.slots i).row_index (t.slots i).row_generation).1
        (λ j (entered : IsEntered u (t.slots i).row_index (t.slots i).row_generation j).
          elim (ℕ_discrete j i) [
            | yes here ↦ false≢true (
                sym (Ended-outside e (u.slots i) ne p.outcome)
                ∙ ap (λ (x : ℕ). (u.slots x).indexed) (sym here)
                ∙ entered.0)
            | no other ↦
                let same = p.kept j other in
                other (
                  v.indexed.unique j i (sym (ap (λ (x : Slot). x.indexed) same) ∙ entered.0)
                    (v.marked.live i ∙ ap is_live flies)
                    (sym (ap (λ (x : Slot). x.row_index) same) ∙ entered.1)
                    (sym (ap (λ (x : Slot). x.row_generation) same) ∙ entered.2))
          ])
