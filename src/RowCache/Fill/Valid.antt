-- ===== src/RowCache/Fill/Valid.antt =====
-- start_fill_locked keeps the invariant, whether the fill starts or fails.
use mathlib.Core.Path.{fun_ext}
use sub0tiered_cache.Base.{
  ℕ, ◌+◌, ◌<◌, ◌≡◌, refl, sym, ap, subst, ◌∙◌, arith, true, false, none, some, update, update_self,
  min, total-le, total-update,
}
use sub0tiered_cache.Status.{Status}
use sub0tiered_cache.RowCache.State.{Table, Slot, SlotState, with_slot}
use sub0tiered_cache.RowCache.Indexed.{Agrees, insert-Agrees, touch-Agrees}
use sub0tiered_cache.RowCache.Lookup.{index_find, index_insert, unindex_locked}
use sub0tiered_cache.RowCache.Lookup.Frame.{
  index_insert_frame, update_twice, unindex_frame, reindexed,
}
use sub0tiered_cache.RowCache.Lookup.Agreement.{index_find-eq-none_iff, unindex_then}
use sub0tiered_cache.RowCache.Valid.{
  IsValid, update-Counted, update-Marked, update-Bound, is_live, taken,
}
use sub0tiered_cache.RowCache.Valid.Slots.{
  RetiringFollows-other, Alive-current, taken-le, Alike, quiet-IsValid,
}
use sub0tiered_cache.RowCache.Fill.{occupied_by, occupy, refuse, start_flight}

-- The table with the fill counted that is being started.
abbrev pub airborne : Table → Table
airborne t = record t {
  in_flight = t.in_flight + 1;
  current_binding = record (t.current_binding) { in_flight = t.current_binding.in_flight + 1 };
}

-- The slot behind `occupy`.
abbrev pub entered_for : Table → ℕ → Slot → Slot
entered_for t row s = record (occupied_by t row s) { indexed = true }

module _ (t : Table) (i row : ℕ) where
  rekeyed : Table
  rekeyed = with_slot t i (occupied_by t row (t.slots i))

  inserted : Table
  inserted = index_insert rekeyed row t.current_generation i

  -- `occupy` behind `index_insert`.
  mark : Table → Table
  mark u = record u {
    slots = update u.slots i (record (u.slots i) { indexed = true });
    non_free = min t.config.budget_rows (t.non_free + 1);
  }

  pub occupy_frame :
      occupy t i row
      ≡ record (reindexed t
          (occupy t i row).index
          (update t.slots i (entered_for t row (t.slots i)))) {
            non_free = min t.config.budget_rows (t.non_free + 1);
          }
  unfolding occupy rekeyed inserted mark
  occupy_frame =
      let s = occupied_by t row (t.slots i) in
      ap mark (index_insert_frame rekeyed row t.current_generation i)
      ∙ ap
          (λ (slots : ℕ → Slot). record (reindexed t inserted.index slots) {
            non_free = min t.config.budget_rows (t.non_free + 1);
          })
          (ap (λ (x : Slot). update (update t.slots i s) i (record x { indexed = true }))
              (update_self t.slots i s)
            ∙ update_twice t.slots i s (record s { indexed = true }))

module _ (t : Table) (i row : ℕ) (v : IsValid t) (h : i < t.config.budget_rows)
    (free : (t.slots i).state ≡ SlotState.free)
    (absent : index_find t row t.current_generation ≡ none) where
  occupy-Agrees :
      Agrees t.index_bits t.config.budget_rows
        (update t.slots i (entered_for t row (t.slots i)))
        (occupy t i row).index
  unfolding occupy index_insert
  occupy-Agrees =
      let out = v.marked.live i ∙ ap is_live free in
      let (at, found, agrees) =
        insert-Agrees v.indexed i (entered_for t row (t.slots i)) h out refl (λ j member r g.
          (index_find-eq-none_iff t v.indexed row t.current_generation).0 absent j
            (member, r, g)) in
      rw (found, index_insert) agrees

  pub occupy-IsValid : IsValid (airborne (occupy t i row))
  occupy-IsValid =
      let s = entered_for t row (t.slots i) in
      subst IsValid (ap airborne (sym (occupy_frame t i row))) (record {
        indexed = occupy-Agrees;
        marked = update-Marked i s h v.marked refl;
        counted =
            update-Counted i s h (t.in_flight + 1) t.pins_total _ v.counted (ground arith) refl
              (ground (
                arith,
                v.counted.used,
                total-update t.config.budget_rows taken t.slots i s h,
                total-le t.config.budget_rows taken (update t.slots i s) taken-le,
              ))
              (λ e. cc);
        bound =
            update-Bound i s h (airborne t).current_binding t.retiring_binding v.bound refl
              (ground arith)
              (RetiringFollows-other (t.slots i) s t.retiring_binding v.bound
                (λ id ne. ground arith))
              (λ e. Alive-current (airborne t).current_binding t.retiring_binding);
        hand = v.hand;
      })

-- The slot behind `fail`.
abbrev pub failed_with : Status → Slot → Slot
failed_with e s = record s {
  state = SlotState.failed;
  failure = e;
  indexed = false;
  fill_binding = none;
}

-- `fail` up to `unindex_locked`, and behind it.
abbrev failing : Table → ℕ → Status → Table
failing u i e = with_slot u i (record (u.slots i) { state = SlotState.failed; failure = e })

abbrev clear_binding : ℕ → Table → Table
clear_binding i w = with_slot w i (record (w.slots i) { fill_binding = none })

pub refuse_frame :
    (u : Table) (i : ℕ) (e : Status)
    → refuse u i e ≡ reindexed u (refuse u i e).index (update u.slots i (failed_with e (u.slots i)))
unfolding refuse
refuse_frame u i e =
    ap (clear_binding i) (unindex_frame (failing u i e) i)
    ∙ ap (reindexed u (unindex_locked (failing u i e) i).index) (fun_ext (λ j. ground arith))

module _ (u : Table) (i : ℕ) (v : IsValid (airborne u)) (h : i < u.config.budget_rows)
    (flies : (u.slots i).state ≡ SlotState.filling)
    (on : (u.slots i).fill_binding ≡ some u.current_binding.id) where
  refuse-Agrees :
      (e : Status)
      → Agrees u.index_bits u.config.budget_rows
          (update u.slots i (failed_with e (u.slots i)))
          (refuse u i e).index
  unfolding refuse
  refuse-Agrees e =
      let w = failing u i e in
      let agrees =
        touch-Agrees i (record (u.slots i) { state = SlotState.failed; failure = e }) v.indexed refl
          (λ _. (refl, refl)) in
      subst
        (λ (slots : ℕ → Slot).
          Agrees u.index_bits u.config.budget_rows slots (unindex_locked w i).index)
        (update_twice u.slots i _ (failed_with e (u.slots i)))
        (unindex_then w agrees i (failed_with e (u.slots i)) refl)

  pub refuse-IsValid : (e : Status) → IsValid (refuse u i e)
  refuse-IsValid e = subst IsValid (sym (refuse_frame u i e)) (record {
    indexed = refuse-Agrees e;
    marked = update-Marked i (failed_with e (u.slots i)) h v.marked refl;
    counted =
        update-Counted i (failed_with e (u.slots i)) h u.in_flight u.pins_total u.non_free v.counted
          (ground arith) refl (ground arith) (λ e'. cc);
    bound =
        update-Bound i (failed_with e (u.slots i)) h u.current_binding u.retiring_binding v.bound
          refl (ground arith)
          (RetiringFollows-other (u.slots i) (failed_with e (u.slots i)) u.retiring_binding v.bound
            (λ id ne. ground arith))
          (λ e'. cc);
    hand = v.hand;
  })

  pub start_flight-IsValid :
      (s : Slot) (calls bytes head : ℕ)
      → Alike (u.slots i) s
      → s.pins ≡ (u.slots i).pins
      → IsValid (start_flight u i s calls bytes head)
  unfolding start_flight
  start_flight-IsValid s calls bytes head a p =
      let w =
        quiet-IsValid (airborne u) i v h
          (record s { published_bytes = bytes; published_offset = head })
          (record {
            indexed = a.indexed;
            row = a.row;
            generation = a.generation;
            state = a.state;
            binding = a.binding;
          })
          p in
      record {
        indexed = w.indexed;
        marked = w.marked;
        counted = w.counted;
        bound = w.bound;
        hand = w.hand;
      }
