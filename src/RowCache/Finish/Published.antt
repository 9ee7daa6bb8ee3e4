-- ===== src/RowCache/Finish/Published.antt =====
-- What the end of a fill makes of its slot and of the table.
use mathlib.Core.Path.{fun_ext}
use sub0tiered_cache.Base.{
  ℕ, ◌+◌, ◌-◌, ◌≤◌, ◌<◌, ◌≡◌, ◌≢◌, ◌⊎◌, inl, inr, refl, sym, ap, subst, ◌∙◌, arith, Bool, true,
  false, Option, none, some, update, update_self, update_ne, le-total, if◌then◌else◌,
}
use sub0tiered_cache.Status.{Status}
use sub0tiered_cache.RowCache.State.{Table, Slot, SlotState, Binding, converts, is_filling, is_free}
use sub0tiered_cache.RowCache.Indexed.{Agrees, touch-Agrees}
use sub0tiered_cache.RowCache.Lookup.{unindex_locked}
use sub0tiered_cache.RowCache.Lookup.Frame.{unindex_frame}
use sub0tiered_cache.RowCache.Lookup.Agreement.{unindex_then}
use sub0tiered_cache.RowCache.Valid.{
  IsValid, Counted, Bound, update-Counted, update-Marked, update-Bound, is_live, flying, taken,
  flying_on, names,
}
use sub0tiered_cache.RowCache.Finish.{
  land_binding, land_retiring, landed, release_fill, publish_ready, publish_failed, publish,
  count_success, count_failure,
}

land-id : (id : Option ℕ) (b : Binding) → (land_binding id b).id ≡ b.id
unfolding land_binding
land-id none b = refl
land-id (some id) b = ground arith

land_named :
    (id : Option ℕ) (b : Binding)
    → (if names id b.id then 1 else 0) ≤ b.in_flight
    → (land_binding id b).in_flight + (if names id b.id then 1 else 0) ≡ b.in_flight
unfolding land_binding
land_named none b h = omega arith
land_named (some id) b h = ground arith

land-in_flight :
    (s new : Slot) (b : Binding)
    → is_filling s.state ≡ true
    → is_filling new.state ≡ false
    → flying_on b.id s ≤ b.in_flight
    → (land_binding s.fill_binding b).in_flight + flying_on b.id s
      ≡ b.in_flight + flying_on b.id new
land-in_flight s new b e f h = ground (arith, land_named s.fill_binding b)

module _ {n : ℕ} {slots : ℕ → Slot} {current : Binding} {bindings : ℕ} (i : ℕ) (new : Slot)
    (h : i < n) (flies : is_filling (slots i).state ≡ true)
    (lands : is_filling new.state ≡ false) where
  land-Bound :
      (retiring : Option Binding)
      → Bound n slots current retiring bindings
      → Bound n
          (update slots i new)
          (land_binding (slots i).fill_binding current)
          (land_retiring (slots i).fill_binding retiring)
          bindings
  unfolding land_retiring
  land-Bound none v =
      update-Bound i new h _ none v (land-id (slots i).fill_binding current)
        (land-in_flight (slots i) new current flies lands
          (omega (arith, v.counted, le-total n (flying_on current.id) slots i h)))
        tt (λ e. cc)
  land-Bound (some b) v =
      update-Bound i new h _ (some _) v (land-id (slots i).fill_binding current)
        (land-in_flight (slots i) new current flies lands
          (omega (arith, v.counted, le-total n (flying_on current.id) slots i h)))
        (
          land-id (slots i).fill_binding b,
          land-in_flight (slots i) new b flies lands
              (omega (arith, v.retired, le-total n (flying_on b.id) slots i h)),
        )
        (λ e. cc)

-- The slot behind the last critical section, on success and on failure.
abbrev pub ready_from : Bool → Slot → Slot
ready_from converting s = record (landed converting s) { state = SlotState.ready }

abbrev pub failed_from : Bool → Status → Slot → Slot
failed_from converting e s = record (landed converting s) {
  state = SlotState.failed;
  failure = e;
  indexed = false;
}

-- `publish` up to the change of state.
abbrev with_state : Table → ℕ → Slot → Table
with_state t i s = record (release_fill t i) { slots = update t.slots i s }

ready_frame :
    (t : Table) (i : ℕ)
    → publish_ready (release_fill t i) i
      ≡ record (with_state t i (ready_from (converts t) (t.slots i))) {
        counters = count_success (converts t) t.counters;
      }
unfolding publish_ready release_fill
ready_frame t i =
    ap
      (λ (slots : ℕ → Slot). record (release_fill t i) {
        slots = slots;
        counters = count_success (converts t) t.counters;
      })
      (fun_ext (λ j. ground arith))

-- The table that `publish_failed` takes out of the index.
abbrev ended : Table → ℕ → Status → Table
ended t i e = record (release_fill t i) {
  slots =
      update (release_fill t i).slots i
        (record ((release_fill t i).slots i) { state = SlotState.failed; failure = e });
  counters = count_failure e (release_fill t i).counters;
}

failed_frame :
    (t : Table) (i : ℕ) (e : Status)
    → publish_failed (release_fill t i) i e
      ≡ record (with_state t i (failed_from (converts t) e (t.slots i))) {
        counters = count_failure e t.counters;
        index = (publish_failed (release_fill t i) i e).index;
      }
unfolding publish_failed release_fill
failed_frame t i e =
    unindex_frame (ended t i e) i
    ∙ ap
        (λ (slots : ℕ → Slot). record (with_state t i (failed_from (converts t) e (t.slots i))) {
          slots = slots;
          counters = count_failure e t.counters;
          index = (unindex_locked (ended t i e) i).index;
        })
        (fun_ext (λ j. ground arith))

module _ (t : Table) (i : ℕ) (v : IsValid t) (h : i < t.config.budget_rows)
    (flies : (t.slots i).state ≡ SlotState.filling) where
  -- The parts of the invariant that speak of no index, for a slot that is no longer in flight.
  landed-Counted :
      (s : Slot)
      → is_filling s.state ≡ false
      → taken s ≡ 1
      → s.pins ≡ (t.slots i).pins
      → (is_free s.state ≡ true → s.pins ≡ 0)
      → Counted t.config.budget_rows (update t.slots i s) (t.in_flight - 1) t.pins_total t.non_free
  landed-Counted s idle used p zero =
      update-Counted i s h (t.in_flight - 1) t.pins_total t.non_free v.counted
        (ground (arith, v.counted.flights, le-total t.config.budget_rows flying t.slots i h)) (rw p)
        (ground arith) zero

  ready-IsValid : IsValid (publish_ready (release_fill t i) i)
  unfolding release_fill
  ready-IsValid =
      let s = ready_from (converts t) (t.slots i) in
      let member : (t.slots i).indexed ≡ true = v.marked.live i ∙ ap is_live flies in
      subst IsValid (sym (ready_frame t i)) (record {
        indexed = touch-Agrees i s v.indexed refl (λ _. (refl, refl));
        marked = update-Marked i s h v.marked member;
        counted = landed-Counted s refl refl refl (λ e. cc);
        bound = land-Bound i s h (rw flies) refl t.retiring_binding v.bound;
        hand = v.hand;
      })

  failed-Agrees :
      (e : Status)
      → Agrees t.index_bits t.config.budget_rows
          (update t.slots i (failed_from (converts t) e (t.slots i)))
          (publish_failed (release_fill t i) i e).index
  unfolding publish_failed release_fill
  failed-Agrees e =
      let s = failed_from (converts t) e (t.slots i) in
      let w = ended t i e in
      let same : w.slots ≡ update t.slots i (record s { indexed = (t.slots i).indexed }) =
        fun_ext (λ j. ground arith) in
      let agrees =
        subst (λ (f : ℕ → Slot). Agrees t.index_bits t.config.budget_rows f t.index) (sym same)
          (touch-Agrees i (record s { indexed = (t.slots i).indexed }) v.indexed refl
            (λ _. (refl, refl))) in
      subst
        (λ (f : ℕ → Slot). Agrees t.index_bits t.config.budget_rows f (unindex_locked w i).index)
        (fun_ext (λ j. ground arith)) (unindex_then w agrees i s refl)

  failed-IsValid : (e : Status) → IsValid (publish_failed (release_fill t i) i e)
  unfolding release_fill
  failed-IsValid e =
      let s = failed_from (converts t) e (t.slots i) in
      subst IsValid (sym (failed_frame t i e)) (record {
        indexed = failed-Agrees e;
        marked = update-Marked i s h v.marked refl;
        counted = landed-Counted s refl refl refl (λ e. cc);
        bound = land-Bound i s h (rw flies) refl t.retiring_binding v.bound;
        hand = v.hand;
      })

-- The table but for what the end of a fill may touch.
abbrev pub landed_in : Table → Table → Table
landed_in t u = record t {
  slots = u.slots;
  index = u.index;
  in_flight = u.in_flight;
  current_binding = u.current_binding;
  retiring_binding = u.retiring_binding;
  counters = u.counters;
  scratch_used = u.scratch_used;
}

-- The slot as a fill that ends with the result leaves it: Ready and in the index, or Failed with
-- the result and out of it.
abbrev pub Ended : Status → Slot → Type 0
Ended result s =
    ((result ≡ Status.ok) × (s.state ≡ SlotState.ready) × (s.indexed ≡ true))
    ⊎ ((result ≢ Status.ok)
        × (s.state ≡ SlotState.failed)
        × (s.failure ≡ result)
        × (s.indexed ≡ false))

-- The slot keeps its row, its lease's epoch and its pins, and the range that it publishes.
pub record KeepsRow (s s' : Slot) : Type 0 where
  pub row : s'.row_index ≡ s.row_index
  pub generation : s'.row_generation ≡ s.row_generation
  pub epoch : s'.epoch ≡ s.epoch
  pub pins : s'.pins ≡ s.pins
  pub bytes : s'.published_bytes ≡ s.published_bytes
  pub offset : s'.published_offset ≡ s.published_offset

pub record Published (t u : Table) (i : ℕ) (result : Status) : Type 0 where
  pub frame : u ≡ landed_in t u
  pub valid : IsValid u
  pub kept : (j : ℕ) → j ≢ i → u.slots j ≡ t.slots j
  pub keeps : KeepsRow (t.slots i) (u.slots i)
  pub outcome : Ended result (u.slots i)

module _ (t : Table) (i : ℕ) (v : IsValid t) (h : i < t.config.budget_rows)
    (flies : (t.slots i).state ≡ SlotState.filling) where
  Published-as :
      (u : Table) (s : Slot) (result : Status)
      → u ≡ landed_in t u
      → IsValid u
      → u.slots ≡ update t.slots i s
      → KeepsRow (t.slots i) s
      → Ended result s
      → Published t u i result
  Published-as u s result frame valid slots keeps outcome =
      let at = λ (j : ℕ). ap (λ (f : ℕ → Slot). f j) slots in
      let here = at i ∙ update_self t.slots i s in
      record {
        frame = frame;
        valid = valid;
        kept = λ j ne. at j ∙ update_ne t.slots i s j ne;
        keeps = subst (KeepsRow (t.slots i)) (sym here) keeps;
        outcome = subst (Ended result) (sym here) outcome;
      }

  failed-Published :
      (e : Status) → e ≢ Status.ok → Published t (publish_failed (release_fill t i) i e) i e
  unfolding release_fill
  failed-Published e ne =
      let frame = failed_frame t i e in
      Published-as _ (failed_from (converts t) e (t.slots i)) e
        (frame ∙ ap (landed_in t) (sym frame)) (failed-IsValid t i v h flies e)
        (ap (λ (u : Table). u.slots) frame)
        (record {
          row = refl;
          generation = refl;
          epoch = refl;
          pins = refl;
          bytes = refl;
          offset = refl;
        })
        (inr (ne, refl, refl, refl))

  ready-Published : Published t (publish_ready (release_fill t i) i) i Status.ok
  unfolding release_fill
  ready-Published =
      let frame = ready_frame t i in
      Published-as _ (ready_from (converts t) (t.slots i)) Status.ok
        (frame ∙ ap (landed_in t) (sym frame)) (ready-IsValid t i v h flies)
        (ap (λ (u : Table). u.slots) frame)
        (record {
          row = refl;
          generation = refl;
          epoch = refl;
          pins = refl;
          bytes = refl;
          offset = refl;
        })
        (inl (refl, refl, v.marked.live i ∙ ap is_live flies))

  -- The end of a fill makes its slot Ready, or Failed and out of the index, as its result is;
  -- the slot keeps its row, epoch and pins, no other slot is touched, and the table stays valid.
  pub publish-Published : (result : Status) → Published t (publish t i result) i result
  unfolding publish
  publish-Published Status.ok = ready-Published
  publish-Published e = failed-Published e (λ same. cc)
