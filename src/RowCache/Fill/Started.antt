-- ===== src/RowCache/Fill/Started.antt =====
-- What start_fill_locked makes of the slot and of the table.
use sub0tiered_cache.Base.{
  ℕ, ◌+◌, ◌%◌, ◌<◌, ◌≡◌, ◌≢◌, ◌⊎◌, inl, inr, refl, sym, ap, subst, ◌∙◌, Bool, true, false, none,
  some, update, update_self, update_ne,
}
use sub0tiered_cache.Status.{Status}
use sub0tiered_cache.RowCache.Config.{
  Result, value, unexpected, Transport, ShardSource, RowLocation, u32_size,
}
use sub0tiered_cache.RowCache.State.{Table, Slot, SlotState}
use sub0tiered_cache.RowCache.Lookup.{index_find}
use sub0tiered_cache.RowCache.Valid.{IsValid}
use sub0tiered_cache.RowCache.Valid.Slots.{Alike}
use sub0tiered_cache.RowCache.Fill.{
  occupy, refuse, Submission, refused, single, chunked, staged, settle, start_flight, start_located,
  start_fill_locked,
}
use sub0tiered_cache.RowCache.Fill.Valid.{
  airborne, entered_for, occupy_frame, occupy-IsValid, failed_with, refuse_frame, refuse-IsValid,
  start_flight-IsValid,
}

-- The table but for what a fill may touch.
abbrev pub filled : Table → Table → Table
filled t u = record t {
  slots = u.slots;
  index = u.index;
  non_free = u.non_free;
  in_flight = u.in_flight;
  current_binding = u.current_binding;
  counters = u.counters;
  scratch_used = u.scratch_used;
  calls = u.calls;
}

-- The slot is for the row of this generation, in the index, and its fill is in flight.
abbrev pub Flying : ℕ → ℕ → Slot → Type 0
Flying row generation s =
    (s.state ≡ SlotState.filling)
    × (s.indexed ≡ true)
    × (s.row_index ≡ row)
    × (s.row_generation ≡ generation)

-- The slot has failed, with the status that the caller is told, and is not in the index.
abbrev pub Refused : Status → Slot → Type 0
Refused e s = (s.state ≡ SlotState.failed) × (s.failure ≡ e) × (s.indexed ≡ false)

-- `u` is `t` behind the start of a fill of slot `i`, which had the epoch and the pins given.
pub record Started (t u : Table) (i row epoch pins : ℕ) (status : Status) : Type 0 where
  pub frame : u ≡ filled t u
  pub valid : IsValid u
  pub kept : (j : ℕ) → j ≢ i → u.slots j ≡ t.slots j
  pub epochs : (u.slots i).epoch ≡ epoch
  pub pinned : (u.slots i).pins ≡ pins
  pub keyed : (u.slots i).row_index ≡ row
  pub dated : (u.slots i).row_generation ≡ t.current_generation
  pub outcome :
      ((status ≡ Status.ok) × Flying row t.current_generation (u.slots i))
      ⊎ Refused status (u.slots i)

module _ (u : Table) (i row : ℕ) (v : IsValid (airborne u)) (h : i < u.config.budget_rows)
    (flies : Flying row u.current_generation (u.slots i))
    (on : (u.slots i).fill_binding ≡ some u.current_binding.id) where
  refuse-Started :
      (e : Status) → Started u (refuse u i e) i row (u.slots i).epoch (u.slots i).pins e
  refuse-Started e =
      let frame = refuse_frame u i e in
      let s = failed_with e (u.slots i) in
      let at = λ (j : ℕ). ap (λ (w : Table). w.slots j) frame in
      let here = at i ∙ update_self u.slots i s in
      record {
        frame = frame ∙ ap (filled u) (sym frame);
        valid = refuse-IsValid u i v h flies.0 on e;
        kept = λ j ne. at j ∙ update_ne u.slots i s j ne;
        epochs = ap (λ (x : Slot). x.epoch) here;
        pinned = ap (λ (x : Slot). x.pins) here;
        keyed = ap (λ (x : Slot). x.row_index) here ∙ flies.2;
        dated = ap (λ (x : Slot). x.row_generation) here ∙ flies.3;
        outcome = inr (
          ap (λ (x : Slot). x.state) here,
          ap (λ (x : Slot). x.failure) here,
          ap (λ (x : Slot). x.indexed) here,
        );
      }

  flight-Started :
      (s : Slot) (calls bytes head : ℕ)
      → Alike (u.slots i) s
      → s.pins ≡ (u.slots i).pins
      → s.epoch ≡ (u.slots i).epoch
      → Started u
          (start_flight u i s calls bytes head)
          i
          row
          (u.slots i).epoch
          (u.slots i).pins
          Status.ok
  unfolding start_flight
  flight-Started s calls bytes head a p e =
      let new = record s { published_bytes = bytes; published_offset = head } in
      let here = update_self u.slots i new in
      record {
        frame = refl;
        valid = start_flight-IsValid u i v h flies.0 on s calls bytes head a p;
        kept = λ j ne. update_ne u.slots i new j ne;
        epochs = ap (λ (x : Slot). x.epoch) here ∙ e;
        pinned = ap (λ (x : Slot). x.pins) here ∙ p;
        keyed = ap (λ (x : Slot). x.row_index) here ∙ a.row ∙ flies.2;
        dated = ap (λ (x : Slot). x.row_generation) here ∙ a.generation ∙ flies.3;
        outcome = inl (
          refl,
          (
            ap (λ (x : Slot). x.state) here ∙ a.state ∙ flies.0,
            ap (λ (x : Slot). x.indexed) here ∙ a.indexed ∙ flies.1,
            ap (λ (x : Slot). x.row_index) here ∙ a.row ∙ flies.2,
            ap (λ (x : Slot). x.row_generation) here ∙ a.generation ∙ flies.3,
          ),
        );
      }

module _ (u : Table) (i row : ℕ) (v : IsValid (airborne u)) (h : i < u.config.budget_rows)
    (flies : Flying row u.current_generation (u.slots i))
    (on : (u.slots i).fill_binding ≡ some u.current_binding.id) where
  -- The table with the calls of the transport that were made, and the scratch rows in use.
  abbrev called : ℕ → (ℕ → Bool) → Table
  called calls used = record u { calls = calls; scratch_used = used }

  called-IsValid : (calls : ℕ) (used : ℕ → Bool) → IsValid (airborne (called calls used))
  called-IsValid calls used = record {
    indexed = v.indexed;
    marked = v.marked;
    counted = v.counted;
    bound = v.bound;
    hand = v.hand;
  }

  called-Started :
      (calls : ℕ) (used : ℕ → Bool) (w : Table) (status : Status)
      → Started (called calls used) w i row (u.slots i).epoch (u.slots i).pins status
      → Started u w i row (u.slots i).epoch (u.slots i).pins status
  called-Started calls used w status s = record {
    frame = s.frame;
    valid = s.valid;
    kept = s.kept;
    epochs = s.epochs;
    pinned = s.pinned;
    keyed = s.keyed;
    dated = s.dated;
    outcome = s.outcome;
  }

  settle-Started :
      (sub : Submission) (bytes head : ℕ)
      → Started u
          (settle u i sub bytes head).0
          i
          row
          (u.slots i).epoch
          (u.slots i).pins
          (settle u i sub bytes head).1
  unfolding settle
  settle-Started (refused calls e) bytes head = called-Started calls u.scratch_used _ e (
      refuse-Started (called calls u.scratch_used) i row (called-IsValid calls u.scratch_used) h
        flies on e)
  settle-Started (single calls claim) bytes head =
      flight-Started u i row v h flies on _ calls bytes head
        (record { indexed = refl; row = refl; generation = refl; state = refl; binding = refl })
        refl refl
  settle-Started (chunked calls claims) bytes head =
      flight-Started u i row v h flies on _ calls bytes head
        (record { indexed = refl; row = refl; generation = refl; state = refl; binding = refl })
        refl refl
  settle-Started (staged calls scratch claim) bytes head =
      let used = update u.scratch_used scratch true in
      called-Started u.calls used _ Status.ok (
        flight-Started (called u.calls used) i row (called-IsValid u.calls used) h flies on _ calls
          bytes head
          (record { indexed = refl; row = refl; generation = refl; state = refl; binding = refl })
          refl refl)

module _ (tr : Transport) (t : Table) (i row : ℕ) (v : IsValid t) (h : i < t.config.budget_rows)
    (free : (t.slots i).state ≡ SlotState.free)
    (absent : index_find t row t.current_generation ≡ none) where
  -- Behind `occupy` the rest of the call can only settle the one slot.
  after_occupy :
      (w : Table) (status : Status)
      → Started
          (occupy t i row)
          w
          i
          row
          ((occupy t i row).slots i).epoch
          ((occupy t i row).slots i).pins
          status
      → Started t w i row (((t.slots i).epoch + 1) % u32_size) (t.slots i).pins status
  after_occupy w status s =
      let frame = occupy_frame t i row in
      let new = entered_for t row (t.slots i) in
      let at = λ (j : ℕ). ap (λ (x : Table). x.slots j) frame in
      let here = at i ∙ update_self t.slots i new in
      record {
        frame = s.frame ∙ ap (λ (x : Table). filled x w) frame;
        valid = s.valid;
        kept = λ j ne. s.kept j ne ∙ at j ∙ update_ne t.slots i new j ne;
        epochs = s.epochs ∙ ap (λ (x : Slot). x.epoch) here;
        pinned = s.pinned ∙ ap (λ (x : Slot). x.pins) here;
        keyed = s.keyed;
        dated = s.dated ∙ ap (λ (x : Table). x.current_generation) frame;
        outcome =
            subst
              (λ (g : ℕ).
                ((status ≡ Status.ok) × Flying row g (w.slots i)) ⊎ Refused status (w.slots i))
              (ap (λ (x : Table). x.current_generation) frame) s.outcome;
      }

  occupied : Flying row (occupy t i row).current_generation ((occupy t i row).slots i)
  occupied =
      subst (λ (x : Table). Flying row x.current_generation (x.slots i))
        (sym (occupy_frame t i row))
        (subst (Flying row t.current_generation)
          (sym (update_self t.slots i (entered_for t row (t.slots i)))) (refl, refl, refl, refl))

  occupied_on : ((occupy t i row).slots i).fill_binding ≡ some (occupy t i row).current_binding.id
  occupied_on =
      subst (λ (x : Table). (x.slots i).fill_binding ≡ some x.current_binding.id)
        (sym (occupy_frame t i row))
        (ap (λ (s : Slot). s.fill_binding) (update_self t.slots i (entered_for t row (t.slots i))))

  located-Started :
      (r : Result (ShardSource × RowLocation))
      → Started t
          (start_located tr (occupy t i row) i r).0
          i
          row
          (((t.slots i).epoch + 1) % u32_size)
          (t.slots i).pins
          (start_located tr (occupy t i row) i r).1
  unfolding start_located
  located-Started r =
      let u = occupy t i row in
      let w = occupy-IsValid t i row v h free absent in
      let k : i < u.config.budget_rows =
        subst (λ (x : Table). i < x.config.budget_rows) (sym (occupy_frame t i row)) h in
      let cases : (x : Result (ShardSource × RowLocation))
          → Started u (start_located tr u i x).0 i row (u.slots i).epoch (u.slots i).pins
              (start_located tr u i x).1 =
        elim [
          | unexpected e ↦ refuse-Started u i row w k occupied occupied_on e
          | value x ↦ settle-Started u i row w k occupied occupied_on _ _ _
        ] in
      after_occupy _ _ (cases r)

  -- The fill of a Free slot, for a row that is not in the index, is in flight behind the call, or
  -- the slot has failed with the status that the call returns; no other slot is touched, and the
  -- table stays valid.
  pub start_fill-Started :
      Started t
        (start_fill_locked tr t i row).0
        i
        row
        (((t.slots i).epoch + 1) % u32_size)
        (t.slots i).pins
        (start_fill_locked tr t i row).1
  unfolding start_fill_locked
  start_fill-Started = located-Started _
