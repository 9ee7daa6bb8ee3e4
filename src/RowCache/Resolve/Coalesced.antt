-- ===== src/RowCache/Resolve/Coalesced.antt =====
-- A row that is resident or on its way is not fetched again; and resolve_one, which
-- include/sub0tieredcache/row_cache.hpp defines and does not call.
use sub0tiered_cache.Base.{
  ℕ, ◌+◌, ◌==◌, ◌≡◌, ◌⊎◌, inl, inr, refl, sym, ap, ◌∙◌, Bool, true, false, none, some,
  if◌then◌else◌, ltb, update, update_self,
}
use sub0tiered_cache.Status.{Status}
use sub0tiered_cache.RowCache.Config.{Result, value, unexpected, Transport}
use sub0tiered_cache.RowCache.State.{
  Table, Slot, SlotState, TableStats, RowLease, is_filling, is_ready,
}
use sub0tiered_cache.RowCache.Valid.{IsValid, is_live}
use sub0tiered_cache.RowCache.Lookup.Agreement.{IsEntered, index_find_iff}
use sub0tiered_cache.RowCache.Lookup.{index_find}
use sub0tiered_cache.RowCache.Finish.{Waits, take_over, finish_fill}
use sub0tiered_cache.RowCache.Lease.{pin, unpin_locked, lease_on, published, count_hit}
use sub0tiered_cache.RowCache.Resolve.{count_coalesced, admit_miss, admit}

-- `resolve_one` behind the pin.
unfoldable pub conclude_one :
    Waits
    → (ℕ → Bool)
    → Table
    → ℕ
    → ℕ
    → (became_finisher found_ready : Bool) → Table × Result RowLease
conclude_one waits convert t slot row became_finisher found_ready =
    let u =
      if became_finisher
      then finish_fill waits convert (take_over t slot) slot
      else if is_filling (t.slots slot).state
      then finish_fill waits convert (take_over t slot) slot
      else t in
    if (u.slots slot).epoch == (t.slots slot).epoch
    then if is_ready (u.slots slot).state
      then (if found_ready then count_hit u else u, value (published u (lease_on u slot row)))
      else (unpin_locked u slot, unexpected (u.slots slot).failure)
    else (u, unexpected Status.pool_exhausted)

-- `resolve_one`, where no other call comes between its critical sections.
unfoldable pub resolve_one : Transport → Waits → (ℕ → Bool) → Table → ℕ → Table × Result RowLease
resolve_one tr waits convert t row =
    if ltb row t.config.row_count
    then elim (index_find t row t.current_generation) [
      | none ↦
          let (u, admitted) = admit_miss tr t row in
          elim admitted [
            | unexpected e ↦ (u, unexpected e)
            | value slot ↦ conclude_one waits convert (pin u slot) slot row true false
          ]
      | some slot ↦
          let u = if is_filling (t.slots slot).state then count_coalesced t else t in
          conclude_one waits convert (pin u slot) slot row false (is_ready (t.slots slot).state)
    ]
    else (t, unexpected Status.out_of_range)

-- `u` is `t` behind a call that joins slot `i`: one pin more on the slot, its second-chance bit
-- set, and the counters given. Nothing else changes.
abbrev pub joined_table : Table → ℕ → TableStats → Table
joined_table t i c = record t {
  slots = update t.slots i (record (t.slots i) { pins = (t.slots i).pins + 1; referenced = true });
  pins_total = t.pins_total + 1;
  counters = c;
}

-- The lease of a row that is joined, with no bytes yet.
abbrev pub joined_lease : Table → ℕ → ℕ → RowLease
joined_lease t i row = record {
  held = true;
  slot = i;
  epoch = (t.slots i).epoch;
  bytes_offset = 0;
  bytes_size = 0;
  row_index = row;
  generation = t.current_generation;
}

abbrev pub outcome : Table → RowLease → Table × Result RowLease
outcome u l = (u, value l)

-- The slot is Filling, and a call that joined it is counted as coalesced, or it is Ready, and the
-- call is counted as a hit.
abbrev pub Coalesces : Table → ℕ → ℕ → Table × Result RowLease → Type 0
Coalesces t i row x =
    ((is_filling (t.slots i).state ≡ true)
      × (x
          ≡ outcome
              (joined_table t i (record (t.counters) { coalesced = t.counters.coalesced + 1 }))
              (joined_lease t i row)))
    ⊎ ((is_ready (t.slots i).state ≡ true)
        × (x
            ≡ outcome (joined_table t i (record (t.counters) { hits = t.counters.hits + 1 }))
                (joined_lease t i row)))

live_cases :
    (s : SlotState)
    → is_live s ≡ true
    → ((is_filling s ≡ true) × (is_ready s ≡ false))
      ⊎ ((is_filling s ≡ false) × (is_ready s ≡ true))
live_cases SlotState.free e = absurd (cc e)
live_cases SlotState.filling e = inl (refl, refl)
live_cases SlotState.ready e = inr (refl, refl)
live_cases SlotState.failed e = absurd (cc e)

module _ (tr : Transport) (t : Table) (row i : ℕ) (v : IsValid t)
    (entered : IsEntered t row t.current_generation i) where
  -- A row that a slot of a valid table holds in the index, under the current generation, is
  -- joined: the slot is Filling or Ready, the lease is on it, with its epoch, and the only changes
  -- are one pin more, the second-chance bit and one count, of a coalesced call or of a hit. So no
  -- call of the transport is made, no fill starts and no slot is evicted.
  pub admit_joins : Coalesces t i row (admit tr t row)
  unfolding admit pin lease_on count_hit count_coalesced
  admit_joins =
      let found = (index_find_iff t v.indexed row t.current_generation i).1 entered in
      elim (live_cases (t.slots i).state (sym (v.marked.live i) ∙ entered.0)) [
        | inl (filling, unready) ↦
            inl (filling, rw (found, admit) (rw (filling, unready) (pinned _)))
        | inr (unfilling, ready) ↦ inr (ready, rw (found, admit) (rw (unfilling, ready) (pinned _)))
      ]
    where
      at_slot :
          update t.slots i (record (t.slots i) { pins = (t.slots i).pins + 1; referenced = true }) i
          ≡ record (t.slots i) { pins = (t.slots i).pins + 1; referenced = true }
      at_slot = update_self t.slots i _

      pinned :
          (c : TableStats)
          → outcome (joined_table t i c) (lease_on (joined_table t i c) i row)
            ≡ outcome (joined_table t i c) (joined_lease t i row)
      pinned c = ap (outcome (joined_table t i c)) (
          ap
            (λ (x : Slot). record (joined_lease t i row) {
              epoch = x.epoch;
              generation = x.row_generation;
            })
            at_slot
          ∙ ap (λ (g : ℕ). record (joined_lease t i row) { generation = g }) entered.2)
