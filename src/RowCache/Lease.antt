-- ===== src/RowCache/Lease.antt =====
-- Pins and leases: unpin_locked, release_lease, RowLease::reset and try_get of
-- include/sub0tieredcache/row_cache.hpp. `none` where the source terminates the process.
pub mod Pins
use sub0tiered_cache.Base.{
  ℕ, ◌+◌, ◌-◌, ◌*◌, Bool, true, false, not, ◌&&◌, Option, none, some, List, [], ◌∷◌, ltb, ◌==◌,
  if◌then◌else◌,
}
use sub0tiered_cache.RowCache.State.{
  Table, Slot, RowLease, no_lease, TableStats, with_slot, is_ready,
}
use sub0tiered_cache.RowCache.Lookup.{index_find}

unfoldable pub pin : Table → ℕ → Table
pin t slot =
    let s = t.slots slot in
    record (with_slot t slot (record s { pins = s.pins + 1; referenced = true })) {
      pins_total = t.pins_total + 1;
    }

unfoldable pub unpin_locked : Table → ℕ → Table
unpin_locked t slot =
    let s = t.slots slot in
    record (with_slot t slot (record s { pins = s.pins - 1 })) { pins_total = t.pins_total - 1 }

unfoldable pub release_lease : Table → ℕ → ℕ → Option Table
release_lease t slot epoch =
    if (t.slots slot).epoch == epoch && not ((t.slots slot).pins == 0)
    then some (unpin_locked t slot)
    else none

-- `RowLease::reset`; the lease is empty behind it.
unfoldable pub reset_lease : Table → RowLease → Option Table
reset_lease t l = if l.held then release_lease t l.slot l.epoch else some t

-- The leases are reset in order.
unfoldable pub reset_leases : Table → List RowLease → Option Table
reset_leases t [] = some t
reset_leases t (l ∷ ls) = elim (reset_lease t l) [ none ↦ none | some u ↦ reset_leases u ls ]

-- A lease on the slot, with no bytes yet.
unfoldable pub lease_on : Table → ℕ → ℕ → RowLease
lease_on t slot row = record {
  held = true;
  slot = slot;
  epoch = (t.slots slot).epoch;
  bytes_offset = 0;
  bytes_size = 0;
  row_index = row;
  generation = (t.slots slot).row_generation;
}

-- `published_span`, as a range of the output storage.
unfoldable pub published : Table → RowLease → RowLease
published t l = record l {
  bytes_offset = l.slot * t.config.output_row_bytes + (t.slots l.slot).published_offset;
  bytes_size = (t.slots l.slot).published_bytes;
}

unfoldable pub count_hit : Table → Table
count_hit t = record t { counters = record (t.counters) { hits = t.counters.hits + 1 } }

unfoldable pub count_miss : Table → Table
count_miss t = record t { counters = record (t.counters) { misses = t.counters.misses + 1 } }

-- The lease on a pinned slot that is Ready.
unfoldable pub take_ready : Table → ℕ → ℕ → Table × Option RowLease
take_ready t slot row = (t, some (published t (lease_on t slot row)))

unfoldable pub try_get : Table → ℕ → Table × Option RowLease
try_get t row =
    if ltb row t.config.row_count
    then elim (index_find t row t.current_generation) [
      | none ↦ (count_miss t, none)
      | some slot ↦
          if is_ready (t.slots slot).state
          then take_ready (count_hit (pin t slot)) slot row
          else (count_miss t, none)
    ]
    else (t, none)
