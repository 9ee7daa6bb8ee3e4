-- ===== src/RowCache/Victim.antt =====
-- claim_victim of include/sub0tieredcache/row_cache.hpp: the CLOCK sweep.
pub mod Sound
pub mod Found
use sub0tiered_cache.Base.{
  ℕ, zero, suc, ◌+◌, ◌*◌, ◌%◌, ◌^◌, Bool, true, false, Option, none, some, ◌==◌, if◌then◌else◌,
}
use sub0tiered_cache.RowCache.Config.{u32_size}
use sub0tiered_cache.RowCache.State.{Table, Slot, SlotState, with_slot}
use sub0tiered_cache.RowCache.Lookup.{make_free}

-- What the sweep does with the slot under the hand.
pub data Verdict : Type 0 where
  take skip reclaim spare evict : Verdict

unfoldable pub judge : SlotState → ℕ → Bool → Verdict
judge SlotState.free pins referenced = Verdict.take
judge SlotState.filling pins referenced = Verdict.skip
judge SlotState.failed pins referenced = if pins == 0 then Verdict.reclaim else Verdict.skip
judge SlotState.ready pins referenced =
    if pins == 0 then if referenced then Verdict.spare else Verdict.evict else Verdict.skip

unfoldable pub advance_hand : Table → Table
advance_hand t = record t {
  clock_hand = if t.clock_hand + 1 == t.config.budget_rows then 0 else t.clock_hand + 1;
}

abbrev pub count_eviction : Table → Table
count_eviction t = record t {
  counters = record (t.counters) { evictions = t.counters.evictions + 1 };
}

abbrev pub spared : Slot → Slot
spared s = record s { referenced = false }

-- The loop, with the steps that are left.
unfoldable pub sweep : ℕ → Table → Table × Option ℕ
sweep zero t = (t, none)
sweep (suc steps) t =
    let slot = t.clock_hand in
    let s = t.slots slot in
    let u = advance_hand t in
    elim (judge s.state s.pins s.referenced) [
      | Verdict.take ↦ (u, some slot)
      | Verdict.skip ↦ sweep steps u
      | Verdict.reclaim ↦ (make_free u slot, some slot)
      | Verdict.spare ↦ sweep steps (with_slot u slot (spared s))
      | Verdict.evict ↦ (make_free (count_eviction u) slot, some slot)
    ]

-- `step < 2 * n`, in uint32_t.
unfoldable pub claim_victim : Table → Table × Option ℕ
claim_victim t = sweep (2 * t.config.budget_rows % u32_size) t
