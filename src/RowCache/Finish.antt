-- ===== src/RowCache/Finish.antt =====
-- finish_fill, release_scratch and the completion worker of
-- include/sub0tieredcache/row_cache.hpp. What the transport's claims answer to `wait`, and what a
-- codec answers, are arguments: `waits` takes a claim, `convert` a slot.
pub mod Published
pub mod Retry
use sub0tiered_cache.Base.{
  ℕ, zero, suc, ◌+◌, ◌-◌, Bool, true, false, not, ◌&&◌, Option, none, some, List, [], ◌∷◌, update,
  ◌==◌, if◌then◌else◌,
}
use sub0tiered_cache.Status.{Status, MempageStatus, from_mempage}
use sub0tiered_cache.RowCache.State.{
  Table, Slot, SlotState, Binding, TableStats, with_slot, converts, is_filling,
}
use sub0tiered_cache.RowCache.Lookup.{unindex_locked}

abbrev pub Waits : Type 0
Waits = ℕ → MempageStatus

-- The chunks in order, up to the first that is not ok.
unfoldable pub wait_chunks : Waits → List ℕ → MempageStatus
wait_chunks waits [] = MempageStatus.ok
wait_chunks waits (claim ∷ claims) =
    let rest = wait_chunks waits claims in
    elim (waits claim) [ MempageStatus.ok ↦ rest | other ↦ other ]

-- A Filling slot with neither a claim nor chunks does not occur: the source would read an empty
-- optional.
unfoldable pub raw_status : Waits → Slot → MempageStatus
raw_status waits s = elim s.chunk_claims [
  | claim ∷ claims ↦ wait_chunks waits (claim ∷ claims)
  | [] ↦ elim s.claim [ none ↦ MempageStatus.invalid_argument | some claim ↦ waits claim ]
]

-- The row's result once the transport is done, `convert` being the codec's answer.
unfoldable pub fill_result : Bool → Bool → MempageStatus → Status
fill_result converting convert MempageStatus.ok =
    if converting then if convert then Status.ok else Status.codec_failed else Status.ok
fill_result converting convert raw = from_mempage raw

unfoldable pub release_scratch : Option ℕ → (ℕ → Bool) → ℕ → Bool
release_scratch none used = used
release_scratch (some i) used = update used i false

-- `--s.fill_binding->in_flight`, through the pointer, on each binding that it may point to.
unfoldable pub land_binding : Option ℕ → Binding → Binding
land_binding none b = b
land_binding (some id) b = if b.id == id then record b { in_flight = b.in_flight - 1 } else b

unfoldable pub land_retiring : Option ℕ → Option Binding → Option Binding
land_retiring id none = none
land_retiring id (some b) = some (land_binding id b)

-- The slot without its claims.
abbrev pub landed : Bool → Slot → Slot
landed converting s = record s {
  claim = none;
  chunk_claims = [];
  scratch_slot = if converting then none else s.scratch_slot;
  fill_binding = none;
  finishing = false;
}

unfoldable pub count_success : Bool → TableStats → TableStats
count_success converting c = record c {
  conversions = if converting then c.conversions + 1 else c.conversions;
}

abbrev pub is_codec_failure : Status → Bool
is_codec_failure Status.codec_failed = true
is_codec_failure _ = false

unfoldable pub count_failure : Status → TableStats → TableStats
count_failure e c = record c {
  failed = c.failed + 1;
  codec_failures = if is_codec_failure e then c.codec_failures + 1 else c.codec_failures;
}

-- The claims are released and the counts of fills in flight fall.
unfoldable pub release_fill : Table → ℕ → Table
release_fill t slot =
    let s = t.slots slot in
    record t {
      slots = update t.slots slot (landed (converts t) s);
      scratch_used =
          if converts t then release_scratch s.scratch_slot t.scratch_used else t.scratch_used;
      in_flight = t.in_flight - 1;
      current_binding = land_binding s.fill_binding t.current_binding;
      retiring_binding = land_retiring s.fill_binding t.retiring_binding;
    }

unfoldable pub publish_ready : Table → ℕ → Table
publish_ready t slot = record t {
  slots = update t.slots slot (record (t.slots slot) { state = SlotState.ready });
  counters = count_success (converts t) t.counters;
}

unfoldable pub publish_failed : Table → ℕ → Status → Table
publish_failed t slot e =
    unindex_locked
      (record t {
        slots =
            update t.slots slot (record (t.slots slot) { state = SlotState.failed; failure = e });
        counters = count_failure e t.counters;
      })
      slot

-- The last critical section of `finish_fill`.
unfoldable pub publish : Table → ℕ → Status → Table
publish t slot Status.ok = publish_ready (release_fill t slot) slot
publish t slot e = publish_failed (release_fill t slot) slot e

unfoldable pub relinquish : Table → ℕ → Table
relinquish t slot = with_slot t slot (record (t.slots slot) { finishing = false })

-- `finish_fill`, where nobody else comes between its critical sections.
unfoldable pub finish_fill : Waits → (ℕ → Bool) → Table → ℕ → Table
finish_fill waits convert t slot =
    if is_filling (t.slots slot).state
    then elim (raw_status waits (t.slots slot)) [
      | MempageStatus.timeout ↦ relinquish t slot
      | raw ↦ publish t slot (fill_result (converts t) (convert slot) raw)
    ]
    else t

-- `find_unclaimed_filling_locked` from the i-th slot on, with the number of those left.
unfoldable pub find_unclaimed : (ℕ → Slot) → ℕ → ℕ → Option ℕ
find_unclaimed slots zero i = none
find_unclaimed slots (suc left) i =
    if is_filling (slots i).state && not (slots i).finishing
    then some i
    else find_unclaimed slots left (i + 1)

-- `finishing = true`: the caller becomes the fill's finisher.
unfoldable pub take_over : Table → ℕ → Table
take_over t slot = with_slot t slot (record (t.slots slot) { finishing = true })

-- A round of `worker_loop`: none where the worker would wait or stop.
unfoldable pub worker_round : Waits → (ℕ → Bool) → Table → Option Table
worker_round waits convert t = elim (find_unclaimed t.slots t.config.budget_rows 0) [
  | none ↦ none
  | some slot ↦ some (finish_fill waits convert (take_over t slot) slot)
]
