-- ===== src/RowCache/Prefetch.antt =====
-- prefetch, PrefetchTicket::reset and wait of include/sub0tieredcache/row_cache.hpp.
pub mod Quiet
use sub0tiered_cache.Base.{
  ℕ, zero, suc, ◌+◌, ◌-◌, ◌*◌, ◌%◌, Bool, true, false, not, ◌&&◌, Option, none, some, List, [], ◌∷◌,
  length, update, ltb, ◌==◌, if◌then◌else◌,
}
use sub0tiered_cache.Status.{Status}
use sub0tiered_cache.RowCache.Config.{Result, value, unexpected, Transport, u32_size}
use sub0tiered_cache.RowCache.State.{
  Table, Slot, SlotState, TicketRecord, WaiterEntry, PrefetchTicket, is_ready, is_filling,
}
use sub0tiered_cache.RowCache.Lookup.{index_find}
use sub0tiered_cache.RowCache.Victim.{claim_victim}
use sub0tiered_cache.RowCache.Fill.{start_fill_locked}
use sub0tiered_cache.RowCache.Finish.{Waits, finish_fill, take_over}
use sub0tiered_cache.RowCache.Lease.{count_hit}
use sub0tiered_cache.RowCache.Resolve.{count_coalesced, is_ok, some_out_of_range}

-- The first ticket record from the i-th on that is not in use, with the number of those left.
unfoldable pub free_record : (ℕ → TicketRecord) → ℕ → ℕ → Option ℕ
free_record tickets zero i = none
free_record tickets (suc left) i =
    if (tickets i).in_use then free_record tickets left (i + 1) else some i

unfoldable pub take_record : Table → ℕ → ℕ → Table
take_record t i count = record t {
  tickets = update t.tickets i (record {
    generation = ((t.tickets i).generation + 1) % u32_size;
    count = count;
    held = true;
    in_use = true;
  });
  tickets_held = t.tickets_held + 1;
}

-- A row of the batch: the table, and the slot that the ticket is to observe.
unfoldable pub prefetch_row : Transport → Table → ℕ → Table × Option ℕ
prefetch_row tr t row = elim (index_find t row t.current_generation) [
  | none ↦
      let (u, victim) = claim_victim t in
      elim victim [
        | none ↦ (u, none)
        | some slot ↦ ((start_fill_locked tr u slot row).0, some slot)
      ]
  | some slot ↦
      (if is_ready (t.slots slot).state then count_hit t else count_coalesced t, some slot)
]

unfoldable pub note_waiter : Table → ℕ → Option ℕ → Table
note_waiter t at none = record t {
  waiters = update t.waiters at (record { slot = none; epoch = 0 });
}
note_waiter t at (some slot) = record t {
  waiters = update t.waiters at (record { slot = some slot; epoch = (t.slots slot).epoch });
}

-- The rows from the i-th on; `at` is where the ticket's first waiter stands.
unfoldable pub prefetch_rows : Transport → Table → ℕ → List ℕ → Table
prefetch_rows tr t at [] = t
prefetch_rows tr t at (row ∷ rows) =
    let (u, slot) = prefetch_row tr t row in prefetch_rows tr (note_waiter u at slot) (at + 1) rows

unfoldable pub prefetch : Transport → Table → List ℕ → Table × Result PrefetchTicket
prefetch tr t rows =
    if length rows == 0
    then (t, unexpected Status.empty_range)
    else if ltb t.config.max_batch_rows (length rows)
    then (t, unexpected Status.batch_too_large)
    else if some_out_of_range t.config.row_count rows
    then (t, unexpected Status.out_of_range)
    else elim (free_record t.tickets t.config.max_tickets 0) [
      | none ↦ (t, unexpected Status.ticket_exhausted)
      | some i ↦
          let u = take_record t i (length rows) in
          (
            prefetch_rows tr u (i * t.config.max_batch_rows) rows,
            value (record { record_index = i; generation = (u.tickets i).generation }),
          )
    ]

-- `none` where the source terminates the process.
unfoldable pub discard_ticket : Table → PrefetchTicket → Option Table
discard_ticket t ticket =
    let r = t.tickets ticket.record_index in
    if r.generation == ticket.generation && r.held
    then some (record t {
      tickets = update t.tickets ticket.record_index (record r { held = false; in_use = false });
      tickets_held = t.tickets_held - 1;
    })
    else none

pub record WaitOutcome : Type 0 where
  pub status : Status
  pub filled : ℕ
  pub failed : ℕ
  pub pending : ℕ
  pub evicted : ℕ

abbrev pub no_outcome : WaitOutcome
no_outcome = record { status = Status.ok; filled = 0; failed = 0; pending = 0; evicted = 0 }

-- What the ticket sees of a slot that still has its epoch.
unfoldable pub observe : Slot → WaitOutcome → WaitOutcome
observe s o = elim s.state [
  | SlotState.ready ↦ record o { filled = o.filled + 1 }
  | SlotState.filling ↦ record o { pending = o.pending + 1; status = Status.timeout }
  | _ ↦ record o { failed = o.failed + 1; status = if is_ok o.status then s.failure else o.status }
]

-- A waiter: its fill is driven or awaited, if it is still for the row of the ticket.
unfoldable pub wait_entry :
    Waits → (ℕ → Bool) → Table → WaiterEntry → WaitOutcome → Table × WaitOutcome
wait_entry waits convert t entry o = elim entry.slot [
  | none ↦ (t, record o { evicted = o.evicted + 1 })
  | some slot ↦
      let u =
        if is_filling (t.slots slot).state
        then finish_fill waits convert (take_over t slot) slot
        else t in
      if (t.slots slot).epoch == entry.epoch
      then if (u.slots slot).epoch == entry.epoch
        then (u, observe (u.slots slot) o)
        else (u, record o { evicted = o.evicted + 1 })
      else (t, record o { evicted = o.evicted + 1 })
]

-- The waiters from `at` on, with the number of those left.
unfoldable pub wait_entries : Waits → (ℕ → Bool) → Table → ℕ → ℕ → WaitOutcome → Table × WaitOutcome
wait_entries waits convert t zero at o = (t, o)
wait_entries waits convert t (suc left) at o =
    let (u, o') = wait_entry waits convert t (t.waiters at) o in
    wait_entries waits convert u left (at + 1) o'

-- `wait` on a ticket of this table, where no other call comes between its critical sections. With
-- a deadline a claim may answer timeout.
unfoldable pub wait : Waits → (ℕ → Bool) → Table → PrefetchTicket → Table × WaitOutcome
wait waits convert t ticket =
    wait_entries waits convert t (t.tickets ticket.record_index).count
      (ticket.record_index * t.config.max_batch_rows) no_outcome
