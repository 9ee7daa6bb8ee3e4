-- ===== src/Remote/Backend.antt =====
-- include/sub0tieredcache/remote/mirror_backend.hpp: a bounded queue of fill requests, and the
-- workers that read them from mirrors. How a read of a mirror ends is an argument. A mirror is a
-- number; a request's destination is its length, and its sink and token are the token. The
-- capacity of `sources_` is what was reserved; a delivery is taken together with the counters that
-- are updated behind it.
pub mod Queue
pub mod Delivery
use sub0tiered_cache.Base.{
  ℕ, zero, suc, ◌+◌, ◌-◌, ◌%◌, Bool, true, false, ◌||◌, Option, none, some, List, [], ◌∷◌, ◌++◌,
  max, length, update, ◌==◌, if◌then◌else◌,
}
use sub0tiered_cache.Status.{MempageStatus}
use sub0tiered_cache.Remote.{Status}

pub record MirrorBackendConfig : Type 0 where
  pub workers : ℕ
  pub queue_capacity : ℕ
  pub max_sources : ℕ

pub record MirrorBackendStats : Type 0 where
  pub accepted : ℕ
  pub rejected_queue_full : ℕ
  pub completed_ok : ℕ
  pub short_reads : ℕ
  pub errors : ℕ
  pub cancelled : ℕ
  pub bytes_read : ℕ
  pub queue_high_water : ℕ
  pub in_flight : ℕ

pub record FillRequest : Type 0 where
  pub token : ℕ
  pub source : ℕ
  pub source_offset : ℕ
  pub size : ℕ

pub record SourceEntry : Type 0 where
  pub source : ℕ
  pub mirror : ℕ

-- `source_known` is whether there is a mirror.
pub record WorkItem : Type 0 where
  pub request : FillRequest
  pub mirror : Option ℕ

pub record MirrorBackend : Type 0 where
  pub sources : List SourceEntry
  pub max_sources : ℕ
  pub ring : ℕ → WorkItem
  -- `ring_.size()`.
  pub capacity : ℕ
  pub head : ℕ
  pub ring_size : ℕ
  pub shutting_down : Bool
  pub stats : MirrorBackendStats

-- What a request is told, once.
pub record Completion : Type 0 where
  pub token : ℕ
  pub status : MempageStatus
  pub bytes : ℕ

pub record ReadOutcome : Type 0 where
  pub status : Status
  pub bytes : ℕ

abbrev pub empty_item : WorkItem
empty_item = record {
  request = record { token = 0; source = 0; source_offset = 0; size = 0 };
  mirror = none;
}

abbrev pub no_stats : MirrorBackendStats
no_stats = record {
  accepted = 0;
  rejected_queue_full = 0;
  completed_ok = 0;
  short_reads = 0;
  errors = 0;
  cancelled = 0;
  bytes_read = 0;
  queue_high_water = 0;
  in_flight = 0;
}

-- A backend with nothing to do.
abbrev pub idle_backend : MirrorBackendConfig → MirrorBackend
idle_backend c = record {
  sources = [];
  max_sources = c.max_sources;
  ring = λ i. empty_item;
  capacity = c.queue_capacity;
  head = 0;
  ring_size = 0;
  shutting_down = false;
  stats = no_stats;
}

-- `create`: none is invalid_argument. The threads that it starts run `take_item` and `perform`.
unfoldable pub create : MirrorBackendConfig → Option MirrorBackend
create c =
    if c.workers == 0 || c.queue_capacity == 0 || c.max_sources == 0
    then none
    else some (idle_backend c)

-- `find_source_locked`: the mirror of the first entry of the source.
unfoldable pub find_source : List SourceEntry → ℕ → Option ℕ
find_source [] source = none
find_source (entry ∷ entries) source =
    if entry.source == source then some entry.mirror else find_source entries source

abbrev pub is_known : Option ℕ → Bool
is_known none = false
is_known (some m) = true

unfoldable pub register_mirror : MirrorBackend → ℕ → ℕ → MirrorBackend × MempageStatus
register_mirror b source mirror =
    if is_known (find_source b.sources source)
    then (b, MempageStatus.invalid_argument)
    else if length b.sources == b.max_sources
    then (b, MempageStatus.ticket_exhausted)
    else (
      record b { sources = b.sources ++ record { source = source; mirror = mirror } ∷ [] },
      MempageStatus.ok,
    )

abbrev pub item_for : MirrorBackend → FillRequest → WorkItem
item_for b request = record { request = request; mirror = find_source b.sources request.source }

unfoldable pub submit : MirrorBackend → FillRequest → MirrorBackend × Bool
submit b request =
    if b.shutting_down || b.ring_size == b.capacity
    then (
      record b {
        stats = record (b.stats) { rejected_queue_full = b.stats.rejected_queue_full + 1 };
      },
      false,
    )
    else (
      record b {
        ring = update b.ring ((b.head + b.ring_size) % b.capacity) (item_for b request);
        ring_size = b.ring_size + 1;
        stats = record (b.stats) {
          accepted = b.stats.accepted + 1;
          queue_high_water = max b.stats.queue_high_water (b.ring_size + 1);
        };
      },
      true,
    )

-- The front of the ring, which is not empty.
unfoldable pub pop_front : MirrorBackend → MirrorBackend
pop_front b = record b { head = (b.head + 1) % b.capacity; ring_size = b.ring_size - 1 }

-- The critical section of `worker_loop`: none where the worker waits or ends.
unfoldable pub take_item : MirrorBackend → Option (WorkItem × MirrorBackend)
take_item b =
    if b.ring_size == 0
    then none
    else some (
      b.ring b.head,
      record (pop_front b) { stats = record (b.stats) { in_flight = b.stats.in_flight + 1 } },
    )

-- What a read's outcome is reported as.
unfoldable pub report : ReadOutcome → MempageStatus × ℕ
report o = elim o.status [
  | Status.ok ↦ (MempageStatus.ok, o.bytes)
  | Status.truncated ↦ (MempageStatus.ok, o.bytes)
  | _ ↦ (MempageStatus.io_error, 0)
]

abbrev pub is_ok : MempageStatus → Bool
is_ok MempageStatus.ok = true
is_ok _ = false

unfoldable pub count_result :
    MempageStatus → (bytes size : ℕ) → MirrorBackendStats → MirrorBackendStats
count_result status bytes size s =
    let t = record s { bytes_read = s.bytes_read + bytes; in_flight = s.in_flight - 1 } in
    if is_ok status
    then if bytes == size
      then record t { completed_ok = s.completed_ok + 1 }
      else record t { short_reads = s.short_reads + 1 }
    else record t { errors = s.errors + 1 }

-- `perform`, for a read that ends as given: the backend behind it, and the one delivery.
unfoldable pub perform : MirrorBackend → WorkItem → ReadOutcome → MirrorBackend × Completion
perform b item outcome = elim item.mirror [
  | none ↦ (
    record b {
      stats = record (b.stats) { errors = b.stats.errors + 1; in_flight = b.stats.in_flight - 1 };
    },
    record { token = item.request.token; status = MempageStatus.invalid_argument; bytes = 0 },
  )
  | some mirror ↦
      let (status, bytes) = report outcome in
      (
        record b { stats = count_result status bytes item.request.size b.stats },
        record { token = item.request.token; status = status; bytes = bytes },
      )
]

-- The loop of `shutdown` that empties the ring, oldest first; its fuel is the number of items.
unfoldable pub drain_ring : ℕ → MirrorBackend → MirrorBackend × List WorkItem
drain_ring zero b = (b, [])
drain_ring (suc n) b = let (c, items) = drain_ring n (pop_front b) in (c, b.ring b.head ∷ items)

-- The critical section of `shutdown`; the items are to be cancelled.
unfoldable pub shutdown : MirrorBackend → MirrorBackend × List WorkItem
shutdown b =
    if b.shutting_down then (b, []) else drain_ring b.ring_size (record b { shutting_down = true })

-- A round of the loop that delivers the cancellations.
unfoldable pub cancel : MirrorBackend → WorkItem → MirrorBackend × Completion
cancel b item = (
  record b { stats = record (b.stats) { cancelled = b.stats.cancelled + 1 } },
  record { token = item.request.token; status = MempageStatus.cancelled; bytes = 0 },
)
