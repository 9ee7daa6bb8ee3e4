-- ===== src/RowCache/Fill.antt =====
-- start_fill_locked of include/sub0tieredcache/row_cache.hpp: a slot is admitted for a row, and
-- the transport is asked for its bytes.
pub mod Valid
pub mod Started
pub mod Window
use sub0tiered_cache.Base.{
  ℕ, zero, suc, ◌+◌, ◌-◌, ◌*◌, ◌/◌, ◌%◌, Bool, true, false, not, ◌&&◌, ◌||◌, Option, none, some,
  List, [], ◌∷◌, ◌++◌, update, get_elem?, min, ltb, leb, ◌==◌, if◌then◌else◌,
}
use sub0tiered_cache.Status.{Status, MempageStatus, from_mempage}
use sub0tiered_cache.RowCache.Config.{
  Result, value, unexpected, RowExtent, exact, bounded, ByteRange, ShardSource, RowLocation,
  TableConfig, Transport, u32_size, u64_size,
}
use sub0tiered_cache.RowCache.State.{Table, Slot, SlotState, Binding, with_slot, converts}
use sub0tiered_cache.RowCache.Lookup.{index_insert, unindex_locked}

-- The slot with its new key.
abbrev pub occupied_by : Table → ℕ → Slot → Slot
occupied_by t row s = record s {
  row_index = row;
  row_generation = t.current_generation;
  epoch = (s.epoch + 1) % u32_size;
  state = SlotState.filling;
  failure = Status.ok;
  finishing = false;
  scratch_slot = none;
  fill_binding = some t.current_binding.id;
}

unfoldable pub occupy : Table → ℕ → ℕ → Table
occupy t slot row =
    let u =
      index_insert (with_slot t slot (occupied_by t row (t.slots slot))) row t.current_generation
        slot in
    record u {
      slots = update u.slots slot (record (u.slots slot) { indexed = true });
      non_free = min t.config.budget_rows (t.non_free + 1);
    }

-- The lambda `fail`.
unfoldable pub refuse : Table → ℕ → Status → Table
refuse t slot status =
    let u =
      unindex_locked
        (with_slot t slot (record (t.slots slot) { state = SlotState.failed; failure = status }))
        slot in
    with_slot u slot (record (u.slots slot) { fill_binding = none })

unfoldable pub length_ok : TableConfig → ℕ → Bool
length_ok c length = elim c.row_extent [
  | bounded ↦ not (length == 0) && leb length c.source_row_bytes
  | exact ↦ length == c.source_row_bytes
]

-- The shard and the place of a row, checked.
unfoldable pub locate : TableConfig → Binding → ℕ → Result (ShardSource × RowLocation)
locate c b row = elim (b.resolver row) [
  | unexpected e ↦ unexpected e
  | value location ↦ elim (get_elem? b.sources location.shard) [
    | none ↦ unexpected Status.out_of_range
    | some shard ↦
        if length_ok c location.range.length
        then if ltb shard.bytes location.range.offset
            || ltb (shard.bytes - location.range.offset) location.range.length
          then unexpected Status.out_of_range
          else value (shard, location)
        else unexpected Status.invalid_argument
  ]
]

-- What is read into the slot, and where the row starts in it, with the arithmetic of uint64_t.
unfoldable pub fill_window : TableConfig → ShardSource → ByteRange → ByteRange × ℕ
fill_window c shard range =
    if c.fill_alignment == 0
    then (range, 0)
    else let start = range.offset / c.fill_alignment * c.fill_alignment in
      let end =
        min
          ((range.offset + range.length + c.fill_alignment + u64_size - 1)
            % u64_size
            / c.fill_alignment
            * c.fill_alignment)
          shard.bytes in
      (
        record { offset = start; length = (end + u64_size - start) % u64_size },
        range.offset - start,
      )

-- What came of the requests to the transport. `calls` is how many were made so far.
pub data Submission : Type 0 where
  refused : (calls : ℕ) → Status → Submission
  single : (calls claim : ℕ) → Submission
  chunked : (calls : ℕ) → List ℕ → Submission
  staged : (calls scratch claim : ℕ) → Submission

-- `acquire_scratch` from the i-th on, with the number of those left.
unfoldable pub acquire_scratch : (ℕ → Bool) → ℕ → ℕ → Option ℕ
acquire_scratch used zero i = none
acquire_scratch used (suc left) i = if used i then acquire_scratch used left (i + 1) else some i

-- The fill is in flight: the slot `s` holds its claims.
unfoldable pub start_flight : Table → ℕ → Slot → (calls bytes head : ℕ) → Table
start_flight t slot s calls bytes head = record t {
  slots = update t.slots slot (record s { published_bytes = bytes; published_offset = head });
  in_flight = t.in_flight + 1;
  current_binding = record (t.current_binding) { in_flight = t.current_binding.in_flight + 1 };
  counters = record (t.counters) { fetches = t.counters.fetches + 1 };
  calls = calls;
}

unfoldable pub settle : Table → ℕ → Submission → (bytes head : ℕ) → Table × Status
settle t slot (refused calls e) bytes head = (refuse (record t { calls = calls }) slot e, e)
settle t slot (single calls claim) bytes head =
    (start_flight t slot (record (t.slots slot) { claim = some claim }) calls bytes head, Status.ok)
settle t slot (chunked calls claims) bytes head = (
  start_flight t slot (record (t.slots slot) { chunk_claims = claims }) calls bytes head,
  Status.ok,
)
settle t slot (staged calls scratch claim) bytes head = (
  start_flight (record t { scratch_used = update t.scratch_used scratch true }) slot
      (record (t.slots slot) { scratch_slot = some scratch; claim = some claim }) calls bytes head,
  Status.ok,
)

module _ (tr : Transport) where
  -- The loop over the chunks, from `at` on. Its fuel is the length of the window.
  unfoldable pub submit_chunks :
      TableConfig → ShardSource → ByteRange → (base fuel at calls : ℕ) → List ℕ → Submission
  submit_chunks c shard fill base zero at calls claims = chunked calls claims
  submit_chunks c shard fill base (suc fuel) at calls claims =
      let length = min c.fill_chunk_bytes (fill.length - at) in
      elim (ltb at fill.length) [
        | false ↦ chunked calls claims
        | true ↦
            elim (tr.submit calls shard (record { offset = fill.offset + at; length = length })
              (base + at)) [
                | some e ↦ refused (calls + 1) (from_mempage e)
                | none ↦
                    submit_chunks c shard fill base fuel (at + c.fill_chunk_bytes) (calls + 1)
                      (claims ++ calls ∷ [])
              ]
      ]

  unfoldable pub submit_single : ShardSource → ByteRange → (destination calls : ℕ) → Submission
  submit_single shard fill destination calls = elim (tr.submit calls shard fill destination) [
    | some e ↦ refused (calls + 1) (from_mempage e)
    | none ↦ single (calls + 1) calls
  ]

  unfoldable pub submit_staged : Table → ShardSource → ByteRange → Submission
  submit_staged t shard range = elim (acquire_scratch t.scratch_used t.config.scratch_rows 0) [
    | none ↦ refused t.calls Status.pool_exhausted
    | some scratch ↦ elim (tr.submit t.calls shard range (scratch * t.config.source_row_bytes)) [
      | some e ↦ refused (t.calls + 1) (from_mempage e)
      | none ↦ staged (t.calls + 1) scratch t.calls
    ]
  ]

  unfoldable pub submit_fill : Table → ℕ → ShardSource → ByteRange → ByteRange → Submission
  submit_fill t slot shard range fill =
      if converts t
      then submit_staged t shard range
      else if ltb 1 t.chunks_per_row
      then submit_chunks t.config shard fill (slot * t.config.output_row_bytes) fill.length 0
          t.calls []
      else submit_single shard fill (slot * t.config.output_row_bytes) t.calls

  -- `start_fill_locked` once the row's place is known, or known to be wrong.
  unfoldable pub start_located : Table → ℕ → Result (ShardSource × RowLocation) → Table × Status
  start_located t slot (unexpected e) = (refuse t slot e, e)
  start_located t slot (value (shard, location)) =
      let (fill, head) = fill_window t.config shard location.range in
      settle t slot (submit_fill t slot shard location.range fill)
        (if converts t then t.config.output_row_bytes else location.range.length) head

  unfoldable pub start_fill_locked : Table → ℕ → ℕ → Table × Status
  start_fill_locked t slot row =
      let u = occupy t slot row in start_located u slot (locate u.config u.current_binding row)
