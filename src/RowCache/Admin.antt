-- ===== src/RowCache/Admin.antt =====
-- The administrative calls of a Table in include/sub0tieredcache/row_cache.hpp: create,
-- make_binding, invalidate, stats and drain.
pub mod Opened
pub mod Retire
pub mod Created
use sub0tiered_cache.Base.{
  ℕ, zero, suc, ◌+◌, ◌-◌, ◌*◌, ◌/◌, ◌%◌, ◌^◌, Bool, true, false, not, ◌&&◌, ◌||◌, Option, none,
  some, List, [], ◌∷◌, length, total, update, ltb, leb, ◌==◌, if◌then◌else◌,
}
use sub0tiered_cache.Status.{Status, from_mempage}
use sub0tiered_cache.RowCache.Config.{
  Result, value, unexpected, Representation, identity, bf16_to_f32, custom, RowExtent, exact,
  bounded, RowExtentResolver, ShardSource, Span, TableConfig, Transport, u32_size, u64_size,
  none_slot, size_max, aligned_slot_bytes,
}
use sub0tiered_cache.RowCache.State.{
  Table, Slot, SlotState, empty_slot, Binding, TicketRecord, WaiterEntry, TableStats, no_stats,
  converts, is_ready, is_filling,
}

unfoldable pub some_empty : List ShardSource → Bool
some_empty [] = false
some_empty (shard ∷ shards) = shard.bytes == 0 || some_empty shards

-- The least k from the given one on with n ≤ 2 ^ k, if it is within the fuel.
unfoldable pub ceil_exponent : ℕ → ℕ → ℕ → ℕ
ceil_exponent zero n k = k
ceil_exponent (suc fuel) n k =
    let more = ceil_exponent fuel n (k + 1) in if leb n (2 ^ k) then k else more

-- std::has_single_bit.
unfoldable pub has_single_bit : ℕ → Bool
has_single_bit n = 2 ^ ceil_exponent 64 n 0 == n

-- The first check of `create` that fails, each as the source orders them.
unfoldable pub check_counts : TableConfig → Option Status
check_counts c =
    if c.row_count == 0
      || c.source_row_bytes == 0
      || c.output_row_bytes == 0
      || length c.sources == 0
      || c.budget_rows == 0
      || c.max_tickets == 0
      || c.max_batch_rows == 0
      || leb none_slot c.budget_rows
      || leb none_slot c.max_tickets
      || elim c.resolve_extent [ none ↦ true | some _ ↦ false ]
      || some_empty c.sources
      || ltb (size_max / c.max_tickets) c.max_batch_rows
      || leb none_slot (c.max_batch_rows * c.max_tickets)
    then some Status.invalid_argument
    else none

unfoldable pub check_widths : TableConfig → Option Status
check_widths c = elim c.representation [
  | identity ↦
      if c.output_row_bytes == (
        if c.fill_alignment == 0
        then c.source_row_bytes
        else aligned_slot_bytes c.source_row_bytes c.fill_alignment)
      then none
      else some Status.unsupported_conversion
  | bf16_to_f32 ↦
      if c.source_row_bytes % 2 == 0 && c.output_row_bytes == c.source_row_bytes * 2 % u64_size
      then none
      else some Status.unsupported_conversion
  | custom ↦ if c.has_codec then none else some Status.invalid_argument
]

unfoldable pub check_output : TableConfig → Option Status
check_output c =
    if ltb (size_max / c.budget_rows) c.output_row_bytes
      || not (c.output_storage.size == c.output_row_bytes * c.budget_rows)
    then some Status.invalid_argument
    else none

abbrev pub is_identity : Representation → Bool
is_identity identity = true
is_identity _ = false

abbrev pub is_bounded : RowExtent → Bool
is_bounded bounded = true
is_bounded exact = false

unfoldable pub check_fill : TableConfig → Option Status
check_fill c =
    if is_bounded c.row_extent && not (is_identity c.representation)
    then some Status.unsupported_conversion
    else if not (c.fill_chunk_bytes == 0) && not (is_identity c.representation)
    then some Status.unsupported_conversion
    else if not (c.fill_alignment == 0) && not (is_identity c.representation)
    then some Status.unsupported_conversion
    else if not (c.fill_alignment == 0)
        && (not (has_single_bit c.fill_alignment)
            || not (c.output_storage.address % c.fill_alignment == 0)
            || not (c.fill_chunk_bytes % c.fill_alignment == 0))
    then some Status.invalid_argument
    else none

unfoldable pub check_scratch : TableConfig → Option Status
check_scratch c =
    if not (is_identity c.representation)
      && (c.scratch_rows == 0
          || ltb (size_max / c.scratch_rows) c.source_row_bytes
          || not (c.scratch_storage.size == c.source_row_bytes * c.scratch_rows))
    then some Status.invalid_argument
    else none

infixr 30 ◌or_else◌
abbrev pub ◌or_else◌ : Option Status → Option Status → Option Status
none or_else b = b
some e or_else b = some e

unfoldable pub check_config : TableConfig → Option Status
check_config c =
    check_counts c
    or_else check_widths c
    or_else check_output c
    or_else check_fill c
    or_else check_scratch c

-- The widest single fill, and how many requests it is split into, with the arithmetic of uint64_t
-- and the cast to uint32_t.
unfoldable pub chunk_count : TableConfig → ℕ
chunk_count c =
    let fill_bytes = if c.fill_alignment == 0 then c.source_row_bytes else c.output_row_bytes in
    if not (c.fill_chunk_bytes == 0) && ltb c.fill_chunk_bytes fill_bytes
    then (fill_bytes + c.fill_chunk_bytes - 1) % u64_size / c.fill_chunk_bytes % u32_size
    else 1

-- The transfer sets of the shards: the first that cannot be made, if one cannot. The number of
-- claims is computed in uint32_t.
unfoldable pub open_sets : Transport → TableConfig → Bool → ℕ → ℕ → List ShardSource → Option Status
open_sets tr c converting chunks calls [] = none
open_sets tr c converting chunks calls (shard ∷ shards) =
    let scratch_calls = if converting then calls + 2 else calls + 1 in
    let rest = open_sets tr c converting chunks scratch_calls shards in
    elim (tr.open_set calls shard c.output_storage (c.budget_rows * chunks % u32_size)) [
      | some e ↦ some (from_mempage e)
      | none ↦
          if converting
          then elim (tr.open_set (calls + 1) shard c.scratch_storage c.scratch_rows) [
            | some e ↦ some (from_mempage e)
            | none ↦ rest
          ]
          else rest
    ]

unfoldable pub make_binding :
    Transport
    → TableConfig
    → Bool
    → ℕ
    → ℕ
    → ℕ
    → List ShardSource
    → RowExtentResolver
    → Result Binding
make_binding tr c converting chunks calls id sources resolver =
    if length sources == 0 || some_empty sources
    then unexpected Status.invalid_argument
    else elim (open_sets tr c converting chunks calls sources) [
      | some e ↦ unexpected e
      | none ↦ value (record { id = id; sources = sources; resolver = resolver; in_flight = 0 })
    ]

-- The number of calls of the transport that a binding takes, at most.
abbrev pub binding_calls : Bool → List ShardSource → ℕ
binding_calls converting sources = if converting then 2 * length sources else length sources

abbrev pub empty_record : TicketRecord
empty_record = record { generation = 0; count = 0; held = false; in_use = false }

unfoldable pub new_table : TableConfig → Binding → Table
new_table c b = record {
  config = c;
  chunks_per_row = chunk_count c;
  current_binding = b;
  retiring_binding = none;
  slots = λ i. empty_slot;
  index_bits = ceil_exponent 64 (c.budget_rows * 2) 0;
  index = λ i. none;
  tickets = λ i. empty_record;
  waiters = λ i. record { slot = none; epoch = 0 };
  clock_hand = 0;
  current_generation = c.generation;
  pins_total = 0;
  tickets_held = 0;
  in_flight = 0;
  non_free = 0;
  counters = no_stats;
  scratch_used = λ i. false;
  worker_stopping = false;
  calls = binding_calls (not (is_identity c.representation)) c.sources;
  bindings = 1;
}

-- A default-constructed resolver does not pass `check_counts`.
unfoldable pub create : Transport → TableConfig → Result Table
create tr c = elim (check_config c) [
  | some e ↦ unexpected e
  | none ↦ elim c.resolve_extent [
    | none ↦ unexpected Status.invalid_argument
    | some resolver ↦
        elim (make_binding tr c (not (is_identity c.representation)) (chunk_count c) 0 0 c.sources
          resolver) [
            | unexpected _ ↦ unexpected Status.invalid_argument
            | value b ↦ value (new_table c b)
          ]
  ]
]

abbrev pub binding_busy : Option Binding → Bool
binding_busy none = false
binding_busy (some b) = not (b.in_flight == 0)

abbrev pub resolver_or : Option RowExtentResolver → RowExtentResolver → RowExtentResolver
resolver_or none old = old
resolver_or (some new) old = new

-- `none` as the new resolver keeps the current one.
unfoldable pub invalidate :
    Transport → Table → ℕ → List ShardSource → Option RowExtentResolver → Table × Status
invalidate tr t generation sources resolver =
    if length sources == 0 || some_empty sources
    then (t, Status.invalid_argument)
    else if binding_busy t.retiring_binding
    then (t, Status.busy)
    else let calls = t.calls + binding_calls (converts t) sources in
      elim (make_binding tr t.config (converts t) t.chunks_per_row t.calls t.bindings sources
        (resolver_or resolver t.current_binding.resolver)) [
          | unexpected e ↦ (record t { retiring_binding = none; calls = calls }, e)
          | value b ↦ (
            record t {
              retiring_binding = some t.current_binding;
              current_binding = b;
              current_generation = generation;
              calls = calls;
              bindings = t.bindings + 1;
            },
            Status.ok,
          )
        ]

abbrev pub resident_weight : Slot → ℕ
resident_weight s = if is_ready s.state then 1 else 0

abbrev pub leased_weight : Slot → ℕ
leased_weight s = if s.pins == 0 then 0 else 1

unfoldable pub stats : Table → TableStats
stats t = record (t.counters) {
  resident = t.counters.resident + total t.config.budget_rows resident_weight t.slots;
  leased = t.counters.leased + total t.config.budget_rows leased_weight t.slots;
}

-- Whether `drain` returns; otherwise it waits for a fill to end.
unfoldable pub drained : Table → Bool
drained t = t.in_flight == 0
