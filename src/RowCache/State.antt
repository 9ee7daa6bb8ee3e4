-- ===== src/RowCache/State.antt =====
-- The state of a Table in include/sub0tieredcache/row_cache.hpp. A pointer to a Binding is the
-- binding's number; a vector sized at construction is a function of the index; a slot number is
-- UINT32_MAX where the option is `none`. Counters and pins are taken not to wrap.
use sub0tiered_cache.Base.{ℕ, ◌^◌, Bool, true, false, List, Option, none, update}
use sub0tiered_cache.Status.{Status}
use sub0tiered_cache.RowCache.Config.{TableConfig, RowExtentResolver, ShardSource, Representation}

pub data SlotState : Type 0 where
  free filling ready failed : SlotState

pub record Slot : Type 0 where
  pub row_index : ℕ
  pub row_generation : ℕ
  pub epoch : ℕ
  pub pins : ℕ
  pub state : SlotState
  pub failure : Status
  pub referenced : Bool
  pub finishing : Bool
  pub indexed : Bool
  pub fill_binding : Option ℕ
  -- A claim is known by the number of the submission that made it.
  pub claim : Option ℕ
  pub scratch_slot : Option ℕ
  -- The claims in use, `chunk_count` of them.
  pub chunk_claims : List ℕ
  pub published_bytes : ℕ
  pub published_offset : ℕ

abbrev pub empty_slot : Slot
empty_slot = record {
  row_index = 0;
  row_generation = 0;
  epoch = 0;
  pins = 0;
  state = SlotState.free;
  failure = Status.ok;
  referenced = false;
  finishing = false;
  indexed = false;
  fill_binding = none;
  claim = none;
  scratch_slot = none;
  chunk_claims = List.[];
  published_bytes = 0;
  published_offset = 0;
}

pub record Binding : Type 0 where
  -- Where the binding is: a number that no other binding of the table has had.
  pub id : ℕ
  pub sources : List ShardSource
  pub resolver : RowExtentResolver
  pub in_flight : ℕ

pub record TicketRecord : Type 0 where
  pub generation : ℕ
  pub count : ℕ
  pub held : Bool
  pub in_use : Bool

pub record WaiterEntry : Type 0 where
  pub slot : Option ℕ
  pub epoch : ℕ

pub record TableStats : Type 0 where
  pub hits : ℕ
  pub misses : ℕ
  pub fetches : ℕ
  pub coalesced : ℕ
  pub conversions : ℕ
  pub codec_failures : ℕ
  pub evictions : ℕ
  pub resident : ℕ
  pub leased : ℕ
  pub failed : ℕ

abbrev pub no_stats : TableStats
no_stats = record {
  hits = 0;
  misses = 0;
  fetches = 0;
  coalesced = 0;
  conversions = 0;
  codec_failures = 0;
  evictions = 0;
  resident = 0;
  leased = 0;
  failed = 0;
}

pub record Table : Type 0 where
  pub config : TableConfig
  pub chunks_per_row : ℕ
  pub current_binding : Binding
  pub retiring_binding : Option Binding
  pub slots : ℕ → Slot
  -- The index has 2 ^ index_bits positions, and `index_shift_` is 64 - index_bits.
  pub index_bits : ℕ
  pub index : ℕ → Option ℕ
  pub tickets : ℕ → TicketRecord
  pub waiters : ℕ → WaiterEntry
  pub clock_hand : ℕ
  pub current_generation : ℕ
  pub pins_total : ℕ
  pub tickets_held : ℕ
  pub in_flight : ℕ
  pub non_free : ℕ
  pub counters : TableStats
  pub scratch_used : ℕ → Bool
  pub worker_stopping : Bool
  -- How many calls of the transport were made, and how many bindings.
  pub calls : ℕ
  pub bindings : ℕ

-- A pin that a caller owns, or an empty RowLease if `held` is false. `bytes` is the range of the
-- output storage that it exposes.
pub record RowLease : Type 0 where
  pub held : Bool
  pub slot : ℕ
  pub epoch : ℕ
  pub bytes_offset : ℕ
  pub bytes_size : ℕ
  pub row_index : ℕ
  pub generation : ℕ

abbrev pub no_lease : RowLease
no_lease = record {
  held = false;
  slot = 0;
  epoch = 0;
  bytes_offset = 0;
  bytes_size = 0;
  row_index = 0;
  generation = 0;
}

pub record PrefetchTicket : Type 0 where
  pub record_index : ℕ
  pub generation : ℕ

abbrev pub with_slot : Table → ℕ → Slot → Table
with_slot t i s = record t { slots = update t.slots i s }

-- `active_codec_ != nullptr`.
abbrev pub converts : Table → Bool
converts t = elim t.config.representation [ Representation.identity ↦ false | _ ↦ true ]

-- `index_.size()`.
abbrev pub index_size : Table → ℕ
index_size t = 2 ^ t.index_bits

abbrev pub is_free : SlotState → Bool
is_free SlotState.free = true
is_free _ = false

abbrev pub is_filling : SlotState → Bool
is_filling SlotState.filling = true
is_filling _ = false

abbrev pub is_ready : SlotState → Bool
is_ready SlotState.ready = true
is_ready _ = false
