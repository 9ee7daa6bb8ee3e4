-- ===== src/RowCache/Config.antt =====
-- The registration of a table in include/sub0tieredcache/row_cache.hpp, and the transport of
-- sub0mempage, which is not in this repository, as a parameter.
use sub0tiered_cache.Base.{ℕ, ◌+◌, ◌-◌, ◌*◌, ◌/◌, ◌^◌, ◌%◌, Bool, List, Option}
use sub0tiered_cache.Status.{Status, MempageStatus}

-- The outcome of a call that returns std::expected<A, Status>.
pub data Result {ℓ} (A : Type ℓ) : Type ℓ where
  value : A → Result A
  unexpected : Status → Result A

pub data Representation : Type 0 where
  identity bf16_to_f32 custom : Representation

pub data RowExtent : Type 0 where
  exact bounded : RowExtent

-- sub0mempage::ByteRange.
pub record ByteRange : Type 0 where
  pub offset : ℕ
  pub length : ℕ

pub record ShardSource : Type 0 where
  pub source : ℕ
  pub bytes : ℕ

pub record RowLocation : Type 0 where
  pub shard : ℕ
  pub range : ByteRange

-- The adapter that the caller supplies: a row, and where its bytes are.
abbrev pub RowExtentResolver : Type 0
RowExtentResolver = ℕ → Result RowLocation

-- A span of caller-owned storage: where it starts, and its size in bytes.
pub record Span : Type 0 where
  pub address : ℕ
  pub size : ℕ

pub record TableConfig : Type 0 where
  pub row_count : ℕ
  pub source_row_bytes : ℕ
  pub row_extent : RowExtent
  pub fill_chunk_bytes : ℕ
  pub fill_alignment : ℕ
  pub output_row_bytes : ℕ
  pub representation : Representation
  -- Whether `codec` is other than nullptr.
  pub has_codec : Bool
  pub sources : List ShardSource
  pub generation : ℕ
  -- `none` is a default-constructed RowExtentResolverRef.
  pub resolve_extent : Option RowExtentResolver
  pub output_storage : Span
  pub budget_rows : ℕ
  pub scratch_storage : Span
  pub scratch_rows : ℕ
  pub max_tickets : ℕ
  pub max_batch_rows : ℕ

-- What sub0mempage::TransferSet offers. Each call is told how many calls went before it, so that
-- a transport whose answers depend on its own state is covered. `none` is success: a transfer
-- set was made, or a claim, which is known by the number of the call that made it.
pub record Transport : Type 0 where
  pub open_set : ℕ → ShardSource → Span → ℕ → Option MempageStatus
  pub submit : ℕ → ShardSource → ByteRange → ℕ → Option MempageStatus

abbrev pub u32_size : ℕ
u32_size = 2 ^ 32

abbrev pub u64_size : ℕ
u64_size = 2 ^ 64

-- UINT32_MAX.
abbrev pub none_slot : ℕ
none_slot = 2 ^ 32 - 1

-- SIZE_MAX, on a machine of 64 bits.
abbrev pub size_max : ℕ
size_max = 2 ^ 64 - 1

-- With the arithmetic of uint64_t; the alignment is not 0.
unfoldable pub aligned_slot_bytes : ℕ → ℕ → ℕ
aligned_slot_bytes row_bytes alignment =
    (row_bytes + 2 * alignment + u64_size - 2) % u64_size / alignment * alignment
