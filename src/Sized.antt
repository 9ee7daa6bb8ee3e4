-- ===== src/Sized.antt =====
-- include/sub0tieredcache/size_classed_table.hpp: rows of a few exact lengths, with a Table for each
-- length. The shares of the storage, which are computed with doubles, are an argument: the bytes
-- that each class is given. The scratch of a call is the list of its rows.
pub mod Calls
pub mod Assigned
mod Examples
use sub0tiered_cache.Base.{
  ℕ, zero, suc, ◌+◌, ◌-◌, ◌*◌, ◌/◌, ◌%◌, ◌^◌, Bool, true, false, ◌||◌, ◌&&◌, not, Option, none,
  some, List, [], ◌∷◌, ◌++◌, length, get_elem?, update, min, ltb, leb, ◌==◌, if◌then◌else◌,
}
use sub0tiered_cache.Status.{Status}
use sub0tiered_cache.RowCache.Config.{
  Result, value, unexpected, RowLocation, RowExtentResolver, ShardSource, Span, RowExtent,
  Representation, TableConfig, Transport, aligned_slot_bytes,
}
use sub0tiered_cache.RowCache.State.{Table, TableStats, RowLease, PrefetchTicket, no_stats}
use sub0tiered_cache.RowCache.Admin
use sub0tiered_cache.RowCache.Lease
use sub0tiered_cache.RowCache.Prefetch

pub record SizeClassedTableConfig : Type 0 where
  pub row_count : ℕ
  pub sources : List ShardSource
  pub generation : ℕ
  pub resolve_extent : Option RowExtentResolver
  pub output_storage : Span
  pub max_tickets : ℕ
  pub max_batch_rows : ℕ
  pub fill_chunk_bytes : ℕ
  pub fill_alignment : ℕ
  pub max_classes : ℕ

pub record Class : Type 0 where
  pub width : ℕ
  pub slot_bytes : ℕ
  pub rows : ℕ
  pub budget_rows : ℕ

-- The rows of each class: `class_of_`, `local_of_` and `global_of_`.
pub record Places : Type 0 where
  pub class_of : ℕ → ℕ
  pub local_of : ℕ → ℕ
  pub global_of : ℕ → List ℕ

pub record SizeClassedTable : Type 0 where
  pub config : SizeClassedTableConfig
  pub classes : List Class
  pub places : Places
  pub tables : List Table

-- `std::find` among the widths.
unfoldable pub position_of : List ℕ → ℕ → Option ℕ
position_of [] w = none
position_of (x ∷ xs) w =
    if x == w then some 0 else elim (position_of xs w) [ none ↦ none | some k ↦ some (k + 1) ]

-- A row's width: the widths behind it, and its place among them.
unfoldable pub note_width : (max_classes : ℕ) → List ℕ → ℕ → Result (List ℕ × ℕ)
note_width max_classes widths width =
    if width == 0 then unexpected Status.invalid_argument else elim (position_of widths width) [
      | some k ↦ value (widths, k)
      | none ↦
          if length widths == max_classes
          then unexpected Status.invalid_argument
          else value (widths ++ width ∷ [], length widths)
    ]

-- The pass over every row's extent.
unfoldable pub discover :
    RowExtentResolver → (max_classes left row : ℕ) → List ℕ → (ℕ → ℕ) → Result (List ℕ × (ℕ → ℕ))
discover resolve max_classes zero row widths class_of = value (widths, class_of)
discover resolve max_classes (suc left) row widths class_of = elim (resolve row) [
  | unexpected e ↦ unexpected e
  | value location ↦ elim (note_width max_classes widths location.range.length) [
    | unexpected e ↦ unexpected e
    | value noted ↦
        discover resolve max_classes left (row + 1) noted.0 (update class_of row noted.1)
  ]
]

-- The rank of a width in the sorted order: how many are smaller.
unfoldable pub rank_of : List ℕ → ℕ → ℕ
rank_of [] w = 0
rank_of (x ∷ xs) w = (if ltb x w then 1 else 0) + rank_of xs w

unfoldable pub nth : List ℕ → ℕ → ℕ
nth [] k = 0
nth (x ∷ xs) zero = x
nth (x ∷ xs) (suc k) = nth xs k

-- `rank`.
abbrev pub rank : List ℕ → ℕ → ℕ
rank widths c = rank_of widths (nth widths c)

-- A round of the loop that gives every row its index within its class.
unfoldable pub place_row : (ℕ → ℕ) → Places → ℕ → Places
place_row rank p row =
    let c = rank (p.class_of row) in
    record {
      class_of = update p.class_of row c;
      local_of = update p.local_of row (length (p.global_of c));
      global_of = update p.global_of c (p.global_of c ++ row ∷ []);
    }

unfoldable pub place_rows : (ℕ → ℕ) → (left row : ℕ) → Places → Places
place_rows rank zero row p = p
place_rows rank (suc left) row p = place_rows rank left (row + 1) (place_row rank p row)

-- The width of rank `r`.
unfoldable pub width_at : (all : List ℕ) → List ℕ → ℕ → ℕ
width_at all [] r = 0
width_at all (w ∷ ws) r = let rest = width_at all ws r in if rank_of all w == r then w else rest

-- The classes in order of width, with the budgets that their shares allow.
unfoldable pub make_class : SizeClassedTableConfig → List ℕ → Places → (share : ℕ → ℕ) → ℕ → Class
make_class config widths p share c =
    let width = width_at widths widths c in
    let slot_bytes =
      if config.fill_alignment == 0
      then width
      else aligned_slot_bytes width config.fill_alignment in
    record {
      width = width;
      slot_bytes = slot_bytes;
      rows = length (p.global_of c);
      budget_rows = min (share c / slot_bytes) (length (p.global_of c));
    }

-- Whether the budget is too small for two batches of rows, or too large.
unfoldable pub bad_budget : (max_batch_rows : ℕ) → Class → Bool
bad_budget max_batch_rows c =
    ltb c.budget_rows (min (2 * max_batch_rows) c.rows) || leb (2 ^ 32 - 1) c.budget_rows

unfoldable pub make_classes :
    SizeClassedTableConfig → List ℕ → Places → (share : ℕ → ℕ) → (left c : ℕ) → Option (List Class)
make_classes config widths p share zero c = some []
make_classes config widths p share (suc left) c =
    let class = make_class config widths p share c in
    elim (make_classes config widths p share left (c + 1)) [
      | none ↦ none
      | some rest ↦ if bad_budget config.max_batch_rows class then none else some (class ∷ rest)
    ]

unfoldable pub used_bytes : List Class → ℕ
used_bytes [] = 0
used_bytes (c ∷ cs) = c.budget_rows * c.slot_bytes + used_bytes cs

-- `ClassResolver::resolve_extent`; a local index past the class is not asked for.
unfoldable pub class_extent : RowExtentResolver → List ℕ → RowExtentResolver
class_extent resolve globals local = resolve (nth globals local)

unfoldable pub table_config :
    SizeClassedTableConfig → RowExtentResolver → (globals : List ℕ) → (at : ℕ) → Class → TableConfig
table_config config resolve globals at c = record {
  row_count = c.rows;
  source_row_bytes = c.width;
  row_extent = RowExtent.exact;
  fill_chunk_bytes = config.fill_chunk_bytes;
  fill_alignment = config.fill_alignment;
  output_row_bytes = c.slot_bytes;
  representation = Representation.identity;
  has_codec = false;
  sources = config.sources;
  generation = config.generation;
  resolve_extent = some (class_extent resolve globals);
  output_storage = record {
    address = config.output_storage.address + at;
    size = c.budget_rows * c.slot_bytes;
  };
  budget_rows = c.budget_rows;
  scratch_storage = record { address = 0; size = 0 };
  scratch_rows = 0;
  max_tickets = config.max_tickets;
  max_batch_rows = config.max_batch_rows;
}
