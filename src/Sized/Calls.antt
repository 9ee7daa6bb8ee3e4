-- ===== src/Sized/Calls.antt =====
-- include/sub0tieredcache/size_classed_table.hpp: SizeClassedTable::create, and its calls of the
-- tables of its classes.
use sub0tiered_cache.Base.{
  ℕ, zero, suc, ◌+◌, ◌*◌, ◌-◌, ◌^◌, Bool, true, false, ◌||◌, Option, none, some, List, [], ◌∷◌,
  length, ltb, leb, ◌==◌, if◌then◌else◌,
}
use sub0tiered_cache.Status.{Status}
use sub0tiered_cache.RowCache.Config.{Result, value, unexpected, RowExtentResolver, Transport}
use sub0tiered_cache.RowCache.State.{Table, TableStats, RowLease, PrefetchTicket, no_stats}
use sub0tiered_cache.RowCache.Admin
use sub0tiered_cache.RowCache.Lease
use sub0tiered_cache.RowCache.Prefetch
use sub0tiered_cache.Sized.{
  SizeClassedTableConfig, Class, Places, SizeClassedTable, discover, rank, place_rows, make_classes,
  used_bytes, table_config,
}

abbrev pub is_none {ℓ} : {A : Type ℓ} → Option A → Bool
is_none none = true
is_none (some a) = false

-- The table after the ticket's destructor, which finds the record of a ticket just granted.
unfoldable pub dropped : Table → PrefetchTicket → Table
dropped t ticket = elim (Prefetch.discard_ticket t ticket) [ none ↦ t | some u ↦ u ]

-- The rows' places, in the classes found, renumbered.
abbrev pub places_of : SizeClassedTableConfig → List ℕ × (ℕ → ℕ) → Places
places_of config found =
    place_rows (rank found.0) config.row_count 0
      (record { class_of = found.1; local_of = λ row. 0; global_of = λ c. [] })

module _ (tr : Transport) where
  -- The loop that creates the tables, each over its own slice of the storage.
  unfoldable pub create_tables :
      SizeClassedTableConfig
      → RowExtentResolver
      → (global_of : ℕ → List ℕ) → (c at : ℕ) → List Class
      → Result (List Table)
  create_tables config resolve global_of c at [] = value []
  create_tables config resolve global_of c at (class ∷ classes) =
      elim (Admin.create tr (table_config config resolve (global_of c) at class)) [
        | unexpected e ↦ unexpected e
        | value table ↦
            elim (create_tables config resolve global_of (c + 1)
              (at + class.budget_rows * class.slot_bytes) classes) [
                | unexpected e ↦ unexpected e
                | value tables ↦ value (table ∷ tables)
              ]
      ]

  -- The second half of `create`, for the widths and classes discovered.
  unfoldable pub create_classes :
      SizeClassedTableConfig
      → RowExtentResolver
      → (share : ℕ → ℕ) → List ℕ × (ℕ → ℕ)
      → Result SizeClassedTable
  create_classes config resolve share found =
      let places = places_of config found in
      elim (make_classes config found.0 places share (length found.0) 0) [
        | none ↦ unexpected Status.invalid_argument
        | some classes ↦
            if ltb config.output_storage.size (used_bytes classes)
            then unexpected Status.invalid_argument
            else elim (create_tables config resolve places.global_of 0 0 classes) [
              | unexpected e ↦ unexpected e
              | value tables ↦
                  value (record {
                    config = config;
                    classes = classes;
                    places = places;
                    tables = tables;
                  })
            ]
      ]

  unfoldable pub create : SizeClassedTableConfig → (share : ℕ → ℕ) → Result SizeClassedTable
  create config share = elim config.resolve_extent [
    | none ↦ unexpected Status.invalid_argument
    | some resolve ↦
        if config.row_count == 0
          || leb (2 ^ 32 - 1) config.row_count
          || config.max_batch_rows == 0
          || config.max_classes == 0
        then unexpected Status.invalid_argument
        else elim (discover resolve config.max_classes config.row_count 0 [] (λ row. 0)) [
          | unexpected e ↦ unexpected e
          | value found ↦ create_classes config resolve share found
        ]
  ]

  -- The local rows of a call that are in class `c`; none if a row is out of range.
  unfoldable pub rows_in : SizeClassedTable → (c : ℕ) → List ℕ → Option (List ℕ)
  rows_in t c [] = some []
  rows_in t c (row ∷ rows) = elim (rows_in t c rows) [
    | none ↦ none
    | some rest ↦
        if leb t.config.row_count row
        then none
        else some (if t.places.class_of row == c then t.places.local_of row ∷ rest else rest)
  ]

  -- A class's part of `prefetch`: its table behind it, and the failure if there is one.
  unfoldable pub prefetch_class : Table → Option (List ℕ) → Table × Option Status
  prefetch_class table none = (table, some Status.out_of_range)
  prefetch_class table (some []) = (table, none)
  prefetch_class table (some (row ∷ rows)) =
      let (u, ticket) = Prefetch.prefetch tr table (row ∷ rows) in
      elim ticket [ unexpected e ↦ (u, some e) | value granted ↦ (dropped u granted, none) ]

  -- The loop of `prefetch` over the classes.
  unfoldable pub prefetch_from :
      SizeClassedTable → (c : ℕ) → List Table → List ℕ → List Table × Option Status
  prefetch_from t c [] rows = ([], none)
  prefetch_from t c (table ∷ tables) rows =
      let (u, failure) = prefetch_class table (rows_in t c rows) in
      let (rest, later) = prefetch_from t (c + 1) tables rows in
      elim failure [ some e ↦ (u ∷ tables, some e) | none ↦ (u ∷ rest, later) ]

  -- `prefetch`: none is ok.
  unfoldable pub prefetch : SizeClassedTable → List ℕ → SizeClassedTable × Option Status
  prefetch t rows =
      if ltb t.config.max_batch_rows (length rows)
      then (t, some Status.batch_too_large)
      else let (tables, failure) = prefetch_from t 0 t.tables rows in
        (record t { tables = tables }, failure)

-- A call of the table of one class.
unfoldable pub try_get_at : List Table → (c local : ℕ) → List Table × Option RowLease
try_get_at [] c local = ([], none)
try_get_at (table ∷ tables) zero local =
    let (u, lease) = Lease.try_get table local in (u ∷ tables, lease)
try_get_at (table ∷ tables) (suc c) local =
    let (us, lease) = try_get_at tables c local in (table ∷ us, lease)

unfoldable pub try_get : SizeClassedTable → ℕ → SizeClassedTable × Option RowLease
try_get t row_index =
    if leb t.config.row_count row_index
    then (t, none)
    else let (tables, lease) =
        try_get_at t.tables (t.places.class_of row_index) (t.places.local_of row_index) in
      (record t { tables = tables }, lease)

abbrev pub add_stats : TableStats → TableStats → TableStats
add_stats a b = record {
  hits = a.hits + b.hits;
  misses = a.misses + b.misses;
  fetches = a.fetches + b.fetches;
  coalesced = a.coalesced + b.coalesced;
  conversions = a.conversions + b.conversions;
  codec_failures = a.codec_failures + b.codec_failures;
  evictions = a.evictions + b.evictions;
  resident = a.resident + b.resident;
  leased = a.leased + b.leased;
  failed = a.failed + b.failed;
}

-- The loop of `stats`, with the sum so far.
unfoldable pub sum_stats : TableStats → List Table → TableStats
sum_stats sum [] = sum
sum_stats sum (table ∷ tables) = sum_stats (add_stats sum (Admin.stats table)) tables

unfoldable pub stats : SizeClassedTable → TableStats
stats t = sum_stats no_stats t.tables
