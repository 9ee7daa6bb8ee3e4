-- ===== src/Sized/Examples.antt =====
-- The theorem on include/sub0tieredcache/size_classed_table.hpp at work on a small table.
use sub0tiered_cache.Base.{ℕ, ◌*◌, ◌%◌, ◌==◌, ◌≡◌, refl, some, none, [], ◌∷◌, if◌then◌else◌}
use sub0tiered_cache.RowCache.Config.{Result, value, unexpected, Transport, RowExtentResolver}
use sub0tiered_cache.RowCache.Admin.{
  check_config, check_counts, some_empty, check_widths, check_output, check_fill, check_scratch,
  make_binding, open_sets,
}
use sub0tiered_cache.RowCache.Admin
use sub0tiered_cache.Sized.{
  SizeClassedTableConfig, SizeClassedTable, discover, note_width, position_of, rank_of, nth,
  place_row, place_rows, width_at, make_class, bad_budget, make_classes, used_bytes, table_config,
}
use sub0tiered_cache.Sized.Calls.{create_tables, create_classes, create}
use sub0tiered_cache.Sized.Assigned.{ArePlaced, create-ArePlaced}

abbrev obliging : Transport
obliging = record { open_set = λ n shard span claims. none; submit = λ n shard range at. none }

-- Rows of four bytes and, each third one, of two.
abbrev two_lengths : RowExtentResolver
two_lengths row = value (record {
  shard = 0;
  range = record { offset = row * 4; length = if row % 3 == 0 then 2 else 4 };
})

abbrev six_rows : SizeClassedTableConfig
six_rows = record {
  row_count = 6;
  sources = record { source = 0; bytes = 24 } ∷ [];
  generation = 1;
  resolve_extent = some two_lengths;
  output_storage = record { address = 0; size = 20 };
  max_tickets = 1;
  max_batch_rows = 1;
  fill_chunk_bytes = 0;
  fill_alignment = 0;
  max_classes = 2;
}

-- The shares of the two classes, of four bytes and of sixteen.
abbrev shares : ℕ → ℕ
shares c = if c == 0 then 4 else 16

abbrev made : Result SizeClassedTable → SizeClassedTable → SizeClassedTable
made (value t) other = t
made (unexpected e) other = other

abbrev nothing : SizeClassedTable
nothing = record {
  config = six_rows;
  classes = [];
  places = record { class_of = λ row. 0; local_of = λ row. 0; global_of = λ c. [] };
  tables = [];
}

abbrev six : SizeClassedTable
six = made (create obliging six_rows shares) nothing

six_created : create obliging six_rows shares ≡ value six
unfolding create create_classes create_tables discover note_width position_of rank_of nth place_row
    place_rows width_at make_class bad_budget make_classes used_bytes table_config Admin.create
    check_config check_counts some_empty check_widths check_output check_fill check_scratch
    make_binding open_sets
six_created = refl

-- The shorter rows are the first class.
six_placed : (six.places.global_of 0 ≡ 0 ∷ 3 ∷ []) × (six.places.global_of 1 ≡ 1 ∷ 2 ∷ 4 ∷ 5 ∷ [])
unfolding create create_classes create_tables discover note_width position_of rank_of nth place_row
    place_rows width_at make_class bad_budget make_classes used_bytes table_config Admin.create
    check_config check_counts some_empty check_widths check_output check_fill check_scratch
    make_binding open_sets
six_placed = (refl, refl)

create-ArePlaced_example : ArePlaced 6 six.places
create-ArePlaced_example = create-ArePlaced obliging six_rows shares six six_created
