-- ===== src/RowCache/Examples.antt =====
-- Tests of the model of include/sub0tieredcache/row_cache.hpp, and the theorems at work on them.
use mathlib.Core.Bool.{false≢true}
use sub0tiered_cache.Base.{
  ◌≤◌, ℕ, ◌+◌, ◌*◌, ◌%◌, ◌^◌, ◌<◌, ◌≡◌, ◌≢◌, ◌↔◌, ◌⊎◌, inl, inr, ◌∙◌, refl, sym, subst, arith, true,
  false, none, some, List, [], ◌∷◌,
}
use sub0tiered_cache.Status.{Status, MempageStatus, from_mempage, from_mempage-ne-ok}
use sub0tiered_cache.RowCache.Config.{
  ByteRange, Result, value, identity, exact, Transport, TableConfig, ShardSource, RowExtentResolver,
}
use sub0tiered_cache.RowCache.State.{Table, SlotState, Binding, RowLease, is_ready, is_filling}
use sub0tiered_cache.RowCache.Index.{find_from, empty_from, index_home, next}
use sub0tiered_cache.RowCache.Lookup.{index_find, index_insert}
use sub0tiered_cache.RowCache.Lookup.Agreement.{IsEntered, index_find_iff, index_find-eq-none_iff}
use sub0tiered_cache.RowCache.Victim.{judge, advance_hand, sweep, claim_victim}
use sub0tiered_cache.RowCache.Victim.Sound.{
  SameButReferenced, claim_victim-IsValid, claim_victim-some, claim_victim_others,
}
use sub0tiered_cache.RowCache.Victim.Found.{IsBusy, claim_victim-eq-none_iff}
use sub0tiered_cache.RowCache.Fill.{
  occupy, refuse, length_ok, locate, fill_window, start_flight, settle, submit_single, submit_fill,
  start_located, start_fill_locked,
}
use sub0tiered_cache.RowCache.Fill.Started.{Started, start_fill-Started}
use sub0tiered_cache.RowCache.Finish.{release_fill, publish_ready, publish}
use sub0tiered_cache.RowCache.Finish.Published.{Published, publish-Published}
use sub0tiered_cache.RowCache.Lease.{pin, lease_on, count_hit, published, release_lease, try_get}
use sub0tiered_cache.RowCache.Prefetch.{prefetch}
use sub0tiered_cache.RowCache.Prefetch.Quiet.{prefetch-Undisturbed}
use sub0tiered_cache.RowCache.Resolve.{count_coalesced, admit_miss, admit}
use sub0tiered_cache.RowCache.Resolve.Admitted.{Undisturbed}
use sub0tiered_cache.RowCache.Resolve.Leased.{Admits, Leased, admit-Admits}
use sub0tiered_cache.RowCache.Resolve.Got.{Gets, try_get-Gets}
use sub0tiered_cache.RowCache.Admin.{
  some_empty, ceil_exponent, check_counts, check_widths, check_output, check_fill, check_scratch,
  check_config, chunk_count, open_sets, make_binding, new_table, create, invalidate,
}
use sub0tiered_cache.RowCache.Admin.Retire.{Invalidated, invalidate-Invalidated, invalidate_hides}
use sub0tiered_cache.RowCache.Resolve.Coalesced.{Coalesces, admit_joins}
use sub0tiered_cache.RowCache.Fill.Window.{fill_window_covers}
use sub0tiered_cache.RowCache.Finish.Retry.{publish_retries}
use sub0tiered_cache.RowCache.Registry.{
  Registry, register_table, table, table_count, register-table, register-table_old,
}
use sub0tiered_cache.RowCache.Steps.{
  World, add_result, Step, admits, publishes, invalidates, Reach, here, then,
}
use sub0tiered_cache.RowCache.Steps.Sound.{
  created-IsSound, published-Step, ready-Step, release-Reach,
}
use sub0tiered_cache.RowCache.Steps.Leases.{IsSound}
use sub0tiered_cache.RowCache.Valid.{IsValid}
use sub0tiered_cache.RowCache.Admin.Created.{create-IsValid, new_table-IsValid}

-- A transport that accepts whatever it is asked.
abbrev willing : Transport
willing = record {
  open_set = λ calls shard span claims. none;
  submit = λ calls shard range at. none;
}

abbrev four_bytes : RowExtentResolver
four_bytes row = value (record { shard = 0; range = record { offset = row * 4; length = 4 } })

abbrev shards : List ShardSource
shards = record { source = 0; bytes = 32 } ∷ []

-- Eight rows of four bytes, of which two are resident at a time.
abbrev small : TableConfig
small = record {
  row_count = 8;
  source_row_bytes = 4;
  row_extent = exact;
  fill_chunk_bytes = 0;
  fill_alignment = 0;
  output_row_bytes = 4;
  representation = identity;
  has_codec = false;
  sources = shards;
  generation = 1;
  resolve_extent = some four_bytes;
  output_storage = record { address = 0; size = 8 };
  budget_rows = 2;
  scratch_storage = record { address = 0; size = 0 };
  scratch_rows = 0;
  max_tickets = 2;
  max_batch_rows = 2;
}

abbrev first_binding : Binding
first_binding = record { id = 0; sources = shards; resolver = four_bytes; in_flight = 0 }

abbrev fresh : Table
fresh = new_table small first_binding

created : create willing small ≡ value fresh
unfolding create check_config check_counts some_empty check_widths check_output check_fill
    check_scratch make_binding open_sets
created = refl

fresh-IsValid : IsValid fresh
fresh-IsValid = new_table-IsValid small first_binding (omega arith) (omega arith) refl refl

fresh-IsSound : IsSound (record { table = fresh; leases = [] })
unfolding new_table
fresh-IsSound = record { valid = fresh-IsValid; current = tt; pins = λ i. refl }

-- Row 3 is admitted, to slot 0.
abbrev three : Table
three = (admit willing fresh 3).0

abbrev lease_three : RowLease
lease_three = record {
  held = true;
  slot = 0;
  epoch = 1;
  bytes_offset = 0;
  bytes_size = 0;
  row_index = 3;
  generation = 1;
}

admitted : (admit willing fresh 3).1 ≡ value lease_three
unfolding admit index_find find_from new_table ceil_exponent admit_miss claim_victim sweep judge
    start_fill_locked start_located locate occupy index_insert empty_from advance_hand length_ok
    settle chunk_count fill_window refuse start_flight submit_fill submit_single index_home next
    lease_on pin count_coalesced count_hit
admitted = refl

three-filling : (three.slots 0).state ≡ SlotState.filling
unfolding admit index_find find_from new_table ceil_exponent admit_miss claim_victim sweep judge
    start_fill_locked start_located locate occupy index_insert empty_from advance_hand length_ok
    settle chunk_count fill_window refuse start_flight submit_fill submit_single index_home next
    lease_on pin count_coalesced count_hit
three-filling = refl

three-IsValid : IsValid three
three-IsValid =
    let a : Leased fresh three 3 lease_three =
      subst (Admits fresh three 3) admitted (admit-Admits willing fresh 3 fresh-IsValid) in
    a.valid

abbrev fresh_world : World
fresh_world = record { table = fresh; leases = [] }

abbrev three_world : World
three_world = record { table = three; leases = lease_three ∷ [] }

three-Reach : Reach willing fresh_world three_world
three-Reach =
    subst
      (λ (r : Result RowLease).
        Reach willing fresh_world (record { table = three; leases = add_result r [] }))
      admitted (then fresh_world _ here (admits fresh [] 3))

three-budget : 0 < three.config.budget_rows
unfolding new_table
three-budget =
    subst (λ (x : TableConfig). 0 < x.budget_rows)
      (sym (
        let a : Leased fresh three 3 lease_three =
          subst (Admits fresh three 3) admitted (admit-Admits willing fresh 3 fresh-IsValid) in
        a.config))
      (omega arith)

three-narrow : 2 * three.config.budget_rows < 2 ^ 32
unfolding new_table
three-narrow =
    subst (λ (x : TableConfig). 2 * x.budget_rows < 2 ^ 32)
      (sym (
        let a : Leased fresh three 3 lease_three =
          subst (Admits fresh three 3) admitted (admit-Admits willing fresh 3 fresh-IsValid) in
        a.config))
      (omega arith)

-- The fill of row 3 ends well.
abbrev filled_world : World
filled_world = record { table = publish three 0 Status.ok; leases = lease_three ∷ [] }

filling-Step : Step willing three_world filled_world
filling-Step = publishes three (lease_three ∷ []) 0 Status.ok three-budget three-filling

filled-Reach : Reach willing fresh_world filled_world
filled-Reach = then three_world _ three-Reach filling-Step

filled-ready : is_ready (filled_world.table.slots 0).state ≡ true
unfolding publish publish_ready release_fill
filled-ready = refl

filled-IsValid : IsValid (publish three 0 Status.ok)
filled-IsValid =
    (publish-Published three 0 three-IsValid three-budget three-filling Status.ok).valid

three-found : index_find three 3 three.current_generation ≡ some 0
unfolding admit index_find find_from new_table ceil_exponent admit_miss claim_victim sweep judge
    start_fill_locked start_located locate occupy index_insert empty_from advance_hand length_ok
    settle chunk_count fill_window refuse start_flight submit_fill submit_single index_home next
    lease_on pin count_coalesced count_hit
three-found = refl

-- A table of which nothing is in the index has no row.
fresh-find : index_find fresh 3 1 ≡ none
unfolding index_find find_from new_table ceil_exponent
fresh-find = refl

fresh-victim : (claim_victim fresh).1 ≡ some 0
unfolding claim_victim sweep judge new_table
fresh-victim = refl

created-IsSound_example : IsSound filled_world
created-IsSound_example = created-IsSound willing small fresh filled_world created filled-Reach

published-Step_example :
    (published filled_world.table lease_three ≡ published three lease_three)
    × ((filled_world.table.slots 0).row_index ≡ (three.slots 0).row_index)
    × ((filled_world.table.slots 0).row_generation ≡ (three.slots 0).row_generation)
    × ((filled_world.table.slots 0).epoch ≡ (three.slots 0).epoch)
published-Step_example =
    published-Step willing fresh_world three [] lease_three [] filled_world fresh-IsSound
      three-Reach filling-Step

ready-Step_example :
    is_ready ((invalidate willing filled_world.table 2 shards none).0.slots 0).state ≡ true
ready-Step_example =
    ready-Step willing fresh_world filled_world.table [] lease_three []
      (record {
        table = (invalidate willing filled_world.table 2 shards none).0;
        leases = lease_three ∷ [];
      })
      fresh-IsSound filled-Reach (invalidates filled_world.table (lease_three ∷ []) 2 shards none)
      filled-ready

release-Reach_example :
    (u : Table) × (release_lease three 0 1 ≡ some u) × IsSound (record { table = u; leases = [] })
release-Reach_example =
    release-Reach willing fresh_world three [] lease_three [] fresh-IsSound three-Reach

index_find_iff_example : (index_find three 3 1 ≡ some 0) ↔ IsEntered three 3 1 0
index_find_iff_example = index_find_iff three three-IsValid.indexed 3 1 0

index_find-eq-none_iff_example : (index_find fresh 3 1 ≡ none) ↔ ((i : ℕ) → ¬ IsEntered fresh 3 1 i)
index_find-eq-none_iff_example = index_find-eq-none_iff fresh fresh-IsValid.indexed 3 1

claim_victim-some_example :
    (0 < fresh.config.budget_rows)
    × (is_filling (fresh.slots 0).state ≡ false)
    × ((fresh.slots 0).pins ≡ 0)
    × (((claim_victim fresh).0.slots 0).state ≡ SlotState.free)
    × (((claim_victim fresh).0.slots 0).epoch ≡ (fresh.slots 0).epoch)
claim_victim-some_example = claim_victim-some fresh fresh-IsValid 0 fresh-victim

claim_victim-IsValid_example : IsValid (claim_victim three).0
claim_victim-IsValid_example = claim_victim-IsValid three three-IsValid

claim_victim_others_example : SameButReferenced (fresh.slots 1) ((claim_victim fresh).0.slots 1)
claim_victim_others_example =
    claim_victim_others fresh fresh-IsValid 1 (λ e. let f = sym fresh-victim ∙ e in cc)

-- Slot 0 is Filling, and slot 1 is Free.
claim_victim-eq-none_iff_example :
    ((claim_victim three).1 ≡ none)
    ↔ ((j : ℕ) → j < three.config.budget_rows → IsBusy (three.slots j))
claim_victim-eq-none_iff_example = claim_victim-eq-none_iff three three-IsValid three-narrow

start_fill-Started_example :
    Started fresh
      (start_fill_locked willing fresh 0 3).0
      0
      3
      (((fresh.slots 0).epoch + 1) % 2 ^ 32)
      (fresh.slots 0).pins
      (start_fill_locked willing fresh 0 3).1
unfolding new_table
start_fill-Started_example =
    start_fill-Started willing fresh 0 3 fresh-IsValid (omega arith) refl fresh-find

publish-Published_example : Published three (publish three 0 Status.io_error) 0 Status.io_error
publish-Published_example =
    publish-Published three 0 three-IsValid three-budget three-filling Status.io_error

admit-Admits_example : Admits three (admit willing three 5).0 5 (admit willing three 5).1
admit-Admits_example = admit-Admits willing three 5 three-IsValid

try_get-Gets_example :
    Gets
      (publish three 0 Status.ok)
      (try_get (publish three 0 Status.ok) 3).0
      3
      (try_get (publish three 0 Status.ok) 3).1
try_get-Gets_example = try_get-Gets (publish three 0 Status.ok) 3 filled-IsValid

prefetch-Undisturbed_example : Undisturbed three (prefetch willing three (4 ∷ 5 ∷ [])).0
prefetch-Undisturbed_example = prefetch-Undisturbed willing three (4 ∷ 5 ∷ []) three-IsValid

invalidate-Invalidated_example :
    Invalidated three
      (invalidate willing three 2 shards none).0
      2
      shards
      (invalidate willing three 2 shards none).1
invalidate-Invalidated_example = invalidate-Invalidated willing three 2 shards three-IsValid none

three-retired : (invalidate willing three 2 shards none).1 ≡ Status.ok
unfolding invalidate make_binding open_sets some_empty admit index_find find_from new_table
    ceil_exponent admit_miss claim_victim sweep judge start_fill_locked start_located locate occupy
    index_insert empty_from advance_hand length_ok settle chunk_count fill_window refuse
    start_flight submit_fill submit_single index_home next lease_on pin count_coalesced count_hit
three-retired = refl

three-dated : (three.slots 0).row_generation ≡ 1
unfolding admit index_find find_from new_table ceil_exponent admit_miss claim_victim sweep judge
    start_fill_locked start_located locate occupy index_insert empty_from advance_hand length_ok
    settle chunk_count fill_window refuse start_flight submit_fill submit_single index_home next
    lease_on pin count_coalesced count_hit
three-dated = refl

three-other : (three.slots 1).indexed ≡ false
unfolding admit index_find find_from new_table ceil_exponent admit_miss claim_victim sweep judge
    start_fill_locked start_located locate occupy index_insert empty_from advance_hand length_ok
    settle chunk_count fill_window refuse start_flight submit_fill submit_single index_home next
    lease_on pin count_coalesced count_hit
three-other = refl

three-bounded : (j : ℕ) → (three.slots j).indexed ≡ true → (j ≡ 0) ⊎ (j ≡ 1)
unfolding new_table
three-bounded j e =
    let a : Leased fresh three 3 lease_three =
      subst (Admits fresh three 3) admitted (admit-Admits willing fresh 3 fresh-IsValid) in
    let inside : j < 2 =
      subst (λ (x : TableConfig). j < x.budget_rows) a.config (three-IsValid.indexed.inside j e) in
    ground (arith, inside)

-- Row 3 is in the index, with generation 1.
three-old : (j : ℕ) → (three.slots j).indexed ≡ true → (three.slots j).row_generation ≢ 2
three-old j e now = elim (three-bounded j e) [
  | inl same ↦
      let first : (three.slots 0).row_generation ≡ 2 =
        subst (λ (x : ℕ). (three.slots x).row_generation ≡ 2) same now in
      omega (arith, sym three-dated ∙ first)
  | inr same ↦
      let second : (three.slots 1).indexed ≡ true =
        subst (λ (x : ℕ). (three.slots x).indexed ≡ true) same e in
      absurd (false≢true (sym three-other ∙ second))
]

invalidate_hides_example :
    ((invalidate willing three 2 shards none).0.current_generation ≡ 2)
    × ((row : ℕ)
        → index_find
            (invalidate willing three 2 shards none).0
            row
            (invalidate willing three 2 shards none).0.current_generation
          ≡ none)
invalidate_hides_example =
    invalidate_hides willing three 2 shards three-IsValid none (λ calls shard span claims e. cc)
      three-retired three-old

create-IsValid_example : IsValid fresh × (fresh.config ≡ small)
create-IsValid_example = create-IsValid willing small fresh created

from_mempage-ne-ok_example : from_mempage MempageStatus.io_error ≢ Status.ok
from_mempage-ne-ok_example = from_mempage-ne-ok MempageStatus.io_error (λ e. cc)

three-IsEntered : IsEntered three 3 three.current_generation 0
three-IsEntered =
    (index_find_iff three three-IsValid.indexed 3 three.current_generation 0).0 three-found

admit_joins_example : Coalesces three 0 3 (admit willing three 3)
admit_joins_example = admit_joins willing three 3 0 three-IsValid three-IsEntered

abbrev empty_registry : Registry
empty_registry = record { tables = [] }

register-table_example :
    (handle : ℕ) × ((register_table willing empty_registry small).1 ≡ value handle)
    × (table (register_table willing empty_registry small).0 handle ≡ some fresh)
unfolding table_count
register-table_example = register-table willing empty_registry small fresh created (omega arith)

abbrev one_table : Registry
one_table = record { tables = three ∷ [] }

three-stands : table one_table 0 ≡ some three
unfolding table
three-stands = refl

three-still_stands : table (register_table willing one_table small).0 0 ≡ some three
three-still_stands = register-table_old willing one_table small fresh created 0 three three-stands

abbrev aligned : TableConfig
aligned = record small { fill_alignment = 8 }

abbrev odd_row : ByteRange
odd_row = record { offset = 12; length = 6 }

abbrev small_shard : ShardSource
small_shard = record { source = 0; bytes = 20 }

fill_window_covers_example :
    (let (fill, head) = fill_window aligned small_shard odd_row in
      (fill.offset + head ≡ 12)
      × (12 + 6 ≤ fill.offset + fill.length)
      × (fill.offset + fill.length ≤ 20))
fill_window_covers_example =
    fill_window_covers aligned small_shard odd_row (omega arith) (omega arith) (omega arith)

publish_retries_example :
    index_find
      (publish three 0 Status.short_read)
      (three.slots 0).row_index
      (three.slots 0).row_generation
    ≡ none
publish_retries_example =
    publish_retries three 0 three-IsValid three-budget three-filling Status.short_read (λ e. cc)
