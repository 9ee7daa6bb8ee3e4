-- ===== src/RowCache/Lookup.antt =====
-- The index of a Table, and how a slot leaves it: index_find, index_insert, index_erase,
-- unindex_locked and make_free of include/sub0tieredcache/row_cache.hpp.
pub mod Frame
pub mod Agreement
use sub0tiered_cache.Base.{
  ℕ, ◌-◌, Bool, true, false, ◌&&◌, Option, none, some, List, [], update, ◌==◌, if◌then◌else◌,
}
use sub0tiered_cache.RowCache.State.{Table, Slot, SlotState, with_slot, index_size, is_free}
use sub0tiered_cache.RowCache.Index.{next, find_from, empty_from, hole_from, shift_back, index_home}

-- Whether the slot is for the key.
abbrev pub has_key : Table → ℕ → ℕ → ℕ → Bool
has_key t row generation slot =
    (t.slots slot).row_index == row && (t.slots slot).row_generation == generation

abbrev pub home_of : Table → ℕ → ℕ → ℕ
home_of t row generation = index_home t.index_bits row generation

abbrev pub home_of_slot : Table → ℕ → ℕ
home_of_slot t slot = home_of t (t.slots slot).row_index (t.slots slot).row_generation

-- As many rounds as there are positions: the loop of the source has no other bound.
unfoldable pub index_find : Table → ℕ → ℕ → Option ℕ
index_find t row generation =
    elim (find_from (index_size t) (has_key t row generation) t.index (index_size t)
      (home_of t row generation)) [ none ↦ none | some found ↦ found ]

unfoldable pub index_insert : Table → ℕ → ℕ → ℕ → Table
index_insert t row generation slot =
    elim (empty_from (index_size t) t.index (index_size t) (home_of t row generation)) [
      | none ↦ t
      | some pos ↦ record t { index = update t.index pos (some slot) }
    ]

unfoldable pub index_erase : Table → ℕ → ℕ → Table
index_erase t row generation =
    elim (hole_from (index_size t) (has_key t row generation) t.index (index_size t)
      (home_of t row generation)) [
        | none ↦ t
        | some hole ↦
            elim (shift_back (index_size t) (home_of_slot t) (index_size t) hole
              (next (index_size t) hole) t.index) [
                | none ↦ t
                | some index ↦ record t { index = index }
              ]
      ]

abbrev pub unentered : Slot → Slot
unentered s = record s { indexed = false }

unfoldable pub unindex_locked : Table → ℕ → Table
unindex_locked t slot =
    if (t.slots slot).indexed
    then with_slot (index_erase t (t.slots slot).row_index (t.slots slot).row_generation) slot
        (unentered (t.slots slot))
    else t

-- The slot as `make_free` leaves it, but for the index.
abbrev pub freed : Slot → Slot
freed s = record s {
  state = SlotState.free;
  referenced = false;
  claim = none;
  chunk_claims = [];
  scratch_slot = none;
  fill_binding = none;
}

unfoldable pub make_free : Table → ℕ → Table
make_free t slot =
    let u = unindex_locked t slot in
    let s = u.slots slot in
    record u {
      non_free = if is_free s.state then u.non_free else u.non_free - 1;
      slots = update u.slots slot (freed s);
    }
