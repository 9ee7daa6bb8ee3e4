-- ===== src/RowCache/Lookup/Frame.antt =====
-- What the operations on the index leave as it is, and what they make of the slot.
use mathlib.Core.Path.{fun_ext, ap₂}
use sub0tiered_cache.Base.{
  ℕ, ◌-◌, ◌≡◌, sym, ap, ◌∙◌, inl, inr, arith, Bool, true, false, Option, Bool-cases, update,
  update_self, if◌then◌else◌,
}
use sub0tiered_cache.RowCache.State.{Table, Slot, is_free, with_slot}
use sub0tiered_cache.RowCache.Lookup.{
  index_insert, index_erase, unindex_locked, unentered, freed, make_free,
}

-- Writing back what is there changes nothing, and only the last write of two counts.
pub update_same : (slots : ℕ → Slot) (i : ℕ) (s : Slot) → s ≡ slots i → update slots i s ≡ slots
update_same slots i s e = fun_ext (λ j. ground arith)

pub update_twice :
    (slots : ℕ → Slot) (i : ℕ) (s s' : Slot) → update (update slots i s) i s' ≡ update slots i s'
update_twice slots i s s' = fun_ext (λ j. ground arith)

pub index_insert_frame :
    (t : Table) (row generation i : ℕ)
    → index_insert t row generation i ≡ record t { index = (index_insert t row generation i).index }
unfolding index_insert
index_insert_frame t row generation i = ground arith

pub index_erase_frame :
    (t : Table) (row generation : ℕ)
    → index_erase t row generation ≡ record t { index = (index_erase t row generation).index }
unfolding index_erase
index_erase_frame t row generation = ground arith

pub unindex_member :
    (t : Table) (i : ℕ)
    → (t.slots i).indexed ≡ true
    → unindex_locked t i
      ≡ with_slot
          (index_erase t (t.slots i).row_index (t.slots i).row_generation)
          i
          (unentered (t.slots i))
unfolding unindex_locked
unindex_member t i e =
    ap
      (λ (b : Bool).
        if b
        then with_slot (index_erase t (t.slots i).row_index (t.slots i).row_generation) i
            (unentered (t.slots i))
        else t)
      e

pub unindex_outsider : (t : Table) (i : ℕ) → (t.slots i).indexed ≡ false → unindex_locked t i ≡ t
unfolding unindex_locked
unindex_outsider t i e =
    ap
      (λ (b : Bool).
        if b
        then with_slot (index_erase t (t.slots i).row_index (t.slots i).row_generation) i
            (unentered (t.slots i))
        else t)
      e

pub unentered_same : (s : Slot) → s.indexed ≡ false → unentered s ≡ s
unentered_same s e = ap (λ (b : Bool). record s { indexed = b }) (sym e)

-- The table with another index and other slots.
abbrev pub reindexed : Table → (ℕ → Option ℕ) → (ℕ → Slot) → Table
reindexed t index slots = record t { index = index; slots = slots }

pub unindex_frame :
    (t : Table) (i : ℕ)
    → unindex_locked t i
      ≡ reindexed t (unindex_locked t i).index (update t.slots i (unentered (t.slots i)))
unindex_frame t i = elim (Bool-cases (t.slots i).indexed) [
  | inl e ↦
      let p = unindex_member t i e in
      p
      ∙ ap (λ (u : Table). with_slot u i (unentered (t.slots i))) (index_erase_frame t _ _)
      ∙ ap (λ (x : ℕ → Option ℕ). reindexed t x (update t.slots i (unentered (t.slots i))))
          (ap (λ (u : Table). u.index) (sym p))
  | inr e ↦
      let p = unindex_outsider t i e in
      p
      ∙ ap₂ (reindexed t) (ap (λ (u : Table). u.index) (sym p))
          (sym (update_same t.slots i (unentered (t.slots i)) (unentered_same (t.slots i) e)))
]

-- `make_free` behind `unindex_locked`.
abbrev free_behind : ℕ → Table → Table
free_behind i u = record u {
  non_free = if is_free (u.slots i).state then u.non_free else u.non_free - 1;
  slots = update u.slots i (freed (u.slots i));
}

pub make_free_frame :
    (t : Table) (i : ℕ)
    → make_free t i
      ≡ record (reindexed t
          (unindex_locked t i).index
          (update t.slots i (freed (unentered (t.slots i))))) {
            non_free = if is_free (t.slots i).state then t.non_free else t.non_free - 1;
          }
unfolding make_free
make_free_frame t i =
    let written = unentered (t.slots i) in
    ap (free_behind i) (unindex_frame t i)
    ∙ ap₂
        (λ (s : Slot) (slots : ℕ → Slot). record (reindexed t (unindex_locked t i).index slots) {
          non_free = if is_free s.state then t.non_free else t.non_free - 1;
        })
        (update_self t.slots i written)
        (ap (λ (s : Slot). update (update t.slots i written) i (freed s))
            (update_self t.slots i written)
          ∙ update_twice t.slots i written (freed written))
