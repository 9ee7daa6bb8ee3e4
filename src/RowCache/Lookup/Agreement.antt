-- ===== src/RowCache/Lookup/Agreement.antt =====
-- What the index of a Table answers, and that unindex_locked keeps the index right.
use mathlib.Core.Bool.{false≢true}
use sub0tiered_cache.Base.{
  ℕ, ◌^◌, ◌<◌, ◌≡◌, ◌↔◌, inl, inr, refl, sym, ap, subst, ◌∙◌, arith, true, false, Option, none,
  some, update, update_self, Bool-cases, Option-cases,
}
use sub0tiered_cache.RowCache.State.{Table, Slot, index_size}
use sub0tiered_cache.RowCache.Index.{find_from, hole_from}
use sub0tiered_cache.RowCache.Index.Find.{find_from_sound}
use sub0tiered_cache.RowCache.Indexed.{
  Agrees, index_home-lt, touch-Agrees, lookup_member, erase-Agrees,
}
use sub0tiered_cache.RowCache.Lookup.{
  has_key, home_of, index_find, index_erase, unindex_locked, unentered,
}
use sub0tiered_cache.RowCache.Lookup.Frame.{
  unindex_member, unindex_outsider, unentered_same, update_same, update_twice,
}

-- The index and the slots of a table agree.
abbrev pub IsIndexed : Table → Type 0
IsIndexed t = Agrees t.index_bits t.config.budget_rows t.slots t.index

-- The slot is in the index, under the key.
abbrev pub IsEntered : Table → ℕ → ℕ → ℕ → Type 0
IsEntered t row generation i =
    ((t.slots i).indexed ≡ true)
    × ((t.slots i).row_index ≡ row)
    × ((t.slots i).row_generation ≡ generation)

has_key_iff :
    (t : Table) (row generation i : ℕ)
    → (has_key t row generation i ≡ true)
      ↔ (((t.slots i).row_index ≡ row) × ((t.slots i).row_generation ≡ generation))
has_key_iff t row generation i = ground arith

module _ (t : Table) (v : IsIndexed t) (row generation : ℕ) where
  home : home_of t row generation < 2 ^ t.index_bits
  home = index_home-lt t.index_bits row generation v.bits-le

  index_find_sound : (i : ℕ) → index_find t row generation ≡ some i → IsEntered t row generation i
  unfolding index_find
  index_find_sound i e =
      let (hit, p, h, entry) =
        find_from_sound (index_size t) (has_key t row generation) t.index (index_size t)
          (home_of t row generation) i home (ground arith) in
      let (same, same') = (has_key_iff t row generation i).0 hit in
      (v.shape.sound p i h entry, same, same')

  member_position :
      (i : ℕ)
      → IsEntered t row generation i
      → (at : ℕ) × (at < 2 ^ t.index_bits)
        × (t.index at ≡ some i)
        × (find_from
              (index_size t)
              (has_key t row generation)
              t.index
              (index_size t)
              (home_of t row generation)
            ≡ some (some i))
        × (hole_from
              (index_size t)
              (has_key t row generation)
              t.index
              (index_size t)
              (home_of t row generation)
            ≡ some at)
  member_position i (member, same, same') =
      rw (← same, ← same')
        (lookup_member v i (has_key t (t.slots i).row_index (t.slots i).row_generation) member
          ((has_key_iff t _ _ i).1 (refl, refl))
          (λ j e hit. let (r, g) = (has_key_iff t _ _ j).0 hit in v.unique j i e member r g))

  index_find_complete :
      (i : ℕ) → IsEntered t row generation i → index_find t row generation ≡ some i
  unfolding index_find
  index_find_complete i e = let (at, h, entry, found, hole) = member_position i e in ground arith

  -- The lookup answers a slot exactly if that slot is in the index under the key.
  pub index_find_iff :
      (i : ℕ) → (index_find t row generation ≡ some i) ↔ IsEntered t row generation i
  index_find_iff i = (index_find_sound i, index_find_complete i)

  -- And nothing exactly if no slot is.
  pub index_find-eq-none_iff :
      (index_find t row generation ≡ none) ↔ ((i : ℕ) → ¬ IsEntered t row generation i)
  index_find-eq-none_iff = (
    λ e i entered. ground (arith, index_find_complete i entered),
    λ absent. elim (Option-cases (index_find t row generation)) [
      | inl e ↦ e
      | inr (i, e) ↦ absurd (absent i (index_find_sound i e))
    ],
  )

module _ (t : Table) (v : IsIndexed t) (i : ℕ) where
  unindex_index :
      (t.slots i).indexed ≡ true
      → Agrees t.index_bits t.config.budget_rows
          (update t.slots i (unentered (t.slots i)))
          (unindex_locked t i).index
  unfolding index_erase
  unindex_index e =
      let (at, h, entry, found, hole) =
        member_position t v (t.slots i).row_index (t.slots i).row_generation i (e, refl, refl) in
      let (index', shifted, agrees) = erase-Agrees v i at (unentered (t.slots i)) e refl h entry in
      subst
        (λ (x : ℕ → Option ℕ).
          Agrees t.index_bits t.config.budget_rows (update t.slots i (unentered (t.slots i))) x)
        (sym (
          ap (λ (u : Table). u.index) (unindex_member t i e)
          ∙ rw (hole, index_erase) (rw (shifted, index_erase) refl)))
        agrees

  -- The slot is out of the index behind `unindex_locked`, and all others are as they were.
  pub unindex-Agrees :
      Agrees t.index_bits t.config.budget_rows
        (update t.slots i (unentered (t.slots i)))
        (unindex_locked t i).index
  unindex-Agrees = elim (Bool-cases (t.slots i).indexed) [
    | inl e ↦ unindex_index e
    | inr e ↦
        rw
          (
            ap (λ (u : Table). u.index) (unindex_outsider t i e),
            update_same t.slots i (unentered (t.slots i)) (unentered_same (t.slots i) e),
          )
          v
  ]

  -- So it is with any slot written in its place that is not entered.
  pub unindex_then :
      (s : Slot)
      → s.indexed ≡ false
      → Agrees t.index_bits t.config.budget_rows (update t.slots i s) (unindex_locked t i).index
  unindex_then s e =
      subst
        (λ (slots : ℕ → Slot).
          Agrees t.index_bits t.config.budget_rows slots (unindex_locked t i).index)
        (update_twice t.slots i (unentered (t.slots i)) s)
        (touch-Agrees i s unindex-Agrees
          (e ∙ sym (ap (λ (x : Slot). x.indexed) (update_self t.slots i (unentered (t.slots i)))))
          (λ member. absurd (
            false≢true (
              sym (ap (λ (x : Slot). x.indexed) (update_self t.slots i (unentered (t.slots i))))
              ∙ member))))
