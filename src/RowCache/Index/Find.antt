-- ===== src/RowCache/Index/Find.antt =====
-- The lookups of the index: `find_from` and the first loop of `index_erase`.
use sub0tiered_cache.Base.{
  ℕ, zero, suc, ◌<◌, ◌≡◌, ◌≢◌, inl, inr, arith, refl, sym, ◌∙◌, Bool, true, false, Option, none,
  some, Bool-cases, Option-cases, ℕ_discrete, ap,
}
use sub0tiered_cache.RowCache.Index.{next, distance, find_from, hole_from}
use sub0tiered_cache.RowCache.Index.Circle.{next-lt, distance_self, distance-next, nearer}

module _ (size : ℕ) (matches : ℕ → Bool) (index : ℕ → Option ℕ) where
  -- The search stops at an empty position when no entry passes the test.
  pub find_from_absent :
      ((p s : ℕ) → p < size → index p ≡ some s → matches s ≡ false)
      → (fuel pos gap : ℕ) → pos < size
      → gap < size
      → index gap ≡ none
      → distance size pos gap < fuel
      → find_from size matches index fuel pos ≡ some none
  unfolding find_from
  find_from_absent miss zero pos gap h k e d = absurd (omega arith)
  find_from_absent miss (suc fuel) pos gap h k e d = elim (Option-cases (index pos)) [
    | inl empty ↦ rw (empty, find_from)
    | inr (s, entry) ↦
        rw (entry, find_from, miss pos s h entry)
          (elim (ℕ_discrete pos gap) [
            | yes here ↦ absurd (ground (arith, ap index here))
            | no other ↦
                find_from_absent miss fuel (next size pos) gap (next-lt size pos h) k e
                  (omega (arith, distance-next size pos gap h k other))
          ])
  ]

  -- A search that passes no empty position before `at` finds the slot entered there, if that is
  -- the one slot that passes the test. So does the search for its position.
  module _ (at slot : ℕ) (within : at < size) (entered : index at ≡ some slot)
      (hit : matches slot ≡ true)
      (only : (p s : ℕ) → p < size → index p ≡ some s → matches s ≡ true → p ≡ at) where
    pub walk_to_entry :
        (fuel pos : ℕ)
        → pos < size
        → ((q : ℕ) → q < size → distance size pos q < distance size pos at → index q ≢ none)
        → distance size pos at < fuel
        → (find_from size matches index fuel pos ≡ some (some slot))
          × (hole_from size matches index fuel pos ≡ some at)
    unfolding find_from hole_from
    walk_to_entry zero pos h dense d = absurd (omega arith)
    walk_to_entry (suc fuel) pos h dense d = elim (ℕ_discrete pos at) [
      | yes here ↦ rw (here, entered, find_from, hole_from, hit) (refl, ap some here)
      | no other ↦ elim (Option-cases (index pos)) [
        | inl empty ↦ absurd (
            dense pos h
              (omega (arith, distance_self size pos h, distance-next size pos at h within other))
              empty)
        | inr (s, entry) ↦ elim (Bool-cases (matches s)) [
          | inl here ↦ absurd (other (only pos s h entry here))
          | inr miss ↦
              rw (entry, find_from, hole_from, miss)
                (walk_to_entry fuel (next size pos) (next-lt size pos h)
                  (λ q k near. dense q k (nearer size pos q at h k within other near))
                  (omega (arith, distance-next size pos at h within other)))
        ]
      ]
    ]

-- What a search answers is entered, and passes the test.
pub find_from_sound :
    (size : ℕ) (matches : ℕ → Bool) (index : ℕ → Option ℕ) (fuel pos s : ℕ)
    → pos < size
    → find_from size matches index fuel pos ≡ some (some s)
    → (matches s ≡ true) × (p : ℕ) × (p < size) × (index p ≡ some s)
unfolding find_from
find_from_sound size matches index zero pos s h e = cc
find_from_sound size matches index (suc fuel) pos s h e = elim (Option-cases (index pos)) [
  | inl empty ↦ ground arith
  | inr (x, entry) ↦ elim (Bool-cases (matches x)) [
    | inl hit ↦
        let same : x ≡ s = ground arith in
        (ap matches (sym same) ∙ hit, pos, h, entry ∙ ap some same)
    | inr miss ↦
        find_from_sound size matches index fuel (next size pos) s (next-lt size pos h)
          (ground arith)
  ]
]
