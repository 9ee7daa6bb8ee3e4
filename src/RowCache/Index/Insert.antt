-- ===== src/RowCache/Index/Insert.antt =====
-- Insertion into the index: `empty_from`, and the write at the position that it finds.
use sub0tiered_cache.Base.{
  ℕ, zero, suc, ◌+◌, ◌<◌, ◌≡◌, ◌≢◌, inl, inr, arith, Bool, true, false, Option, none, some,
  Option-cases, ℕ_discrete, ap, update, total, total-update,
}
use sub0tiered_cache.RowCache.Index.{next, distance, empty_from}
use sub0tiered_cache.RowCache.Index.Shape.{IsIndex, occupied}
use sub0tiered_cache.RowCache.Index.Circle.{next-lt, distance_self, distance-next, nearer_next}

module _ (size : ℕ) (index : ℕ → Option ℕ) where
  -- With an empty position within the fuel, the search ends at the first one from `pos` on.
  pub empty_from_finds :
      (fuel pos gap : ℕ)
      → pos < size
      → gap < size
      → index gap ≡ none
      → distance size pos gap < fuel
      → (p : ℕ) × (empty_from size index fuel pos ≡ some p)
        × (p < size)
        × (index p ≡ none)
        × ((q : ℕ) → q < size → distance size pos q < distance size pos p → index q ≢ none)
  unfolding empty_from
  empty_from_finds zero pos gap h k e d = absurd (omega arith)
  empty_from_finds (suc fuel) pos gap h k e d = elim (Option-cases (index pos)) [
    | inl empty ↦ (
      pos,
      rw (empty, empty_from),
      h,
      empty,
      λ q k near. absurd (omega (arith, distance_self size pos h)),
    )
    | inr (s, entry) ↦ elim (ℕ_discrete pos gap) [
      | yes here ↦ absurd (ground (arith, ap index here))
      | no other ↦
          let (p, found, within, empty, dense) =
            empty_from_finds fuel (next size pos) gap (next-lt size pos h) k e
              (omega (arith, distance-next size pos gap h k other)) in
          (
            p,
            rw (entry, empty_from) found,
            within,
            empty,
            λ q k near. elim (ℕ_discrete pos q) [
              | yes same ↦ λ none_at. ground (arith, ap index same)
              | no apart ↦ dense q k (
                  nearer_next size pos q p h k within apart (λ same. ground (arith, ap index same))
                    near)
            ],
          )
    ]
  ]

module _ {size : ℕ} {home : ℕ → ℕ} {members : ℕ → Bool} {index : ℕ → Option ℕ}
    (valid : IsIndex size home members index) (slot at : ℕ) (new : members slot ≡ false)
    (within : at < size) (empty : index at ≡ none)
    (dense : (q : ℕ)
      → q < size
      → distance size (home slot) q < distance size (home slot) at
      → index q ≢ none) where
  -- A slot entered at the first empty position from its home on becomes a member.
  pub insert-IsIndex : IsIndex size home (update members slot true) (update index at (some slot))
  insert-IsIndex = record {
    reach = λ p q s h k e near. ground (arith, dense q k, valid.reach p q s h k);
    distinct = λ p q s h k e f.
        ground (arith, valid.distinct p q s h k, valid.sound p s h, valid.sound q s k);
    sound = λ p s h e. ground (arith, valid.sound p s h);
    complete = λ s e. elim (ℕ_discrete s slot) [
      | yes same ↦ (at, within, ground arith)
      | no other ↦
          let (p, h, entry) = valid.complete s (ground arith) in (p, h, ground (arith, ap index))
    ];
  }

  -- It adds one entry.
  pub insert-occupied :
      total size occupied (update index at (some slot)) ≡ total size occupied index + 1
  insert-occupied = ground (arith, total-update size occupied index at (some slot) within)
