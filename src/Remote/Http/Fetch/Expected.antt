-- ===== src/Remote/Http/Fetch/Expected.antt =====
-- The comparison of validators in fetch_once of include/sub0tieredcache/remote/http_client.hpp.
use sub0tiered_cache.Base.{
  ℕ, ◌≡◌, ◌≢◌, refl, sym, arith, true, false, ◌&&◌, not, List, [], ◌∷◌, ◌==◌, Bool-cases, inl, inr,
  ◌⊎◌, ==_iff,
}
use sub0tiered_cache.Remote.Store.{SourceValidator, same_bytes}
use sub0tiered_cache.Remote.Store.Format.{same_bytes_iff}
use sub0tiered_cache.Remote.Store.Publication.{is_empty}
use sub0tiered_cache.Remote.Http.Fetch.{is_expected}

-- The observed validator is that of the request, as far as the request has one.
pub Accepts : SourceValidator → SourceValidator → Type 0
Accepts expected observed =
    ((expected.etag ≡ []) ⊎ (observed.etag ≡ expected.etag))
    × ((expected.etag ≢ [])
        ⊎ (expected.last_modified ≡ [])
        ⊎ (observed.last_modified ≡ expected.last_modified))
    × ((expected.total_size ≡ 0) ⊎ (observed.total_size ≡ expected.total_size))

empty_or : (xs : List ℕ) → (is_empty xs ≡ true) × (xs ≡ []) ⊎ (is_empty xs ≡ false) × (xs ≢ [])
empty_or [] = inl (refl, refl)
empty_or (x ∷ xs) = inr (refl, λ e. absurd (cc e))

pub expected-Accepts :
    (expected observed : SourceValidator)
    → (not (expected.total_size == 0) && not (observed.total_size == expected.total_size)) ≡ false
    → not (is_expected expected observed) ≡ false
    → Accepts expected observed
unfolding Accepts is_expected
expected-Accepts expected observed t i = let (tag, date) = identity in (tag, date, sizes)
  where
    sizes : (expected.total_size ≡ 0) ⊎ (observed.total_size ≡ expected.total_size)
    sizes = elim (Bool-cases (expected.total_size == 0)) [
      | inl e ↦ inl ((==_iff expected.total_size 0).0 e)
      | inr e ↦ inr (ground (arith, t, e))
    ]

    identity :
        ((expected.etag ≡ []) ⊎ (observed.etag ≡ expected.etag))
        × ((expected.etag ≢ [])
            ⊎ (expected.last_modified ≡ [])
            ⊎ (observed.last_modified ≡ expected.last_modified))
    identity = elim (empty_or expected.etag) [
      | inr e ↦
          let same : same_bytes expected.etag observed.etag ≡ true = ground (arith, i, e.0) in
          (inr (sym ((same_bytes_iff expected.etag observed.etag).0 same)), inl e.1)
      | inl e ↦ elim (empty_or expected.last_modified) [
        | inl f ↦ (inl e.1, inr (inl f.1))
        | inr f ↦
            let same : same_bytes expected.last_modified observed.last_modified ≡ true =
              ground (arith, i, e.0, f.0) in
            (
              inl e.1,
              inr (
                  inr
                    (sym ((same_bytes_iff expected.last_modified observed.last_modified).0 same))),
            )
      ]
    ]
