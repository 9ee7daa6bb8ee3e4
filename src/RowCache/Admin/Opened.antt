-- ===== src/RowCache/Admin/Opened.antt =====
-- What open_sets and make_binding answer where a transfer set cannot be made.
use mathlib.Core.Option.{some-injective}
use sub0tiered_cache.Base.{
  ℕ, ◌+◌, ◌*◌, ◌%◌, ◌==◌, ◌≡◌, ◌≢◌, inl, inr, ap, ◌∙◌, Bool, ◌||◌, some, List, [], ◌∷◌, length,
  Bool-cases, Option-cases,
}
use sub0tiered_cache.Status.{Status, MempageStatus, from_mempage, from_mempage-ne-ok}
use sub0tiered_cache.RowCache.Config.{
  unexpected, Transport, TableConfig, ShardSource, RowExtentResolver, Span, u32_size,
}
use sub0tiered_cache.RowCache.Admin.{some_empty, open_sets, make_binding}

-- The transport reports no failure to make a transfer set as ok.
abbrev pub NamesFailures : Transport → Type 0
NamesFailures tr =
    (calls : ℕ) (shard : ShardSource) (span : Span) (claims : ℕ)
    → tr.open_set calls shard span claims ≢ some MempageStatus.ok

set_failure :
    (tr : Transport) (calls : ℕ) (shard : ShardSource) (span : Span) (claims : ℕ)
    (m : MempageStatus)
    → NamesFailures tr
    → tr.open_set calls shard span claims ≡ some m
    → some (from_mempage m) ≢ some Status.ok
set_failure tr calls shard span claims m named e same =
    from_mempage-ne-ok m (λ f. named calls shard span claims (e ∙ ap some f))
      (some-injective (from_mempage m) Status.ok same)

open_sets_failure :
    (tr : Transport) (c : TableConfig) (converting : Bool) (chunks : ℕ) (sources : List ShardSource)
    (calls : ℕ)
    → NamesFailures tr
    → open_sets tr c converting chunks calls sources ≢ some Status.ok
unfolding open_sets
open_sets_failure tr c converting chunks [] calls named = λ ok. absurd (cc ok)
open_sets_failure tr c converting chunks (shard ∷ shards) calls named =
    elim (Option-cases
      (tr.open_set calls shard c.output_storage (c.budget_rows * chunks % u32_size))) [
        | inr (m, e) ↦ rw (e, open_sets) (set_failure tr _ _ _ _ m named e)
        | inl e ↦ elim (Bool-cases converting) [
          | inr f ↦
              rw (e, open_sets) (rw (f, open_sets) (open_sets_failure tr c _ chunks shards _ named))
          | inl f ↦
              elim (Option-cases (tr.open_set (calls + 1) shard c.scratch_storage c.scratch_rows)) [
                | inr (m, g) ↦
                    rw (e, open_sets)
                      (rw (f, open_sets) (rw (g, open_sets) (set_failure tr _ _ _ _ m named g)))
                | inl g ↦
                    rw (e, open_sets)
                      (rw (f, open_sets)
                        (rw (g, open_sets) (open_sets_failure tr c _ chunks shards _ named)))
              ]
        ]
      ]

-- A binding that is not made is not reported ok.
pub unmade :
    (tr : Transport) (c : TableConfig) (converting : Bool) (chunks calls id : ℕ)
    (sources : List ShardSource) (resolver : RowExtentResolver)
    → NamesFailures tr
    → (e : Status) → make_binding tr c converting chunks calls id sources resolver ≡ unexpected e
    → e ≢ Status.ok
unfolding make_binding
unmade tr c converting chunks calls id sources resolver named e =
    elim (Bool-cases (length sources == 0 || some_empty sources)) [
      | inl f ↦ rw (f, make_binding) (λ same ok. absurd (cc (same, ok)))
      | inr f ↦ elim (Option-cases (open_sets tr c converting chunks calls sources)) [
        | inl g ↦ rw (f, make_binding) (rw (g, make_binding) (λ same. absurd (cc same)))
        | inr (s, g) ↦
            rw (f, make_binding)
              (rw (g, make_binding)
                (λ same ok.
                  open_sets_failure tr c converting chunks sources calls named
                    (g ∙ ap some (cc (same, ok)))))
      ]
    ]
