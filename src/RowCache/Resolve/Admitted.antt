-- ===== src/RowCache/Resolve/Admitted.antt =====
-- What the admission of a row makes of the table: phase A of resolve_into, and a row of prefetch.
use mathlib.Core.Bool.{false≢true}
use mathlib.Core.Option.{some-injective}
use sub0tiered_cache.Base.{
  ℕ, ◌+◌, ◌<◌, ◌%◌, ◌==◌, ◌≡◌, ◌≢◌, ◌⊎◌, inl, inr, refl, sym, ap, subst, ◌∙◌, arith, false, Option,
  none, some, if◌then◌else◌, Bool-cases, Option-cases, ℕ_discrete,
}
use sub0tiered_cache.Status.{Status}
use sub0tiered_cache.RowCache.Config.{Result, value, unexpected, Transport, TableConfig, u32_size}
use sub0tiered_cache.RowCache.State.{Table, Slot, is_free}
use sub0tiered_cache.RowCache.Lookup.{index_find}
use sub0tiered_cache.RowCache.Lookup.Agreement.{IsEntered, index_find-eq-none_iff}
use sub0tiered_cache.RowCache.Valid.{IsValid, is_live}
use sub0tiered_cache.RowCache.Victim.{claim_victim}
use sub0tiered_cache.RowCache.Victim.Sound.{Claimed, claim_victim-Claimed, SameButReferenced}
use sub0tiered_cache.RowCache.Fill.{start_fill_locked}
use sub0tiered_cache.RowCache.Fill.Started.{Started, start_fill-Started, Flying, Refused}
use sub0tiered_cache.RowCache.Lease.{pin}
use sub0tiered_cache.RowCache.Resolve.{is_ok, admit_miss}

-- The slot goes on with its row, its epoch, its state and the range that it publishes.
pub record Stays (s s' : Slot) : Type 0 where
  pub row : s'.row_index ≡ s.row_index
  pub generation : s'.row_generation ≡ s.row_generation
  pub epoch : s'.epoch ≡ s.epoch
  pub state : s'.state ≡ s.state
  pub bytes : s'.published_bytes ≡ s.published_bytes
  pub offset : s'.published_offset ≡ s.published_offset

pub Stays-refl : (s : Slot) → Stays s s
Stays-refl s = record {
  row = refl;
  generation = refl;
  epoch = refl;
  state = refl;
  bytes = refl;
  offset = refl;
}

pub Stays-of_eq : (s s' : Slot) → s' ≡ s → Stays s s'
Stays-of_eq s s' e = subst (Stays s) (sym e) (Stays-refl s)

pub Stays-trans : (s s' s'' : Slot) → Stays s s' → Stays s' s'' → Stays s s''
Stays-trans s s' s'' a b = record {
  row = b.row ∙ a.row;
  generation = b.generation ∙ a.generation;
  epoch = b.epoch ∙ a.epoch;
  state = b.state ∙ a.state;
  bytes = b.bytes ∙ a.bytes;
  offset = b.offset ∙ a.offset;
}

-- Every slot that is pinned stays.
abbrev pub PinnedStay : Table → Table → Type 0
PinnedStay t u = (j : ℕ) → (t.slots j).pins ≢ 0 → Stays (t.slots j) (u.slots j)

-- The same pins, and every slot that is pinned stays.
pub record Undisturbed (t u : Table) : Type 0 where
  pub valid : IsValid u
  pub stay : PinnedStay t u
  pub pins : (j : ℕ) → (u.slots j).pins ≡ (t.slots j).pins
  pub config : u.config ≡ t.config
  pub generation : u.current_generation ≡ t.current_generation

Stays-referenced : (s s' : Slot) → SameButReferenced s s' → Stays s s'
Stays-referenced s s' e = record {
  row = ap (λ (x : Slot). x.row_index) e;
  generation = ap (λ (x : Slot). x.row_generation) e;
  epoch = ap (λ (x : Slot). x.epoch) e;
  state = ap (λ (x : Slot). x.state) e;
  bytes = ap (λ (x : Slot). x.published_bytes) e;
  offset = ap (λ (x : Slot). x.published_offset) e;
}

Claimed-PinnedStay : (t u : Table) (victim : Option ℕ) → Claimed t u victim → PinnedStay t u
Claimed-PinnedStay t u victim c j held =
    Stays-referenced (t.slots j) (u.slots j) (c.kept j (λ e. held (c.unused j e).1))

Claimed-pins :
    (t u : Table) (victim : Option ℕ)
    → Claimed t u victim
    → (j : ℕ) → (u.slots j).pins ≡ (t.slots j).pins
Claimed-pins t u none c j = ap (λ (s : Slot). s.pins) (c.kept j (λ e. cc))
Claimed-pins t u (some i) c j = elim (ℕ_discrete i j) [
  | yes here ↦
      c.valid.counted.unpinned j (ap is_free (c.free j (ap some here)))
      ∙ sym (c.unused j (ap some here)).1
  | no other ↦ ap (λ (s : Slot). s.pins) (c.kept j (λ e. other (some-injective i j e)))
]

pub Claimed-Undisturbed : (t u : Table) (victim : Option ℕ) → Claimed t u victim → Undisturbed t u
Claimed-Undisturbed t u victim c = record {
  valid = c.valid;
  stay = Claimed-PinnedStay t u victim c;
  pins = Claimed-pins t u victim c;
  config = ap (λ (x : Table). x.config) c.frame;
  generation = ap (λ (x : Table). x.current_generation) c.frame;
}

-- A row that was not in the index is not behind the sweep either.
Claimed-absent :
    (t u : Table) (i row : ℕ)
    → IsValid t
    → Claimed t u (some i)
    → index_find t row t.current_generation ≡ none
    → index_find u row u.current_generation ≡ none
Claimed-absent t u i row v c absent =
    (index_find-eq-none_iff u c.valid.indexed row u.current_generation).1
      (λ j (entered : IsEntered u row u.current_generation j). elim (ℕ_discrete i j) [
        | yes here ↦
            false≢true
              (sym (c.valid.marked.live j ∙ ap is_live (c.free j (ap some here))) ∙ entered.0)
        | no other ↦
            let same = c.kept j (λ e. other (some-injective i j e)) in
            (index_find-eq-none_iff t v.indexed row t.current_generation).0 absent j (
              sym (ap (λ (x : Slot). x.indexed) same) ∙ entered.0,
              sym (ap (λ (x : Slot). x.row_index) same) ∙ entered.1,
              sym (ap (λ (x : Slot). x.row_generation) same)
                  ∙ entered.2
                  ∙ ap (λ (x : Table). x.current_generation) c.frame,
            )
      ])

-- The slot is for the row of this generation, and in use: its fill is in flight, or has failed.
pub record Taken (row generation : ℕ) (s : Slot) : Type 0 where
  pub keyed : s.row_index ≡ row
  pub dated : s.row_generation ≡ generation
  pub busy : is_free s.state ≡ false

pub record Missed (t u : Table) (row : ℕ) (r : Result ℕ) : Type 0 where
  pub quiet : Undisturbed t u
  pub got :
      (i : ℕ)
      → r ≡ value i
      → (i < u.config.budget_rows) × Taken row t.current_generation (u.slots i)

started_busy :
    (row generation : ℕ) (s : Slot) (e : Status)
    → ((e ≡ Status.ok) × Flying row generation s) ⊎ Refused e s
    → is_free s.state ≡ false
started_busy row generation s e (inl (_, f)) = ap is_free f.0
started_busy row generation s e (inr f) = ap is_free f.0

module _ (tr : Transport) (t : Table) (row : ℕ) (v : IsValid t)
    (absent : index_find t row t.current_generation ≡ none) where
  -- A victim was found, and its fill started or failed.
  pub victim-Undisturbed :
      (u : Table) (i : ℕ)
      → Claimed t u (some i)
      → (w : Table) (status : Status)
      → Started u w i row (((u.slots i).epoch + 1) % u32_size) (u.slots i).pins status
      → Undisturbed t w
  victim-Undisturbed u i c w status s =
      let quiet = Claimed-Undisturbed t u (some i) c in
      record {
        valid = s.valid;
        stay = λ j held. elim (ℕ_discrete j i) [
          | yes here ↦ absurd (held (ap (λ (x : ℕ). (t.slots x).pins) here ∙ (c.unused i refl).1))
          | no other ↦
              Stays-trans (t.slots j) (u.slots j) (w.slots j) (quiet.stay j held)
                (Stays-of_eq (u.slots j) (w.slots j) (s.kept j other))
        ];
        pins = λ j. elim (ℕ_discrete j i) [
          | yes here ↦
              ap (λ (x : ℕ). (w.slots x).pins) here
              ∙ s.pinned
              ∙ ap (λ (x : ℕ). (u.slots x).pins) (sym here)
              ∙ quiet.pins j
          | no other ↦ ap (λ (x : Slot). x.pins) (s.kept j other) ∙ quiet.pins j
        ];
        config = ap (λ (x : Table). x.config) s.frame ∙ quiet.config;
        generation = ap (λ (x : Table). x.current_generation) s.frame ∙ quiet.generation;
      }

  pub victim-Started :
      (u : Table) (i : ℕ)
      → Claimed t u (some i)
      → Started u
          (start_fill_locked tr u i row).0
          i
          row
          (((u.slots i).epoch + 1) % u32_size)
          (u.slots i).pins
          (start_fill_locked tr u i row).1
  victim-Started u i c =
      start_fill-Started tr u i row c.valid
        (subst (λ (x : Table). i < x.config.budget_rows) (sym c.frame) (c.within i refl))
        (c.free i refl) (Claimed-absent t u i row v c absent)

  victim-Missed :
      (u : Table) (i : ℕ)
      → Claimed t u (some i)
      → (r : Result ℕ) → ((j : ℕ) → r ≡ value j → j ≡ i)
      → Missed t (start_fill_locked tr u i row).0 row r
  victim-Missed u i c r told =
      let s = victim-Started u i c in
      let w = (start_fill_locked tr u i row).0 in
      let quiet = victim-Undisturbed u i c w _ s in
      record {
        quiet = quiet;
        got = λ j e.
            subst
              (λ (x : ℕ). (x < w.config.budget_rows) × Taken row t.current_generation (w.slots x))
              (sym (told j e))
              (
                subst (λ (x : TableConfig). i < x.budget_rows) (sym quiet.config) (c.within i refl),
                record {
                  keyed = s.keyed;
                  dated = s.dated ∙ ap (λ (x : Table). x.current_generation) c.frame;
                  busy = started_busy row _ (w.slots i) _ s.outcome;
                },
              );
      }

  unclaimed-Missed :
      (u : Table) → Claimed t u none → Missed t u row (unexpected Status.pool_exhausted)
  unclaimed-Missed u c = record { quiet = Claimed-Undisturbed t u none c; got = λ j e. cc }

  pub admit_miss-Missed : Missed t (admit_miss tr t row).0 row (admit_miss tr t row).1
  unfolding admit_miss
  admit_miss-Missed =
      let u = (claim_victim t).0 in
      let c = claim_victim-Claimed t v in
      elim (Option-cases (claim_victim t).1) [
        | inl e ↦ rw (e, admit_miss) (unclaimed-Missed u (subst (Claimed t u) e c))
        | inr (i, e) ↦
            let d = subst (Claimed t u) e c in
            elim (Bool-cases (is_ok (start_fill_locked tr u i row).1)) [
              | inl f ↦
                  rw (e, admit_miss)
                    (rw (f, admit_miss) (victim-Missed u i d (value i) (λ j g. cc)))
              | inr f ↦
                  rw (e, admit_miss)
                    (rw (f, admit_miss)
                      (victim-Missed u i d (unexpected (start_fill_locked tr u i row).1)
                        (λ j g. cc)))
            ]
      ]

module _ (t : Table) (i : ℕ) where
  pub pin-slot : (j : ℕ) → Stays (t.slots j) ((pin t i).slots j)
  unfolding pin
  pin-slot j = record {
    row = ground arith;
    generation = ground arith;
    epoch = ground arith;
    state = ground arith;
    bytes = ground arith;
    offset = ground arith;
  }

  pub pin-pins : (j : ℕ) → ((pin t i).slots j).pins ≡ (t.slots j).pins + (if j == i then 1 else 0)
  unfolding pin
  pin-pins j = ground arith
