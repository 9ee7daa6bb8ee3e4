-- ===== src/RowCache/Prefetch/Quiet.antt =====
-- prefetch pins nothing, and leaves alone what is pinned.
use mathlib.Core.Option.{some-injective}
use sub0tiered_cache.Base.{
  ◌-◌, ◌&&◌, ℕ, ◌+◌, ◌*◌, ◌==◌, ◌≡◌, inl, inr, refl, sym, ◌∙◌, subst, Bool, true, false, Option,
  none, some, List, [], ◌∷◌, length, if◌then◌else◌, Bool-cases, Option-cases, ltb,
}
use sub0tiered_cache.Status.{Status}
use sub0tiered_cache.RowCache.Config.{Result, value, unexpected, Transport}
use sub0tiered_cache.RowCache.State.{Table, TicketRecord, WaiterEntry, PrefetchTicket}
use sub0tiered_cache.RowCache.Lookup.{index_find}
use sub0tiered_cache.RowCache.Valid.{IsValid}
use sub0tiered_cache.RowCache.Victim.Sound.{Claimed, claim_victim-Claimed}
use sub0tiered_cache.RowCache.Fill.{start_fill_locked}
use sub0tiered_cache.RowCache.Lease.{count_hit}
use sub0tiered_cache.RowCache.Resolve.{count_coalesced, some_out_of_range}
use sub0tiered_cache.RowCache.Resolve.Admitted.{
  Stays-refl, Stays-trans, Undisturbed, Claimed-Undisturbed, victim-Undisturbed, victim-Started,
}
use sub0tiered_cache.RowCache.Resolve.Leased.{tallied-Undisturbed}
use sub0tiered_cache.RowCache.Prefetch.{
  free_record, take_record, prefetch_row, note_waiter, prefetch_rows, prefetch, discard_ticket,
}

pub Undisturbed-trans : (t u w : Table) → Undisturbed t u → Undisturbed u w → Undisturbed t w
Undisturbed-trans t u w a b = record {
  valid = b.valid;
  stay = λ j held.
      Stays-trans (t.slots j) (u.slots j) (w.slots j) (a.stay j held)
        (b.stay j (λ e. held (sym (a.pins j) ∙ e)));
  pins = λ j. b.pins j ∙ a.pins j;
  config = b.config ∙ a.config;
  generation = b.generation ∙ a.generation;
}

-- A change of what the invariant does not speak of.
pub aside-Undisturbed :
    (t : Table) (tickets : ℕ → TicketRecord) (waiters : ℕ → WaiterEntry) (tickets_held : ℕ)
    → IsValid t
    → Undisturbed t (record t { tickets = tickets; waiters = waiters; tickets_held = tickets_held })
aside-Undisturbed t tickets waiters tickets_held v = record {
  valid = record {
    indexed = v.indexed;
    marked = v.marked;
    counted = v.counted;
    bound = v.bound;
    hand = v.hand;
  };
  stay = λ j held. Stays-refl (t.slots j);
  pins = λ j. refl;
  config = refl;
  generation = refl;
}

note_waiter-Undisturbed :
    (t : Table) (at : ℕ) (slot : Option ℕ) → IsValid t → Undisturbed t (note_waiter t at slot)
unfolding note_waiter
note_waiter-Undisturbed t at none v = aside-Undisturbed t t.tickets _ t.tickets_held v
note_waiter-Undisturbed t at (some slot) v = aside-Undisturbed t t.tickets _ t.tickets_held v

module _ (tr : Transport) where
  victim_row-Undisturbed :
      (t : Table) (row : ℕ)
      → IsValid t
      → index_find t row t.current_generation ≡ none
      → (u : Table) (victim : Option ℕ) → Claimed t u victim
      → (let x : Table × Option ℕ = elim victim [
        | none ↦ (u, none)
        | some slot ↦ ((start_fill_locked tr u slot row).0, some slot)
      ] in
          Undisturbed t x.0)
  victim_row-Undisturbed t row v e u none c = Claimed-Undisturbed t u none c
  victim_row-Undisturbed t row v e u (some i) c =
      victim-Undisturbed tr t row v e u i c _ _ (victim-Started tr t row v e u i c)

  counted-Undisturbed :
      (t : Table)
      → IsValid t
      → (ready : Bool) → Undisturbed t (if ready then count_hit t else count_coalesced t)
  unfolding count_hit count_coalesced
  counted-Undisturbed t v true = tallied-Undisturbed t _ v
  counted-Undisturbed t v false = tallied-Undisturbed t _ v

  prefetch_row-Undisturbed :
      (t : Table) (row : ℕ) → IsValid t → Undisturbed t (prefetch_row tr t row).0
  unfolding prefetch_row
  prefetch_row-Undisturbed t row v = elim (Option-cases (index_find t row t.current_generation)) [
    | inl e ↦ rw (e, prefetch_row) (victim_row-Undisturbed t row v e _ _ (claim_victim-Claimed t v))
    | inr (i, e) ↦ rw (e, prefetch_row) (counted-Undisturbed t v _)
  ]

  prefetch_rows-Undisturbed :
      (t : Table) (at : ℕ) (rows : List ℕ) → IsValid t → Undisturbed t (prefetch_rows tr t at rows)
  unfolding prefetch_rows
  prefetch_rows-Undisturbed t at [] v = aside-Undisturbed t t.tickets t.waiters t.tickets_held v
  prefetch_rows-Undisturbed t at (row ∷ rows) v =
      let (u, slot) = prefetch_row tr t row in
      let first = prefetch_row-Undisturbed t row v in
      let second = note_waiter-Undisturbed u at slot first.valid in
      Undisturbed-trans t u _ first (
        Undisturbed-trans u _ _ second
          (prefetch_rows-Undisturbed (note_waiter u at slot) (at + 1) rows second.valid))

  taken-Undisturbed :
      (t : Table) (rows : List ℕ) (i : ℕ)
      → IsValid t
      → Undisturbed t
          (prefetch_rows tr (take_record t i (length rows)) (i * t.config.max_batch_rows) rows)
  unfolding take_record
  taken-Undisturbed t rows i v =
      let first = aside-Undisturbed t _ t.waiters (t.tickets_held + 1) v in
      Undisturbed-trans t _ _ first (prefetch_rows-Undisturbed _ _ rows first.valid)

  recorded-Undisturbed :
      (t : Table) (rows : List ℕ)
      → IsValid t
      → (found : Option ℕ)
      → (let x : Table × Result PrefetchTicket = elim found [
        | none ↦ (t, unexpected Status.ticket_exhausted)
        | some i ↦
            let u = take_record t i (length rows) in
            (
              prefetch_rows tr u (i * t.config.max_batch_rows) rows,
              value (record { record_index = i; generation = (u.tickets i).generation }),
            )
      ] in
          Undisturbed t x.0)
  recorded-Undisturbed t rows v none = aside-Undisturbed t t.tickets t.waiters t.tickets_held v
  recorded-Undisturbed t rows v (some i) = taken-Undisturbed t rows i v

  -- A prefetch of any rows changes no pins, and every slot that is pinned stays; the table stays
  -- valid.
  pub prefetch-Undisturbed :
      (t : Table) (rows : List ℕ) → IsValid t → Undisturbed t (prefetch tr t rows).0
  unfolding prefetch
  prefetch-Undisturbed t rows v =
      let same = aside-Undisturbed t t.tickets t.waiters t.tickets_held v in
      elim (Bool-cases (length rows == 0)) [
        | inl e ↦ rw (e, prefetch) same
        | inr e ↦ elim (Bool-cases (ltb t.config.max_batch_rows (length rows))) [
          | inl f ↦ rw (e, prefetch) (rw (f, prefetch) same)
          | inr f ↦ elim (Bool-cases (some_out_of_range t.config.row_count rows)) [
            | inl g ↦ rw (e, prefetch) (rw (f, prefetch) (rw (g, prefetch) same))
            | inr g ↦
                rw (e, prefetch)
                  (rw (f, prefetch)
                    (rw (g, prefetch)
                      (recorded-Undisturbed t rows v
                        (free_record t.tickets t.config.max_tickets 0))))
          ]
        ]
      ]

pub discard-Undisturbed :
    (t : Table) (ticket : PrefetchTicket) (u : Table)
    → IsValid t
    → discard_ticket t ticket ≡ some u
    → Undisturbed t u
unfolding discard_ticket
discard-Undisturbed t ticket u v e =
    elim (Bool-cases (
      (t.tickets ticket.record_index).generation == ticket.generation
      && (t.tickets ticket.record_index).held)) [
        | inl f ↦
            subst (Undisturbed t) (some-injective _ _ (rw (f, discard_ticket) at e))
              (aside-Undisturbed t _ t.waiters (t.tickets_held - 1) v)
        | inr f ↦ cc
      ]
