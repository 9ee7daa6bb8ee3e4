-- ===== src/RowCache/Steps/Safety.antt =====
-- No step disturbs a slot that is leased.
use sub0tiered_cache.Base.{
  ℕ, ◌<◌, ◌≡◌, ◌≢◌, refl, sym, ap, subst, ◌∙◌, arith, false, Option, none, some, List, ◌∷◌, ◌++◌,
  ℕ_discrete,
}
use sub0tiered_cache.Status.{Status}
use sub0tiered_cache.RowCache.Config.{Result, value, unexpected}
use sub0tiered_cache.RowCache.State.{Table, Slot, SlotState, RowLease, is_ready}
use sub0tiered_cache.RowCache.Valid.{IsValid}
use sub0tiered_cache.RowCache.Finish.{relinquish, take_over}
use sub0tiered_cache.RowCache.Finish.Published.{Published, KeepsRow}
use sub0tiered_cache.RowCache.Lease.{unpin_locked, release_lease}
use sub0tiered_cache.RowCache.Lease.Pins.{
  unpin-IsValid, pinned-lt, take_over-IsValid, relinquish-IsValid,
}
use sub0tiered_cache.RowCache.Resolve.Admitted.{Stays, Undisturbed}
use sub0tiered_cache.RowCache.Resolve.Leased.{Current, Leased, Admits}
use sub0tiered_cache.RowCache.Resolve.Got.{Gets, missed-Undisturbed}
use sub0tiered_cache.RowCache.Admin.Retire.{rebound}
use sub0tiered_cache.RowCache.Steps.{World, add_result, add_found}
use sub0tiered_cache.RowCache.Steps.Leases.{
  leases_on, IsSound, Keeps, PinnedKeep, leases_on-append, AllCurrent-kept, AllCurrent-append,
  AllCurrent-split,
}

-- What a step makes of a sound table: it is sound, with the leases that are out now, and every
-- slot that was pinned is kept.
pub record Safe (t : Table) (x : World) : Type 0 where
  pub sound : IsSound x
  pub keep : PinnedKeep t x.table
  pub config : x.table.config ≡ t.config

Stays-Keeps : (s s' : Slot) → Stays s s' → Keeps s s'
Stays-Keeps s s' k = record {
  row = k.row;
  generation = k.generation;
  epoch = k.epoch;
  bytes = k.bytes;
  offset = k.offset;
  ready = λ e. ap is_ready k.state ∙ e;
}

Keeps-of_eq : (s s' : Slot) → s' ≡ s → Keeps s s'
Keeps-of_eq s s' e = subst (Keeps s) (sym e) (record {
  row = refl;
  generation = refl;
  epoch = refl;
  bytes = refl;
  offset = refl;
  ready = λ e. e;
})

module _ (t : Table) (ls : List RowLease) (v : IsSound (record { table = t; leases = ls })) where
  -- A step that takes no lease and gives none.
  same-Safe :
      (u : Table)
      → IsValid u
      → PinnedKeep t u
      → ((j : ℕ) → (u.slots j).pins ≡ (t.slots j).pins)
      → u.config ≡ t.config
      → Safe t (record { table = u; leases = ls })
  same-Safe u valid keep pins config = record {
    sound = record {
      valid = valid;
      current =
          AllCurrent-kept t.slots u.slots ls (λ j out. keep j (λ e. out (sym (v.pins j) ∙ e)))
            v.current;
      pins = λ j. pins j ∙ v.pins j;
    };
    keep = keep;
    config = config;
  }

  pub quiet-Safe : (u : Table) → Undisturbed t u → Safe t (record { table = u; leases = ls })
  quiet-Safe u q =
      same-Safe u q.valid (λ j held. Stays-Keeps (t.slots j) (u.slots j) (q.stay j held)) q.pins
        q.config

  Leased-Safe :
      (u : Table) (row : ℕ) (l : RowLease)
      → Leased t u row l
      → Safe t (record { table = u; leases = l ∷ ls })
  Leased-Safe u row l a =
      let keep : PinnedKeep t u = λ j held. Stays-Keeps (t.slots j) (u.slots j) (a.stay j held) in
      record {
        sound = record {
          valid = a.valid;
          current = (
            a.current,
            AllCurrent-kept t.slots u.slots ls (λ j out. keep j (λ e. out (sym (v.pins j) ∙ e)))
                v.current,
          );
          pins = λ j. omega (arith, a.pins j, v.pins j);
        };
        keep = keep;
        config = a.config;
      }

  pub Admits-Safe :
      (u : Table) (row : ℕ) (r : Result RowLease)
      → Admits t u row r
      → Safe t (record { table = u; leases = add_result r ls })
  Admits-Safe u row (value l) a = Leased-Safe u row l a
  Admits-Safe u row (unexpected e) a = quiet-Safe u a

  pub Gets-Safe :
      (u : Table) (row : ℕ) (r : Option RowLease)
      → Gets t u row r
      → Safe t (record { table = u; leases = add_found r ls })
  Gets-Safe u row (some l) a = Leased-Safe u row l a.leased
  Gets-Safe u row none a = quiet-Safe u (missed-Undisturbed t row v.valid u a)

  pub takes_over-Safe :
      (i : ℕ) → i < t.config.budget_rows → Safe t (record { table = take_over t i; leases = ls })
  unfolding take_over
  takes_over-Safe i h =
      same-Safe (take_over t i) (take_over-IsValid t i v.valid h)
        (λ j held. record {
          row = ground arith;
          generation = ground arith;
          epoch = ground arith;
          bytes = ground arith;
          offset = ground arith;
          ready = λ e. ground arith;
        })
        (λ j. ground arith) refl

  pub gives_up-Safe :
      (i : ℕ) → i < t.config.budget_rows → Safe t (record { table = relinquish t i; leases = ls })
  unfolding relinquish
  gives_up-Safe i h =
      same-Safe (relinquish t i) (relinquish-IsValid t i v.valid h)
        (λ j held. record {
          row = ground arith;
          generation = ground arith;
          epoch = ground arith;
          bytes = ground arith;
          offset = ground arith;
          ready = λ e. ground arith;
        })
        (λ j. ground arith) refl

  KeepsRow-Keeps : (s s' : Slot) → KeepsRow s s' → is_ready s.state ≡ false → Keeps s s'
  KeepsRow-Keeps s s' k idle = record {
    row = k.row;
    generation = k.generation;
    epoch = k.epoch;
    bytes = k.bytes;
    offset = k.offset;
    ready = λ e. cc;
  }

  pub Published-Safe :
      (u : Table) (i : ℕ) (result : Status)
      → (t.slots i).state ≡ SlotState.filling
      → Published t u i result
      → Safe t (record { table = u; leases = ls })
  Published-Safe u i result flies p =
      same-Safe u p.valid
        (λ j held. elim (ℕ_discrete i j) [
          | yes same ↦
              subst (λ (x : ℕ). Keeps (t.slots x) (u.slots x)) same
                (KeepsRow-Keeps (t.slots i) (u.slots i) p.keeps (ap is_ready flies))
          | no other ↦ Keeps-of_eq (t.slots j) (u.slots j) (p.kept j (λ e. other (sym e)))
        ])
        (λ j. elim (ℕ_discrete i j) [
          | yes same ↦ subst (λ (x : ℕ). (u.slots x).pins ≡ (t.slots x).pins) same p.keeps.pins
          | no other ↦ ap (λ (s : Slot). s.pins) (p.kept j (λ e. other (sym e)))
        ])
        (ap (λ (x : Table). x.config) p.frame)

  pub invalidated-Safe :
      (u : Table) → IsValid u → u ≡ rebound t u → Safe t (record { table = u; leases = ls })
  invalidated-Safe u valid frame =
      let slots = λ (j : ℕ). ap (λ (x : Table). x.slots j) frame in
      same-Safe u valid (λ j held. Keeps-of_eq (t.slots j) (u.slots j) (slots j))
        (λ j. ap (λ (s : Slot). s.pins) (slots j)) (ap (λ (x : Table). x.config) frame)

module _ (t : Table) (before : List RowLease) (l : RowLease) (after : List RowLease)
    (v : IsSound (record { table = t; leases = before ++ l ∷ after })) where
  pub out_pinned : (t.slots l.slot).pins ≢ 0
  out_pinned e = ground (arith, v.pins l.slot, leases_on-append before (l ∷ after) l.slot)

  out-Current : Current t.slots l
  out-Current = (AllCurrent-split t.slots before (l ∷ after) v.current).1.0

  out_releases : release_lease t l.slot l.epoch ≡ some (unpin_locked t l.slot)
  unfolding release_lease
  out_releases = ground (arith, out_pinned, out-Current.epoch)

  unpinned-Safe : Safe t (record { table = unpin_locked t l.slot; leases = before ++ after })
  unfolding unpin_locked
  unpinned-Safe =
      let u = unpin_locked t l.slot in
      let keep : PinnedKeep t u = λ j held. record {
        row = ground arith;
        generation = ground arith;
        epoch = ground arith;
        bytes = ground arith;
        offset = ground arith;
        ready = λ e. ground arith;
      } in
      let (first, rest) = AllCurrent-split t.slots before (l ∷ after) v.current in
      let counts = λ (j : ℕ). leases_on-append before (l ∷ after) j in
      let kept = λ (j : ℕ) (out : leases_on (before ++ l ∷ after) j ≢ 0).
        keep j (λ e. out (sym (v.pins j) ∙ e)) in
      record {
        sound = record {
          valid = unpin-IsValid t l.slot v.valid (pinned-lt t l.slot v.valid out_pinned) out_pinned;
          current =
              AllCurrent-append u.slots before after
                (AllCurrent-kept t.slots u.slots before
                  (λ j out. kept j (λ e. out (omega (arith, e, counts j)))) first)
                (AllCurrent-kept t.slots u.slots after
                  (λ j out. kept j (λ e. out (omega (arith, e, counts j)))) rest.1);
          pins = λ j. ground (arith, v.pins j, counts j, leases_on-append before after j);
        };
        keep = keep;
        config = refl;
      }

  -- In a sound world every lease that is out can be given back: the release never ends the
  -- process, and it leaves a sound world without that lease, where every slot that was pinned is
  -- kept.
  pub release-Safe :
      (u : Table) × (release_lease t l.slot l.epoch ≡ some u)
      × Safe t (record { table = u; leases = before ++ after })
  release-Safe = (unpin_locked t l.slot, out_releases, unpinned-Safe)
