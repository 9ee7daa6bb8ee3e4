-- ===== src/RowCache/Steps/Sound.antt =====
-- Every reachable world is sound, and a lease protects what it exposes in each of them.
use mathlib.Core.Option.{some-injective}
use sub0tiered_cache.Base.{◌+◌, ◌*◌, ◌≡◌, sym, subst, ◌∙◌, true, some, List, [], ◌∷◌, ◌++◌}
use sub0tiered_cache.RowCache.Config.{Transport, TableConfig, value}
use sub0tiered_cache.RowCache.State.{Table, RowLease, is_ready}
use sub0tiered_cache.RowCache.Finish.Published.{publish-Published}
use sub0tiered_cache.RowCache.Lease.{published, release_lease}
use sub0tiered_cache.RowCache.Resolve.Leased.{admit-Admits}
use sub0tiered_cache.RowCache.Resolve.Got.{try_get-Gets}
use sub0tiered_cache.RowCache.Prefetch.Quiet.{prefetch-Undisturbed, discard-Undisturbed}
use sub0tiered_cache.RowCache.Admin.{create}
use sub0tiered_cache.RowCache.Admin.Created.{create-IsValid, create-pins}
use sub0tiered_cache.RowCache.Admin.Retire.{invalidate-Invalidated}
use sub0tiered_cache.RowCache.Steps.{
  World, Step, admits, gets, prefetches, discards, takes_over, gives_up, publishes, releases,
  invalidates, Reach, here, then,
}
use sub0tiered_cache.RowCache.Steps.Leases.{IsSound, Keeps}
use sub0tiered_cache.RowCache.Steps.Safety.{
  Safe, quiet-Safe, Admits-Safe, Gets-Safe, takes_over-Safe, gives_up-Safe, Published-Safe,
  invalidated-Safe, release-Safe, out_pinned,
}

-- Any step from a sound world leads to a sound world, and keeps the row, the epoch and the
-- published range of every slot that was pinned before it, and that it is Ready.
pub Step-Safe : (tr : Transport) (w x : World) → IsSound w → Step tr w x → Safe w.table x
Step-Safe tr w x v (admits t ls row) = Admits-Safe t ls v _ row _ (admit-Admits tr t row v.valid)
Step-Safe tr w x v (gets t ls row) = Gets-Safe t ls v _ row _ (try_get-Gets t row v.valid)
Step-Safe tr w x v (prefetches t ls rows) =
    quiet-Safe t ls v _ (prefetch-Undisturbed tr t rows v.valid)
Step-Safe tr w x v (discards t u ls ticket e) =
    quiet-Safe t ls v u (discard-Undisturbed t ticket u v.valid e)
Step-Safe tr w x v (takes_over t ls i h) = takes_over-Safe t ls v i h
Step-Safe tr w x v (gives_up t ls i h) = gives_up-Safe t ls v i h
Step-Safe tr w x v (publishes t ls i result h flies) =
    Published-Safe t ls v _ i result flies (publish-Published t i v.valid h flies result)
Step-Safe tr w x v (releases t u before l after e) =
    let (u', e', safe) = release-Safe t before l after v in
    subst (λ (y : Table). Safe t (record { table = y; leases = before ++ after }))
      (some-injective u' u (sym e' ∙ e)) safe
Step-Safe tr w x v (invalidates t ls generation sources resolver) =
    let i = invalidate-Invalidated tr t generation sources v.valid resolver in
    invalidated-Safe t ls v _ i.valid i.frame

-- Every world that is reached from a sound one is sound: the invariant of the table holds, each
-- lease that is out is on its slot's present row, and the pins of a slot are the leases on it.
pub Reach-IsSound : (tr : Transport) (w x : World) → IsSound w → Reach tr w x → IsSound x
Reach-IsSound tr w x v here = v
Reach-IsSound tr w x v (then u _ run step) =
    (Step-Safe tr u x (Reach-IsSound tr w u v run) step).sound

-- Every world that is reached from a table fresh from `create` is sound: in any order of the
-- critical sections, the invariant of the table holds, each lease that is out is on its slot's
-- present row, and the pins of a slot are the leases on it.
pub created-IsSound :
    (tr : Transport) (c : TableConfig) (t : Table) (x : World)
    → create tr c ≡ value t
    → Reach tr (record { table = t; leases = [] }) x
    → IsSound x
created-IsSound tr c t x e run =
    Reach-IsSound tr (record { table = t; leases = [] }) x
      (record {
        valid = (create-IsValid tr c t e).0;
        current = tt;
        pins = λ i. create-pins tr c t e i;
      })
      run

module _ (tr : Transport) (w : World) (t : Table) (before : List RowLease) (l : RowLease)
    (after : List RowLease) (x : World) (v : IsSound w)
    (run : Reach tr w (record { table = t; leases = before ++ l ∷ after }))
    (step : Step tr (record { table = t; leases = before ++ l ∷ after }) x) where
  kept_by_step : Keeps (t.slots l.slot) (x.table.slots l.slot)
  kept_by_step =
      let sound = Reach-IsSound tr w _ v run in
      (Step-Safe tr _ x sound step).keep l.slot (out_pinned t before l after sound)

  -- In a world reached from a sound one, no step, an eviction, an invalidation or another caller's
  -- fill included, moves the range that a lease exposes, or takes the row or the epoch of its slot
  -- away.
  pub published-Step :
      (published x.table l ≡ published t l)
      × ((x.table.slots l.slot).row_index ≡ (t.slots l.slot).row_index)
      × ((x.table.slots l.slot).row_generation ≡ (t.slots l.slot).row_generation)
      × ((x.table.slots l.slot).epoch ≡ (t.slots l.slot).epoch)
  unfolding published
  published-Step =
      let k = kept_by_step in
      let config = (Step-Safe tr _ x (Reach-IsSound tr w _ v run) step).config in
      (
        λ i. record l {
          bytes_offset = l.slot * (config i).output_row_bytes + k.offset i;
          bytes_size = k.bytes i;
        },
        k.row,
        k.generation,
        k.epoch,
      )

  -- In a world reached from a sound one, a slot that is leased and Ready is Ready behind any step.
  pub ready-Step :
      is_ready (t.slots l.slot).state ≡ true → is_ready (x.table.slots l.slot).state ≡ true
  ready-Step = kept_by_step.ready

-- No release ends the process: in a world reached from a sound one, every lease that is out is
-- released, and the world behind it is sound.
pub release-Reach :
    (tr : Transport) (w : World) (t : Table) (before : List RowLease) (l : RowLease)
    (after : List RowLease)
    → IsSound w
    → Reach tr w (record { table = t; leases = before ++ l ∷ after })
    → (u : Table) × (release_lease t l.slot l.epoch ≡ some u)
      × IsSound (record { table = u; leases = before ++ after })
release-Reach tr w t before l after v run =
    let (u, e, safe) = release-Safe t before l after (Reach-IsSound tr w _ v run) in
    (u, e, safe.sound)
