-- ===== src/RowCache/Steps.antt =====
-- A Table with the leases that are out, and what may happen to them: the critical sections of
-- include/sub0tieredcache/row_cache.hpp, in any order and from any number of callers.
pub mod Leases
pub mod Safety
pub mod Sound
use sub0tiered_cache.Base.{
  ℕ, ◌+◌, ◌<◌, ◌≡◌, Bool, true, false, Option, none, some, List, [], ◌∷◌, ◌++◌, ◌==◌, if◌then◌else◌,
}
use sub0tiered_cache.Status.{Status}
use sub0tiered_cache.RowCache.Config.{
  Result, value, unexpected, Transport, ShardSource, RowExtentResolver,
}
use sub0tiered_cache.RowCache.State.{Table, Slot, SlotState, RowLease, PrefetchTicket}
use sub0tiered_cache.RowCache.Finish.{publish, relinquish, take_over}
use sub0tiered_cache.RowCache.Lease.{release_lease, try_get}
use sub0tiered_cache.RowCache.Resolve.{admit}
use sub0tiered_cache.RowCache.Prefetch.{prefetch, discard_ticket}
use sub0tiered_cache.RowCache.Admin.{invalidate}

pub record World : Type 0 where
  pub table : Table
  pub leases : List RowLease

abbrev pub add_result : Result RowLease → List RowLease → List RowLease
add_result (value l) ls = l ∷ ls
add_result (unexpected e) ls = ls

abbrev pub add_found : Option RowLease → List RowLease → List RowLease
add_found (some l) ls = l ∷ ls
add_found none ls = ls

-- One critical section. A fill that has begun may end with any result, at any time.
pub data Step (tr : Transport) : World → World → Type 0 where
  -- resolve_into admits a row.
  admits :
      (t : Table) (ls : List RowLease) (row : ℕ)
      → Step tr
          (record { table = t; leases = ls })
          (record { table = (admit tr t row).0; leases = add_result (admit tr t row).1 ls })
  gets :
      (t : Table) (ls : List RowLease) (row : ℕ)
      → Step tr
          (record { table = t; leases = ls })
          (record { table = (try_get t row).0; leases = add_found (try_get t row).1 ls })
  prefetches :
      (t : Table) (ls : List RowLease) (rows : List ℕ)
      → Step tr
          (record { table = t; leases = ls })
          (record { table = (prefetch tr t rows).0; leases = ls })
  discards :
      (t u : Table) (ls : List RowLease) (ticket : PrefetchTicket)
      → discard_ticket t ticket ≡ some u
      → Step tr (record { table = t; leases = ls }) (record { table = u; leases = ls })
  -- A caller or the worker becomes the finisher of a fill, and gives it up at its deadline.
  takes_over :
      (t : Table) (ls : List RowLease) (i : ℕ)
      → i < t.config.budget_rows
      → Step tr (record { table = t; leases = ls }) (record { table = take_over t i; leases = ls })
  gives_up :
      (t : Table) (ls : List RowLease) (i : ℕ)
      → i < t.config.budget_rows
      → Step tr (record { table = t; leases = ls }) (record { table = relinquish t i; leases = ls })
  publishes :
      (t : Table) (ls : List RowLease) (i : ℕ) (result : Status)
      → i < t.config.budget_rows
      → (t.slots i).state ≡ SlotState.filling
      → Step tr
          (record { table = t; leases = ls })
          (record { table = publish t i result; leases = ls })
  -- A lease that is out is given back.
  releases :
      (t u : Table) (before : List RowLease) (l : RowLease) (after : List RowLease)
      → release_lease t l.slot l.epoch ≡ some u
      → Step tr
          (record { table = t; leases = before ++ l ∷ after })
          (record { table = u; leases = before ++ after })
  invalidates :
      (t : Table) (ls : List RowLease) (generation : ℕ) (sources : List ShardSource)
      (resolver : Option RowExtentResolver)
      → Step tr
          (record { table = t; leases = ls })
          (record { table = (invalidate tr t generation sources resolver).0; leases = ls })

pub data Reach (tr : Transport) (w : World) : World → Type 0 where
  here : Reach tr w w
  then : (u x : World) → Reach tr w u → Step tr u x → Reach tr w x
