-- ===== src/RowCache/Resolve.antt =====
-- resolve_into of include/sub0tieredcache/row_cache.hpp, where no other call comes between its
-- critical sections: a fill that it awaits ends as the transport and the codec answer.
pub mod Admitted
pub mod Leased
pub mod Got
pub mod Coalesced
use sub0tiered_cache.Base.{
  ℕ, zero, suc, ◌+◌, Bool, true, false, not, ◌&&◌, Option, none, some, List, [], ◌∷◌, ◌++◌, length,
  take, ltb, ◌==◌, if◌then◌else◌,
}
use sub0tiered_cache.Status.{Status}
use sub0tiered_cache.RowCache.Config.{Result, value, unexpected, Transport}
use sub0tiered_cache.RowCache.State.{
  Table, Slot, SlotState, RowLease, no_lease, is_ready, is_filling,
}
use sub0tiered_cache.RowCache.Lookup.{index_find}
use sub0tiered_cache.RowCache.Victim.{claim_victim}
use sub0tiered_cache.RowCache.Fill.{start_fill_locked}
use sub0tiered_cache.RowCache.Finish.{Waits, finish_fill, take_over}
use sub0tiered_cache.RowCache.Lease.{pin, lease_on, published, count_hit, reset_leases}

unfoldable pub count_coalesced : Table → Table
count_coalesced t = record t {
  counters = record (t.counters) { coalesced = t.counters.coalesced + 1 };
}

abbrev pub is_ok : Status → Bool
is_ok Status.ok = true
is_ok _ = false

-- A slot for a row that the index does not have.
unfoldable pub admit_miss : Transport → Table → ℕ → Table × Result ℕ
admit_miss tr t row =
    let (u, victim) = claim_victim t in
    elim victim [
      | none ↦ (u, unexpected Status.pool_exhausted)
      | some slot ↦
          let (v, started) = start_fill_locked tr u slot row in
          if is_ok started then (v, value slot) else (v, unexpected started)
    ]

-- A row of phase A: the slot, pinned, and the lease on it.
unfoldable pub admit : Transport → Table → ℕ → Table × Result RowLease
admit tr t row = elim (index_find t row t.current_generation) [
  | none ↦
      let (u, admitted) = admit_miss tr t row in
      elim admitted [
        | unexpected e ↦ (u, unexpected e)
        | value slot ↦ let v = pin u slot in (v, value (lease_on v slot row))
      ]
  | some slot ↦
      let u = if is_filling (t.slots slot).state then count_coalesced t else t in
      let v = pin u slot in
      (if is_ready (t.slots slot).state then count_hit v else v, value (lease_on v slot row))
]

-- Phase A: the leases of the rows admitted, and the failure that ended it, if any did.
unfoldable pub admit_all : Transport → Table → List ℕ → Table × List RowLease × Option Status
admit_all tr t [] = (t, [], none)
admit_all tr t (row ∷ rows) =
    let (u, admitted) = admit tr t row in
    let (v, leases, failure) = admit_all tr u rows in
    elim admitted [ unexpected e ↦ (u, [], some e) | value lease ↦ (v, lease ∷ leases, failure) ]

-- A row of phase B: its fill is driven or awaited, and its lease gets its bytes.
unfoldable pub drive : Waits → (ℕ → Bool) → Table → RowLease → Table × RowLease × Status
drive waits convert t l =
    let u =
      if is_filling (t.slots l.slot).state
      then finish_fill waits convert (take_over t l.slot) l.slot
      else t in
    if (t.slots l.slot).epoch == l.epoch
    then if (u.slots l.slot).epoch == l.epoch
      then if is_ready (u.slots l.slot).state
        then (u, published u l, Status.ok)
        else (u, l, (u.slots l.slot).failure)
      else (u, l, Status.pool_exhausted)
    else (t, l, Status.pool_exhausted)

-- Phase B, in request order, up to the first failure.
unfoldable pub drive_all :
    Waits → (ℕ → Bool) → Table → List RowLease → Table × List RowLease × Status
drive_all waits convert t [] = (t, [], Status.ok)
drive_all waits convert t (l ∷ ls) =
    let (u, lease, driven) = drive waits convert t l in
    let (v, leases, failure) = drive_all waits convert u ls in
    if is_ok driven then (v, lease ∷ leases, failure) else (u, lease ∷ ls, driven)

-- Whether a row is out of range.
unfoldable pub some_out_of_range : ℕ → List ℕ → Bool
some_out_of_range row_count [] = false
some_out_of_range row_count (row ∷ rows) =
    if ltb row row_count then some_out_of_range row_count rows else true

unfoldable pub fail_with : Option Table → Status → Option (Table × Result (List RowLease))
fail_with none e = none
fail_with (some t) e = some (t, unexpected e)

-- The leases in `out` are those that the caller's storage held before the call, as many as it has
-- entries; on success the result holds one lease for each row.
unfoldable pub resolve_into :
    Transport
    → Waits
    → (ℕ → Bool)
    → Table
    → List ℕ
    → List RowLease
    → Option (Table × Result (List RowLease))
resolve_into tr waits convert t rows out =
    if length rows == 0
    then some (t, unexpected Status.empty_range)
    else if ltb t.config.max_batch_rows (length rows)
    then some (t, unexpected Status.batch_too_large)
    else if ltb (length out) (length rows)
    then some (t, unexpected Status.invalid_argument)
    else elim (reset_leases t (take (length rows) out)) [
      | none ↦ none
      | some u ↦
          if some_out_of_range u.config.row_count rows
          then some (u, unexpected Status.out_of_range)
          else let (v, leases, failure) = admit_all tr u rows in
            elim failure [
              | some e ↦ fail_with (reset_leases v leases) e
              | none ↦
                  let (w, published, failure) = drive_all waits convert v leases in
                  if is_ok failure
                  then some (w, value published)
                  else fail_with (reset_leases w published) failure
            ]
    ]
