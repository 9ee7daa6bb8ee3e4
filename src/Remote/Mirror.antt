-- ===== src/Remote/Mirror.antt =====
-- include/sub0tieredcache/remote/mirror.hpp: ranges of a remote source, by way of the chunk store.
-- The transport is a parameter, which may answer each call differently. Other threads and
-- processes act where the lock is not held: what they make of the chunk store there, and how a
-- fetch ends that a caller joins, is the parameter `Others`.
pub mod Faithful
pub mod Ensured
pub mod Copied
pub mod Served
mod Examples
use sub0tiered_cache.Base.{
  ℕ, zero, suc, ◌+◌, ◌-◌, ◌*◌, ◌/◌, ◌%◌, ◌^◌, ◌≤◌, ◌<◌, ◌≡◌, Bool, true, false, ◌||◌, ◌&&◌, not,
  Option, none, some, List, [], ◌∷◌, ◌++◌, length, take, min, max, ltb, leb, ◌==◌, if◌then◌else◌,
}
use sub0tiered_cache.Remote.{Status, FetchOutcome}
use sub0tiered_cache.Remote.Store.{SourceIdentity, SourceValidator, ReadResult, overlay, drop}
use sub0tiered_cache.Remote.Store.Publication.{
  ChunkStore, PublishAnswers, publish_chunk, read_chunk,
}

pub record RangeFetchRequest : Type 0 where
  pub offset : ℕ
  pub length : ℕ
  pub expected : SourceValidator

-- The bytes are what the destination holds after the call.
pub record FetchRangeResult : Type 0 where
  pub status : Status
  pub bytes : ℕ
  pub retries : ℕ
  pub destination : List ℕ

abbrev pub Transport : Type 0
Transport = (calls : ℕ) → RangeFetchRequest → FetchRangeResult

pub record Others : Type 0 where
  -- The status of the fetch of this chunk that is in flight, if one is.
  pub joined : (time chunk_index : ℕ) → Option Status
  pub meddle : (time : ℕ) → ChunkStore → ChunkStore
  pub answers : (time : ℕ) → PublishAnswers

pub record MirrorStats : Type 0 where
  pub hits : ℕ
  pub misses : ℕ
  pub fetches : ℕ
  pub bytes_fetched : ℕ
  pub retries : ℕ
  pub validator_mismatches : ℕ
  pub corrupt_entries_skipped : ℕ
  pub publish_failures : ℕ
  pub coalesced : ℕ

-- `time` counts what the environment has been asked.
pub record Mirror : Type 0 where
  pub source : SourceIdentity
  pub store : ChunkStore
  pub stats : MirrorStats
  pub time : ℕ

pub record ReadOutcome : Type 0 where
  pub status : Status
  pub bytes : ℕ

unfoldable pub valid : Mirror → Bool
valid m =
    m.store.valid
    && ltb 0 m.store.chunk_size
    && ltb (m.source.validator.total_size / m.store.chunk_size) 4294967295

abbrev pub is_ok : Status → Bool
is_ok Status.ok = true
is_ok _ = false

abbrev pub is_corrupt : Status → Bool
is_corrupt Status.corrupt = true
is_corrupt _ = false

abbrev pub is_changed : Status → Bool
is_changed Status.source_changed = true
is_changed _ = false

abbrev pub with_stats : Mirror → MirrorStats → Mirror
with_stats m s = record m { stats = s }

-- `record_hit`, `record_corrupt`, `record_miss` and `record_coalesced`.
unfoldable pub record_hit : MirrorStats → MirrorStats
record_hit s = record s { hits = s.hits + 1 }

unfoldable pub record_miss : MirrorStats → MirrorStats
record_miss s = record s { misses = s.misses + 1 }

unfoldable pub record_corrupt : MirrorStats → MirrorStats
record_corrupt s = record s {
  misses = s.misses + 1;
  corrupt_entries_skipped = s.corrupt_entries_skipped + 1;
}

unfoldable pub record_coalesced : MirrorStats → MirrorStats
record_coalesced s = record s { coalesced = s.coalesced + 1 }

unfoldable pub record_fetch : FetchRangeResult → MirrorStats → MirrorStats
record_fetch r s =
    let t = record s { fetches = s.fetches + 1; retries = s.retries + r.retries } in
    if is_ok r.status
    then record t { bytes_fetched = t.bytes_fetched + r.bytes }
    else if is_changed r.status
    then record t { validator_mismatches = t.validator_mismatches + 1 }
    else t

module _ (transport : Transport) (others : Others) where
  -- What others do to the store meanwhile.
  abbrev pub meanwhile : Mirror → Mirror
  meanwhile m = record m { store = others.meddle m.time m.store; time = m.time + 1 }

  abbrev pub request_of : Mirror → (chunk_index chunk_len : ℕ) → RangeFetchRequest
  request_of m chunk_index chunk_len = record {
    offset = chunk_index * m.store.chunk_size;
    length = chunk_len;
    expected = m.source.validator;
  }

  -- The publication of a fetched chunk.
  unfoldable pub publish_fetched : Mirror → ℕ → List ℕ → Mirror × Status
  publish_fetched m chunk_index payload =
      let (store, status) =
        publish_chunk m.store m.source chunk_index payload (others.answers m.time) in
      let s = m.stats in
      if is_ok status then (record m { store = store; time = m.time + 1 }, status) else (
        record m {
          store = store;
          time = m.time + 1;
          stats = record s { publish_failures = s.publish_failures + 1 };
        },
        status,
      )

  unfoldable pub fetch_and_publish : Mirror → (chunk_index chunk_len : ℕ) → Mirror × Status
  fetch_and_publish m chunk_index chunk_len =
      let result = transport m.time (request_of m chunk_index chunk_len) in
      let n = meanwhile (with_stats m (record_fetch result m.stats)) in
      if not (is_ok result.status)
      then (n, result.status)
      else if not (result.bytes == chunk_len)
      then (n, Status.truncated)
      else publish_fetched n chunk_index result.destination

  -- The fetcher's part: it looks again before it fetches.
  unfoldable pub fetch_unless_local :
      Mirror → (chunk_index chunk_len : ℕ) → List ℕ → Mirror × Status × List ℕ
  fetch_unless_local m chunk_index chunk_len buffer =
      let (local, held) = read_chunk m.store m.source chunk_index buffer in
      if is_ok local.status
      then (m, Status.ok, held)
      else let (n, status) = fetch_and_publish m chunk_index chunk_len in (n, status, held)

  -- The fetch, or the wait for the one in flight.
  unfoldable pub fetch_or_join :
      Mirror → (chunk_index chunk_len : ℕ) → List ℕ → Mirror × Status × List ℕ
  fetch_or_join m chunk_index chunk_len buffer = elim (others.joined m.time chunk_index) [
    | some status ↦ (meanwhile (with_stats m (record_coalesced m.stats)), status, buffer)
    | none ↦ fetch_unless_local m chunk_index chunk_len buffer
  ]

  -- The read behind a fetch.
  unfoldable pub read_back : Mirror → ℕ → List ℕ → Mirror × Status × List ℕ
  read_back m chunk_index buffer =
      let (local, held) = read_chunk m.store m.source chunk_index buffer in
      if is_ok local.status
      then (m, Status.ok, held)
      else (m, (if is_corrupt local.status then Status.corrupt else Status.not_found), held)

  unfoldable pub ensure_chunk_local :
      Mirror → (chunk_index chunk_len : ℕ) → List ℕ → Mirror × Status × List ℕ
  ensure_chunk_local m chunk_index chunk_len buffer =
      let (local, held) = read_chunk m.store m.source chunk_index buffer in
      if is_ok local.status
      then (with_stats m (record_hit m.stats), Status.ok, held)
      else let counted =
          if is_corrupt local.status then record_corrupt m.stats else record_miss m.stats in
        let (n, status, buf) =
          fetch_or_join (meanwhile (with_stats m counted)) chunk_index chunk_len held in
        if not (is_ok status) then (n, status, buf) else read_back (meanwhile n) chunk_index buf

abbrev pub zeros : ℕ → List ℕ
zeros zero = []
zeros (suc n) = 0 ∷ zeros n

-- The byte of a buffer at a position.
abbrev pub byte_at : List ℕ → ℕ → ℕ
byte_at [] k = 0
byte_at (b ∷ bs) zero = b
byte_at (b ∷ bs) (suc k) = byte_at bs k

-- The caller's `dest`, by position.
abbrev pub Memory : Type 0
Memory = ℕ → ℕ

-- `memcpy(dest + to, buffer + from, n)`.
abbrev pub copy : Memory → (to : ℕ) → List ℕ → (from n : ℕ) → Memory
copy dest to buffer from n =
    λ j. if leb to j && ltb j (to + n) then byte_at buffer (from + (j - to)) else dest j

abbrev pub chunk_len_of : Mirror → ℕ → ℕ
chunk_len_of m chunk_index =
    min m.store.chunk_size (m.source.validator.total_size - chunk_index * m.store.chunk_size)

module _ (offset length : ℕ) where
  abbrev pub range_start : Mirror → ℕ → ℕ
  range_start m chunk_index = max offset (chunk_index * m.store.chunk_size)

  abbrev pub range_end : Mirror → ℕ → ℕ
  range_end m chunk_index =
      min (offset + length) (chunk_index * m.store.chunk_size + chunk_len_of m chunk_index)

  -- The copy of a round, and what is written after it.
  unfoldable pub copy_round : Mirror → ℕ → List ℕ → Memory → ℕ → Memory × ℕ
  copy_round m chunk_index buffer dest written =
      if ltb (range_start m chunk_index) (range_end m chunk_index)
      then (
        copy dest (range_start m chunk_index - offset) buffer
            (range_start m chunk_index - chunk_index * m.store.chunk_size)
            (range_end m chunk_index - range_start m chunk_index),
        written + (range_end m chunk_index - range_start m chunk_index),
      )
      else (dest, written)

  abbrev pub refused : Mirror → Status → Memory → Mirror × ReadOutcome × Memory
  refused m status dest = (m, record { status = status; bytes = 0 }, dest)

  abbrev pub first_chunk : Mirror → ℕ
  first_chunk m = offset / m.store.chunk_size % 2 ^ 32

  abbrev pub last_chunk : Mirror → ℕ
  last_chunk m = (offset + length - 1) / m.store.chunk_size % 2 ^ 32

module _ (transport : Transport) (others : Others) (offset length : ℕ) where
  -- The loop over the chunks, for as many rounds as there are.
  unfoldable pub read_loop :
      (rounds : ℕ) → Mirror → ℕ → List ℕ → Memory → ℕ → Mirror × ReadOutcome × Memory
  read_loop zero m chunk_index buffer dest written =
      (m, record { status = Status.ok; bytes = written }, dest)
  read_loop (suc rounds) m chunk_index buffer dest written =
      let (n, status, held) =
        ensure_chunk_local transport others m chunk_index (chunk_len_of m chunk_index) buffer in
      let (copied, total) = copy_round offset length m chunk_index held dest written in
      let rest = read_loop rounds n (chunk_index + 1) held copied total in
      if is_ok status then rest else (n, record { status = status; bytes = written }, dest)

  -- `read`, into a `dest` of the size given. The sums stay below the total size, which is a
  -- uint64_t.
  unfoldable pub read : Mirror → (dest_size : ℕ) → Memory → Mirror × ReadOutcome × Memory
  read m dest_size dest =
      if not (valid m) || ltb dest_size length
      then refused offset length m Status.invalid_argument dest
      else if length == 0
      then refused offset length m Status.invalid_argument dest
      else if ltb m.source.validator.total_size offset
          || ltb (m.source.validator.total_size - offset) length
      then refused offset length m Status.out_of_range dest
      else read_loop (last_chunk offset length m + 1 - first_chunk offset length m) m
          (first_chunk offset length m) (zeros m.store.chunk_size) dest 0
