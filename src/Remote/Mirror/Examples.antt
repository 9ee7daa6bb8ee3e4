-- ===== src/Remote/Mirror/Examples.antt =====
-- The theorems on the checksum, the chunk store and the mirror of include/sub0tieredcache/remote at
-- work on small data.
use sub0tiered_cache.Base.{
  ℕ, ◌+◌, ◌*◌, ◌≤◌, ◌<◌, ◌≡◌, refl, arith, true, none, some, List, [], ◌∷◌, length, zero, suc, ap,
  ◌∙◌, ◌⊎◌, ◌≢◌,
}
use sub0tiered_cache.Remote
use sub0tiered_cache.Remote.Checksum.{AreBytes, fnv1a32, mix32, fnv1a64, mix64}
use sub0tiered_cache.Remote.Store.{
  SourceIdentity, canonical_validator, same_bytes, failed, chunk_file_name, fread, read_payload,
  read_validated, read_body, read_file,
}
use sub0tiered_cache.Remote.Store.Publication.{
  ChunkStore, PublishAnswers, header_for, temp_name, file_bytes, written_whole, stored,
  publish_chunk, read_chunk,
}
use sub0tiered_cache.Remote.Store.ReadBack.{IsStorable, verdict, read_file-published}
use sub0tiered_cache.Remote.Store.Damaged.{damaged_bytes, read_file_damaged}
use sub0tiered_cache.Remote.Store.Atomic.{AddsChunk, KeepsChunks, read_chunk-publish_chunk}
use sub0tiered_cache.Remote.Store.Stale.{
  from_url, split_late, split_early, served_other_validator, served_other_size,
}
use sub0tiered_cache.Remote.Mirror.{
  Transport, Others, Mirror, byte_at, zeros, valid, fetch_or_join, fetch_unless_local,
  fetch_and_publish, publish_fetched, read_back, ensure_chunk_local, copy_round, record_fetch,
  record_miss, read_loop, read,
}
use sub0tiered_cache.Remote.Mirror.Ensured.{IsHonest, Mirrors}
use sub0tiered_cache.Remote.Mirror.Served.{IsServed, read-IsServed}

-- The published value for the letter a.
checksum_of_a : fnv1a32 (97 ∷ []) ≡ 0xe40c292c
unfolding fnv1a32 mix32
checksum_of_a = refl

-- A source of six bytes in chunks of four.
abbrev tagged : SourceIdentity
tagged = record {
  url = 104 ∷ 116 ∷ [];
  validator = record { etag = 34 ∷ 97 ∷ 34 ∷ []; last_modified = []; total_size = 6 };
}

abbrev four : List ℕ
four = 10 ∷ 20 ∷ 30 ∷ 40 ∷ []

abbrev buffer : List ℕ
buffer = zeros 4

four-IsStorable : IsStorable tagged 0 four
unfolding canonical_validator
four-IsStorable = record {
  total = omega arith;
  index = omega arith;
  payload_fits = omega arith;
  validator_fits = omega arith;
}

read_file-published_example :
    read_file 4 tagged 0 (some (file_bytes tagged 0 four)) buffer
    ≡ verdict 4 tagged 0 four tagged 0 buffer
read_file-published_example = read_file-published 4 tagged 0 four tagged 0 buffer four-IsStorable

served :
    verdict 4 tagged 0 four tagged 0 buffer
    ≡ (record { status = Remote.Status.ok; bytes = 4 }, four)
unfolding verdict fnv1a64 mix64 same_bytes canonical_validator
served = refl

read_file_damaged_example :
    (read_file 4 tagged 0 (some (damaged_bytes tagged 0 four (10 ∷ 20 ∷ 31 ∷ 40 ∷ []))) buffer).0
    ≡ failed Remote.Status.corrupt
read_file_damaged_example =
    read_file_damaged 4 tagged 0 (10 ∷ 20 ∷ []) (40 ∷ []) buffer 30 31 four-IsStorable
      (AreBytes.cons 40 [] (omega arith) AreBytes.nil) (omega arith) (omega arith)
      (λ e. absurd (omega (arith, e))) (omega arith) (omega arith)

abbrev empty_store : ChunkStore
empty_store = record {
  chunk_size = 4;
  directory = λ name. none;
  valid = true;
  temp_counter = 0;
  temp_nonce = 77;
}

-- The header and the seven bytes of "E:" and "|L:" and the tag are written, and all else works.
abbrev willing : PublishAnswers
willing = record {
  opens = true;
  header_written = 1;
  header_part = [];
  validator_written = 8;
  payload_written = 4;
  synced = true;
  unsynced = [];
  renamed = true;
  left_over = none;
}

published_ok : (publish_chunk empty_store tagged 0 four willing).1 ≡ Remote.Status.ok
unfolding publish_chunk written_whole canonical_validator
published_ok = refl

abbrev Outcome : PublishAnswers → Type 0
Outcome a =
    let (t, status) = publish_chunk empty_store tagged 0 four a in
    ((status ≡ Remote.Status.ok)
      × (length four ≤ empty_store.chunk_size)
      × AddsChunk empty_store t tagged 0 four)
    ⊎ ((status ≢ Remote.Status.ok) × KeepsChunks empty_store t)

four_read_back :
    read_chunk (publish_chunk empty_store tagged 0 four willing).0 tagged 0 buffer
    ≡ (record { status = Remote.Status.ok; bytes = 4 }, four)
four_read_back =
    read_chunk-publish_chunk empty_store tagged 0 four buffer willing four-IsStorable (omega arith)
      published_ok

-- A store with chunks of eight bytes is served the four bytes of the smaller chunk.
served_other_size_example :
    read_chunk
      (record ((publish_chunk empty_store tagged 0 four willing).0) { chunk_size = 8 })
      tagged
      0
      (zeros 8)
    ≡ (record { status = Remote.Status.ok; bytes = 4 }, 10 ∷ 20 ∷ 30 ∷ 40 ∷ 0 ∷ 0 ∷ 0 ∷ 0 ∷ [])
served_other_size_example =
    served_other_size empty_store 8 tagged 0 four (zeros 8) willing four-IsStorable (omega arith)
      (omega arith) published_ok

late-IsStorable :
    IsStorable (from_url (104 ∷ []) (split_late (97 ∷ []) (98 ∷ []) (99 ∷ []) 6)) 0 four
unfolding canonical_validator
late-IsStorable = record {
  total = omega arith;
  index = omega arith;
  payload_fits = omega arith;
  validator_fits = omega arith;
}

served_other_validator_example :
    read_file 4
      (from_url (104 ∷ []) (split_early (97 ∷ []) (98 ∷ []) (99 ∷ []) 6))
      0
      (some (file_bytes (from_url (104 ∷ []) (split_late (97 ∷ []) (98 ∷ []) (99 ∷ []) 6)) 0 four))
      buffer
    ≡ (record { status = Remote.Status.ok; bytes = 4 }, four)
served_other_validator_example =
    served_other_validator 4 (104 ∷ []) (97 ∷ []) (98 ∷ []) (99 ∷ []) four buffer 6 0
      late-IsStorable (omega arith) (omega arith)

-- The source's byte at `k` is `10 * k`, and a transport that delivers it.
abbrev tens : ℕ → ℕ
tens k = 10 * k

abbrev run_of : (start n : ℕ) → List ℕ
run_of start zero = []
run_of start (suc n) = tens start ∷ run_of (start + 1) n

abbrev delivers : Transport
delivers n r = record {
  status = Remote.Status.ok;
  bytes = r.length;
  retries = 0;
  destination = run_of r.offset r.length;
}

abbrev alone : Others
alone = record { joined = λ time i. none; meddle = λ time s. s; answers = λ time. willing }

length-run_of : (start n : ℕ) → length (run_of start n) ≡ n
length-run_of start zero = refl
length-run_of start (suc n) = ap suc (length-run_of (start + 1) n)

byte_at-run_of : (start n k : ℕ) → k < n → byte_at (run_of start n) k ≡ tens (start + k)
byte_at-run_of start zero k h = absurd (omega (arith, h))
byte_at-run_of start (suc n) zero h = omega arith
byte_at-run_of start (suc n) (suc k) h =
    byte_at-run_of (start + 1) n k (omega (arith, h)) ∙ omega arith

alone-IsHonest : IsHonest delivers alone tagged tens 4
unfolding canonical_validator
alone-IsHonest = record {
  total = omega arith;
  chunk = omega arith;
  validator_fits = omega arith;
  fetched = λ n r _ _ _. (length-run_of r.offset r.length, byte_at-run_of r.offset r.length);
  meddled = λ time s v. v;
}

abbrev idle : Mirror
idle = record {
  source = tagged;
  store = empty_store;
  stats = record {
    hits = 0;
    misses = 0;
    fetches = 0;
    bytes_fetched = 0;
    retries = 0;
    validator_mismatches = 0;
    corrupt_entries_skipped = 0;
    publish_failures = 0;
    coalesced = 0;
  };
  time = 0;
}

idle-Mirrors : Mirrors delivers alone tagged tens 4 alone-IsHonest idle
unfolding read_chunk read_file
idle-Mirrors = record {
  same = refl;
  faithful = record { size = refl; exact = λ i k dest l ok. absurd (cc ok) };
}

abbrev range_read : Mirror × Remote.Mirror.ReadOutcome × (ℕ → ℕ)
range_read = read delivers alone 1 2 idle 4 (λ j. 0)

-- The first chunk is fetched and published, and two bytes of it are served.
range_is_read : range_read.1 ≡ record { status = Remote.Status.ok; bytes = 2 }
unfolding read valid read_loop ensure_chunk_local read_chunk read_file fetch_or_join
    fetch_unless_local fetch_and_publish publish_fetched publish_chunk stored written_whole
    canonical_validator read_back same_bytes chunk_file_name fnv1a64 fnv1a32 mix32 mix64 copy_round
    record_fetch record_miss file_bytes header_for temp_name fread read_body read_payload
    read_validated
range_is_read = refl

read-IsServed_example :
    IsServed delivers alone tagged tens 4 alone-IsHonest 2 3
      (λ j. 0)
      (read delivers alone 2 3 idle 3 (λ j. 0))
read-IsServed_example =
    read-IsServed delivers alone tagged tens 4 alone-IsHonest 2 3 3 idle (λ j. 0) idle-Mirrors
