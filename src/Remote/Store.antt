-- ===== src/Remote/Store.antt =====
-- include/sub0tieredcache/remote/chunk_store.hpp: chunk files, read with full validation and
-- published by a rename. Strings and files are lists of bytes. A directory is what stands under
-- each name; what the file system answers to a publication is an argument.
pub mod Format
pub mod Publication
pub mod ReadBack
pub mod Damaged
pub mod Atomic
pub mod Stale
use sub0tiered_cache.Base.{
  ℕ, zero, suc, ◌+◌, ◌-◌, ◌*◌, ◌/◌, ◌%◌, ◌^◌, ◌≤◌, ◌<◌, ◌≡◌, Bool, true, false, ◌||◌, ◌&&◌, not,
  Option, none, some, List, [], ◌∷◌, ◌++◌, length, take, ltb, leb, ◌==◌, if◌then◌else◌,
}
use sub0tiered_cache.Remote.{Status}
use sub0tiered_cache.Remote.Checksum.{fnv1a32, fnv1a64}

-- A number in so many bytes, the low one first, and back.
abbrev pub le : (width x : ℕ) → List ℕ
le zero x = []
le (suc n) x = x % 256 ∷ le n (x / 256)

abbrev pub le_value : List ℕ → ℕ
le_value [] = 0
le_value (b ∷ bs) = b + 256 * le_value bs

abbrev pub drop : ℕ → List ℕ → List ℕ
drop zero xs = xs
drop (suc n) [] = []
drop (suc n) (x ∷ xs) = drop n xs

-- `std::string`'s equality.
unfoldable pub same_bytes : List ℕ → List ℕ → Bool
same_bytes [] [] = true
same_bytes [] (y ∷ ys) = false
same_bytes (x ∷ xs) [] = false
same_bytes (x ∷ xs) (y ∷ ys) = x == y && same_bytes xs ys

pub record SourceValidator : Type 0 where
  pub etag : List ℕ
  pub last_modified : List ℕ
  pub total_size : ℕ

pub record SourceIdentity : Type 0 where
  pub url : List ℕ
  pub validator : SourceValidator

abbrev pub chunk_magic : ℕ
chunk_magic = 0x31435453

pub record ChunkFileHeader : Type 0 where
  pub magic : ℕ
  pub format_version : ℕ
  pub source_id_hash : ℕ
  pub total_size : ℕ
  pub chunk_index : ℕ
  pub payload_length : ℕ
  pub validator_length : ℕ
  pub payload_checksum : ℕ

-- The packed struct in memory, on a little-endian machine.
abbrev pub header_bytes : ChunkFileHeader → List ℕ
header_bytes h =
    le 4 h.magic
    ++ le 4 h.format_version
    ++ le 8 h.source_id_hash
    ++ le 8 h.total_size
    ++ le 4 h.chunk_index
    ++ le 4 h.payload_length
    ++ le 4 h.validator_length
    ++ le 4 h.payload_checksum

abbrev pub header_of : List ℕ → ChunkFileHeader
header_of bs = record {
  magic = le_value (take 4 bs);
  format_version = le_value (take 4 (drop 4 bs));
  source_id_hash = le_value (take 8 (drop 8 bs));
  total_size = le_value (take 8 (drop 16 bs));
  chunk_index = le_value (take 4 (drop 24 bs));
  payload_length = le_value (take 4 (drop 28 bs));
  validator_length = le_value (take 4 (drop 32 bs));
  payload_checksum = le_value (take 4 (drop 36 bs));
}

-- "E:" etag "|L:" last_modified.
unfoldable pub canonical_validator : SourceValidator → List ℕ
canonical_validator v = 69 ∷ 58 ∷ v.etag ++ 124 ∷ 76 ∷ 58 ∷ v.last_modified

-- `%0<width>` in a base: the digits, the high one first.
abbrev pub hex_digit : ℕ → ℕ
hex_digit d = if ltb d 10 then 48 + d else 87 + d

abbrev pub digits_in : (base width x : ℕ) → List ℕ
digits_in base zero x = []
digits_in base (suc width) x = digits_in base width (x / base) ++ hex_digit (x % base) ∷ []

-- ".stc1chunk".
abbrev pub suffix : List ℕ
suffix = 46 ∷ 115 ∷ 116 ∷ 99 ∷ 49 ∷ 99 ∷ 104 ∷ 117 ∷ 110 ∷ 107 ∷ []

unfoldable pub chunk_file_name : SourceIdentity → ℕ → List ℕ
chunk_file_name source chunk_index =
    digits_in 16 16 (fnv1a64 source.url)
    ++ 95 ∷ digits_in 16 16 (fnv1a64 (canonical_validator source.validator))
    ++ 95 ∷ digits_in 10 10 chunk_index
    ++ suffix

pub record ReadResult : Type 0 where
  pub status : Status
  pub bytes : ℕ

abbrev pub failed : Status → ReadResult
failed status = record { status = status; bytes = 0 }

-- `fread` of so many bytes, all or none of which the caller uses.
unfoldable pub fread : ℕ → List ℕ → Option (List ℕ × List ℕ)
fread n file = if leb n (length file) then some (take n file, drop n file) else none

-- Bytes written over the front of a buffer.
abbrev pub overlay : List ℕ → List ℕ → List ℕ
overlay [] dest = dest
overlay (b ∷ bs) [] = []
overlay (b ∷ bs) (d ∷ dest) = b ∷ overlay bs dest

-- The payload's part of `read_chunk`, with what `dest` holds after it.
unfoldable pub read_payload : ChunkFileHeader → List ℕ → List ℕ → ReadResult × List ℕ
read_payload header file dest = elim (fread header.payload_length file) [
  | none ↦ (failed Status.corrupt, overlay file dest)
  | some got ↦
      if fnv1a32 got.0 == header.payload_checksum
      then (record { status = Status.ok; bytes = header.payload_length }, overlay got.0 dest)
      else (failed Status.corrupt, overlay got.0 dest)
]

-- The comparison of the validator, and what follows.
unfoldable pub read_validated :
    SourceIdentity → ChunkFileHeader → List ℕ → List ℕ → ReadResult × List ℕ
read_validated source header file dest = elim (fread header.validator_length file) [
  | none ↦ (failed Status.corrupt, dest)
  | some got ↦
      if not (same_bytes got.0 (canonical_validator source.validator))
      then (failed Status.not_found, dest)
      else read_payload header got.1 dest
]

-- The part behind the header.
unfoldable pub read_body :
    (chunk_size : ℕ) → SourceIdentity → ℕ → ChunkFileHeader → List ℕ → List ℕ → ReadResult × List ℕ
read_body chunk_size source chunk_index header file dest =
    if not (header.magic == chunk_magic) || not (header.format_version == 1)
    then (failed Status.corrupt, dest)
    else if not (header.source_id_hash == fnv1a64 source.url)
        || not (header.total_size == source.validator.total_size)
        || not (header.chunk_index == chunk_index)
    then (failed Status.not_found, dest)
    else if ltb chunk_size header.payload_length || ltb (length dest) header.payload_length
    then (failed Status.corrupt, dest)
    else read_validated source header file dest

-- `read_chunk` on what stands under the chunk's name.
unfoldable pub read_file :
    (chunk_size : ℕ) → SourceIdentity → ℕ → Option (List ℕ) → List ℕ → ReadResult × List ℕ
read_file chunk_size source chunk_index found dest = elim found [
  | none ↦ (failed Status.not_found, dest)
  | some file ↦ elim (fread 40 file) [
    | none ↦ (failed Status.corrupt, dest)
    | some got ↦ read_body chunk_size source chunk_index (header_of got.0) got.1 dest
  ]
]
