-- ===== src/Remote/Store/Publication.antt =====
-- include/sub0tieredcache/remote/chunk_store.hpp: ChunkStore, its directory and its publications.
-- The parent of a name is the store's directory throughout.
use sub0tiered_cache.Base.{
  ℕ, zero, suc, ◌+◌, ◌/◌, ◌%◌, ◌^◌, Bool, true, false, ◌||◌, ◌&&◌, not, Option, none, some, List,
  [], ◌∷◌, ◌++◌, length, take, ltb, ◌==◌, if◌then◌else◌,
}
use sub0tiered_cache.Remote.{Status}
use sub0tiered_cache.Remote.Checksum.{fnv1a32, fnv1a64}
use sub0tiered_cache.Remote.Store.{
  SourceIdentity, ChunkFileHeader, header_bytes, canonical_validator, chunk_magic, chunk_file_name,
  hex_digit, same_bytes, ReadResult, read_file,
}

abbrev pub Directory : Type 0
Directory = List ℕ → Option (List ℕ)

pub record ChunkStore : Type 0 where
  pub chunk_size : ℕ
  pub directory : Directory
  pub valid : Bool
  pub temp_counter : ℕ
  pub temp_nonce : ℕ

-- ".stc1tmp-".
abbrev pub temp_prefix : List ℕ
temp_prefix = 46 ∷ 115 ∷ 116 ∷ 99 ∷ 49 ∷ 116 ∷ 109 ∷ 112 ∷ 45 ∷ []

-- `std::to_string`; a number of 64 bits has at most twenty digits.
abbrev pub decimal : (fuel x : ℕ) → List ℕ
decimal zero x = []
decimal (suc n) x =
    let high = decimal n (x / 10) in
    if ltb x 10 then hex_digit x ∷ [] else high ++ hex_digit (x % 10) ∷ []

unfoldable pub temp_name : (nonce counter : ℕ) → List ℕ
temp_name nonce counter = temp_prefix ++ decimal 20 nonce ++ 45 ∷ decimal 20 counter

abbrev pub put : Directory → List ℕ → Option (List ℕ) → Directory
put dir name file = λ other. if same_bytes other name then file else dir other

unfoldable pub starts_with : List ℕ → List ℕ → Bool
starts_with name [] = true
starts_with [] (p ∷ ps) = false
starts_with (x ∷ xs) (p ∷ ps) = x == p && starts_with xs ps

-- `cleanup_stale_temp_files`: whether the directory could be listed, and which removals succeed.
unfoldable pub cleanup_stale_temp_files : Bool → (List ℕ → Bool) → ChunkStore → ChunkStore
cleanup_stale_temp_files listed removed s = if not s.valid || not listed then s else record s {
  directory =
      λ name. if starts_with name temp_prefix && removed name then none else s.directory name;
}

-- The constructor: whether a directory was named, and whether it is there after
-- `create_directories`.
unfoldable pub open_store :
    (chunk_size nonce : ℕ) (named there listed : Bool) → (List ℕ → Bool) → Directory → ChunkStore
open_store chunk_size nonce named there listed removed dir =
    if not named || chunk_size == 0
    then record {
      chunk_size = chunk_size;
      directory = dir;
      valid = false;
      temp_counter = 0;
      temp_nonce = nonce;
    }
    else cleanup_stale_temp_files listed removed (record {
      chunk_size = chunk_size;
      directory = dir;
      valid = there;
      temp_counter = 0;
      temp_nonce = nonce;
    })

unfoldable pub read_chunk : ChunkStore → SourceIdentity → ℕ → List ℕ → ReadResult × List ℕ
read_chunk s source chunk_index dest =
    read_file s.chunk_size source chunk_index (s.directory (chunk_file_name source chunk_index))
      dest

-- The header of a publication, with its casts to uint32_t.
unfoldable pub header_for : SourceIdentity → ℕ → List ℕ → ChunkFileHeader
header_for source chunk_index payload = record {
  magic = chunk_magic;
  format_version = 1;
  source_id_hash = fnv1a64 source.url;
  total_size = source.validator.total_size;
  chunk_index = chunk_index;
  payload_length = length payload % 2 ^ 32;
  validator_length = length (canonical_validator source.validator) % 2 ^ 32;
  payload_checksum = fnv1a32 payload;
}

-- The whole file of a publication.
unfoldable pub file_bytes : SourceIdentity → ℕ → List ℕ → List ℕ
file_bytes source chunk_index payload =
    header_bytes (header_for source chunk_index payload)
    ++ canonical_validator source.validator
    ++ payload

-- What the file system answers to a publication: the open, how much each of the three writes
-- wrote, the sync and the rename. `header_part` is in the file where the header is not whole,
-- `unsynced` where the sync fails, and `left_over` under the temporary name where the publication
-- fails.
pub record PublishAnswers : Type 0 where
  pub opens : Bool
  pub header_written : ℕ
  pub header_part : List ℕ
  pub validator_written : ℕ
  pub payload_written : ℕ
  pub synced : Bool
  pub unsynced : List ℕ
  pub renamed : Bool
  pub left_over : Option (List ℕ)

abbrev pub is_empty : List ℕ → Bool
is_empty [] = true
is_empty (x ∷ xs) = false

-- `ok`: each of the writes was whole.
unfoldable pub written_whole : PublishAnswers → (validator payload : List ℕ) → Bool
written_whole a validator payload =
    a.header_written == 1
    && (is_empty validator || a.validator_written == length validator)
    && (is_empty payload || a.payload_written == length payload)
    && a.synced

-- What the writes leave in the file under the temporary name: of each write, as much as it wrote.
unfoldable pub stored : PublishAnswers → ChunkFileHeader → (validator payload : List ℕ) → List ℕ
stored a header validator payload =
    if a.synced
    then (if a.header_written == 1 then header_bytes header else a.header_part)
      ++ take a.validator_written validator
      ++ take a.payload_written payload
    else a.unsynced

unfoldable pub publish_chunk :
    ChunkStore → SourceIdentity → ℕ → List ℕ → PublishAnswers → ChunkStore × Status
publish_chunk s source chunk_index payload a =
    let temp = temp_name s.temp_nonce s.temp_counter in
    let validator = canonical_validator source.validator in
    let file = stored a (header_for source chunk_index payload) validator payload in
    let t = record s { temp_counter = (s.temp_counter + 1) % 2 ^ 64 } in
    let failed = record t { directory = put s.directory temp a.left_over } in
    if ltb s.chunk_size (length payload)
    then (s, Status.invalid_argument)
    else if not a.opens
    then (t, Status.publish_failed)
    else if not (written_whole a validator payload)
    then (failed, Status.publish_failed)
    else if not a.renamed
    then (failed, Status.publish_failed)
    else (
      record t {
        directory =
            put (put s.directory temp none) (chunk_file_name source chunk_index) (some file);
      },
      Status.ok,
    )
