-- ===== src/Remote/Store/Atomic.antt =====
-- A publication takes effect on its own chunk file, whole, or on none.
use mathlib.Core.List.{append_assoc}
use sub0tiered_cache.Base.{
  ℕ, zero, suc, ◌/◌, ◌%◌, ◌≤◌, ◌≡◌, ◌≢◌, refl, sym, ap, subst, arith, Bool, true, false, ◌||◌, not,
  Option, none, some, List, [], ◌∷◌, ◌++◌, length, ltb, ltb→le, ==_refl, ==_iff, ◌==◌, take,
  if◌then◌else◌, Bool-cases, inl, inr, ◌⊎◌,
}
use sub0tiered_cache.Remote.{Status}
use sub0tiered_cache.Remote.Checksum.{fnv1a64}
use sub0tiered_cache.Remote.Store.{
  SourceIdentity, canonical_validator, chunk_file_name, hex_digit, digits_in, suffix, same_bytes,
  overlay,
}
use sub0tiered_cache.Remote.Store.Format.{same_bytes_iff, same_bytes_refl}
use sub0tiered_cache.Remote.Store.Publication.{
  ChunkStore, Directory, put, temp_prefix, temp_name, starts_with, cleanup_stale_temp_files,
  file_bytes, header_for, PublishAnswers, is_empty, written_whole, stored, publish_chunk,
  read_chunk,
}
use sub0tiered_cache.Remote.Store.ReadBack.{IsStorable, verdict, read_file-published}

abbrev first_byte : List ℕ → ℕ
first_byte [] = 0
first_byte (x ∷ xs) = x

hex_digit_ne : (d : ℕ) → hex_digit d ≢ 46
hex_digit_ne d = ground arith

digits_first :
    (base width x c : ℕ) (rest : List ℕ)
    → c ≢ 46
    → first_byte (digits_in base width x ++ c ∷ rest) ≢ 46
digits_first base zero x c rest h = h
digits_first base (suc w) x c rest h =
    subst (λ (name : List ℕ). first_byte name ≢ 46)
      (sym (append_assoc (digits_in base w (x / base)) (hex_digit (x % base) ∷ []) (c ∷ rest)))
      (digits_first base w (x / base) (hex_digit (x % base)) (c ∷ rest) (hex_digit_ne (x % base)))

-- A chunk's name does not start like a temporary one.
chunk_first : (source : SourceIdentity) (i : ℕ) → first_byte (chunk_file_name source i) ≢ 46
unfolding chunk_file_name
chunk_first source i =
    digits_first 16 16 (fnv1a64 source.url) 95
      (digits_in 16 16 (fnv1a64 (canonical_validator source.validator))
        ++ 95 ∷ digits_in 10 10 i
        ++ suffix)
      (omega arith)

chunk_not_temp :
    (source : SourceIdentity) (i nonce counter : ℕ)
    → same_bytes (chunk_file_name source i) (temp_name nonce counter) ≡ false
unfolding temp_name
chunk_not_temp source i nonce counter =
    elim (Bool-cases (same_bytes (chunk_file_name source i) (temp_name nonce counter))) [
      | inl e ↦ absurd (chunk_first source i (ap first_byte ((same_bytes_iff _ _).0 e)))
      | inr e ↦ e
    ]

first_not_temp : (name : List ℕ) → first_byte name ≢ 46 → starts_with name temp_prefix ≡ false
unfolding starts_with
first_not_temp [] h = refl
first_not_temp (x ∷ xs) h = ground (arith, h)

-- What a directory has under a chunk's name after a file was put under a temporary one.
put_temp :
    (dir : Directory) (source : SourceIdentity) (i nonce counter : ℕ) (file : Option (List ℕ))
    → put dir (temp_name nonce counter) file (chunk_file_name source i)
      ≡ dir (chunk_file_name source i)
put_temp dir source i nonce counter file = rw (chunk_not_temp source i nonce counter) refl

-- Where chunk files are the same as before.
pub record KeepsChunks (s t : ChunkStore) : Type 0 where
  pub size : t.chunk_size ≡ s.chunk_size
  pub chunks :
      (source : SourceIdentity) (i : ℕ)
      → t.directory (chunk_file_name source i) ≡ s.directory (chunk_file_name source i)

-- Where one chunk file is new.
pub record AddsChunk (s t : ChunkStore) (source : SourceIdentity) (chunk_index : ℕ)
    (payload : List ℕ) : Type 0 where
  pub size : t.chunk_size ≡ s.chunk_size
  pub chunks :
      (other : SourceIdentity) (i : ℕ)
      → t.directory (chunk_file_name other i) ≡ (
          if same_bytes (chunk_file_name other i) (chunk_file_name source chunk_index)
          then some (file_bytes source chunk_index payload)
          else s.directory (chunk_file_name other i))

failed-KeepsChunks :
    (s : ChunkStore) (file : Option (List ℕ)) (counter : ℕ)
    → KeepsChunks s (record s {
      directory = put s.directory (temp_name s.temp_nonce s.temp_counter) file;
      temp_counter = counter;
    })
failed-KeepsChunks s file counter = record {
  size = refl;
  chunks = λ source i. put_temp s.directory source i s.temp_nonce s.temp_counter file;
}

take_whole : (n : ℕ) (xs : List ℕ) → (is_empty xs || n == length xs) ≡ true → take n xs ≡ xs
take_whole zero [] e = refl
take_whole (suc n) [] e = refl
take_whole zero (x ∷ xs) e = absurd (omega (arith, (==_iff zero (suc (length xs))).0 e))
take_whole (suc n) (x ∷ xs) e = ap (λ (ys : List ℕ). x ∷ ys) (take_whole n xs (ground (arith, e)))

-- If each write was whole and the sync succeeded, the file is whole.
stored_whole :
    (source : SourceIdentity) (i : ℕ) (payload : List ℕ) (a : PublishAnswers)
    → written_whole a (canonical_validator source.validator) payload ≡ true
    → stored a (header_for source i payload) (canonical_validator source.validator) payload
      ≡ file_bytes source i payload
unfolding written_whole stored file_bytes
stored_whole source i payload a e =
    let validator = canonical_validator source.validator in
    let synced : a.synced ≡ true = ground arith in
    let header : (a.header_written == 1) ≡ true = ground arith in
    let first : (is_empty validator || a.validator_written == length validator) ≡ true =
      ground arith in
    let second : (is_empty payload || a.payload_written == length payload) ≡ true = ground arith in
    rw
      (
        synced,
        header,
        take_whole a.validator_written validator first,
        take_whole a.payload_written payload second,
      )
      refl

pub publish_chunk_atomic :
    (s : ChunkStore) (source : SourceIdentity) (chunk_index : ℕ) (payload : List ℕ)
    (a : PublishAnswers)
    → (let (t, status) = publish_chunk s source chunk_index payload a in
        ((status ≡ Status.ok)
          × (length payload ≤ s.chunk_size)
          × AddsChunk s t source chunk_index payload)
        ⊎ ((status ≢ Status.ok) × KeepsChunks s t))
unfolding publish_chunk
publish_chunk_atomic s source chunk_index payload a =
    elim (Bool-cases (ltb s.chunk_size (length payload))) [
      | inl e ↦ rw e (inr (λ x. absurd (cc x), record { size = refl; chunks = λ other i. refl }))
      | inr e ↦ elim (Bool-cases a.opens) [
        | inr f ↦
            rw (e, f) (inr (λ x. absurd (cc x), record { size = refl; chunks = λ other i. refl }))
        | inl f ↦
            elim (Bool-cases (written_whole a (canonical_validator source.validator) payload)) [
              | inr g ↦ rw (e, g, f) (inr (λ x. absurd (cc x), failed-KeepsChunks s a.left_over _))
              | inl g ↦ elim (Bool-cases a.renamed) [
                | inr h ↦
                    rw (e, g, h, f) (inr (λ x. absurd (cc x), failed-KeepsChunks s a.left_over _))
                | inl h ↦
                    rw (e, stored_whole source chunk_index payload a g, g, h, f)
                      (inl (
                        refl,
                        ltb→le s.chunk_size (length payload) e,
                        record {
                          size = refl;
                          chunks = λ other i.
                              ap
                                (λ (f : Option (List ℕ)).
                                  if same_bytes (chunk_file_name other i)
                                    (chunk_file_name source chunk_index)
                                  then some (file_bytes source chunk_index payload)
                                  else f)
                                (put_temp s.directory other i s.temp_nonce s.temp_counter none);
                        },
                      ))
              ]
            ]
      ]
    ]

-- The cleaning of leftovers on opening leaves every chunk file alone.
pub cleanup-KeepsChunks :
    (listed : Bool) (removed : List ℕ → Bool) (s : ChunkStore)
    → KeepsChunks s (cleanup_stale_temp_files listed removed s)
unfolding cleanup_stale_temp_files
cleanup-KeepsChunks listed removed s = elim (Bool-cases (not s.valid || not listed)) [
  | inl e ↦ rw e (record { size = refl; chunks = λ other i. refl })
  | inr e ↦ rw e (record {
    size = refl;
    chunks = λ other i. rw (first_not_temp (chunk_file_name other i) (chunk_first other i)) refl;
  })
]

-- The verdict on a reader's own chunk.
pub verdict_own :
    (chunk_size : ℕ) (source : SourceIdentity) (chunk_index : ℕ) (payload dest : List ℕ)
    → length payload ≤ chunk_size
    → length payload ≤ length dest
    → verdict chunk_size source chunk_index payload source chunk_index dest
      ≡ (record { status = Status.ok; bytes = length payload }, overlay payload dest)
unfolding verdict
verdict_own chunk_size source chunk_index payload dest fits room =
    let in_size : (ltb chunk_size (length payload) || ltb (length dest) (length payload)) ≡ false =
      ground (arith, fits, room) in
    rw
      (
        ==_refl (fnv1a64 source.url),
        ==_refl source.validator.total_size,
        ==_refl chunk_index,
        in_size,
        same_bytes_refl (canonical_validator source.validator),
      )
      refl

-- A chunk that was published is read back, into the front of the buffer.
pub read_chunk-publish_chunk :
    (s : ChunkStore) (source : SourceIdentity) (chunk_index : ℕ) (payload dest : List ℕ)
    (a : PublishAnswers)
    → IsStorable source chunk_index payload
    → length payload ≤ length dest
    → (publish_chunk s source chunk_index payload a).1 ≡ Status.ok
    → read_chunk (publish_chunk s source chunk_index payload a).0 source chunk_index dest
      ≡ (record { status = Status.ok; bytes = length payload }, overlay payload dest)
unfolding read_chunk
read_chunk-publish_chunk s source chunk_index payload dest a v room ok =
    elim (publish_chunk_atomic s source chunk_index payload a) [
      | inl h ↦
          let (_, fits, adds) = h in
          rw
            (
              adds.size,
              adds.chunks source chunk_index,
              same_bytes_refl (chunk_file_name source chunk_index),
              read_file-published s.chunk_size source chunk_index payload source chunk_index dest v,
            )
            (verdict_own s.chunk_size source chunk_index payload dest fits room)
      | inr h ↦ absurd (h.0 ok)
    ]
