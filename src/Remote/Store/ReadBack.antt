-- ===== src/Remote/Store/ReadBack.antt =====
-- What a reader makes of a published chunk file.
use mathlib.Core.List.{append-nil}
use sub0tiered_cache.Base.{
  ℕ, ◌%◌, ◌^◌, ◌<◌, ◌≡◌, refl, sym, ap, subst, ◌∙◌, arith, true, ◌||◌, not, some, List, [], ◌++◌,
  length, ltb, ◌==◌, if◌then◌else◌, Bool-cases, inl, inr,
}
use sub0tiered_cache.Remote.{Status}
use sub0tiered_cache.Remote.Checksum.{fnv1a32, fnv1a64, fnv1a32-lt, fnv1a64-lt}
use sub0tiered_cache.Remote.Store.{
  SourceIdentity, ChunkFileHeader, header_bytes, header_of, canonical_validator, same_bytes, fread,
  overlay, ReadResult, failed, read_payload, read_validated, read_body, read_file,
}
use sub0tiered_cache.Remote.Store.Format.{Fits, header_of-bytes, fread-append}
use sub0tiered_cache.Remote.Store.Publication.{header_for, file_bytes}

-- Sizes and indices are those of their types, and what is stored fits uint32_t.
pub record IsStorable (source : SourceIdentity) (chunk_index : ℕ) (payload : List ℕ) : Type 0 where
  pub total : source.validator.total_size < 2 ^ 64
  pub index : chunk_index < 2 ^ 32
  pub payload_fits : length payload < 2 ^ 32
  pub validator_fits : length (canonical_validator source.validator) < 2 ^ 32

module _ (source : SourceIdentity) (chunk_index : ℕ) (payload : List ℕ)
    (v : IsStorable source chunk_index payload) where
  pub header_for-Fits : Fits (header_for source chunk_index payload)
  unfolding header_for
  header_for-Fits = record {
    magic = omega arith;
    format_version = omega arith;
    source_id_hash = omega (arith, fnv1a64-lt source.url);
    total_size = omega (arith, v.total);
    chunk_index = omega (arith, v.index);
    payload_length = omega (arith, v.payload_fits);
    validator_length = omega (arith, v.validator_fits);
    payload_checksum = omega (arith, fnv1a32-lt payload);
  }

  header_read :
      fread 40 (file_bytes source chunk_index payload)
      ≡ some (
        header_bytes (header_for source chunk_index payload),
        canonical_validator source.validator ++ payload,
      )
  unfolding file_bytes
  header_read =
      fread-append (header_bytes (header_for source chunk_index payload))
        (canonical_validator source.validator ++ payload)

-- What a reader reports of a file that was published for another source, chunk or payload.
unfoldable pub verdict :
    (chunk_size : ℕ) (published : SourceIdentity) (published_index : ℕ) (payload : List ℕ)
    (source : SourceIdentity) (chunk_index : ℕ) (dest : List ℕ)
    → ReadResult × List ℕ
verdict chunk_size published published_index payload source chunk_index dest =
    if not (fnv1a64 published.url == fnv1a64 source.url)
      || not (published.validator.total_size == source.validator.total_size)
      || not (published_index == chunk_index)
    then (failed Status.not_found, dest)
    else if ltb chunk_size (length payload) || ltb (length dest) (length payload)
    then (failed Status.corrupt, dest)
    else if not (
        same_bytes (canonical_validator published.validator) (canonical_validator source.validator))
    then (failed Status.not_found, dest)
    else (record { status = Status.ok; bytes = length payload }, overlay payload dest)

pub fread_all : (bs : List ℕ) → fread (length bs) bs ≡ some (bs, [])
fread_all bs =
    subst (λ (file : List ℕ). fread (length bs) file ≡ some (bs, [])) (append-nil bs)
      (fread-append bs [])

payload_read :
    (h : ChunkFileHeader) (payload dest : List ℕ)
    → h.payload_length ≡ length payload
    → h.payload_checksum ≡ fnv1a32 payload
    → read_payload h payload dest
      ≡ (record { status = Status.ok; bytes = length payload }, overlay payload dest)
unfolding read_payload
payload_read h payload dest l c =
    let whole : fread h.payload_length payload ≡ some (payload, []) =
      subst (λ (n : ℕ). fread n payload ≡ some (payload, [])) (sym l) (fread_all payload) in
    let same : (fnv1a32 payload == h.payload_checksum) ≡ true = ground (arith, c) in
    rw (read_payload, whole, same)
      (ap (λ (n : ℕ). (record { status = Status.ok; bytes = n }, overlay payload dest)) l)

pub header_split :
    (chunk_size : ℕ) (source : SourceIdentity) (chunk_index : ℕ) (file dest : List ℕ)
    (got : List ℕ × List ℕ)
    → fread 40 file ≡ some got
    → read_file chunk_size source chunk_index (some file) dest
      ≡ read_body chunk_size source chunk_index (header_of got.0) got.1 dest
unfolding read_file
header_split chunk_size source chunk_index file dest got e = rw (read_file, e) refl

module _ (chunk_size : ℕ) (published : SourceIdentity) (published_index : ℕ) (payload : List ℕ)
    (source : SourceIdentity) (chunk_index : ℕ) (dest : List ℕ)
    (v : IsStorable published published_index payload) where
  stored_length : (header_for published published_index payload).payload_length ≡ length payload
  unfolding header_for
  stored_length = omega (arith, v.payload_fits)

  validator_read :
      fread
        (header_for published published_index payload).validator_length
        (canonical_validator published.validator ++ payload)
      ≡ some (canonical_validator published.validator, payload)
  unfolding header_for
  validator_read =
      subst
        (λ (n : ℕ).
          fread n (canonical_validator published.validator ++ payload)
          ≡ some (canonical_validator published.validator, payload))
        {x = length (canonical_validator published.validator)} (omega (arith, v.validator_fits))
        (fread-append (canonical_validator published.validator) payload)

  body_read :
      read_body chunk_size source chunk_index
        (header_for published published_index payload)
        (canonical_validator published.validator ++ payload)
        dest
      ≡ verdict chunk_size published published_index payload source chunk_index dest
  unfolding verdict read_body read_validated header_for
  body_read =
      let narrow : length payload % 2 ^ 32 ≡ length payload = omega (arith, v.payload_fits) in
      let narrow' : length (canonical_validator published.validator) % 2 ^ 32
          ≡ length (canonical_validator published.validator) =
        omega (arith, v.validator_fits) in
      let got = fread-append (canonical_validator published.validator) payload in
      let last =
        payload_read (header_for published published_index payload) payload dest stored_length
          refl in
      elim (Bool-cases (
        not (fnv1a64 published.url == fnv1a64 source.url)
        || not (published.validator.total_size == source.validator.total_size)
        || not (published_index == chunk_index))) [
          | inl e ↦ rw e refl
          | inr e ↦
              elim (Bool-cases
                (ltb chunk_size (length payload) || ltb (length dest) (length payload))) [
                  | inl f ↦ rw (e, narrow, f) refl
                  | inr f ↦
                      elim (Bool-cases (
                        not (
                          same_bytes (canonical_validator published.validator)
                            (canonical_validator source.validator)))) [
                              | inl g ↦ rw (e, narrow, f, narrow', read_validated, got, g) refl
                              | inr g ↦ rw (e, narrow, f, narrow', read_validated, got, g) last
                            ]
                ]
        ]

  -- What a read reports of a published file is the verdict: the payload if the reader asks for a
  -- source whose URL has the hash, total size and canonical validator of the published one, for
  -- the published index, and the payload fits its chunk and its buffer; else the file is not
  -- found, or, where it does not fit, corrupt, with the buffer as it was.
  pub read_file-published :
      read_file chunk_size source chunk_index
        (some (file_bytes published published_index payload))
        dest
      ≡ verdict chunk_size published published_index payload source chunk_index dest
  read_file-published =
      header_split chunk_size source chunk_index (file_bytes published published_index payload) dest
        _ (header_read published published_index payload v)
      ∙ ap
          (λ (h : ChunkFileHeader).
            read_body chunk_size source chunk_index h
              (canonical_validator published.validator ++ payload) dest)
          (header_of-bytes _ (header_for-Fits published published_index payload v))
      ∙ body_read
