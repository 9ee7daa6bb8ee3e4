-- ===== src/Remote/Store/Damaged.antt =====
-- What a reader makes of a chunk file whose payload was damaged.
use sub0tiered_cache.Base.{
  ℕ, ◌%◌, ◌^◌, ◌≤◌, ◌<◌, ◌≡◌, ◌≢◌, refl, sym, ap, subst, ◌∙◌, arith, false, ◌||◌, some, List, [],
  ◌∷◌, ◌++◌, length, length-append, ltb, ◌==◌, ==_refl,
}
use sub0tiered_cache.Remote.{Status}
use sub0tiered_cache.Remote.Checksum.{fnv1a32, fnv1a64, AreBytes, fnv1a32_one_byte}
use sub0tiered_cache.Remote.Store.{
  SourceIdentity, ChunkFileHeader, header_bytes, canonical_validator, fread, ReadResult, failed,
  read_payload, read_validated, read_body, read_file,
}
use sub0tiered_cache.Remote.Store.Format.{same_bytes_refl, header_of-bytes, fread-append}
use sub0tiered_cache.Remote.Store.Publication.{header_for}
use sub0tiered_cache.Remote.Store.ReadBack.{IsStorable, header_for-Fits, header_split, fread_all}

-- The file of a chunk with other bytes for its payload.
unfoldable pub damaged_bytes : SourceIdentity → ℕ → (payload stored : List ℕ) → List ℕ
damaged_bytes source chunk_index payload stored =
    header_bytes (header_for source chunk_index payload)
    ++ canonical_validator source.validator
    ++ stored

stored_read :
    (h : ChunkFileHeader) (stored dest : List ℕ)
    → h.payload_length ≡ length stored
    → fnv1a32 stored ≢ h.payload_checksum
    → (read_payload h stored dest).0 ≡ failed Status.corrupt
unfolding read_payload
stored_read h stored dest l c =
    let whole : fread h.payload_length stored ≡ some (stored, []) =
      subst (λ (n : ℕ). fread n stored ≡ some (stored, [])) (sym l) (fread_all stored) in
    let other : (fnv1a32 stored == h.payload_checksum) ≡ false = ground (arith, c) in
    rw (read_payload, whole, other) refl

module _ (chunk_size : ℕ) (source : SourceIdentity) (chunk_index : ℕ) (payload stored dest : List ℕ)
    (v : IsStorable source chunk_index payload) where
  damaged_body :
      length stored ≡ length payload
      → fnv1a32 stored ≢ fnv1a32 payload
      → length payload ≤ chunk_size
      → length payload ≤ length dest
      → (read_body chunk_size source chunk_index
          (header_for source chunk_index payload)
          (canonical_validator source.validator ++ stored)
          dest).0
        ≡ failed Status.corrupt
  unfolding read_body read_validated header_for
  damaged_body same differs fits room =
      let narrow : length payload % 2 ^ 32 ≡ length payload = omega (arith, v.payload_fits) in
      let narrow' : length (canonical_validator source.validator) % 2 ^ 32
          ≡ length (canonical_validator source.validator) =
        omega (arith, v.validator_fits) in
      let got = fread-append (canonical_validator source.validator) stored in
      let in_size : (ltb chunk_size (length payload) || ltb (length dest) (length payload))
          ≡ false =
        ground (arith, fits, room) in
      rw
        (
          ==_refl (fnv1a64 source.url),
          ==_refl source.validator.total_size,
          ==_refl chunk_index,
          narrow,
          in_size,
          narrow',
          read_validated,
          got,
          same_bytes_refl (canonical_validator source.validator),
        )
        (stored_read (header_for source chunk_index payload) stored dest (narrow ∙ sym same)
          differs)

  damaged_read :
      length stored ≡ length payload
      → fnv1a32 stored ≢ fnv1a32 payload
      → length payload ≤ chunk_size
      → length payload ≤ length dest
      → (read_file chunk_size source chunk_index
          (some (damaged_bytes source chunk_index payload stored))
          dest).0
        ≡ failed Status.corrupt
  unfolding damaged_bytes
  damaged_read same differs fits room =
      ap (λ (r : ReadResult × List ℕ). r.0)
        (header_split chunk_size source chunk_index
            (damaged_bytes source chunk_index payload stored) dest _
            (fread-append (header_bytes (header_for source chunk_index payload))
              (canonical_validator source.validator ++ stored))
          ∙ ap
              (λ (h : ChunkFileHeader).
                read_body chunk_size source chunk_index h
                  (canonical_validator source.validator ++ stored) dest)
              (header_of-bytes _ (header_for-Fits source chunk_index payload v)))
      ∙ damaged_body same differs fits room

-- A chunk file with one byte of its payload changed, wherever that is, is reported corrupt to a
-- reader of that chunk with room for it.
pub read_file_damaged :
    (chunk_size : ℕ) (source : SourceIdentity) (chunk_index : ℕ) (before after dest : List ℕ)
    (b b' : ℕ)
    → IsStorable source chunk_index (before ++ b ∷ after)
    → AreBytes after
    → b < 256
    → b' < 256
    → b ≢ b'
    → length (before ++ b ∷ after) ≤ chunk_size
    → length (before ++ b ∷ after) ≤ length dest
    → (read_file chunk_size source chunk_index
        (some (damaged_bytes source chunk_index (before ++ b ∷ after) (before ++ b' ∷ after)))
        dest).0
      ≡ failed Status.corrupt
read_file_damaged chunk_size source chunk_index before after dest b b' v bytes p q differs fits
      room =
    damaged_read chunk_size source chunk_index (before ++ b ∷ after) (before ++ b' ∷ after) dest v
      (omega (arith, length-append before (b ∷ after), length-append before (b' ∷ after)))
      (λ e. fnv1a32_one_byte before after b b' bytes p q differs (sym e)) fits room
