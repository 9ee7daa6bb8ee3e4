-- ===== src/Remote/Mirror/Faithful.antt =====
-- When the chunk files hold what the source holds, and that a publication keeps it so.
use sub0tiered_cache.Base.{
  ℕ, zero, suc, ◌+◌, ◌-◌, ◌*◌, ◌≤◌, ◌<◌, ◌≡◌, refl, sym, ap, subst, ◌∙◌, arith, Bool, true, false,
  ◌||◌, not, Option, none, some, List, [], ◌∷◌, length, min, ltb, ◌==◌, ==_refl, ==_iff,
  if◌then◌else◌, Bool-cases, Option-cases, inl, inr,
}
use sub0tiered_cache.Remote.{Status}
use sub0tiered_cache.Remote.Checksum.{fnv1a32, fnv1a64}
use sub0tiered_cache.Remote.Store.{
  SourceIdentity, ChunkFileHeader, header_of, canonical_validator, chunk_file_name, same_bytes,
  fread, overlay, ReadResult, chunk_magic, read_payload, read_validated, read_body, read_file,
}
use sub0tiered_cache.Remote.Store.Format.{same_bytes_refl}
use sub0tiered_cache.Remote.Store.Publication.{ChunkStore, read_chunk}
use sub0tiered_cache.Remote.Store.ReadBack.{IsStorable, verdict, read_file-published}
use sub0tiered_cache.Remote.Store.Atomic.{AddsChunk, KeepsChunks}
use sub0tiered_cache.Remote.Mirror.{byte_at}

length-overlay : (xs dest : List ℕ) → length (overlay xs dest) ≡ length dest
length-overlay [] dest = refl
length-overlay (x ∷ xs) [] = refl
length-overlay (x ∷ xs) (d ∷ dest) = ap suc (length-overlay xs dest)

byte_at-overlay :
    (xs dest : List ℕ) (k : ℕ)
    → k < length xs
    → length xs ≤ length dest
    → byte_at (overlay xs dest) k ≡ byte_at xs k
byte_at-overlay [] dest k h r = absurd (omega (arith, h))
byte_at-overlay (x ∷ xs) [] k h r = absurd (omega (arith, r))
byte_at-overlay (x ∷ xs) (d ∷ dest) zero h r = refl
byte_at-overlay (x ∷ xs) (d ∷ dest) (suc k) h r =
    byte_at-overlay xs dest k (omega (arith, h)) (omega (arith, r))

-- A read keeps the buffer's size, however it ends.
length-read_payload :
    (h : ChunkFileHeader) (file dest : List ℕ) → length (read_payload h file dest).1 ≡ length dest
unfolding read_payload
length-read_payload h file dest = elim (Option-cases (fread h.payload_length file)) [
  | inl e ↦ rw (read_payload, e) (length-overlay file dest)
  | inr e ↦ elim (Bool-cases (fnv1a32 e.0.0 == h.payload_checksum)) [
    | inl f ↦ rw (read_payload, e.1, f) (length-overlay e.0.0 dest)
    | inr f ↦ rw (read_payload, e.1, f) (length-overlay e.0.0 dest)
  ]
]

length_if :
    (b : Bool) (x y : ReadResult × List ℕ) (n : ℕ)
    → length x.1 ≡ n
    → length y.1 ≡ n
    → length (if b then x else y).1 ≡ n
length_if true x y n p q = p
length_if false x y n p q = q

length-read_validated :
    (source : SourceIdentity) (h : ChunkFileHeader) (file dest : List ℕ)
    → length (read_validated source h file dest).1 ≡ length dest
unfolding read_validated
length-read_validated source h file dest = elim (Option-cases (fread h.validator_length file)) [
  | inl e ↦ rw (read_validated, e) refl
  | inr e ↦ rw (read_validated, e.1) (length_if _ _ _ _ refl (length-read_payload h e.0.1 dest))
]

length-read_body :
    (chunk_size : ℕ) (source : SourceIdentity) (i : ℕ) (h : ChunkFileHeader) (file dest : List ℕ)
    → length (read_body chunk_size source i h file dest).1 ≡ length dest
unfolding read_body
length-read_body chunk_size source i h file dest =
    length_if (not (h.magic == chunk_magic) || not (h.format_version == 1)) _ _ _ refl (
      length_if
        (not (h.source_id_hash == fnv1a64 source.url)
          || not (h.total_size == source.validator.total_size)
          || not (h.chunk_index == i))
        _ _ _ refl
        (length_if (ltb chunk_size h.payload_length || ltb (length dest) h.payload_length) _ _ _
          refl (length-read_validated source h file dest)))

length-read_file :
    (chunk_size : ℕ) (source : SourceIdentity) (i : ℕ) (found : Option (List ℕ)) (dest : List ℕ)
    → length (read_file chunk_size source i found dest).1 ≡ length dest
unfolding read_file
length-read_file chunk_size source i none dest = refl
length-read_file chunk_size source i (some file) dest = elim (Option-cases (fread 40 file)) [
  | inl e ↦ rw (read_file, e) refl
  | inr e ↦ rw (read_file, e.1) (length-read_body chunk_size source i (header_of e.0.0) e.0.1 dest)
]

pub length-read_chunk :
    (s : ChunkStore) (source : SourceIdentity) (i : ℕ) (dest : List ℕ)
    → length (read_chunk s source i dest).1 ≡ length dest
unfolding read_chunk
length-read_chunk s source i dest =
    length-read_file s.chunk_size source i (s.directory (chunk_file_name source i)) dest

module _ (source : SourceIdentity) (content : ℕ → ℕ) (chunk_size : ℕ) where
  -- The length of a chunk.
  abbrev pub tile : ℕ → ℕ
  tile i = min chunk_size (source.validator.total_size - i * chunk_size)

  -- Each chunk that the store would serve holds the source's bytes.
  pub record IsFaithful (s : ChunkStore) : Type 0 where
    pub size : s.chunk_size ≡ chunk_size
    pub exact :
        (i k : ℕ) (dest : List ℕ)
        → length dest ≡ chunk_size
        → (read_chunk s source i dest).0.status ≡ Status.ok
        → k < tile i
        → byte_at (read_chunk s source i dest).1 k ≡ content (i * chunk_size + k)

  pub KeepsChunks-IsFaithful : (s t : ChunkStore) → KeepsChunks s t → IsFaithful s → IsFaithful t
  unfolding read_chunk
  KeepsChunks-IsFaithful s t h v = record {
    size = h.size ∙ v.size;
    exact = λ i k dest l. rw (h.size, h.chunks source i) (v.exact i k dest l);
  }

  -- A published file that a reader accepts is of the reader's index.
  verdict_ok :
      (published_index i : ℕ) (payload dest : List ℕ)
      → (verdict chunk_size source published_index payload source i dest).0.status ≡ Status.ok
      → (published_index ≡ i)
        × (length payload ≤ length dest)
        × ((verdict chunk_size source published_index payload source i dest).1
            ≡ overlay payload dest)
  unfolding verdict
  verdict_ok published_index i payload dest = elim (Bool-cases (published_index == i)) [
    | inr e ↦
        rw (==_refl (fnv1a64 source.url), ==_refl source.validator.total_size, e)
          (λ ok. absurd (cc ok))
    | inl e ↦
        elim (Bool-cases (ltb chunk_size (length payload) || ltb (length dest) (length payload))) [
          | inl f ↦
              rw (==_refl (fnv1a64 source.url), ==_refl source.validator.total_size, e, f)
                (λ ok. absurd (cc ok))
          | inr f ↦
              rw
                (
                  ==_refl (fnv1a64 source.url),
                  ==_refl source.validator.total_size,
                  e,
                  f,
                  same_bytes_refl (canonical_validator source.validator),
                )
                (λ ok. ((==_iff published_index i).0 e, ground (arith, f), refl))
        ]
  ]

  pub AddsChunk-IsFaithful :
      (s t : ChunkStore) (published_index : ℕ) (payload : List ℕ)
      → IsStorable source published_index payload
      → length payload ≡ tile published_index
      → ((k : ℕ)
          → k < tile published_index
          → byte_at payload k ≡ content (published_index * chunk_size + k))
      → AddsChunk s t source published_index payload
      → IsFaithful s
      → IsFaithful t
  unfolding read_chunk
  AddsChunk-IsFaithful s t published_index payload f l bytes h v = record {
    size = h.size ∙ v.size;
    exact = λ i k dest room.
        elim (Bool-cases
          (same_bytes (chunk_file_name source i) (chunk_file_name source published_index))) [
            | inr e ↦ rw (h.size, h.chunks source i, e) (v.exact i k dest room)
            | inl e ↦
                rw
                  (
                    h.size,
                    v.size,
                    h.chunks source i,
                    e,
                    read_file-published chunk_size source published_index payload source i dest f,
                  )
                  (λ ok inside.
                    let (same, fits, d) = verdict_ok published_index i payload dest ok in
                    let in_payload : k < tile published_index =
                      subst (λ (j : ℕ). k < tile j) (sym same) inside in
                    rw d (
                      byte_at-overlay payload dest k (omega (arith, in_payload, l)) fits
                      ∙ bytes k in_payload
                      ∙ ap (λ (j : ℕ). content (j * chunk_size + k)) same))
          ];
  }
