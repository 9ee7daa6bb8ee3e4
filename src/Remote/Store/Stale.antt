-- ===== src/Remote/Store/Stale.antt =====
-- Which validators and chunk sizes a chunk file does not tell apart.
use mathlib.Core.List.{append_assoc}
use sub0tiered_cache.Base.{ℕ, ◌≤◌, ◌≡◌, refl, ap, ◌∙◌, some, List, ◌∷◌, ◌++◌, length, inl, inr}
use sub0tiered_cache.Remote.{Status}
use sub0tiered_cache.Remote.Store.{
  SourceValidator, SourceIdentity, canonical_validator, chunk_file_name, overlay, read_file,
}
use sub0tiered_cache.Remote.Store.Format.{same_bytes_refl}
use sub0tiered_cache.Remote.Store.Publication.{
  ChunkStore, PublishAnswers, file_bytes, publish_chunk, read_chunk,
}
use sub0tiered_cache.Remote.Store.ReadBack.{IsStorable, verdict, read_file-published}
use sub0tiered_cache.Remote.Store.Atomic.{verdict_own, publish_chunk_atomic}

-- An ETag that contains the separator, and the same bytes split elsewhere.
abbrev pub split_late : (a b c : List ℕ) (total : ℕ) → SourceValidator
split_late a b c total = record {
  etag = a ++ 124 ∷ 76 ∷ 58 ∷ b;
  last_modified = c;
  total_size = total;
}

abbrev pub split_early : (a b c : List ℕ) (total : ℕ) → SourceValidator
split_early a b c total = record {
  etag = a;
  last_modified = b ++ 124 ∷ 76 ∷ 58 ∷ c;
  total_size = total;
}

same_canonical :
    (a b c : List ℕ) (total : ℕ)
    → canonical_validator (split_late a b c total) ≡ canonical_validator (split_early a b c total)
unfolding canonical_validator
same_canonical a b c total =
    ap (λ (xs : List ℕ). 69 ∷ 58 ∷ xs) (append_assoc a (124 ∷ 76 ∷ 58 ∷ b) (124 ∷ 76 ∷ 58 ∷ c))

abbrev pub from_url : List ℕ → SourceValidator → SourceIdentity
from_url url validator = record { url = url; validator = validator }

verdict_same :
    (chunk_size : ℕ) (url : List ℕ) (v w : SourceValidator) (payload dest : List ℕ)
    (chunk_index : ℕ)
    → v.total_size ≡ w.total_size
    → canonical_validator v ≡ canonical_validator w
    → verdict chunk_size (from_url url v) chunk_index payload (from_url url w) chunk_index dest
      ≡ verdict chunk_size (from_url url w) chunk_index payload (from_url url w) chunk_index dest
unfolding verdict
verdict_same chunk_size url v w payload dest chunk_index t c = rw (c, t) refl

-- A chunk published under a validator whose ETag contains "|L:" is served to a reader whose
-- validator has the same bytes split at the earlier separator, a different validator of the
-- source, if the chunk fits the reader's chunk size and buffer.
pub served_other_validator :
    (chunk_size : ℕ) (url a b c payload dest : List ℕ) (total chunk_index : ℕ)
    → IsStorable (from_url url (split_late a b c total)) chunk_index payload
    → length payload ≤ chunk_size
    → length payload ≤ length dest
    → read_file chunk_size
        (from_url url (split_early a b c total))
        chunk_index
        (some (file_bytes (from_url url (split_late a b c total)) chunk_index payload))
        dest
      ≡ (record { status = Status.ok; bytes = length payload }, overlay payload dest)
served_other_validator chunk_size url a b c payload dest total chunk_index v fits room =
    let early = from_url url (split_early a b c total) in
    read_file-published chunk_size (from_url url (split_late a b c total)) chunk_index payload early
      chunk_index dest v
    ∙ verdict_same chunk_size url (split_late a b c total) (split_early a b c total) payload dest
        chunk_index refl (same_canonical a b c total)
    ∙ verdict_own chunk_size early chunk_index payload dest fits room

-- A chunk that one store published is served to a store of another chunk size in the same
-- directory, for the same index and so for another part of the source, if it fits.
pub served_other_size :
    (s : ChunkStore) (chunk_size : ℕ) (source : SourceIdentity) (chunk_index : ℕ)
    (payload dest : List ℕ) (a : PublishAnswers)
    → IsStorable source chunk_index payload
    → length payload ≤ chunk_size
    → length payload ≤ length dest
    → (publish_chunk s source chunk_index payload a).1 ≡ Status.ok
    → read_chunk
        (record ((publish_chunk s source chunk_index payload a).0) { chunk_size = chunk_size })
        source
        chunk_index
        dest
      ≡ (record { status = Status.ok; bytes = length payload }, overlay payload dest)
unfolding read_chunk
served_other_size s chunk_size source chunk_index payload dest a v fits room ok =
    elim (publish_chunk_atomic s source chunk_index payload a) [
      | inl h ↦
          rw
            (
              h.2.chunks source chunk_index,
              same_bytes_refl (chunk_file_name source chunk_index),
              read_file-published chunk_size source chunk_index payload source chunk_index dest v,
            )
            (verdict_own chunk_size source chunk_index payload dest fits room)
      | inr h ↦ absurd (h.0 ok)
    ]
