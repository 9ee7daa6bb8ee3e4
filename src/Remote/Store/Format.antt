-- ===== src/Remote/Store/Format.antt =====
-- The bytes of a chunk file, written and read back.
use sub0tiered_cache.Base.{
  ℕ, zero, suc, ◌/◌, ◌^◌, ◌<◌, ◌≡◌, refl, ap, arith, true, some, List, [], ◌∷◌, ◌++◌, length,
  length-append, take, leb, ◌↔◌,
}
use sub0tiered_cache.Remote.Store.{
  le, le_value, drop, same_bytes, ChunkFileHeader, header_bytes, header_of, fread,
}

-- A number that fits the width comes back.
pub le-value : (n x : ℕ) → x < 256 ^ n → le_value (le n x) ≡ x
le-value zero x h = omega (arith, h)
le-value (suc n) x h = omega (arith, le-value n (x / 256) (omega (arith, h)))

pub record Fits (h : ChunkFileHeader) : Type 0 where
  pub magic : h.magic < 256 ^ 4
  pub format_version : h.format_version < 256 ^ 4
  pub source_id_hash : h.source_id_hash < 256 ^ 8
  pub total_size : h.total_size < 256 ^ 8
  pub chunk_index : h.chunk_index < 256 ^ 4
  pub payload_length : h.payload_length < 256 ^ 4
  pub validator_length : h.validator_length < 256 ^ 4
  pub payload_checksum : h.payload_checksum < 256 ^ 4

-- A header whose fields fit comes back.
pub header_of-bytes : (h : ChunkFileHeader) → Fits h → header_of (header_bytes h) ≡ h
header_of-bytes h v =
    rw
      (
        le-value 4 h.magic v.magic,
        le-value 4 h.format_version v.format_version,
        le-value 8 h.source_id_hash v.source_id_hash,
        le-value 8 h.total_size v.total_size,
        le-value 4 h.chunk_index v.chunk_index,
        le-value 4 h.payload_length v.payload_length,
        le-value 4 h.validator_length v.validator_length,
        le-value 4 h.payload_checksum v.payload_checksum,
      )
      refl

pub take-length : (xs ys : List ℕ) → take (length xs) (xs ++ ys) ≡ xs
take-length [] ys = refl
take-length (x ∷ xs) ys = ap (λ (zs : List ℕ). x ∷ zs) (take-length xs ys)

drop-length : (xs ys : List ℕ) → drop (length xs) (xs ++ ys) ≡ ys
drop-length [] ys = refl
drop-length (x ∷ xs) ys = drop-length xs ys

pub fread-append : (xs ys : List ℕ) → fread (length xs) (xs ++ ys) ≡ some (xs, ys)
unfolding fread
fread-append xs ys =
    let fits : leb (length xs) (length (xs ++ ys)) ≡ true = ground (arith, length-append xs ys) in
    rw (fits, take-length xs ys, drop-length xs ys) refl

pub same_bytes_iff : (xs ys : List ℕ) → (same_bytes xs ys ≡ true) ↔ (xs ≡ ys)
unfolding same_bytes
same_bytes_iff [] [] = (λ _. refl, λ _. refl)
same_bytes_iff [] (y ∷ ys) = (λ e. absurd (cc e), λ e. absurd (cc e))
same_bytes_iff (x ∷ xs) [] = (λ e. absurd (cc e), λ e. absurd (cc e))
same_bytes_iff (x ∷ xs) (y ∷ ys) =
    (λ e. ground (arith, same_bytes_iff xs ys), λ e. ground (arith, same_bytes_iff xs ys))

pub same_bytes_refl : (xs : List ℕ) → same_bytes xs xs ≡ true
same_bytes_refl xs = (same_bytes_iff xs xs).1 refl
