-- ===== src/Remote/Checksum.antt =====
-- include/sub0tieredcache/remote/checksum.hpp: FNV-1a over bytes, which are numbers below 256.
use sub0tiered_cache.Base.{
  ℕ, ◌*◌, ◌%◌, ◌^◌, ◌<◌, ◌≡◌, ◌≢◌, refl, sym, ap, ◌∙◌, arith, List, [], ◌∷◌, ◌++◌, bit_xor,
}
use sub0tiered_cache.Base.Xor.{bit_xor_undone, bit_xor_comm, bit_xor_lt}

-- A round of the loop of `fnv1a32`, in uint32_t.
unfoldable pub mix32 : (hash byte : ℕ) → ℕ
mix32 hash byte = bit_xor hash byte * 0x01000193 % 2 ^ 32

abbrev pub fold32 : ℕ → List ℕ → ℕ
fold32 hash [] = hash
fold32 hash (byte ∷ bytes) = fold32 (mix32 hash byte) bytes

unfoldable pub fnv1a32 : List ℕ → ℕ
fnv1a32 bytes = fold32 0x811c9dc5 bytes

-- A round of the loop of `fnv1a64`, in uint64_t.
unfoldable pub mix64 : (hash byte : ℕ) → ℕ
mix64 hash byte = bit_xor hash byte * 0x100000001b3 % 2 ^ 64

abbrev pub fold64 : ℕ → List ℕ → ℕ
fold64 hash [] = hash
fold64 hash (byte ∷ bytes) = fold64 (mix64 hash byte) bytes

unfoldable pub fnv1a64 : List ℕ → ℕ
fnv1a64 bytes = fold64 0xcbf29ce484222325 bytes

-- The multiplier is odd, so that it can be undone.
unmultiply : (x : ℕ) → x < 2 ^ 32 → (x * 16777619 % 2 ^ 32) * 899433627 % 2 ^ 32 ≡ x
unmultiply x h = omega (arith, h)

module _ (h h' b b' : ℕ) where
  xor_injective : bit_xor h b ≡ bit_xor h' b → h ≡ h'
  xor_injective e = sym (bit_xor_undone h b) ∙ ap (λ (x : ℕ). bit_xor x b) e ∙ bit_xor_undone h' b

  xor_injective_byte : bit_xor h b ≡ bit_xor h b' → b ≡ b'
  xor_injective_byte e =
      sym (bit_xor_undone b h)
      ∙ ap (λ (x : ℕ). bit_xor x h) (bit_xor_comm b h ∙ e ∙ bit_xor_comm h b')
      ∙ bit_xor_undone b' h

-- A product with the multiplier tells the numbers below 2 ^ 32 apart.
multiply_injective :
    (x y : ℕ) → x < 2 ^ 32 → y < 2 ^ 32 → x * 16777619 % 2 ^ 32 ≡ y * 16777619 % 2 ^ 32 → x ≡ y
multiply_injective x y p q e =
    sym (unmultiply x p) ∙ ap (λ (z : ℕ). z * 899433627 % 2 ^ 32) e ∙ unmultiply y q

narrow_byte : (b : ℕ) → b < 256 → b < 2 ^ 32
narrow_byte b h = omega (arith, h)

mix32-lt : (hash byte : ℕ) → mix32 hash byte < 2 ^ 32
unfolding mix32
mix32-lt hash byte = omega arith

mix32_injective :
    (h h' b : ℕ) → h < 2 ^ 32 → h' < 2 ^ 32 → b < 256 → mix32 h b ≡ mix32 h' b → h ≡ h'
unfolding mix32
mix32_injective h h' b p q r e =
    let s = narrow_byte b r in
    xor_injective h h' b b
      (multiply_injective _ _ (bit_xor_lt 32 h b p s) (bit_xor_lt 32 h' b q s) e)

mix32_injective_byte :
    (h b b' : ℕ) → h < 2 ^ 32 → b < 256 → b' < 256 → mix32 h b ≡ mix32 h b' → b ≡ b'
unfolding mix32
mix32_injective_byte h b b' p q r e = xor_injective_byte h h b b' (
    multiply_injective _ _ (bit_xor_lt 32 h b p (narrow_byte b q))
      (bit_xor_lt 32 h b' p (narrow_byte b' r)) e)

-- All of the list are bytes.
pub data AreBytes : List ℕ → Type 0 where
  nil : AreBytes []
  cons : (b : ℕ) (bs : List ℕ) → b < 256 → AreBytes bs → AreBytes (b ∷ bs)

fold32_injective :
    (bs : List ℕ) (h h' : ℕ)
    → AreBytes bs
    → h < 2 ^ 32
    → h' < 2 ^ 32
    → fold32 h bs ≡ fold32 h' bs
    → h ≡ h'
fold32_injective [] h h' nil p q e = e
fold32_injective (b ∷ bs) h h' (cons _ _ r v) p q e =
    mix32_injective h h' b p q r
      (fold32_injective bs (mix32 h b) (mix32 h' b) v (mix32-lt h b) (mix32-lt h' b) e)

fold32-append : (xs ys : List ℕ) (h : ℕ) → fold32 h (xs ++ ys) ≡ fold32 (fold32 h xs) ys
fold32-append [] ys h = refl
fold32-append (x ∷ xs) ys h = fold32-append xs ys (mix32 h x)

fold32-lt : (bs : List ℕ) (h : ℕ) → h < 2 ^ 32 → fold32 h bs < 2 ^ 32
fold32-lt [] h p = p
fold32-lt (b ∷ bs) h p = fold32-lt bs (mix32 h b) (mix32-lt h b)

pub fnv1a32-lt : (bs : List ℕ) → fnv1a32 bs < 2 ^ 32
unfolding fnv1a32
fnv1a32-lt bs = fold32-lt bs 2166136261 (omega arith)

-- A change of one byte, whatever stands around it, always changes the checksum.
pub fnv1a32_one_byte :
    (before after : List ℕ) (b b' : ℕ)
    → AreBytes after
    → b < 256
    → b' < 256
    → b ≢ b'
    → fnv1a32 (before ++ b ∷ after) ≢ fnv1a32 (before ++ b' ∷ after)
unfolding fnv1a32
fnv1a32_one_byte before after b b' v p q differs = λ e.
    let h = fold32 2166136261 before in
    differs (
      mix32_injective_byte h b b' (fold32-lt before 2166136261 (omega arith)) p q (
        fold32_injective after (mix32 h b) (mix32 h b') v (mix32-lt h b) (mix32-lt h b') (
          sym (fold32-append before (b ∷ after) 2166136261)
          ∙ e
          ∙ fold32-append before (b' ∷ after) 2166136261)))

fold64-lt : (bs : List ℕ) (h : ℕ) → h < 2 ^ 64 → fold64 h bs < 2 ^ 64
unfolding mix64
fold64-lt [] h p = p
fold64-lt (b ∷ bs) h p = fold64-lt bs (mix64 h b) (omega arith)

pub fnv1a64-lt : (bs : List ℕ) → fnv1a64 bs < 2 ^ 64
unfolding fnv1a64
fnv1a64-lt bs = fold64-lt bs 0xcbf29ce484222325 (omega arith)
