-- ===== src/Codec.antt =====
-- include/sub0tieredcache/codec.hpp: the widening of a row of bf16 to f32, on a little-endian
-- machine. A byte is a number below 256.
use sub0tiered_cache.Base.{
  ℕ, ◌+◌, ◌*◌, ◌/◌, ◌%◌, ◌^◌, ◌<◌, ◌≡◌, refl, sym, ap, ◌∙◌, arith, not, ◌||◌, Option, none, some,
  List, [], ◌∷◌, length, map, ◌==◌, if◌then◌else◌,
}
use sub0tiered_cache.RowCache.Config.{u32_size}

-- `bits << 16`, in uint32_t.
unfoldable pub bf16_bits_to_f32_bits : ℕ → ℕ
bf16_bits_to_f32_bits bits = bits * 2 ^ 16 % u32_size

-- The bytes of a word of 32 bits, the low one first.
abbrev pub bytes32 : ℕ → List ℕ → List ℕ
bytes32 w rest = w % 256 ∷ w / 256 % 256 ∷ w / 65536 % 256 ∷ w / 16777216 % 256 ∷ rest

-- The loop over the elements.
unfoldable pub widen : List ℕ → List ℕ
widen [] = []
widen (low ∷ []) = []
widen (low ∷ high ∷ rest) = bytes32 (bf16_bits_to_f32_bits (low + 256 * high)) (widen rest)

-- The output of `Bf16ToF32Codec::convert` for an output of the size given, or none if it fails.
unfoldable pub convert : List ℕ → ℕ → Option (List ℕ)
convert source size =
    if not (size == length source * 2) || not (length source % 2 == 0)
    then none
    else some (widen source)

-- The words that the bytes spell, of 16 and of 32 bits.
abbrev pub words16 : List ℕ → List ℕ
words16 [] = []
words16 (low ∷ []) = []
words16 (low ∷ high ∷ rest) = (low + 256 * high) ∷ words16 rest

abbrev pub words32 : List ℕ → List ℕ
words32 (a ∷ b ∷ c ∷ d ∷ rest) = (a + 256 * b + 65536 * c + 16777216 * d) ∷ words32 rest
words32 _ = []

word-bytes32 : (w : ℕ) (rest : List ℕ) → w < u32_size → words32 (bytes32 w rest) ≡ w ∷ words32 rest
word-bytes32 w rest h = ap (λ (x : ℕ). x ∷ words32 rest) (omega arith)

narrow32 : (bits : ℕ) → bf16_bits_to_f32_bits bits < u32_size
unfolding bf16_bits_to_f32_bits
narrow32 bits = omega arith

widen-words :
    (source : List ℕ) → words32 (widen source) ≡ map bf16_bits_to_f32_bits (words16 source)
unfolding widen
widen-words [] = refl
widen-words (low ∷ []) = refl
widen-words (low ∷ high ∷ rest) =
    word-bytes32 (bf16_bits_to_f32_bits (low + 256 * high)) (widen rest)
      (narrow32 (low + 256 * high))
    ∙ ap (λ (x : List ℕ). bf16_bits_to_f32_bits (low + 256 * high) ∷ x) (widen-words rest)

length-widen : (source : List ℕ) → length source % 2 ≡ 0 → length (widen source) ≡ length source * 2
unfolding widen
length-widen [] h = refl
length-widen (low ∷ []) h = absurd (omega arith)
length-widen (low ∷ high ∷ rest) h = omega (arith, length-widen rest (omega arith))

converted :
    (source : List ℕ) (size : ℕ) (output : List ℕ)
    → convert source size ≡ some output
    → (length source % 2 ≡ 0) × (size ≡ length source * 2) × (output ≡ widen source)
unfolding convert
converted source size output e = ground arith

-- A conversion that succeeds fills the output, and its words of 32 bits are those of 16 bits of the
-- source, each shifted to the high half.
pub convert-words :
    (source : List ℕ) (size : ℕ) (output : List ℕ)
    → convert source size ≡ some output
    → (length output ≡ size) × (words32 output ≡ map bf16_bits_to_f32_bits (words16 source))
unfolding convert
convert-words source size output e =
    let (even, double, same) = converted source size output e in
    (ap length same ∙ length-widen source even ∙ sym double, ap words32 same ∙ widen-words source)

-- No bit of a word of 16 bits is lost: the high half of what it is widened to is the word, and the
-- low half is 0.
pub bf16_bits_to_f32_bits_halves :
    (bits : ℕ)
    → bits < 2 ^ 16
    → (bf16_bits_to_f32_bits bits / 2 ^ 16 ≡ bits) × (bf16_bits_to_f32_bits bits % 2 ^ 16 ≡ 0)
unfolding bf16_bits_to_f32_bits
bf16_bits_to_f32_bits_halves bits h = (omega arith, omega arith)
