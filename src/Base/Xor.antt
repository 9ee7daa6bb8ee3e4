-- ===== src/Base/Xor.antt =====
-- The bitwise exclusive or, bit by bit.
use Prim.Native.Nat.{
  ℕ, zero, suc, ◌+◌, ◌*◌, ◌/◌, ◌%◌, ◌^◌, ◌≤◌, ◌<◌, bit_xor, digits, differ, bit_xor-bitwise,
}
use mathlib.Core.Path.{◌≡◌, refl, sym, ap, ◌∙◌}
use native.Mathlib.Omega.{arith}

-- The law for the lowest digit, from the definition that the native operation stands for.
abbrev xor_digits : ℕ → ℕ → ℕ → ℕ
xor_digits n a b = digits (λ b. b) differ n a b

xor_digits_fuel : (n m a b : ℕ) → a ≤ n → a ≤ m → xor_digits n a b ≡ xor_digits m a b
xor_digits_fuel zero zero a b p q = refl
xor_digits_fuel zero (suc m) zero b p q = refl
xor_digits_fuel zero (suc m) (suc a) b p q = absurd (omega arith)
xor_digits_fuel (suc n) zero zero b p q = refl
xor_digits_fuel (suc n) zero (suc a) b p q = absurd (omega arith)
xor_digits_fuel (suc n) (suc m) zero b p q = refl
xor_digits_fuel (suc n) (suc m) (suc a) b p q =
    omega (arith, xor_digits_fuel n m (suc a / 2) (b / 2) (omega arith) (omega arith))

zero-bit_xor : (b : ℕ) → bit_xor 0 b ≡ b
zero-bit_xor b = bit_xor-bitwise 0 b

differ_digits : (x y : ℕ) → x < 2 → y < 2 → differ x y ≡ (x + y) % 2
differ_digits zero y p q = omega (arith, q)
differ_digits (suc zero) zero p q = refl
differ_digits (suc zero) (suc zero) p q = refl
differ_digits (suc zero) (suc (suc y)) p q = absurd (omega (arith, q))
differ_digits (suc (suc x)) y p q = absurd (omega (arith, p))

pub bit_xor_step : (a b : ℕ) → bit_xor a b ≡ bit_xor (a / 2) (b / 2) * 2 + (a % 2 + b % 2) % 2
bit_xor_step zero b = omega (arith, zero-bit_xor b, zero-bit_xor (b / 2))
bit_xor_step (suc a) b =
    let half = (suc a / 2) in
    let below : half ≤ a = omega arith in
    omega (
      arith,
      differ_digits (suc a % 2) (b % 2) (omega arith) (omega arith),
      bit_xor-bitwise half (b / 2),
      xor_digits_fuel a half half (b / 2) below (omega arith),
      bit_xor-bitwise (suc a) b,
    )

undone_fuel : (n a b : ℕ) → a ≤ n → b ≤ n → bit_xor (bit_xor a b) b ≡ a
undone_fuel zero zero zero p q = refl
undone_fuel zero zero (suc b) p q = absurd (omega (arith, q))
undone_fuel zero (suc a) b p q = absurd (omega (arith, p))
undone_fuel (suc n) a b p q =
    let half : bit_xor a b / 2 ≡ bit_xor (a / 2) (b / 2) = omega (arith, bit_xor_step a b) in
    omega (
      arith,
      bit_xor_step a b,
      bit_xor_step (bit_xor a b) b,
      ap (λ (x : ℕ). bit_xor x (b / 2)) half,
      undone_fuel n (a / 2) (b / 2) (omega (arith, p)) (omega (arith, q)),
    )

-- A second exclusive or with the same number undoes the first.
pub bit_xor_undone : (a b : ℕ) → bit_xor (bit_xor a b) b ≡ a
bit_xor_undone a b = undone_fuel (a + b) a b (omega arith) (omega arith)

pub bit_xor_self : (a : ℕ) → bit_xor a a ≡ 0
bit_xor_self a = ap (λ (x : ℕ). bit_xor x a) (sym (zero-bit_xor a)) ∙ bit_xor_undone 0 a

commutes_fuel : (n a b : ℕ) → a ≤ n → b ≤ n → bit_xor a b ≡ bit_xor b a
commutes_fuel zero zero zero p q = refl
commutes_fuel zero zero (suc b) p q = absurd (omega (arith, q))
commutes_fuel zero (suc a) b p q = absurd (omega (arith, p))
commutes_fuel (suc n) a b p q = omega (
  arith,
  bit_xor_step a b,
  bit_xor_step b a,
  commutes_fuel n (a / 2) (b / 2) (omega (arith, p)) (omega (arith, q)),
)

pub bit_xor_comm : (a b : ℕ) → bit_xor a b ≡ bit_xor b a
bit_xor_comm a b = commutes_fuel (a + b) a b (omega arith) (omega arith)

-- The exclusive or has no more digits than the longer number.
pub bit_xor_lt : (k a b : ℕ) → a < 2 ^ k → b < 2 ^ k → bit_xor a b < 2 ^ k
bit_xor_lt zero a b p q =
    let za : a ≡ 0 = omega (arith, p) in
    let zb : b ≡ 0 = omega (arith, q) in rw (za, zb) (omega arith)
bit_xor_lt (suc k) a b p q =
    omega
      (arith, bit_xor_step a b, bit_xor_lt k (a / 2) (b / 2) (omega (arith, p)) (omega (arith, q)))
