-- ===== src/Base/Array.antt =====
-- Vectors of a fixed size, as functions of the index, with their sums.
use Prim.Native.Nat.{ℕ, zero, suc, ◌+◌, ◌≤◌, ◌<◌}
use mathlib.Core.Path.{◌≡◌, refl}
use mathlib.Core.Logic.{◌≢◌, ◌⊎◌, inl, inr}
use native.Mathlib.Omega.{arith}
use native.Mathlib.Decide.{ℕ_discrete}
use sub0tiered_cache.Base.Tests.{◌==◌, if◌then◌else◌}

pub Zero-cases : (n : ℕ) → (n ≡ 0) ⊎ (0 < n)
Zero-cases zero = inl refl
Zero-cases (suc n) = inr (omega arith)

module _ {ℓ} {A : Type ℓ} where
  -- The vector with the element at `i` replaced.
  abbrev pub update : (ℕ → A) → ℕ → A → ℕ → A
  update f i v j = if j == i then v else f j

  pub update_self : (f : ℕ → A) (i : ℕ) (v : A) → update f i v i ≡ v
  update_self f i v = ground arith

  pub update_ne : (f : ℕ → A) (i : ℕ) (v : A) (j : ℕ) → j ≢ i → update f i v j ≡ f j
  update_ne f i v j h = ground arith

  pub update_cases :
      (f : ℕ → A) (i : ℕ) (v : A) (j : ℕ)
      → ((j ≡ i) × (update f i v j ≡ v)) ⊎ ((j ≢ i) × (update f i v j ≡ f j))
  update_cases f i v j = elim (ℕ_discrete j i) [
    | yes e ↦ inl (e, ground arith)
    | no e ↦ inr (e, update_ne f i v j e)
  ]

  -- The sum of a weight over the first `n` elements.
  pub total : ℕ → (A → ℕ) → (ℕ → A) → ℕ
  total zero w f = 0
  total (suc n) w f = w (f n) + total n w f

  total-update_above :
      (n : ℕ) (w : A → ℕ) (f : ℕ → A) (i : ℕ) (v : A)
      → n ≤ i
      → total n w (update f i v) ≡ total n w f
  unfolding total
  total-update_above zero w f i v h = refl
  total-update_above (suc n) w f i v h = ground (arith, total-update_above n w f i v)

  -- Replacing one element moves the sum by the difference of the two weights.
  pub total-update :
      (n : ℕ) (w : A → ℕ) (f : ℕ → A) (i : ℕ) (v : A)
      → i < n
      → total n w (update f i v) + w (f i) ≡ total n w f + w v
  unfolding total
  total-update zero w f i v h = absurd (omega arith)
  total-update (suc n) w f i v h =
      ground (arith, total-update_above n w f i v, total-update n w f i v)

  pub total_congr :
      (n : ℕ) (w : A → ℕ) (f g : ℕ → A) → ((i : ℕ) → w (f i) ≡ w (g i)) → total n w f ≡ total n w g
  unfolding total
  total_congr zero w f g h = refl
  total_congr (suc n) w f g h = omega (arith, h n, total_congr n w f g h)

  -- One element weighs at most the whole.
  pub le-total : (n : ℕ) (w : A → ℕ) (f : ℕ → A) (i : ℕ) → i < n → w (f i) ≤ total n w f
  unfolding total
  le-total zero w f i h = absurd (omega arith)
  le-total (suc n) w f i h = ground (arith, le-total n w f i)

  pub total-eq-zero : (n : ℕ) (w : A → ℕ) (f : ℕ → A) → ((i : ℕ) → w (f i) ≡ 0) → total n w f ≡ 0
  unfolding total
  total-eq-zero zero w f h = refl
  total-eq-zero (suc n) w f h = omega (arith, h n, total-eq-zero n w f h)

  pub total-le : (n : ℕ) (w : A → ℕ) (f : ℕ → A) → ((a : A) → w a ≤ 1) → total n w f ≤ n
  unfolding total
  total-le zero w f h = omega arith
  total-le (suc n) w f h = omega (arith, total-le n w f h, h (f n))

  -- A sum of 0/1 weights below `n` leaves an element out.
  pub total_gap :
      (n : ℕ) (w : A → ℕ) (f : ℕ → A)
      → total n w f < n
      → ((a : A) → w a ≤ 1)
      → (i : ℕ) × (i < n) × (w (f i) ≡ 0)
  unfolding total
  total_gap zero w f h b = absurd (omega arith)
  total_gap (suc n) w f h b = elim (Zero-cases (w (f n))) [
    | inl e ↦ (n, omega arith, e)
    | inr p ↦ let (i, below, z) = total_gap n w f (omega arith) b in (i, omega arith, z)
  ]
