-- ===== src/RowCache/Index/Circle.antt =====
-- Distances on the circle of index positions.
use native.Mathlib.Nat.{mod-eq_of_lt, mod-eq-sub-mod}
use sub0tiered_cache.Base.{
  ℕ, ◌+◌, ◌-◌, ◌%◌, ◌≤◌, ◌<◌, ◌≡◌, ◌≢◌, ◌∙◌, ◌⊎◌, inl, inr, arith, dec_lt, ℕ_discrete,
}
use sub0tiered_cache.RowCache.Index.{next, distance}

-- Reduction of a number below twice the modulus.
mod_cases : (m a : ℕ) → a < m + m → ((a < m) × (a % m ≡ a)) ⊎ ((m ≤ a) × (a % m ≡ a - m))
mod_cases m a h = elim (dec_lt a m) [
  | yes below ↦ inl (below, mod-eq_of_lt below)
  | no above ↦
      inr
        (omega arith, mod-eq-sub-mod (omega arith) ∙ mod-eq_of_lt {n = a - m} {m = m} (omega arith))
]

pub distance_cases :
    (size a b : ℕ)
    → a < size
    → b < size
    → ((a ≤ b) × (distance size a b + a ≡ b)) ⊎ ((b < a) × (distance size a b + a ≡ b + size))
unfolding distance
distance_cases size a b h k = elim (mod_cases size (b + size - a) (omega arith)) [
  | inl (below, e) ↦ inr (omega arith, omega arith)
  | inr (above, e) ↦ inl (omega arith, omega arith)
]

pub next_cases :
    (size a : ℕ)
    → a < size
    → ((a + 1 < size) × (next size a ≡ a + 1)) ⊎ ((a + 1 ≡ size) × (next size a ≡ 0))
unfolding next
next_cases size a h = elim (mod_cases size (a + 1) (omega arith)) [
  | inl (below, e) ↦ inl (below, e)
  | inr (above, e) ↦ inr (omega arith, omega arith)
]

module _ (size : ℕ) where
  pub next-lt : (a : ℕ) → a < size → next size a < size
  next-lt a h = omega (arith, next_cases size a h)

  pub distance-lt : (a b : ℕ) → a < size → b < size → distance size a b < size
  distance-lt a b h k = omega (arith, distance_cases size a b h k)

  pub distance_self : (a : ℕ) → a < size → distance size a a ≡ 0
  distance_self a h = omega (arith, distance_cases size a a h h)

  pub eq_of_distance-zero : (a b : ℕ) → a < size → b < size → distance size a b ≡ 0 → a ≡ b
  eq_of_distance-zero a b h k z = omega (arith, distance_cases size a b h k)

  -- One position is at one distance.
  pub distance_injective :
      (a b c : ℕ) → a < size → b < size → c < size → distance size a b ≡ distance size a c → b ≡ c
  distance_injective a b c h k l e =
      omega (arith, distance_cases size a b h k, distance_cases size a c h l)

  -- By way of `b` the distance is the same, or a full turn more.
  pub distance_via :
      (a b c : ℕ)
      → a < size
      → b < size
      → c < size
      → (distance size a b + distance size b c ≡ distance size a c)
        ⊎ (distance size a b + distance size b c ≡ distance size a c + size)
  distance_via a b c h k l =
      omega (
        arith,
        distance_cases size a b h k,
        distance_cases size b c k l,
        distance_cases size a c h l,
      )

  -- A step nearer.
  pub distance-next :
      (a b : ℕ)
      → a < size
      → b < size
      → a ≢ b
      → distance size a b ≡ distance size (next size a) b + 1
  distance-next a b h k ne = omega (
    arith,
    next_cases size a h,
    distance_cases size a b h k,
    distance_cases size (next size a) b (next-lt a h) k,
  )

  -- A step further.
  pub distance_to_next :
      (a b : ℕ)
      → a < size
      → b < size
      → (distance size a (next size b) ≡ distance size a b + 1) ⊎ (next size b ≡ a)
  distance_to_next a b h k = elim (next_cases size b k) [
    | inl n ↦
        omega
          (arith, distance_cases size a b h k, distance_cases size a (next size b) h (next-lt b k))
    | inr n ↦
        omega
          (arith, distance_cases size a b h k, distance_cases size a (next size b) h (next-lt b k))
  ]

  -- What is nearer than `c`, counted from the next position, is so counted from this one.
  pub nearer :
      (a b c : ℕ)
      → a < size
      → b < size
      → c < size
      → a ≢ c
      → distance size (next size a) b < distance size (next size a) c
      → distance size a b < distance size a c
  nearer a b c h k l ne d = elim (ℕ_discrete a b) [
    | yes e ↦ omega (arith, e, distance_cases size a b h k, distance_cases size a c h l)
    | no e ↦ omega (arith, distance-next a b h k e, distance-next a c h l ne)
  ]

  -- And the other way round.
  pub nearer_next :
      (a b c : ℕ)
      → a < size
      → b < size
      → c < size
      → a ≢ b
      → a ≢ c
      → distance size a b < distance size a c
      → distance size (next size a) b < distance size (next size a) c
  nearer_next a b c h k l ne other d =
      omega (arith, distance-next a b h k ne, distance-next a c h l other)

  -- A step towards `c` from a position before it.
  pub step_ahead :
      (a b c : ℕ)
      → a < size
      → b < size
      → c < size
      → b ≢ c
      → distance size a b ≤ distance size a c
      → (distance size a (next size b) ≡ distance size a b + 1)
        × (distance size a (next size b) ≤ distance size a c)
  step_ahead a b c h k l ne d = elim (distance_to_next a b h k) [
    | inl e ↦ (e, omega (arith, distance_cases size a b h k, distance_cases size a c h l))
    | inr e ↦ absurd (
        omega
          (arith, next_cases size b k, distance_cases size a b h k, distance_cases size a c h l))
  ]

  -- An entry with its home behind `b` is not nearer to it than `b`.
  pub behind :
      (home a b : ℕ)
      → home < size
      → a < size
      → b < size
      → distance size home b < distance size a b
      → distance size home b ≤ distance size home a
  behind home a b h k l d =
      omega (arith, distance_via home a b h k l, distance-lt a b k l, distance-lt home a h k)

  -- One whose home is at least as far reaches `b` by way of `a`.
  pub beyond :
      (home a b : ℕ)
      → home < size
      → a < size
      → b < size
      → distance size a b ≤ distance size home b
      → distance size home a ≤ distance size home b
  beyond home a b h k l d =
      omega (arith, distance_via home a b h k l, distance-lt a b k l, distance-lt home a h k)

  -- What lies between `a` and `c` lies between `home` and `c`, if `a` does.
  pub passes :
      (home a b c : ℕ)
      → home < size
      → a < size
      → b < size
      → c < size
      → distance size home a < distance size home c
      → distance size a b < distance size a c
      → distance size home b < distance size home c
  passes home a b c h k l m d e = omega (
    arith,
    distance_via home a b h k l,
    distance_via home a c h k m,
    distance-lt home a h k,
    distance-lt home b h l,
    distance-lt home c h m,
    distance-lt a c k m,
  )
