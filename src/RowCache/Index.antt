-- ===== src/RowCache/Index.antt =====
-- The row index of a Table: open addressing over (row_index, generation), linear probing, and
-- deletion by shifting back. The loops stand over the number of positions, a test on slots, and
-- the home position of each slot's key. `none` as a result of a loop: its fuel ran out.
pub mod Circle
pub mod Shape
pub mod Find
pub mod Insert
pub mod Erase
use sub0tiered_cache.Base.{
  ℕ, zero, suc, ◌+◌, ◌-◌, ◌*◌, ◌/◌, ◌%◌, ◌^◌, bit_xor, Bool, true, false, Option, none, some,
  update, leb,
}
use sub0tiered_cache.RowCache.Config.{u64_size}

-- `(pos + 1) & mask`; the number of positions is a power of two.
unfoldable pub next : ℕ → ℕ → ℕ
next size pos = (pos + 1) % size

-- `(to - from) & mask`.
unfoldable pub distance : ℕ → ℕ → ℕ → ℕ
distance size from to = (to + size - from) % size

-- `index_home`, with the arithmetic of uint64_t; the index has 2 ^ bits positions.
unfoldable pub index_home : ℕ → ℕ → ℕ → ℕ
index_home bits row_index generation =
    let h₁ = (row_index + 0x9E3779B97F4A7C15) % u64_size in
    let h₂ = bit_xor h₁ (h₁ / 2 ^ 30) * 0xBF58476D1CE4E5B9 % u64_size in
    let h₃ = bit_xor h₂ ((generation + 0x9E3779B97F4A7C15) % u64_size) in
    let h₄ = bit_xor h₃ (h₃ / 2 ^ 27) * 0x94D049BB133111EB % u64_size in
    bit_xor h₄ (h₄ / 2 ^ 31) % u64_size / 2 ^ (64 - bits)

-- The loop of `index_find`: the first slot from `pos` on that passes the test, or none at a
-- position that is empty.
unfoldable pub find_from : ℕ → (ℕ → Bool) → (ℕ → Option ℕ) → ℕ → ℕ → Option (Option ℕ)
find_from size matches index zero pos = none
find_from size matches index (suc fuel) pos = elim (index pos) [
  | none ↦ some none
  | some slot ↦ elim (matches slot) [
    | true ↦ some (some slot)
    | false ↦ find_from size matches index fuel (next size pos)
  ]
]

-- The loop of `index_insert`: the first empty position from `pos` on.
unfoldable pub empty_from : ℕ → (ℕ → Option ℕ) → ℕ → ℕ → Option ℕ
empty_from size index zero pos = none
empty_from size index (suc fuel) pos = elim (index pos) [
  | none ↦ some pos
  | some slot ↦ empty_from size index fuel (next size pos)
]

-- The first loop of `index_erase`: the position of a slot that passes the test. At an empty
-- position the source reads out of bounds; this gives `none`.
unfoldable pub hole_from : ℕ → (ℕ → Bool) → (ℕ → Option ℕ) → ℕ → ℕ → Option ℕ
hole_from size matches index zero pos = none
hole_from size matches index (suc fuel) pos = elim (index pos) [
  | none ↦ none
  | some slot ↦ elim (matches slot) [
    | true ↦ some pos
    | false ↦ hole_from size matches index fuel (next size pos)
  ]
]

-- The second loop of `index_erase`, and the write behind it.
unfoldable pub shift_back : ℕ → (ℕ → ℕ) → ℕ → ℕ → ℕ → (ℕ → Option ℕ) → Option (ℕ → Option ℕ)
shift_back size home zero hole pos index = none
shift_back size home (suc fuel) hole pos index = elim (index pos) [
  | none ↦ some (update index hole none)
  | some slot ↦ elim (leb (distance size hole pos) (distance size (home slot) pos)) [
    | true ↦ shift_back size home fuel pos (next size pos) (update index hole (some slot))
    | false ↦ shift_back size home fuel hole (next size pos) index
  ]
]
