-- ===== src/RowCache/Fill/Window.antt =====
-- What a fill reads: the row, or the aligned window around it.
use native.Mathlib.Nat.{div-add-mod', mod-lt}
use sub0tiered_cache.Base.{
  ℕ, ◌+◌, ◌-◌, ◌*◌, ◌/◌, ◌%◌, ◌≤◌, ◌<◌, ◌==◌, ◌≡◌, arith, inl, inr, Bool-cases,
}
use sub0tiered_cache.RowCache.Config.{TableConfig, ByteRange, ShardSource, u64_size}
use sub0tiered_cache.RowCache.Fill.{fill_window}

-- A multiple of the alignment at or below, and one at or above.
floor-le : (x a : ℕ) → x / a * a ≤ x
floor-le x a = omega (arith, div-add-mod' x a)

le-ceil : (y x a : ℕ) → 0 < a → x + 1 ≡ y + a → y ≤ x / a * a
le-ceil y x a some e = omega (arith, div-add-mod' x a, mod-lt x some)

unwrapped : (y a : ℕ) → 0 < a → y + a ≤ u64_size → (y + a + u64_size - 1) % u64_size + 1 ≡ y + a
unwrapped y a some h = omega arith

module _ (c : TableConfig) (shard : ShardSource) (range : ByteRange)
    (within : range.offset + range.length ≤ shard.bytes) (small : shard.bytes < u64_size)
    (low : range.offset + range.length + c.fill_alignment ≤ u64_size) where
  -- A row inside its shard, whose end is at least the alignment away from 2 ^ 64, is read as a
  -- whole: the window starts at or before it and ends at or behind it, inside the shard, and the
  -- head is where the row starts in the window.
  pub fill_window_covers :
      (let (fill, head) = fill_window c shard range in
        (fill.offset + head ≡ range.offset)
        × (range.offset + range.length ≤ fill.offset + fill.length)
        × (fill.offset + fill.length ≤ shard.bytes))
  unfolding fill_window
  fill_window_covers = elim (Bool-cases (c.fill_alignment == 0)) [
    | inl e ↦ rw (e, fill_window) (omega arith, omega arith, within)
    | inr e ↦
        let aligned : 0 < c.fill_alignment = ground arith in
        let x = (range.offset + range.length + c.fill_alignment + u64_size - 1) % u64_size in
        let first = floor-le range.offset c.fill_alignment in
        let last =
          le-ceil (range.offset + range.length) x c.fill_alignment aligned
            (unwrapped (range.offset + range.length) c.fill_alignment aligned low) in
        rw (e, fill_window)
          (
            omega (arith, first),
            omega (arith, first, last, within, small),
            omega (arith, first, last, within, small),
          )
  ]
