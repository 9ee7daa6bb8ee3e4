-- ===== src/FlatFile.antt =====
-- include/sub0tieredcache/local_file_source.hpp: where the rows of flat files stand, and the
-- registration of a file. What the backend and the file system answer are arguments.
use sub0tiered_cache.Base.{
  ℕ, ◌+◌, ◌*◌, ◌/◌, ◌%◌, ◌≤◌, ◌<◌, ◌≡◌, ◌≢◌, sym, ap, subst, ◌∙◌, arith, ◌||◌, Option, none, some,
  ltb, leb, ◌==◌, if◌then◌else◌, Zero-cases, inl, inr,
}
use native.Mathlib.Nat.{mod-lt, suc-mul, mul-le-mul_right, div-add-mod}
use sub0tiered_cache.Status.{Status, MempageStatus}
use sub0tiered_cache.RowCache.Config.{
  Result, value, unexpected, RowLocation, RowExtentResolver, ShardSource, u64_size, none_slot,
}

pub record FlatFileResolver : Type 0 where
  pub row_count : ℕ
  pub rows_per_shard : ℕ
  pub row_stride : ℕ
  pub row_width : ℕ
  pub base_offset : ℕ

-- With the arithmetic of uint64_t.
unfoldable pub resolve_extent : FlatFileResolver → RowExtentResolver
resolve_extent r row =
    if leb r.row_count row || r.rows_per_shard == 0
    then unexpected Status.out_of_range
    else if ltb none_slot (row / r.rows_per_shard)
    then unexpected Status.out_of_range
    else value (record {
      shard = row / r.rows_per_shard;
      range = record {
        offset = (r.base_offset + row % r.rows_per_shard * r.row_stride) % u64_size;
        length = r.row_width;
      };
    })

-- `answer` is that of `LocalFileBackend::register_file`.
unfoldable pub register_local_file_shard : MempageStatus → ℕ → ℕ → Result ShardSource
register_local_file_shard MempageStatus.ok source bytes =
    value (record { source = source; bytes = bytes })
register_local_file_shard MempageStatus.invalid_argument source bytes =
    unexpected Status.invalid_argument
register_local_file_shard MempageStatus.ticket_exhausted source bytes =
    unexpected Status.ticket_exhausted
register_local_file_shard answer source bytes = unexpected Status.io_error

-- The overload that asks the file system for the size: none where it has none to give.
unfoldable pub register_sized_shard : MempageStatus → ℕ → Option ℕ → Result ShardSource
register_sized_shard answer source none = unexpected Status.io_error
register_sized_shard answer source (some bytes) = register_local_file_shard answer source bytes

module _ (r : FlatFileResolver) (fits : r.base_offset + r.rows_per_shard * r.row_stride ≤ u64_size)
    (narrow : r.row_width ≤ r.row_stride) where
  spaced : (j k : ℕ) → j < k → j * r.row_stride + r.row_stride ≤ k * r.row_stride
  spaced j k h =
      subst (λ (x : ℕ). x ≤ k * r.row_stride) (suc-mul j r.row_stride)
        (mul-le-mul_right r.row_stride (omega (arith, h)))

  inside : (row : ℕ) → r.rows_per_shard ≢ 0 → row % r.rows_per_shard < r.rows_per_shard
  inside row some_rows = mod-lt row (omega (arith, some_rows))

  -- The place of a row that resolves, with no wrap-around.
  located :
      (row : ℕ) (a : RowLocation)
      → resolve_extent r row ≡ value a
      → (r.rows_per_shard ≢ 0)
        × (a.shard ≡ row / r.rows_per_shard)
        × (a.range.length ≡ r.row_width)
        × (a.range.offset ≡ (r.base_offset + row % r.rows_per_shard * r.row_stride) % u64_size)
  unfolding resolve_extent
  located row a e = ground arith

  -- Where a shard fits in 64 bits and a row in its stride, two rows of one shard do not overlap,
  -- and both stand inside the shard.
  pub resolve_extent-disjoint :
      (row row' : ℕ) (a b : RowLocation)
      → resolve_extent r row ≡ value a
      → resolve_extent r row' ≡ value b
      → a.shard ≡ b.shard
      → row < row'
      → (a.range.offset + a.range.length ≤ b.range.offset)
        × (b.range.offset + b.range.length ≤ r.base_offset + r.rows_per_shard * r.row_stride)
  resolve_extent-disjoint row row' a b e f same h =
      let (some_rows, shard, wide, offset) = located row a e in
      let (_, shard', wide', offset') = located row' b f in
      let quotient : row / r.rows_per_shard ≡ row' / r.rows_per_shard = sym shard ∙ same ∙ shard' in
      let order : row % r.rows_per_shard < row' % r.rows_per_shard = omega (
        arith,
        h,
        div-add-mod row r.rows_per_shard,
        div-add-mod row' r.rows_per_shard,
        ap (λ (q : ℕ). r.rows_per_shard * q) quotient,
      ) in
      let first = spaced (row % r.rows_per_shard) (row' % r.rows_per_shard) order in
      let last = spaced (row' % r.rows_per_shard) r.rows_per_shard (inside row' some_rows) in
      let still = λ (e : r.row_stride ≡ 0). ap (λ (x : ℕ). r.rows_per_shard * x) e in
      elim (Zero-cases r.row_stride) [
        | inl e ↦ (
          omega (arith, first, last, still e, fits, narrow, wide, offset, offset'),
          omega (arith, first, last, still e, fits, narrow, wide', offset'),
        )
        | inr wide_stride ↦ (
          omega (arith, wide_stride, first, last, fits, narrow, wide, offset, offset'),
          omega (arith, wide_stride, last, fits, narrow, wide', offset'),
        )
      ]
