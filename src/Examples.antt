-- ===== src/Examples.antt =====
-- The theorems on include/sub0tieredcache/local_file_source.hpp, include/sub0tieredcache/codec.hpp
-- and the registry of tables, at work on small data.
use sub0tiered_cache.Base.{
  ℕ, ◌+◌, ◌*◌, ◌/◌, ◌%◌, ◌^◌, ◌≤◌, ◌<◌, ◌≡◌, refl, arith, zero, suc, true, false, some, List, [],
  ◌∷◌, length, map,
}
use sub0tiered_cache.Status.{MempageStatus}
use sub0tiered_cache.RowCache.Config.{value, RowLocation, ShardSource}
use sub0tiered_cache.Remote
use sub0tiered_cache.Remote.{is_transient, fetch_range, fetch_range_first, fetch_range_exhausted}
use sub0tiered_cache.FlatFile.{
  FlatFileResolver, resolve_extent, register_local_file_shard, resolve_extent-disjoint,
}
use sub0tiered_cache.Codec.{
  bf16_bits_to_f32_bits, widen, convert, words16, words32, convert-words,
  bf16_bits_to_f32_bits_halves,
}

-- Three shards of four rows of six bytes, each row at a multiple of eight.
abbrev padded : FlatFileResolver
padded = record {
  row_count = 10;
  rows_per_shard = 4;
  row_stride = 8;
  row_width = 6;
  base_offset = 16;
}

abbrev fifth : RowLocation
fifth = record { shard = 1; range = record { offset = 24; length = 6 } }

abbrev seventh : RowLocation
seventh = record { shard = 1; range = record { offset = 40; length = 6 } }

fifth-resolves : resolve_extent padded 5 ≡ value fifth
unfolding resolve_extent
fifth-resolves = refl

seventh-resolves : resolve_extent padded 7 ≡ value seventh
unfolding resolve_extent
seventh-resolves = refl

resolve_extent-disjoint_example : (24 + 6 ≤ 40) × (40 + 6 ≤ 16 + 4 * 8)
resolve_extent-disjoint_example =
    resolve_extent-disjoint padded (omega arith) (omega arith) 5 7 fifth seventh fifth-resolves
      seventh-resolves refl (omega arith)

abbrev shard_three : ShardSource
shard_three = record { source = 3; bytes = 64 }

shard-registers : register_local_file_shard MempageStatus.ok 3 64 ≡ value shard_three
unfolding register_local_file_shard
shard-registers = refl

-- The numbers 1.0 and 2.0.
abbrev one_two : List ℕ
one_two = 128 ∷ 63 ∷ 0 ∷ 64 ∷ []

abbrev one_two_wide : List ℕ
one_two_wide = 0 ∷ 0 ∷ 128 ∷ 63 ∷ 0 ∷ 0 ∷ 0 ∷ 64 ∷ []

one_two-converts : convert one_two 8 ≡ some one_two_wide
unfolding convert widen bf16_bits_to_f32_bits
one_two-converts = refl

convert-words_example :
    (length one_two_wide ≡ 8) × (words32 one_two_wide ≡ map bf16_bits_to_f32_bits (words16 one_two))
convert-words_example = convert-words one_two 8 one_two_wide one_two-converts

bf16_bits_to_f32_bits_halves_example :
    (bf16_bits_to_f32_bits 16256 / 2 ^ 16 ≡ 16256) × (bf16_bits_to_f32_bits 16256 % 2 ^ 16 ≡ 0)
bf16_bits_to_f32_bits_halves_example = bf16_bits_to_f32_bits_halves 16256 (omega arith)

-- Two attempts that time out, and a third that succeeds.
abbrev third_time : ℕ → Remote.Status
third_time zero = Remote.Status.timeout
third_time (suc zero) = Remote.Status.timeout
third_time _ = Remote.Status.ok

timed_out : (j : ℕ) → j < 2 → is_transient (third_time j) ≡ true
unfolding is_transient
timed_out zero h = refl
timed_out (suc zero) h = refl
timed_out (suc (suc j)) h = absurd (omega arith)

third_succeeds : is_transient (third_time 2) ≡ false
unfolding is_transient
third_succeeds = refl

fetch_range_first_example :
    fetch_range true 16 16 3 third_time ≡ record { status = Remote.Status.ok; retries = 2 }
fetch_range_first_example =
    fetch_range_first third_time 16 3 (omega arith) 2 (omega arith) timed_out third_succeeds

abbrev never : ℕ → Remote.Status
never j = Remote.Status.server_error

always_down : (j : ℕ) → j ≤ 3 → is_transient (never j) ≡ true
unfolding is_transient
always_down j h = refl

fetch_range_exhausted_example :
    fetch_range true 16 16 3 never
    ≡ record { status = Remote.Status.retries_exhausted; retries = 3 }
fetch_range_exhausted_example =
    fetch_range_exhausted never 16 3 (omega arith) (omega arith) always_down
