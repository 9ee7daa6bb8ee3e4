-- ===== src/Remote/Mirror/Copied.antt =====
-- What the round of a chunk copies to the caller.
use native.Mathlib.Nat.{div-mul-le_self, le-div_iff_mul-le}
use sub0tiered_cache.Base.{
  ℕ, ◌+◌, ◌-◌, ◌*◌, ◌/◌, ◌≤◌, ◌<◌, ◌≡◌, refl, ap, ◌∙◌, arith, ◌&&◌, List, min, max, ltb, leb,
  ltb→lt, ltb→le, Bool-cases, inl, inr,
}
use sub0tiered_cache.Remote.Mirror.{
  Mirror, Memory, byte_at, copy, range_start, range_end, copy_round,
}

pub div_mono : (x y c : ℕ) → 0 < c → x ≤ y → x / c ≤ y / c
div_mono x y c p h = (le-div_iff_mul-le p).1 (omega (arith, div-mul-le_self x c, h))

module _ (content : ℕ → ℕ) (offset length cs total : ℕ) (dest0 : Memory) where
  -- The first bytes of the range are there, and what is behind the range is as it was.
  pub record Copied (i : ℕ) (dest : Memory) (written : ℕ) : Type 0 where
    pub count : written ≡ min (offset + length) (i * cs) - offset
    pub done : (j : ℕ) → j < written → dest j ≡ content (offset + j)
    pub kept : (j : ℕ) → length ≤ j → dest j ≡ dest0 j

  next_round : (i : ℕ) → (i + 1) * cs ≡ i * cs + cs
  next_round i = omega arith

  -- A round's range, in numbers.
  round_count :
      (s start end : ℕ)
      → 0 < cs
      → 0 < length
      → offset + length ≤ total
      → start ≡ max offset s
      → end ≡ min (offset + length) (s + min cs (total - s))
      → start < end
      → min (offset + length) s - offset + (end - start) ≡ min (offset + length) (s + cs) - offset
  round_count s start end p q r e f h = omega (arith, p, q, r, e, f, h)

  idle_count :
      (s : ℕ)
      → 0 < cs
      → 0 < length
      → offset + length ≤ total
      → min (offset + length) (s + min cs (total - s)) ≤ max offset s
      → min (offset + length) s - offset ≡ min (offset + length) (s + cs) - offset
  idle_count s p q r h = omega (arith, p, q, r, h)

  module _ (m : Mirror) (i : ℕ) (buffer : List ℕ) (dest : Memory) (written : ℕ)
      (size : m.store.chunk_size ≡ cs) (all : m.source.validator.total_size ≡ total) (pos : 0 < cs)
      (asked : 0 < length) (inside : offset + length ≤ total)
      (exact : (k : ℕ)
        → k < min cs (total - i * cs)
        → byte_at buffer k ≡ content (i * cs + k)) where
    start_of : range_start offset length m i ≡ max offset (i * cs)
    start_of = ap (λ (c : ℕ). max offset (i * c)) size

    end_of : range_end offset length m i ≡ min (offset + length) (i * cs + min cs (total - i * cs))
    end_of = rw (size, all) refl

    Copied-here :
        (start end : ℕ)
        → start ≡ max offset (i * cs)
        → end ≡ min (offset + length) (i * cs + min cs (total - i * cs))
        → start < end
        → Copied i dest written
        → (j : ℕ) → j < written + (end - start)
        → copy dest (start - offset) buffer (start - i * cs) (end - start) j ≡ content (offset + j)
    Copied-here start end e f h v j q =
        elim (Bool-cases (leb (start - offset) j && ltb j (start - offset + (end - start)))) [
          | inl g ↦ rw g (
              exact (start - i * cs + (j - (start - offset))) (ground (arith, e, f, h, g, inside))
              ∙ ap content (ground (arith, e, f, h, g)))
          | inr g ↦ rw g (v.done j (ground (arith, e, f, h, g, q, v.count)))
        ]

    Copied-behind :
        (start end : ℕ)
        → start ≡ max offset (i * cs)
        → end ≡ min (offset + length) (i * cs + min cs (total - i * cs))
        → start < end
        → Copied i dest written
        → (j : ℕ) → length ≤ j
        → copy dest (start - offset) buffer (start - i * cs) (end - start) j ≡ dest0 j
    Copied-behind start end e f h v j q =
        elim (Bool-cases (leb (start - offset) j && ltb j (start - offset + (end - start)))) [
          | inl g ↦ absurd (ground (arith, e, f, h, g, q))
          | inr g ↦ rw g (v.kept j q)
        ]

    pub copy_round-Copied :
        Copied i dest written
        → (let (d, w) = copy_round offset length m i buffer dest written in Copied (i + 1) d w)
    unfolding copy_round
    copy_round-Copied v =
        elim (Bool-cases (ltb (range_start offset length m i) (range_end offset length m i))) [
          | inl e ↦
              let h = ltb→lt (range_start offset length m i) (range_end offset length m i) e in
              rw e (record {
                count = omega (
                  arith,
                  v.count,
                  next_round i,
                  round_count (i * cs) _ _ pos asked inside start_of end_of h,
                );
                done =
                    rw (size, all)
                      (Copied-here _ _ refl refl (omega (arith, h, start_of, end_of)) v);
                kept =
                    rw (size, all)
                      (Copied-behind _ _ refl refl (omega (arith, h, start_of, end_of)) v);
              })
          | inr e ↦
              let h = ltb→le (range_start offset length m i) (range_end offset length m i) e in
              rw e (record {
                count = omega (
                  arith,
                  v.count,
                  next_round i,
                  idle_count (i * cs) pos asked inside (omega (arith, h, start_of, end_of)),
                );
                done = v.done;
                kept = v.kept;
              })
        ]
