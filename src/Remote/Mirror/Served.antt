-- ===== src/Remote/Mirror/Served.antt =====
-- What a range that a mirror serves consists of.
use native.Mathlib.Nat.{div-mul-le_self, lt-div-mul-add}
use sub0tiered_cache.Base.{
  ℕ, zero, suc, ◌+◌, ◌-◌, ◌*◌, ◌/◌, ◌%◌, ◌^◌, ◌≤◌, ◌<◌, ◌≡◌, ◌≢◌, refl, sym, ap, subst, ◌∙◌, arith,
  Bool, true, false, ◌&&◌, ◌||◌, not, Option, none, some, List, [], ◌∷◌, length, min, max, ltb, leb,
  ltb→lt, ltb→le, ◌==◌, ==_iff, if◌then◌else◌, Bool-cases, inl, inr,
}
use sub0tiered_cache.Remote.{Status}
use sub0tiered_cache.Remote.Store.{SourceIdentity}
use sub0tiered_cache.Remote.Mirror.{
  Transport, Others, Mirror, Memory, ReadOutcome, is_ok, zeros, chunk_len_of, copy_round,
  ensure_chunk_local, read_loop, first_chunk, last_chunk, valid, refused, read,
}
use sub0tiered_cache.Remote.Mirror.Faithful.{tile}
use sub0tiered_cache.Remote.Mirror.Ensured.{IsHonest, Mirrors, ensure-Ensures, is_ok-true}
use sub0tiered_cache.Remote.Mirror.Copied.{div_mono, Copied, copy_round-Copied}

module _ (transport : Transport) (others : Others) (source : SourceIdentity) (content : ℕ → ℕ)
    (cs : ℕ) (honest : IsHonest transport others source content cs) (offset length : ℕ)
    (dest0 : Memory) (pos : 0 < cs) (asked : 0 < length)
    (inside : offset + length ≤ source.validator.total_size) where
  abbrev IsCopied : ℕ → Memory → ℕ → Type 0
  IsCopied = Copied content offset length cs source.validator.total_size dest0

  -- What a read leaves: the mirror, and as much of the range as it reports.
  record Served (last : ℕ) (r : Mirror × ReadOutcome × Memory) : Type 0 where
    mirror : Mirrors transport others source content cs honest r.0
    written : (j : ℕ) → j < r.1.bytes → r.2 j ≡ content (offset + j)
    kept : (j : ℕ) → length ≤ j → r.2 j ≡ dest0 j
    whole : r.1.status ≡ Status.ok → r.1.bytes ≡ min (offset + length) (last * cs) - offset

  Served-congr : (k k' : ℕ) (r : Mirror × ReadOutcome × Memory) → k ≡ k' → Served k r → Served k' r
  Served-congr k k' r e s = subst (λ (i : ℕ). Served i r) e s

  read_loop-Served :
      (rounds : ℕ) (m : Mirror) (i : ℕ) (buffer : List ℕ) (dest : Memory) (written : ℕ)
      → i + rounds ≤ 2 ^ 32
      → Mirrors transport others source content cs honest m
      → sub0tiered_cache.Base.length buffer ≡ cs
      → IsCopied i dest written
      → Served
          (i + rounds)
          (read_loop transport others offset length rounds m i buffer dest written)
  unfolding read_loop
  read_loop-Served zero m i buffer dest written narrow v l c = record {
    mirror = v;
    written = c.done;
    kept = c.kept;
    whole = λ _. c.count ∙ ap (λ (k : ℕ). min (offset + length) (k * cs) - offset) (omega arith);
  }
  read_loop-Served (suc rounds) m i buffer dest written narrow v l c =
      let chunk : chunk_len_of m i ≡ tile source content cs i = rw (v.faithful.size, v.same) refl in
      let here =
        ensure-Ensures transport others source content cs honest m i buffer (omega (arith, narrow))
          v l in
      rw chunk
        (elim (Bool-cases
          (is_ok (ensure_chunk_local transport others m i (tile source content cs i) buffer).1)) [
            | inl e ↦
                let held =
                  (ensure_chunk_local transport others m i (tile source content cs i) buffer).2 in
                let next = copy_round offset length m i held dest written in
                let ready : IsCopied (i + 1) next.0 next.1 =
                  copy_round-Copied content offset length cs source.validator.total_size dest0 m i
                    held dest written v.faithful.size
                    (ap (λ (x : SourceIdentity). x.validator.total_size) v.same) pos asked inside
                    (here.buffer.exact (is_ok-true _ e)) c in
                let rest =
                  read_loop-Served rounds _ (i + 1) _ _ _ (omega (arith, narrow)) here.mirror
                    here.buffer.size ready in
                rw e (Served-congr (i + 1 + rounds) (i + suc rounds) _ (omega arith) rest)
            | inr e ↦ rw e (record {
              mirror = here.mirror;
              written = c.done;
              kept = c.kept;
              whole = λ ok. absurd (cc (ok, e));
            })
          ])

  length-zeros : (n : ℕ) → sub0tiered_cache.Base.length (zeros n) ≡ n
  length-zeros zero = refl
  length-zeros (suc n) = ap suc (length-zeros n)

  loop-Served :
      (m : Mirror)
      → Mirrors transport others source content cs honest m
      → source.validator.total_size / cs < 2 ^ 32 - 1
      → Served ((offset + length - 1) / cs + 1) (
          read_loop transport others offset length
            (last_chunk offset length m + 1 - first_chunk offset length m)
            m
            (first_chunk offset length m)
            (zeros m.store.chunk_size)
            dest0
            0)
  loop-Served m v narrow =
      let l = (offset + length - 1) / cs in
      let f = offset / cs in
      let f_le_l : f ≤ l = div_mono offset (offset + length - 1) cs pos (omega (arith, asked)) in
      let l_le : l ≤ source.validator.total_size / cs =
        div_mono (offset + length - 1) source.validator.total_size cs pos (omega (arith, inside)) in
      let last_is : last_chunk offset length m ≡ l =
        rw v.faithful.size (omega (arith, l_le, narrow)) in
      let first_is : first_chunk offset length m ≡ f =
        rw v.faithful.size (omega (arith, l_le, narrow, f_le_l)) in
      rw (last_is, first_is)
        (Served-congr (f + (l + 1 - f)) (l + 1) _ (omega (arith, f_le_l)) (
          read_loop-Served (l + 1 - f) m f (zeros m.store.chunk_size) dest0 0
            (omega (arith, l_le, narrow, f_le_l)) v
            (length-zeros m.store.chunk_size ∙ v.faithful.size)
            (record {
              count = omega (arith, div-mul-le_self offset cs);
              done = λ j h. absurd (omega (arith, h));
              kept = λ j h. refl;
            })))

valid_says :
    (m : Mirror)
    → valid m ≡ true
    → (0 < m.store.chunk_size) × (m.source.validator.total_size / m.store.chunk_size < 2 ^ 32 - 1)
unfolding valid
valid_says m h = ground (arith, h)

module _ (transport : Transport) (others : Others) (source : SourceIdentity) (content : ℕ → ℕ)
    (cs : ℕ) (honest : IsHonest transport others source content cs) where
  abbrev pub IsServed : (offset length : ℕ) → Memory → Mirror × ReadOutcome × Memory → Type 0
  IsServed offset length dest r =
      Mirrors transport others source content cs honest r.0
      × ((j : ℕ) → j < r.1.bytes → r.2 j ≡ content (offset + j))
      × ((j : ℕ) → length ≤ j → r.2 j ≡ dest j)
      × (r.1.status ≡ Status.ok → r.1.bytes ≡ length)

  refused-IsServed :
      (offset length : ℕ) (m : Mirror) (status : Status) (dest : Memory)
      → status ≢ Status.ok
      → Mirrors transport others source content cs honest m
      → IsServed offset length dest (refused offset length m status dest)
  refused-IsServed offset length m status dest bad v =
      (v, λ j h. absurd (omega (arith, h)), λ j h. refl, λ ok. absurd (bad ok))

  -- A mirror of the source is assumed to have a faithful store: each local chunk file that the
  -- store accepts holds the source's bytes over the whole of its chunk, while any other may be
  -- missing, damaged or stale. Other processes keep the store faithful, the transport delivers the
  -- source's bytes where it reports ok for the source's validator and as many bytes as were asked
  -- for, and the sizes fit their types. Then a read serves the
  -- source's bytes: whatever failures the transport reports, whichever publications fail and
  -- however the fetches of other callers end, the bytes that it reports are those of the source
  -- from the offset on, all of them where it reports ok, no byte of the destination behind the
  -- range changes, and the store is faithful behind it.
  pub read-IsServed :
      (offset length dest_size : ℕ) (m : Mirror) (dest : Memory)
      → Mirrors transport others source content cs honest m
      → IsServed offset length dest (read transport others offset length m dest_size dest)
  unfolding read
  read-IsServed offset length dest_size m dest v =
      elim (Bool-cases (not (valid m) || ltb dest_size length)) [
        | inl e ↦
            rw e
              (refused-IsServed offset length m Status.invalid_argument dest (λ x. absurd (cc x)) v)
        | inr e ↦ elim (Bool-cases (length == 0)) [
          | inl f ↦
              rw (e, f)
                (refused-IsServed offset length m Status.invalid_argument dest (λ x. absurd (cc x))
                  v)
          | inr f ↦
              elim (Bool-cases (
                ltb m.source.validator.total_size offset
                || ltb (m.source.validator.total_size - offset) length)) [
                  | inl g ↦
                      rw (e, f, g)
                        (refused-IsServed offset length m Status.out_of_range dest
                          (λ x. absurd (cc x)) v)
                  | inr g ↦
                      rw (e, f, g)
                        (let (pos, narrow) = valid_says m (ground (arith, e)) in
                          let pos' : 0 < cs = subst (λ (c : ℕ). 0 < c) v.faithful.size pos in
                          let asked : 0 < length = ground (arith, f) in
                          let inside : offset + length ≤ source.validator.total_size =
                            subst (λ (x : SourceIdentity). offset + length ≤ x.validator.total_size)
                              v.same (ground (arith, g)) in
                          let s =
                            loop-Served transport others source content cs honest offset length dest
                              pos' asked inside m v
                              (subst (λ (c : ℕ). source.validator.total_size / c < 2 ^ 32 - 1)
                                v.faithful.size
                                (subst
                                  (λ (x : SourceIdentity).
                                    x.validator.total_size / m.store.chunk_size < 2 ^ 32 - 1)
                                  v.same narrow)) in
                          (
                            s.mirror,
                            s.written,
                            s.kept,
                            λ ok.
                                s.whole ok
                                ∙ omega
                                    (arith, lt-div-mul-add {a = offset + length - 1} pos', asked),
                          ))
                ]
        ]
      ]
