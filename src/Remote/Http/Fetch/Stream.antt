-- ===== src/Remote/Http/Fetch/Stream.antt =====
-- The bytes that a socket delivers, as the loops of fetch_once in
-- include/sub0tieredcache/remote/http_client.hpp read them, at most 4096 at a time.
use mathlib.Core.List.{append_assoc}
use sub0tiered_cache.Base.{
  ℕ, zero, suc, ◌-◌, ◌≤◌, ◌≡◌, refl, sym, ap, subst, ◌∙◌, arith, true, List, [], ◌∷◌, ◌++◌, length,
  length-append, take, min, ltb, Bool-cases, inl, inr,
}
use sub0tiered_cache.Remote.{Status}
use sub0tiered_cache.Remote.Store.Format.{take-length}
use sub0tiered_cache.Remote.Store.Publication.{is_empty}
use sub0tiered_cache.Remote.Http.{find_text, blank_line}
use sub0tiered_cache.Remote.Http.Fetch.{
  Recv, received, timed_out, failed, Head, is_found, read_head, read_body,
}

-- The bytes that the answers deliver until one of them is a timeout or a failure.
pub stream : List Recv → List ℕ
stream [] = []
stream (timed_out ∷ left) = []
stream (failed ∷ left) = []
stream (received part ∷ left) = take 4096 part ++ stream left

pub length-take : (n : ℕ) (xs : List ℕ) → length (take n xs) ≤ n
length-take zero xs = omega arith
length-take (suc n) [] = omega arith
length-take (suc n) (x ∷ xs) = omega (arith, length-take n xs)

-- What is taken of a longer prefix.
take_prefix :
    (n m : ℕ) (xs rest : List ℕ) → n ≤ m → take n (take n xs ++ rest) ≡ take n (take m xs ++ rest)
take_prefix zero m xs rest h = refl
take_prefix (suc n) zero xs rest h = absurd (omega (arith, h))
take_prefix (suc n) (suc m) [] rest h = refl
take_prefix (suc n) (suc m) (x ∷ xs) rest h =
    ap (λ (ys : List ℕ). x ∷ ys) (take_prefix n m xs rest (omega (arith, h)))

take-min :
    (m n : ℕ) (xs rest : List ℕ) → take n (take (min m n) xs ++ rest) ≡ take n (take m xs ++ rest)
take-min m n xs rest = elim (Bool-cases (ltb m n)) [
  | inl e ↦
      let least : min m n ≡ m = ground (arith, e) in
      ap (λ (k : ℕ). take n (take k xs ++ rest)) least
  | inr e ↦
      let least : min m n ≡ n = ground (arith, e) in
      ap (λ (k : ℕ). take n (take k xs ++ rest)) least ∙ take_prefix n m xs rest (ground (arith, e))
]

pub take_first : (n : ℕ) (xs rest : List ℕ) → take n (take n xs ++ rest) ≡ take n (xs ++ rest)
take_first zero xs rest = refl
take_first (suc n) [] rest = refl
take_first (suc n) (x ∷ xs) rest = ap (λ (ys : List ℕ). x ∷ ys) (take_first n xs rest)

take-append :
    (n : ℕ) (xs ys : List ℕ) → length xs ≤ n → take n (xs ++ ys) ≡ xs ++ take (n - length xs) ys
take-append zero [] ys h = refl
take-append (suc n) [] ys h =
    let same : suc n ≡ suc n - 0 = omega arith in ap (λ (k : ℕ). take k ys) same
take-append zero (x ∷ xs) ys h = absurd (omega (arith, h))
take-append (suc n) (x ∷ xs) ys h =
    let same : n - length xs ≡ suc n - suc (length xs) = omega arith in
    ap (λ (zs : List ℕ). x ∷ zs)
      (take-append n xs ys (omega (arith, h)) ∙ ap (λ (k : ℕ). xs ++ take k ys) same)

-- One round of the loop for the body.
round_same :
    (wanted : ℕ) (got part rest : List ℕ)
    → length got ≤ wanted
    → take wanted ((got ++ take (min 4096 (wanted - length got)) part) ++ rest)
      ≡ take wanted (got ++ (take 4096 part ++ rest))
round_same wanted got part rest h =
    ap (take wanted) (append_assoc got (take (min 4096 (wanted - length got)) part) rest)
    ∙ take-append wanted got _ h
    ∙ ap (λ (ys : List ℕ). got ++ ys) (take-min 4096 (wanted - length got) part rest)
    ∙ sym (take-append wanted got _ h)

full : (wanted : ℕ) (got rest : List ℕ) → length got ≡ wanted → got ≡ take wanted (got ++ rest)
full wanted got rest e =
    subst (λ (n : ℕ). got ≡ take n (got ++ rest)) e (sym (take-length got rest))

-- If the body's loop ends ok, it has as many bytes as are wanted, and they are those that it had
-- and the stream's next.
pub read_body_lem :
    (wanted : ℕ) (got : List ℕ) (answers : List Recv)
    → length got ≤ wanted
    → (read_body wanted got answers).0 ≡ Status.ok
    → (length (read_body wanted got answers).1 ≡ wanted)
      × ((read_body wanted got answers).1 ≡ take wanted (got ++ stream answers))
unfolding read_body stream
read_body_lem wanted got [] h = elim (Bool-cases (ltb (length got) wanted)) [
  | inl e ↦ rw e (λ ok. absurd (cc ok))
  | inr e ↦ rw e (λ ok. (ground (arith, h, e), full wanted got [] (ground (arith, h, e))))
]
read_body_lem wanted got (timed_out ∷ left) h = elim (Bool-cases (ltb (length got) wanted)) [
  | inl e ↦ rw e (λ ok. absurd (cc ok))
  | inr e ↦ rw e (λ ok. (ground (arith, h, e), full wanted got [] (ground (arith, h, e))))
]
read_body_lem wanted got (failed ∷ left) h = elim (Bool-cases (ltb (length got) wanted)) [
  | inl e ↦ rw e (λ ok. absurd (cc ok))
  | inr e ↦ rw e (λ ok. (ground (arith, h, e), full wanted got [] (ground (arith, h, e))))
]
read_body_lem wanted got (received part ∷ left) h = elim (Bool-cases (ltb (length got) wanted)) [
  | inr e ↦ rw e (λ ok. (ground (arith, h, e), full wanted got _ (ground (arith, h, e))))
  | inl e ↦ elim (Bool-cases (is_empty part)) [
    | inl f ↦ rw (e, f) (λ ok. absurd (cc ok))
    | inr f ↦
        let more = take (min 4096 (wanted - length got)) part in
        let narrow : length (got ++ more) ≤ wanted =
          omega
            (arith, h, length-append got more, length-take (min 4096 (wanted - length got)) part) in
        rw (e, f)
          (λ ok.
            let (count, bytes) = read_body_lem wanted (got ++ more) left narrow ok in
            (count, bytes ∙ round_same wanted got part (stream left) h))
  ]
]

-- The text of the headers has a blank line, and with the answers left it is all that the stream
-- delivers.
pub read_head_lem :
    (start : List ℕ) (answers : List Recv) (text : List ℕ) (left : List Recv)
    → read_head start answers ≡ Head.complete text left
    → (is_found (find_text blank_line text) ≡ true)
      × (text ++ stream left ≡ start ++ stream answers)
unfolding read_head stream
read_head_lem start [] text left = λ e. absurd (cc e)
read_head_lem start (timed_out ∷ later) text left = λ e. absurd (cc e)
read_head_lem start (failed ∷ later) text left = λ e. absurd (cc e)
read_head_lem start (received part ∷ later) text left =
    let more = start ++ take 4096 part in
    elim (Bool-cases (is_empty part)) [
      | inl e ↦ rw e (λ same. absurd (cc same))
      | inr e ↦ elim (Bool-cases (is_found (find_text blank_line more))) [
        | inl f ↦
            rw (e, f)
              (λ same.
                let at : more ≡ text = cc same in
                let next : later ≡ left = cc same in
                (
                  subst (λ (x : List ℕ). is_found (find_text blank_line x) ≡ true) at f,
                  subst
                      (λ (x : List ℕ). x ++ stream left ≡ start ++ (take 4096 part ++ stream later))
                      at
                      (subst
                        (λ (x : List Recv).
                          more ++ stream x ≡ start ++ (take 4096 part ++ stream later))
                        next (append_assoc start (take 4096 part) (stream later))),
                ))
        | inr f ↦ elim (Bool-cases (ltb 1048576 (length more))) [
          | inl g ↦ rw (e, f, g) (λ same. absurd (cc same))
          | inr g ↦
              rw (e, f, g)
                (λ same.
                  let (found, whole) = read_head_lem more later text left same in
                  (found, whole ∙ append_assoc start (take 4096 part) (stream later)))
        ]
      ]
    ]
