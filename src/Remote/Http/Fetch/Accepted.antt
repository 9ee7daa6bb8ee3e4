-- ===== src/Remote/Http/Fetch/Accepted.antt =====
-- What an attempt of include/sub0tieredcache/remote/http_client.hpp has checked where it is ok.
use sub0tiered_cache.Base.{
  ℕ, ◌≡◌, ◌≢◌, refl, ◌∙◌, arith, true, false, ◌||◌, ◌&&◌, not, Option, none, some, List, [], ◌∷◌,
  ◌++◌, length, take, ltb, leb, ◌==◌, Bool-cases, inl, inr, ==_iff,
}
use sub0tiered_cache.Remote.{Status}
use sub0tiered_cache.Remote.Store.{SourceValidator}
use sub0tiered_cache.Remote.Store.Publication.{is_empty}
use sub0tiered_cache.Remote.Mirror.{RangeFetchRequest}
use sub0tiered_cache.Remote.Http.{
  ParsedHeaders, ContentRange, find_text, blank_line, parse_response_head, parse_content_range,
}
use sub0tiered_cache.Remote.Http.Fetch.{
  Recv, received, timed_out, failed, Socket, OnceResult, Head, is_found, read_head, is_expected,
  range_end, body_of, fetch_body, check_range, check_headers, check_head, fetch_once,
}
use sub0tiered_cache.Remote.Http.Fetch.Expected.{Accepts, expected-Accepts}
use sub0tiered_cache.Remote.Http.Fetch.Stream.{
  stream, length-take, take_first, read_body_lem, read_head_lem,
}

-- The destination holds what was asked for, and the source is the one expected.
pub record Delivers (request : RangeFetchRequest) (observed : SourceValidator) (body : List ℕ)
    (left : List Recv) (r : OnceResult) : Type 0 where
  pub bytes : r.bytes ≡ request.length
  pub count : length r.destination ≡ request.length
  pub destination : r.destination ≡ take request.length (body ++ stream left)
  pub observed_is : r.observed ≡ observed
  pub accepts : Accepts request.expected r.observed

-- The response is for the very range asked for.
pub record Ranged (request : RangeFetchRequest) (headers : ParsedHeaders)
    (parsed : Option ContentRange) (body : List ℕ) (left : List Recv) (r : OnceResult)
    : Type 0 where
  pub range : ContentRange
  pub parsed_is : parsed ≡ some range
  pub start : range.start ≡ request.offset
  pub end : range.end ≡ range_end request
  pub size : headers.content_length ≡ request.length
  pub delivers :
      Delivers request
        (record {
          etag = headers.etag;
          last_modified = headers.last_modified;
          total_size = range.total;
        })
        body
        left
        r

-- The response is a partial one, not encoded, and has a length.
pub record Partial (request : RangeFetchRequest) (headers : ParsedHeaders) (body : List ℕ)
    (left : List Recv) (r : OnceResult) : Type 0 where
  pub status_code : headers.status_code ≡ 206
  pub transfer_encoding : headers.transfer_encoding ≡ []
  pub has_content_length : headers.has_content_length ≡ true
  pub ranged : Ranged request headers (parse_content_range headers.content_range) body left r

-- What the socket delivers is a head with its blank line and then the range.
pub record Complete (request : RangeFetchRequest) (answers : List Recv) (r : OnceResult)
    : Type 0 where
  pub text : List ℕ
  pub left : List Recv
  pub found : is_found (find_text blank_line text) ≡ true
  pub whole : text ++ stream left ≡ stream answers
  pub response : Partial request (parse_response_head text) (body_of text) left r

is_206 : (x : ℕ) → not (x == 206) ≡ false → x ≡ 206
is_206 x e = ground (arith, e)

empty_eq : (xs : List ℕ) → not (is_empty xs) ≡ false → xs ≡ []
empty_eq [] e = refl
empty_eq (x ∷ xs) e = absurd (cc e)

-- A head that is not complete is not ok.
broken_not_ok :
    (text : List ℕ) (answers : List Recv) (status : Status)
    → read_head text answers ≡ Head.broken status
    → status ≢ Status.ok
unfolding read_head
broken_not_ok text [] status = λ e ok. absurd (cc (e, ok))
broken_not_ok text (timed_out ∷ left) status = λ e ok. absurd (cc (e, ok))
broken_not_ok text (failed ∷ left) status = λ e ok. absurd (cc (e, ok))
broken_not_ok text (received part ∷ left) status =
    let more = text ++ take 4096 part in
    elim (Bool-cases (is_empty part)) [
      | inl e ↦ rw e (λ same ok. absurd (cc (same, ok)))
      | inr e ↦ elim (Bool-cases (is_found (find_text blank_line more))) [
        | inl f ↦ rw (e, f) (λ same ok. absurd (cc same))
        | inr f ↦ elim (Bool-cases (ltb 1048576 (length more))) [
          | inl g ↦ rw (e, f, g) (λ same ok. absurd (cc (same, ok)))
          | inr g ↦ rw (e, f, g) (broken_not_ok more left status)
        ]
      ]
    ]

module _ (request : RangeFetchRequest) where
  fetch_body-Delivers :
      (observed : SourceValidator) (body : List ℕ) (left : List Recv)
      → (fetch_body request observed body left).status ≡ Status.ok
      → Delivers request observed body left (fetch_body request observed body left)
  unfolding fetch_body
  fetch_body-Delivers observed body left =
      elim (Bool-cases (
        not (request.expected.total_size == 0)
        && not (observed.total_size == request.expected.total_size))) [
          | inl e ↦ rw e (λ ok. absurd (cc ok))
          | inr e ↦ elim (Bool-cases (not (is_expected request.expected observed))) [
            | inl f ↦ rw (e, f) (λ ok. absurd (cc ok))
            | inr f ↦
                rw (e, f)
                  (λ ok.
                    let (count, bytes) =
                      read_body_lem request.length (take request.length body) left
                        (length-take request.length body) ok in
                    record {
                      bytes = count;
                      count = count;
                      destination = bytes ∙ take_first request.length body (stream left);
                      observed_is = refl;
                      accepts = expected-Accepts request.expected observed e f;
                    })
          ]
        ]

  check_range-Ranged :
      (headers : ParsedHeaders) (range : Option ContentRange) (body : List ℕ) (left : List Recv)
      → (check_range request headers range body left).status ≡ Status.ok
      → Ranged request headers range body left (check_range request headers range body left)
  unfolding check_range
  check_range-Ranged headers none body left = λ ok. absurd (cc ok)
  check_range-Ranged headers (some range) body left =
      elim (Bool-cases
        (not (range.start == request.offset) || not (range.end == range_end request))) [
          | inl e ↦ rw e (λ ok. absurd (cc ok))
          | inr e ↦ elim (Bool-cases (not (headers.content_length == request.length))) [
            | inl f ↦ rw (e, f) (λ ok. absurd (cc ok))
            | inr f ↦
                let first : (range.start == request.offset) ≡ true = ground (arith, e) in
                let last : (range.end == range_end request) ≡ true = ground (arith, e) in
                rw (e, f)
                  (λ ok. record {
                    range = range;
                    parsed_is = refl;
                    start = (==_iff range.start request.offset).0 first;
                    end = (==_iff range.end (range_end request)).0 last;
                    size = ground (arith, f);
                    delivers = fetch_body-Delivers _ body left ok;
                  })
          ]
        ]

  check_headers-Partial :
      (headers : ParsedHeaders) (body : List ℕ) (left : List Recv)
      → (check_headers request headers body left).status ≡ Status.ok
      → Partial request headers body left (check_headers request headers body left)
  unfolding check_headers
  check_headers-Partial headers body left =
      elim (Bool-cases (leb 500 headers.status_code && ltb headers.status_code 600)) [
        | inl e ↦ rw e (λ ok. absurd (cc ok))
        | inr e ↦ elim (Bool-cases (not (headers.status_code == 206))) [
          | inl f ↦ rw (e, f) (λ ok. absurd (cc ok))
          | inr f ↦ elim (Bool-cases (not (is_empty headers.transfer_encoding))) [
            | inl g ↦ rw (e, f, g) (λ ok. absurd (cc ok))
            | inr g ↦ elim (Bool-cases (not headers.has_content_length)) [
              | inl h ↦ rw (e, f, g, h) (λ ok. absurd (cc ok))
              | inr h ↦ elim (Bool-cases (is_empty headers.content_range)) [
                | inl i ↦ rw (e, f, g, h, i) (λ ok. absurd (cc ok))
                | inr i ↦
                    rw (e, f, g, h, i)
                      (λ ok. record {
                        status_code = is_206 headers.status_code f;
                        transfer_encoding = empty_eq headers.transfer_encoding g;
                        has_content_length = ground (arith, h);
                        ranged = check_range-Ranged headers _ body left ok;
                      })
              ]
            ]
          ]
        ]
      ]

  check_head-Complete :
      (answers : List Recv) (head : Head)
      → read_head [] answers ≡ head
      → (check_head request head).status ≡ Status.ok
      → Complete request answers (check_head request head)
  unfolding check_head
  check_head-Complete answers (Head.broken status) e ok =
      absurd (broken_not_ok [] answers status e ok)
  check_head-Complete answers (Head.complete text left) e ok =
      let (found, whole) = read_head_lem [] answers text left e in
      record {
        text = text;
        left = left;
        found = found;
        whole = whole;
        response = check_headers-Partial (parse_response_head text) (body_of text) left ok;
      }

  -- If an attempt is ok, what the socket delivered, at most 4096 bytes a call, is a head with a
  -- blank line and a body. The head's status is 206, it has no Transfer-Encoding, its
  -- Content-Length is the length asked for, and its Content-Range is the range asked for, from the
  -- offset to the last byte. The destination holds exactly as many bytes as were asked for, the
  -- first of the body, and that number is reported. The validator observed is that of the head, and
  -- its ETag is that of the request, or its Last-Modified where the request has no ETag, and its
  -- total size, each as far as the request has one.
  pub fetch_once-Complete :
      (socket : Socket)
      → (fetch_once socket request).status ≡ Status.ok
      → Complete request socket.answers (fetch_once socket request)
  unfolding fetch_once
  fetch_once-Complete socket = elim (Bool-cases (not socket.connects)) [
    | inl e ↦ rw e (λ ok. absurd (cc ok))
    | inr e ↦ elim (Bool-cases (not socket.sends)) [
      | inl f ↦ rw (e, f) (λ ok. absurd (cc ok))
      | inr f ↦ rw (e, f) (check_head-Complete socket.answers _ refl)
    ]
  ]
