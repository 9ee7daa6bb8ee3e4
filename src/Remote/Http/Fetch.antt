-- ===== src/Remote/Http/Fetch.antt =====
-- Http1RangeTransport::fetch_once of include/sub0tieredcache/remote/http_client.hpp, on the
-- answers of a socket.
pub mod Stream
pub mod Expected
pub mod Accepted
use sub0tiered_cache.Base.{
  ℕ, zero, suc, ◌+◌, ◌-◌, ◌*◌, ◌/◌, ◌%◌, ◌^◌, Bool, true, false, ◌||◌, ◌&&◌, not, Option, none,
  some, List, [], ◌∷◌, ◌++◌, length, take, min, ltb, leb, ◌==◌, if◌then◌else◌,
}
use sub0tiered_cache.Remote.{Status}
use sub0tiered_cache.Remote.Store.{SourceValidator, drop, same_bytes}
use sub0tiered_cache.Remote.Store.Publication.{is_empty}
use sub0tiered_cache.Remote.Mirror.{RangeFetchRequest}
use sub0tiered_cache.Remote.Http.{
  ParsedHeaders, ContentRange, find_text, blank_line, parse_response_head, parse_content_range,
}

-- How a `recv` ends. No bytes are the end of the connection, and so is the end of the answers.
pub data Recv : Type 0 where
  received : List ℕ → Recv
  timed_out failed : Recv

-- What the socket answers: whether it connects, whether each `send` succeeds until the request
-- is sent, and the calls of `recv` in order.
pub record Socket : Type 0 where
  pub connects : Bool
  pub sends : Bool
  pub answers : List Recv

-- The destination is what was written to it.
pub record OnceResult : Type 0 where
  pub status : Status
  pub bytes : ℕ
  pub observed : SourceValidator
  pub destination : List ℕ

abbrev pub no_validator : SourceValidator
no_validator = record { etag = []; last_modified = []; total_size = 0 }

abbrev pub fails : Status → OnceResult
fails status = record { status = status; bytes = 0; observed = no_validator; destination = [] }

-- The loop for the headers: the text with a blank line and the answers left, or the failure.
pub data Head : Type 0 where
  complete : (text : List ℕ) (left : List Recv) → Head
  broken : Status → Head

abbrev pub is_found : Option ℕ → Bool
is_found none = false
is_found (some k) = true

unfoldable pub read_head : (text : List ℕ) → List Recv → Head
read_head text [] = Head.broken Status.truncated
read_head text (timed_out ∷ left) = Head.broken Status.timeout
read_head text (failed ∷ left) = Head.broken Status.truncated
read_head text (received part ∷ left) =
    let more = text ++ take 4096 part in
    let rest = read_head more left in
    if is_empty part
    then Head.broken Status.truncated
    else if is_found (find_text blank_line more)
    then Head.complete more left
    else if ltb 1048576 (length more)
    then Head.broken Status.unexpected_status
    else rest

-- The loop for the body, with what is written so far.
unfoldable pub read_body : (wanted : ℕ) (got : List ℕ) → List Recv → Status × List ℕ
read_body wanted got [] =
    if ltb (length got) wanted then (Status.truncated, got) else (Status.ok, got)
read_body wanted got (timed_out ∷ left) =
    if ltb (length got) wanted then (Status.timeout, got) else (Status.ok, got)
read_body wanted got (failed ∷ left) =
    if ltb (length got) wanted then (Status.truncated, got) else (Status.ok, got)
read_body wanted got (received part ∷ left) =
    let rest = read_body wanted (got ++ take (min 4096 (wanted - length got)) part) left in
    if not (ltb (length got) wanted)
    then (Status.ok, got)
    else if is_empty part
    then (Status.truncated, got)
    else rest

-- `has_identity`.
abbrev pub has_identity : SourceValidator → Bool
has_identity v = not (is_empty v.etag) || not (is_empty v.last_modified)

-- `etag_ok || lm_ok`, where there is an identity to compare.
unfoldable pub is_expected : (expected observed : SourceValidator) → Bool
is_expected expected observed =
    not (has_identity expected)
    || (not (is_empty expected.etag) && same_bytes expected.etag observed.etag)
    || (is_empty expected.etag
        && not (is_empty expected.last_modified)
        && same_bytes expected.last_modified observed.last_modified)

-- `offset + length - 1`, in uint64_t.
abbrev pub range_end : RangeFetchRequest → ℕ
range_end request = (request.offset + request.length + (2 ^ 64 - 1)) % 2 ^ 64

-- The end of the headers in the text.
abbrev pub body_of : List ℕ → List ℕ
body_of text = elim (find_text blank_line text) [ none ↦ drop 3 text | some k ↦ drop (k + 4) text ]

abbrev pub finish : RangeFetchRequest → SourceValidator → Status × List ℕ → OnceResult
finish request observed result = record {
  status = result.0;
  bytes = length result.1;
  observed = observed;
  destination = result.1;
}

-- The checks of the validator, and the body.
unfoldable pub fetch_body :
    RangeFetchRequest → SourceValidator → (body : List ℕ) → List Recv → OnceResult
fetch_body request observed body left =
    if not (request.expected.total_size == 0)
      && not (observed.total_size == request.expected.total_size)
    then record (fails Status.size_mismatch) { observed = observed }
    else if not (is_expected request.expected observed)
    then record (fails Status.source_changed) { observed = observed }
    else finish request observed (read_body request.length (take request.length body) left)

-- The check of the Content-Range and of the Content-Length.
unfoldable pub check_range :
    RangeFetchRequest
    → ParsedHeaders
    → Option ContentRange
    → (body : List ℕ) → List Recv
    → OnceResult
check_range request headers none body left = fails Status.bad_content_range
check_range request headers (some range) body left =
    if not (range.start == request.offset) || not (range.end == range_end request)
    then fails Status.bad_content_range
    else if not (headers.content_length == request.length)
    then fails Status.bad_content_range
    else fetch_body request
        (record {
          etag = headers.etag;
          last_modified = headers.last_modified;
          total_size = range.total;
        })
        body left

unfoldable pub check_headers :
    RangeFetchRequest → ParsedHeaders → (body : List ℕ) → List Recv → OnceResult
check_headers request headers body left =
    if leb 500 headers.status_code && ltb headers.status_code 600
    then fails Status.server_error
    else if not (headers.status_code == 206)
    then fails Status.unexpected_status
    else if not (is_empty headers.transfer_encoding)
    then fails Status.unsupported_response
    else if not headers.has_content_length
    then fails Status.bad_content_range
    else if is_empty headers.content_range
    then fails Status.bad_content_range
    else check_range request headers (parse_content_range headers.content_range) body left

unfoldable pub check_head : RangeFetchRequest → Head → OnceResult
check_head request (Head.broken status) = fails status
check_head request (Head.complete text left) =
    check_headers request (parse_response_head text) (body_of text) left

unfoldable pub fetch_once : Socket → RangeFetchRequest → OnceResult
fetch_once socket request =
    if not socket.connects
    then fails Status.connect_failed
    else if not socket.sends
    then fails Status.send_failed
    else check_head request (read_head [] socket.answers)
