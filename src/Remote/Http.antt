-- ===== src/Remote/Http.antt =====
-- The parsers of include/sub0tieredcache/remote/http_client.hpp. Text is a list of bytes, and an
-- output parameter is a result.
pub mod Fetch
mod Examples
use sub0tiered_cache.Base.{
  ℕ, zero, suc, ◌+◌, ◌-◌, ◌*◌, ◌/◌, ◌%◌, ◌^◌, Bool, true, false, ◌||◌, ◌&&◌, not, Option, none,
  some, List, [], ◌∷◌, ◌++◌, length, take, ltb, leb, ◌==◌, if◌then◌else◌,
}
use sub0tiered_cache.Remote.Store.{drop, same_bytes}
use sub0tiered_cache.Remote.Store.Publication.{starts_with, is_empty}

pub record ParsedUrl : Type 0 where
  pub host : List ℕ
  pub port : List ℕ
  pub path : List ℕ
  pub valid : Bool

pub record ParsedHeaders : Type 0 where
  pub status_code : ℕ
  pub content_range : List ℕ
  pub etag : List ℕ
  pub last_modified : List ℕ
  pub transfer_encoding : List ℕ
  -- `content_length`, cast to uint64_t.
  pub content_length : ℕ
  pub has_content_length : Bool

abbrev one_on : Option ℕ → Option ℕ
one_on none = none
one_on (some k) = some (k + 1)

-- `find` and `rfind` of a character, and `find` of a string.
unfoldable pub find : ℕ → List ℕ → Option ℕ
find c [] = none
find c (x ∷ xs) = if x == c then some 0 else one_on (find c xs)

unfoldable pub rfind : ℕ → List ℕ → Option ℕ
rfind c [] = none
rfind c (x ∷ xs) = elim (rfind c xs) [
  | some k ↦ some (k + 1)
  | none ↦ if x == c then some 0 else none
]

unfoldable pub find_text : List ℕ → List ℕ → Option ℕ
find_text pattern_ [] = if is_empty pattern_ then some 0 else none
find_text pattern_ (x ∷ xs) =
    if starts_with (x ∷ xs) pattern_ then some 0 else one_on (find_text pattern_ xs)

abbrev pub is_digit : ℕ → Bool
is_digit c = leb 48 c && leb c 57

-- The digits that a text starts with, as a number on top of the one read so far.
abbrev pub digits_on : ℕ → List ℕ → ℕ
digits_on n [] = n
digits_on n (c ∷ cs) = let m = digits_on (10 * n + (c - 48)) cs in if is_digit c then m else n

abbrev pub first_is_digit : List ℕ → Bool
first_is_digit [] = false
first_is_digit (c ∷ cs) = is_digit c

-- `std::from_chars` of a number without a sign, up to the largest of its type.
unfoldable pub from_chars : (largest : ℕ) → List ℕ → Option ℕ
from_chars largest text =
    if not (first_is_digit text)
    then none
    else if ltb largest (digits_on 0 text)
    then none
    else some (digits_on 0 text)

-- "http://".
abbrev pub http_prefix : List ℕ
http_prefix = 104 ∷ 116 ∷ 116 ∷ 112 ∷ 58 ∷ 47 ∷ 47 ∷ []

abbrev pub no_url : ParsedUrl
no_url = record { host = []; port = 56 ∷ 48 ∷ []; path = 47 ∷ []; valid = false }

-- The host and the port, of a path that is known.
unfoldable pub parse_authority : (authority path : List ℕ) → ParsedUrl
parse_authority authority path = elim (rfind 58 authority) [
  | some k ↦
      let port = drop (k + 1) authority in
      record {
        host = take k authority;
        port = port;
        path = path;
        valid = not (is_empty port) && not (is_empty (take k authority));
      }
  | none ↦ record (no_url) { host = authority; path = path; valid = not (is_empty authority) }
]

unfoldable pub parse_http_url : List ℕ → ParsedUrl
parse_http_url url =
    let rest = drop 7 url in
    if not (starts_with url http_prefix) then no_url else elim (find 47 rest) [
      | none ↦ if is_empty rest then no_url else parse_authority rest (47 ∷ [])
      | some k ↦
          if is_empty (take k rest) then no_url else parse_authority (take k rest) (drop k rest)
    ]

abbrev pub to_lower : ℕ → ℕ
to_lower c = if leb 65 c && leb c 90 then c + 32 else c

unfoldable pub header_name_is : List ℕ → List ℕ → Bool
header_name_is [] [] = true
header_name_is [] (y ∷ ys) = false
header_name_is (x ∷ xs) [] = false
header_name_is (x ∷ xs) (y ∷ ys) = to_lower x == to_lower y && header_name_is xs ys

unfoldable pub trim_front : List ℕ → List ℕ
trim_front [] = []
trim_front (c ∷ cs) = let rest = trim_front cs in if c == 32 || c == 9 then rest else c ∷ cs

unfoldable pub trim_back : List ℕ → List ℕ
trim_back [] = []
trim_back (c ∷ cs) =
    let rest = trim_back cs in
    if is_empty rest && (c == 32 || c == 9 || c == 13) then [] else c ∷ rest

abbrev pub trim : List ℕ → List ℕ
trim s = trim_back (trim_front s)

-- "Content-Length" into a long long, cast to uint64_t where it is compared.
unfoldable pub content_length_of : List ℕ → Option ℕ
content_length_of [] = none
content_length_of (c ∷ cs) =
    if c == 45
    then elim (from_chars (2 ^ 63) cs) [ none ↦ none | some n ↦ some ((2 ^ 64 - n) % 2 ^ 64) ]
    else from_chars (2 ^ 63 - 1) (c ∷ cs)

-- "Content-Range".
abbrev pub content_range_name : List ℕ
content_range_name = 67 ∷ 111 ∷ 110 ∷ 116 ∷ 101 ∷ 110 ∷ 116 ∷ 45 ∷ 82 ∷ 97 ∷ 110 ∷ 103 ∷ 101 ∷ []

-- "ETag".
abbrev pub etag_name : List ℕ
etag_name = 69 ∷ 84 ∷ 97 ∷ 103 ∷ []

-- "Last-Modified".
abbrev pub last_modified_name : List ℕ
last_modified_name = 76 ∷ 97 ∷ 115 ∷ 116 ∷ 45 ∷ 77 ∷ 111 ∷ 100 ∷ 105 ∷ 102 ∷ 105 ∷ 101 ∷ 100 ∷ []

-- "Transfer-Encoding".
abbrev pub transfer_encoding_name : List ℕ
transfer_encoding_name =
    84 ∷ 114 ∷ 97 ∷ 110 ∷ 115 ∷ 102 ∷ 101 ∷ 114 ∷ 45 ∷ 69 ∷ 110 ∷ 99 ∷ 111 ∷ 100 ∷ 105 ∷ 110 ∷ 103
    ∷ []

-- "Content-Length".
abbrev pub content_length_name : List ℕ
content_length_name =
    67 ∷ 111 ∷ 110 ∷ 116 ∷ 101 ∷ 110 ∷ 116 ∷ 45 ∷ 76 ∷ 101 ∷ 110 ∷ 103 ∷ 116 ∷ 104 ∷ []

-- A header's part in the result.
unfoldable pub set_header : ParsedHeaders → (name value : List ℕ) → ParsedHeaders
set_header out name value =
    if header_name_is name content_range_name
    then record out { content_range = value }
    else if header_name_is name etag_name
    then record out { etag = value }
    else if header_name_is name last_modified_name
    then record out { last_modified = value }
    else if header_name_is name transfer_encoding_name
    then record out { transfer_encoding = value }
    else if header_name_is name content_length_name
    then elim (content_length_of value) [
      | none ↦ out
      | some n ↦ record out { content_length = n; has_content_length = true }
    ]
    else out

abbrev pub before : Option ℕ → List ℕ → List ℕ
before none text = text
before (some k) text = take k text

-- The status line. A negative code is taken as 0, which is treated alike.
unfoldable pub status_of : List ℕ → ℕ
status_of line = elim (find 32 line) [
  | none ↦ 0
  | some k ↦
      let rest = drop (k + 1) line in
      elim (from_chars (2 ^ 31 - 1) (before (find 32 rest) rest)) [ none ↦ 0 | some n ↦ n ]
]

unfoldable pub parse_header_line : ParsedHeaders → List ℕ → ParsedHeaders
parse_header_line out line = elim (find 58 line) [
  | none ↦ out
  | some k ↦ set_header out (take k line) (trim (drop (k + 1) line))
]

abbrev pub crlf : List ℕ
crlf = 13 ∷ 10 ∷ []

-- The lines behind the first; the fuel is the number of bytes, and a line takes two at least.
unfoldable pub header_lines : (fuel : ℕ) → List ℕ → ParsedHeaders → ParsedHeaders
header_lines zero head out = out
header_lines (suc fuel) head out =
    let seen = parse_header_line out (before (find_text crlf head) head) in
    elim (find_text crlf head) [ none ↦ seen | some k ↦ header_lines fuel (drop (k + 2) head) seen ]

abbrev pub no_headers : ParsedHeaders
no_headers = record {
  status_code = 0;
  content_range = [];
  etag = [];
  last_modified = [];
  transfer_encoding = [];
  content_length = 2 ^ 64 - 1;
  has_content_length = false;
}

abbrev pub blank_line : List ℕ
blank_line = 13 ∷ 10 ∷ 13 ∷ 10 ∷ []

-- The headers of a text, up to its blank line.
unfoldable pub parse_response_head : List ℕ → ParsedHeaders
parse_response_head text =
    let head = before (find_text blank_line text) text in
    let first = record (no_headers) {
      status_code = status_of (before (find_text crlf head) head);
    } in
    elim (find_text crlf head) [
      | none ↦ first
      | some k ↦ header_lines (length head + 1) (drop (k + 2) head) first
    ]

pub record ContentRange : Type 0 where
  pub start : ℕ
  pub end : ℕ
  pub total : ℕ

-- "bytes ".
abbrev pub range_prefix : List ℕ
range_prefix = 98 ∷ 121 ∷ 116 ∷ 101 ∷ 115 ∷ 32 ∷ []

abbrev pub max_u64 : ℕ
max_u64 = 2 ^ 64 - 1

unfoldable pub range_of : Option ℕ → Option ℕ → Option ℕ → Option ContentRange
range_of (some a) (some b) (some c) = some (record { start = a; end = b; total = c })
range_of _ _ _ = none

-- The three numbers about a dash and a slash.
unfoldable pub split_range : (rest : List ℕ) (dash slash : ℕ) → Option ContentRange
split_range rest dash slash =
    if ltb slash dash
    then none
    else range_of (from_chars max_u64 (take dash rest))
        (from_chars max_u64 (take (slash - dash - 1) (drop (dash + 1) rest)))
        (from_chars max_u64 (drop (slash + 1) rest))

-- `parse_content_range`: none is false.
unfoldable pub parse_content_range : List ℕ → Option ContentRange
parse_content_range value =
    if not (starts_with value range_prefix)
    then none
    else let rest = drop 6 value in
      elim (find 45 rest) [
        | none ↦ none
        | some dash ↦ elim (find 47 rest) [ none ↦ none | some slash ↦ split_range rest dash slash ]
      ]
