-- ===== src/Remote/Http/Examples.antt =====
-- The theorems on include/sub0tieredcache/remote/http_client.hpp at work on a small response.
use sub0tiered_cache.Base.{ℕ, ◌≡◌, refl, true, some, List, [], ◌∷◌}
use sub0tiered_cache.Remote
use sub0tiered_cache.Remote.Store.{same_bytes}
use sub0tiered_cache.Remote.Store.Publication.{starts_with}
use sub0tiered_cache.Remote.Mirror.{RangeFetchRequest}
use sub0tiered_cache.Remote.Http.{
  find, rfind, find_text, from_chars, header_name_is, trim_front, trim_back, content_length_of,
  set_header, status_of, parse_header_line, header_lines, parse_response_head, range_of,
  split_range, parse_content_range, parse_authority, parse_http_url,
}
use sub0tiered_cache.Remote.Http.Fetch
use sub0tiered_cache.Remote.Http.Fetch.{
  Socket, read_head, read_body, is_expected, fetch_body, check_range, check_headers, check_head,
  fetch_once,
}
use sub0tiered_cache.Remote.Http.Fetch.Accepted.{Complete, fetch_once-Complete}

-- A response of four bytes of six, with an ETag, in two pieces.
abbrev response : List ℕ
response =
    72 ∷ 84 ∷ 84 ∷ 80 ∷ 47 ∷ 49 ∷ 46 ∷ 49 ∷ 32 ∷ 50 ∷ 48 ∷ 54 ∷ 32 ∷ 80 ∷ 13 ∷ 10 ∷ 67 ∷ 111 ∷ 110
    ∷ 116 ∷ 101 ∷ 110 ∷ 116 ∷ 45 ∷ 82 ∷ 97 ∷ 110 ∷ 103 ∷ 101 ∷ 58 ∷ 32 ∷ 98 ∷ 121 ∷ 116 ∷ 101 ∷ 115
    ∷ 32 ∷ 48 ∷ 45 ∷ 51 ∷ 47 ∷ 54 ∷ 13 ∷ 10 ∷ 67 ∷ 111 ∷ 110 ∷ 116 ∷ 101 ∷ 110 ∷ 116 ∷ 45 ∷ 76 ∷ 101
    ∷ 110 ∷ 103 ∷ 116 ∷ 104 ∷ 58 ∷ 32 ∷ 52 ∷ 13 ∷ 10 ∷ 69 ∷ 84 ∷ 97 ∷ 103 ∷ 58 ∷ 32 ∷ 34 ∷ 97 ∷ 34
    ∷ 13 ∷ 10 ∷ 13 ∷ 10 ∷ []

abbrev answering : Socket
answering = record {
  connects = true;
  sends = true;
  answers = Fetch.Recv.received response ∷ Fetch.Recv.received (10 ∷ 20 ∷ 30 ∷ 40 ∷ []) ∷ [];
}

abbrev first_four : RangeFetchRequest
first_four = record {
  offset = 0;
  length = 4;
  expected = record { etag = 34 ∷ 97 ∷ 34 ∷ []; last_modified = []; total_size = 6 };
}

four_fetched : (fetch_once answering first_four).status ≡ Remote.Status.ok
unfolding fetch_once check_head read_head check_headers check_range fetch_body read_body is_expected
    same_bytes starts_with find find_text from_chars header_name_is trim_front trim_back
    content_length_of set_header status_of parse_header_line header_lines parse_response_head
    range_of split_range parse_content_range
four_fetched = refl

fetch_once-Complete_example :
    Complete first_four answering.answers (fetch_once answering first_four)
fetch_once-Complete_example = fetch_once-Complete first_four answering four_fetched

-- "bytes 0-3x/6yz" is taken for a range from 0 to 3 of 6.
loose_range :
    parse_content_range
      (98 ∷ 121 ∷ 116 ∷ 101 ∷ 115 ∷ 32 ∷ 48 ∷ 45 ∷ 51 ∷ 120 ∷ 47 ∷ 54 ∷ 121 ∷ 122 ∷ [])
    ≡ some (record { start = 0; end = 3; total = 6 })
unfolding parse_content_range starts_with find split_range range_of from_chars
loose_range = refl

-- "http://h:8/p".
small_url :
    parse_http_url (104 ∷ 116 ∷ 116 ∷ 112 ∷ 58 ∷ 47 ∷ 47 ∷ 104 ∷ 58 ∷ 56 ∷ 47 ∷ 112 ∷ [])
    ≡ record { host = 104 ∷ []; port = 56 ∷ []; path = 47 ∷ 112 ∷ []; valid = true }
unfolding parse_http_url starts_with find rfind parse_authority
small_url = refl
