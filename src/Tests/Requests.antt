-- ===== src/Tests/Requests.antt =====
-- Runs of test_epoll/lib/http_request.c and http_server.c on short requests.
use cpyu_ze.Base.{
  ℕ, ◌≡◌, refl, none, List, [], ◌∷◌, ◌++◌, arith, length, ok, halt, no_fuel, out_of_bounds, ◌⊎◌,
  codes, literal,
}
use cpyu_ze.Buffer.{Buffer, buffer_find_crlf, readable_bytes, memmem, buffer_readable_size}
use cpyu_ze.Buffer.Contents.{contents, IsBuffer}
use cpyu_ze.HttpRequest.{
  RequestHeader, HttpRequest, request_status, request_done, http_request_get_header,
}
use cpyu_ze.HttpRequest.Headers.{stored, find_prefix, get_header-find_prefix}
use cpyu_ze.HttpServer.{parse_http_request}
use cpyu_ze.HttpServer.StatusLine.{Begins, IsStatus, status_text}
use cpyu_ze.HttpServer.Tokens.{HasTight}
use cpyu_ze.HttpServer.Waiting.{parse_http_request_spins}
use cpyu_ze.HttpServer.HeaderLines.{IsHeader, line_end}
use cpyu_ze.HttpServer.RoundTrip.{
  request_text, headers_text, parse_http_request-request_text, parse_http_request_overflow,
}
use cpyu_ze.Tests.{roomy, roomy-GivesBlocks, tight, tight-GivesExact, diff, diff_tells, avoids_lem}

abbrev get_method : List ℕ
get_method = codes "GET"

abbrev root_url : List ℕ
root_url = codes "/"

abbrev version_11 : List ℕ
version_11 = codes "HTTP/1.1"

abbrev blank_header : RequestHeader
blank_header = record { key = []; value = [] }

-- A request that was just made, with room for two headers.
abbrev new_request : HttpRequest
new_request = record {
  version = none;
  method = none;
  url = none;
  current_state = request_status;
  header_block = blank_header ∷ blank_header ∷ [];
  request_headers_number = 0;
}

get-IsStatus : IsStatus get_method root_url version_11
get-IsStatus = record {
  method_word = avoids_lem b' ' get_method refl;
  url_word = avoids_lem b' ' root_url refl;
  method_text = avoids_lem 0 get_method refl;
  url_text = avoids_lem 0 root_url refl;
  version_text = avoids_lem 0 version_11 refl;
}

abbrev header : List ℕ × List ℕ
header = (codes "Host", codes "a")

header-IsHeader : IsHeader header
header-IsHeader = record {
  key_word = avoids_lem b':' header.0 refl;
  key_line = avoids_lem 13 header.0 refl;
  key_text = avoids_lem 0 header.0 refl;
  value_line = avoids_lem 13 header.1 refl;
  value_text = avoids_lem 0 header.1 refl;
}

-- One request, with the start of another behind it.
abbrev stream : List ℕ
stream = request_text get_method root_url version_11 (header ∷ []) (codes "GE")

stream-length : length stream ≡ 29
unfolding request_text headers_text
stream-length = refl

abbrev received : Buffer
received = record { bytes = stream; read_index = 0; write_index = 29; total_size = 29 }

received-IsBuffer : IsBuffer received
received-IsBuffer = record {
  block_is = stream-length;
  read_le = omega arith;
  write_le = omega arith;
  small = omega arith;
}

received-contents : contents received ≡ stream
unfolding request_text headers_text
received-contents = refl

parse_http_request-request_text_example :
    ((parse_http_request roomy 4 received new_request ≡ halt out_of_bounds) × HasTight roomy)
    ⊎ ((b' : Buffer) × (r' : HttpRequest) × (parse_http_request roomy 4 received new_request
          ≡ ok (1, b', r'))
        × IsBuffer b'
        × (contents b' ≡ codes "GE")
        × (r'.current_state ≡ request_done)
        × (stored r' ≡ stored new_request ++ header ∷ [])
        × Begins r'.method get_method
        × Begins r'.url root_url
        × Begins r'.version version_11)
parse_http_request-request_text_example =
    parse_http_request-request_text roomy roomy-GivesBlocks get_method root_url version_11
      (codes "GE") (header ∷ []) received new_request refl received-IsBuffer received-contents
      get-IsStatus (avoids_lem 13 (status_text get_method root_url version_11) refl)
      (header-IsHeader, tt) (omega arith) (omega arith)

parse_http_request_overflow_example :
    parse_http_request tight 1 received new_request ≡ halt out_of_bounds
unfolding request_text headers_text
parse_http_request_overflow_example =
    parse_http_request_overflow tight tight-GivesExact 0 received new_request get_method
      (codes "/ HTTP/1.1") (codes "Host: a" ++ line_end (line_end (codes "GE")))
      (0 ∷ 0 ∷ 0 ∷ 0 ∷ []) refl received-IsBuffer received-contents
      (avoids_lem b' ' get_method refl) (avoids_lem 0 get_method refl)
      (avoids_lem 0 (codes "/ HTTP/1.1") refl) (avoids_lem 13 (codes "GET / HTTP/1.1") refl) refl

-- The first bytes of a request, with no line end yet.
abbrev partial : Buffer
partial = record { bytes = codes "GET"; read_index = 0; write_index = 3; total_size = 3 }

no_line_yet : buffer_find_crlf partial ≡ ok none
unfolding buffer_find_crlf memmem readable_bytes buffer_readable_size
no_line_yet = refl

parse_http_request_spins_example : parse_http_request roomy 50 partial new_request ≡ halt no_fuel
parse_http_request_spins_example =
    parse_http_request_spins roomy 50 partial new_request refl no_line_yet

-- The array of two headers is full.
abbrev full_request : HttpRequest
full_request = record new_request {
  header_block =
      record { key = literal "Connection-Id"; value = literal "7" }
      ∷ record { key = literal "Connection"; value = literal "close" }
      ∷ [];
  request_headers_number = 2;
}

get_header-find_prefix_example :
    http_request_get_header diff full_request "Connection"
    ≡ ok (find_prefix (codes "Connection") full_request.header_block)
get_header-find_prefix_example =
    get_header-find_prefix diff diff_tells full_request "Connection" (omega arith) (tt, (tt, tt))
      (avoids_lem 0 (codes "Connection") refl)
