-- ===== src/HttpRequest.antt =====
-- test_epoll/lib/http_request.h and http_request.c: a request as it is parsed.
-- A `char *` is the block that it points to (`none` for NULL). The array of headers is the block
-- that `malloc` gave, with whatever stands in the places not yet used.
pub mod Headers
pub mod Close
use cpyu_ze.Base.{
  ℕ, zero, suc, ◌+◌, Bool, true, false, Option, none, some, List, [], ◌∷◌, ltb, if◌then◌else◌,
  length, set, ℤ, pos, eq_ℤ, Outcome, ok, halt, out_of_bounds, null_pointer, int_add, read_at,
  or_halt, codes, literal, strncmp, ◌>>=◌,
}
use Prim.Native.String.{String}

pub record RequestHeader : Type 0 where
  pub key : List ℕ
  pub value : List ℕ

pub data HttpRequestState : Type 0 where
  request_status request_headers request_body request_done : HttpRequestState

pub record HttpRequest : Type 0 where
  pub version : Option (List ℕ)
  pub method : Option (List ℕ)
  pub url : Option (List ℕ)
  pub current_state : HttpRequestState
  pub header_block : List RequestHeader
  pub request_headers_number : ℕ

-- `malloc(sizeof(struct http_request) * INIT_REQUEST_HEADER_SIZE)` has 128 times 48 bytes on a
-- 64-bit machine, which is room for 384 headers of 16 bytes.
abbrev pub header_room : ℕ
header_room = 384

-- `http_request_new`, on the block of headers that `malloc` gave.
unfoldable pub http_request_new : List RequestHeader → HttpRequest
http_request_new fresh = record {
  method = none;
  current_state = request_status;
  version = none;
  url = none;
  header_block = fresh;
  request_headers_number = 0;
}

-- The loop of `http_request_clear`: the blocks that it frees, key and value of each header.
clear_headers : ℕ → ℕ → List RequestHeader → Outcome (List (List ℕ))
clear_headers zero i headers = ok []
clear_headers (suc rounds) i headers = do
  h ← read_at headers i
  rest ← clear_headers rounds (i + 1) headers
  ok (h.key ∷ h.value ∷ rest)

-- `http_request_clear`: what is freed besides the array and the request itself.
unfoldable pub http_request_clear : HttpRequest → Outcome (List (List ℕ))
unfolding clear_headers
http_request_clear r = clear_headers r.request_headers_number 0 r.header_block

unfoldable pub http_request_reset : HttpRequest → HttpRequest
http_request_reset r = record r {
  method = none;
  current_state = request_status;
  version = none;
  url = none;
  request_headers_number = 0;
}

-- The array is not checked for room: a header beyond it is written behind the block.
unfoldable pub http_request_add_header : HttpRequest → List ℕ → List ℕ → Outcome HttpRequest
http_request_add_header r key value =
    if ltb r.request_headers_number (length r.header_block)
    then (do
      number ← int_add r.request_headers_number 1
      ok (record r {
        header_block =
            set r.header_block r.request_headers_number (record { key = key; value = value });
        request_headers_number = number;
      }))
    else halt out_of_bounds

module _ (diff : ℕ → ℕ → ℤ) where
  -- The loop of `http_request_get_header`; `key` is a literal.
  get_from : ℕ → ℕ → List RequestHeader → String → Outcome (Option (List ℕ))
  get_from zero i headers key = ok none
  get_from (suc rounds) i headers key = do
    h ← read_at headers i
    order ← strncmp diff h.key (literal key) (length (codes key))
    let rest = get_from rounds (i + 1) headers key
    if eq_ℤ order (pos 0) then ok (some h.value) else rest

  -- `http_request_get_header`; `none` is NULL.
  unfoldable pub http_request_get_header : HttpRequest → String → Outcome (Option (List ℕ))
  unfolding get_from
  http_request_get_header r key = get_from r.request_headers_number 0 r.header_block key

  -- `connection != NULL && strncmp(connection, CLOSE, strlen(CLOSE)) == 0`
  asks_close : Option (List ℕ) → Outcome Bool
  asks_close none = ok false
  asks_close (some c) = do order ← strncmp diff c (literal "close") 5; ok (eq_ℤ order (pos 0))

  -- `version != NULL && strncmp(version, HTTP10, strlen(HTTP10)) == 0`
  is_http10 : Option (List ℕ) → Outcome Bool
  is_http10 none = ok false
  is_http10 (some v) = do order ← strncmp diff v (literal "HTTP/1.0") 8; ok (eq_ℤ order (pos 0))

  -- `strncmp(connection, KEEP_ALIVE, strlen(KEEP_ALIVE)) == 1`, with no test for NULL.
  not_keep_alive : Option (List ℕ) → Outcome Bool
  not_keep_alive connection = do
    c ← or_halt null_pointer connection
    order ← strncmp diff c (literal "Keep-Alive") 10
    ok (eq_ℤ order (pos 1))

  unfoldable pub http_request_close_connection : HttpRequest → Outcome Bool
  unfolding asks_close is_http10 not_keep_alive
  http_request_close_connection r = do
    connection ← http_request_get_header r "Connection"
    closing ← asks_close connection
    let compared = not_keep_alive connection
    let second = (do old ← is_http10 r.version; if old then compared else ok false)
    if closing then ok true else second
