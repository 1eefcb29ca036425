-- ===== src/HttpServer.antt =====
-- test_epoll/lib/http_server.c: the parser of requests.
-- `start` and `end` of the source are the two ends of a list. What `malloc` gives is not checked
-- for NULL, and its bytes are not known.
pub mod Tokens
pub mod StatusLine
pub mod Waiting
pub mod HeaderLines
pub mod RoundTrip
pub mod Callbacks
use cpyu_ze.Base.{
  ℕ, zero, suc, ◌+◌, ◌-◌, Bool, true, false, none, some, List, [], ◌∷◌, ◌==◌, if◌then◌else◌, length,
  take, drop, Outcome, ok, halt, assertion, no_fuel, int_add, or_halt, strncpy, write_at, ◌>>=◌,
}
use cpyu_ze.Buffer.{Allocator, block, Buffer, memmem, readable_bytes, buffer_find_crlf}
use cpyu_ze.HttpRequest.{
  HttpRequest, HttpRequestState, request_status, request_headers, request_body, request_done,
  http_request_add_header,
}

abbrev pub space : List ℕ
space = b' ' ∷ []

-- ": "
abbrev pub colon_space : List ℕ
colon_space = b':' ∷ b' ' ∷ []

abbrev pub is_done : HttpRequestState → Bool
is_done request_done = true
is_done request_status = false
is_done request_headers = false
is_done request_body = false

module _ (mem : Allocator) where
  -- A method, URL or version: `malloc(n + 1)`, `strncpy` of `n` bytes, and a NUL at `n + 1`.
  unfoldable pub copy_token : List ℕ → ℕ → Outcome (List ℕ)
  copy_token src n = do
    copied ← strncpy (block (mem.malloc (n + 1))) src n
    write_at copied (n + 1) 0

  -- A key or a value of a header: the same, with the NUL at `n`.
  unfoldable pub copy_field : List ℕ → ℕ → Outcome (List ℕ)
  copy_field src n = do copied ← strncpy (block (mem.malloc (n + 1))) src n; write_at copied n 0

  -- `process_status_line` on the bytes between `start` and `end`: the size of the line.
  unfoldable pub process_status_line : List ℕ → HttpRequest → Outcome (ℕ × HttpRequest)
  process_status_line line r = do
    method_size ← or_halt assertion (memmem line space)
    method ← copy_token line method_size
    let after_method = drop (method_size + 1) line
    url_size ← or_halt assertion (memmem after_method space)
    url ← copy_token after_method url_size
    let after_url = drop (url_size + 1) after_method
    version ← copy_token after_url (length after_url)
    ok (length line, record r { method = some method; url = some url; version = some version })

  -- `input->readIndex += n`
  advance : Buffer → ℕ → Outcome Buffer
  advance b n = do read_index ← int_add b.read_index n; ok (record b { read_index = read_index })

  -- The branch for `REQUEST_STATUS`, when a line is there.
  status_line : Buffer → HttpRequest → List ℕ → Outcome (Buffer × HttpRequest)
  status_line b r line = do
    (size, r1) ← process_status_line line r
    let next = (do
      b1 ← advance b size
      b2 ← advance b1 2
      ok (b2, record r1 { current_state = request_headers }))
    if size == 0 then ok (b, r1) else next

  -- The branch for `REQUEST_HEADERS`, when a line is there. A line without ": " is taken for the
  -- empty line that ends the headers.
  unfoldable pub header_line : Buffer → HttpRequest → List ℕ → Outcome (Buffer × HttpRequest)
  unfolding advance
  header_line b r line = elim (memmem line colon_space) [
    | some key_size ↦ (do
      key ← copy_field line key_size
      value ← copy_field (drop (key_size + 2) line) (length line - key_size - 2)
      r1 ← http_request_add_header r key value
      b1 ← advance b (length line)
      b2 ← advance b1 2
      ok (b2, r1))
    | none ↦ (do b1 ← advance b 2; ok (b1, record r { current_state = request_done }))
  ]

  -- The line in front of the CRLF at place `i` of the readable bytes.
  with_line :
      Buffer
      → HttpRequest
      → (List ℕ → Outcome (Buffer × HttpRequest))
      → Outcome (Buffer × HttpRequest)
  with_line b r branch = do
    crlf_at ← buffer_find_crlf b
    elim crlf_at [ none ↦ ok (b, r) | some i ↦ (do text ← readable_bytes b; branch (take i text)) ]

  -- One round of the loop in `parse_http_request`, by the state.
  unfoldable pub parse_round :
      HttpRequestState → Buffer → HttpRequest → Outcome (Buffer × HttpRequest)
  unfolding status_line with_line advance
  parse_round request_status b r = with_line b r (status_line b r)
  parse_round request_headers b r = with_line b r (header_line b r)
  parse_round request_body b r = ok (b, r)
  parse_round request_done b r = ok (b, r)

  -- `parse_http_request`, on fuel: its result is always 1. A request with `n` headers takes
  -- `n + 3` rounds.
  unfoldable pub parse_http_request : ℕ → Buffer → HttpRequest → Outcome (ℕ × Buffer × HttpRequest)
  parse_http_request zero b r = halt no_fuel
  parse_http_request (suc fuel) b r =
      let next = (do (b1, r1) ← parse_round r.current_state b r; parse_http_request fuel b1 r1) in
      if is_done r.current_state then ok (1, b, r) else next
