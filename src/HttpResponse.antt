-- ===== src/HttpResponse.antt =====
-- test_epoll/lib/http_response.h and http_response.c: a response and how it is written out.
-- A `char *` is the block that it points to (`none` for NULL), as is the array of headers. What
-- `printf` makes of a number is a parameter.
pub mod Strings
pub mod Parts
pub mod Encode
use cpyu_ze.Base.{
  ℕ, zero, suc, ◌+◌, Bool, false, Option, none, some, List, [], ◌∷◌, ◌++◌, if◌then◌else◌, take,
  Outcome, ok, null_pointer, read_at, or_halt, codes, ◌>>=◌,
}
use cpyu_ze.Buffer.{Allocator, Buffer, buffer_append_string, strlen, crlf}

pub record ResponseHeader : Type 0 where
  pub key : Option (List ℕ)
  pub value : Option (List ℕ)

pub record HttpResponse : Type 0 where
  pub status_code : ℕ
  pub status_message : Option (List ℕ)
  pub body : Option (List ℕ)
  pub response_headers : List ResponseHeader
  pub response_headers_number : ℕ
  pub keep_connected : Bool

-- `enum HttpStatusCode`, whose `Unknown` is 0.
abbrev pub unknown : ℕ
unknown = 0

-- `http_response_new`, on the block of headers that `malloc` gave.
unfoldable pub http_response_new : List ResponseHeader → HttpResponse
http_response_new fresh = record {
  body = none;
  status_code = unknown;
  status_message = none;
  response_headers = fresh;
  response_headers_number = 0;
  keep_connected = false;
}

-- `snprintf` into the 32 bytes of `buf`: the text is cut off, if it is too long, and ends in a NUL.
abbrev pub print_to_buf : List ℕ → List ℕ
print_to_buf text = take 31 text ++ 0 ∷ []

-- A string literal with CRLF at its end.
abbrev pub literal_line : List ℕ → List ℕ
literal_line text = (text ++ crlf) ++ 0 ∷ []

module _ (mem : Allocator) (decimal : ℕ → List ℕ) where
  -- The two branches for `keep_connected`.
  unfoldable pub connection_header : HttpResponse → Buffer → Outcome Buffer
  connection_header r output =
      let close =
        buffer_append_string mem output (some (literal_line (codes "Connection: close"))) in
      let keep_alive = (do
        body ← or_halt null_pointer r.body
        size ← strlen body
        output1 ←
            buffer_append_string mem output
              (some (print_to_buf (codes "Content-Length: " ++ (decimal size ++ crlf))))
        buffer_append_string mem output1 (some (literal_line (codes "Connection: Keep-Alive")))) in
      if r.keep_connected then close else keep_alive

  -- The loop over the headers, from `i` on.
  unfoldable pub header_lines : ℕ → ℕ → List ResponseHeader → Buffer → Outcome Buffer
  header_lines zero i headers output = ok output
  header_lines (suc rounds) i headers output = do
    h ← read_at headers i
    output1 ← buffer_append_string mem output h.key
    output2 ← buffer_append_string mem output1 (some (codes ": " ++ 0 ∷ []))
    output3 ← buffer_append_string mem output2 h.value
    output4 ← buffer_append_string mem output3 (some (literal_line []))
    header_lines rounds (i + 1) headers output4

  unfoldable pub http_response_encode_buffer : HttpResponse → Buffer → Outcome Buffer
  http_response_encode_buffer r output = do
    output1 ←
        buffer_append_string mem output
          (some (print_to_buf (codes "HTTP/1.1 " ++ (decimal r.status_code ++ b' ' ∷ []))))
    output2 ← buffer_append_string mem output1 r.status_message
    output3 ← buffer_append_string mem output2 (some (literal_line []))
    output4 ← connection_header r output3
    output5 ← header_lines r.response_headers_number 0 r.response_headers output4
    output6 ← buffer_append_string mem output5 (some (literal_line []))
    buffer_append_string mem output6 r.body
