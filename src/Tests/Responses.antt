-- ===== src/Tests/Responses.antt =====
-- Runs of test_epoll/lib/http_response.c and http_server.c on small values.
use cpyu_ze.Base.{
  zero, suc, ◌/◌, ◌%◌, ◌≤◌, ltb, replicate, length-append, Bool-cases, inl, inr, codes, ℕ, ◌+◌, ◌≡◌,
  refl, false, none, some, ℤ, ◌==◌, List, [], ◌∷◌, ◌++◌, arith, length, if◌then◌else◌, pos, ok,
}
use cpyu_ze.Buffer.{Allocator, Buffer, crlf}
use cpyu_ze.Buffer.Append.{Appended, AllNonzero}
use cpyu_ze.HttpRequest.{HttpRequest, request_status, request_done}
use cpyu_ze.HttpResponse.{HttpResponse, http_response_encode_buffer}
use cpyu_ze.HttpResponse.Strings.{nonzero-AllNonzero, AllNonzero-append}
use cpyu_ze.HttpResponse.Parts.{IsDecimal, HasParts, response_text}
use cpyu_ze.HttpResponse.Encode.{encode_buffer-response_text}
use cpyu_ze.HttpServer.Callbacks.{HttpConnection, RequestCallback}
use cpyu_ze.Tests.{roomy, roomy-IsRealloc, roomy-NeverFails}
use cpyu_ze.Tests.Connections.{empty_buffer, quiet, empty_buffer-IsBuffer}

-- A response with a NUL behind its message and its body, and with one header.
abbrev greeting : HttpResponse
greeting = record {
  status_code = 200;
  status_message = some (codes "OK" ++ 0 ∷ []);
  body = some (codes "hi" ++ 0 ∷ []);
  response_headers =
      record { key = some (codes "A" ++ 0 ∷ []); value = some (codes "b" ++ 0 ∷ []) } ∷ [];
  response_headers_number = 1;
  keep_connected = false;
}

-- The digits of a number below 10^10.
abbrev digits : ℕ → ℕ → List ℕ
digits zero n = []
digits (suc fuel) n =
    let more = digits fuel (n / 10) in
    if ltb n 10 then (48 + n) ∷ [] else more ++ (48 + n % 10) ∷ []

abbrev decimal : ℕ → List ℕ
decimal n = digits 10 n

digits-plain : (fuel n : ℕ) → AllNonzero (digits fuel n)
digits-plain zero n = tt
digits-plain (suc fuel) n = elim (Bool-cases (ltb n 10)) [
  | inl small ↦ rw small ((λ e. omega (arith, e)), tt)
  | inr large ↦ rw large (
      AllNonzero-append (digits fuel (n / 10)) _ (digits-plain fuel (n / 10))
        ((λ e. omega (arith, e)), tt))
]

digits-short : (fuel n : ℕ) → length (digits fuel n) ≤ fuel
digits-short zero n = omega arith
digits-short (suc fuel) n = elim (Bool-cases (ltb n 10)) [
  | inl small ↦ rw small (omega arith)
  | inr large ↦ rw large (
      omega (
        arith,
        digits-short fuel (n / 10),
        length-append (digits fuel (n / 10)) ((48 + n % 10) ∷ []),
      ))
]

decimal-IsDecimal : IsDecimal decimal
decimal-IsDecimal = record { plain = λ n. digits-plain 10 n; short = λ n small. digits-short 10 n }

greeting-HasParts : HasParts greeting (codes "OK") ((codes "A", codes "b") ∷ []) (codes "hi")
greeting-HasParts = record {
  code_small = omega arith;
  message_is = (nonzero-AllNonzero (codes "OK") refl, ([], refl));
  headers_room = omega arith;
  headers_are = (
    (
      (nonzero-AllNonzero (codes "A") refl, ([], refl)),
      (nonzero-AllNonzero (codes "b") refl, ([], refl)),
    ),
    tt,
  );
  behind = [];
  body_plain = nonzero-AllNonzero (codes "hi") refl;
  body_is = refl;
  body_small = omega arith;
}

abbrev greeting_text : List ℕ
greeting_text =
    response_text decimal 200 false (codes "OK") ((codes "A", codes "b") ∷ []) (codes "hi")

greeting_length : length greeting_text ≡ 70
greeting_length = refl

encode_buffer-response_text_example :
    (b : Buffer) × (http_response_encode_buffer roomy decimal greeting empty_buffer ≡ ok b)
    × Appended empty_buffer greeting_text b
encode_buffer-response_text_example =
    encode_buffer-response_text decimal roomy roomy-IsRealloc roomy-NeverFails decimal-IsDecimal
      greeting (codes "OK") (codes "hi") ((codes "A", codes "b") ∷ []) empty_buffer
      greeting-HasParts empty_buffer-IsBuffer (omega (arith, greeting_length))

-- An allocator that has a byte to spare in each small block, and grows its blocks.
abbrev spare : Allocator
spare = record {
  malloc = λ n. some (replicate (if n == 65536 then n else n + 1) 0);
  realloc = roomy.realloc;
}

-- A request that waits for its first line, and a whole one that asks to close.
abbrev waiting : HttpRequest
waiting = record {
  version = none;
  method = none;
  url = none;
  current_state = request_status;
  header_block = record { key = []; value = [] } ∷ [];
  request_headers_number = 0;
}

abbrev lines_in : Buffer
lines_in = record {
  bytes = codes "GET / HTTP/1.1" ++ (crlf ++ (codes "Connection: close" ++ (crlf ++ crlf)));
  read_index = 0;
  write_index = 37;
  total_size = 37;
}

abbrev complete : HttpRequest
complete = record {
  version = some (codes "HTTP/1.1" ++ 0 ∷ 0 ∷ []);
  method = some (codes "GET" ++ 0 ∷ 0 ∷ []);
  url = some (codes "/" ++ 0 ∷ 0 ∷ []);
  current_state = request_done;
  header_block =
      record { key = codes "Connection" ++ 0 ∷ 0 ∷ []; value = codes "close" ++ 0 ∷ 0 ∷ [] } ∷ [];
  request_headers_number = 1;
}

abbrev greet : RequestCallback
greet r response = record response {
  status_code = 200;
  status_message = greeting.status_message;
  body = greeting.body;
  response_headers = greeting.response_headers;
  response_headers_number = 1;
}

abbrev http_connection : HttpConnection
http_connection = record {
  tcp = record quiet { input_buffer = lines_in };
  request = some waiting;
  shut = false;
  written = [];
}

-- The socket takes all bytes.
abbrev take_all_bytes : List ℕ → ℤ
take_all_bytes bytes = pos (length bytes)
