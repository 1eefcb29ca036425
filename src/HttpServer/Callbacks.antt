-- ===== src/HttpServer/Callbacks.antt =====
-- test_epoll/lib/http_server.h and http_server.c: the callbacks that join the parser of requests, the
-- response and the connection.
-- `HttpConnection` is a connection with the pointers that only this file uses; `shut` says whether
-- its sending side was shut down, and `written` has the data of each call of `write` for it, in order.
-- What the application's callback makes of a request is a parameter.
pub mod Responds
use cpyu_ze.Base.{
  ℕ, Bool, true, Option, none, some, List, [], ◌∷◌, ◌++◌, ◌==◌, if◌then◌else◌, ℤ, Outcome, ok,
  null_pointer, or_halt, take, codes, ◌>>=◌,
}
use cpyu_ze.Buffer.{Allocator, buffer_new, readable_bytes, crlf}
use cpyu_ze.HttpRequest.{
  RequestHeader, HttpRequest, http_request_new, http_request_clear, http_request_reset,
  http_request_close_connection,
}
use cpyu_ze.HttpResponse.{
  ResponseHeader, HttpResponse, http_response_new, http_response_encode_buffer,
}
use cpyu_ze.TcpConnection.{Connection, tcp_connection_send_data, tcp_connection_send_buffer}
use cpyu_ze.HttpServer.{parse_http_request, is_done}

pub record HttpConnection : Type 0 where
  pub tcp : Connection
  pub request : Option HttpRequest
  pub shut : Bool
  pub written : List (List ℕ)

-- `request_callback`
abbrev pub RequestCallback : Type 0
RequestCallback = HttpRequest → HttpResponse → HttpResponse

-- `tcp_connection_shutdown`, which only logs a failure of `shutdown`.
abbrev pub tcp_connection_shutdown : HttpConnection → HttpConnection
tcp_connection_shutdown c = record c { shut = true }

-- `http_onConnectionCompleted`, on the block of headers that `malloc` gave.
unfoldable pub http_on_connection_completed : List RequestHeader → HttpConnection → HttpConnection
http_on_connection_completed fresh c = record c { request = some (http_request_new fresh) }

-- `http_onConnectionClosed`
unfoldable pub http_on_connection_closed : HttpConnection → Outcome HttpConnection
http_on_connection_closed c = elim c.request [
  | none ↦ ok c
  | some r ↦ (do freed ← http_request_clear r; ok (record c { request = none }))
]

-- The literal `error_response` with its NUL.
abbrev pub error_response : List ℕ
error_response = (codes "HTTP/1.1 400 Bad Request" ++ (crlf ++ crlf)) ++ 0 ∷ []

-- `if (httpServer->requestCallback != NULL)`
abbrev pub answer : Option RequestCallback → HttpRequest → HttpResponse → HttpResponse
answer none r response = response
answer (some f) r response = f r response

module _ (mem : Allocator) (decimal : ℕ → List ℕ) (diff : ℕ → ℕ → ℤ)
    (callback : Option RequestCallback) where
  -- The branch for a request that was read to its end. `write` is what `write` returns for the bytes that it
  -- is called with, and `fresh` the block of headers of the response.
  respond :
      (List ℕ → ℤ) → List ResponseHeader → HttpRequest → HttpConnection → Outcome HttpConnection
  respond write fresh r c = do
    buffer ← or_halt null_pointer (buffer_new mem true)
    encoded ←
        http_response_encode_buffer mem decimal (answer callback r (http_response_new fresh)) buffer
    bytes ← readable_bytes encoded
    (result, passed, tcp, spent) ← tcp_connection_send_buffer mem (write bytes) c.tcp encoded
    closes ← http_request_close_connection diff r
    let c1 = record c {
      tcp = tcp;
      request = some (http_request_reset r);
      written = c.written ++ passed;
    }
    ok (if closes then tcp_connection_shutdown c1 else c1)

  -- The branch for a parser that returned 0. `sizeof(error_response)` is the size of a pointer.
  reject : (List ℕ → ℤ) → HttpConnection → Outcome HttpConnection
  reject write c = do
    (result, passed, tcp) ←
        tcp_connection_send_data mem (write (take 8 error_response)) c.tcp error_response 8
    ok (tcp_connection_shutdown (record c { tcp = tcp; written = c.written ++ passed }))

  -- `http_onMessage`, with so many rounds for the parser.
  unfoldable pub http_on_message :
      ℕ → (List ℕ → ℤ) → List ResponseHeader → HttpConnection → Outcome HttpConnection
  unfolding respond reject
  http_on_message fuel write fresh c = do
    r ← or_halt null_pointer c.request
    (parsed, input, r1) ← parse_http_request mem fuel c.tcp.input_buffer r
    let c1 = record c { tcp = record (c.tcp) { input_buffer = input }; request = some r1 }
    let rejected = reject write c1
    c2 ← (if parsed == 0 then rejected else ok c1)
    let responded = respond write fresh r1 c2
    if is_done r1.current_state then responded else ok c2
