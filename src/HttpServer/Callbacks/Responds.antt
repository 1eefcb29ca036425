-- ===== src/HttpServer/Callbacks/Responds.antt =====
-- What http_onMessage of test_epoll/lib/http_server.c sends for a request that is complete.
use cpyu_ze.Base.{[], ◌++◌, ◌∷◌, ℕ, Bool, some, List, if◌then◌else◌}
use cpyu_ze.Buffer.{Buffer, init_buffer_size}
use cpyu_ze.HttpRequest.{HttpRequest, http_request_reset}
use cpyu_ze.HttpResponse.{HttpResponse}
use cpyu_ze.HttpServer.Callbacks.{HttpConnection, tcp_connection_shutdown}

-- A buffer as `buffer_new` makes it.
abbrev new_buffer : List ℕ → Buffer
new_buffer block = record {
  bytes = block;
  total_size = init_buffer_size;
  read_index = 0;
  write_index = 0;
}

-- The connection when its request was answered with a text, in one call of `write`.
abbrev pub answered : HttpConnection → HttpRequest → List ℕ → Bool → HttpConnection
answered c r text closes =
    let ready : HttpConnection = record c {
      request = some (http_request_reset r);
      written = c.written ++ text ∷ [];
    } in
    if closes then tcp_connection_shutdown ready else ready
