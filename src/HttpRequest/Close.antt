-- ===== src/HttpRequest/Close.antt =====
-- http_request_close_connection of test_epoll/lib/http_request.c: when a connection is closed.
use cpyu_ze.Base.{
  ℕ, ◌≡◌, ap, ◌∙◌, true, false, none, some, List, arith, ℤ, pos, ok, halt, null_pointer, codes,
  c_string,
}
use cpyu_ze.Buffer.{starts_with}
use cpyu_ze.HttpRequest.{
  HttpRequest, http_request_get_header, http_request_close_connection, asks_close, is_http10,
}
use cpyu_ze.HttpRequest.Headers.{IsString, strncmp-starts_with}

module _ (diff : ℕ → ℕ → ℤ) (tells : (x y : ℕ) → diff x y ≡ pos 0 → x ≡ y) where
  asks_close_lem :
      (v : List ℕ)
      → IsString v
      → asks_close diff (some v) ≡ ok (starts_with (codes "close") (c_string v))
  unfolding asks_close
  asks_close_lem v is =
      let (z, done, says) = strncmp-starts_with diff tells v (codes "close") is (omega arith) in
      rw done (ap ok says)

  is_http10_lem :
      (v : List ℕ)
      → IsString v
      → is_http10 diff (some v) ≡ ok (starts_with (codes "HTTP/1.0") (c_string v))
  unfolding is_http10
  is_http10_lem v is =
      let (z, done, says) = strncmp-starts_with diff tells v (codes "HTTP/1.0") is (omega arith) in
      rw done (ap ok says)

  http10 :
      (r : HttpRequest) (w : List ℕ)
      → r.version ≡ some w
      → IsString w
      → is_http10 diff r.version ≡ ok (starts_with (codes "HTTP/1.0") (c_string w))
  http10 r w version is = ap (is_http10 diff) version ∙ is_http10_lem w is

  -- A request whose `Connection` header begins with "close" has its connection closed, whatever
  -- its version.
  pub close_connection-close :
      (r : HttpRequest) (v : List ℕ)
      → http_request_get_header diff r "Connection" ≡ ok (some v)
      → IsString v
      → starts_with (codes "close") (c_string v) ≡ true
      → http_request_close_connection diff r ≡ ok true
  unfolding http_request_close_connection
  close_connection-close r v got is close = rw (got, asks_close_lem v is, close)

  -- A request of version 1.1 with no `Connection` header keeps its connection.
  pub close_connection-keep :
      (r : HttpRequest) (w : List ℕ)
      → http_request_get_header diff r "Connection" ≡ ok none
      → r.version ≡ some w
      → IsString w
      → starts_with (codes "HTTP/1.0") (c_string w) ≡ false
      → http_request_close_connection diff r ≡ ok false
  unfolding http_request_close_connection
  close_connection-keep r w got version is_w other = rw (got, http10 r w version is_w, other)

  -- For a request of version 1.0 in which no `Connection` header is found the source compares
  -- NULL with a text.
  pub close_connection_null :
      (r : HttpRequest) (w : List ℕ)
      → http_request_get_header diff r "Connection" ≡ ok none
      → r.version ≡ some w
      → IsString w
      → starts_with (codes "HTTP/1.0") (c_string w) ≡ true
      → http_request_close_connection diff r ≡ halt null_pointer
  unfolding http_request_close_connection
  close_connection_null r w got version is_w old = rw (got, http10 r w version is_w, old)
