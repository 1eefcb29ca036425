-- ===== src/HttpResponse/Encode.antt =====
-- http_response_encode_buffer of test_epoll/lib/http_response.c against the text of a response.
use cpyu_ze.Base.{
  ℕ, ◌+◌, ◌≤◌, ◌<◌, ◌≡◌, refl, sym, subst, some, List, [], ◌∷◌, ◌++◌, arith, length, length-append,
  ok, int_limit, codes,
}
use cpyu_ze.Buffer.{Allocator, IsRealloc, Buffer, crlf}
use cpyu_ze.Buffer.Contents.{IsBuffer}
use cpyu_ze.Buffer.Append.{Appended, AllNonzero}
use cpyu_ze.Buffer.Socket.{NeverFails}
use cpyu_ze.HttpRequest.Headers.{Pair}
use cpyu_ze.HttpResponse.{HttpResponse, print_to_buf, literal_line, http_response_encode_buffer}
use cpyu_ze.HttpResponse.Strings.{
  Shows, nonzero-AllNonzero, AllNonzero-append, print_to_buf-Shows, literal_line-Shows,
  Appended-nil, append_next, shorter,
}
use cpyu_ze.HttpResponse.Parts.{
  IsDecimal, headers_text, HasParts, connection_text, response_text, header_lines-Appended,
  connection_header-Appended,
}

module _ (decimal : ℕ → List ℕ) where
  module _ (mem : Allocator) (std : IsRealloc mem) (never : NeverFails mem)
      (prints : IsDecimal decimal) where
    -- The whole response is written behind the contents of a well-formed buffer: its status line, the line
    -- or lines for `keep_connected`, its headers in order, the empty line and the body. This holds for a
    -- response whose body is a string and not NULL, whose status message and headers are strings, whose code
    -- and body length are below 2^31 and whose headers are inside their array (`HasParts`), where every
    -- `realloc` below 2^31 bytes succeeds, and the size of the buffer and the text together stay below 2^31.
    pub encode_buffer-response_text :
        (r : HttpResponse) (message body : List ℕ) (headers : List Pair) (output : Buffer)
        → HasParts r message headers body
        → IsBuffer output
        → output.total_size
            + length (response_text decimal r.status_code r.keep_connected message headers body)
          < int_limit
        → (b : Buffer) × (http_response_encode_buffer mem decimal r output ≡ ok b)
          × Appended output
              (response_text decimal r.status_code r.keep_connected message headers body)
              b
    unfolding http_response_encode_buffer
    encode_buffer-response_text r message body headers output has valid small7 =
        let n : ℕ = output.total_size in
        let code : List ℕ = decimal r.status_code in
        let t1 : List ℕ = codes "HTTP/1.1 " ++ (code ++ b' ' ∷ []) in
        let t3 : List ℕ = (t1 ++ message) ++ crlf in
        let t4 : List ℕ = t3 ++ connection_text decimal r.keep_connected (length body) in
        let t5 : List ℕ = t4 ++ headers_text headers in
        let t6 : List ℕ = t5 ++ crlf in
        let small6 = shorter n t6 body small7 in
        let small5 = shorter n t5 crlf small6 in
        let small4 = shorter n t4 (headers_text headers) small5 in
        let small3 = shorter n t3 (connection_text decimal r.keep_connected (length body)) small4 in
        let small2 = shorter n (t1 ++ message) crlf small3 in
        let small1 = shorter n t1 message small2 in
        let fits : length t1 ≤ 31 = omega (
          arith,
          length-append (codes "HTTP/1.1 ") (code ++ b' ' ∷ []),
          length-append code (b' ' ∷ []),
          prints.short r.status_code has.code_small,
        ) in
        let plain1 : AllNonzero t1 =
          AllNonzero-append (codes "HTTP/1.1 ") (code ++ b' ' ∷ [])
            (nonzero-AllNonzero (codes "HTTP/1.1 ") refl)
            (AllNonzero-append code (b' ' ∷ []) (prints.plain r.status_code)
              (nonzero-AllNonzero (b' ' ∷ []) refl)) in
        let line : Shows (some (literal_line [])) crlf = literal_line-Shows [] tt in
        let (c1, e1, a1) =
          append_next mem std never output output [] t1 (some (print_to_buf t1))
            (Appended-nil output valid) (print_to_buf-Shows t1 plain1 fits) small1 in
        let (c2, e2, a2) =
          append_next mem std never output c1 t1 message r.status_message a1 has.message_is
            small2 in
        let (c3, e3, a3) =
          append_next mem std never output c2 (t1 ++ message) crlf (some (literal_line [])) a2 line
            small3 in
        let (c4, e4, a4) =
          connection_header-Appended decimal mem std never prints r output c3 t3 body has.behind
            has.body_plain has.body_is has.body_small a3 small4 in
        let (c5, e5, a5) =
          header_lines-Appended decimal mem std never prints r.response_headers_number 0
            r.response_headers headers output c4 t4 (omega (arith, has.headers_room))
            has.headers_are a4 small5 in
        let (c6, e6, a6) =
          append_next mem std never output c5 t5 crlf (some (literal_line [])) a5 line small6 in
        let (c7, e7, a7) =
          append_next mem std never output c6 t6 body r.body a6
            (subst (λ s. Shows s body) (sym has.body_is) (has.body_plain, (has.behind, refl)))
            small7 in
        (c7, rw (e1, e2, e3, e4, e5, e6) e7, a7)
