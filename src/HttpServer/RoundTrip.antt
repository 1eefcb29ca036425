-- ===== src/HttpServer/RoundTrip.antt =====
-- A whole request, written out and read by parse_http_request of test_epoll/lib/http_server.c.
use cpyu_ze.Base.{
  ◌⊎◌, inl, inr, halt, out_of_bounds, if◌then◌else◌, ◌>>=◌, ℕ, suc, ◌+◌, ◌≤◌, ◌<◌, ◌≡◌, refl, sym,
  ap, subst, ◌∙◌, List, [], ◌∷◌, ◌++◌, arith, length, append_assoc, append-nil, ok, some, int_limit,
  c_string, Avoids,
}
use cpyu_ze.Buffer.{Allocator, Buffer}
use cpyu_ze.Buffer.Contents.{contents, IsBuffer}
use cpyu_ze.HttpRequest.{
  HttpRequest, HttpRequestState, request_status, request_headers, request_done,
}
use cpyu_ze.HttpRequest.Headers.{Pair, stored, HasAdded}
use cpyu_ze.HttpServer.{parse_http_request, parse_round, is_done}
use cpyu_ze.HttpServer.Tokens.{HasTight, GivesBlocks, GivesExact}
use cpyu_ze.HttpServer.StatusLine.{Begins, IsStatus, status_text}
use cpyu_ze.HttpServer.HeaderLines.{
  line_end, Left, IsHeader, header_text, status_round, status_round_overflow, header_round,
  end_round,
}
use cpyu_ze.HttpServer.Waiting.{parse_step}

abbrev pub AllHeaders : List Pair → Type 0
AllHeaders [] = Unit
AllHeaders (h ∷ hs) = IsHeader h × AllHeaders hs

-- The text of the headers and the empty line, with what follows in the stream.
unfoldable pub headers_text : List Pair → List ℕ → List ℕ
headers_text [] rest = line_end rest
headers_text (h ∷ hs) rest = header_text h ++ line_end (headers_text hs rest)

-- The request as a client writes it.
unfoldable pub request_text : List ℕ → List ℕ → List ℕ → List Pair → List ℕ → List ℕ
request_text m u v hs rest = status_text m u v ++ line_end (headers_text hs rest)

-- The request after its headers were read: they are behind those it had, and the rest stays.
pub record HasHeaders (r : HttpRequest) (hs : List Pair) (r' : HttpRequest) : Type 0 where
  pub complete : r'.current_state ≡ request_done
  pub stored_is : stored r' ≡ stored r ++ hs
  pub method_same : r'.method ≡ r.method
  pub url_same : r'.url ≡ r.url
  pub version_same : r'.version ≡ r.version

stored_same :
    (r r1 : HttpRequest)
    → r1.request_headers_number ≡ r.request_headers_number
    → r1.header_block ≡ r.header_block
    → stored r1 ≡ stored r
stored_same r r1 en eb = rw (en, eb) refl

HasHeaders-cons :
    (r r1 r2 : HttpRequest) (key value : List ℕ) (h : Pair) (hs : List Pair)
    → HasAdded r key value r1
    → c_string key ≡ h.0
    → c_string value ≡ h.1
    → HasHeaders r1 hs r2
    → HasHeaders r (h ∷ hs) r2
HasHeaders-cons r r1 r2 key value h hs add ek ev has = record {
  complete = has.complete;
  stored_is =
      has.stored_is
      ∙ ap (λ l. l ++ hs) (add.stored_is ∙ rw (ek, ev))
      ∙ append_assoc (stored r) (h ∷ []) hs;
  method_same = has.method_same ∙ add.method_same;
  url_same = has.url_same ∙ add.url_same;
  version_same = has.version_same ∙ add.version_same;
}

module _ (mem : Allocator) where
  parse_headers :
      GivesBlocks mem
      → (hs : List Pair) (b : Buffer) (r : HttpRequest) (rest : List ℕ)
      → r.current_state ≡ request_headers
      → Left (headers_text hs rest) b
      → AllHeaders hs
      → r.request_headers_number + length hs ≤ length r.header_block
      → length r.header_block < int_limit
      → (b' : Buffer) × (r' : HttpRequest) × (parse_http_request mem (length hs + 2) b r
          ≡ ok (1, b', r'))
        × Left rest b'
        × HasHeaders r hs r'
  unfolding headers_text
  parse_headers gives [] b r rest at l all room small =
      let (b', round, left) = end_round mem b r rest l in
      let r' : HttpRequest = record r { current_state = request_done } in
      let stop : parse_http_request mem 1 b' r' ≡ ok (1, b', r') =
        unfold parse_http_request in refl in
      (
        b',
        r',
        parse_step mem 1 request_headers b b' r r' at refl round ∙ stop,
        left,
        record {
          complete = refl;
          stored_is = sym (append-nil (stored r));
          method_same = refl;
          url_same = refl;
          version_same = refl;
        },
      )
  parse_headers gives (h ∷ hs) b r rest at l all room small =
      let (b1, r1, key, value, round, left, added, ek, ev) =
        header_round mem gives b r h.0 h.1 (headers_text hs rest) all.0 l (omega arith) small in
      let (b2, r2, done, left2, has) =
        parse_headers gives hs b1 r1 rest (added.state_same ∙ at) left all.1
          (omega (arith, added.number_is, added.room_same)) (omega (arith, added.room_same)) in
      let fuel : length (h ∷ hs) + 2 ≡ suc (length hs + 2) = omega arith in
      (
        b2,
        r2,
        ap (λ n. parse_http_request mem n b r) fuel
            ∙ parse_step mem (length hs + 2) request_headers b b1 r r1 at refl round
            ∙ done,
        left2,
        HasHeaders-cons r r1 r2 key value h hs added ek ev has,
      )

  parse_out :
      (fuel : ℕ) (b : Buffer) (r : HttpRequest)
      → r.current_state ≡ request_status
      → parse_round mem request_status b r ≡ halt out_of_bounds
      → parse_http_request mem (suc fuel) b r ≡ halt out_of_bounds
  unfolding parse_http_request
  parse_out fuel b r at out =
      ap
        (λ (t : HttpRequestState).
          if is_done t
          then ok (1, b, r)
          else (parse_round mem t b r >>= λ x. parse_http_request mem fuel x.0 x.1))
        at
      ∙ rw out refl

  -- Every `malloc` succeeds and gives a block of at least the size asked for, with any bytes in it. The
  -- buffer is well formed and holds a complete request: a first line whose method and URL have no space and
  -- which has no CR and no NUL, headers whose keys have no colon and which have no CR and no NUL, and the empty
  -- line. The array of headers has room for them, and fewer than 2^31 places. Then the parser writes outside a
  -- block of the first line, and this only where `malloc` gave some block of just the size asked for; or the
  -- request is read in `n + 3` rounds, for `n` headers: the blocks for method, URL and version begin with
  -- them, all headers are stored in order behind those that were there, the state is the last, and the bytes
  -- behind the request stay in the buffer.
  pub parse_http_request-request_text :
      GivesBlocks mem
      → (m u v rest : List ℕ) (hs : List Pair) (b : Buffer) (r : HttpRequest)
      → r.current_state ≡ request_status
      → IsBuffer b
      → contents b ≡ request_text m u v hs rest
      → IsStatus m u v
      → Avoids 13 (status_text m u v)
      → AllHeaders hs
      → r.request_headers_number + length hs ≤ length r.header_block
      → length r.header_block < int_limit
      → ((parse_http_request mem (length hs + 3) b r ≡ halt out_of_bounds) × HasTight mem)
        ⊎ ((b' : Buffer) × (r' : HttpRequest) × (parse_http_request mem (length hs + 3) b r
              ≡ ok (1, b', r'))
            × IsBuffer b'
            × (contents b' ≡ rest)
            × (r'.current_state ≡ request_done)
            × (stored r' ≡ stored r ++ hs)
            × Begins r'.method m
            × Begins r'.url u
            × Begins r'.version v)
  unfolding request_text
  parse_http_request-request_text gives m u v rest hs b r at valid text is line all room small =
      let fuel : length hs + 3 ≡ suc (length hs + 2) = omega arith in
      elim (status_round mem gives b r m u v (headers_text hs rest) is line
        (record { valid = valid; left = text })) [
          | inl (out, tight) ↦ inl (
            ap (λ n. parse_http_request mem n b r) fuel ∙ parse_out (length hs + 2) b r at out,
            tight,
          )
          | inr (b1, r1, round, left, has) ↦
              (let r2 : HttpRequest = record r1 { current_state = request_headers } in
                let (b3, r3, done, left3, parsed) =
                  parse_headers gives hs b1 r2 rest refl left all
                    (omega (arith, has.same_number, ap length has.same_block))
                    (omega (arith, ap length has.same_block)) in
                inr (
                  b3,
                  r3,
                  ap (λ n. parse_http_request mem n b r) fuel
                      ∙ parse_step mem (length hs + 2) request_status b b1 r r2 at refl round
                      ∙ done,
                  left3.valid,
                  left3.left,
                  parsed.complete,
                  parsed.stored_is
                      ∙ ap (λ l. l ++ hs) (stored_same r r1 has.same_number has.same_block),
                  subst (λ s. Begins s m) (sym parsed.method_same) has.method_is,
                  subst (λ s. Begins s u) (sym parsed.url_same) has.url_is,
                  subst (λ s. Begins s v) (sym parsed.version_same) has.version_is,
                ))
        ]

  -- Where `malloc` gives blocks of just the size asked for, which is all of a block that a program may use,
  -- every request with a complete first line that has a space, no CR and no NUL, and for whose method there is
  -- memory, makes the parser write outside the block of the method, in its first round. The buffer is well
  -- formed.
  pub parse_http_request_overflow :
      GivesExact mem
      → (fuel : ℕ) (b : Buffer) (r : HttpRequest) (m tail rest p : List ℕ)
      → r.current_state ≡ request_status
      → IsBuffer b
      → contents b ≡ (m ++ b' ' ∷ tail) ++ line_end rest
      → Avoids b' ' m
      → Avoids 0 m
      → Avoids 0 tail
      → Avoids 13 (m ++ b' ' ∷ tail)
      → mem.malloc (length m + 1) ≡ some p
      → parse_http_request mem (suc fuel) b r ≡ halt out_of_bounds
  parse_http_request_overflow exact fuel b r m tail rest p at valid text word plain tail_plain line
        got =
      parse_out fuel b r at (
        status_round_overflow mem exact b r m tail rest p word plain tail_plain line got
          (record { valid = valid; left = text }))
