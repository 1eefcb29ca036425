-- ===== src/HttpServer/Waiting.antt =====
-- parse_http_request of test_epoll/lib/http_server.c on a request that is not all there.
use cpyu_ze.Base.{
  ℕ, zero, suc, ◌≡◌, refl, ap, ◌∙◌, false, none, if◌then◌else◌, ok, halt, no_fuel, ◌>>=◌,
}
use cpyu_ze.Buffer.{Allocator, Buffer, buffer_find_crlf}
use cpyu_ze.HttpRequest.{
  HttpRequest, HttpRequestState, request_status, request_headers, request_body, request_done,
}
use cpyu_ze.HttpServer.{parse_round, parse_http_request, is_done}

module _ (mem : Allocator) where
  -- One round of the loop, in a state that is not the last.
  pub parse_step :
      (fuel : ℕ) (s : HttpRequestState) (b b1 : Buffer) (r r1 : HttpRequest)
      → r.current_state ≡ s
      → is_done s ≡ false
      → parse_round mem s b r ≡ ok (b1, r1)
      → parse_http_request mem (suc fuel) b r ≡ parse_http_request mem fuel b1 r1
  unfolding parse_http_request
  parse_step fuel s b b1 r r1 e more round =
      ap
        (λ (t : HttpRequestState).
          if is_done t
          then ok (1, b, r)
          else (parse_round mem t b r >>= λ x. parse_http_request mem fuel x.0 x.1))
        e
      ∙ rw (more, round)

  round_waits :
      (s : HttpRequestState) (b : Buffer) (r : HttpRequest)
      → buffer_find_crlf b ≡ ok none
      → parse_round mem s b r ≡ ok (b, r)
  unfolding parse_round
  round_waits request_status b r e = rw e
  round_waits request_headers b r e = rw e
  round_waits request_body b r e = refl
  round_waits request_done b r e = refl

  -- While the request is not complete and no CRLF is in the buffer, the loop goes round for ever:
  -- no number of rounds is enough, and nothing in it reads more bytes.
  pub parse_http_request_spins :
      (fuel : ℕ) (b : Buffer) (r : HttpRequest)
      → is_done r.current_state ≡ false
      → buffer_find_crlf b ≡ ok none
      → parse_http_request mem fuel b r ≡ halt no_fuel
  parse_http_request_spins zero b r more e = unfold parse_http_request in refl
  parse_http_request_spins (suc fuel) b r more e =
      parse_step fuel r.current_state b b r r refl more (round_waits r.current_state b r e)
      ∙ parse_http_request_spins fuel b r more e
