-- ===== src/HttpResponse/Parts.antt =====
-- The parts of a response of test_epoll/lib/http_response.c, and how its lines are written out.
use cpyu_ze.Base.{
  ℕ, zero, suc, ◌+◌, ◌≤◌, ◌<◌, ◌≡◌, refl, sym, ◌∙◌, subst, Bool, true, false, Bool-cases, inl, inr,
  some, List, [], ◌∷◌, ◌++◌, arith, length, take, drop, drop-cons, get_elem?, get_elem?-some,
  length-append, append_assoc, append-nil, ok, int_limit, codes,
}
use cpyu_ze.Buffer.{Allocator, IsRealloc, Buffer, crlf}
use cpyu_ze.Buffer.Append.{Appended, AllNonzero, strlen_lem}
use cpyu_ze.Buffer.Socket.{NeverFails}
use cpyu_ze.HttpRequest.Headers.{Pair}
use cpyu_ze.HttpResponse.{
  ResponseHeader, HttpResponse, print_to_buf, literal_line, connection_header, header_lines,
}
use cpyu_ze.HttpResponse.Strings.{
  Shows, nonzero-AllNonzero, AllNonzero-append, crlf-AllNonzero, print_to_buf-Shows,
  literal_line-Shows, append_next, shorter,
}

-- The documented output of `%d`: for an `int` at most ten characters, and no NUL.
pub record IsDecimal (decimal : ℕ → List ℕ) : Type 0 where
  pub plain : (n : ℕ) → AllNonzero (decimal n)
  pub short : (n : ℕ) → n < int_limit → length (decimal n) ≤ 10

abbrev pub ShowsAll : List ResponseHeader → List Pair → Type 0
ShowsAll [] [] = Unit
ShowsAll [] (p ∷ ps) = ⊥
ShowsAll (h ∷ hs) [] = ⊥
ShowsAll (h ∷ hs) (p ∷ ps) = (Shows h.key p.0 × Shows h.value p.1) × ShowsAll hs ps

-- A header line, and all of them.
abbrev pub header_text : Pair → List ℕ
header_text (k, v) = ((k ++ codes ": ") ++ v) ++ crlf

abbrev pub headers_text : List Pair → List ℕ
headers_text [] = []
headers_text (p ∷ ps) = header_text p ++ headers_text ps

-- The parts of a response: its message, its headers and its body, which is not NULL.
pub record HasParts (r : HttpResponse) (message : List ℕ) (headers : List Pair) (body : List ℕ)
    : Type 0 where
  pub code_small : r.status_code < int_limit
  pub message_is : Shows r.status_message message
  pub headers_room : r.response_headers_number ≤ length r.response_headers
  pub headers_are : ShowsAll (take r.response_headers_number r.response_headers) headers
  pub behind : List ℕ
  pub body_plain : AllNonzero body
  pub body_is : r.body ≡ some (body ++ 0 ∷ behind)
  pub body_small : length body < int_limit

drop-next :
    (headers : List ResponseHeader) (i : ℕ) (h : ResponseHeader)
    → get_elem? headers i ≡ some h
    → drop i headers ≡ h ∷ drop (i + 1) headers
drop-next headers i h got =
    let one : i + 1 ≡ suc i = omega arith in rw one (drop-cons headers i got)

module _ (decimal : ℕ → List ℕ) where
  abbrev pub connection_text : Bool → ℕ → List ℕ
  connection_text true size = codes "Connection: close" ++ crlf
  connection_text false size =
      (codes "Content-Length: " ++ (decimal size ++ crlf))
      ++ (codes "Connection: Keep-Alive" ++ crlf)

  -- The text of a response, from its status line to its body.
  abbrev pub response_text : ℕ → Bool → List ℕ → List Pair → List ℕ → List ℕ
  response_text code keep_connected message headers body =
      ((((((codes "HTTP/1.1 " ++ (decimal code ++ b' ' ∷ [])) ++ message) ++ crlf)
            ++ connection_text keep_connected (length body))
          ++ headers_text headers)
        ++ crlf)
      ++ body

  module _ (mem : Allocator) (std : IsRealloc mem) (never : NeverFails mem)
      (prints : IsDecimal decimal) where
    -- One round of the loop over the headers.
    header_line-Appended :
        (rounds i : ℕ) (headers : List ResponseHeader) (p : Pair) (b b1 : Buffer) (before : List ℕ)
        (h : ResponseHeader)
        → get_elem? headers i ≡ some h
        → Shows h.key p.0
        → Shows h.value p.1
        → Appended b before b1
        → b.total_size + length (before ++ header_text p) < int_limit
        → (b2 : Buffer) × (header_lines mem decimal (suc rounds) i headers b1
            ≡ header_lines mem decimal rounds (i + 1) headers b2)
          × Appended b (before ++ header_text p) b2
    unfolding header_lines
    header_line-Appended rounds i headers (k, v) b b1 before h got key value app small =
        let n : ℕ = b.total_size in
        let split : before ++ header_text (k, v) ≡ (((before ++ k) ++ codes ": ") ++ v) ++ crlf =
          rw
            (
              append_assoc before k (codes ": "),
              append_assoc before (k ++ codes ": ") v,
              append_assoc before ((k ++ codes ": ") ++ v) crlf,
            )
            refl in
        let small4 : n + length ((((before ++ k) ++ codes ": ") ++ v) ++ crlf) < int_limit =
          subst (λ l. n + length l < int_limit) split small in
        let small3 = shorter n (((before ++ k) ++ codes ": ") ++ v) crlf small4 in
        let small2 = shorter n ((before ++ k) ++ codes ": ") v small3 in
        let small1 = shorter n (before ++ k) (codes ": ") small2 in
        let (c1, e1, a1) = append_next mem std never b b1 before k h.key app key small1 in
        let (c2, e2, a2) =
          append_next mem std never b c1 (before ++ k) (codes ": ") (some (codes ": " ++ 0 ∷ [])) a1
            (nonzero-AllNonzero (codes ": ") refl, ([], refl)) small2 in
        let (c3, e3, a3) =
          append_next mem std never b c2 ((before ++ k) ++ codes ": ") v h.value a2 value small3 in
        let (c4, e4, a4) =
          append_next mem std never b c3 (((before ++ k) ++ codes ": ") ++ v) crlf
            (some (literal_line [])) a3 (literal_line-Shows [] tt) small4 in
        (c4, rw (got, e1, e2, e3, e4) refl, subst (λ l. Appended b l c4) (sym split) a4)

    pub header_lines-Appended :
        (rounds i : ℕ) (headers : List ResponseHeader) (ps : List Pair) (b b1 : Buffer)
        (before : List ℕ)
        → i + rounds ≤ length headers
        → ShowsAll (take rounds (drop i headers)) ps
        → Appended b before b1
        → b.total_size + length (before ++ headers_text ps) < int_limit
        → (b2 : Buffer) × (header_lines mem decimal rounds i headers b1 ≡ ok b2)
          × Appended b (before ++ headers_text ps) b2
    header_lines-Appended zero i headers [] b b1 before room shows app small =
        (b1, unfold header_lines in refl, rw (append-nil before) app)
    header_lines-Appended zero i headers (p ∷ ps) b b1 before room shows app small = absurd shows
    header_lines-Appended (suc rounds) i headers [] b b1 before room shows app small =
        let (h, got) = get_elem?-some headers i (omega arith) in
        absurd (subst (λ l. ShowsAll (take (suc rounds) l) []) (drop-next headers i h got) shows)
    header_lines-Appended (suc rounds) i headers (p ∷ ps) b b1 before room shows app small =
        let (h, got) = get_elem?-some headers i (omega arith) in
        let parts : ShowsAll (h ∷ take rounds (drop (i + 1) headers)) (p ∷ ps) =
          subst (λ l. ShowsAll (take (suc rounds) l) (p ∷ ps)) (drop-next headers i h got) shows in
        let split : before ++ (header_text p ++ headers_text ps)
            ≡ (before ++ header_text p) ++ headers_text ps =
          sym (append_assoc before (header_text p) (headers_text ps)) in
        let small' : b.total_size + length ((before ++ header_text p) ++ headers_text ps)
            < int_limit =
          subst (λ l. b.total_size + length l < int_limit) split small in
        let (c1, e1, a1) =
          header_line-Appended rounds i headers p b b1 before h got parts.0.0 parts.0.1 app
            (shorter b.total_size (before ++ header_text p) (headers_text ps) small') in
        let (c2, e2, a2) =
          header_lines-Appended rounds (i + 1) headers ps b c1 (before ++ header_text p)
            (omega (arith, room)) parts.1 a1 small' in
        (c2, e1 ∙ e2, subst (λ l. Appended b l c2) (sym split) a2)

    close_line-Appended :
        (r : HttpResponse) (size : ℕ) (b b1 : Buffer) (before : List ℕ)
        → r.keep_connected ≡ true
        → Appended b before b1
        → b.total_size + length (before ++ connection_text true size) < int_limit
        → (b2 : Buffer) × (connection_header mem decimal r b1 ≡ ok b2)
          × Appended b (before ++ connection_text true size) b2
    unfolding connection_header
    close_line-Appended r size b b1 before closes app small =
        let (c1, e1, a1) =
          append_next mem std never b b1 before (codes "Connection: close" ++ crlf)
            (some (literal_line (codes "Connection: close"))) app
            (literal_line-Shows (codes "Connection: close")
              (nonzero-AllNonzero (codes "Connection: close") refl))
            small in
        (c1, rw closes e1, a1)

    keep_lines-Appended :
        (r : HttpResponse) (b b1 : Buffer) (before body behind : List ℕ)
        → r.keep_connected ≡ false
        → AllNonzero body
        → r.body ≡ some (body ++ 0 ∷ behind)
        → length body < int_limit
        → Appended b before b1
        → b.total_size + length (before ++ connection_text false (length body)) < int_limit
        → (b2 : Buffer) × (connection_header mem decimal r b1 ≡ ok b2)
          × Appended b (before ++ connection_text false (length body)) b2
    unfolding connection_header
    keep_lines-Appended r b b1 before body behind keeps plain e short app small =
        let number : List ℕ = decimal (length body) in
        let length_line : List ℕ = codes "Content-Length: " ++ (number ++ crlf) in
        let keep_line : List ℕ = codes "Connection: Keep-Alive" ++ crlf in
        let split : before ++ (length_line ++ keep_line) ≡ (before ++ length_line) ++ keep_line =
          sym (append_assoc before length_line keep_line) in
        let small2 : b.total_size + length ((before ++ length_line) ++ keep_line) < int_limit =
          subst (λ l. b.total_size + length l < int_limit) split small in
        let fits : length length_line ≤ 31 = omega (
          arith,
          length-append (codes "Content-Length: ") (number ++ crlf),
          length-append number crlf,
          prints.short (length body) short,
        ) in
        let (c1, e1, a1) =
          append_next mem std never b b1 before length_line (some (print_to_buf length_line)) app
            (print_to_buf-Shows length_line
              (AllNonzero-append (codes "Content-Length: ") (number ++ crlf)
                (nonzero-AllNonzero (codes "Content-Length: ") refl)
                (AllNonzero-append number crlf (prints.plain (length body)) crlf-AllNonzero))
              fits)
            (shorter b.total_size (before ++ length_line) keep_line small2) in
        let (c2, e2, a2) =
          append_next mem std never b c1 (before ++ length_line) keep_line
            (some (literal_line (codes "Connection: Keep-Alive"))) a1
            (literal_line-Shows (codes "Connection: Keep-Alive")
              (nonzero-AllNonzero (codes "Connection: Keep-Alive") refl))
            small2 in
        (
          c2,
          rw (keeps, e, strlen_lem body behind plain, e1) e2,
          subst (λ l. Appended b l c2) (sym split) a2,
        )

    pub connection_header-Appended :
        (r : HttpResponse) (b b1 : Buffer) (before body behind : List ℕ)
        → AllNonzero body
        → r.body ≡ some (body ++ 0 ∷ behind)
        → length body < int_limit
        → Appended b before b1
        → b.total_size + length (before ++ connection_text r.keep_connected (length body))
          < int_limit
        → (b2 : Buffer) × (connection_header mem decimal r b1 ≡ ok b2)
          × Appended b (before ++ connection_text r.keep_connected (length body)) b2
    connection_header-Appended r b b1 before body behind plain e short app small =
        let result : Bool → Type 0 = λ k.
          (b2 : Buffer) × (connection_header mem decimal r b1 ≡ ok b2)
          × Appended b (before ++ connection_text k (length body)) b2 in
        let bound : Bool → Type 0 =
          λ k. b.total_size + length (before ++ connection_text k (length body)) < int_limit in
        elim (Bool-cases r.keep_connected) [
          | inl closes ↦ subst result (sym closes) (
              close_line-Appended r (length body) b b1 before closes app (subst bound closes small))
          | inr keeps ↦ subst result (sym keeps) (
              keep_lines-Appended r b b1 before body behind keeps plain e short app
                (subst bound keeps small))
        ]
