-- ===== src/HttpServer/StatusLine.antt =====
-- process_status_line of test_epoll/lib/http_server.c.
use cpyu_ze.Base.{
  ◌⊎◌, inl, inr, take, append_assoc, take_all, ℕ, ◌+◌, ◌≡◌, refl, ◌∙◌, Option, none, some, List, [],
  ◌∷◌, ◌++◌, arith, length, drop, length-append, take-length, drop-length, ok, halt, out_of_bounds,
  assertion, Avoids,
}
use cpyu_ze.Buffer.{Allocator, memmem, starts_with}
use cpyu_ze.Buffer.Search.{memmem_found, memmem_absent}
use cpyu_ze.HttpRequest.{HttpRequest}
use cpyu_ze.HttpServer.{process_status_line, space}
use cpyu_ze.HttpServer.Tokens.{
  HasTight, GivesBlocks, GivesExact, copy_token_cases, copy_token_overflow,
}

-- A pointer to a block that begins with the text.
abbrev pub Begins : Option (List ℕ) → List ℕ → Type 0
Begins none text = ⊥
Begins (some s) text = take (length text) s ≡ text

pub Avoids-append : (x : ℕ) (a b : List ℕ) → Avoids x a → Avoids x b → Avoids x (a ++ b)
Avoids-append x [] b z w = w
Avoids-append x (c ∷ a) b z w = (z.0, Avoids-append x a b z.1 w)

pub drop_past : (a b : List ℕ) (c : ℕ) → drop (length a + 1) (a ++ c ∷ b) ≡ b
drop_past a b c =
    let e : length a + 1 ≡ length (a ++ c ∷ []) = omega (arith, length-append a (c ∷ [])) in
    rw (e, ← append_assoc a (c ∷ []) b) (drop-length (a ++ c ∷ []) b)

-- The three parts of a request line: no byte of them is NUL, and the first two hold no space.
pub record IsStatus (method url version : List ℕ) : Type 0 where
  pub method_word : Avoids b' ' method
  pub url_word : Avoids b' ' url
  pub method_text : Avoids 0 method
  pub url_text : Avoids 0 url
  pub version_text : Avoids 0 version

abbrev pub status_text : List ℕ → List ℕ → List ℕ → List ℕ
status_text method url version = method ++ b' ' ∷ (url ++ b' ' ∷ version)

-- The request after its first line: the three blocks, and the rest as it was.
pub record HasStatus (r : HttpRequest) (method url version : List ℕ) (r' : HttpRequest)
    : Type 0 where
  pub method_is : Begins r'.method method
  pub url_is : Begins r'.url url
  pub version_is : Begins r'.version version
  pub same_block : r'.header_block ≡ r.header_block
  pub same_number : r'.request_headers_number ≡ r.request_headers_number
  pub same_state : r'.current_state ≡ r.current_state

module _ (mem : Allocator) where
  find_space : (a b : List ℕ) → Avoids b' ' a → memmem (a ++ b' ' ∷ b) space ≡ some (length a)
  find_space a b z = memmem_found b' ' [] a (b' ' ∷ b) z (unfold starts_with in refl)

  -- A line of three parts, none with a NUL in it and the first two with no space, either makes
  -- `process_status_line` write outside a block, or is split into blocks that begin with the parts; then
  -- the size of the line is returned and the rest of the request stays.
  pub process_status_line-HasStatus :
      GivesBlocks mem
      → (method url version : List ℕ) (r : HttpRequest) → IsStatus method url version
      → ((process_status_line mem (status_text method url version) r ≡ halt out_of_bounds)
          × HasTight mem)
        ⊎ ((r' : HttpRequest) × (process_status_line mem (status_text method url version) r
              ≡ ok (length (status_text method url version), r'))
            × HasStatus r method url version r')
  unfolding process_status_line
  process_status_line-HasStatus gives m u v r is =
      let tail : List ℕ = u ++ b' ' ∷ v in
      let line_text : Avoids 0 (m ++ b' ' ∷ tail) = Avoids-append 0 m _ is.method_text (
        λ e. absurd (omega (arith, e)),
        Avoids-append 0 u _ is.url_text (λ e. absurd (omega (arith, e)), is.version_text),
      ) in
      let tail_text : Avoids 0 tail =
        Avoids-append 0 u _ is.url_text (λ e. absurd (omega (arith, e)), is.version_text) in
      let first = find_space m tail is.method_word in
      let past = drop_past m tail b' ' in
      let second = find_space u v is.url_word in
      let last = drop_past u v b' ' in
      elim (copy_token_cases mem gives (m ++ b' ' ∷ tail) (length m)
        (omega (arith, length-append m (b' ' ∷ tail))) line_text) [
          | inl (out, tight) ↦ inl (rw (first, out), tight)
          | inr (s1, e1, c1) ↦
              elim (copy_token_cases mem gives tail (length u)
                (omega (arith, length-append u (b' ' ∷ v))) tail_text) [
                  | inl (out, tight) ↦ inl (rw (first, e1, past, second, out), tight)
                  | inr (s2, e2, c2) ↦
                      elim (copy_token_cases mem gives v (length v) (omega arith) is.version_text) [
                        | inl (out, tight) ↦
                            inl (rw (first, e1, past, second, e2, last, out), tight)
                        | inr (s3, e3, c3) ↦ inr (
                          record r { method = some s1; url = some s2; version = some s3 },
                          rw (first, e1, past, second, e2, last, e3),
                          record {
                            method_is = c1 ∙ take-length m (b' ' ∷ tail);
                            url_is = c2 ∙ take-length u (b' ' ∷ v);
                            version_is = c3 ∙ take_all (length v) v (omega arith);
                            same_block = refl;
                            same_number = refl;
                            same_state = refl;
                          },
                        )
                      ]
                ]
        ]

  -- Where `malloc` gives blocks of just the size asked for, a line with a space, with no NUL and
  -- with memory for its method, makes `process_status_line` write outside the block of the
  -- method.
  pub process_status_line_overflow :
      GivesExact mem
      → (method rest p : List ℕ) (r : HttpRequest) → Avoids b' ' method
      → Avoids 0 method
      → Avoids 0 rest
      → mem.malloc (length method + 1) ≡ some p
      → process_status_line mem (method ++ b' ' ∷ rest) r ≡ halt out_of_bounds
  unfolding process_status_line
  process_status_line_overflow exact m rest p r word text rest_text got = rw (
    find_space m rest word,
    copy_token_overflow mem exact (m ++ b' ' ∷ rest) p (length m)
        (omega (arith, length-append m (b' ' ∷ rest)))
        (Avoids-append 0 m (b' ' ∷ rest) text (λ e. absurd (omega (arith, e)), rest_text)) got,
  )

  -- A line with no space in it, the empty one too, fails the first assertion.
  pub process_status_line_no_space :
      (line : List ℕ) (r : HttpRequest)
      → Avoids b' ' line
      → process_status_line mem line r ≡ halt assertion
  unfolding process_status_line
  process_status_line_no_space line r z = rw (memmem_absent b' ' [] line z)
