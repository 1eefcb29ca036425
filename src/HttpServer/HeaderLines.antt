-- ===== src/HttpServer/HeaderLines.antt =====
-- One line of a request in the buffer, and what a round of parse_http_request of
-- test_epoll/lib/http_server.c makes of it.
use cpyu_ze.Base.{
  ◌⊎◌, inl, inr, halt, out_of_bounds, ℕ, suc, ◌+◌, ◌-◌, ◌<◌, ◌≡◌, refl, ap, ◌∙◌, false, none, some,
  List, [], ◌∷◌, ◌++◌, arith, ◌==◌, length, drop, length-append, take-length, drop-length, take_all,
  append_assoc, ok, int_limit, int_add-ok, c_string, Avoids,
}
use cpyu_ze.Buffer.{Allocator, Buffer, memmem, starts_with, buffer_find_crlf}
use cpyu_ze.Buffer.Contents.{contents, IsBuffer, length-contents, advanced}
use cpyu_ze.Buffer.Search.{memmem_found, memmem_absent, readable_bytes-contents}
use cpyu_ze.HttpRequest.{HttpRequest, request_status, request_headers, request_done}
use cpyu_ze.HttpRequest.Headers.{Pair, HasAdded, add_header-HasAdded}
use cpyu_ze.HttpServer.{colon_space, header_line, parse_round}
use cpyu_ze.HttpServer.Tokens.{HasTight, GivesBlocks, GivesExact, copy_field-c_string}
use cpyu_ze.HttpServer.StatusLine.{
  IsStatus, status_text, HasStatus, process_status_line-HasStatus, process_status_line_overflow,
  Avoids-append,
}

-- A line and the CRLF behind it.
abbrev pub line_end : List ℕ → List ℕ
line_end rest = 13 ∷ 10 ∷ rest

-- The buffer with `rest` in it, after a line was read.
pub record Left (rest : List ℕ) (b : Buffer) : Type 0 where
  pub valid : IsBuffer b
  pub left : contents b ≡ rest

-- A key and a value that a header line can carry.
pub record IsHeader (h : Pair) : Type 0 where
  pub key_word : Avoids b':' h.0
  pub key_line : Avoids 13 h.0
  pub key_text : Avoids 0 h.0
  pub value_line : Avoids 13 h.1
  pub value_text : Avoids 0 h.1

abbrev pub header_text : Pair → List ℕ
header_text (k, v) = k ++ b':' ∷ b' ' ∷ v

find_line :
    (b : Buffer) (line rest : List ℕ)
    → Left (line ++ line_end rest) b
    → Avoids 13 line
    → buffer_find_crlf b ≡ ok (some (length line))
unfolding buffer_find_crlf
find_line b line rest l z =
    rw (readable_bytes-contents b l.valid, l.left)
      (ap ok (memmem_found 13 (10 ∷ []) line (line_end rest) z (unfold starts_with in refl)))

-- The read index goes past a line and its CRLF.
skip_line :
    (b : Buffer) (line rest : List ℕ)
    → Left (line ++ line_end rest) b
    → Left rest (record b { read_index = b.read_index + length line + 2 })
      × (b.read_index + length line + 2 < int_limit)
skip_line b line rest l =
    let len : length (contents b) ≡ length line + suc (suc (length rest)) =
      ap length l.left ∙ length-append line (line_end rest) in
    let span : length (contents b) ≡ b.write_index - b.read_index = length-contents b l.valid in
    let (valid, dropped) = advanced b (length line + 2) l.valid (omega (arith, len)) in
    let at : b.read_index + length line + 2 ≡ b.read_index + (length line + 2) = omega arith in
    let past : drop (length line + 2) (line ++ line_end rest) ≡ rest =
      (let two : length line + 2 ≡ length (line ++ 13 ∷ 10 ∷ []) =
          omega (arith, length-append line (13 ∷ 10 ∷ [])) in
        rw (two, ← append_assoc line (13 ∷ 10 ∷ []) rest)
          (drop-length (line ++ 13 ∷ 10 ∷ []) rest)) in
    (
      rw at (record { valid = valid; left = dropped ∙ ap (drop (length line + 2)) l.left ∙ past }),
      omega (arith, len, span, l.valid.write_le, l.valid.small, l.valid.read_le),
    )

module _ (mem : Allocator) where
  -- The request line: a write outside a block, or three blocks, and the state goes to the headers.
  pub status_round :
      GivesBlocks mem
      → (b : Buffer) (r : HttpRequest) (m u v rest : List ℕ) → IsStatus m u v
      → Avoids 13 (status_text m u v)
      → Left (status_text m u v ++ line_end rest) b
      → ((parse_round mem request_status b r ≡ halt out_of_bounds) × HasTight mem)
        ⊎ ((b' : Buffer) × (r' : HttpRequest) × (parse_round mem request_status b r
              ≡ ok (b', record r' { current_state = request_headers }))
            × Left rest b'
            × HasStatus r m u v r')
  unfolding parse_round
  status_round gives b r m u v rest is z l =
      let line : List ℕ = status_text m u v in
      let found = find_line b line rest l z in
      let text = readable_bytes-contents b l.valid in
      let (left, small) = skip_line b line rest l in
      let some_size : (length line == 0) ≡ false =
        ground (arith, length-append m (b' ' ∷ (u ++ b' ' ∷ v))) in
      elim (process_status_line-HasStatus mem gives m u v r is) [
        | inl (out, tight) ↦
            inl (rw (found, text, l.left, take-length line (line_end rest), out), tight)
        | inr (r', done, has) ↦ inr (
          record b { read_index = b.read_index + length line + 2 },
          r',
          rw (
            found,
            text,
            l.left,
            take-length line (line_end rest),
            done,
            some_size,
            int_add-ok b.read_index (length line) (omega (arith, small)),
            int_add-ok (b.read_index + length line) 2 small,
          ),
          left,
          has,
        )
      ]

  -- With blocks of just the size asked for, the request line is always a write outside a block.
  pub status_round_overflow :
      GivesExact mem
      → (b : Buffer) (r : HttpRequest) (m tail rest p : List ℕ) → Avoids b' ' m
      → Avoids 0 m
      → Avoids 0 tail
      → Avoids 13 (m ++ b' ' ∷ tail)
      → mem.malloc (length m + 1) ≡ some p
      → Left ((m ++ b' ' ∷ tail) ++ line_end rest) b
      → parse_round mem request_status b r ≡ halt out_of_bounds
  unfolding parse_round
  status_round_overflow exact b r m tail rest p word text tail_text z got l =
      let line : List ℕ = m ++ b' ' ∷ tail in
      rw (
        find_line b line rest l z,
        readable_bytes-contents b l.valid,
        l.left,
        take-length line (line_end rest),
        process_status_line_overflow mem exact m tail p r word text tail_text got,
      )

  -- A line with ": " adds a header; the state stays.
  pub header_round :
      GivesBlocks mem
      → (b : Buffer) (r : HttpRequest) (k v rest : List ℕ) → IsHeader (k, v)
      → Left (header_text (k, v) ++ line_end rest) b
      → r.request_headers_number < length r.header_block
      → length r.header_block < int_limit
      → (b' : Buffer) × (r' : HttpRequest) × (key : List ℕ) × (value : List ℕ) × (parse_round mem
            request_headers b r
          ≡ ok (b', r'))
        × Left rest b'
        × HasAdded r key value r'
        × (c_string key ≡ k)
        × (c_string value ≡ v)
  unfolding parse_round header_line
  header_round gives b r k v rest is l room small =
      let behind : List ℕ = b':' ∷ b' ' ∷ v in
      let line : List ℕ = k ++ behind in
      let z : Avoids 13 line =
        Avoids-append 13 k behind is.key_line
          ((λ e. absurd (omega (arith, e))), ((λ e. absurd (omega (arith, e))), is.value_line)) in
      let text : Avoids 0 line =
        Avoids-append 0 k behind is.key_text
          ((λ e. absurd (omega (arith, e))), ((λ e. absurd (omega (arith, e))), is.value_text)) in
      let long : length line ≡ length k + suc (suc (length v)) = length-append k behind in
      let (key, e1, c1) =
        copy_field-c_string mem gives line (length k) (omega (arith, long)) text in
      let (value, e2, c2) =
        copy_field-c_string mem gives v (length v) (omega arith) is.value_text in
      let past : drop (length k + 2) line ≡ v =
        (let two : length k + 2 ≡ length (k ++ b':' ∷ b' ' ∷ []) =
            omega (arith, length-append k (b':' ∷ b' ' ∷ [])) in
          rw (two, ← append_assoc k (b':' ∷ b' ' ∷ []) v)
            (drop-length (k ++ b':' ∷ b' ' ∷ []) v)) in
      let size : length line - length k - 2 ≡ length v = omega (arith, long) in
      let found : memmem line colon_space ≡ some (length k) =
        memmem_found b':' (b' ' ∷ []) k behind is.key_word (unfold starts_with in refl) in
      let (r', added, has) = add_header-HasAdded r key value room small in
      let (left, fits) = skip_line b line rest l in
      (
        record b { read_index = b.read_index + length line + 2 },
        r',
        key,
        value,
        rw (
          find_line b line rest l z,
          readable_bytes-contents b l.valid,
          l.left,
          take-length line (line_end rest),
          header_line,
          found,
          l.left,
          take-length line (line_end rest),
          e1,
          past,
          size,
          e2,
          added,
          int_add-ok b.read_index (length line) (omega (arith, fits)),
          int_add-ok (b.read_index + length line) 2 fits,
        ),
        left,
        has,
        c1 ∙ take-length k behind,
        c2 ∙ take_all (length v) v (omega arith),
      )

  -- The empty line ends the request.
  pub end_round :
      (b : Buffer) (r : HttpRequest) (rest : List ℕ)
      → Left (line_end rest) b
      → (b' : Buffer) × (parse_round mem request_headers b r
          ≡ ok (b', record r { current_state = request_done }))
        × Left rest b'
  unfolding parse_round header_line
  end_round b r rest l =
      let (left, fits) = skip_line b [] rest l in
      let at : b.read_index + 0 + 2 ≡ b.read_index + 2 = omega arith in
      let none_there : memmem [] colon_space ≡ none = memmem_absent b':' (b' ' ∷ []) [] tt in
      (
        record b { read_index = b.read_index + 2 },
        rw (
          find_line b [] rest l tt,
          readable_bytes-contents b l.valid,
          header_line,
          none_there,
          int_add-ok b.read_index 2 (omega (arith, fits)),
        ),
        rw at at left,
      )

  -- A header line with no colon in it, empty or not, ends the request, and only two bytes are
  -- taken off.
  pub headerless_round :
      (b : Buffer) (r : HttpRequest) (line rest : List ℕ)
      → Left (line ++ line_end rest) b
      → Avoids 13 line
      → Avoids b':' line
      → (b' : Buffer) × (parse_round mem request_headers b r
          ≡ ok (b', record r { current_state = request_done }))
        × Left (drop 2 (line ++ line_end rest)) b'
  unfolding parse_round header_line
  headerless_round b r line rest l z plain =
      let none_there : memmem line colon_space ≡ none = memmem_absent b':' (b' ' ∷ []) line plain in
      let len : length (contents b) ≡ length line + suc (suc (length rest)) =
        ap length l.left ∙ length-append line (line_end rest) in
      let (valid, dropped) = advanced b 2 l.valid (omega (arith, len)) in
      let (left, fits) = skip_line b line rest l in
      (
        record b { read_index = b.read_index + 2 },
        rw (
          find_line b line rest l z,
          readable_bytes-contents b l.valid,
          l.left,
          take-length line (line_end rest),
          header_line,
          none_there,
          int_add-ok b.read_index 2 (omega (arith, fits)),
        ),
        record { valid = valid; left = dropped ∙ ap (drop 2) l.left },
      )
