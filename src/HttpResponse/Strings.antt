-- ===== src/HttpResponse/Strings.antt =====
-- Strings appended one after the other, for test_epoll/lib/http_response.c.
use cpyu_ze.Base.{
  Bool, true, not, ◌&&◌, ◌==◌, ℕ, ◌+◌, ◌≤◌, ◌<◌, ◌≡◌, refl, sym, ap, ◌∙◌, inr, Option, none, some,
  List, [], ◌∷◌, ◌++◌, arith, length, take_all, length-append, append_assoc, append-nil, ok,
  int_limit,
}
use cpyu_ze.Buffer.{Allocator, IsRealloc, Buffer, buffer_append_string, crlf}
use cpyu_ze.Buffer.Contents.{contents, IsBuffer}
use cpyu_ze.Buffer.Append.{Appended, AllNonzero, buffer_append_string-contents}
use cpyu_ze.Buffer.Socket.{NeverFails}
use cpyu_ze.HttpResponse.{print_to_buf, literal_line}

-- A pointer to a string, of which NULL counts as the empty one.
abbrev pub Shows : Option (List ℕ) → List ℕ → Type 0
Shows none text = text ≡ []
Shows (some s) text = AllNonzero text × ((behind : List ℕ) × (s ≡ text ++ 0 ∷ behind))

pub AllNonzero-append : (a b : List ℕ) → AllNonzero a → AllNonzero b → AllNonzero (a ++ b)
AllNonzero-append [] b x y = y
AllNonzero-append (c ∷ a) b x y = (x.0, AllNonzero-append a b x.1 y)

-- Is there no NUL?
abbrev pub nonzero : List ℕ → Bool
nonzero [] = true
nonzero (c ∷ cs) = not (c == 0) && nonzero cs

pub nonzero-AllNonzero : (text : List ℕ) → nonzero text ≡ true → AllNonzero text
nonzero-AllNonzero [] e = tt
nonzero-AllNonzero (c ∷ cs) e = (ground arith, nonzero-AllNonzero cs (ground arith))

pub crlf-AllNonzero : AllNonzero crlf
crlf-AllNonzero = ((λ e. absurd (omega (arith, e))), ((λ e. absurd (omega (arith, e))), tt))

pub print_to_buf-Shows :
    (text : List ℕ) → AllNonzero text → length text ≤ 31 → Shows (some (print_to_buf text)) text
print_to_buf-Shows text plain short = (plain, ([], ap (λ l. l ++ 0 ∷ []) (take_all 31 text short)))

pub literal_line-Shows :
    (text : List ℕ) → AllNonzero text → Shows (some (literal_line text)) (text ++ crlf)
literal_line-Shows text plain = (AllNonzero-append text crlf plain crlf-AllNonzero, ([], refl))

pub Appended-append :
    (b b1 b2 : Buffer) (more rest : List ℕ)
    → Appended b more b1
    → Appended b1 rest b2
    → Appended b (more ++ rest) b2
Appended-append b b1 b2 more rest first second = record {
  valid = second.valid;
  grown = second.grown ∙ ap (λ l. l ++ rest) first.grown ∙ append_assoc (contents b) more rest;
  bounded = omega (arith, first.bounded, second.bounded, length-append more rest);
}

pub Appended-nil : (b : Buffer) → IsBuffer b → Appended b [] b
Appended-nil b v = record {
  valid = v;
  grown = sym (append-nil (contents b));
  bounded = omega arith;
}

-- What fits with more behind it fits without.
pub shorter :
    (n : ℕ) (a rest : List ℕ) → n + length (a ++ rest) < int_limit → n + length a < int_limit
shorter n a rest small = omega (arith, small, length-append a rest)

module _ (mem : Allocator) (std : IsRealloc mem) (never : NeverFails mem) where
  -- A string behind those that were appended to `b` already.
  pub append_next :
      (b b1 : Buffer) (before text : List ℕ) (s : Option (List ℕ))
      → Appended b before b1
      → Shows s text
      → b.total_size + length (before ++ text) < int_limit
      → (b2 : Buffer) × (buffer_append_string mem b1 s ≡ ok b2) × Appended b (before ++ text) b2
  append_next b b1 before text none app shows small = (
    b1,
    unfold buffer_append_string in refl,
    Appended-append b b1 b1 before text app (rw shows (Appended-nil b1 app.valid)),
  )
  append_next b b1 before text (some s) app (plain, (behind, e)) small =
      let (b2, done, next) = buffer_append_string-contents mem std b1 text behind app.valid plain (
        inr (
          omega (arith, app.bounded, small, length-append before text),
          never b1.bytes (b1.total_size + length text)
              (omega (arith, app.bounded, small, length-append before text)),
        )) in
      (b2, rw e done, Appended-append b b1 b2 before text app next)
