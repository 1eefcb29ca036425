-- ===== src/Read/Chunks.antt =====
-- readline of test_epoll/lib/read.c, which forgets what it has received behind a line.
use cpyu_ze.Base.{
  ℕ, suc, ◌+◌, ◌≤◌, ◌<◌, ◌≡◌, refl, ap, ◌∙◌, false, List, [], ◌∷◌, ◌++◌, arith, ◌==◌, length, drop,
  length-append, append_assoc, append-nil, pos, ok, Avoids,
}
use cpyu_ze.Read.{ReadResult, got, size_less, readline_from, readline}
use cpyu_ze.Read.Lines.{write_at-behind}
use cpyu_ze.Read.Endings.{write_at-two}

readline_from-line :
    (results : List ReadResult) (line rest pre free : List ℕ) (size : ℕ)
    → Avoids 10 line
    → length line + 1 < length free
    → length line + 1 < size
    → readline_from results (line ++ 10 ∷ rest) size (length pre) (pre ++ free)
      ≡ ok (
        pos (length pre + length line + 1),
        (pre ++ line) ++ 10 ∷ 0 ∷ drop (length line + 2) free,
        results,
      )
unfolding readline_from
readline_from-line results line rest pre [] size plain room enough = absurd (omega arith)
readline_from-line results line rest pre (x ∷ []) size plain room enough = absurd (omega arith)
readline_from-line results [] rest pre (x ∷ y ∷ free) size plain room enough =
    let not_last : (size_less size == 0) ≡ false = ground arith in
    let number : length pre + 1 ≡ length pre + 0 + 1 = omega arith in
    let (filled, first, second) = write_at-two pre free x y in
    rw (not_last, first, second, number, append-nil pre) refl
readline_from-line results (c ∷ line) rest pre (x ∷ y ∷ free) size plain room enough =
    let not_last : (size_less size == 0) ≡ false = ground arith in
    let less : length line + 1 < size_less size = ground arith in
    let not_lf : (c == 10) ≡ false = ground (arith, plain.0) in
    let one : length pre + 1 ≡ length (pre ++ c ∷ []) = omega (arith, length-append pre (c ∷ [])) in
    let number : length (pre ++ c ∷ []) + length line + 1 ≡ length pre + suc (length line) + 1 =
      omega (arith, one) in
    let behind : suc (length line) + 2 ≡ suc (length line + 2) = omega arith in
    rw (not_last, write_at-behind pre (y ∷ free) x c, not_lf, one)
      (readline_from-line results line rest (pre ++ c ∷ []) (y ∷ free) (size_less size) plain.1
          (omega arith) less
        ∙ rw (number, append_assoc pre (c ∷ []) line, behind) refl)

-- A line whose bytes come with others in one `recv`, and which fits with its newline and a NUL: it is
-- stored and its size returned, but the bytes behind it are lost, since the next call begins with the
-- next `recv`.
pub readline_forgets :
    (line rest dst : List ℕ) (later : List ReadResult) (size : ℕ)
    → Avoids 10 line
    → length line + 1 < size
    → size ≤ length dst
    → readline (got (line ++ 10 ∷ rest) ∷ later) dst size
      ≡ ok (pos (length line + 1), line ++ 10 ∷ 0 ∷ drop (length line + 2) dst, later)
unfolding readline readline_from
readline_forgets line rest dst later size plain fits room =
    let not_last : (size_less size == 0) ≡ false = ground arith in
    let some_bytes : (length (line ++ 10 ∷ rest) == 0) ≡ false =
      ground (arith, length-append line (10 ∷ rest)) in
    let number : 0 + length line + 1 ≡ length line + 1 = omega arith in
    rw (not_last, some_bytes)
      (readline_from-line later line rest [] dst size plain (omega arith) fits
        ∙ ap (λ n. ok (pos n, line ++ 10 ∷ 0 ∷ drop (length line + 2) dst, later)) number)
