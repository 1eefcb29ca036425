-- ===== src/Read/Lines.antt =====
-- readline_2 of test_epoll/lib/read.c: where a line fits, and where its NUL does not.
use cpyu_ze.Base.{
  ℕ, suc, ◌+◌, ◌-◌, ◌≤◌, ◌<◌, ◌≡◌, refl, sym, ap, ◌∙◌, true, false, List, [], ◌∷◌, ◌++◌, arith,
  ◌==◌, length, set, drop, length-append, append_assoc, append-nil, ltb, ltb-false, pos, ok, halt,
  out_of_bounds, Avoids, write_at,
}
use cpyu_ze.Read.{readline_2_from, readline_2}

set-behind : (pre free : List ℕ) (x c : ℕ) → set (pre ++ x ∷ free) (length pre) c ≡ pre ++ c ∷ free
set-behind [] free x c = refl
set-behind (p ∷ pre) free x c = ap (◌∷◌ p) (set-behind pre free x c)

pub write_at-behind :
    (pre free : List ℕ) (x c : ℕ)
    → write_at (pre ++ x ∷ free) (length pre) c ≡ ok ((pre ++ c ∷ []) ++ free)
unfolding write_at
write_at-behind pre free x c =
    let inside : ltb (length pre) (length (pre ++ x ∷ free)) ≡ true =
      ground (arith, length-append pre (x ∷ free)) in
    rw (inside, set-behind pre free x c) (ap ok (sym (append_assoc pre (c ∷ []) free)))

write_at-outside :
    (pre : List ℕ) → write_at ((pre ++ 10 ∷ []) ++ []) (length pre + 1) 0 ≡ halt out_of_bounds
unfolding write_at
write_at-outside pre =
    let outside : ltb (length pre + 1) (length ((pre ++ 10 ∷ []) ++ [])) ≡ false =
      ltb-false _ _
        (omega (arith, length-append (pre ++ 10 ∷ []) [], length-append pre (10 ∷ []))) in
    rw outside

readline_2_from-overflow :
    (line rest pre free : List ℕ) (left : ℕ)
    → Avoids 10 line
    → length free ≡ length line + 1
    → length free ≤ left
    → readline_2_from (line ++ 10 ∷ rest) left (length pre) (pre ++ free) ≡ halt out_of_bounds
unfolding readline_2_from
readline_2_from-overflow [] rest pre [] left plain full room = absurd (omega arith)
readline_2_from-overflow [] rest pre (x ∷ y ∷ free) left plain full room = absurd (omega arith)
readline_2_from-overflow [] rest pre (x ∷ []) left plain full room =
    let some_left : (left == 0) ≡ false = ground arith in
    rw (some_left, write_at-behind pre [] x 10, write_at-outside pre) refl
readline_2_from-overflow (c ∷ line) rest pre [] left plain full room = absurd (omega arith)
readline_2_from-overflow (c ∷ line) rest pre (x ∷ free) left plain full room =
    let some_left : (left == 0) ≡ false = ground arith in
    let not_end : (c == 10) ≡ false = ground (arith, plain.0) in
    let one : length pre + 1 ≡ length (pre ++ c ∷ []) = omega (arith, length-append pre (c ∷ [])) in
    rw (some_left, write_at-behind pre free x c, not_end, one)
      (readline_2_from-overflow line rest (pre ++ c ∷ []) free (left - 1) plain.1 (omega arith)
        (omega arith))

-- A line that fills the whole block with its newline is followed by a NUL behind the block.
pub readline_2_overflow :
    (line rest dst : List ℕ)
    → Avoids 10 line
    → length dst ≡ length line + 1
    → readline_2 (line ++ 10 ∷ rest) dst (length dst) ≡ halt out_of_bounds
unfolding readline_2
readline_2_overflow line rest dst plain full =
    readline_2_from-overflow line rest [] dst (length dst) plain full (omega arith)

readline_2_from-line :
    (line rest pre free : List ℕ) (left : ℕ)
    → Avoids 10 line
    → length line + 1 < length free
    → length line < left
    → readline_2_from (line ++ 10 ∷ rest) left (length pre) (pre ++ free)
      ≡ ok (
        pos (length pre + length line + 1),
        (pre ++ line) ++ 10 ∷ 0 ∷ drop (length line + 2) free,
        rest,
      )
unfolding readline_2_from
readline_2_from-line line rest pre [] left plain room enough = absurd (omega arith)
readline_2_from-line line rest pre (x ∷ []) left plain room enough = absurd (omega arith)
readline_2_from-line [] rest pre (x ∷ y ∷ free) left plain room enough =
    let some_left : (left == 0) ≡ false = ground arith in
    let next : length pre + 1 ≡ length (pre ++ 10 ∷ []) =
      omega (arith, length-append pre (10 ∷ [])) in
    let number : length (pre ++ 10 ∷ []) ≡ length pre + 0 + 1 = omega (arith, next) in
    rw
      (
        some_left,
        write_at-behind pre (y ∷ free) x 10,
        next,
        write_at-behind (pre ++ 10 ∷ []) free y 0,
        number,
      )
      (ap (λ block. ok (pos (length pre + 0 + 1), block, rest))
        (append_assoc (pre ++ 10 ∷ []) (0 ∷ []) free
          ∙ append_assoc pre (10 ∷ []) (0 ∷ free)
          ∙ ap (λ p. p ++ 10 ∷ 0 ∷ free) (sym (append-nil pre))))
readline_2_from-line (c ∷ line) rest pre (x ∷ y ∷ free) left plain room enough =
    let some_left : (left == 0) ≡ false = ground arith in
    let not_end : (c == 10) ≡ false = ground (arith, plain.0) in
    let one : length pre + 1 ≡ length (pre ++ c ∷ []) = omega (arith, length-append pre (c ∷ [])) in
    let number : length (pre ++ c ∷ []) + length line + 1 ≡ length pre + suc (length line) + 1 =
      omega (arith, one) in
    let behind : suc (length line) + 2 ≡ suc (length line + 2) = omega arith in
    rw (some_left, write_at-behind pre (y ∷ free) x c, not_end, one)
      (readline_2_from-line line rest (pre ++ c ∷ []) (y ∷ free) (left - 1) plain.1 (omega arith)
          (omega arith)
        ∙ rw (number, append_assoc pre (c ∷ []) line, behind) refl)

-- A line with its newline, and room for a NUL behind it: both are stored, the number of bytes in
-- the line is returned, and the bytes behind the line stay in the stream.
pub readline_2-line :
    (line rest dst : List ℕ) (size : ℕ)
    → Avoids 10 line
    → length line + 1 < length dst
    → length line < size
    → readline_2 (line ++ 10 ∷ rest) dst size
      ≡ ok (pos (length line + 1), line ++ 10 ∷ 0 ∷ drop (length line + 2) dst, rest)
unfolding readline_2
readline_2-line line rest dst size plain room enough =
    let plainly : 0 + length line + 1 ≡ length line + 1 = omega arith in
    readline_2_from-line line rest [] dst size plain room enough
    ∙ ap (λ n. ok (pos n, line ++ 10 ∷ 0 ∷ drop (length line + 2) dst, rest)) plainly
