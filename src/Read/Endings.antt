-- ===== src/Read/Endings.antt =====
-- read_line of test_epoll/lib/read.c: the three ways a line may end, and the bounds of its block.
use cpyu_ze.Base.{
  ℕ, suc, ◌+◌, ◌-◌, ◌≤◌, ◌<◌, ◌≡◌, refl, ap, ◌∙◌, subst, true, false, Bool-cases, inl, inr, List,
  [], ◌∷◌, ◌++◌, arith, ◌==◌, length, set, drop, length-append, length-set, append_assoc,
  append-nil, ltb, ok, ◌>>=◌, Avoids, write_at, Returns,
}
use cpyu_ze.Read.{behind_cr, read_line_from, read_line}
use cpyu_ze.Read.Lines.{write_at-behind}

-- What may end a line: LF, CR LF, or CR with another byte or nothing behind it.
pub data IsEnding : List ℕ → List ℕ → Type 0 where
  lf : {rest : List ℕ} → IsEnding (10 ∷ []) rest
  cr_lf : {rest : List ℕ} → IsEnding (13 ∷ 10 ∷ []) rest
  cr : {rest : List ℕ} → behind_cr rest ≡ rest → IsEnding (13 ∷ []) rest

-- LF and a NUL behind what is stored.
pub write_at-two :
    (pre free : List ℕ) (x y : ℕ)
    → (filled : List ℕ) × (write_at (pre ++ x ∷ y ∷ free) (length pre) 10 ≡ ok filled)
      × (write_at filled (length pre + 1) 0 ≡ ok (pre ++ 10 ∷ 0 ∷ free))
write_at-two pre free x y =
    let next : length pre + 1 ≡ length (pre ++ 10 ∷ []) =
      omega (arith, length-append pre (10 ∷ [])) in
    (
      (pre ++ 10 ∷ []) ++ y ∷ free,
      write_at-behind pre (y ∷ free) x 10,
      rw (next, write_at-behind (pre ++ 10 ∷ []) free y 0)
          (ap ok
            (append_assoc (pre ++ 10 ∷ []) (0 ∷ []) free ∙ append_assoc pre (10 ∷ []) (0 ∷ free))),
    )

read_line_from-ending :
    {stop rest : List ℕ} (pre free : List ℕ) (x y left : ℕ)
    → IsEnding stop rest
    → 0 < left
    → read_line_from (stop ++ rest) left (length pre) (pre ++ x ∷ y ∷ free)
      ≡ ok (length pre + 1, pre ++ 10 ∷ 0 ∷ free, rest)
unfolding read_line_from
read_line_from-ending pre free x y left lf enough =
    let some_left : (left == 0) ≡ false = ground (arith, enough) in
    let (filled, first, second) = write_at-two pre free x y in rw (some_left, first, second)
read_line_from-ending pre free x y left cr_lf enough =
    let some_left : (left == 0) ≡ false = ground (arith, enough) in
    let (filled, first, second) = write_at-two pre free x y in rw (some_left, first, second)
read_line_from-ending pre free x y left (cr other) enough =
    let some_left : (left == 0) ≡ false = ground (arith, enough) in
    let (filled, first, second) = write_at-two pre free x y in rw (some_left, first, second, other)

read_line_from-line :
    {stop rest : List ℕ} (line pre free : List ℕ) (left : ℕ)
    → IsEnding stop rest
    → Avoids 10 line
    → Avoids 13 line
    → length line + 1 < length free
    → length line < left
    → read_line_from (line ++ (stop ++ rest)) left (length pre) (pre ++ free)
      ≡ ok (
        length pre + length line + 1,
        (pre ++ line) ++ 10 ∷ 0 ∷ drop (length line + 2) free,
        rest,
      )
unfolding read_line_from
read_line_from-line line pre [] left ending plain plainly room enough = absurd (omega arith)
read_line_from-line line pre (x ∷ []) left ending plain plainly room enough = absurd (omega arith)
read_line_from-line [] pre (x ∷ y ∷ free) left ending plain plainly room enough =
    let number : length pre + 1 ≡ length pre + 0 + 1 = omega arith in
    read_line_from-ending pre free x y left ending enough ∙ rw (number, append-nil pre) refl
read_line_from-line {stop} {rest} (c ∷ line) pre (x ∷ y ∷ free) left ending plain plainly room
      enough =
    let some_left : (left == 0) ≡ false = ground arith in
    let not_lf : (c == 10) ≡ false = ground (arith, plain.0) in
    let not_cr : (c == 13) ≡ false = ground (arith, plainly.0) in
    let one : length pre + 1 ≡ length (pre ++ c ∷ []) = omega (arith, length-append pre (c ∷ [])) in
    let number : length (pre ++ c ∷ []) + length line + 1 ≡ length pre + suc (length line) + 1 =
      omega (arith, one) in
    let behind : suc (length line) + 2 ≡ suc (length line + 2) = omega arith in
    rw (some_left, not_cr, write_at-behind pre (y ∷ free) x c, not_lf, one)
      (read_line_from-line line (pre ++ c ∷ []) (y ∷ free) (left - 1) ending plain.1 plainly.1
          (omega arith) (omega arith)
        ∙ rw (number, append_assoc pre (c ∷ []) line, behind) refl)

-- A line without LF and CR that fits with an LF and a NUL, however it ends: it is stored with an LF and
-- a NUL, its size with the LF is returned, and what comes behind its end stays in the stream.
pub read_line-ending :
    (line stop rest dst : List ℕ) (size : ℕ)
    → IsEnding stop rest
    → Avoids 10 line
    → Avoids 13 line
    → length line + 1 < size
    → size ≤ length dst
    → read_line (line ++ (stop ++ rest)) dst size
      ≡ ok (length line + 1, line ++ 10 ∷ 0 ∷ drop (length line + 2) dst, rest)
unfolding read_line
read_line-ending line stop rest dst size ending plain plainly fits room =
    let number : 0 + length line + 1 ≡ length line + 1 = omega arith in
    read_line_from-line line [] dst (size - 1) ending plain plainly (omega arith) (omega arith)
    ∙ ap (λ n. ok (n, line ++ 10 ∷ 0 ∷ drop (length line + 2) dst, rest)) number

-- The number that is returned, and the size of the block.
abbrev pub Within : ℕ → ℕ → ℕ × List ℕ × List ℕ → Type 0
Within limit size (n, dst, rest) = (n ≤ limit) × (length dst ≡ size)

write_at-inside : (dst : List ℕ) (i c : ℕ) → i < length dst → write_at dst i c ≡ ok (set dst i c)
unfolding write_at
write_at-inside dst i c h = let inside : ltb i (length dst) ≡ true = ground arith in rw inside refl

finish-Within :
    (dst input : List ℕ) (at limit size : ℕ)
    → length dst ≡ size
    → at ≤ limit
    → at < size
    → Returns (Within limit size) (write_at dst at 0 >>= λ closed. ok (at, closed, input))
finish-Within dst input at limit size sized le inside =
    rw (write_at-inside dst at 0 (omega (arith, sized))) (le, length-set dst at 0 ∙ sized)

read_line_from-Within :
    (input dst : List ℕ) (left at size : ℕ)
    → length dst ≡ size
    → at + left < size
    → Returns (Within (at + left) size) (read_line_from input left at dst)
unfolding read_line_from
read_line_from-Within [] dst left at size sized room =
    finish-Within dst [] at (at + left) size sized (omega arith) (omega arith)
read_line_from-Within (c ∷ cs) dst left at size sized room = elim (Bool-cases (left == 0)) [
  | inl full ↦
      rw full (finish-Within dst (c ∷ cs) at (at + left) size sized (omega arith) (omega arith))
  | inr more ↦
      (let some_left : 0 < left = ground arith in
        elim (Bool-cases (c == 13)) [
          | inl is_cr ↦
              rw (more, is_cr, write_at-inside dst at 10 (omega (arith, sized)))
                (finish-Within (set dst at 10) (behind_cr cs) (at + 1) (at + left) size
                  (length-set dst at 10 ∙ sized) (omega arith) (omega arith))
          | inr not_cr ↦
              (let sized' : length (set dst at c) ≡ size = length-set dst at c ∙ sized in
                elim (Bool-cases (c == 10)) [
                  | inl is_lf ↦
                      rw (more, not_cr, write_at-inside dst at c (omega (arith, sized)), is_lf)
                        (finish-Within (set dst at c) cs (at + 1) (at + left) size sized'
                          (omega arith) (omega arith))
                  | inr not_lf ↦
                      (let limit : at + 1 + (left - 1) ≡ at + left = omega arith in
                        rw (more, not_cr, write_at-inside dst at c (omega (arith, sized)), not_lf)
                          (subst
                            (λ n.
                              Returns (Within n size)
                                (read_line_from cs (left - 1) (at + 1) (set dst at c)))
                            limit
                            (read_line_from-Within cs (set dst at c) (left - 1) (at + 1) size sized'
                              (omega arith))))
                ])
        ])
]

-- Whatever comes, `read_line` stays within a block that is not empty and has the size that it is told:
-- it returns fewer than that many bytes, and the block keeps its size.
pub read_line-Within :
    (input dst : List ℕ) (size : ℕ)
    → 0 < size
    → size ≤ length dst
    → Returns (Within (size - 1) (length dst)) (read_line input dst size)
unfolding read_line
read_line-Within input dst size some_size room =
    let limit : 0 + (size - 1) ≡ size - 1 = omega arith in
    subst (λ n. Returns (Within n (length dst)) (read_line_from input (size - 1) 0 dst)) limit
      (read_line_from-Within input dst (size - 1) 0 (length dst) refl (omega arith))
