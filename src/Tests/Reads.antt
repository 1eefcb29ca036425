-- ===== src/Tests/Reads.antt =====
-- Runs of test_epoll/lib/read.c on short streams.
use cpyu_ze.Base.{
  ℕ, ◌≡◌, refl, true, List, [], ◌∷◌, ◌++◌, arith, length, drop, pos, ok, codes, Returns,
}
use cpyu_ze.Read.{ReadResult, failed, got, readn, read_line, readline}
use cpyu_ze.Read.Endings.{cr_lf, Within, read_line-ending, read_line-Within}
use cpyu_ze.Read.Chunks.{readline_forgets}
use cpyu_ze.Read.Whole.{payload, readn-payload}
use cpyu_ze.Tests.{avoids_lem}

abbrev four : List ℕ
four = 0 ∷ 0 ∷ 0 ∷ 0 ∷ []

-- Three bytes in two pieces, with an interrupted call between them.
abbrev calls : List ReadResult
calls = got (7 ∷ 8 ∷ []) ∷ failed true ∷ got (9 ∷ []) ∷ []

calls-payload : length (payload calls) ≡ 3
unfolding payload
calls-payload = refl

readn-payload_example :
    (rest : List ReadResult) × (readn (calls ++ got [] ∷ []) four 3
      ≡ ok (pos 3, payload calls ++ drop 3 four, rest))
readn-payload_example =
    readn-payload calls (got [] ∷ []) four 3 (omega arith) (omega arith, (refl, (omega arith, tt)))
      calls-payload (omega arith)

read_line-ending_example :
    read_line (codes "OK" ++ (13 ∷ 10 ∷ [] ++ codes "A")) four 4
    ≡ ok (3, codes "OK" ++ 10 ∷ 0 ∷ [], codes "A")
read_line-ending_example =
    read_line-ending (codes "OK") (13 ∷ 10 ∷ []) (codes "A") four 4 cr_lf
      (avoids_lem 10 (codes "OK") refl) (avoids_lem 13 (codes "OK") refl) (omega arith)
      (omega arith)

read_line-Within_example : Returns (Within 3 4) (read_line (codes "too long") four 4)
read_line-Within_example = read_line-Within (codes "too long") four 4 (omega arith) (omega arith)

readline_forgets_example :
    readline (got (codes "OK" ++ 10 ∷ codes "lost") ∷ calls) four 4
    ≡ ok (pos 3, codes "OK" ++ 10 ∷ 0 ∷ [], calls)
readline_forgets_example =
    readline_forgets (codes "OK") (codes "lost") four calls 4 (avoids_lem 10 (codes "OK") refl)
      (omega arith) (omega arith)
