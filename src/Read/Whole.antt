-- ===== src/Read/Whole.antt =====
-- readn of test_epoll/lib/read.c: interrupted and short reads make no difference.
use cpyu_ze.Base.{
  ℕ, zero, suc, ◌+◌, ◌-◌, ◌≤◌, ◌<◌, ◌≡◌, refl, sym, ap, ◌∙◌, true, false, List, [], ◌∷◌, ◌++◌,
  arith, ◌==◌, ltb, ◌%◌, ◌^◌, length, drop, length-append, length-drop, take-length, take_all,
  drop-length, drop-drop, append_assoc, append-nil, pos, ok,
}
use cpyu_ze.Buffer.{memcpy}
use cpyu_ze.Buffer.Contents.{memcpy-ok}
use cpyu_ze.Read.{ReadResult, failed, got, readn_from, readn}

-- The bytes that came, all calls together.
unfoldable pub payload : List ReadResult → List ℕ
payload [] = []
payload (failed interrupted ∷ xs) = payload xs
payload (got bytes ∷ xs) = bytes ++ payload xs

-- Interrupted calls, and calls that gave some bytes.
abbrev pub AllGoing : List ReadResult → Type 0
AllGoing [] = Unit
AllGoing (failed interrupted ∷ xs) = (interrupted ≡ true) × AllGoing xs
AllGoing (got bytes ∷ xs) = (0 < length bytes) × AllGoing xs

memcpy-behind :
    (pre free bytes : List ℕ)
    → length bytes ≤ length free
    → memcpy (pre ++ free) (length pre) bytes (length bytes)
      ≡ ok ((pre ++ bytes) ++ drop (length bytes) free)
memcpy-behind pre free bytes room =
    let back : drop (length pre + length bytes) (pre ++ free) ≡ drop (length bytes) free =
      drop-behind pre free (length bytes) in
    memcpy-ok (pre ++ free) (length pre) bytes (length bytes)
      (omega (arith, length-append pre free)) (omega arith)
    ∙ rw (take-length pre free, take_all (length bytes) bytes (omega arith), back)
        (ap ok (sym (append_assoc pre bytes (drop (length bytes) free))))
  where
    drop-behind : (a b : List ℕ) (n : ℕ) → drop (length a + n) (a ++ b) ≡ drop n b
    drop-behind a b n = sym (drop-drop n (length a) (a ++ b)) ∙ ap (drop n) (drop-length a b)

nothing_left :
    (xs : List ReadResult) (at : ℕ) (dst : List ℕ) → readn_from xs 0 at dst ≡ ok (pos at, dst, xs)
unfolding readn_from
nothing_left [] at dst = refl
nothing_left (failed e ∷ xs) at dst = refl
nothing_left (got bytes ∷ xs) at dst = refl

empty_of_length : (bytes : List ℕ) → length bytes ≡ 0 → bytes ≡ []
empty_of_length [] e = refl
empty_of_length (c ∷ bytes) e = absurd (omega arith)

readn_from-payload :
    (xs more : List ReadResult) (left : ℕ) (pre free : List ℕ)
    → AllGoing xs
    → length (payload xs) ≡ left
    → left ≤ length free
    → (rest : List ReadResult) × (readn_from (xs ++ more) left (length pre) (pre ++ free)
        ≡ ok (pos (length pre + left), (pre ++ payload xs) ++ drop left free, rest))
unfolding payload readn_from
readn_from-payload [] more left pre free going size room = (
  more,
  rw (← size, append-nil pre)
      (nothing_left more (length pre) (pre ++ free)
        ∙ ap (λ n. ok (pos n, pre ++ free, more)) (omega arith)),
)
readn_from-payload (failed e ∷ xs) more zero pre free going size room =
    let none_left : payload xs ≡ [] = empty_of_length (payload xs) size in
    let same : length pre ≡ length pre + 0 = omega arith in
    (
      failed e ∷ (xs ++ more),
      rw (none_left, append-nil pre)
          (ap (λ n. ok (pos n, pre ++ free, failed e ∷ (xs ++ more))) same),
    )
readn_from-payload (failed e ∷ xs) more (suc left) pre free going size room =
    let (rest, done) = readn_from-payload xs more (suc left) pre free going.1 size room in
    let some_left : (suc left == 0) ≡ false = ground arith in (rest, rw (some_left, going.0) done)
readn_from-payload (got bytes ∷ xs) more left pre free going size room =
    let n : ℕ = length bytes in
    let some_left : (left == 0) ≡ false =
      ground (arith, length-append bytes (payload xs), going.0) in
    let some_read : (n == 0) ≡ false = ground (arith, going.0) in
    let all : n + length (payload xs) ≡ left =
      omega (arith, length-append bytes (payload xs), size) in
    let (rest, done) =
      readn_from-payload xs more (left - n) (pre ++ bytes) (drop n free) going.1
        (omega (arith, all)) (omega (arith, all, length-drop n free)) in
    let one : length pre + n ≡ length (pre ++ bytes) = omega (arith, length-append pre bytes) in
    let number : length (pre ++ bytes) + (left - n) ≡ length pre + left = omega (arith, one, all) in
    let split : n + (left - n) ≡ left = omega (arith, all) in
    (
      rest,
      rw (some_left, memcpy-behind pre free bytes (omega (arith, all)), some_read, one)
          (done
            ∙ rw (number, append_assoc pre bytes (payload xs), drop-drop (left - n) n free, split)
                refl),
    )

-- When the calls, interrupted ones and short ones among them, give just as many bytes as are
-- asked for, fewer than 2^31, `readn` returns that number, with the bytes at the front of the block and the
-- rest of it as it was. The block has room for them.
pub readn-payload :
    (xs more : List ReadResult) (dst : List ℕ) (size : ℕ)
    → size < 2 ^ 31
    → AllGoing xs
    → length (payload xs) ≡ size
    → size ≤ length dst
    → (rest : List ReadResult) × (readn (xs ++ more) dst size
        ≡ ok (pos size, payload xs ++ drop size dst, rest))
unfolding readn
readn-payload xs more dst size small going all room =
    let (rest, done) = readn_from-payload xs more size [] dst going all room in
    let whole : size % 2 ^ 32 ≡ size = omega (arith, small) in
    let positive : ltb size (2 ^ 31) ≡ true = ground (arith, small) in
    let number : size - size + (0 + size) ≡ size = omega arith in
    (
      rest,
      rw (whole, positive, done) (ap (λ n. ok (pos n, payload xs ++ drop size dst, rest)) number),
    )
