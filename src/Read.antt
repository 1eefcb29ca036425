-- ===== src/Read.antt =====
-- test_epoll/lib/read.c: reading a number of bytes, a line or a message from a socket.
-- What each call of `read` returned is an argument: a list with one result per call, which ends in
-- `no_fuel` where it is too short. For the calls of `recv` of one byte it is the list of the bytes,
-- which ends where the peer closed. The buffer is the block behind its pointer.
pub mod Whole
pub mod Lines
pub mod Endings
pub mod Chunks
use cpyu_ze.Base.{
  ℕ, ◌+◌, ◌-◌, ◌*◌, ◌^◌, ◌%◌, Bool, List, [], ◌∷◌, ltb, ◌==◌, if◌then◌else◌, length, replicate, ℤ,
  pos, negsuc, is_negative, eq_ℤ, Outcome, ok, halt, no_fuel, write_at, ◌>>=◌,
}
use cpyu_ze.Buffer.{memcpy}

-- The flag of a failure says whether `errno` is EINTR. No bytes are the end of the stream.
pub data ReadResult : Type 0 where
  failed : Bool → ReadResult
  got : List ℕ → ReadResult

-- The loop of `readn`: `left`, its `int length` while that is not negative, bytes are wanted from the place
-- `at` on. The result is the number of bytes read, or -1, with the block, and the results of later calls.
unfoldable pub readn_from :
    List ReadResult → ℕ → ℕ → List ℕ → Outcome (ℤ × List ℕ × List ReadResult)
readn_from [] left at dst = if left == 0 then ok (pos at, dst, []) else halt no_fuel
readn_from (x ∷ xs) left at dst =
    let next : Outcome (ℤ × List ℕ × List ReadResult) = elim x [
      | failed interrupted ↦
          (let again = readn_from xs left at dst in
            if interrupted then again else ok (negsuc 0, dst, xs))
      | got bytes ↦
          (let more = (do
            filled ← memcpy dst at bytes (length bytes)
            readn_from xs (left - length bytes) (at + length bytes) filled) in
            if length bytes == 0 then ok (pos at, dst, xs) else more)
    ] in
    if left == 0 then ok (pos at, dst, x ∷ xs) else next

-- `size - length`, for the `int length` that `size` gave and of which so many bytes were read; the -1 of a
-- failed call stays, as the `int` that the callers make of it.
abbrev pub behind_size : ℕ → ℤ → ℤ
behind_size unread (pos read) = pos (unread + read)
behind_size unread (negsuc n) = negsuc n

-- `readn`, for a `size` below 2^64, which `int length = size` cuts to 32 bits: a length that comes out
-- negative gives no round, and `size_t` then wraps around.
unfoldable pub readn : List ReadResult → List ℕ → ℕ → Outcome (ℤ × List ℕ × List ReadResult)
readn results dst size =
    let length = size % 2 ^ 32 in
    let looped = (do
      (read, filled, later) ← readn_from results length 0 dst
      ok (behind_size (size - length) read, filled, later)) in
    if ltb length (2 ^ 31)
    then looped
    else ok (pos ((size + 2 ^ 32 - length) % 2 ^ 64), dst, results)

-- `ntohl` of the four bytes of a number in memory.
abbrev pub network_long : List ℕ → ℕ
network_long (a ∷ b ∷ c ∷ d ∷ bytes) = a * 2 ^ 24 + b * 2 ^ 16 + c * 2 ^ 8 + d
network_long bytes = 0

-- `rc < 0 ? -1 : 0`
abbrev pub short_read : ℤ → ℤ
short_read rc = if is_negative rc then negsuc 0 else pos 0

-- `read_message`: a length and a type of four bytes each, and then so many bytes, if they fit.
unfoldable pub read_message : List ReadResult → List ℕ → ℕ → Outcome (ℤ × List ℕ × List ReadResult)
read_message results dst size = do
  (rc, long, results1) ← readn results (replicate 4 0) 4
  let second = (do
    (rc2, kind, results2) ← readn results1 (replicate 4 0) 4
    let record_itself = (do
      (rc3, filled, results3) ← readn results2 dst (network_long long)
      ok (if eq_ℤ rc3 (pos (network_long long)) then rc3 else short_read rc3, filled, results3))
    let fitting =
        (if ltb size (network_long long) then ok (negsuc 0, dst, results2) else record_itself)
    if eq_ℤ rc2 (pos 4) then fitting else ok (short_read rc2, dst, results2))
  if eq_ℤ rc (pos 4) then second else ok (short_read rc, dst, results1)

-- The loop of `readline_2`.
unfoldable pub readline_2_from : List ℕ → ℕ → ℕ → List ℕ → Outcome (ℤ × List ℕ × List ℕ)
readline_2_from [] left at dst = ok (negsuc 0, dst, [])
readline_2_from (c ∷ cs) left at dst =
    let stored = (do
      filled ← write_at dst at c
      let more = readline_2_from cs (left - 1) (at + 1) filled
      let ended = (do closed ← write_at filled (at + 1) 0; ok (pos (at + 1), closed, cs))
      if c == 10 then ended else more) in
    if left == 0 then ok (negsuc 0, dst, c ∷ cs) else stored

-- `readline_2`, on the bytes that will come: the number of bytes in the line, or -1.
unfoldable pub readline_2 : List ℕ → List ℕ → ℕ → Outcome (ℤ × List ℕ × List ℕ)
readline_2 input dst size = readline_2_from input size 0 dst

-- The NUL behind what `read_line` stored.
finish_line : List ℕ → ℕ → List ℕ → Outcome (ℕ × List ℕ × List ℕ)
finish_line dst at input = do closed ← write_at dst at 0; ok (at, closed, input)

-- The stream behind a CR, of which `MSG_PEEK` shows the first byte.
abbrev pub behind_cr : List ℕ → List ℕ
behind_cr [] = []
behind_cr (c ∷ cs) = if c == 10 then cs else c ∷ cs

-- The loop of `read_line`, for `left` places in front of the last.
unfoldable pub read_line_from : List ℕ → ℕ → ℕ → List ℕ → Outcome (ℕ × List ℕ × List ℕ)
unfolding finish_line
read_line_from [] left at dst = finish_line dst at []
read_line_from (c ∷ cs) left at dst =
    let stored = (do
      filled ← write_at dst at c
      let more = read_line_from cs (left - 1) (at + 1) filled
      let ended = finish_line filled (at + 1) cs
      if c == 10 then ended else more) in
    let turned = (do filled ← write_at dst at 10; finish_line filled (at + 1) (behind_cr cs)) in
    if left == 0 then finish_line dst at (c ∷ cs) else if c == 13 then turned else stored

-- `read_line`, for a `size` that is not negative: the number of bytes stored, which end in LF.
unfoldable pub read_line : List ℕ → List ℕ → ℕ → Outcome (ℕ × List ℕ × List ℕ)
read_line input dst size = read_line_from input (size - 1) 0 dst

-- `--length`, in `size_t`.
abbrev pub size_less : ℕ → ℕ
size_less size = if size == 0 then 2 ^ 64 - 1 else size - 1

-- The loop of `readline`: `chunk` is what is left of the last `recv`, and `size` is `length` in front
-- of the test. What `recv` returns has at most 512 bytes.
unfoldable pub readline_from :
    List ReadResult → List ℕ → ℕ → ℕ → List ℕ → Outcome (ℤ × List ℕ × List ReadResult)
readline_from results (c ∷ chunk) size at dst =
    let stored = (do
      filled ← write_at dst at c
      let more = readline_from results chunk (size_less size) (at + 1) filled
      let ended = (do closed ← write_at filled (at + 1) 0; ok (pos (at + 1), closed, results))
      if c == 10 then ended else more) in
    if size_less size == 0 then ok (negsuc 0, dst, results) else stored
readline_from [] [] size at dst =
    if size_less size == 0 then ok (negsuc 0, dst, []) else halt no_fuel
readline_from (x ∷ xs) [] size at dst =
    let next : Outcome (ℤ × List ℕ × List ReadResult) = elim x [
      | failed interrupted ↦
          (let again = readline_from xs [] size at dst in
            if interrupted then again else ok (negsuc 0, dst, xs))
      | got bytes ↦
          (let more = readline_from xs bytes size at dst in
            if length bytes == 0 then ok (pos 0, dst, xs) else more)
    ] in
    if size_less size == 0 then ok (negsuc 0, dst, x ∷ xs) else next

-- `readline`. `nleft` is set to 0 by every call, so that it begins with an empty chunk.
unfoldable pub readline : List ReadResult → List ℕ → ℕ → Outcome (ℤ × List ℕ × List ReadResult)
readline results dst size = readline_from results [] size 0 dst
