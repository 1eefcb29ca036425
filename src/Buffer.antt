-- ===== src/Buffer.antt =====
-- test_epoll/lib/buffer.h and buffer.c: the byte buffer of a connection.
-- `struct buffer` is the record `Buffer`: `bytes` is the block that `data` points to, with the
-- length that the allocator gave it (empty for NULL), and the two indices and the size are
-- numbers. An index that C would make negative ends in `negative_index`. Every access is checked
-- against the block, and every `int` sum that can leave the range of `int` is checked too.
pub mod Contents
pub mod Room
pub mod Append
pub mod Socket
pub mod Search
use cpyu_ze.Base.{
  ℕ, zero, suc, ◌+◌, ◌≤◌, ◌≡◌, Bool, true, false, ◌&&◌, Option, none, some, List, [], ◌∷◌, ◌++◌,
  leb, ◌==◌, if◌then◌else◌, length, set, take, drop, ℤ, pos, negsuc, sub_ℕ, ◌+ℤ◌, leb_ℤ, Outcome,
  ok, halt, out_of_bounds, int_add, to_index, read_at, ◌>>=◌,
}

-- The allocator, which is not part of the program. `realloc` sees the old block.
pub record Allocator : Type 0 where
  pub malloc : ℕ → Option (List ℕ)
  pub realloc : List ℕ → ℕ → Option (List ℕ)

-- What the C standard says of `realloc`: the new block has the size asked for, and begins with
-- the old one, if that is not longer.
pub record IsRealloc (mem : Allocator) : Type 0 where
  pub sized : (old : List ℕ) (n : ℕ) {new : List ℕ} → mem.realloc old n ≡ some new → length new ≡ n
  pub keeps :
      (old : List ℕ) (n : ℕ) {new : List ℕ}
      → length old ≤ n
      → mem.realloc old n ≡ some new
      → take (length old) new ≡ old

pub record Buffer : Type 0 where
  pub bytes : List ℕ
  pub read_index : ℕ
  pub write_index : ℕ
  pub total_size : ℕ

-- `INIT_BUFFER_SIZE`
abbrev pub init_buffer_size : ℕ
init_buffer_size = 65536

-- `memcpy(dst + at, src, n)`
unfoldable pub memcpy : List ℕ → ℕ → List ℕ → ℕ → Outcome (List ℕ)
memcpy dst at src n =
    if leb (at + n) (length dst) && leb n (length src)
    then ok (take at dst ++ (take n src ++ drop (at + n) dst))
    else halt out_of_bounds

-- The block of a pointer that was not checked: none behind NULL.
abbrev pub block : Option (List ℕ) → List ℕ
block none = []
block (some p) = p

-- `buffer_new`. The flag says whether the block of the structure itself was there; the result of
-- the second `malloc` is not checked.
unfoldable pub buffer_new : Allocator → Bool → Option Buffer
buffer_new mem false = none
buffer_new mem true = some (record {
  bytes = block (mem.malloc init_buffer_size);
  total_size = init_buffer_size;
  read_index = 0;
  write_index = 0;
})

unfoldable pub buffer_writeable_size : Buffer → ℤ
buffer_writeable_size b = sub_ℕ b.total_size b.write_index

unfoldable pub buffer_readable_size : Buffer → ℤ
buffer_readable_size b = sub_ℕ b.write_index b.read_index

unfoldable pub buffer_front_spare_size : Buffer → ℤ
buffer_front_spare_size b = pos b.read_index

-- The loop of `make_room`: one byte from `data + from + i` to `data + i`, for `rounds` rounds.
unfoldable pub copy_down : ℕ → ℕ → ℕ → List ℕ → Outcome (List ℕ)
copy_down zero i from bytes = ok bytes
copy_down (suc rounds) i from bytes = do
  c ← read_at bytes (from + i)
  copy_down rounds (i + 1) from (set bytes i c)

shift_down : Buffer → Outcome Buffer
shift_down b = do
  readable ← to_index (buffer_readable_size b)
  bytes ← copy_down readable 0 b.read_index b.bytes
  ok (record b { bytes = bytes; read_index = 0; write_index = readable })

enlarged : Buffer → ℕ → Option (List ℕ) → Buffer
enlarged b size none = b
enlarged b size (some tmp) = record b { bytes = tmp; total_size = size }

enlarge : Allocator → Buffer → ℕ → Outcome Buffer
enlarge mem b size = do
  total ← int_add b.total_size size
  ok (enlarged b total (mem.realloc b.bytes total))

unfoldable pub make_room : Allocator → Buffer → ℕ → Outcome Buffer
unfolding shift_down enlarge enlarged buffer_writeable_size buffer_readable_size
    buffer_front_spare_size
make_room mem b size =
    if leb_ℤ (pos size) (buffer_writeable_size b)
    then ok b
    else if leb_ℤ (pos size) (buffer_front_spare_size b +ℤ buffer_writeable_size b)
    then shift_down b
    else enlarge mem b size

append_bytes : Allocator → Buffer → List ℕ → ℕ → Outcome Buffer
append_bytes mem b src size = do
  b' ← make_room mem b size
  bytes ← memcpy b'.bytes b'.write_index src size
  write_index ← int_add b'.write_index size
  ok (record b' { bytes = bytes; write_index = write_index })

-- `buffer_append(buffer, data, size)`: nothing for NULL. Its result is not set by the source.
unfoldable pub buffer_append : Allocator → Buffer → Option (List ℕ) → ℕ → Outcome Buffer
unfolding append_bytes
buffer_append mem b none size = ok b
buffer_append mem b (some src) size = append_bytes mem b src size

unfoldable pub buffer_append_char : Allocator → Buffer → ℕ → Outcome Buffer
buffer_append_char mem b c = do
  b' ← make_room mem b 1
  bytes ← memcpy b'.bytes b'.write_index (c ∷ []) 1
  write_index ← int_add b'.write_index 1
  ok (record b' { bytes = bytes; write_index = write_index })

-- `strlen`: the bytes before the first NUL of a block, if there is one.
unfoldable pub strlen : List ℕ → Outcome ℕ
strlen [] = halt out_of_bounds
strlen (c ∷ cs) = let rest = strlen cs in if c == 0 then ok 0 else do n ← rest; ok (suc n)

unfoldable pub buffer_append_string : Allocator → Buffer → Option (List ℕ) → Outcome Buffer
buffer_append_string mem b none = ok b
buffer_append_string mem b (some text) = do size ← strlen text; buffer_append mem b (some text) size

-- `buffer_socket_read`. What `readv` returns is an argument: `none` for a negative result, else
-- the bytes that it read, first into the free end of the buffer and then into the stack block.
unfoldable pub buffer_socket_read : Allocator → Buffer → Option (List ℕ) → Outcome (ℤ × Buffer)
buffer_socket_read mem b none = ok (negsuc 0, b)
buffer_socket_read mem b (some received) = do
  max_writable ← to_index (buffer_writeable_size b)
  let result = length received
  if leb result max_writable
      then (do
        bytes ← memcpy b.bytes b.write_index received result
        write_index ← int_add b.write_index result
        ok (pos result, record b { bytes = bytes; write_index = write_index }))
      else (do
        bytes ← memcpy b.bytes b.write_index received max_writable
        let full = record b { bytes = bytes; write_index = b.total_size }
        let additional_buffer = drop max_writable received
        b' ← buffer_append mem full (some additional_buffer) (length additional_buffer)
        ok (pos result, b'))

unfoldable pub buffer_read_char : Buffer → Outcome (ℕ × Buffer)
buffer_read_char b = do
  c ← read_at b.bytes b.read_index
  read_index ← int_add b.read_index 1
  ok (c, record b { read_index = read_index })

-- Is `pattern` at the front of `text`?
unfoldable pub starts_with : List ℕ → List ℕ → Bool
starts_with [] text = true
starts_with (p ∷ ps) [] = false
starts_with (p ∷ ps) (c ∷ cs) = (p == c) && starts_with ps cs

-- `memmem(text, pattern)`: the first place of `pattern`, from `at` on.
memmem_from : ℕ → List ℕ → List ℕ → Option ℕ
memmem_from at pattern [] = if starts_with pattern [] then some at else none
memmem_from at pattern (c ∷ cs) =
    let rest = memmem_from (at + 1) pattern cs in
    if starts_with pattern (c ∷ cs) then some at else rest

unfoldable pub memmem : List ℕ → List ℕ → Option ℕ
unfolding memmem_from starts_with
memmem text pattern = memmem_from 0 pattern text

abbrev pub crlf : List ℕ
crlf = 13 ∷ 10 ∷ []

-- The readable bytes, `data[readIndex .. readIndex + readable)`, if they all lie in the block.
unfoldable pub readable_bytes : Buffer → Outcome (List ℕ)
readable_bytes b = do
  readable ← to_index (buffer_readable_size b)
  if leb (b.read_index + readable) (length b.bytes)
      then ok (take readable (drop b.read_index b.bytes))
      else halt out_of_bounds

-- `buffer_find_CRLF`: the place of the first CRLF, counted from the read index; `none` is NULL.
unfoldable pub buffer_find_crlf : Buffer → Outcome (Option ℕ)
buffer_find_crlf b = do text ← readable_bytes b; ok (memmem text crlf)
