-- ===== src/Buffer/Append.antt =====
-- buffer_append and its variants, buffer_read_char: the buffer is a queue of bytes.
use cpyu_ze.Base.{
  ◌≢◌, get_elem?_of_drop, get_elem?_of_take, ℕ, suc, ◌+◌, ◌-◌, ◌≤◌, ◌<◌, ◌≡◌, refl, ap, ◌∙◌, none,
  some, List, [], ◌∷◌, ◌++◌, arith, length, take, drop, length-append, length-take, length-drop,
  take-length, ok, halt, Returns, Returns-mono, Returns-ok, int_limit, int_add, int_add-ok,
  out_of_bounds, ◌>>=◌,
}
use cpyu_ze.Buffer.{
  Allocator, IsRealloc, Buffer, memcpy, append_bytes, buffer_append, buffer_append_char,
  buffer_append_string, buffer_read_char, strlen, make_room,
}
use cpyu_ze.Buffer.Contents.{contents, IsBuffer, memcpy-ok, contents-write}
use cpyu_ze.Buffer.Room.{CanGrow, make_room-HasRoom, make_room_failed}

-- The buffer after `more` was written behind its contents.
pub record Appended (b : Buffer) (more : List ℕ) (b' : Buffer) : Type 0 where
  pub valid : IsBuffer b'
  pub grown : contents b' ≡ contents b ++ more
  pub bounded : b'.total_size ≤ b.total_size + length more

-- The buffer after `bytes` took the place of its block and the write index went to `w`.
abbrev pub rewritten : Buffer → ℕ → List ℕ → Buffer
rewritten b w bytes = record b { bytes = bytes; write_index = w }

-- The copy at the end of an append, in a buffer that has the room.
pub memcpy-Appended :
    (b : Buffer) (src : List ℕ) (size w : ℕ)
    → IsBuffer b
    → size ≤ length src
    → w ≡ b.write_index + size
    → w ≤ b.total_size
    → (bytes : List ℕ) × (memcpy b.bytes b.write_index src size ≡ ok bytes)
      × Appended b (take size src) (rewritten b w bytes)
memcpy-Appended b src size w' v enough e room =
    let w : ℕ = b.write_index in
    let more : List ℕ = take size src in
    let len : length more ≡ size = omega (arith, length-take size src) in
    let rest : List ℕ = drop (w + size) b.bytes in
    let bytes : List ℕ = take w b.bytes ++ (more ++ rest) in
    (
      bytes,
      memcpy-ok b.bytes w src size (omega (arith, v.block_is)) enough,
      record {
        valid = record {
          block_is = omega (
            arith,
            v.block_is,
            v.write_le,
            len,
            length-append (take w b.bytes) (more ++ rest),
            length-append more rest,
            length-take w b.bytes,
            length-drop (w + size) b.bytes,
          );
          read_le = omega (arith, v.read_le);
          write_le = room;
          small = v.small;
        };
        grown =
            ap (λ n. drop b.read_index (take n bytes)) (omega (arith, len))
            ∙ contents-write b.bytes more b.read_index w rest v.read_le
                (omega (arith, v.block_is, v.write_le));
        bounded = omega arith;
      },
    )

write_back :
    (b : Buffer) (src : List ℕ) (size : ℕ)
    → IsBuffer b
    → size ≤ length src
    → b.write_index + size ≤ b.total_size
    → Returns
        (λ c. Appended b (take size src) c × (c.total_size ≡ b.total_size))
        (do
          bytes ← memcpy b.bytes b.write_index src size
          write_index ← int_add b.write_index size
          ok (record b { bytes = bytes; write_index = write_index }))
write_back b src size v enough room =
    let (bytes, copied, app) =
      memcpy-Appended b src size (b.write_index + size) v enough refl room in
    rw (copied, int_add-ok b.write_index size (omega (arith, v.small))) (app, refl)

-- No NUL among the bytes.
abbrev pub AllNonzero : List ℕ → Type 0
AllNonzero [] = Unit
AllNonzero (c ∷ cs) = (c ≢ 0) × AllNonzero cs

pub strlen_lem :
    (text behind : List ℕ) → AllNonzero text → strlen (text ++ 0 ∷ behind) ≡ ok (length text)
unfolding strlen
strlen_lem [] behind h = refl
strlen_lem (c ∷ cs) behind h = ground (arith, strlen_lem cs behind h.1)

module _ (mem : Allocator) (std : IsRealloc mem) where
  append_bytes-Appended :
      (b : Buffer) (src : List ℕ) (size : ℕ)
      → IsBuffer b
      → size ≤ length src
      → CanGrow mem b size
      → Returns (Appended b (take size src)) (append_bytes mem b src size)
  unfolding append_bytes
  append_bytes-Appended b src size v enough can =
      let (b', made, room) = make_room-HasRoom mem std b size v can in
      rw made (
        Returns-mono (λ c. Appended b' (take size src) c × (c.total_size ≡ b'.total_size))
          (Appended b (take size src)) _ (write_back b' src size room.valid enough room.room)
          λ c (done, same). record {
            valid = done.valid;
            grown = done.grown ∙ ap (λ l. l ++ take size src) room.same;
            bounded = omega (arith, same, room.bounded, length-take size src);
          })

  -- Where the buffer is well formed and there is memory for what does not fit, `buffer_append`
  -- puts the first `size` bytes of `data` behind the contents, and loses nothing.
  pub buffer_append-contents :
      (b : Buffer) (src : List ℕ) (size : ℕ)
      → IsBuffer b
      → size ≤ length src
      → CanGrow mem b size
      → (b' : Buffer) × (buffer_append mem b (some src) size ≡ ok b')
        × Appended b (take size src) b'
  unfolding buffer_append
  buffer_append-contents b src size v enough can =
      Returns-ok _ (append_bytes-Appended b src size v enough can)

  pub buffer_append_char-contents :
      (b : Buffer) (c : ℕ)
      → IsBuffer b
      → CanGrow mem b 1
      → (b' : Buffer) × (buffer_append_char mem b c ≡ ok b') × Appended b (c ∷ []) b'
  unfolding buffer_append_char append_bytes make_room
  buffer_append_char-contents b c v can =
      Returns-ok _ (append_bytes-Appended b (c ∷ []) 1 v (omega arith) can)

  -- Where the buffer is well formed and there is memory, a C string is appended up to its first
  -- NUL, whatever stands behind it.
  pub buffer_append_string-contents :
      (b : Buffer) (text behind : List ℕ)
      → IsBuffer b
      → AllNonzero text
      → CanGrow mem b (length text)
      → (b' : Buffer) × (buffer_append_string mem b (some (text ++ 0 ∷ behind)) ≡ ok b')
        × Appended b text b'
  unfolding buffer_append_string
  buffer_append_string-contents b text behind v nonzero can =
      let enough : length text ≤ length (text ++ 0 ∷ behind) =
        omega (arith, length-append text (0 ∷ behind)) in
      let (b', done, app) =
        buffer_append-contents b (text ++ 0 ∷ behind) (length text) v enough can in
      (
        b',
        rw (strlen_lem text behind nonzero) done,
        record {
          valid = app.valid;
          grown = rw (take-length text (0 ∷ behind)) at app.grown;
          bounded = omega (arith, app.bounded, length-take (length text) (text ++ 0 ∷ behind));
        },
      )

-- When more room is needed and `realloc` fails, the append writes past the end of the block.
pub buffer_append_failed :
    (mem : Allocator) (b : Buffer) (src : List ℕ) (size : ℕ)
    → IsBuffer b
    → b.read_index + (b.total_size - b.write_index) < size
    → b.total_size + size < int_limit
    → mem.realloc b.bytes (b.total_size + size) ≡ none
    → buffer_append mem b (some src) size ≡ halt out_of_bounds
unfolding buffer_append memcpy
buffer_append_failed mem b src size v tight small lost =
    rw (make_room_failed mem b size v tight small lost) (ground (arith, v.block_is, v.write_le))

-- `buffer_read_char` takes the first byte of the contents off.
pub buffer_read_char-contents :
    (b : Buffer) (c : ℕ) (rest : List ℕ)
    → IsBuffer b
    → contents b ≡ c ∷ rest
    → (b' : Buffer) × (buffer_read_char b ≡ ok (c, b')) × IsBuffer b' × (contents b' ≡ rest)
unfolding buffer_read_char
buffer_read_char-contents b c rest v e =
    let (got, tail, lt) = get_elem?_of_drop (take b.write_index b.bytes) b.read_index e in
    let fits : b.read_index < b.write_index =
      omega (arith, lt, length-take b.write_index b.bytes) in
    let one : b.read_index + 1 ≡ suc b.read_index = omega arith in
    (
      record b { read_index = b.read_index + 1 },
      rw (
        get_elem?_of_take b.bytes b.write_index b.read_index got,
        int_add-ok b.read_index 1 (omega (arith, v.write_le, v.small)),
      ),
      record {
        block_is = v.block_is;
        read_le = omega arith;
        write_le = v.write_le;
        small = v.small;
      },
      ap (λ k. drop k (take b.write_index b.bytes)) one ∙ tail,
    )
