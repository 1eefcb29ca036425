-- ===== src/Buffer/Room.antt =====
-- make_room of test_epoll/lib/buffer.c: it never changes what is readable.
use cpyu_ze.Base.{
  ◌+ℤ◌, take-take_le, Returns-ok, ℕ, zero, suc, ◌+◌, ◌-◌, ◌≤◌, ◌<◌, ◌≡◌, refl, sym, ap, ◌∙◌, false,
  none, some, List, [], ◌∷◌, ◌++◌, arith, ◌⊎◌, inl, inr, length, take, drop, set, get_elem?,
  Bool-cases, length-append, length-take, length-drop, length-set, take-append-drop,
  take_append_left, take_all, append_assoc, take-drop-slice, take-suc, drop-cons, drop-set_lt,
  take-set_ge, get_elem?-some, get_elem?-set_self, ok, Returns, int_limit, int_add-ok, pos, sub_ℕ,
  leb_ℤ,
}
use cpyu_ze.Buffer.{
  Allocator, IsRealloc, Buffer, make_room, copy_down, shift_down, enlarge, enlarged,
  buffer_readable_size,
}
use cpyu_ze.Buffer.Contents.{contents, IsBuffer}

-- The loop moves each byte down before it is overwritten.
pub copy_down-ok :
    (n i from : ℕ) (xs : List ℕ)
    → from + i + n ≤ length xs
    → copy_down n i from xs ≡ ok (take i xs ++ (take n (drop (from + i) xs) ++ drop (i + n) xs))
unfolding copy_down
copy_down-ok zero i from xs h =
    let e : i + 0 ≡ i = omega arith in ap ok (rw e (sym (take-append-drop i xs)))
copy_down-ok (suc n) i from xs h =
    let (c, e) = get_elem?-some xs (from + i) (omega arith) in
    let ys : List ℕ = set xs i c in
    let at : get_elem? ys i ≡ some c = get_elem?-set_self xs i c (omega arith) in
    let front : take (i + 1) ys ≡ take i xs ++ c ∷ [] =
      (let one : i + 1 ≡ suc i = omega arith in
        rw one (take-suc ys i at ∙ ap (λ l. l ++ c ∷ []) (take-set_ge xs i i c (omega arith)))) in
    let mid : drop (from + (i + 1)) ys ≡ drop (suc (from + i)) xs =
      (let one : from + (i + 1) ≡ suc (from + i) = omega arith in
        rw one (drop-set_lt xs i (suc (from + i)) c (omega arith))) in
    let back : drop (i + 1 + n) ys ≡ drop (i + suc n) xs =
      (let one : i + 1 + n ≡ i + suc n = omega arith in
        rw one (drop-set_lt xs i (i + suc n) c (omega arith))) in
    rw e (
      copy_down-ok n (i + 1) from ys (omega (arith, length-set xs i c))
      ∙ ap ok
          (rw (front, mid, back, drop-cons xs (from + i) e) (append_assoc (take i xs) (c ∷ []) _)))

-- What `make_room` promises: the same contents, well formed, and room for `size` more bytes.
pub record HasRoom (b : Buffer) (size : ℕ) (b' : Buffer) : Type 0 where
  pub valid : IsBuffer b'
  pub same : contents b' ≡ contents b
  pub room : b'.write_index + size ≤ b'.total_size
  pub bounded : b'.total_size ≤ b.total_size + size

shift_down-HasRoom :
    (b : Buffer) (size : ℕ)
    → IsBuffer b
    → size ≤ b.read_index + (b.total_size - b.write_index)
    → Returns (HasRoom b size) (shift_down b)
unfolding shift_down buffer_readable_size
shift_down-HasRoom b size v h =
    let n : ℕ = b.write_index - b.read_index in
    let e : sub_ℕ b.write_index b.read_index ≡ pos n = ground (arith, v.read_le) in
    let bytes : List ℕ = take n (drop (b.read_index + 0) b.bytes) ++ drop (0 + n) b.bytes in
    let done : copy_down n 0 b.read_index b.bytes ≡ ok bytes =
      copy_down-ok n 0 b.read_index b.bytes (omega (arith, v.block_is, v.read_le, v.write_le)) in
    let len : length (take n (drop (b.read_index + 0) b.bytes)) ≡ n = omega (
      arith,
      length-take n (drop (b.read_index + 0) b.bytes),
      length-drop (b.read_index + 0) b.bytes,
      v.block_is,
      v.read_le,
      v.write_le,
    ) in
    let whole : length bytes ≡ b.total_size = omega (
      arith,
      len,
      length-append (take n (drop (b.read_index + 0) b.bytes)) (drop (0 + n) b.bytes),
      length-drop (0 + n) b.bytes,
      v.block_is,
      v.read_le,
      v.write_le,
    ) in
    let front : take n bytes ≡ take n (drop (b.read_index + 0) b.bytes) =
      take_append_left n _ (drop (0 + n) b.bytes) (omega (arith, len))
      ∙ take_all n _ (omega (arith, len)) in
    let zero_off : b.read_index + 0 ≡ b.read_index = omega arith in
    rw (e, done)
      (record {
        valid = record {
          block_is = whole;
          read_le = omega arith;
          write_le = omega (arith, v.read_le, v.write_le);
          small = v.small;
        };
        same =
            front
            ∙ ap (λ k. take n (drop k b.bytes)) zero_off
            ∙ take-drop-slice b.read_index b.write_index b.bytes;
        room = omega (arith, v.read_le, v.write_le);
        bounded = omega arith;
      })

-- When nothing has to be allocated, or the allocator has the room.
abbrev pub CanGrow : Allocator → Buffer → ℕ → Type 0
CanGrow mem b size =
    (size ≤ b.read_index + (b.total_size - b.write_index))
    ⊎ ((b.total_size + size < int_limit)
        × ((new : List ℕ) × (mem.realloc b.bytes (b.total_size + size) ≡ some new)))

module _ (mem : Allocator) (std : IsRealloc mem) where
  enlarge-HasRoom :
      (b : Buffer) (size : ℕ) (new : List ℕ)
      → IsBuffer b
      → b.total_size + size < int_limit
      → mem.realloc b.bytes (b.total_size + size) ≡ some new
      → Returns (HasRoom b size) (enlarge mem b size)
  unfolding enlarge enlarged
  enlarge-HasRoom b size new v h got =
      let old : take (length b.bytes) new ≡ b.bytes =
        std.keeps b.bytes (b.total_size + size) (omega (arith, v.block_is)) got in
      let w_le : b.write_index ≤ length b.bytes = omega (arith, v.block_is, v.write_le) in
      rw (int_add-ok b.total_size size h, got)
        (record {
          valid = record {
            block_is = std.sized b.bytes (b.total_size + size) got;
            read_le = v.read_le;
            write_le = omega (arith, v.write_le);
            small = h;
          };
          same = ap (drop b.read_index) (
              sym (take-take_le b.write_index (length b.bytes) new w_le)
              ∙ ap (take b.write_index) old);
          room = omega (arith, v.write_le);
          bounded = omega arith;
        })

  make_room_cases :
      (b : Buffer) (size : ℕ)
      → IsBuffer b
      → CanGrow mem b size
      → Returns (HasRoom b size) (make_room mem b size)
  unfolding make_room
  make_room_cases b size v can =
      elim (Bool-cases (leb_ℤ (pos size) (sub_ℕ b.total_size b.write_index))) [
        | inl fits ↦ rw fits (record {
          valid = v;
          same = refl;
          room = ground (arith, v.write_le);
          bounded = omega arith;
        })
        | inr full ↦
            rw full
              (elim (Bool-cases
                (leb_ℤ (pos size) (pos b.read_index +ℤ sub_ℕ b.total_size b.write_index))) [
                  | inl spare ↦ rw spare (shift_down-HasRoom b size v (ground (arith, v.write_le)))
                  | inr tight ↦ rw tight (elim can [
                    | inl room ↦ absurd (ground (arith, v.write_le))
                    | inr (small, (new, got)) ↦ enlarge-HasRoom b size new v small got
                  ])
                ])
      ]

  -- Where memory allows, `make_room` turns a well-formed buffer into one with the same contents
  -- and with room for `size` more bytes, whichever of its three branches it takes.
  pub make_room-HasRoom :
      (b : Buffer) (size : ℕ)
      → IsBuffer b
      → CanGrow mem b size
      → (b' : Buffer) × (make_room mem b size ≡ ok b') × HasRoom b size b'
  make_room-HasRoom b size v can = Returns-ok _ (make_room_cases b size v can)

-- When `realloc` fails, `make_room` leaves the buffer as it is, without a word.
pub make_room_failed :
    (mem : Allocator) (b : Buffer) (size : ℕ)
    → IsBuffer b
    → b.read_index + (b.total_size - b.write_index) < size
    → b.total_size + size < int_limit
    → mem.realloc b.bytes (b.total_size + size) ≡ none
    → make_room mem b size ≡ ok b
unfolding make_room
make_room_failed mem b size v tight small lost =
    let full : leb_ℤ (pos size) (sub_ℕ b.total_size b.write_index) ≡ false =
      ground (arith, v.write_le) in
    let spare : leb_ℤ (pos size) (pos b.read_index +ℤ sub_ℕ b.total_size b.write_index) ≡ false =
      ground (arith, v.write_le) in
    rw (full, spare, int_add-ok b.total_size size small, lost)
