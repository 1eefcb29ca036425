-- ===== src/Buffer/Contents.antt =====
-- What a buffer of test_epoll/lib/buffer.c stands for: the bytes between its two indices.
use cpyu_ze.Base.{
  ℕ, ◌+◌, ◌-◌, ◌≤◌, ◌<◌, ◌≡◌, List, ◌++◌, sym, drop-drop, arith, length, take, drop, length-append,
  length-take, length-drop, take-length, drop_append_left, append_assoc, ok, int_limit,
}
use cpyu_ze.Buffer.{Buffer, memcpy}

abbrev pub contents : Buffer → List ℕ
contents b = drop b.read_index (take b.write_index b.bytes)

-- The indices are in order and inside the block, and the size is an `int`.
pub record IsBuffer (b : Buffer) : Type 0 where
  pub block_is : length b.bytes ≡ b.total_size
  pub read_le : b.read_index ≤ b.write_index
  pub write_le : b.write_index ≤ b.total_size
  pub small : b.total_size < int_limit

-- What `memcpy` leaves of a block when all fits.
pub memcpy-ok :
    (dst : List ℕ) (at : ℕ) (src : List ℕ) (n : ℕ)
    → at + n ≤ length dst
    → n ≤ length src
    → memcpy dst at src n ≡ ok (take at dst ++ (take n src ++ drop (at + n) dst))
unfolding memcpy
memcpy-ok dst at src n h k = ground arith

-- Bytes put behind the write index come behind the contents.
pub contents-write :
    (xs src : List ℕ) (r w : ℕ) (rest : List ℕ)
    → r ≤ w
    → w ≤ length xs
    → drop r (take (w + length src) (take w xs ++ (src ++ rest))) ≡ drop r (take w xs) ++ src
contents-write xs src r w rest h k =
    let e : w + length src ≡ length (take w xs ++ src) =
      omega (arith, length-append (take w xs) src, length-take w xs) in
    rw (← append_assoc (take w xs) src rest, e, take-length (take w xs ++ src) rest)
      (drop_append_left r (take w xs) src (omega (arith, length-take w xs)))

pub length-contents : (b : Buffer) → IsBuffer b → length (contents b) ≡ b.write_index - b.read_index
length-contents b v = omega (
  arith,
  length-drop b.read_index (take b.write_index b.bytes),
  length-take b.write_index b.bytes,
  v.block_is,
  v.write_le,
)

-- Moving the read index on drops that much of the contents.
pub advanced :
    (b : Buffer) (n : ℕ)
    → IsBuffer b
    → n ≤ length (contents b)
    → IsBuffer (record b { read_index = b.read_index + n })
      × (contents (record b { read_index = b.read_index + n }) ≡ drop n (contents b))
advanced b n v h =
    let len : length (contents b) ≡ b.write_index - b.read_index = length-contents b v in
    (
      record {
        block_is = v.block_is;
        read_le = omega (arith, len, v.read_le);
        write_le = v.write_le;
        small = v.small;
      },
      sym (drop-drop n b.read_index (take b.write_index b.bytes)),
    )
