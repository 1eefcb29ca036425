-- ===== src/Buffer/Socket.antt =====
-- buffer_socket_read of test_epoll/lib/buffer.c: what the socket gave is behind the contents.
use cpyu_ze.Base.{
  ℕ, ◌+◌, ◌-◌, ◌≤◌, ◌<◌, ◌≡◌, refl, ap, ◌∙◌, true, false, some, List, ◌++◌, arith, inr, length,
  take, drop, leb, length-drop, length-take, take-append-drop, take_all, append_assoc, ok, Returns,
  Returns-ok, int_limit, int_add-ok, pos, sub_ℕ, le→leb, leb-false,
}
use native.Mathlib.Decide.{dec_le}
use cpyu_ze.Buffer.{Allocator, IsRealloc, Buffer, buffer_socket_read, buffer_writeable_size}
use cpyu_ze.Buffer.Contents.{contents, IsBuffer}
use cpyu_ze.Buffer.Append.{Appended, memcpy-Appended, rewritten, buffer_append-contents}

-- The allocator has every block below the limit.
abbrev pub NeverFails : Allocator → Type 0
NeverFails mem =
    (old : List ℕ) (n : ℕ) → n < int_limit → (new : List ℕ) × (mem.realloc old n ≡ some new)

module _ (mem : Allocator) (std : IsRealloc mem) where
  short_read :
      (b : Buffer) (received : List ℕ)
      → IsBuffer b
      → length received ≤ b.total_size - b.write_index
      → Returns
          (λ r. (r.0 ≡ pos (length received)) × Appended b received r.1)
          (buffer_socket_read mem b (some received))
  unfolding buffer_socket_read buffer_writeable_size
  short_read b received v short =
      let size : sub_ℕ b.total_size b.write_index ≡ pos (b.total_size - b.write_index) =
        ground (arith, v.write_le) in
      let fits : leb (length received) (b.total_size - b.write_index) ≡ true = le→leb _ _ short in
      let (bytes, copied, app) =
        memcpy-Appended b received (length received) (b.write_index + length received) v
          (omega arith) refl (omega (arith, v.write_le)) in
      rw
        (
          size,
          fits,
          copied,
          int_add-ok b.write_index (length received) (omega (arith, v.small, v.write_le)),
        )
        (
          refl,
          record {
            valid = app.valid;
            grown = rw (take_all (length received) received (omega arith)) at app.grown;
            bounded = omega (arith, app.bounded, length-take (length received) received);
          },
        )

  long_read :
      NeverFails mem
      → (b : Buffer) (received : List ℕ) → IsBuffer b
      → b.total_size + length received < int_limit
      → b.total_size - b.write_index < length received
      → Returns
          (λ r. (r.0 ≡ pos (length received)) × Appended b received r.1)
          (buffer_socket_read mem b (some received))
  unfolding buffer_socket_read buffer_writeable_size
  long_read never b received v small long =
      let n : ℕ = b.total_size - b.write_index in
      let size : sub_ℕ b.total_size b.write_index ≡ pos n = ground (arith, v.write_le) in
      let over : leb (length received) n ≡ false = leb-false _ _ long in
      let (bytes, copied, full) =
        memcpy-Appended b received n b.total_size v (omega arith) (omega (arith, v.write_le))
          (omega arith) in
      let extra : List ℕ = drop n received in
      let len : length extra ≡ length received - n = length-drop n received in
      let (b', done, app) =
        buffer_append-contents mem std (rewritten b b.total_size bytes) extra (length extra)
          full.valid (omega arith)
          (inr
            (omega (arith, len), never bytes (b.total_size + length extra) (omega (arith, len)))) in
      rw (size, over, copied, done)
        (
          refl,
          record {
            valid = app.valid;
            grown =
                app.grown
                ∙ ap (λ l. l ++ take (length extra) extra) full.grown
                ∙ append_assoc (contents b) (take n received) (take (length extra) extra)
                ∙ ap (λ l. contents b ++ (take n received ++ l))
                    (take_all (length extra) extra (omega arith))
                ∙ ap (◌++◌ (contents b)) (take-append-drop n received);
            bounded = omega (arith, app.bounded, len, length-take (length extra) extra);
          },
        )

  read_cases :
      NeverFails mem
      → (b : Buffer) (received : List ℕ) → IsBuffer b
      → b.total_size + length received < int_limit
      → Returns
          (λ r. (r.0 ≡ pos (length received)) × Appended b received r.1)
          (buffer_socket_read mem b (some received))
  read_cases never b received v small =
      elim (dec_le (length received) (b.total_size - b.write_index)) [
        | yes short ↦ short_read b received v short
        | no long ↦ long_read never b received v small (omega arith)
      ]

  -- A read of a well-formed buffer that gives bytes returns their number and puts them behind the
  -- contents, also those that did not fit into the free end of the block. This holds where every `realloc`
  -- below 2^31 bytes succeeds, and the size of the block and the bytes together stay below 2^31.
  pub buffer_socket_read-contents :
      NeverFails mem
      → (b : Buffer) (received : List ℕ) → IsBuffer b
      → b.total_size + length received < int_limit
      → (b' : Buffer) × (buffer_socket_read mem b (some received) ≡ ok (pos (length received), b'))
        × Appended b received b'
  buffer_socket_read-contents never b received v small =
      let (r, done, h) = Returns-ok _ (read_cases never b received v small) in
      (r.1, done ∙ ap (λ k. ok (k, r.1)) h.0, h.1)
