-- ===== src/Tests/Buffers.antt =====
-- Runs of the buffer of test_epoll/lib/buffer.c and the map of channel_map.c on small values.
use cpyu_ze.Base.{ℕ, ◌≡◌, inr, refl, Option, some, List, [], ◌∷◌, arith, take, pos, ok}
use cpyu_ze.Buffer.{Buffer, buffer_append, buffer_socket_read, buffer_find_crlf, crlf}
use cpyu_ze.Buffer.Contents.{contents, IsBuffer}
use cpyu_ze.Buffer.Room.{CanGrow}
use cpyu_ze.Buffer.Append.{Appended, buffer_append-contents}
use cpyu_ze.Buffer.Socket.{buffer_socket_read-contents}
use cpyu_ze.Buffer.Search.{FirstFrom, buffer_find_crlf_first}
use cpyu_ze.Tests.{roomy, roomy-IsRealloc, roomy-NeverFails}

-- Two of four bytes are in use.
abbrev half_full : Buffer
half_full = record { bytes = 7 ∷ 13 ∷ 10 ∷ 0 ∷ []; read_index = 1; write_index = 3; total_size = 4 }

half_full-IsBuffer : IsBuffer half_full
half_full-IsBuffer = record {
  block_is = refl;
  read_le = omega arith;
  write_le = omega arith;
  small = omega arith;
}

-- More than the two free places.
abbrev three : List ℕ
three = 1 ∷ 2 ∷ 3 ∷ []

three_fit : CanGrow roomy half_full 3
three_fit = inr (omega arith, roomy-NeverFails half_full.bytes 7 (omega arith))

buffer_append-contents_example :
    (b' : Buffer) × (buffer_append roomy half_full (some three) 3 ≡ ok b')
    × Appended half_full (take 3 three) b'
buffer_append-contents_example =
    buffer_append-contents roomy roomy-IsRealloc half_full three 3 half_full-IsBuffer (omega arith)
      three_fit

buffer_socket_read-contents_example :
    (b' : Buffer) × (buffer_socket_read roomy half_full (some three) ≡ ok (pos 3, b'))
    × Appended half_full three b'
buffer_socket_read-contents_example =
    buffer_socket_read-contents roomy roomy-IsRealloc roomy-NeverFails half_full three
      half_full-IsBuffer (omega arith)

buffer_find_crlf_first_example :
    (r : Option ℕ) × (buffer_find_crlf half_full ≡ ok r) × FirstFrom 0 crlf (contents half_full) r
buffer_find_crlf_first_example = buffer_find_crlf_first half_full half_full-IsBuffer
