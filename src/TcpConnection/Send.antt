-- ===== src/TcpConnection/Send.antt =====
-- tcp_connection_send_data of test_epoll/lib/tcp_connection.c: what is sent and what is kept.
use cpyu_ze.Buffer.Search.{readable_bytes-contents}
use cpyu_ze.Base.{
  take_all, take, ◌∷◌, ◌∙◌, drop_all, int_add-ok, sub_ℕ, [], ℕ, ◌+◌, ◌-◌, ◌≤◌, ◌<◌, ◌≡◌, refl, true,
  false, List, arith, leb, ltb, length, drop, length-drop, pos, ok, halt, bad_cast, int_limit,
}
use cpyu_ze.Buffer.{Allocator, IsRealloc, Buffer, buffer_readable_size}
use cpyu_ze.Buffer.Contents.{contents, IsBuffer, length-contents, advanced}
use cpyu_ze.Buffer.Room.{CanGrow}
use cpyu_ze.Buffer.Append.{buffer_append-contents}
use cpyu_ze.Channel.{
  Channel, tcp_connection, channel_write_event_is_enabled, channel_write_event_enable,
  as_event_loop,
}
use cpyu_ze.TcpConnection.{
  Connection, size_limit, as_size, size_sub, as_int, tcp_connection_send_data,
  tcp_connection_send_buffer, enable_if_not,
}

-- Nothing waits to be written, so that `write` is tried at once.
pub record IsIdle (c : Connection) : Type 0 where
  pub write_off : channel_write_event_is_enabled c.channel ≡ false
  pub empty : buffer_readable_size c.output_buffer ≡ pos 0

size_sub-small : (a b : ℕ) → b ≤ a → a < size_limit → size_sub a b ≡ a - b
size_sub-small a b h k = omega arith

as_size-small : (n : ℕ) → n < int_limit → as_size (pos n) ≡ n
as_size-small n h = omega arith

as_int-ok : (n : ℕ) → n < int_limit → as_int n ≡ ok n
as_int-ok n h = ground arith

-- All was written at once: `write` was called with all of the bytes, the connection is as it was, and the
-- result is the size.
pub send_data_whole :
    (mem : Allocator) (c : Connection) (bytes : List ℕ) (size : ℕ)
    → IsIdle c
    → size < int_limit
    → tcp_connection_send_data mem (pos size) c bytes size ≡ ok (size, take size bytes ∷ [], c)
unfolding tcp_connection_send_data
send_data_whole mem c bytes size idle small =
    let all : size_sub size size ≡ 0 = omega arith in
    rw (idle.write_off, idle.empty, as_size-small size small, all) refl

cast_fails :
    (c : Channel) (p : ℕ)
    → channel_write_event_is_enabled c ≡ false
    → c.callback_data ≡ tcp_connection p
    → enable_if_not c ≡ halt bad_cast
unfolding enable_if_not channel_write_event_enable as_event_loop
cast_fails c p off owner = rw (off, owner) refl

-- Nothing waits and `write` took only a part, with memory for the rest: the rest is copied, and
-- then the write event is asked for through the connection, which is taken for an event loop.
pub send_data_partial :
    (mem : Allocator) (std : IsRealloc mem) (c : Connection) (bytes : List ℕ) (n size p : ℕ)
    → IsIdle c
    → c.channel.callback_data ≡ tcp_connection p
    → IsBuffer c.output_buffer
    → n < size
    → size < int_limit
    → size ≤ length bytes
    → CanGrow mem c.output_buffer (size - n)
    → tcp_connection_send_data mem (pos n) c bytes size ≡ halt bad_cast
unfolding tcp_connection_send_data
send_data_partial mem std c bytes n size p idle owner valid part small room grow =
    let (output, done, appended) =
      buffer_append-contents mem std c.output_buffer (drop n bytes) (size - n) valid
        (omega (arith, length-drop n bytes)) grow in
    let left : ltb 0 (size - n) ≡ true = ground arith in
    let inside : leb n (length bytes) ≡ true = ground arith in
    rw
      (
        idle.write_off,
        idle.empty,
        as_size-small n (omega arith),
        size_sub-small size n (omega arith) (omega arith),
        left,
        inside,
        as_int-ok (size - n) (omega arith),
        done,
        cast_fails c.channel p idle.write_off owner,
      )
      refl

-- Where nothing waits and `write` takes all of it, sending a well-formed buffer calls `write` once, with its
-- contents, and leaves the connection as it was, and the buffer empty and well formed.
pub send_buffer_whole :
    (mem : Allocator) (c : Connection) (b : Buffer)
    → IsIdle c
    → IsBuffer b
    → (b' : Buffer) × (tcp_connection_send_buffer mem (pos (length (contents b))) c b
        ≡ ok (length (contents b), contents b ∷ [], c, b'))
      × IsBuffer b'
      × (contents b' ≡ [])
unfolding tcp_connection_send_buffer buffer_readable_size
send_buffer_whole mem c b idle sound =
    let n : ℕ = length (contents b) in
    let span : n ≡ b.write_index - b.read_index = length-contents b sound in
    let size : sub_ℕ b.write_index b.read_index ≡ pos n = ground (arith, span, sound.read_le) in
    let end : b.read_index + n ≡ b.write_index = omega (arith, span, sound.read_le) in
    let done =
      send_data_whole mem c (contents b) n idle
        (omega (arith, span, sound.write_le, sound.small)) in
    let (sound', left) = advanced b n sound (omega arith) in
    (
      record b { read_index = b.read_index + n },
      rw
          (
            size,
            readable_bytes-contents b sound,
            done,
            take_all n (contents b) (omega arith),
            int_add-ok b.read_index n (omega (arith, end, sound.write_le, sound.small)),
          )
          refl,
      sound',
      left ∙ drop_all n (contents b) (omega arith),
    )
