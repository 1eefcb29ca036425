-- ===== src/TcpConnection/Receive.antt =====
-- handle_read of test_epoll/lib/tcp_connection.c.
use cpyu_ze.Base.{
  ℕ, ◌+◌, ◌<◌, ◌≡◌, refl, Option, none, some, List, [], ◌∷◌, ◌==◌, if◌then◌else◌, length, ok,
  int_limit,
}
use cpyu_ze.Buffer.{Allocator, IsRealloc, Buffer}
use cpyu_ze.Buffer.Contents.{IsBuffer}
use cpyu_ze.Buffer.Append.{Appended}
use cpyu_ze.Buffer.Socket.{NeverFails, buffer_socket_read-contents}
use cpyu_ze.TcpConnection.{
  Connection, Effect, calls, removes_channel, callback_if_set, handle_connection_closed,
  handle_read_event,
}

-- A callback of the application is called once, if it is set.
abbrev pub called : Option ℕ → List Effect
called none = []
called (some f) = calls f ∷ []

callback_if_set-called : (callback : Option ℕ) → callback_if_set callback ≡ called callback
unfolding callback_if_set
callback_if_set-called none = refl
callback_if_set-called (some f) = refl

-- Where no allocation fails and the size of the buffer and the bytes together stay below 2^31, the bytes that
-- the socket had come behind those in the well-formed input buffer. With any of them nothing is done but to
-- call the message callback, if it is set. With none, the end of the stream, the channel is removed from
-- its loop, and then the callback for closed connections is called, if it is set.
pub handle_read-Appended :
    (mem : Allocator) (std : IsRealloc mem)
    → NeverFails mem
    → (c : Connection) (received : List ℕ) → IsBuffer c.input_buffer
    → c.input_buffer.total_size + length received < int_limit
    → (input : Buffer) × (handle_read_event mem (some received) c
        ≡ ok (
          if length received == 0
              then removes_channel c.event_loop c.channel.fd ∷ called c.callbacks.connection_closed
              else called c.callbacks.message,
          record c { input_buffer = input },
        ))
      × Appended c.input_buffer received input
unfolding handle_read_event handle_connection_closed
handle_read-Appended mem std never c received valid fits =
    let (input, done, appended) =
      buffer_socket_read-contents mem std never c.input_buffer received valid fits in
    (
      input,
      rw
          (
            done,
            callback_if_set-called c.callbacks.message,
            callback_if_set-called c.callbacks.connection_closed,
          )
          refl,
      appended,
    )
