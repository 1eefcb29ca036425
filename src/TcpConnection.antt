-- ===== src/TcpConnection.antt =====
-- test_epoll/lib/tcp_connection.h and tcp_connection.c: one connection of a server.
-- `Connection` holds the two buffers and the channel of a `struct tcp_connection`; its loop is an
-- address, and the callbacks of the application are numbers that name them (`none` is NULL). What
-- `write` returned is an argument. The log, the name and the pointers `data`, `request` and
-- `response`, which only the HTTP server uses, are left out.
pub mod Send
pub mod Receive
use cpyu_ze.Base.{
  ℕ, ◌+◌, ◌-◌, ◌%◌, ◌^◌, ◌&&◌, ◌||◌, not, Option, none, some, List, [], ◌∷◌, leb, ltb,
  if◌then◌else◌, length, take, drop, ℤ, pos, negsuc, eq_ℤ, is_negative, Outcome, ok, halt,
  out_of_bounds, int_add, to_index, int_limit, overflow, ◌>>=◌, ◌>>◌,
}
use cpyu_ze.Buffer.{
  Allocator, Buffer, buffer_append, buffer_readable_size, buffer_socket_read, readable_bytes,
}
use cpyu_ze.Channel.{
  Channel, channel_new, tcp_connection, handle_read, handle_write, channel_write_event_is_enabled,
  channel_write_event_enable, channel_write_event_disable,
}
use cpyu_ze.EventLoop.{assert_in_same_thread}

pub record Callbacks : Type 0 where
  pub connection_completed : Option ℕ
  pub connection_closed : Option ℕ
  pub message : Option ℕ
  pub write_completed : Option ℕ

pub record Connection : Type 0 where
  pub event_loop : ℕ
  pub channel : Channel
  pub input_buffer : Buffer
  pub output_buffer : Buffer
  pub callbacks : Callbacks

-- `size_t` of a 64-bit machine.
abbrev pub size_limit : ℕ
size_limit = 2 ^ 64

-- A `ssize_t` stored in a `size_t`.
abbrev pub as_size : ℤ → ℕ
as_size (pos n) = n % size_limit
as_size (negsuc n) = (size_limit - 1 - n) % size_limit

-- `nleft - nwrited`, in `size_t`.
abbrev pub size_sub : ℕ → ℕ → ℕ
size_sub a b = (a + size_limit - b) % size_limit

-- A `size_t` passed on as an `int`.
abbrev pub as_int : ℕ → Outcome ℕ
as_int n = if ltb n int_limit then ok n else halt overflow

-- `data + n`, inside the block of `data`.
abbrev pub advance_pointer : List ℕ → ℕ → Outcome (List ℕ)
advance_pointer bytes n = if leb n (length bytes) then ok (drop n bytes) else halt out_of_bounds

-- `if (!channel_write_event_is_enabled(channel)) channel_write_event_enable(channel)`
unfoldable pub enable_if_not : Channel → Outcome Channel
enable_if_not c =
    let enabled = (do r ← channel_write_event_enable c; ok r.1) in
    if channel_write_event_is_enabled c then ok c else enabled

-- The part of `tcp_connection_send_data` behind the call of `write`: what is left is copied.
keep_rest : Allocator → Connection → List ℕ → ℕ → ℕ → Outcome (ℕ × Connection)
keep_rest mem c bytes nwrited nleft =
    let kept = (do
      rest ← advance_pointer bytes nwrited
      size ← as_int nleft
      output ← buffer_append mem c.output_buffer (some rest) size
      channel ← enable_if_not c.channel
      ok (nwrited, record c { output_buffer = output; channel = channel })) in
    if ltb 0 nleft then kept else ok (nwrited, c)

-- `tcp_connection_send_data`. The result of `write` is stored in a `size_t`, so that its test for
-- a failure is always passed, and `fault` stays 0. The result is that `size_t`, the data of each call of
-- `write`, and the connection.
unfoldable pub tcp_connection_send_data :
    Allocator → ℤ → Connection → List ℕ → ℕ → Outcome (ℕ × List (List ℕ) × Connection)
unfolding keep_rest
tcp_connection_send_data mem written c bytes size =
    let nwrited = as_size written in
    if not (channel_write_event_is_enabled c.channel)
      && eq_ℤ (buffer_readable_size c.output_buffer) (pos 0)
    then (do
      (result, c1) ← keep_rest mem c bytes nwrited (size_sub size nwrited)
      ok (result, take size bytes ∷ [], c1))
    else (do (result, c1) ← keep_rest mem c bytes 0 size; ok (result, [], c1))

-- `tcp_connection_send_buffer`: the result, the data of each call of `write`, the connection, and the buffer
-- that was sent.
unfoldable pub tcp_connection_send_buffer :
    Allocator → ℤ → Connection → Buffer → Outcome (ℕ × List (List ℕ) × Connection × Buffer)
tcp_connection_send_buffer mem written c b = do
  size ← to_index (buffer_readable_size b)
  bytes ← readable_bytes b
  sent ← tcp_connection_send_data mem written c bytes size
  read_index ← int_add b.read_index size
  ok (sent.0, sent.1, sent.2, record b { read_index = read_index })

-- What a handler does outside its connection: an application callback, or the removal of the
-- channel from the loop with `event_loop_remove_channel_event`.
pub data Effect : Type 0 where
  calls : ℕ → Effect
  removes_channel : ℕ → ℤ → Effect

unfoldable pub callback_if_set : Option ℕ → List Effect
callback_if_set none = []
callback_if_set (some f) = calls f ∷ []

-- `handle_connection_closed`
unfoldable pub handle_connection_closed : Connection → List Effect
handle_connection_closed c =
    removes_channel c.event_loop c.channel.fd ∷ callback_if_set c.callbacks.connection_closed

-- `handle_read`, on what `readv` returned.
unfoldable pub handle_read_event :
    Allocator → Option (List ℕ) → Connection → Outcome (List Effect × Connection)
handle_read_event mem received c = do
  (result, input) ← buffer_socket_read mem c.input_buffer received
  let c1 = record c { input_buffer = input }
  ok (
    if is_negative result || eq_ℤ result (pos 0)
        then handle_connection_closed c1
        else callback_if_set c.callbacks.message,
    c1,
  )

-- The channel with its write event off, once nothing is left to write.
disable_if_empty : Connection → Outcome Connection
disable_if_empty c =
    let disabled = (do
      r ← channel_write_event_disable c.channel
      ok (record c { channel = r.1 })) in
    if eq_ℤ (buffer_readable_size c.output_buffer) (pos 0) then disabled else ok c

-- `handle_write` in the thread `self`, for a loop of the thread `owner`.
unfoldable pub handle_write_event : ℕ → ℕ → ℤ → Connection → Outcome (List Effect × Connection)
unfolding disable_if_empty
handle_write_event self owner written c = do
  assert_in_same_thread self owner
  if is_negative written || eq_ℤ written (pos 0) then ok ([], c) else (do
    nwrited ← to_index written
    read_index ← int_add c.output_buffer.read_index nwrited
    c1 ←
        disable_if_empty
          (record c { output_buffer = record (c.output_buffer) { read_index = read_index } })
    ok (callback_if_set c.callbacks.write_completed, c1))

-- `tcp_connection_new` up to the callback for a new connection, for one that stands at the address
-- `self`; then its channel is added to the loop with `event_loop_add_channel_event`.
unfoldable pub tcp_connection_new :
    ℤ → ℕ → ℕ → Callbacks → Buffer → Buffer → List Effect × Connection
tcp_connection_new connected_fd event_loop self callbacks input output = (
  callback_if_set callbacks.connection_completed,
  record {
    event_loop = event_loop;
    channel =
        channel_new connected_fd 2 (some handle_read) (some handle_write) (tcp_connection self);
    input_buffer = input;
    output_buffer = output;
    callbacks = callbacks;
  },
)
