-- ===== src/Tests/Connections.antt =====
-- Runs of test_epoll/lib/tcp_connection.c and thread_pool.c on small values.
use cpyu_ze.Base.{
  ℕ, ◌≡◌, refl, inl, true, none, some, List, [], ◌∷◌, arith, ◌==◌, if◌then◌else◌, length, pos, ok,
  halt, bad_cast,
}
use cpyu_ze.Buffer.{Buffer, buffer_readable_size}
use cpyu_ze.Buffer.Contents.{IsBuffer}
use cpyu_ze.Buffer.Append.{Appended}
use cpyu_ze.Channel.{channel_write_event_is_enabled}
use cpyu_ze.TcpConnection.{Connection, removes_channel, tcp_connection_send_data, handle_read_event}
use cpyu_ze.TcpConnection.Send.{IsIdle, send_data_partial}
use cpyu_ze.TcpConnection.Receive.{called, handle_read-Appended}
use cpyu_ze.ThreadPool.{ThreadPool}
use cpyu_ze.ThreadPool.RoundRobin.{IsRunning}
use cpyu_ze.Tests.{roomy, roomy-IsRealloc, roomy-NeverFails}
use cpyu_ze.Tests.Polls.{reader_writer}

abbrev pub empty_buffer : Buffer
empty_buffer = record {
  bytes = 0 ∷ 0 ∷ 0 ∷ 0 ∷ [];
  read_index = 0;
  write_index = 0;
  total_size = 4;
}

pub empty_buffer-IsBuffer : IsBuffer empty_buffer
empty_buffer-IsBuffer = record {
  block_is = refl;
  read_le = omega arith;
  write_le = omega arith;
  small = omega arith;
}

-- A connection that waits for data, at the address 40.
abbrev pub quiet : Connection
quiet = record {
  event_loop = 1;
  channel = record reader_writer { events = 2 };
  input_buffer = empty_buffer;
  output_buffer = empty_buffer;
  callbacks = record {
    connection_completed = none;
    connection_closed = some 61;
    message = some 62;
    write_completed = some 63;
  };
}

pub quiet-IsIdle : IsIdle quiet
unfolding buffer_readable_size channel_write_event_is_enabled
quiet-IsIdle = record { write_off = refl; empty = refl }

abbrev pub three : List ℕ
three = 1 ∷ 2 ∷ 3 ∷ []

send_data_partial_example : tcp_connection_send_data roomy (pos 1) quiet three 3 ≡ halt bad_cast
send_data_partial_example =
    send_data_partial roomy roomy-IsRealloc quiet three 1 3 40 quiet-IsIdle refl
      empty_buffer-IsBuffer (omega arith) (omega arith) (omega arith) (inl (omega arith))

handle_read-Appended_example :
    (input : Buffer) × (handle_read_event roomy (some three) quiet
      ≡ ok (
        if length three == 0
            then removes_channel 1 (pos 5) ∷ called (some 61)
            else called (some 62),
        record quiet { input_buffer = input },
      ))
    × Appended empty_buffer three input
handle_read-Appended_example =
    handle_read-Appended roomy roomy-IsRealloc roomy-NeverFails quiet three empty_buffer-IsBuffer
      (omega arith)

-- The loops 10, 20 and 30, of which the second is next.
abbrev pub three_threads : ThreadPool
three_threads = record {
  main_loop = 1;
  started = true;
  thread_number = pos 3;
  event_loop_threads =
      record { event_loop = some 10; thread_tid = 1; thread_count = 0 }
      ∷ record { event_loop = some 20; thread_tid = 2; thread_count = 0 }
      ∷ record { event_loop = some 30; thread_tid = 3; thread_count = 0 }
      ∷ [];
  position = 1;
}

pub three_threads-IsRunning : IsRunning three_threads
three_threads-IsRunning = record { on = refl; counted = refl; inside = omega arith }
