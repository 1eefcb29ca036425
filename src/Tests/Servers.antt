-- ===== src/Tests/Servers.antt =====
-- Runs of test_epoll/lib/tcp_server.c and acceptor.c on small values.
use cpyu_ze.Base.{
  ℕ, ◌+◌, ◌≡◌, ◌≢◌, refl, true, none, some, List, [], ◌∷◌, ◌++◌, arith, map, take, drop, ◌==◌,
  if◌then◌else◌, pos, ok,
}
use cpyu_ze.Channel.{stored, channel_new, handle_connection_established, tcp_server}
use cpyu_ze.EventLoop.{EventLoop}
use cpyu_ze.EventLoop.Handlers.{LoopInv}
use cpyu_ze.EventLoop.Pending.{view}
use cpyu_ze.Poll.{PollData}
use cpyu_ze.ThreadPool.RoundRobin.{IsRunning, get_loops, made_loops, loops_of}
use cpyu_ze.TcpServer.{
  Acceptor, TcpServer, World, Arrival, Established, tcp_server_init, tcp_server_start,
}
use cpyu_ze.TcpServer.Waits.{AllWait, RunsMain}
use cpyu_ze.TcpServer.Spread.{
  Spread, connection_channel, connections_established, connections_established-rotate,
}
use cpyu_ze.TcpServer.Start.{server_start-LoopInv}
use cpyu_ze.Tests.Connections.{three_threads, three_threads-IsRunning, quiet, empty_buffer}
use cpyu_ze.Tests.Loops.{
  poller, contract, memory, plenty, plenty-AllFits, idle, idle-LoopInv, has_room, no_entry,
}

abbrev acceptor : Acceptor
acceptor = record { listen_port = 80; listen_fd = pos 3 }

-- The main loop of thread 5 at 1, and those of three other threads.
abbrev loops : World PollData
loops = record {
  loops =
      stored
        (stored (stored (stored (λ p. none) 1 (record idle { owner_thread_id = 5 })) 10 idle) 20
          idle)
        30 idle;
  channels = memory;
}

abbrev server : TcpServer
server = record {
  event_loop = 1;
  acceptor = acceptor;
  callbacks = quiet.callbacks;
  thread_num = pos 3;
  thread_pool = three_threads;
  data_of = none;
}

abbrev arrival : ℕ → Arrival
arrival fd = record {
  connected_fd = pos fd;
  connection_at = 100 + fd;
  channel_at = 200 + fd;
  input = empty_buffer;
  output = empty_buffer;
  sent = true;
}

abbrev arrivals : List Arrival
arrivals = arrival 6 ∷ arrival 7 ∷ arrival 8 ∷ []

not_main : (let one : ℕ = 1 in one ≢ 5)
not_main e = omega (arith, e)

all_wait : AllWait 5 loops (loops_of three_threads.event_loop_threads)
unfolding AllWait
all_wait = (
  (10, refl, record { event_loop = idle; there = refl; idle = refl; elsewhere = not_main }),
  (
    (20, refl, record { event_loop = idle; there = refl; idle = refl; elsewhere = not_main }),
    ((30, refl, record { event_loop = idle; there = refl; idle = refl; elsewhere = not_main }), tt),
  ),
)

runs_main : RunsMain 5 three_threads loops
runs_main = record { event_loop = record idle { owner_thread_id = 5 }; there = refl; here = refl }

connections_established-rotate_example :
    (es : List Established) × (w' : World PollData) × (connections_established poller plenty 5
        arrivals server loops
      ≡ ok (es, server, w'))
    × (map (λ (e : Established). some e.connection.event_loop) es
        ≡ loops_of (drop 1 three_threads.event_loop_threads)
          ++ loops_of (take 1 three_threads.event_loop_threads))
    × (map (λ (e : Established). e.connection.channel) es ≡ map connection_channel arrivals)
    × Spread arrivals
        (loops_of (drop 1 three_threads.event_loop_threads)
          ++ loops_of (take 1 three_threads.event_loop_threads))
        loops
        w'
connections_established-rotate_example =
    connections_established-rotate poller plenty 5 arrivals server loops runs_main
      three_threads-IsRunning refl all_wait

-- One thread, whose loop waits.
abbrev one_loop : World PollData
one_loop = record { loops = stored (λ p. none) 1 idle; channels = memory }

server_start-LoopInv_example :
    (s' : TcpServer) × (w' : World PollData) × (l' : EventLoop PollData) × (tcp_server_start poller
        plenty 1
        (λ i. (i, i + 10))
        true
        50
        60
        (tcp_server_init 1 acceptor quiet.callbacks (pos 2))
        one_loop
      ≡ ok (s', w'))
    × IsRunning s'.thread_pool
    × (get_loops 1 1 2 s'.thread_pool ≡ ok (made_loops (λ i. (i, i + 10)) 2 0, s'.thread_pool))
    × (w'.loops 1 ≡ some l')
    × (w'.channels 60
        ≡ some (channel_new (pos 3) 2 (some handle_connection_established) none (tcp_server 50)))
    × LoopInv contract w'.channels l'
    × ((i : ℕ) → view l' i ≡ (if i == 3 then some 60 else view idle i))
server_start-LoopInv_example =
    server_start-LoopInv contract plenty (λ i. (i, i + 10)) true 50 1 60 3 2 acceptor
      quiet.callbacks one_loop idle plenty-AllFits (omega arith) refl (omega arith) refl refl refl
      idle-LoopInv refl (no_entry 3) has_room
