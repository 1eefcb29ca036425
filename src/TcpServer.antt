-- ===== src/TcpServer.antt =====
-- test_epoll/lib/acceptor.h, acceptor.c, tcp_server.h, tcp_server.c and the end of http_server.c: the
-- socket that a server listens on, and what becomes of a connection that comes in.
-- What the calls of the socket interface return is an argument (`Answers`), and those that change a
-- socket or the process are listed in the order they are made (`SocketCall`). A loop is its address in
-- the world, in which the channels stand too. The log, `port` of the server, which nothing sets, and the
-- address of the peer, which nothing reads, are left out.
pub mod Waits
pub mod Spread
pub mod Start
use cpyu_ze.Base.{
  ℕ, ◌%◌, ◌^◌, Bool, Option, none, some, List, [], ◌∷◌, ◌++◌, if◌then◌else◌, ℤ, is_negative,
  Outcome, ok, halt, exited, null_pointer, or_halt, ◌>>=◌, ◌>>◌,
}
use cpyu_ze.Buffer.{Buffer}
use cpyu_ze.Channel.{Channel, Store, stored, channel_new, handle_connection_established, tcp_server}
use cpyu_ze.Dispatcher.{Dispatcher}
use cpyu_ze.EventLoop.{EventLoop, event_loop_add_channel_event}
use cpyu_ze.TcpConnection.{Callbacks, Connection, Effect, tcp_connection_new}
use cpyu_ze.ThreadPool.{ThreadPool, thread_pool_new, thread_pool_start, thread_pool_get_loop}

-- `LISTENQ` and `SERV_PORT` of common.h.
abbrev pub listen_queue : ℕ
listen_queue = 1024

abbrev pub serv_port : ℕ
serv_port = 43211

-- What `socket`, `bind`, `listen` and `accept` return.
pub record Answers : Type 0 where
  pub socket_fd : ℤ
  pub bind_result : ℤ
  pub listen_result : ℤ
  pub accept_fd : ℤ

-- A port is a `uint16_t`, in the order of the network once `htons` has turned it.
pub data SocketCall : Type 0 where
  sets_nonblocking : ℤ → SocketCall
  sets_reuseaddr : ℤ → SocketCall
  binds_any : ℤ → ℕ → SocketCall
  listens : ℤ → ℕ → SocketCall
  ignores_sigpipe : SocketCall

-- `make_nonblocking`
abbrev pub make_nonblocking : ℤ → List SocketCall
make_nonblocking fd = sets_nonblocking fd ∷ []

-- `if (rt < 0) error(1, errno, …)`
abbrev pub exit_if_negative : ℤ → Outcome (Unit {0})
exit_if_negative result = if is_negative result then halt exited else ok tt

-- `tcp_server_listen`, for a `port` that is not negative: the descriptor and the calls.
unfoldable pub tcp_server_listen : Answers → ℕ → Outcome (ℤ × List SocketCall)
tcp_server_listen os port = do
  exit_if_negative os.bind_result
  exit_if_negative os.listen_result
  ok (
    os.socket_fd,
    sets_reuseaddr os.socket_fd
        ∷ binds_any os.socket_fd (port % 2 ^ 16)
        ∷ listens os.socket_fd listen_queue
        ∷ ignores_sigpipe
        ∷ [],
  )

-- `tcp_nonblocking_server_listen`
unfoldable pub tcp_nonblocking_server_listen : Answers → ℕ → Outcome (ℤ × List SocketCall)
tcp_nonblocking_server_listen os port = do
  let before = make_nonblocking os.socket_fd
  exit_if_negative os.bind_result
  exit_if_negative os.listen_result
  ok (
    os.socket_fd,
    before
        ++ sets_reuseaddr os.socket_fd
          ∷ binds_any os.socket_fd (port % 2 ^ 16)
          ∷ listens os.socket_fd listen_queue
          ∷ ignores_sigpipe
          ∷ [],
  )

-- `tcp_server` of tcp_server.c: it waits for one connection.
unfoldable pub tcp_server_accept_one : Answers → ℕ → Outcome (ℤ × List SocketCall)
tcp_server_accept_one os port = do
  exit_if_negative os.bind_result
  exit_if_negative os.listen_result
  exit_if_negative os.accept_fd
  ok (
    os.accept_fd,
    sets_reuseaddr os.socket_fd
        ∷ binds_any os.socket_fd (port % 2 ^ 16)
        ∷ listens os.socket_fd listen_queue
        ∷ ignores_sigpipe
        ∷ [],
  )

pub record Acceptor : Type 0 where
  pub listen_port : ℕ
  pub listen_fd : ℤ

-- `acceptor_init`, in which the call that ignores SIGPIPE is a comment.
unfoldable pub acceptor_init : Answers → ℕ → Outcome (Acceptor × List SocketCall)
acceptor_init os port = do
  let before = make_nonblocking os.socket_fd
  exit_if_negative os.bind_result
  exit_if_negative os.listen_result
  ok (
    record { listen_port = port; listen_fd = os.socket_fd },
    before
        ++ sets_reuseaddr os.socket_fd
          ∷ binds_any os.socket_fd (port % 2 ^ 16)
          ∷ listens os.socket_fd listen_queue
          ∷ [],
  )

-- `struct TCPserver`; `data` is the address of an HTTP server, and `none` is NULL.
pub record TcpServer : Type 0 where
  pub event_loop : ℕ
  pub acceptor : Acceptor
  pub callbacks : Callbacks
  pub thread_num : ℤ
  pub thread_pool : ThreadPool
  pub data_of : Option ℕ

unfoldable pub tcp_server_init : ℕ → Acceptor → Callbacks → ℤ → TcpServer
tcp_server_init event_loop acceptor callbacks thread_num = record {
  event_loop = event_loop;
  acceptor = acceptor;
  callbacks = callbacks;
  thread_num = thread_num;
  thread_pool = thread_pool_new event_loop thread_num;
  data_of = none;
}

unfoldable pub tcp_server_set_data : Option ℕ → TcpServer → TcpServer
tcp_server_set_data none s = s
tcp_server_set_data (some p) s = record s { data_of = some p }

-- The event loops of the process and the channels, by address.
pub record World (D : Type 0) : Type 0 where
  pub loops : ℕ → Option (EventLoop D)
  pub channels : Store

-- What `accept` returned, the addresses of the new connection and of its channel, its two buffers, and
-- whether the byte that wakes the loop could be written.
pub record Arrival : Type 0 where
  pub connected_fd : ℤ
  pub connection_at : ℕ
  pub channel_at : ℕ
  pub input : Buffer
  pub output : Buffer
  pub sent : Bool

-- A new connection, with its `data`, and what was done for it outside of its loop.
pub record Established : Type 0 where
  pub connection : Connection
  pub data_of : Option ℕ
  pub effects : List Effect
  pub calls : List SocketCall

module _ {D : Type 0} (ops : Dispatcher D) (can_alloc : ℕ → Bool) (self : ℕ) where
  -- `event_loop_add_channel_event` by the thread `self`, on the loop at an address, for a channel that
  -- is written to memory first.
  unfoldable pub add_channel : Bool → ℕ → ℕ → Channel → World D → Outcome (World D)
  add_channel sent loop p c w = do
    let channels = stored w.channels p c
    l ← or_halt null_pointer (w.loops loop)
    l' ← event_loop_add_channel_event ops can_alloc channels self sent l p
    ok (record { loops = stored w.loops loop l'; channels = channels })

  -- `handle_connection_established`. The result of `accept` is not tested.
  unfoldable pub connection_established :
      Arrival → TcpServer → World D → Outcome (Established × TcpServer × World D)
  connection_established a s w = do
    main ← or_halt null_pointer (w.loops s.thread_pool.main_loop)
    (chosen, pool) ← thread_pool_get_loop self main.owner_thread_id s.thread_pool
    loop ← or_halt null_pointer chosen
    let (effects, c) =
        tcp_connection_new a.connected_fd loop a.connection_at s.callbacks a.input a.output
    w' ← add_channel a.sent loop a.channel_at c.channel w
    ok (
      record {
        connection = c;
        data_of = s.data_of;
        effects = effects;
        calls = make_nonblocking a.connected_fd;
      },
      record s { thread_pool = pool },
      w',
    )

  -- `tcp_server_start`, for a server at the address `at` whose channel gets the address `p`; `made`
  -- says what each new thread makes. The loops of those threads are in the world already.
  unfoldable pub tcp_server_start :
      (ℕ → ℕ × ℕ) → Bool → ℕ → ℕ → TcpServer → World D → Outcome (TcpServer × World D)
  tcp_server_start made sent at p s w = do
    main ← or_halt null_pointer (w.loops s.thread_pool.main_loop)
    pool ← thread_pool_start made self main.owner_thread_id s.thread_pool
    let c =
        channel_new s.acceptor.listen_fd 2 (some handle_connection_established) none (tcp_server at)
    w' ← add_channel sent s.event_loop p c w
    ok (record s { thread_pool = pool }, w')

-- `http_server_new` for a server at the address `self`; its argument `port` is not used. The callbacks
-- are the four of http_server.c.
unfoldable pub http_server_new :
    Answers → ℕ → ℕ → Callbacks → ℤ → Outcome (TcpServer × List SocketCall)
http_server_new os event_loop self callbacks thread_num = do
  (acceptor, calls) ← acceptor_init os serv_port
  ok (
    record (tcp_server_init event_loop acceptor callbacks thread_num) { data_of = some self },
    calls,
  )
