-- ===== src/TcpServer/Spread.antt =====
-- Which event loops the connections of test_epoll/lib/tcp_server.c go to.
use cpyu_ze.Base.{
  ℕ, ◌≡◌, Bool, refl, sym, ap, subst, ◌∙◌, Option, none, some, List, [], ◌∷◌, ◌++◌, length, map,
  take, append_assoc, append-nil, ◌==◌, drop, Outcome, ok, ◌>>=◌,
}
use cpyu_ze.Channel.{stored, Channel, Store, channel_new, handle_read, handle_write, tcp_connection}
use cpyu_ze.Dispatcher.{Dispatcher}
use cpyu_ze.EventLoop.{EventLoop, ChannelElement}
use cpyu_ze.TcpConnection.{tcp_connection_new}
use cpyu_ze.ThreadPool.{ThreadPool, thread_pool_get_loop}
use cpyu_ze.ThreadPool.RoundRobin.{
  IsRunning, get_loops, get_loops_rotate, loops_of, get_loop-main_loop,
}
use cpyu_ze.TcpServer.{
  TcpServer, World, Arrival, Established, connection_established, make_nonblocking,
}
use cpyu_ze.TcpServer.Waits.{
  Waits, AllWait, RunsMain, get_loops_uncons, apart, AllWait-map, AllWait-append, AllWait-drop,
  AllWait-take, addition_if, Added, add_channel-Added,
}

module _ {D : Type 0} (ops : Dispatcher D) (can_alloc : ℕ → Bool) (self : ℕ) where
  -- A number of connections, one after the other.
  unfoldable pub connections_established :
      List Arrival → TcpServer → World D → Outcome (List Established × TcpServer × World D)
  connections_established [] s w = ok ([], s, w)
  connections_established (a ∷ arrivals) s w = do
    (e, s1, w1) ← connection_established ops can_alloc self a s w
    (es, s2, w2) ← connections_established arrivals s1 w1
    ok (e ∷ es, s2, w2)

-- The channel of a connection: it watches for reading, and knows both handlers and its connection.
abbrev pub connection_channel : Arrival → Channel
connection_channel a = record {
  fd = a.connected_fd;
  events = 2;
  event_read_callback = some handle_read;
  event_write_callback = some handle_write;
  callback_data = tcp_connection a.connection_at;
}

-- The channels of some connections, written to memory one after the other.
unfoldable pub channels_of : List Arrival → Store → Store
channels_of [] channels = channels
channels_of (a ∷ arrivals) channels =
    channels_of arrivals (stored channels a.channel_at (connection_channel a))

-- The additions that the loop `i` is asked for, where the arrivals go to these loops, each to its own.
unfoldable pub additions : ℕ → List (Option ℕ) → List Arrival → List ChannelElement
additions i (some loop ∷ loops) (a ∷ arrivals) =
    addition_if (i == loop) a.channel_at ++ additions i loops arrivals
additions i (none ∷ loops) (a ∷ arrivals) = additions i loops arrivals
additions i [] arrivals = []
additions i (o ∷ loops) [] = []

-- What a number of arrivals does to the world: their channels are in memory, and each loop has its additions
-- behind its queue.
pub record Spread {D : Type 0} (arrivals : List Arrival) (loops : List (Option ℕ)) (w w' : World D)
    : Type 0 where
  pub written : w'.channels ≡ channels_of arrivals w.channels
  pub queued :
      (i : ℕ) (l : EventLoop D)
      → w.loops i ≡ some l
      → (l' : EventLoop D) × (w'.loops i ≡ some l')
        × (l'.pending ≡ l.pending ++ additions i loops arrivals)

module _ {D : Type 0} (ops : Dispatcher D) (can_alloc : ℕ → Bool) (self : ℕ) where
  connection_established_one :
      (a : Arrival) (s : TcpServer) (w : World D) (loop : ℕ) (pool : ThreadPool)
      → RunsMain self s.thread_pool w
      → thread_pool_get_loop self self s.thread_pool ≡ ok (some loop, pool)
      → Waits self loop w
      → (e : Established) × (w' : World D) × (connection_established ops can_alloc self a s w
          ≡ ok (e, record s { thread_pool = pool }, w'))
        × (e.connection.event_loop ≡ loop)
        × (e.connection.channel ≡ connection_channel a)
        × ((i : ℕ) → Waits self i w → Waits self i w')
        × RunsMain self pool w'
        × Added ops can_alloc self a.sent loop a.channel_at (connection_channel a) w w'
  unfolding connection_established tcp_connection_new channel_new
  connection_established_one a s w loop pool main got waits =
      let c = tcp_connection_new a.connected_fd loop a.connection_at s.callbacks a.input a.output in
      let (w', added) =
        add_channel-Added ops can_alloc self a.sent loop a.channel_at (c.1).channel w waits in
      let same : pool.main_loop ≡ s.thread_pool.main_loop =
        get_loop-main_loop self s.thread_pool pool (some loop) got in
      (
        record {
          connection = c.1;
          data_of = s.data_of;
          effects = c.0;
          calls = make_nonblocking a.connected_fd;
        },
        w',
        rw (main.there, main.here, got, added.done),
        refl,
        refl,
        added.waits,
        record {
          event_loop = main.event_loop;
          there = rw same (
              added.others s.thread_pool.main_loop (apart self loop s.thread_pool w main waits)
              ∙ main.there);
          here = main.here;
        },
        added,
      )

  -- The connections that some arrivals become, and where they end.
  record Served (arrivals : List Arrival) (s : TcpServer) (w : World D) (loops : List (Option ℕ))
      (pool : ThreadPool) : Type 0 where
    established : List Established
    world : World D
    done :
        connections_established ops can_alloc self arrivals s w
        ≡ ok (established, record s { thread_pool = pool }, world)
    placed : map (λ (e : Established). some e.connection.event_loop) established ≡ loops
    accepted :
        map (λ (e : Established). e.connection.channel) established
        ≡ map connection_channel arrivals
    spread : Spread arrivals loops w world

  Spread-Added :
      (a : Arrival) (arrivals : List Arrival) (loop : ℕ) (loops : List (Option ℕ))
      (w w1 w' : World D)
      → Added ops can_alloc self a.sent loop a.channel_at (connection_channel a) w w1
      → Spread arrivals loops w1 w'
      → Spread (a ∷ arrivals) (some loop ∷ loops) w w'
  unfolding channels_of additions
  Spread-Added a arrivals loop loops w w1 w' added later = record {
    written = later.written ∙ ap (channels_of arrivals) added.written;
    queued = λ i l at.
        (let (l1, at1, grown) = added.queued i l at in
          let (l2, at2, more) = later.queued i l1 at1 in
          (
            l2,
            at2,
            more
                ∙ ap (λ q. q ++ additions i loops arrivals) grown
                ∙ append_assoc l.pending (addition_if (i == loop) a.channel_at)
                    (additions i loops arrivals),
          ));
  }

  connections_established-Served :
      (arrivals : List Arrival) (s : TcpServer) (w : World D) (loops : List (Option ℕ))
      (pool : ThreadPool)
      → RunsMain self s.thread_pool w
      → get_loops self self (length arrivals) s.thread_pool ≡ ok (loops, pool)
      → AllWait self w loops
      → Served arrivals s w loops pool
  unfolding connections_established get_loops AllWait channels_of additions
  connections_established-Served [] s w loops pool main got all =
      let none_given : [] ≡ loops = cc got in
      record {
        established = [];
        world = w;
        done =
            let same : s.thread_pool ≡ pool = cc got in
            ap (λ p. ok ([], record s { thread_pool = p }, w)) same;
        placed = none_given;
        accepted = refl;
        spread =
            subst (λ o. Spread [] o w w) none_given
              (record { written = refl; queued = λ i l at. (l, at, sym (append-nil l.pending)) });
      }
  connections_established-Served (a ∷ arrivals) s w loops pool main got all =
      let (chosen, pool1, later, first, second, is) =
        get_loops_uncons self (length arrivals) s.thread_pool pool loops got in
      let ((loop, named, waits), rest) = subst (AllWait self w) is all in
      let (e, w1, this, at, channel, keeps, main1, added) =
        connection_established_one a s w loop pool1 main (first ∙ ap (λ o. ok (o, pool1)) named)
          waits in
      let more : Served arrivals (record s { thread_pool = pool1 }) w1 later pool =
        connections_established-Served arrivals (record s { thread_pool = pool1 }) w1 later pool
          main1 second (AllWait-map self w w1 later keeps rest) in
      let whole : some loop ∷ later ≡ loops = ap (λ o. o ∷ later) (sym named) ∙ sym is in
      record {
        established = e ∷ more.established;
        world = more.world;
        done = rw (this, more.done);
        placed =
            ap (◌∷◌ (some e.connection.event_loop)) more.placed
            ∙ ap (λ l. some l ∷ later) at
            ∙ whole;
        accepted =
            ap (◌∷◌ e.connection.channel) more.accepted
            ∙ ap (λ c. c ∷ map connection_channel arrivals) channel;
        spread =
            subst (λ o. Spread (a ∷ arrivals) o w more.world) whole
              (Spread-Added a arrivals loop later w w1 more.world added more.spread);
      }

  -- The thread that runs the main loop accepts as many connections as the pool has threads, while each
  -- thread waits in its loop, between two changes. Then each is served, whatever the bytes that wake the loops
  -- come to. They go to the loop of each thread once, from the thread at the position on and then to those
  -- before it. The channel of each, with its descriptor, reading watched and both handlers, is in the
  -- connection and written to memory at the address that it got; every loop has the additions of the channels
  -- of its own connections, and nothing else, behind its queue. The server is as it was.
  pub connections_established-rotate :
      (arrivals : List Arrival) (s : TcpServer) (w : World D)
      → RunsMain self s.thread_pool w
      → IsRunning s.thread_pool
      → length arrivals ≡ length s.thread_pool.event_loop_threads
      → AllWait self w (loops_of s.thread_pool.event_loop_threads)
      → (es : List Established) × (w' : World D) × (connections_established ops can_alloc self
            arrivals s w
          ≡ ok (es, s, w'))
        × (map (λ (e : Established). some e.connection.event_loop) es
            ≡ loops_of (drop s.thread_pool.position s.thread_pool.event_loop_threads)
              ++ loops_of (take s.thread_pool.position s.thread_pool.event_loop_threads))
        × (map (λ (e : Established). e.connection.channel) es ≡ map connection_channel arrivals)
        × Spread arrivals
            (loops_of (drop s.thread_pool.position s.thread_pool.event_loop_threads)
              ++ loops_of (take s.thread_pool.position s.thread_pool.event_loop_threads))
            w
            w'
  connections_established-rotate arrivals s w main running enough all =
      let threads = s.thread_pool.event_loop_threads in
      let i : ℕ = s.thread_pool.position in
      let served : Served arrivals s w (loops_of (drop i threads) ++ loops_of (take i threads))
          s.thread_pool =
        connections_established-Served arrivals s w _ s.thread_pool main
          (ap (λ n. get_loops self self n s.thread_pool) enough
            ∙ get_loops_rotate self s.thread_pool running)
          (AllWait-append self w (loops_of (drop i threads)) (loops_of (take i threads))
            (AllWait-drop self i w threads all) (AllWait-take self i w threads all)) in
      (served.established, served.world, served.done, served.placed, served.accepted, served.spread)
