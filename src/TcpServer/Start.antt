-- ===== src/TcpServer/Start.antt =====
-- tcp_server_start of test_epoll/lib/tcp_server.c: the threads run, and the main loop listens.
use native.Mathlib.Decide.{ℕ_discrete}
use cpyu_ze.Base.{
  ℕ, ◌^◌, ◌<◌, ◌≡◌, refl, ap, ◌∙◌, Bool, false, none, some, [], arith, ◌==◌, if◌then◌else◌, pos, ok,
  inl, ==_iff,
}
use cpyu_ze.Channel.{stored, Channel, Store, channel_new, handle_connection_established, tcp_server}
use cpyu_ze.Dispatcher.{Dispatcher, Contract}
use cpyu_ze.EventLoop.{EventLoop, ChannelElement, event_loop_add_channel_event}
use cpyu_ze.EventLoop.Handlers.{AllFits, LoopInv}
use cpyu_ze.EventLoop.Pending.{View, view, apply_at, nil, cons, adds}
use cpyu_ze.EventLoop.Start.{do_channel_event-owner}
use cpyu_ze.TcpConnection.{Callbacks}
use cpyu_ze.ThreadPool.{ThreadPool, thread_pool_new, thread_pool_start}
use cpyu_ze.ThreadPool.RoundRobin.{IsRunning, get_loops, made_loops, start-get_loops}
use cpyu_ze.TcpServer.{TcpServer, Acceptor, World, add_channel, tcp_server_init, tcp_server_start}

-- An addition at a place that is free.
apply_at-new :
    (a : View) (fd p i : ℕ)
    → a fd ≡ none
    → apply_at a fd (record { type = 1; channel = p }) i ≡ (if i == fd then some p else a i)
unfolding apply_at
apply_at-new a fd p i new = elim (ℕ_discrete i fd) [
  | yes same ↦ (let at : a i ≡ none = ap a same ∙ new in rw (at, (==_iff i fd).1 same))
  | no differ ↦ (let other : (i == fd) ≡ false = ground arith in rw other refl)
]

module _ {D : Type 0} {ops : Dispatcher D} (k : Contract ops) where
  -- A channel written to memory that was free disturbs no loop.
  LoopInv-stored :
      (channels : Store) (p : ℕ) (c : Channel) (l : EventLoop D)
      → channels p ≡ none
      → LoopInv k channels l
      → LoopInv k (stored channels p c) l
  LoopInv-stored channels p c l free v = record {
    map_is = v.map_is;
    poller = v.poller;
    agrees = v.agrees;
    channels = λ n q e.
        (let (old, there, at) = v.channels n q e in
          (
            old,
            (let other : (q == p) ≡ false = ground (arith, free, there) in rw other there),
            at,
          ));
  }

  -- The channel of a descriptor that is not in use yet, added to a loop by its owner.
  listens-LoopInv :
      (can_alloc : ℕ → Bool) (sent : Bool) (loop p fd : ℕ) (c : Channel) (w : World D)
      (l : EventLoop D)
      → AllFits can_alloc
      → w.loops loop ≡ some l
      → l.is_handle_pending ≡ false
      → l.pending ≡ []
      → LoopInv k w.channels l
      → w.channels p ≡ none
      → c.fd ≡ pos fd
      → fd < 2 ^ 27
      → view l fd ≡ none
      → 0 < k.free l.event_dispatcher_data
      → (w' : World D) × (l' : EventLoop D) × (add_channel ops can_alloc l.owner_thread_id sent loop
            p c w
          ≡ ok w')
        × (w'.loops loop ≡ some l')
        × (w'.channels p ≡ some c)
        × LoopInv k w'.channels l'
        × ((i : ℕ) → view l' i ≡ (if i == fd then some p else view l i))
  unfolding add_channel event_loop_add_channel_event adds apply_at
  listens-LoopInv can_alloc sent loop p fd c w l memory there idle empty v fresh at small new free =
      let channels : Store = stored w.channels p c in
      let e : ChannelElement = record { type = 1; channel = p } in
      let here : channels p ≡ some c = rw ((==_iff p p).1 refl) refl in
      let (l', done, v', seen, queue_empty, flag_down, asked) =
        do_channel_event-owner k channels can_alloc memory sent l p 1 (apply_at (view l) fd e) idle
          (LoopInv-stored w.channels p c l fresh v)
          (rw empty (
            cons fd (record { channel = c; there = here; at = at; small = small; kind = inl refl })
              nil))
          (rw empty free) in
      (
        record { loops = stored w.loops loop l'; channels = channels },
        l',
        rw (there, done),
        rw ((==_iff loop loop).1 refl) refl,
        here,
        v',
        λ i. ap (λ f. f i) seen ∙ apply_at-new (view l) fd p i new,
      )

  starts :
      (can_alloc : ℕ → Bool) (made : ℕ → ℕ × ℕ) (sent : Bool) (at p : ℕ) (s : TcpServer)
      (pool : ThreadPool) (w w' : World D) (l : EventLoop D)
      → w.loops s.thread_pool.main_loop ≡ some l
      → thread_pool_start made l.owner_thread_id l.owner_thread_id s.thread_pool ≡ ok pool
      → add_channel ops can_alloc l.owner_thread_id sent s.event_loop p
          (channel_new s.acceptor.listen_fd 2
            (some handle_connection_established)
            none
            (tcp_server at))
          w
        ≡ ok w'
      → tcp_server_start ops can_alloc l.owner_thread_id made sent at p s w
        ≡ ok (record s { thread_pool = pool }, w')
  unfolding tcp_server_start
  starts can_alloc made sent at p s pool w w' l there started added = rw (there, started, added)

  -- A server with at least one thread, which is new and starts in the thread of its main loop, while
  -- that loop waits with an empty queue, has memory and has a free place in its poller. Its listening
  -- descriptor is below 2^27 and not in use. Then the threads run, and their loops are handed out once
  -- each, in order; the main loop watches what it did and the listening descriptor, whose channel calls
  -- `handle_connection_established` on the server, and its invariant holds as it did before.
  pub server_start-LoopInv :
      (can_alloc : ℕ → Bool) (made : ℕ → ℕ × ℕ) (sent : Bool) (at main_loop p fd n : ℕ)
      (acceptor : Acceptor) (callbacks : Callbacks) (w : World D) (l : EventLoop D)
      → AllFits can_alloc
      → 0 < n
      → acceptor.listen_fd ≡ pos fd
      → fd < 2 ^ 27
      → w.loops main_loop ≡ some l
      → l.is_handle_pending ≡ false
      → l.pending ≡ []
      → LoopInv k w.channels l
      → w.channels p ≡ none
      → view l fd ≡ none
      → 0 < k.free l.event_dispatcher_data
      → (s' : TcpServer) × (w' : World D) × (l' : EventLoop D) × (tcp_server_start ops can_alloc
            l.owner_thread_id made sent at p
            (tcp_server_init main_loop acceptor callbacks (pos n))
            w
          ≡ ok (s', w'))
        × IsRunning s'.thread_pool
        × (get_loops l.owner_thread_id l.owner_thread_id n s'.thread_pool
            ≡ ok (made_loops made n 0, s'.thread_pool))
        × (w'.loops main_loop ≡ some l')
        × (w'.channels p
            ≡ some
                (channel_new (pos fd) 2 (some handle_connection_established) none (tcp_server at)))
        × LoopInv k w'.channels l'
        × ((i : ℕ) → view l' i ≡ (if i == fd then some p else view l i))
  unfolding tcp_server_init channel_new thread_pool_new
  server_start-LoopInv can_alloc made sent at main_loop p fd n acceptor callbacks w l memory
        some_threads listens small there idle empty v fresh new free =
      let (pool, started, runs, round) =
        start-get_loops made l.owner_thread_id main_loop n some_threads in
      let c : Channel =
        channel_new (pos fd) 2 (some handle_connection_established) none (tcp_server at) in
      let (w', l', added, there', stored', v', seen) =
        listens-LoopInv can_alloc sent main_loop p fd c w l memory there idle empty v fresh refl
          small new free in
      (
        record (tcp_server_init main_loop acceptor callbacks (pos n)) { thread_pool = pool },
        w',
        l',
        starts can_alloc made sent at p (tcp_server_init main_loop acceptor callbacks (pos n)) pool
            w w' l there started
            (ap
                (λ f.
                  add_channel ops can_alloc l.owner_thread_id sent main_loop p
                    (channel_new f 2 (some handle_connection_established) none (tcp_server at)) w)
                listens
              ∙ added),
        runs,
        round,
        there',
        stored',
        v',
        seen,
      )
