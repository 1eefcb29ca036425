-- ===== src/EventLoop/Start.antt =====
-- event_loop_init_with_name and event_loop_do_channel_event of test_epoll/lib/event_loop.c.
use cpyu_ze.Base.{
  ℕ, ◌+◌, ◌^◌, ◌≤◌, ◌<◌, ◌≡◌, ◌≢◌, refl, ap, ◌∙◌, Bool, true, false, none, some, [], ◌∷◌, ◌++◌,
  arith, ◌==◌, if◌then◌else◌, ℤ, pos, eq_ℤ, Outcome, ok, ◌>>=◌, inl, ==_iff,
}
use cpyu_ze.Channel.{Store, stored, channel_new, handle_wakeup, event_loop}
use cpyu_ze.ChannelMap.{map_init}
use cpyu_ze.Dispatcher.{Dispatcher, Contract}
use cpyu_ze.EventLoop.{
  EventLoop, ChannelElement, event_loop_channel_buffer_nolock, event_loop_wakeup,
  event_loop_do_channel_event, event_loop_add_channel_event, event_loop_init_with_name,
  wakeup_channel,
}
use cpyu_ze.EventLoop.Handlers.{AllFits, LoopInv}
use cpyu_ze.EventLoop.Pending.{
  View, view, apply_at, AllLegal, nil, cons, adds, want_after, want_at, handle_pending-AllLegal,
}

-- What another thread does to a loop by asking for a change: it only puts it at the end of the
-- queue, and sends a byte.
pub record Queued {D : Type 0} (l : EventLoop D) (e : ChannelElement) (sent : Bool)
    (l' : EventLoop D) : Type 0 where
  pub at_end : l'.pending ≡ l.pending ++ e ∷ []
  pub map_same : l'.channel_map ≡ l.channel_map
  pub poller_same : l'.event_dispatcher_data ≡ l.event_dispatcher_data
  pub woken : l'.wakeups ≡ (if sent then l.wakeups + 1 else l.wakeups)
  pub flag_same : l'.is_handle_pending ≡ l.is_handle_pending
  pub owner_same : l'.owner_thread_id ≡ l.owner_thread_id

abbrev with_change : {D : Type 0} → EventLoop D → ℕ → ℕ → ℕ → EventLoop D
with_change l p type wakeups = record l {
  pending = l.pending ++ record { type = type; channel = p } ∷ [];
  wakeups = wakeups;
}

-- A change that another thread asks for, while none is being applied, is put at the end of the
-- queue, and the loop is woken by one byte if that could be written. Map and poller stay as they
-- are.
pub do_channel_event-Queued :
    {D : Type 0} (ops : Dispatcher D) (can_alloc : ℕ → Bool) (store : Store) (self : ℕ)
    (sent : Bool) (l : EventLoop D) (p type : ℕ)
    → l.is_handle_pending ≡ false
    → l.owner_thread_id ≢ self
    → (l' : EventLoop D) × (event_loop_do_channel_event ops can_alloc store self sent l p type
        ≡ ok l')
      × Queued l (record { type = type; channel = p }) sent l'
unfolding event_loop_do_channel_event event_loop_wakeup event_loop_channel_buffer_nolock
do_channel_event-Queued ops can_alloc store self true l p type idle other =
    let elsewhere : (l.owner_thread_id == self) ≡ false = ground arith in
    (
      with_change l p type (l.wakeups + 1),
      rw (idle, elsewhere),
      record {
        at_end = refl;
        map_same = refl;
        poller_same = refl;
        woken = refl;
        flag_same = refl;
        owner_same = refl;
      },
    )
do_channel_event-Queued ops can_alloc store self false l p type idle other =
    let elsewhere : (l.owner_thread_id == self) ≡ false = ground arith in
    (
      with_change l p type l.wakeups,
      rw (idle, elsewhere),
      record {
        at_end = refl;
        map_same = refl;
        poller_same = refl;
        woken = refl;
        flag_same = refl;
        owner_same = refl;
      },
    )

module _ {D : Type 0} {ops : Dispatcher D} (k : Contract ops) (store : Store) (can_alloc : ℕ → Bool)
    (memory : AllFits can_alloc) where
  -- A change that the owner itself asks for, while none is being applied, is put at the end of
  -- the queue and the whole queue is applied at once: map and poller end as the abstract ones do. All
  -- changes of it are legal, with no more additions than free places.
  pub do_channel_event-owner :
      (sent : Bool) (l : EventLoop D) (p type : ℕ) (b : View)
      → l.is_handle_pending ≡ false
      → LoopInv k store l
      → (legal : AllLegal store (view l) (l.pending ++ record { type = type; channel = p } ∷ []) b)
      → adds (l.pending ++ record { type = type; channel = p } ∷ [])
        ≤ k.free l.event_dispatcher_data
      → (l' : EventLoop D) × (event_loop_do_channel_event ops can_alloc store l.owner_thread_id sent
            l p type
          ≡ ok l')
        × LoopInv k store l'
        × (view l' ≡ b)
        × (l'.pending ≡ [])
        × (l'.is_handle_pending ≡ false)
        × (k.registered l'.event_dispatcher_data
            ≡ want_after store
                (l.pending ++ record { type = type; channel = p } ∷ [])
                (view l)
                b
                legal
                (k.registered l.event_dispatcher_data))
  unfolding event_loop_do_channel_event event_loop_channel_buffer_nolock
  do_channel_event-owner sent l p type b idle v legal free =
      let here : (l.owner_thread_id == l.owner_thread_id) ≡ true = (==_iff _ _).1 refl in
      let queued : EventLoop D = record l {
        is_handle_pending = false;
        pending = l.pending ++ record { type = type; channel = p } ∷ [];
      } in
      let r =
        handle_pending-AllLegal k store can_alloc memory queued b legal
          (record {
            map_is = v.map_is;
            poller = v.poller;
            channels = v.channels;
            agrees = v.agrees;
          })
          free in
      (r.0, rw (idle, here) r.1, r.2, r.3, r.4, r.5, r.6)

-- A loop that was just made, before its first channel.
abbrev started : {D : Type 0} → ℕ → D → EventLoop D
started self d = record {
  quit = false;
  event_dispatcher_data = d;
  channel_map = map_init;
  is_handle_pending = false;
  pending = [];
  owner_thread_id = self;
  wakeups = 0;
}

module _ {D : Type 0} {ops : Dispatcher D} (k : Contract ops) where
  started-LoopInv :
      (store : Store) (self : ℕ) (d : D)
      → k.Valid d
      → ((g : ℤ) → k.registered d g ≡ none)
      → LoopInv k store (started self d)
  unfolding map_init
  started-LoopInv store self d valid fresh = record {
    map_is = record { sized = refl };
    poller = valid;
    channels = λ n q e. cc;
    agrees = λ n. rw (fresh (pos n));
  }

  -- Where the poller starts with nothing registered and with room, no allocation fails, and the pipe is read
  -- from a descriptor below 2^27, a new loop has written to memory a channel on that descriptor, which
  -- watches for reading and whose only callback is `handle_wakeup` on the loop itself, and no other memory. It
  -- has that channel in its map and nothing else, its poller is asked to report when the pipe can be read and
  -- nothing else, its queue is empty, and the invariant holds.
  pub init_with_name-LoopInv :
      (can_alloc : ℕ → Bool) (store : Store) (self p fd loop : ℕ) (d : D)
      → AllFits can_alloc
      → ops.init ≡ ok d
      → k.Valid d
      → ((g : ℤ) → k.registered d g ≡ none)
      → 0 < k.free d
      → fd < 2 ^ 27
      → (store' : Store) × (l : EventLoop D) × (event_loop_init_with_name ops can_alloc store self
            loop
            (pos fd)
            p
          ≡ ok (store', l))
        × ((q : ℕ)
            → store' q ≡ (
                if q == p
                then some (record {
                  fd = pos fd;
                  events = 2;
                  event_read_callback = some handle_wakeup;
                  event_write_callback = none;
                  callback_data = event_loop loop;
                })
                else store q))
        × LoopInv k store' l
        × ((i : ℕ) → view l i ≡ (if i == fd then some p else none))
        × ((g : ℤ)
            → k.registered l.event_dispatcher_data g
              ≡ (if eq_ℤ (pos fd) g then some (record { reads = true; writes = false }) else none))
        × (l.pending ≡ [])
        × (l.is_handle_pending ≡ false)
  unfolding event_loop_init_with_name event_loop_add_channel_event map_init adds apply_at want_after
      want_at channel_new
  init_with_name-LoopInv can_alloc store self p fd loop d memory made valid fresh free small =
      let channels : Store = stored store p (wakeup_channel (pos fd) loop) in
      let start : EventLoop D = started self d in
      let e : ChannelElement = record { type = 1; channel = p } in
      let there : channels p ≡ some (wakeup_channel (pos fd) loop) =
        rw ((==_iff p p).1 refl) refl in
      let (l, done, v, seen, empty, down, asked) =
        do_channel_event-owner k channels can_alloc memory false start p 1
          (apply_at (view start) fd e) refl (started-LoopInv channels self d valid fresh)
          (cons fd
            (record {
              channel = wakeup_channel (pos fd) loop;
              there = there;
              at = refl;
              small = small;
              kind = inl refl;
            })
            nil)
          free in
      (
        channels,
        l,
        ap
              (λ (m : Outcome D). m >>= λ d'.
                event_loop_do_channel_event ops can_alloc channels self false (started self d') p 1
                >>= λ l'. ok (channels, l'))
              made
            ∙ ap (λ (m : Outcome (EventLoop D)). m >>= λ l'. ok (channels, l')) done,
        λ q. refl,
        v,
        λ i. ap (λ f. f i) seen,
        λ g.
            ap (λ f. f g) asked
            ∙ ap
                (λ i. if eq_ℤ (pos fd) g then some (record { reads = true; writes = false }) else i)
                (fresh g),
        empty,
        down,
      )
