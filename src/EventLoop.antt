-- ===== src/EventLoop.antt =====
-- test_epoll/lib/event_loop.h, event_loop.c and utils.c: one thread's loop over its channels.
-- A loop has a map from descriptors to channels, a poller, and a queue of changes that any thread
-- may add to and that the owner applies. The linked list `pending_head … pending_tail` is a list,
-- first element first. The mutex makes the enqueueing and the handling atomic: each is one step
-- here. The pipe of `socketPair` is the number of bytes written and not yet read; the thread's
-- name and the log are left out. Channels are read through the store.
pub mod Handlers
pub mod Pending
pub mod Start
use cpyu_ze.Base.{
  ℕ, zero, suc, ◌+◌, ◌-◌, Bool, true, false, Option, none, some, List, [], ◌∷◌, ◌++◌, leb, ◌==◌,
  if◌then◌else◌, set, ℤ, pos, negsuc, eq_ℤ, Outcome, ok, halt, assertion, exited, read_at, not,
  ◌>>=◌,
}
use cpyu_ze.Channel.{
  Callback, handle_wakeup, CallbackData, event_loop, Channel, Store, stored, channel_new, load,
  has_event, event_read, event_write,
}
use cpyu_ze.ChannelMap.{ChannelMap, map_make_space, map_init}
use cpyu_ze.Dispatcher.{Dispatcher}

-- `struct channel_element`: 1 is add, 2 is remove, 3 is update.
pub record ChannelElement : Type 0 where
  pub type : ℕ
  pub channel : ℕ

pub record EventLoop (D : Type 0) : Type 0 where
  pub quit : Bool
  pub event_dispatcher_data : D
  pub channel_map : ChannelMap
  pub is_handle_pending : Bool
  pub pending : List ChannelElement
  pub owner_thread_id : ℕ
  pub wakeups : ℕ

-- `sizeof(struct channel *)` on a 64-bit machine.
abbrev pub pointer_size : ℕ
pointer_size = 8

-- `isInSameThread`
unfoldable pub is_in_same_thread : {D : Type 0} → ℕ → EventLoop D → Bool
is_in_same_thread self l = l.owner_thread_id == self

-- `assertInSameThread` ends the process in another thread.
unfoldable pub assert_in_same_thread : ℕ → ℕ → Outcome (Unit {0})
assert_in_same_thread self owner = if owner == self then ok tt else halt exited

-- `event_loop_channel_buffer_nolock`
unfoldable pub event_loop_channel_buffer_nolock : {D : Type 0} → EventLoop D → ℕ → ℕ → EventLoop D
event_loop_channel_buffer_nolock l p type = record l {
  pending = l.pending ++ record { type = type; channel = p } ∷ [];
}

-- `event_loop_wakeup`: the flag says whether `write` wrote the byte; a failure is only logged.
unfoldable pub event_loop_wakeup : {D : Type 0} → Bool → EventLoop D → EventLoop D
event_loop_wakeup sent l = if sent then record l { wakeups = l.wakeups + 1 } else l

-- `handleWakeup` reads one byte.
unfoldable pub handle_wakeup_read : {D : Type 0} → EventLoop D → EventLoop D
handle_wakeup_read l = record l { wakeups = l.wakeups - 1 }

module _ {D : Type 0} (ops : Dispatcher D) (can_alloc : ℕ → Bool) (store : Store) where
  -- The second half of `event_loop_handle_pending_add`, behind a call of `map_make_space`.
  add_entry : EventLoop D → ℕ → ℕ → ℤ × ChannelMap → Outcome (ℤ × EventLoop D)
  add_entry l fd p (failed, m) =
      if eq_ℤ failed (negsuc 0) then ok (negsuc 0, record l { channel_map = m }) else (do
        old ← read_at m.entries fd
        elim old [
          | some q ↦ ok (pos 0, record l { channel_map = m })
          | none ↦ (do
            c ← load store (some p)
            added ← ops.add l.event_dispatcher_data c
            ok (
              pos 1,
              record l {
                channel_map = record m { entries = set m.entries fd (some p) };
                event_dispatcher_data = added.1;
              },
            ))
        ])

  -- `event_loop_handle_pending_add`: 1 if the channel was new, 0 if not, -1 without memory.
  unfoldable pub event_loop_handle_pending_add : EventLoop D → ℤ → ℕ → Outcome (ℤ × EventLoop D)
  unfolding add_entry
  event_loop_handle_pending_add l (negsuc n) p = ok (pos 0, l)
  event_loop_handle_pending_add l (pos fd) p = do
    made ←
        (if leb l.channel_map.nentries fd
          then map_make_space can_alloc l.channel_map fd pointer_size
          else ok (pos 0, l.channel_map))
    add_entry l fd p made

  remove_entry : EventLoop D → ℤ → Outcome (ℤ × EventLoop D)
  remove_entry l (negsuc n) = ok (pos 0, l)
  remove_entry l (pos fd) = if leb l.channel_map.nentries fd then ok (negsuc 0, l) else (do
    channel2 ← read_at l.channel_map.entries fd
    c ← load store channel2
    deleted ← ops.del l.event_dispatcher_data c
    ok (
      if eq_ℤ deleted.0 (negsuc 0) then negsuc 0 else pos 1,
      record l {
        channel_map = record (l.channel_map) { entries = set l.channel_map.entries fd none };
        event_dispatcher_data = deleted.1;
      },
    ))

  -- `event_loop_handle_pending_remove`. The poller reads the channel that the map holds, which
  -- the source does not compare with NULL.
  unfoldable pub event_loop_handle_pending_remove : EventLoop D → ℤ → ℕ → Outcome (ℤ × EventLoop D)
  unfolding remove_entry
  event_loop_handle_pending_remove l fd p = do
    channel1 ← load store (some p)
    if eq_ℤ fd channel1.fd then remove_entry l fd else halt assertion

  -- `event_loop_handle_pending_update`. The descriptor is not compared with the size of the map.
  -- Where the source returns nothing the result is `none`.
  unfoldable pub event_loop_handle_pending_update :
      EventLoop D → ℤ → ℕ → Outcome (Option ℤ × EventLoop D)
  event_loop_handle_pending_update l (negsuc n) p = ok (some (pos 0), l)
  event_loop_handle_pending_update l (pos fd) p = do
    old ← read_at l.channel_map.entries fd
    elim old [
      | none ↦ ok (some (negsuc 0), l)
      | some q ↦ (do
        c ← load store (some p)
        changed ← ops.update l.event_dispatcher_data c
        ok (none, record l { event_dispatcher_data = changed.1 }))
    ]

  -- One round of the loop in `event_loop_handle_pending_channel`.
  unfoldable pub handle_element : EventLoop D → ChannelElement → Outcome (EventLoop D)
  handle_element l e = do
    c ← load store (some e.channel)
    if e.type == 1
        then (do r ← event_loop_handle_pending_add l c.fd e.channel; ok r.1)
        else if e.type == 2
        then (do r ← event_loop_handle_pending_remove l c.fd e.channel; ok r.1)
        else if e.type == 3
        then (do r ← event_loop_handle_pending_update l c.fd e.channel; ok r.1)
        else ok l

  unfoldable pub handle_elements : EventLoop D → List ChannelElement → Outcome (EventLoop D)
  handle_elements l [] = ok l
  handle_elements l (e ∷ es) = do l' ← handle_element l e; handle_elements l' es

  unfoldable pub event_loop_handle_pending_channel : EventLoop D → Outcome (EventLoop D)
  event_loop_handle_pending_channel l = do
    l' ← handle_elements (record l { is_handle_pending = true }) l.pending
    ok (record l' { pending = []; is_handle_pending = false })

  -- `event_loop_do_channel_event`, called by the thread `self`.
  unfoldable pub event_loop_do_channel_event :
      ℕ → Bool → EventLoop D → ℕ → ℕ → Outcome (EventLoop D)
  unfolding is_in_same_thread
  event_loop_do_channel_event self sent l p type =
      if l.is_handle_pending
      then halt assertion
      else if not (is_in_same_thread self l)
      then ok (event_loop_wakeup sent (event_loop_channel_buffer_nolock l p type))
      else event_loop_handle_pending_channel (event_loop_channel_buffer_nolock l p type)

  unfoldable pub event_loop_add_channel_event : ℕ → Bool → EventLoop D → ℕ → Outcome (EventLoop D)
  event_loop_add_channel_event self sent l p = event_loop_do_channel_event self sent l p 1

  unfoldable pub event_loop_remove_channel_event :
      ℕ → Bool → EventLoop D → ℕ → Outcome (EventLoop D)
  event_loop_remove_channel_event self sent l p = event_loop_do_channel_event self sent l p 2

  unfoldable pub event_loop_update_channel_event :
      ℕ → Bool → EventLoop D → ℕ → Outcome (EventLoop D)
  event_loop_update_channel_event self sent l p = event_loop_do_channel_event self sent l p 3

-- The channel that `event_loop_init_with_name` makes for the read end of the pipe, for the loop at the
-- address `loop`.
abbrev pub wakeup_channel : ℤ → ℕ → Channel
wakeup_channel fd loop = channel_new fd 2 (some handle_wakeup) none (event_loop loop)

-- `event_loop_init_with_name`, run by the thread `self`, for a loop at the address `loop` whose pipe is read
-- from `fd`. Its new channel is written to memory at `p`.
unfoldable pub event_loop_init_with_name :
    {D : Type 0} → Dispatcher D → (ℕ → Bool) → Store → ℕ → ℕ → ℤ → ℕ → Outcome (Store × EventLoop D)
event_loop_init_with_name ops can_alloc store self loop fd p = do
  data_of ← ops.init
  let channels = stored store p (wakeup_channel fd loop)
  l ←
      event_loop_add_channel_event ops can_alloc channels self false
        (record {
          quit = false;
          event_dispatcher_data = data_of;
          channel_map = map_init;
          is_handle_pending = false;
          pending = [];
          owner_thread_id = self;
          wakeups = 0;
        })
        p
  ok (channels, l)

-- What a callback does is a parameter: it changes the world `W`, in which the loop and the store
-- stand.
module _ {D W : Type 0} (loop_of : W → EventLoop D) (store_of : W → Store)
    (call : Callback → CallbackData → W → Outcome W) where
  call_if_set : Option Callback → CallbackData → W → Outcome W
  call_if_set none callback_data w = ok w
  call_if_set (some f) callback_data w = call f callback_data w

  run_callbacks : Option ℕ → ℕ → W → Outcome W
  run_callbacks p revents w = do
    c ← load (store_of w) p
    w' ←
        (if has_event event_read revents
          then call_if_set c.event_read_callback c.callback_data w
          else ok w)
    c' ← load (store_of w') p
    if has_event event_write revents
        then call_if_set c'.event_write_callback c'.callback_data w'
        else ok w'

  -- `channel_event_activate`; `assert(fd == channel->fd)` stands before the callbacks.
  unfoldable pub channel_event_activate : ℤ → ℕ → W → Outcome (ℤ × W)
  unfolding run_callbacks call_if_set
  channel_event_activate (negsuc n) revents w = ok (pos 0, w)
  channel_event_activate (pos fd) revents w =
      if leb (loop_of w).channel_map.nentries fd then ok (negsuc 0, w) else (do
        p ← read_at (loop_of w).channel_map.entries fd
        c ← load (store_of w) p
        if eq_ℤ (pos fd) c.fd
            then (do w' ← run_callbacks p revents w; ok (pos 0, w'))
            else halt assertion)

  -- The body of the loop in `event_loop_run`, for a number of rounds: nothing in the program sets
  -- `quit`, so the loop itself has no end.
  unfoldable pub run_rounds : ℕ → (W → Outcome W) → (W → Outcome W) → W → Outcome W
  run_rounds zero dispatch handle_pending w = ok w
  run_rounds (suc rounds) dispatch handle_pending w =
      let next = (do
        w' ← dispatch w
        w'' ← handle_pending w'
        run_rounds rounds dispatch handle_pending w'') in
      if (loop_of w).quit then ok w else next

  -- `event_loop_run` in the thread `self`; another thread than the owner ends the process.
  unfoldable pub event_loop_run : ℕ → ℕ → (W → Outcome W) → (W → Outcome W) → W → Outcome W
  event_loop_run self rounds dispatch handle_pending w =
      if (loop_of w).owner_thread_id == self
      then run_rounds rounds dispatch handle_pending w
      else halt exited
