-- ===== src/Epoll.antt =====
-- test_epoll/lib/epoll_dispatcher.c: the poller over epoll(7).
-- The kernel's interest list is a type `K` with the calls of `epoll_create1` and `epoll_ctl` on it,
-- each `none` where the call returns -1. What `epoll_wait` reports is an argument.
pub mod Keeps
pub mod Dispatch
use cpyu_ze.Base.{
  ℕ, zero, suc, ◌+◌, ◌/◌, ◌%◌, ◌^◌, Bool, true, false, ◌||◌, Option, none, some, List, ◌==◌,
  if◌then◌else◌, ℤ, pos, negsuc, Outcome, ok, halt, exited, or_halt, read_at, ◌>>=◌,
}
use cpyu_ze.Channel.{Channel, has_event, event_read, event_write}
use cpyu_ze.Dispatcher.{Dispatcher}
use Prim.Native.Nat.{bit_or}

pub record Kernel (K : Type 0) : Type 0 where
  pub epoll_create : Option K
  pub epoll_ctl_add : K → ℤ → ℕ → Option K
  pub epoll_ctl_del : K → ℤ → ℕ → Option K
  pub epoll_ctl_mod : K → ℤ → ℕ → Option K

-- `epoll_dispatcher_data`; its array of events is filled anew by each `epoll_wait`, and so is an
-- argument of `epoll_dispatch`.
pub record EpollData (K : Type 0) : Type 0 where
  pub event_count : ℕ
  pub nfds : ℕ
  pub realloc_copy : ℕ
  pub efd : K

-- `EPOLLIN` and `EPOLLOUT`; `EPOLLERR` and `EPOLLHUP` are 1 << 3 and 1 << 4.
abbrev pub epoll_in : ℕ
epoll_in = 1

abbrev pub epoll_out : ℕ
epoll_out = 4

-- What the two `if`s make of a channel's events.
pub epoll_events : Channel → ℕ
epoll_events c =
    let events : ℕ = (if has_event event_read c.events then bit_or 0 epoll_in else 0) in
    if has_event event_write c.events then bit_or events epoll_out else events

-- A result of `epoll_ctl`: `error(1, …)` ends the process.
abbrev pub controlled : {K : Type 0} → EpollData K → Option K → Outcome (ℤ × EpollData K)
controlled d none = halt exited
controlled d (some k) = ok (pos 0, record d { efd = k })

module _ {K : Type 0} (kernel : Kernel K) where
  unfoldable pub epoll_init : Outcome (EpollData K)
  epoll_init = do
    k ← or_halt exited kernel.epoll_create
    ok (record { event_count = 0; nfds = 0; realloc_copy = 0; efd = k })

  unfoldable pub epoll_add : EpollData K → Channel → Outcome (ℤ × EpollData K)
  epoll_add d c = controlled d (kernel.epoll_ctl_add d.efd c.fd (epoll_events c))

  unfoldable pub epoll_del : EpollData K → Channel → Outcome (ℤ × EpollData K)
  epoll_del d c = controlled d (kernel.epoll_ctl_del d.efd c.fd (epoll_events c))

  unfoldable pub epoll_update : EpollData K → Channel → Outcome (ℤ × EpollData K)
  epoll_update d c = controlled d (kernel.epoll_ctl_mod d.efd c.fd (epoll_events c))

  -- `epoll_dispatcher`
  unfoldable pub epoll_dispatcher : Dispatcher (EpollData K)
  epoll_dispatcher = record {
    init = epoll_init;
    add = epoll_add;
    del = epoll_del;
    update = epoll_update;
  }

-- `struct epoll_event`
pub record EpollEvent : Type 0 where
  pub fd : ℤ
  pub events : ℕ

-- `EPOLLERR` or `EPOLLHUP` is set.
abbrev pub is_broken : EpollEvent → Bool
is_broken e = ((e.events / 2 ^ 3) % 2 == 1) || ((e.events / 2 ^ 4) % 2 == 1)

-- `channel_event_activate`'s masks `EVENT_READ` and `EVENT_WRITE`.
abbrev pub read_mask : ℕ
read_mask = 2

abbrev pub write_mask : ℕ
write_mask = 4

module _ {W : Type 0} (close : ℤ → W → W) (activate : ℤ → ℕ → W → Outcome (ℤ × W)) where
  activate_if : Bool → ℤ → ℕ → W → Outcome W
  activate_if false fd events w = ok w
  activate_if true fd events w = do r ← activate fd events w; ok r.1

  -- The body of the loop, for one event. A broken descriptor is closed, and nothing else is done.
  unfoldable pub serve_event : EpollEvent → W → Outcome W
  unfolding activate_if
  serve_event e w =
      let served = (do
        w' ← activate_if (e.events % 2 == 1) e.fd read_mask w
        activate_if ((e.events / 2 ^ 2) % 2 == 1) e.fd write_mask w') in
      if is_broken e then ok (close e.fd w) else served

  -- The loop over the array of events, from `i` on.
  unfoldable pub event_rounds : ℕ → ℕ → List EpollEvent → W → Outcome W
  event_rounds zero i events w = ok w
  event_rounds (suc rounds) i events w = do
    e ← read_at events i
    w' ← serve_event e w
    event_rounds rounds (i + 1) events w'

  -- `epoll_dispatch`, for what `epoll_wait` returned and wrote; a negative number gives no rounds.
  unfoldable pub epoll_dispatch : ℤ → List EpollEvent → W → Outcome (ℤ × W)
  epoll_dispatch (negsuc n) events w = ok (pos 0, w)
  epoll_dispatch (pos n) events w = do w' ← event_rounds n 0 events w; ok (pos 0, w')

-- `epoll_clear` frees the data; the loop has none afterwards.
unfoldable pub epoll_clear : {K : Type 0} → EpollData K → Option (EpollData K)
epoll_clear d = none
