-- ===== src/Poll.antt =====
-- test_epoll/lib/poll_dispatcher.c: the poller over poll(2).
-- `struct poll_dispatcher_data` is the record `PollData`; its copy of the set is never used by the
-- source and is left out. A descriptor below zero marks a free slot.
pub mod Slots
pub mod Registered
pub mod Keeps
pub mod Dispatch
use cpyu_ze.Base.{
  ℕ, zero, suc, ◌+◌, ◌-◌, ◌/◌, ◌%◌, ◌^◌, Bool, true, false, Option, none, List, map, ltb, leb, ◌==◌,
  if◌then◌else◌, set, ℤ, pos, negsuc, is_negative, eq_ℤ, Outcome, ok, halt, exited, read_at, ◌>>=◌,
}
use cpyu_ze.Channel.{Channel, has_event, event_read, event_write}
use cpyu_ze.Dispatcher.{Dispatcher}
use Prim.Native.Nat.{bit_or}

-- `struct pollfd`
pub record PollFd : Type 0 where
  pub fd : ℤ
  pub events : ℕ
  pub revents : ℕ

pub record PollData : Type 0 where
  pub event_count : ℕ
  pub nfds : ℕ
  pub realloc_copy : ℕ
  pub event_set : List PollFd

-- `INIT_POLL_SIZE`
abbrev pub init_poll_size : ℕ
init_poll_size = 1024

-- `POLLRDNORM` and `POLLWRNORM` of Linux.
abbrev pub poll_read : ℕ
poll_read = 0x40

abbrev pub poll_write : ℕ
poll_write = 0x100

-- The loop that `poll_add`, `poll_del` and `poll_update` share: the first slot that passes the
-- test is rewritten, and the loop is left. The result is the index at which it ended.
pub edit_first :
    (PollFd → Bool) → (PollFd → PollFd) → ℕ → ℕ → List PollFd → Outcome (ℕ × List PollFd)
edit_first test edit zero i set_of = ok (i, set_of)
edit_first test edit (suc rounds) i set_of = do
  p ← read_at set_of i
  let rest = edit_first test edit rounds (i + 1) set_of
  if test p then ok (i, set set_of i (edit p)) else rest

-- What the two `if`s at the top of `poll_add` and `poll_update` make of a channel's events.
pub poll_events : Channel → ℕ
poll_events c =
    let events : ℕ = (if has_event event_read c.events then bit_or 0 poll_read else 0) in
    if has_event event_write c.events then bit_or events poll_write else events

abbrev pub is_free : PollFd → Bool
is_free p = is_negative p.fd

abbrev pub holds : ℤ → PollFd → Bool
holds fd p = eq_ℤ p.fd fd

abbrev pub occupy : ℤ → ℕ → PollFd → PollFd
occupy fd events p = record p { fd = fd; events = events }

abbrev pub release : PollFd → PollFd
release p = record p { fd = negsuc 0 }

abbrev pub rearm : ℕ → PollFd → PollFd
rearm events p = record p { events = events }

abbrev pub with_set : PollData → ℕ × List PollFd → ℤ × PollData
with_set d (i, set_of) = (pos 0, record d { event_set = set_of })

-- `poll_init`, on the block that `malloc` gave.
unfoldable pub poll_init : List PollFd → Outcome PollData
poll_init fresh =
    ok (record { event_set = map release fresh; event_count = 0; nfds = 0; realloc_copy = 0 })

-- A loop that finds no slot only writes to the log, and the result is 0 all the same.
unfoldable pub poll_add : PollData → Channel → Outcome (ℤ × PollData)
poll_add d c = do
  r ← edit_first is_free (occupy c.fd (poll_events c)) init_poll_size 0 d.event_set
  ok (with_set d r)

unfoldable pub poll_del : PollData → Channel → Outcome (ℤ × PollData)
poll_del d c = do
  r ← edit_first (holds c.fd) release init_poll_size 0 d.event_set
  ok (with_set d r)

unfoldable pub poll_update : PollData → Channel → Outcome (ℤ × PollData)
poll_update d c = do
  r ← edit_first (holds c.fd) (rearm (poll_events c)) init_poll_size 0 d.event_set
  ok (with_set d r)

-- `poll_dispatcher`
unfoldable pub poll_dispatcher : List PollFd → Dispatcher PollData
poll_dispatcher fresh = record {
  init = poll_init fresh;
  add = poll_add;
  del = poll_del;
  update = poll_update;
}

-- `channel_event_activate`'s masks `EVENT_READ` and `EVENT_WRITE`.
abbrev pub read_mask : ℕ
read_mask = 2

abbrev pub write_mask : ℕ
write_mask = 4

-- `poll_dispatch`. The callbacks that `channel_event_activate` runs may change the set, so the
-- world `W` is passed on, and slot `i` is read when its turn comes. What `poll(2)` does to the set
-- and returns is `polled`.
module _ {W : Type 0} (set_of : W → List PollFd) (activate : ℤ → ℕ → W → Outcome (ℤ × W)) where
  activate_if : Bool → ℤ → ℕ → W → Outcome W
  activate_if false fd events w = ok w
  activate_if true fd events w = do r ← activate fd events w; ok r.1

  -- The two tests on the copy of a slot that has something to report.
  unfoldable pub activate_slot : PollFd → W → Outcome W
  unfolding activate_if
  activate_slot p w = do
    w' ← activate_if ((p.revents / 2 ^ 6) % 2 == 1) p.fd read_mask w
    activate_if ((p.revents / 2 ^ 8) % 2 == 1) p.fd write_mask w'

  -- The loop, with `ready_number` above 0.
  unfoldable pub dispatch_loop : ℕ → ℕ → ℕ → W → Outcome W
  dispatch_loop zero i ready w = ok w
  dispatch_loop (suc rounds) i ready w = do
    p ← read_at (set_of w) i
    let skip = dispatch_loop rounds (i + 1) ready w
    let serve = (do
      w' ← activate_slot p w
      let rest = dispatch_loop rounds (i + 1) (ready - 1) w'
      if leb (ready - 1) 0 then ok w' else rest)
    if is_negative p.fd then skip else if ltb 0 p.revents then serve else skip

  -- The part of `poll_dispatch` behind the call of `poll(2)`, by its result.
  after_poll : ℤ → W → Outcome (ℤ × W)
  after_poll (negsuc n) w = halt exited
  after_poll (pos zero) w = ok (pos 0, w)
  after_poll (pos (suc n)) w = do w' ← dispatch_loop init_poll_size 0 (suc n) w; ok (pos 0, w')

  unfoldable pub poll_dispatch : (W → ℤ × W) → W → Outcome (ℤ × W)
  unfolding after_poll
  poll_dispatch polled w = after_poll (polled w).0 (polled w).1

-- `poll_clear` frees the set; the loop has no poller data afterwards.
unfoldable pub poll_clear : PollData → Option PollData
poll_clear d = none
