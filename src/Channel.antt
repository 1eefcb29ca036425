-- ===== src/Channel.antt =====
-- test_epoll/lib/channel.h and channel.c: what an event loop watches and whom it calls.
-- Channels are shared by pointers, so they stand in a store; NULL is `none`. The function pointers
-- of the program are the constructors of `Callback`, and `void *data` says what it points to.
-- A single-bit mask is given by the place of its bit, so that `events & mask` is a digit.
use cpyu_ze.Base.{
  ℕ, ◌+◌, ◌-◌, ◌/◌, ◌%◌, ◌^◌, ◌≡◌, Bool, true, false, Option, none, some, arith, ◌==◌,
  if◌then◌else◌, ℤ, Outcome, ok, halt, null_pointer, or_halt, bad_cast, ◌>>=◌,
}

-- Read callbacks and write callbacks, under the source's names.
pub data Callback : Type 0 where
  handle_wakeup handle_connection_established handle_read handle_write : Callback

-- What `void *data` points to.
pub data CallbackData : Type 0 where
  event_loop tcp_server tcp_connection : ℕ → CallbackData

pub record Channel : Type 0 where
  pub fd : ℤ
  pub events : ℕ
  pub event_read_callback : Option Callback
  pub event_write_callback : Option Callback
  pub callback_data : CallbackData

-- `EVENT_READ` is 1 << 1 and `EVENT_WRITE` is 1 << 2.
abbrev pub event_read : ℕ
event_read = 1

abbrev pub event_write : ℕ
event_write = 2

-- `events & mask`, as a test.
abbrev pub has_event : ℕ → ℕ → Bool
has_event bit events = (events / 2 ^ bit) % 2 == 1

-- `events | mask`
unfoldable pub with_event : ℕ → ℕ → ℕ
with_event bit events = if has_event bit events then events else events + 2 ^ bit

-- `events & ~mask`
unfoldable pub without_event : ℕ → ℕ → ℕ
without_event bit events = if has_event bit events then events - 2 ^ bit else events

unfoldable pub channel_new : ℤ → ℕ → Option Callback → Option Callback → CallbackData → Channel
channel_new fd events on_read on_write callback_data = record {
  fd = fd;
  events = events;
  event_read_callback = on_read;
  event_write_callback = on_write;
  callback_data = callback_data;
}

unfoldable pub channel_write_event_is_enabled : Channel → Bool
channel_write_event_is_enabled c = has_event event_write c.events

-- `(struct event_loop *) channel->data`: the address of a loop, if it is one.
unfoldable pub as_event_loop : CallbackData → Outcome ℕ
as_event_loop (event_loop p) = ok p
as_event_loop (tcp_server p) = halt bad_cast
as_event_loop (tcp_connection p) = halt bad_cast

-- The channel as `channel_write_event_enable` and `_disable` leave it, and the loop that they
-- then notify by `event_loop_update_channel_event`.
unfoldable pub channel_write_event_enable : Channel → Outcome (ℕ × Channel)
channel_write_event_enable c = do
  loop ← as_event_loop c.callback_data
  ok (loop, record c { events = with_event event_write c.events })

unfoldable pub channel_write_event_disable : Channel → Outcome (ℕ × Channel)
channel_write_event_disable c = do
  loop ← as_event_loop c.callback_data
  ok (loop, record c { events = without_event event_write c.events })

-- The channels in memory, by address.
abbrev pub Store : Type 0
Store = ℕ → Option Channel

-- `*p = v`, for a memory of such values.
abbrev pub stored {ℓ} : {A : Type ℓ} → (ℕ → Option A) → ℕ → A → ℕ → Option A
stored memory p v q = if q == p then some v else memory q

-- `*p`, for a pointer that may be NULL.
abbrev pub load : Store → Option ℕ → Outcome Channel
load store none = halt null_pointer
load store (some p) = or_halt null_pointer (store p)

-- Enabling sets the write bit and no other, and disabling clears it and no other.
pub with_event-write : (e : ℕ) → has_event event_write (with_event event_write e) ≡ true
unfolding with_event
with_event-write e = ground arith

pub with_event-read :
    (e : ℕ) → has_event event_read (with_event event_write e) ≡ has_event event_read e
unfolding with_event
with_event-read e = ground arith

pub without_event-write : (e : ℕ) → has_event event_write (without_event event_write e) ≡ false
unfolding without_event
without_event-write e = ground arith

pub without_event-read :
    (e : ℕ) → has_event event_read (without_event event_write e) ≡ has_event event_read e
unfolding without_event
without_event-read e = ground arith
