-- ===== src/Tests/Loops.antt =====
-- Runs of test_epoll/lib/event_loop.c over the poller of poll_dispatcher.c.
use cpyu_ze.Base.{
  ℕ, zero, suc, ◌≤◌, ◌<◌, ◌≡◌, inl, inr, refl, sym, ap, ◌∙◌, Bool, true, false, none, some, [], ◌∷◌,
  arith, ◌==◌, if◌then◌else◌, ℤ, eq_ℤ, pos, ok,
}
use cpyu_ze.Channel.{Store, handle_wakeup, event_loop}
use cpyu_ze.ChannelMap.{entry}
use cpyu_ze.Dispatcher.{Contract, Dispatcher}
use cpyu_ze.Poll.{PollData, poll_dispatcher}
use cpyu_ze.Poll.Keeps.{poll_contract}
use cpyu_ze.EventLoop.{
  ChannelElement, EventLoop, event_loop_handle_pending_channel, event_loop_init_with_name,
  wakeup_channel,
}
use cpyu_ze.EventLoop.Handlers.{is_some, AllFits, LoopInv}
use cpyu_ze.EventLoop.Pending.{
  View, view, apply_at, IsLegal, AllLegal, want_after, nil, cons, adds, handle_pending-AllLegal,
}
use cpyu_ze.EventLoop.Start.{init_with_name-LoopInv}
use cpyu_ze.Tests.Polls.{fresh_slots, reader_writer, started, empty_set}

abbrev pub poller : Dispatcher PollData
poller = poll_dispatcher fresh_slots

abbrev pub contract : Contract poller
contract = poll_contract fresh_slots

-- The channel of the pipe stands at 3, a connection's channel at 9.
abbrev pub memory : Store
memory p =
    if p == 3 then some (wakeup_channel (pos 4) 1) else if p == 9 then some reader_writer else none

abbrev pub plenty : ℕ → Bool
plenty n = true

pub plenty-AllFits : AllFits plenty
plenty-AllFits n small = refl

-- A loop of thread 1 with no channel yet.
abbrev pub idle : EventLoop PollData
idle = record {
  quit = false;
  event_dispatcher_data = empty_set;
  channel_map = record { entries = []; nentries = 0 };
  is_handle_pending = false;
  pending = [];
  owner_thread_id = 1;
  wakeups = 0;
}

pub no_entry : (n : ℕ) → entry idle.channel_map n ≡ none
no_entry zero = refl
no_entry (suc n) = refl

pub idle-LoopInv : LoopInv contract memory idle
unfolding poll_contract
idle-LoopInv = record {
  map_is = record { sized = refl };
  poller = started.2;
  channels = λ n p e. absurd (cc (no_entry n));
  agrees = λ n. ap is_some (no_entry n) ∙ sym (ap is_some (started.4 (pos n)));
}

pub has_room : 0 < contract.free empty_set
unfolding poll_contract
has_room = omega (arith, started.3)

init_with_name-LoopInv_example :
    (store' : Store) × (l : EventLoop PollData) × (event_loop_init_with_name poller plenty memory 1
        7
        (pos 4)
        11
      ≡ ok (store', l))
    × ((q : ℕ)
        → store' q ≡ (
            if q == 11
            then some (record {
              fd = pos 4;
              events = 2;
              event_read_callback = some handle_wakeup;
              event_write_callback = none;
              callback_data = event_loop 7;
            })
            else memory q))
    × LoopInv contract store' l
    × ((i : ℕ) → view l i ≡ (if i == 4 then some 11 else none))
    × ((g : ℤ)
        → contract.registered l.event_dispatcher_data g
          ≡ (if eq_ℤ (pos 4) g then some (record { reads = true; writes = false }) else none))
    × (l.pending ≡ [])
    × (l.is_handle_pending ≡ false)
unfolding poll_contract poll_dispatcher
init_with_name-LoopInv_example =
    init_with_name-LoopInv contract plenty memory 1 11 4 7 empty_set plenty-AllFits started.1
      started.2 started.4 has_room (omega arith)

abbrev added : ChannelElement
added = record { type = 1; channel = 9 }

abbrev changed : ChannelElement
changed = record { type = 3; channel = 9 }

abbrev removed : ChannelElement
removed = record { type = 2; channel = 9 }

-- What the map comes to, change by change.
abbrev after_add : View
after_add = apply_at (view idle) 5 added

abbrev after_update : View
after_update = apply_at after_add 5 changed

abbrev after_remove : View
after_remove = apply_at after_update 5 removed

added-IsLegal : IsLegal memory (view idle) added 5
added-IsLegal = record {
  channel = reader_writer;
  there = refl;
  at = refl;
  small = omega arith;
  kind = inl refl;
}

changed-IsLegal : IsLegal memory after_add changed 5
unfolding apply_at
changed-IsLegal = record {
  channel = reader_writer;
  there = refl;
  at = refl;
  small = omega arith;
  kind = inr (inr refl, (9, refl));
}

removed-IsLegal : IsLegal memory after_update removed 5
unfolding apply_at
removed-IsLegal = record {
  channel = reader_writer;
  there = refl;
  at = refl;
  small = omega arith;
  kind = inr (inl refl, (9, refl));
}

abbrev queued : EventLoop PollData
queued = record idle { pending = added ∷ changed ∷ removed ∷ [] }

queued-LoopInv : LoopInv contract memory queued
queued-LoopInv = record {
  map_is = idle-LoopInv.map_is;
  poller = idle-LoopInv.poller;
  channels = idle-LoopInv.channels;
  agrees = idle-LoopInv.agrees;
}

one_add : adds (added ∷ changed ∷ removed ∷ []) ≤ contract.free empty_set
unfolding adds
one_add = omega (arith, has_room)

three_legal : AllLegal memory (view idle) (added ∷ changed ∷ removed ∷ []) after_remove
three_legal = cons 5 added-IsLegal (cons 5 changed-IsLegal (cons 5 removed-IsLegal nil))

handle_pending-AllLegal_example :
    (l' : EventLoop PollData) × (event_loop_handle_pending_channel poller plenty memory queued
      ≡ ok l')
    × LoopInv contract memory l'
    × (view l' ≡ after_remove)
    × (l'.pending ≡ [])
    × (l'.is_handle_pending ≡ false)
    × (contract.registered l'.event_dispatcher_data
        ≡ want_after memory queued.pending
            (view idle)
            after_remove
            three_legal
            (contract.registered empty_set))
handle_pending-AllLegal_example =
    handle_pending-AllLegal contract memory plenty plenty-AllFits queued after_remove three_legal
      queued-LoopInv one_add
