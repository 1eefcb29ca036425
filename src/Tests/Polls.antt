-- ===== src/Tests/Polls.antt =====
-- Runs of the poller of test_epoll/lib/poll_dispatcher.c on a set with all slots free but one.
use cpyu_ze.Base.{
  ℕ, zero, suc, ◌==◌, ◌/◌, ◌%◌, ◌^◌, Bool-cases, inl, inr, ◌+◌, ◌≡◌, refl, sym, ap, none, some,
  List, [], ◌∷◌, arith, length, length-replicate, ℤ, pos, negsuc, Outcome, ok, replicate, ◌>>=◌,
  Returns, subst,
}
use cpyu_ze.Channel.{Channel, handle_read, handle_write, tcp_connection}
use cpyu_ze.Dispatcher.{interest, updated}
use cpyu_ze.Poll.{
  PollFd, PollData, init_poll_size, poll_init, poll_add, poll_dispatch, activate_slot,
}
use cpyu_ze.Poll.Registered.{free_slots}
use cpyu_ze.Poll.Keeps.{IsPoll, registered, poll_add-registered, poll_init-registered}
use cpyu_ze.Poll.Dispatch.{KeepsSet, ready_slots, activate_all, poll_dispatch-activate_all}

abbrev unused : PollFd
unused = record { fd = pos 0; events = 0; revents = 0 }

-- The block that `malloc` gave to `poll_init`.
abbrev pub fresh_slots : List PollFd
fresh_slots = replicate 1024 unused

pub fresh_slots-length : length fresh_slots ≡ init_poll_size
fresh_slots-length = length-replicate {A = PollFd} 1024 unused

-- A connection's channel on descriptor 5, which reads and writes.
abbrev pub reader_writer : Channel
reader_writer = record {
  fd = pos 5;
  events = 6;
  event_read_callback = some handle_read;
  event_write_callback = some handle_write;
  callback_data = tcp_connection 40;
}

abbrev pub started :
    (d : PollData) × (poll_init fresh_slots ≡ ok d)
    × IsPoll d
    × (free_slots d.event_set ≡ init_poll_size)
    × ((g : ℤ) → registered d g ≡ none)
started = poll_init-registered fresh_slots fresh_slots-length

abbrev pub empty_set : PollData
empty_set = started.0

poll_add-registered_example :
    (d' : PollData) × (poll_add empty_set reader_writer ≡ ok (pos 0, d'))
    × IsPoll d'
    × (free_slots d'.event_set + 1 ≡ free_slots empty_set.event_set)
    × ((g : ℤ)
        → registered d' g
          ≡ updated (pos 5) (some (interest reader_writer)) (registered empty_set) g)
poll_add-registered_example =
    poll_add-registered empty_set reader_writer started.2 (omega (arith, started.3)) refl
      (started.4 (pos 5))

-- Descriptor 5 has something to read, behind a set of free slots.
abbrev ready_set : List PollFd
ready_set =
    record { fd = pos 5; events = 64; revents = 64 }
    ∷ replicate 1023 (record { fd = negsuc 0; events = 0; revents = 0 })

-- The world is the set and the descriptors that were served.
abbrev World : Type 0
World = List PollFd × List ℤ

abbrev note : ℤ → ℕ → World → Outcome (ℤ × World)
note fd events w = ok (pos 0, (w.0, fd ∷ w.1))

note_slot :
    (p : PollFd) (w : World)
    → Returns (λ (w' : World). w'.0 ≡ w.0) (activate_slot (λ (v : World). v.0) note p w)
unfolding activate_slot
note_slot p w = elim (Bool-cases ((p.revents / 2 ^ 6) % 2 == 1)) [
  | inl r ↦ elim (Bool-cases ((p.revents / 2 ^ 8) % 2 == 1)) [
    | inl t ↦ rw (r, t) refl
    | inr t ↦ rw (r, t) refl
  ]
  | inr r ↦ elim (Bool-cases ((p.revents / 2 ^ 8) % 2 == 1)) [
    | inl t ↦ rw (r, t) refl
    | inr t ↦ rw (r, t) refl
  ]
]

note-KeepsSet : KeepsSet (λ (w : World). w.0) note
note-KeepsSet p w w' e = subst (Returns (λ (v : World). v.0 ≡ w.0)) e (note_slot p w)

none_ready :
    (n : ℕ) → ready_slots (replicate n (record { fd = negsuc 0; events = 0; revents = 0 })) ≡ []
unfolding ready_slots
none_ready zero = refl
none_ready (suc n) = none_ready n

ready_count : 1 ≡ length (ready_slots ready_set)
unfolding ready_slots
ready_count = ap (λ (l : List PollFd). suc (length l)) (sym (none_ready 1023))

poll_dispatch-activate_all_example :
    poll_dispatch (λ (w : World). w.0) note (λ w. (pos 1, (ready_set, []))) ([], []) ≡ (
      activate_all (λ (w : World). w.0) note (ready_slots ready_set) (ready_set, []) >>= λ w2.
      ok (pos 0, w2))
poll_dispatch-activate_all_example =
    poll_dispatch-activate_all (λ (w : World). w.0) note note-KeepsSet ([], []) (ready_set, []) 1
      (λ w. (pos 1, (ready_set, []))) refl
      (ap suc
        (length-replicate {A = PollFd} 1023 (record { fd = negsuc 0; events = 0; revents = 0 })))
      ready_count
