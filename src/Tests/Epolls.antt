-- ===== src/Tests/Epolls.antt =====
-- Runs of test_epoll/lib/epoll_dispatcher.c over a small kernel.
use cpyu_ze.Base.{
  ℕ, zero, suc, ◌+◌, ◌-◌, ◌≡◌, refl, ap, Option, none, some, List, [], ◌∷◌, ℤ, pos, Outcome, ok,
  halt, exited, ◌⊎◌, sym, ◌>>=◌,
}
use cpyu_ze.Dispatcher.{updated}
use cpyu_ze.Epoll.{Kernel, EpollData, EpollEvent, epoll_dispatch}
use cpyu_ze.Epoll.Keeps.{
  IsEpoll, PollerCall, adds, deletes, updates, asked, InUse, poller_calls, registered,
  poller_calls-asked,
}
use cpyu_ze.Epoll.Dispatch.{run_actions, all_actions, epoll_dispatch-all_actions}
use cpyu_ze.Tests.Polls.{reader_writer}

-- The masks by descriptor, and how many more may be watched.
abbrev Watches : Type 0
Watches = (ℤ → Option ℕ) × ℕ

if_none : Option ℕ → Option Watches → Option Watches
if_none none k = k
if_none (some e) k = none

if_some : Option ℕ → Option Watches → Option Watches
if_some none k = none
if_some (some e) k = k

abbrev if_room : ℕ → Option Watches → Option Watches
if_room zero k = none
if_room (suc n) k = k

-- A kernel with a limit on watches.
abbrev kernel : Kernel Watches
kernel = record {
  epoll_create = some (λ g. none, 8);
  epoll_ctl_add =
      λ k fd events. if_room k.1 (if_none (k.0 fd) (some (updated fd (some events) k.0, k.1 - 1)));
  epoll_ctl_del = λ k fd events. if_some (k.0 fd) (some (updated fd none k.0, k.1 + 1));
  epoll_ctl_mod = λ k fd events. if_some (k.0 fd) (some (updated fd (some events) k.0, k.1));
}

if_room-some : (n : ℕ) (o : Option Watches) (k : Watches) → if_room n o ≡ some k → o ≡ some k
if_room-some zero o k e = absurd (cc e)
if_room-some (suc n) o k e = e

if_none-some :
    (o : Option ℕ) (k k' : Watches) → if_none o (some k) ≡ some k' → (o ≡ none) × (k ≡ k')
unfolding if_none
if_none-some none k k' e = (refl, cc e)
if_none-some (some x) k k' e = absurd (cc e)

if_some-some :
    (o : Option ℕ) (k k' : Watches)
    → if_some o (some k) ≡ some k'
    → (x : ℕ) × (o ≡ some x) × (k ≡ k')
unfolding if_some
if_some-some none k k' e = absurd (cc e)
if_some-some (some x) k k' e = (x, refl, cc e)

kernel-IsEpoll : IsEpoll kernel
kernel-IsEpoll = record {
  watched = λ k. k.0;
  adds = λ k k' fd events done.
      (let (new, same) = if_none-some (k.0 fd) _ k' (if_room-some k.1 _ k' done) in
        (new, λ g. ap (λ (x : Watches). x.0 g) (sym same)));
  deletes = λ k k' fd events done.
      (let (old, there, same) = if_some-some (k.0 fd) _ k' done in
        (old, there, λ g. ap (λ (x : Watches). x.0 g) (sym same)));
  modifies = λ k k' fd events done.
      (let (old, there, same) = if_some-some (k.0 fd) _ k' done in
        (old, there, λ g. ap (λ (x : Watches). x.0 g) (sym same)));
}

abbrev no_watches : EpollData Watches
no_watches = record { event_count = 0; nfds = 0; realloc_copy = 0; efd = (λ g. none, 8) }

-- A channel is added, changed and deleted.
abbrev three_calls : List PollerCall
three_calls = adds reader_writer ∷ updates reader_writer ∷ deletes reader_writer ∷ []

poller_calls-asked_example :
    (poller_calls kernel three_calls no_watches ≡ halt exited)
    ⊎ ((d' : EpollData Watches) × (poller_calls kernel three_calls no_watches ≡ ok d')
        × (registered kernel-IsEpoll d' ≡ asked three_calls (registered kernel-IsEpoll no_watches))
        × InUse three_calls (registered kernel-IsEpoll no_watches))
poller_calls-asked_example = poller_calls-asked kernel-IsEpoll three_calls no_watches

-- Closing and calling back, as a record of what was done.
abbrev note_close : ℤ → List (ℤ × ℕ) → List (ℤ × ℕ)
note_close fd done = (fd, 0) ∷ done

abbrev note_call : ℤ → ℕ → List (ℤ × ℕ) → Outcome (ℤ × List (ℤ × ℕ))
note_call fd events done = ok (pos 0, (fd, events) ∷ done)

-- A descriptor that hung up, and one that can be read and written.
abbrev two_events : List EpollEvent
two_events = record { fd = pos 6; events = 17 } ∷ record { fd = pos 5; events = 5 } ∷ []

epoll_dispatch-all_actions_example :
    epoll_dispatch note_close note_call (pos 2) two_events []
    ≡ (run_actions note_close note_call (all_actions two_events) [] >>= λ w'. ok (pos 0, w'))
epoll_dispatch-all_actions_example =
    epoll_dispatch-all_actions note_close note_call (pos 2) two_events [] (λ m e. cc e)
