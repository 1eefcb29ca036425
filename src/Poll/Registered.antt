-- ===== src/Poll/Registered.antt =====
-- What the poller of test_epoll/lib/poll_dispatcher.c has registered: it keeps the contract.
use cpyu_ze.Base.{
  ℕ, suc, ◌+◌, ◌/◌, ◌%◌, ◌^◌, ◌<◌, ◌≡◌, refl, Bool, true, false, not, ◌&&◌, Option, none, some,
  List, [], ◌∷◌, ◌==◌, arith, if◌then◌else◌, Bool-cases, inl, inr, ℤ, is_negative, eq_ℤ, eq_ℤ→eq,
  eq_ℤ_refl,
}
use cpyu_ze.Channel.{Channel, has_event, event_read, event_write}
use cpyu_ze.Dispatcher.{Interest, interest, updated}
use cpyu_ze.Poll.{PollFd, poll_events, is_free, holds, occupy, release, rearm}
use cpyu_ze.Poll.Slots.{update_first}

-- What poll(2) is asked for, by the two bits that the program uses.
abbrev pub poll_interest : ℕ → Interest
poll_interest events = record {
  reads = (events / 2 ^ 6) % 2 == 1;
  writes = (events / 2 ^ 8) % 2 == 1;
}

pub poll_interest-poll_events : (c : Channel) → poll_interest (poll_events c) ≡ interest c
unfolding poll_events
poll_interest-poll_events c = elim (Bool-cases (has_event event_read c.events)) [
  | inl r ↦ elim (Bool-cases (has_event event_write c.events)) [
    | inl w ↦ rw (r, w)
    | inr w ↦ rw (r, w)
  ]
  | inr r ↦ elim (Bool-cases (has_event event_write c.events)) [
    | inl w ↦ rw (r, w)
    | inr w ↦ rw (r, w)
  ]
]

-- Does the slot hold this descriptor?
unfoldable pub serves : PollFd → ℤ → Bool
serves p g = not (is_negative p.fd) && eq_ℤ p.fd g

unfoldable pub slots_registered : List PollFd → ℤ → Option Interest
slots_registered [] g = none
slots_registered (p ∷ ps) g =
    if serves p g then some (poll_interest p.events) else slots_registered ps g

-- No descriptor stands in two slots.
abbrev pub Distinct : List PollFd → Type 0
Distinct [] = Unit
Distinct (p ∷ ps) = (is_negative p.fd ≡ false → slots_registered ps p.fd ≡ none) × Distinct ps

-- How many slots are free.
unfoldable pub free_slots : List PollFd → ℕ
free_slots [] = 0
free_slots (p ∷ ps) = let rest = free_slots ps in if is_free p then suc rest else rest

serves_eq : (p : PollFd) (g : ℤ) → serves p g ≡ true → p.fd ≡ g
unfolding serves
serves_eq p g h = eq_ℤ→eq p.fd g (ground arith)

pub slots_add :
    (ps : List PollFd) (fd g : ℤ) (events : ℕ)
    → is_negative fd ≡ false
    → slots_registered ps fd ≡ none
    → 0 < free_slots ps
    → slots_registered (update_first is_free (occupy fd events) ps) g
      ≡ updated fd (some (poll_interest events)) (slots_registered ps) g
unfolding update_first slots_registered free_slots serves
slots_add [] fd g events h new free = absurd (omega arith)
slots_add (p ∷ ps) fd g events h new free =
    ground (arith, slots_add ps fd g events h, eq_ℤ→eq p.fd g, eq_ℤ→eq fd g, eq_ℤ_refl fd)

pub slots_del :
    (ps : List PollFd) (fd g : ℤ)
    → is_negative fd ≡ false
    → Distinct ps
    → slots_registered (update_first (holds fd) release ps) g
      ≡ updated fd none (slots_registered ps) g
unfolding update_first slots_registered serves
slots_del [] fd g h d = ground arith
slots_del (p ∷ ps) fd g h d = ground (
  arith,
  slots_del ps fd g h d.1,
  eq_ℤ→eq p.fd g,
  eq_ℤ→eq fd g,
  eq_ℤ→eq p.fd fd,
  eq_ℤ_refl fd,
  eq_ℤ_refl g,
  d.0,
)

pub slots_update :
    (ps : List PollFd) (fd g : ℤ) (events : ℕ) (i : Interest)
    → is_negative fd ≡ false
    → slots_registered ps fd ≡ some i
    → slots_registered (update_first (holds fd) (rearm events) ps) g
      ≡ updated fd (some (poll_interest events)) (slots_registered ps) g
unfolding update_first slots_registered serves
slots_update [] fd g events i h old = cc
slots_update (p ∷ ps) fd g events i h old = ground (
  arith,
  slots_update ps fd g events i h,
  eq_ℤ→eq p.fd g,
  eq_ℤ→eq fd g,
  eq_ℤ→eq p.fd fd,
  eq_ℤ_refl fd,
  eq_ℤ_refl g,
)

pub Distinct-add :
    (ps : List PollFd) (fd : ℤ) (events : ℕ)
    → is_negative fd ≡ false
    → slots_registered ps fd ≡ none
    → 0 < free_slots ps
    → Distinct ps
    → Distinct (update_first is_free (occupy fd events) ps)
unfolding update_first slots_registered free_slots serves
Distinct-add [] fd events h new free d = tt
Distinct-add (p ∷ ps) fd events h new free d = ground (
  arith,
  Distinct-add ps fd events h,
  slots_add ps fd p.fd events h,
  eq_ℤ→eq fd p.fd,
  eq_ℤ_refl fd,
  d.0,
)

pub Distinct-del :
    (ps : List PollFd) (fd : ℤ)
    → is_negative fd ≡ false
    → Distinct ps
    → Distinct (update_first (holds fd) release ps)
unfolding update_first
Distinct-del [] fd h d = tt
Distinct-del (p ∷ ps) fd h d = ground (arith, Distinct-del ps fd h, slots_del ps fd p.fd h d.1, d.0)

pub Distinct-update :
    (ps : List PollFd) (fd : ℤ) (events : ℕ) (i : Interest)
    → is_negative fd ≡ false
    → slots_registered ps fd ≡ some i
    → Distinct ps
    → Distinct (update_first (holds fd) (rearm events) ps)
unfolding update_first slots_registered serves
Distinct-update [] fd events i h old d = tt
Distinct-update (p ∷ ps) fd events i h old d = ground (
  arith,
  Distinct-update ps fd events i h,
  slots_update ps fd p.fd events i h,
  eq_ℤ→eq fd p.fd,
  eq_ℤ→eq p.fd fd,
  eq_ℤ_refl fd,
  d.0,
)

pub slots_nonneg :
    (ps : List PollFd) (fd : ℤ) (i : Interest)
    → slots_registered ps fd ≡ some i
    → is_negative fd ≡ false
unfolding slots_registered serves
slots_nonneg [] fd i e = cc
slots_nonneg (p ∷ ps) fd i e = ground (arith, slots_nonneg ps fd i, eq_ℤ→eq p.fd fd)

pub free_slots-add :
    (ps : List PollFd) (fd : ℤ) (events : ℕ)
    → is_negative fd ≡ false
    → 0 < free_slots ps
    → free_slots (update_first is_free (occupy fd events) ps) + 1 ≡ free_slots ps
unfolding update_first free_slots
free_slots-add [] fd events h free = absurd (omega arith)
free_slots-add (p ∷ ps) fd events h free = ground (arith, free_slots-add ps fd events h)

pub free_slots-del :
    (ps : List PollFd) (fd : ℤ) (i : Interest)
    → slots_registered ps fd ≡ some i
    → is_negative fd ≡ false
    → free_slots (update_first (holds fd) release ps) ≡ free_slots ps + 1
unfolding update_first free_slots slots_registered serves
free_slots-del [] fd i old h = cc
free_slots-del (p ∷ ps) fd i old h = ground (arith, free_slots-del ps fd i, eq_ℤ→eq p.fd fd)

pub free_slots-update :
    (ps : List PollFd) (fd : ℤ) (events : ℕ)
    → free_slots (update_first (holds fd) (rearm events) ps) ≡ free_slots ps
unfolding update_first free_slots
free_slots-update [] fd events = refl
free_slots-update (p ∷ ps) fd events = ground (arith, free_slots-update ps fd events)

-- In a full set nothing is added.
pub update_first_full :
    (ps : List PollFd) (edit : PollFd → PollFd)
    → free_slots ps ≡ 0
    → update_first is_free edit ps ≡ ps
unfolding update_first free_slots
update_first_full [] edit h = refl
update_first_full (p ∷ ps) edit h = ground (arith, update_first_full ps edit)
