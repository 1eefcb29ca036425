-- ===== src/Epoll/Keeps.antt =====
-- The poller of test_epoll/lib/epoll_dispatcher.c, over calls that the kernel may refuse.
use mathlib.Core.Path.{fun_ext}
use cpyu_ze.Base.{
  ℕ, ◌/◌, ◌%◌, ◌^◌, ◌≡◌, ◌⊎◌, refl, sym, ap, subst, ◌∙◌, Bool-cases, inl, inr, Option, Option-cases,
  none, some, List, [], ◌∷◌, ◌==◌, ℤ, pos, eq_ℤ, Outcome, ok, halt, exited, ◌>>=◌,
}
use cpyu_ze.Channel.{Channel, has_event, event_read, event_write}
use cpyu_ze.Dispatcher.{Interest, interest, updated}
use cpyu_ze.Epoll.{Kernel, EpollData, epoll_events, epoll_add, epoll_del, epoll_update}

-- What epoll(7) is asked for, by the two bits that the program uses.
abbrev pub epoll_interest : ℕ → Interest
epoll_interest events = record { reads = events % 2 == 1; writes = (events / 2 ^ 2) % 2 == 1 }

epoll_interest-epoll_events : (c : Channel) → epoll_interest (epoll_events c) ≡ interest c
unfolding epoll_events
epoll_interest-epoll_events c = elim (Bool-cases (has_event event_read c.events)) [
  | inl r ↦ elim (Bool-cases (has_event event_write c.events)) [
    | inl w ↦ rw (r, w)
    | inr w ↦ rw (r, w)
  ]
  | inr r ↦ elim (Bool-cases (has_event event_write c.events)) [
    | inl w ↦ rw (r, w)
    | inr w ↦ rw (r, w)
  ]
]

-- What epoll_ctl(2) documents of a call that succeeds: a descriptor that is added was not watched (else it
-- is EEXIST), one that is changed or deleted was (else it is ENOENT), and no other descriptor is touched. Any
-- call may fail. `watched` is the mask of a descriptor.
pub record IsEpoll {K : Type 0} (kernel : Kernel K) : Type 0 where
  pub watched : K → ℤ → Option ℕ
  pub adds :
      (k k' : K) (fd : ℤ) (events : ℕ)
      → kernel.epoll_ctl_add k fd events ≡ some k'
      → (watched k fd ≡ none) × ((g : ℤ) → watched k' g ≡ updated fd (some events) (watched k) g)
  pub deletes :
      (k k' : K) (fd : ℤ) (events : ℕ)
      → kernel.epoll_ctl_del k fd events ≡ some k'
      → (old : ℕ) × (watched k fd ≡ some old)
        × ((g : ℤ) → watched k' g ≡ updated fd none (watched k) g)
  pub modifies :
      (k k' : K) (fd : ℤ) (events : ℕ)
      → kernel.epoll_ctl_mod k fd events ≡ some k'
      → (old : ℕ) × (watched k fd ≡ some old)
        × ((g : ℤ) → watched k' g ≡ updated fd (some events) (watched k) g)

-- A call of the poller, with a channel.
pub data PollerCall : Type 0 where
  adds deletes updates : Channel → PollerCall

-- What all of them ask for, behind what was asked before.
unfoldable pub asked : List PollerCall → (ℤ → Option Interest) → ℤ → Option Interest
asked [] was = was
asked (adds c ∷ calls) was = asked calls (updated c.fd (some (interest c)) was)
asked (deletes c ∷ calls) was = asked calls (updated c.fd none was)
asked (updates c ∷ calls) was = asked calls (updated c.fd (some (interest c)) was)

-- Each addition is of a descriptor that is not watched then, and the others are of one that is.
unfoldable pub InUse : List PollerCall → (ℤ → Option Interest) → Type 0
InUse [] was = Unit {0}
InUse (adds c ∷ calls) was = (was c.fd ≡ none) × InUse calls (updated c.fd (some (interest c)) was)
InUse (deletes c ∷ calls) was =
    ((i : Interest) × (was c.fd ≡ some i)) × InUse calls (updated c.fd none was)
InUse (updates c ∷ calls) was =
    ((i : Interest) × (was c.fd ≡ some i)) × InUse calls (updated c.fd (some (interest c)) was)

abbrev pub poller_call :
    {K : Type 0} → Kernel K → PollerCall → EpollData K → Outcome (ℤ × EpollData K)
poller_call kernel (adds c) d = epoll_add kernel d c
poller_call kernel (deletes c) d = epoll_del kernel d c
poller_call kernel (updates c) d = epoll_update kernel d c

-- One call after the other.
unfoldable pub poller_calls :
    {K : Type 0} → Kernel K → List PollerCall → EpollData K → Outcome (EpollData K)
poller_calls kernel [] d = ok d
poller_calls kernel (x ∷ calls) d = do r ← poller_call kernel x d; poller_calls kernel calls r.1

abbrev pub wanted : Option ℕ → Option Interest
wanted none = none
wanted (some events) = some (epoll_interest events)

module _ {K : Type 0} {kernel : Kernel K} (os : IsEpoll kernel) where
  abbrev pub registered : EpollData K → ℤ → Option Interest
  registered d g = wanted (os.watched d.efd g)

  wanted-updated :
      (fd g : ℤ) (v : Option ℕ) (old : ℤ → Option ℕ)
      → wanted (updated fd v old g) ≡ updated fd (wanted v) (λ h. wanted (old h)) g
  wanted-updated fd g v old = elim (Bool-cases (eq_ℤ fd g)) [ inl e ↦ rw e | inr e ↦ rw e ]

  -- What a call that gave a descriptor the mask of a channel has registered.
  now_registered :
      (d : EpollData K) (c : Channel) (k : K)
      → ((g : ℤ) → os.watched k g ≡ updated c.fd (some (epoll_events c)) (os.watched d.efd) g)
      → (g : ℤ)
      → registered (record d { efd = k }) g ≡ updated c.fd (some (interest c)) (registered d) g
  now_registered d c k changed g =
      ap wanted (changed g)
      ∙ wanted-updated c.fd g (some (epoll_events c)) (os.watched d.efd)
      ∙ ap (λ i. updated c.fd (some i) (registered d) g) (epoll_interest-epoll_events c)

  -- One call: the process ends, or it was allowed, returned 0 and changed what is registered.
  one_call :
      (x : PollerCall) (d : EpollData K)
      → (poller_call kernel x d ≡ halt exited)
        ⊎ ((d' : EpollData K) × (poller_call kernel x d ≡ ok (pos 0, d'))
            × ((g : ℤ) → registered d' g ≡ asked (x ∷ []) (registered d) g)
            × InUse (x ∷ []) (registered d))
  unfolding epoll_add epoll_del epoll_update asked InUse
  one_call (adds c) d = elim (Option-cases (kernel.epoll_ctl_add d.efd c.fd (epoll_events c))) [
    | inl failed ↦ inl (rw failed refl)
    | inr (k, done) ↦
        (let (new, changed) = os.adds d.efd k c.fd (epoll_events c) done in
          inr
            (record d { efd = k }, rw done refl, now_registered d c k changed, (ap wanted new, tt)))
  ]
  one_call (deletes c) d = elim (Option-cases (kernel.epoll_ctl_del d.efd c.fd (epoll_events c))) [
    | inl failed ↦ inl (rw failed refl)
    | inr (k, done) ↦
        (let (old, there, changed) = os.deletes d.efd k c.fd (epoll_events c) done in
          inr (
            record d { efd = k },
            rw done refl,
            λ g. ap wanted (changed g) ∙ wanted-updated c.fd g none (os.watched d.efd),
            ((epoll_interest old, ap wanted there), tt),
          ))
  ]
  one_call (updates c) d = elim (Option-cases (kernel.epoll_ctl_mod d.efd c.fd (epoll_events c))) [
    | inl failed ↦ inl (rw failed refl)
    | inr (k, done) ↦
        (let (old, there, changed) = os.modifies d.efd k c.fd (epoll_events c) done in
          inr (
            record d { efd = k },
            rw done refl,
            now_registered d c k changed,
            ((epoll_interest old, ap wanted there), tt),
          ))
  ]

  asked-cons :
      (x : PollerCall) (calls : List PollerCall) (was : ℤ → Option Interest)
      → asked (x ∷ calls) was ≡ asked calls (asked (x ∷ []) was)
  unfolding asked
  asked-cons (adds c) calls was = refl
  asked-cons (deletes c) calls was = refl
  asked-cons (updates c) calls was = refl

  InUse-cons :
      (x : PollerCall) (calls : List PollerCall) (was : ℤ → Option Interest)
      → InUse (x ∷ []) was
      → InUse calls (asked (x ∷ []) was)
      → InUse (x ∷ calls) was
  unfolding asked InUse
  InUse-cons (adds c) calls was this later = (this.0, later)
  InUse-cons (deletes c) calls was this later = (this.0, later)
  InUse-cons (updates c) calls was this later = (this.0, later)

  -- Over a kernel that does what epoll_ctl(2) documents, but may refuse any call, a sequence of calls of
  -- `epoll_add`, `epoll_del` and `epoll_update` ends the process, or else: only descriptors that were not
  -- watched were added, only watched ones deleted or updated, and in the end each descriptor is watched for
  -- what the last call for it asked, its channel's interest in reading and in writing, or not at all behind a
  -- deletion; a descriptor without a call is watched as before.
  pub poller_calls-asked :
      (calls : List PollerCall) (d : EpollData K)
      → (poller_calls kernel calls d ≡ halt exited)
        ⊎ ((d' : EpollData K) × (poller_calls kernel calls d ≡ ok d')
            × (registered d' ≡ asked calls (registered d))
            × InUse calls (registered d))
  unfolding poller_calls
  poller_calls-asked [] d = inr (d, refl, unfold asked in refl, unfold InUse in tt)
  poller_calls-asked (x ∷ calls) d = elim (one_call x d) [
    | inl ended ↦ inl (rw ended refl)
    | inr (d1, done, changed, used) ↦
        (let now : registered d1 ≡ asked (x ∷ []) (registered d) = fun_ext changed in
          elim (poller_calls-asked calls d1) [
            | inl ended ↦ inl (rw done ended)
            | inr (d2, later, last, rest) ↦ inr (
              d2,
              rw done later,
              last ∙ ap (asked calls) now ∙ sym (asked-cons x calls (registered d)),
              InUse-cons x calls (registered d) used (subst (InUse calls) now rest),
            )
          ])
  ]
