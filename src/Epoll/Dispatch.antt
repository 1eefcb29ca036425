-- ===== src/Epoll/Dispatch.antt =====
-- epoll_dispatch of test_epoll/lib/epoll_dispatcher.c: what the reported events come to, in order.
use cpyu_ze.Base.{
  ℕ, zero, suc, ◌+◌, ◌/◌, ◌%◌, ◌^◌, ◌≤◌, ◌≡◌, refl, ap, sym, ◌∙◌, Bool, true, false, ◌||◌, ◌==◌,
  if◌then◌else◌, Bool-cases, inl, inr, List, [], ◌∷◌, ◌++◌, arith, length, take, take_all, drop,
  drop-cons, get_elem?-some, ℤ, pos, negsuc, Outcome, ok, halt, ◌>>=◌,
}
use cpyu_ze.Epoll.{EpollEvent, activate_if, serve_event, event_rounds, epoll_dispatch}

-- What is done for an event: a descriptor is closed, or its channel is called for a mask of events.
pub data Action : Type 0 where
  closes : ℤ → Action
  activates : ℤ → ℕ → Action

-- EPOLLIN is the lowest bit of the mask that the kernel reports.
abbrev pub is_readable : EpollEvent → Bool
is_readable e = e.events % 2 == 1

-- Another bit of that mask: 2 is EPOLLOUT, 3 EPOLLERR and 4 EPOLLHUP.
abbrev pub reported : ℕ → EpollEvent → Bool
reported bit e = (e.events / 2 ^ bit) % 2 == 1

-- A descriptor with an error or a hang-up is closed, and nothing else is done for it. Another one is called
-- for reading (EVENT_READ is 2) if it can be read, and then for writing (EVENT_WRITE is 4) if it can be
-- written.
unfoldable pub actions_of : EpollEvent → List Action
actions_of e =
    if reported 3 e || reported 4 e
    then closes e.fd ∷ []
    else (if is_readable e then activates e.fd 2 ∷ [] else [])
      ++ (if reported 2 e then activates e.fd 4 ∷ [] else [])

unfoldable pub all_actions : List EpollEvent → List Action
all_actions [] = []
all_actions (e ∷ es) = actions_of e ++ all_actions es

module _ {W : Type 0} (close : ℤ → W → W) (activate : ℤ → ℕ → W → Outcome (ℤ × W)) where
  abbrev pub run_action : Action → W → Outcome W
  run_action (closes fd) w = ok (close fd w)
  run_action (activates fd mask) w = do r ← activate fd mask w; ok r.1

  -- In order, until one of them ends the process.
  unfoldable pub run_actions : List Action → W → Outcome W
  run_actions [] w = ok w
  run_actions (a ∷ actions) w = do w' ← run_action a w; run_actions actions w'

  bind_same : (m : Outcome W) (f g : W → Outcome W) → ((w : W) → f w ≡ g w) → (m >>= f) ≡ (m >>= g)
  bind_same (ok w) f g same = same w
  bind_same (halt h) f g same = refl

  bind_ok_same : (m : Outcome W) → (m >>= λ w. ok w) ≡ m
  bind_ok_same (ok w) = refl
  bind_ok_same (halt h) = refl

  bind_bind : (m : Outcome W) (f g : W → Outcome W) → ((m >>= f) >>= g) ≡ (m >>= λ w. f w >>= g)
  bind_bind (ok w) f g = refl
  bind_bind (halt h) f g = refl

  run_actions-append :
      (a b : List Action) (w : W) → run_actions (a ++ b) w ≡ (run_actions a w >>= run_actions b)
  unfolding run_actions
  run_actions-append [] b w = refl
  run_actions-append (x ∷ a) b w =
      bind_same (run_action x w) _ _ (run_actions-append a b)
      ∙ sym (bind_bind (run_action x w) (run_actions a) (run_actions b))

  activate_if-run_actions :
      (asked : Bool) (fd : ℤ) (mask : ℕ) (w : W)
      → activate_if close activate asked fd mask w
        ≡ run_actions (if asked then activates fd mask ∷ [] else []) w
  unfolding activate_if run_actions
  activate_if-run_actions false fd mask w = refl
  activate_if-run_actions true fd mask w = sym (bind_ok_same (activate fd mask w >>= λ r. ok r.1))

  serve_event-actions_of :
      (e : EpollEvent) (w : W) → serve_event close activate e w ≡ run_actions (actions_of e) w
  unfolding serve_event actions_of
  serve_event-actions_of e w =
      let reads : List Action = if is_readable e then activates e.fd 2 ∷ [] else [] in
      let writes : List Action = if reported 2 e then activates e.fd 4 ∷ [] else [] in
      elim (Bool-cases (reported 3 e || reported 4 e)) [
        | inl broken ↦ rw broken (unfold run_actions in refl)
        | inr sound ↦ rw sound (
            ap (λ (m : Outcome W). m >>= λ w'. activate_if close activate (reported 2 e) e.fd 4 w')
              (activate_if-run_actions (is_readable e) e.fd 2 w)
            ∙ bind_same (run_actions reads w) _ _ (activate_if-run_actions (reported 2 e) e.fd 4)
            ∙ sym (run_actions-append reads writes w))
      ]

  event_rounds-all_actions :
      (rounds i : ℕ) (events : List EpollEvent) (w : W)
      → i + rounds ≤ length events
      → event_rounds close activate rounds i events w
        ≡ run_actions (all_actions (take rounds (drop i events))) w
  unfolding event_rounds all_actions run_actions
  event_rounds-all_actions zero i events w room = refl
  event_rounds-all_actions (suc rounds) i events w room =
      let (e, got) = get_elem?-some events i (omega arith) in
      let one : i + 1 ≡ suc i = omega arith in
      let next : drop i events ≡ e ∷ drop (i + 1) events = rw one (drop-cons events i got) in
      rw (got, next)
        (bind_same (serve_event close activate e w) _ _
            (λ w'. event_rounds-all_actions rounds (i + 1) events w' (omega arith))
          ∙ ap
              (λ (m : Outcome W).
                m >>= run_actions (all_actions (take rounds (drop (i + 1) events))))
              (serve_event-actions_of e w)
          ∙ sym (
              run_actions-append (actions_of e) (all_actions (take rounds (drop (i + 1) events)))
                w))

  -- For an array of just as many events as `epoll_wait` returned, `epoll_dispatch` does what each of them
  -- asks for, in their order: a descriptor with an error or a hang-up is closed and nothing else is done for
  -- it, and the channel of another one is called for reading and then for writing, as far as each was
  -- reported. It returns 0, or ends as soon as a callback ends the process. With a failed `epoll_wait` it does
  -- nothing.
  pub epoll_dispatch-all_actions :
      (n : ℤ) (events : List EpollEvent) (w : W)
      → ((m : ℕ) → n ≡ pos m → m ≡ length events)
      → epoll_dispatch close activate n events w ≡ (
          run_actions (all_actions (elim n [ pos m ↦ events | negsuc m ↦ [] ])) w >>= λ w'.
          ok (pos 0, w'))
  unfolding epoll_dispatch run_actions all_actions
  epoll_dispatch-all_actions (negsuc n) events w all = refl
  epoll_dispatch-all_actions (pos n) events w all =
      let len : n ≡ length events = all n refl in
      ap (λ m. m >>= λ w'. ok (pos 0, w'))
        (event_rounds-all_actions n 0 events w (omega (arith, len))
          ∙ ap (λ l. run_actions (all_actions l) w) (take_all n events (omega (arith, len))))
