-- ===== src/Poll/Dispatch.antt =====
-- poll_dispatch of test_epoll/lib/poll_dispatcher.c: every ready descriptor is served, in order.
use cpyu_ze.Base.{
  ◌⊎◌, Halt, ℕ, zero, suc, ◌+◌, ◌-◌, ◌<◌, ◌≡◌, refl, sym, ap, ◌∙◌, Bool, not, ◌&&◌, List, [], ◌∷◌,
  arith, ltb, leb, if◌then◌else◌, Bool-cases, inl, inr, length, drop, get_elem?-some, drop-cons,
  drop_all, ℤ, pos, is_negative, Outcome, ok, halt, ◌>>=◌,
}
use cpyu_ze.Poll.{PollFd, init_poll_size, activate_slot, dispatch_loop, poll_dispatch}

-- Has the slot something to report?
abbrev pub is_ready : PollFd → Bool
is_ready p = not (is_negative p.fd) && ltb 0 p.revents

unfoldable pub ready_slots : List PollFd → List PollFd
ready_slots [] = []
ready_slots (p ∷ ps) = if is_ready p then p ∷ ready_slots ps else ready_slots ps

nil_of_length : (ps : List PollFd) → length ps ≡ 0 → ps ≡ []
nil_of_length [] e = refl
nil_of_length (p ∷ ps) e = absurd (omega arith)

module _ {W : Type 0} (set_of : W → List PollFd) (activate : ℤ → ℕ → W → Outcome (ℤ × W)) where
  -- The slots of a list served one after the other.
  unfoldable pub activate_all : List PollFd → W → Outcome W
  activate_all [] w = ok w
  activate_all (p ∷ ps) w = do w' ← activate_slot set_of activate p w; activate_all ps w'

  -- Serving a slot leaves the set as it is.
  abbrev pub KeepsSet : Type 0
  KeepsSet =
      (p : PollFd) (w w' : W) → activate_slot set_of activate p w ≡ ok w' → set_of w' ≡ set_of w

  Outcome-cases : (m : Outcome W) → ((w : W) × (m ≡ ok w)) ⊎ ((h : Halt) × (m ≡ halt h))
  Outcome-cases (ok w) = inl (w, refl)
  Outcome-cases (halt h) = inr (h, refl)

  -- One served slot, given that the loop does what it should on those behind it.
  serve_slot :
      (p : PollFd) (rest : List PollFd) (ready : ℕ) (w : W) (later : W → Outcome W)
      → ready ≡ length (ready_slots rest)
      → ((w' : W)
          → activate_slot set_of activate p w ≡ ok w'
          → 0 < ready
          → later w' ≡ activate_all (ready_slots rest) w')
      → (activate_slot set_of activate p w >>= λ w'. if leb ready 0 then ok w' else later w')
        ≡ (activate_slot set_of activate p w >>= λ w'. activate_all (ready_slots rest) w')
  unfolding activate_all
  serve_slot p rest ready w later count ih =
      elim (Outcome-cases (activate_slot set_of activate p w)) [
        | inr (h, e) ↦ rw e
        | inl (w', e) ↦ rw e (elim (Bool-cases (leb ready 0)) [
          | inl last ↦
              (let none_left : ready_slots rest ≡ [] =
                  nil_of_length (ready_slots rest) (ground arith) in
                rw (last, none_left))
          | inr more ↦ rw more (ih w' e (ground arith))
        ])
      ]

  dispatch_loop-activate_all :
      KeepsSet
      → (rounds i ready : ℕ) (w : W) → length (set_of w) ≡ i + rounds
      → ready ≡ length (ready_slots (drop i (set_of w)))
      → 0 < ready
      → dispatch_loop set_of activate rounds i ready w
        ≡ activate_all (ready_slots (drop i (set_of w))) w
  unfolding dispatch_loop activate_all ready_slots
  dispatch_loop-activate_all keeps zero i ready w len count more =
      absurd (omega (arith, ap (λ l. length (ready_slots l)) (drop_all i (set_of w) (omega arith))))
  dispatch_loop-activate_all keeps (suc rounds) i ready w len count more =
      let (p, got) = get_elem?-some (set_of w) i (omega arith) in
      let rest : List PollFd = drop (i + 1) (set_of w) in
      let next : drop i (set_of w) ≡ p ∷ rest =
        (let one : i + 1 ≡ suc i = omega arith in rw one (drop-cons (set_of w) i got)) in
      let counted : ready ≡ length (ready_slots (p ∷ rest)) =
        count ∙ ap (λ l. length (ready_slots l)) next in
      elim (Bool-cases (is_negative p.fd)) [
        | inl free ↦
            rw (got, next, free)
              (dispatch_loop-activate_all keeps rounds (i + 1) ready w (omega arith)
                (rw free at counted) more)
        | inr used ↦ elim (Bool-cases (ltb 0 p.revents)) [
          | inr quiet ↦
              rw (got, next, used, quiet)
                (dispatch_loop-activate_all keeps rounds (i + 1) ready w (omega arith)
                  (rw (used, quiet) at counted) more)
          | inl busy ↦
              (let fewer : ready - 1 ≡ length (ready_slots rest) =
                  omega (arith, (rw (used, busy) at counted)) in
                rw (got, next, used, busy)
                  (serve_slot p rest (ready - 1) w
                    (dispatch_loop set_of activate rounds (i + 1) (ready - 1)) fewer
                    λ w' e left.
                      (let same : set_of w' ≡ set_of w = keeps p w w' e in
                        dispatch_loop-activate_all keeps rounds (i + 1) (ready - 1) w'
                          (omega (arith, ap length same))
                          (fewer ∙ ap (λ s. length (ready_slots (drop (i + 1) s))) (sym same)) left
                        ∙ ap (λ s. activate_all (ready_slots (drop (i + 1) s)) w') same)))
        ]
      ]

  -- When `poll(2)` returns the number of slots that have something to report, and serving a slot
  -- leaves the set alone, `poll_dispatch` serves exactly those slots, in their order.
  pub poll_dispatch-activate_all :
      KeepsSet
      → (w w1 : W) (ready : ℕ) → (polled : W → ℤ × W) → polled w ≡ (pos ready, w1)
      → length (set_of w1) ≡ init_poll_size
      → ready ≡ length (ready_slots (set_of w1))
      → poll_dispatch set_of activate polled w
        ≡ (activate_all (ready_slots (set_of w1)) w1 >>= λ w2. ok (pos 0, w2))
  unfolding poll_dispatch activate_all
  poll_dispatch-activate_all keeps w w1 zero polled e len count =
      let idle : ready_slots (set_of w1) ≡ [] =
        nil_of_length (ready_slots (set_of w1)) (sym count) in
      rw (e, idle)
  poll_dispatch-activate_all keeps w w1 (suc n) polled e len count =
      rw (e, dispatch_loop-activate_all keeps init_poll_size 0 (suc n) w1 len count (omega arith))
