-- ===== src/Poll/Slots.antt =====
-- The slots of test_epoll/lib/poll_dispatcher.c: what the search loop does to the whole set.
use cpyu_ze.Base.{
  ℕ, zero, suc, ◌+◌, ◌≡◌, refl, sym, ap, ◌∙◌, Bool, some, List, [], ◌∷◌, ◌++◌, arith, if◌then◌else◌,
  Bool-cases, length, take, drop, set, get_elem?, drop-cons, drop_all, take_all, take-suc,
  append_assoc, get_elem?-some, ok, append-nil, inl, inr,
}
use cpyu_ze.Poll.{PollFd, edit_first}

-- The first slot that passes the test is rewritten; if none does, nothing changes.
unfoldable pub update_first : (PollFd → Bool) → (PollFd → PollFd) → List PollFd → List PollFd
update_first test edit [] = []
update_first test edit (p ∷ ps) = if test p then edit p ∷ ps else p ∷ update_first test edit ps

pub length-update_first :
    (test : PollFd → Bool) (edit : PollFd → PollFd) (ps : List PollFd)
    → length (update_first test edit ps) ≡ length ps
unfolding update_first
length-update_first test edit [] = refl
length-update_first test edit (p ∷ ps) = ground (arith, length-update_first test edit ps)

set-append :
    (xs : List PollFd) (i : ℕ) (v : PollFd) {a : PollFd}
    → get_elem? xs i ≡ some a
    → set xs i v ≡ take i xs ++ v ∷ drop (suc i) xs
set-append [] i v e = cc
set-append (x ∷ xs) zero v e = refl
set-append (x ∷ xs) (suc i) v e = ap (◌∷◌ x) (set-append xs i v e)

step_over :
    (test : PollFd → Bool) (edit : PollFd → PollFd) (i : ℕ) (ps : List PollFd) (p : PollFd)
    → get_elem? ps i ≡ some p
    → take (i + 1) ps ++ update_first test edit (drop (i + 1) ps)
      ≡ take i ps ++ p ∷ update_first test edit (drop (suc i) ps)
step_over test edit i ps p got =
    let one : i + 1 ≡ suc i = omega arith in
    rw (one, take-suc ps i got) (append_assoc (take i ps) (p ∷ []) _)

pub edit_first-update_first :
    (test : PollFd → Bool) (edit : PollFd → PollFd) (rounds i : ℕ) (ps : List PollFd)
    → length ps ≡ i + rounds
    → (j : ℕ) × (edit_first test edit rounds i ps
        ≡ ok (j, take i ps ++ update_first test edit (drop i ps)))
unfolding edit_first update_first
edit_first-update_first test edit zero i ps e = (
  i,
  ap (λ l. ok (i, l))
      (sym (rw (drop_all i ps (omega arith), take_all i ps (omega arith)) (append-nil ps))),
)
edit_first-update_first test edit (suc rounds) i ps e =
    let (p, got) = get_elem?-some ps i (omega arith) in
    let next : drop i ps ≡ p ∷ drop (suc i) ps = drop-cons ps i got in
    let (j, later) = edit_first-update_first test edit rounds (i + 1) ps (omega arith) in
    elim (Bool-cases (test p)) [
      | inl hit ↦ (i, rw (got, next, hit) (ap (λ l. ok (i, l)) (set-append ps i (edit p) got)))
      | inr miss ↦
          (j, rw (got, next, miss) (later ∙ ap (λ l. ok (j, l)) (step_over test edit i ps p got)))
    ]
