-- ===== src/ThreadPool/StartUp/Returns.antt =====
-- event_loop_thread_start of test_epoll/lib/event_loop_thread.c returns the loop of the new thread.
use cpyu_ze.Base.{ℕ, ◌+◌, ◌≤◌, ◌≡◌, ap, ◌∙◌, Bool, true, false, Option, none, some, arith}
use cpyu_ze.ThreadPool.StartUp.{
  Starter, creating, start_locking, testing, waiting, returned, Runner, not_created, run_locking,
  initialising, signalling, unlocking, looping, StartUp, signalled, thread_state, Advance, create,
  lock_run, init_with_name, signal, unlock_run, lock_start, wait, unlock_start, advance, Reach,
  later, Advances, none_more, one_more,
}
use cpyu_ze.ThreadPool.StartUp.Sound.{IsStarting, loop_at, Reach-IsStarting}

-- A number that every step of the threads makes smaller.
starter_rank : Starter → ℕ
starter_rank creating = 7
starter_rank start_locking = 3
starter_rank testing = 2
starter_rank waiting = 1
starter_rank (returned p) = 0

runner_rank : Runner → ℕ
runner_rank not_created = 6
runner_rank run_locking = 6
runner_rank initialising = 5
runner_rank signalling = 4
runner_rank unlocking = 1
runner_rank looping = 0

abbrev rank : StartUp → ℕ
rank s = starter_rank s.starter + runner_rank s.runner

rank_le : (a : Starter) (r : Runner) → starter_rank a + runner_rank r ≤ 13
unfolding starter_rank runner_rank
rank_le a r = omega (arith, starter_le a, runner_le r)
  where
    starter_le : (a : Starter) → starter_rank a ≤ 7
    starter_le creating = omega arith
    starter_le start_locking = omega arith
    starter_le testing = omega arith
    starter_le waiting = omega arith
    starter_le (returned p) = omega arith

    runner_le : (r : Runner) → runner_rank r ≤ 6
    runner_le not_created = omega arith
    runner_le run_locking = omega arith
    runner_le initialising = omega arith
    runner_le signalling = omega arith
    runner_le unlocking = omega arith
    runner_le looping = omega arith

rank-signalled : (a : Starter) → starter_rank (signalled a) ≤ starter_rank a + 2
unfolding starter_rank
rank-signalled creating = omega arith
rank-signalled start_locking = omega arith
rank-signalled testing = omega arith
rank-signalled waiting = omega arith
rank-signalled (returned p) = omega arith

Advance-rank : {made : ℕ} {s t : StartUp} → Advance made s t → rank t + 1 ≤ rank s
unfolding starter_rank runner_rank
Advance-rank create = omega arith
Advance-rank lock_run = omega arith
Advance-rank init_with_name = omega arith
Advance-rank (signal {m} {l} {a}) = omega (arith, rank-signalled a)
Advance-rank unlock_run = omega arith
Advance-rank lock_start = omega arith
Advance-rank wait = omega arith
Advance-rank unlock_start = omega arith

Advances-rank : {made n : ℕ} {s t : StartUp} → Advances made n s t → rank t + n ≤ rank s
Advances-rank none_more = omega arith
Advances-rank (one_more step more) = omega (arith, Advance-rank step, Advances-rank more)

Reach-Advances : {made n : ℕ} {s t : StartUp} → Reach made s → Advances made n s t → Reach made t
Reach-Advances r none_more = r
Reach-Advances r (one_more step more) = Reach-Advances (later r (advance step)) more

-- Until the starter has returned, one of the threads can go on.
progress :
    (made : ℕ) (a : Starter) (r : Runner) (m : Bool) (l : Option ℕ)
    → IsStarting made (thread_state m l a r)
    → ((u : StartUp) → Advance made (thread_state m l a r) u → ⊥)
    → (a ≡ returned made) × (l ≡ some made)
progress made creating not_created m l v stuck = absurd (stuck _ create)
progress made creating run_locking m l v stuck = absurd (cc v.fits)
progress made creating initialising m l v stuck = absurd (cc v.fits)
progress made creating signalling m l v stuck = absurd (cc v.fits)
progress made creating unlocking m l v stuck = absurd (cc v.fits)
progress made creating looping m l v stuck = absurd (cc v.fits)
progress made start_locking not_created m l v stuck = absurd v.fits
progress made start_locking run_locking false l v stuck = absurd (stuck _ lock_start)
progress made start_locking run_locking true l v stuck = absurd (omega (arith, v.held))
progress made start_locking initialising m l v stuck = absurd (stuck _ init_with_name)
progress made start_locking signalling m l v stuck = absurd (stuck _ signal)
progress made start_locking unlocking m l v stuck = absurd (stuck _ unlock_run)
progress made start_locking looping false l v stuck = absurd (stuck _ lock_start)
progress made start_locking looping true l v stuck = absurd (omega (arith, v.held))
progress made testing r m none v stuck = absurd (stuck _ wait)
progress made testing r m (some p) v stuck = absurd (stuck _ unlock_start)
progress made waiting not_created m l v stuck = absurd v.fits
progress made waiting run_locking false l v stuck = absurd (stuck _ lock_run)
progress made waiting run_locking true l v stuck = absurd (omega (arith, v.held))
progress made waiting initialising m l v stuck = absurd (stuck _ init_with_name)
progress made waiting signalling m l v stuck = absurd (stuck _ signal)
progress made waiting unlocking m l v stuck = absurd v.fits
progress made waiting looping m l v stuck = absurd v.fits
progress made (returned p) r m l v stuck =
    (ap returned v.fits.0, v.loop_is ∙ ap (loop_at made) v.fits.1)

-- From every reachable state, in whatever order the two threads go on, they make at most thirteen steps
-- while the wait does not end by itself; and when neither can go on, `event_loop_thread_start` has
-- returned the loop that the new thread made.
pub start_returns :
    {made n : ℕ} {s t : StartUp}
    → Reach made s
    → Advances made n s t
    → (n ≤ 13)
      × (((u : StartUp) → Advance made t u → ⊥)
          → (t.starter ≡ returned made) × (t.event_loop ≡ some made))
start_returns {made} {n} {s} {t} reached steps = (
  omega (arith, Advances-rank steps, rank_le s.starter s.runner),
  progress made t.starter t.runner t.locked t.event_loop
      (Reach-IsStarting (Reach-Advances reached steps)),
)
