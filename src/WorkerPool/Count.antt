-- ===== src/WorkerPool/Count.antt =====
-- Sums over the workers of thread_pool/thread_pool.h.
use cpyu_ze.Base.{ℕ, zero, suc, ◌+◌, ◌≡◌, refl, List, [], ◌∷◌, ◌++◌, arith}
use cpyu_ze.WorkerPool.{
  Worker, locking, testing, waiting, running, ended, notified, notify_all, all_locking,
}

abbrev pub total : (Worker → ℕ) → List Worker → ℕ
total f [] = 0
total f (w ∷ ws) = f w + total f ws

pub total-middle :
    (f : Worker → ℕ) (before after : List Worker) (w : Worker)
    → total f (before ++ w ∷ after) ≡ total f (before ++ after) + f w
total-middle f [] after w = omega arith
total-middle f (b ∷ before) after w = omega (arith, total-middle f before after w)

pub total-notify_all :
    (f g : Worker → ℕ)
    → ((w : Worker) → f (notified w) ≡ g w)
    → (ws : List Worker) → total f (notify_all ws) ≡ total g ws
total-notify_all f g same [] = refl
total-notify_all f g same (w ∷ ws) = omega (arith, same w, total-notify_all f g same ws)

pub total-all_locking : (f : Worker → ℕ) → f locking ≡ 0 → (n : ℕ) → total f (all_locking n) ≡ 0
total-all_locking f none zero = refl
total-all_locking f none (suc n) = omega (arith, none, total-all_locking f none n)

-- How many are at a point of the loop.
abbrev pub is_testing : Worker → ℕ
is_testing testing = 1
is_testing locking = 0
is_testing waiting = 0
is_testing ended = 0
is_testing (running t) = 0

abbrev pub is_running : Worker → ℕ
is_running (running t) = 1
is_running testing = 0
is_running locking = 0
is_running waiting = 0
is_running ended = 0

abbrev pub is_waiting : Worker → ℕ
is_waiting waiting = 1
is_waiting testing = 0
is_waiting locking = 0
is_waiting ended = 0
is_waiting (running t) = 0

abbrev pub has_ended : Worker → ℕ
has_ended ended = 1
has_ended testing = 0
has_ended locking = 0
has_ended waiting = 0
has_ended (running t) = 0

-- One that will go on by itself: it has neither ended nor sleeps.
abbrev pub is_awake : Worker → ℕ
is_awake locking = 1
is_awake testing = 1
is_awake (running t) = 1
is_awake waiting = 0
is_awake ended = 0
