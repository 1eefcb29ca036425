-- ===== src/BlockingQueue.antt =====
-- for_cpp_basis/include/t_blocking_queue.h: `BlockingQueue`, with any number of threads that push and
-- that get.
-- Elements are numbers. Each section under `m_Mt` is one step; the wait in `Get` gives the mutex up, may
-- end by itself, and its loop then tests the queue again. Of the threads in `Get` only their numbers
-- matter: those that come to the mutex, and those that wait. `pushed` and `got` record the past and are
-- read by no step.
pub mod Order
use cpyu_ze.Base.{ℕ, zero, suc, ◌+◌, ◌≡◌, List, [], ◌∷◌, ◌++◌}

pub record BlockingQueue : Type 0 where
  pub queue : List ℕ
  pub awake : ℕ
  pub asleep : ℕ
  pub pushed : List ℕ
  pub got : List ℕ

-- `m_Queue.emplace` and what `notify_one` leaves of the numbers of threads.
abbrev pub push : ℕ → ℕ → ℕ → BlockingQueue → BlockingQueue
push x awake asleep q = record {
  queue = q.queue ++ x ∷ [];
  awake = awake;
  asleep = asleep;
  pushed = q.pushed ++ x ∷ [];
  got = q.got;
}

pub data Step (q : BlockingQueue) : BlockingQueue → Type 0 where
  push_wakes : (x : ℕ) {n : ℕ} → q.asleep ≡ suc n → Step q (push x (q.awake + 1) n q)
  push_alone : (x : ℕ) → q.asleep ≡ zero → Step q (push x q.awake zero q)
  calls_get : Step q (record q { awake = q.awake + 1 })
  gets :
      {x n : ℕ} {xs : List ℕ}
      → q.queue ≡ x ∷ xs
      → q.awake ≡ suc n
      → Step q (record q { queue = xs; awake = n; got = q.got ++ x ∷ [] })
  waits :
      {n : ℕ}
      → q.queue ≡ []
      → q.awake ≡ suc n
      → Step q (record q { awake = n; asleep = q.asleep + 1 })
  wakes : {n : ℕ} → q.asleep ≡ suc n → Step q (record q { awake = q.awake + 1; asleep = n })

pub data Reach : BlockingQueue → Type 0 where
  begin : Reach (record { queue = []; awake = 0; asleep = 0; pushed = []; got = [] })
  later : {q r : BlockingQueue} → Reach q → Step q r → Reach r
