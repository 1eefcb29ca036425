-- ===== src/WorkerPool.antt =====
-- thread_pool/thread_pool.h: `fixed_thread_pool`, with any number of detached worker threads.
-- Tasks are numbers. The mutex is a flag, so that every step between two operations on it is one
-- worker's alone; `execute` and the destructor hold it for one step. A `notify_one` that was not
-- yet made is counted, and `wait` may end without one. The lists `submitted`, `started` and the
-- number `done_tasks` record the past and are read by no step.
pub mod Count
pub mod Exclusion
pub mod Order
pub mod Alert
pub mod Wakeups
use cpyu_ze.Base.{ℕ, zero, suc, ◌+◌, ◌≡◌, Bool, true, false, List, [], ◌∷◌, ◌++◌}

-- `res_info`, which the pool and its threads share.
pub record ResInfo : Type 0 where
  pub locked : Bool
  pub is_shutdown : Bool
  pub tasks : List ℕ
  pub submitted : List ℕ
  pub started : List ℕ
  pub done_tasks : ℕ

-- Where a worker stands: before `lk.lock()`, at the tests in the loop, in `current()`, in
-- `cond_.wait`, or behind the loop.
pub data Worker : Type 0 where
  locking testing waiting ended : Worker
  running : ℕ → Worker

-- One step of a worker: the lambda that the constructor starts a thread with.
pub data Move (s : ResInfo) : Worker → ResInfo → Worker → Type 0 where
  lock : s.locked ≡ false → Move s locking (record s { locked = true }) testing
  take :
      {t : ℕ} {ts : List ℕ}
      → s.tasks ≡ t ∷ ts
      → Move s testing
          (record s { locked = false; tasks = ts; started = s.started ++ t ∷ [] })
          (running t)
  finish : {t : ℕ} → Move s (running t) (record s { done_tasks = s.done_tasks + 1 }) locking
  break_off :
      s.tasks ≡ [] → s.is_shutdown ≡ true → Move s testing (record s { locked = false }) ended
  sleep :
      s.tasks ≡ [] → s.is_shutdown ≡ false → Move s testing (record s { locked = false }) waiting
  wake : Move s waiting s locking

-- The pool with all its workers, and the notifications that `execute` and the destructor owe.
pub record System : Type 0 where
  pub info : ResInfo
  pub workers : List Worker
  pub owed_one : ℕ
  pub owed_all : Bool

-- `notify_all`, for one worker.
abbrev pub notified : Worker → Worker
notified waiting = locking
notified locking = locking
notified testing = testing
notified ended = ended
notified (running t) = running t

abbrev pub notify_all : List Worker → List Worker
notify_all [] = []
notify_all (w ∷ ws) = notified w ∷ notify_all ws

-- Is no worker in `cond_.wait`?
abbrev pub none_waiting : List Worker → Bool
none_waiting [] = true
none_waiting (waiting ∷ ws) = false
none_waiting (locking ∷ ws) = none_waiting ws
none_waiting (testing ∷ ws) = none_waiting ws
none_waiting (ended ∷ ws) = none_waiting ws
none_waiting (running t ∷ ws) = none_waiting ws

-- A step of some worker, of `execute`, or of the destructor, behind which no `execute` comes.
pub data Step (s : System) : System → Type 0 where
  work :
      (before after : List Worker) {w w' : Worker} {info : ResInfo}
      → s.workers ≡ before ++ w ∷ after
      → Move s.info w info w'
      → Step s (record s { info = info; workers = before ++ w' ∷ after })
  execute :
      (t : ℕ)
      → s.info.locked ≡ false
      → s.info.is_shutdown ≡ false
      → Step s (record s {
        info = record (s.info) {
          tasks = s.info.tasks ++ t ∷ [];
          submitted = s.info.submitted ++ t ∷ [];
        };
        owed_one = s.owed_one + 1;
      })
  notify_one :
      (before after : List Worker) {n : ℕ}
      → s.owed_one ≡ suc n
      → s.workers ≡ before ++ waiting ∷ after
      → Step s (record s { workers = before ++ locking ∷ after; owed_one = n })
  notify_none :
      {n : ℕ}
      → s.owed_one ≡ suc n
      → none_waiting s.workers ≡ true
      → Step s (record s { owed_one = n })
  shut_down :
      s.info.locked ≡ false
      → Step s (record s { info = record (s.info) { is_shutdown = true }; owed_all = true })
  notify_every :
      s.owed_all ≡ true → Step s (record s { workers = notify_all s.workers; owed_all = false })

-- The constructor with `thread_count` workers.
abbrev pub all_locking : ℕ → List Worker
all_locking zero = []
all_locking (suc n) = locking ∷ all_locking n

abbrev pub fixed_thread_pool : ℕ → System
fixed_thread_pool thread_count = record {
  info = record {
    locked = false;
    is_shutdown = false;
    tasks = [];
    submitted = [];
    started = [];
    done_tasks = 0;
  };
  workers = all_locking thread_count;
  owed_one = 0;
  owed_all = false;
}

pub data Reach (thread_count : ℕ) : System → Type 0 where
  begin : Reach thread_count (fixed_thread_pool thread_count)
  later : {s t : System} → Reach thread_count s → Step s t → Reach thread_count t
