-- ===== src/ThreadPool/StartUp.antt =====
-- The two sides of event_loop_thread_start and event_loop_thread_run of
-- test_epoll/lib/event_loop_thread.c: the starter waits until the new thread has made its loop.
-- The mutex is a flag, and every step between two operations on it is one thread's alone. The wait may
-- end without a signal. The results of the mutex calls are 0, and the `assert`s around them are
-- compiled in.
pub mod Sound
pub mod Returns
use cpyu_ze.Base.{ℕ, suc, Bool, true, false, Option, none, some}

-- `event_loop_thread_start`: before `pthread_create`, before the lock, at the test of the loop, in
-- `pthread_cond_wait`, and behind its end with the loop that it returns.
pub data Starter : Type 0 where
  creating start_locking testing waiting : Starter
  returned : ℕ → Starter

-- `event_loop_thread_run`: not there yet, before the lock, before the loop is made, before the signal,
-- before the unlock, and in `event_loop_run`.
pub data Runner : Type 0 where
  not_created run_locking initialising signalling unlocking looping : Runner

-- `struct event_loop_thread` between the two threads.
pub record StartUp : Type 0 where
  pub locked : Bool
  pub event_loop : Option ℕ
  pub starter : Starter
  pub runner : Runner

-- `pthread_cond_signal`, for the only thread that waits.
abbrev pub signalled : Starter → Starter
signalled creating = creating
signalled start_locking = start_locking
signalled testing = testing
signalled waiting = start_locking
signalled (returned p) = returned p

abbrev pub thread_state : Bool → Option ℕ → Starter → Runner → StartUp
thread_state locked event_loop starter runner = record {
  locked = locked;
  event_loop = event_loop;
  starter = starter;
  runner = runner;
}

-- A step of one of the threads, for a loop that is made at the address `made`.
pub data Advance (made : ℕ) : StartUp → StartUp → Type 0 where
  create :
      {m : Bool} {l : Option ℕ}
      → Advance made
          (thread_state m l creating not_created)
          (thread_state m l start_locking run_locking)
  lock_run :
      {l : Option ℕ} {a : Starter}
      → Advance made (thread_state false l a run_locking) (thread_state true l a initialising)
  init_with_name :
      {m : Bool} {l : Option ℕ} {a : Starter}
      → Advance made (thread_state m l a initialising) (thread_state m (some made) a signalling)
  signal :
      {m : Bool} {l : Option ℕ} {a : Starter}
      → Advance made (thread_state m l a signalling) (thread_state m l (signalled a) unlocking)
  unlock_run :
      {m : Bool} {l : Option ℕ} {a : Starter}
      → Advance made (thread_state m l a unlocking) (thread_state false l a looping)
  lock_start :
      {l : Option ℕ} {r : Runner}
      → Advance made (thread_state false l start_locking r) (thread_state true l testing r)
  wait :
      {m : Bool} {r : Runner}
      → Advance made (thread_state m none testing r) (thread_state false none waiting r)
  unlock_start :
      {m : Bool} {p : ℕ} {r : Runner}
      → Advance made
          (thread_state m (some p) testing r)
          (thread_state false (some p) (returned p) r)

-- Or the wait ends by itself.
pub data Step (made : ℕ) : StartUp → StartUp → Type 0 where
  advance : {s t : StartUp} → Advance made s t → Step made s t
  spurious :
      {m : Bool} {l : Option ℕ} {r : Runner}
      → Step made (thread_state m l waiting r) (thread_state m l start_locking r)

pub data Reach (made : ℕ) : StartUp → Type 0 where
  begin : Reach made (thread_state false none creating not_created)
  later : {s t : StartUp} → Reach made s → Step made s t → Reach made t

-- A number of steps of the threads.
pub data Advances (made : ℕ) : ℕ → StartUp → StartUp → Type 0 where
  none_more : {s : StartUp} → Advances made 0 s s
  one_more :
      {n : ℕ} {s t u : StartUp} → Advance made s t → Advances made n t u → Advances made (suc n) s u
