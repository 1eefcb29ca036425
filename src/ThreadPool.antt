-- ===== src/ThreadPool.antt =====
-- test_epoll/lib/thread_pool.h, thread_pool.c, event_loop_thread.h and event_loop_thread.c: the
-- threads of a server, one event loop in each, of which a new connection takes the next one.
-- A loop is its address. What a new thread's `event_loop_init_with_name` makes is a parameter, and
-- `event_loop_thread_start` waits for it, so that it is one step here. Names are left out.
pub mod RoundRobin
pub mod StartUp
use cpyu_ze.Base.{
  ℕ, zero, suc, ◌+◌, Bool, true, false, Option, none, some, List, [], ◌∷◌, leb, if◌then◌else◌,
  Outcome, ok, halt, assertion, read_at, ℤ, pos, negsuc, ◌>>=◌, ◌>>◌,
}
use cpyu_ze.EventLoop.{assert_in_same_thread}

pub record EventLoopThread : Type 0 where
  pub event_loop : Option ℕ
  pub thread_tid : ℕ
  pub thread_count : ℕ

pub record ThreadPool : Type 0 where
  pub main_loop : ℕ
  pub started : Bool
  pub thread_number : ℤ
  pub event_loop_threads : List EventLoopThread
  pub position : ℕ

-- `event_loop_thread_init`; the number only goes into the name.
unfoldable pub event_loop_thread_init : ℕ → EventLoopThread
event_loop_thread_init i = record { event_loop = none; thread_count = 0; thread_tid = 0 }

-- `event_loop_thread_start`, for a thread that `pthread_create` numbers `tid` and whose loop is at
-- address `made`.
unfoldable pub event_loop_thread_start : ℕ → ℕ → EventLoopThread → EventLoopThread
event_loop_thread_start tid made t = record t { thread_tid = tid; event_loop = some made }

unfoldable pub thread_pool_new : ℕ → ℤ → ThreadPool
thread_pool_new main_loop thread_number = record {
  main_loop = main_loop;
  position = 0;
  thread_number = thread_number;
  started = false;
  event_loop_threads = [];
}

-- The loop of `thread_pool_start`, from thread `i` on; `made i` is the number and the loop of
-- thread `i`.
unfoldable pub start_threads : (ℕ → ℕ × ℕ) → ℕ → ℕ → List EventLoopThread
start_threads made zero i = []
start_threads made (suc rounds) i =
    event_loop_thread_start (made i).0 (made i).1 (event_loop_thread_init i)
    ∷ start_threads made rounds (i + 1)

-- The part of `thread_pool_start` behind the test of the number of threads.
start_all : (ℕ → ℕ × ℕ) → ℤ → ThreadPool → ThreadPool
start_all made (negsuc n) pool = pool
start_all made (pos n) pool = record pool { event_loop_threads = start_threads made n 0 }

-- `thread_pool_start` in the thread `self`, for a main loop that the thread `owner` runs.
unfoldable pub thread_pool_start : (ℕ → ℕ × ℕ) → ℕ → ℕ → ThreadPool → Outcome ThreadPool
unfolding start_all
thread_pool_start made self owner pool = do
  if pool.started then halt assertion else ok tt
  assert_in_same_thread self owner
  ok (start_all made pool.thread_number (record pool { started = true }))

-- Behind the two assertions of `thread_pool_get_loop`: the loop at the position, which goes on to
-- the next one, and from the last to the first.
pub next_loop : ℤ → ThreadPool → Outcome (Option ℕ × ThreadPool)
next_loop (pos (suc n)) pool = do
  t ← read_at pool.event_loop_threads pool.position
  let next = pool.position + 1
  ok (t.event_loop, record pool { position = if leb (suc n) next then 0 else next })
next_loop (pos zero) pool = ok (some pool.main_loop, pool)
next_loop (negsuc n) pool = ok (some pool.main_loop, pool)

unfoldable pub thread_pool_get_loop : ℕ → ℕ → ThreadPool → Outcome (Option ℕ × ThreadPool)
unfolding next_loop
thread_pool_get_loop self owner pool = do
  if pool.started then ok tt else halt assertion
  assert_in_same_thread self owner
  next_loop pool.thread_number pool
