-- ===== src/ThreadPool/RoundRobin.antt =====
-- The order in which thread_pool_get_loop of test_epoll/lib/thread_pool.c hands out its loops.
use cpyu_ze.Base.{
  ℕ, zero, suc, ◌+◌, ◌-◌, ◌<◌, ◌≡◌, refl, sym, ap, ◌∙◌, true, false, Option, some, List, [], ◌∷◌,
  ◌++◌, arith, leb, if◌then◌else◌, length, map, take, drop, get_elem?, get_elem?-some, drop-cons,
  drop_all, append-nil, Outcome, ok, ◌>>=◌, ℤ, pos, negsuc, none,
}
use cpyu_ze.EventLoop.{assert_in_same_thread}
use cpyu_ze.ThreadPool.{
  EventLoopThread, ThreadPool, event_loop_thread_start, thread_pool_new, start_threads,
  thread_pool_start, thread_pool_get_loop, next_loop,
}

-- A pool whose threads run, with its position at one of them.
pub record IsRunning (pool : ThreadPool) : Type 0 where
  pub on : pool.started ≡ true
  pub counted : pool.thread_number ≡ pos (length pool.event_loop_threads)
  pub inside : pool.position < length pool.event_loop_threads

-- A number of calls of `thread_pool_get_loop`, and what they return, in order.
unfoldable pub get_loops : ℕ → ℕ → ℕ → ThreadPool → Outcome (List (Option ℕ) × ThreadPool)
get_loops self owner zero pool = ok ([], pool)
get_loops self owner (suc calls) pool = do
  (loop, pool1) ← thread_pool_get_loop self owner pool
  (loops, pool2) ← get_loops self owner calls pool1
  ok (loop ∷ loops, pool2)

abbrev pub loops_of : List EventLoopThread → List (Option ℕ)
loops_of threads = map (λ (t : EventLoopThread). t.event_loop) threads

same_thread_ok : (self : ℕ) → assert_in_same_thread self self ≡ ok tt
unfolding assert_in_same_thread
same_thread_ok self = ground arith

next_loop-main_loop :
    (n : ℤ) (found : Option EventLoopThread) (pool pool' : ThreadPool) (loop : Option ℕ)
    → get_elem? pool.event_loop_threads pool.position ≡ found
    → next_loop n pool ≡ ok (loop, pool')
    → pool'.main_loop ≡ pool.main_loop
unfolding next_loop
next_loop-main_loop (negsuc n) found pool pool' loop at e = ground arith
next_loop-main_loop (pos zero) found pool pool' loop at e = ground arith
next_loop-main_loop (pos (suc n)) none pool pool' loop at e = ground arith
next_loop-main_loop (pos (suc n)) (some t) pool pool' loop at e = ground arith

-- A call leaves the main loop as it is.
pub get_loop-main_loop :
    (self : ℕ) (pool pool' : ThreadPool) (loop : Option ℕ)
    → thread_pool_get_loop self self pool ≡ ok (loop, pool')
    → pool'.main_loop ≡ pool.main_loop
unfolding thread_pool_get_loop
get_loop-main_loop self pool pool' loop e =
    next_loop-main_loop pool.thread_number _ pool pool' loop refl (ground arith)

abbrev moved_to : ThreadPool → ℕ → ThreadPool
moved_to pool i = record pool { position = i }

-- One call: the thread at the position, and the position behind it, or the first.
get_loop_step :
    (self n i : ℕ) (pool : ThreadPool) (t : EventLoopThread)
    → pool.started ≡ true
    → pool.thread_number ≡ pos (suc n)
    → get_elem? pool.event_loop_threads i ≡ some t
    → thread_pool_get_loop self self (moved_to pool i)
      ≡ ok (t.event_loop, moved_to pool (if leb (suc n) (i + 1) then 0 else i + 1))
unfolding thread_pool_get_loop
get_loop_step self n i pool t on counted got = rw (on, same_thread_ok self, counted, got)

-- Calls that do not get to the last thread.
get_loops_before :
    (self n k i : ℕ) (pool : ThreadPool)
    → pool.started ≡ true
    → pool.thread_number ≡ pos (suc n)
    → length pool.event_loop_threads ≡ suc n
    → i + k < suc n
    → get_loops self self k (moved_to pool i)
      ≡ ok (loops_of (take k (drop i pool.event_loop_threads)), moved_to pool (i + k))
unfolding get_loops
get_loops_before self n zero i pool on counted len h =
    let same : i ≡ i + 0 = omega arith in ap (λ j. ok ([], moved_to pool j)) same
get_loops_before self n (suc k) i pool on counted len h =
    let (t, got) = get_elem?-some pool.event_loop_threads i (omega arith) in
    let more : leb (suc n) (i + 1) ≡ false = ground arith in
    let shift : i + 1 + k ≡ i + suc k = omega arith in
    let one : i + 1 ≡ suc i = omega arith in
    let tail : drop i pool.event_loop_threads ≡ t ∷ drop (i + 1) pool.event_loop_threads =
      rw one (drop-cons pool.event_loop_threads i got) in
    rw (
      get_loop_step self n i pool t on counted got,
      more,
      get_loops_before self n k (i + 1) pool on counted len (omega arith),
      tail,
      shift,
    )

-- Calls up to the last thread, and then others from the first on.
get_loops_around :
    (self n k i b : ℕ) (pool pool' : ThreadPool) (loops : List (Option ℕ))
    → pool.started ≡ true
    → pool.thread_number ≡ pos (suc n)
    → length pool.event_loop_threads ≡ suc n
    → i + suc k ≡ suc n
    → get_loops self self b (moved_to pool 0) ≡ ok (loops, pool')
    → get_loops self self (suc k + b) (moved_to pool i)
      ≡ ok (loops_of (drop i pool.event_loop_threads) ++ loops, pool')
unfolding get_loops
get_loops_around self n zero i b pool pool' loops on counted len h later =
    let (t, got) = get_elem?-some pool.event_loop_threads i (omega arith) in
    let last : leb (suc n) (i + 1) ≡ true = ground arith in
    let tail : drop i pool.event_loop_threads ≡ t ∷ [] =
      drop-cons pool.event_loop_threads i got
      ∙ ap (◌∷◌ t) (drop_all (suc i) pool.event_loop_threads (omega arith)) in
    let calls : suc zero + b ≡ suc b = omega arith in
    rw (calls, get_loop_step self n i pool t on counted got, last, later, tail)
get_loops_around self n (suc k) i b pool pool' loops on counted len h later =
    let (t, got) = get_elem?-some pool.event_loop_threads i (omega arith) in
    let more : leb (suc n) (i + 1) ≡ false = ground arith in
    let one : i + 1 ≡ suc i = omega arith in
    let tail : drop i pool.event_loop_threads ≡ t ∷ drop (i + 1) pool.event_loop_threads =
      rw one (drop-cons pool.event_loop_threads i got) in
    let calls : suc (suc k) + b ≡ suc (suc k + b) = omega arith in
    rw (calls, get_loop_step self n i pool t on counted got, more)
      (ap (λ m. m >>= λ (x : List (Option ℕ) × ThreadPool). ok (t.event_loop ∷ x.0, x.1))
          (get_loops_around self n k (i + 1) b pool pool' loops on counted len (omega arith) later)
        ∙ rw tail)

-- As many calls as there are threads give each thread's loop once: those from the position on, and
-- then those before it. The pool is as it was.
pub get_loops_rotate :
    (self : ℕ) (pool : ThreadPool)
    → IsRunning pool
    → get_loops self self (length pool.event_loop_threads) pool
      ≡ ok (
        loops_of (drop pool.position pool.event_loop_threads)
            ++ loops_of (take pool.position pool.event_loop_threads),
        pool,
      )
get_loops_rotate self pool run =
    let threads : ℕ = length pool.event_loop_threads in
    let n : ℕ = threads - 1 in
    let k : ℕ = threads - pool.position - 1 in
    let len : threads ≡ suc n = omega (arith, run.inside) in
    let counted : pool.thread_number ≡ pos (suc n) = run.counted ∙ ap pos len in
    let split : threads ≡ suc k + pool.position = omega (arith, run.inside) in
    ap (λ calls. get_loops self self calls pool) split
    ∙ get_loops_around self n k pool.position pool.position pool pool
        (loops_of (take pool.position pool.event_loop_threads)) run.on counted len
        (omega (arith, run.inside))
        (get_loops_before self n pool.position 0 pool run.on counted len (omega (arith, run.inside))
          ∙ ap (λ i. ok (loops_of (take pool.position pool.event_loop_threads), moved_to pool i))
              (omega arith))

length-start_threads :
    (made : ℕ → ℕ × ℕ) (rounds i : ℕ) → length (start_threads made rounds i) ≡ rounds
unfolding start_threads
length-start_threads made zero i = refl
length-start_threads made (suc rounds) i = omega (arith, length-start_threads made rounds (i + 1))

-- The loops that the new threads made, in order.
pub made_loops : (ℕ → ℕ × ℕ) → ℕ → ℕ → List (Option ℕ)
made_loops made zero i = []
made_loops made (suc rounds) i = some (made i).1 ∷ made_loops made rounds (i + 1)

start_threads-made_loops :
    (made : ℕ → ℕ × ℕ) (rounds i : ℕ)
    → loops_of (start_threads made rounds i) ≡ made_loops made rounds i
unfolding start_threads made_loops event_loop_thread_start
start_threads-made_loops made zero i = refl
start_threads-made_loops made (suc rounds) i =
    ap (◌∷◌ (some (made i).1)) (start_threads-made_loops made rounds (i + 1))

-- A new pool for a positive number of threads, started by the thread that runs the main loop,
-- hands out the loop of each thread once, in order, in its first round.
pub start-get_loops :
    (made : ℕ → ℕ × ℕ) (self main_loop n : ℕ)
    → 0 < n
    → (pool : ThreadPool) × (thread_pool_start made self self (thread_pool_new main_loop (pos n))
        ≡ ok pool)
      × IsRunning pool
      × (get_loops self self n pool ≡ ok (made_loops made n 0, pool))
unfolding thread_pool_start thread_pool_new
start-get_loops made self main_loop n h =
    let pool : ThreadPool = record {
      main_loop = main_loop;
      started = true;
      thread_number = pos n;
      event_loop_threads = start_threads made n 0;
      position = 0;
    } in
    let len : length (start_threads made n 0) ≡ n = length-start_threads made n 0 in
    let run : IsRunning pool = record {
      on = refl;
      counted = ap pos (sym len);
      inside = omega (arith, len);
    } in
    (
      pool,
      rw (same_thread_ok self),
      run,
      ap (λ calls. get_loops self self calls pool) (sym len)
          ∙ get_loops_rotate self pool run
          ∙ ap (λ l. ok (l, pool))
              (append-nil (loops_of (start_threads made n 0)) ∙ start_threads-made_loops made n 0),
    )
