-- ===== src/WorkerPool/Exclusion.antt =====
-- The mutex of thread_pool/thread_pool.h.
use cpyu_ze.Base.{ℕ, ◌+◌, ◌≤◌, ◌≡◌, refl, sym, ap, ◌∙◌, Bool, true, false, ◌++◌, arith}
use cpyu_ze.WorkerPool.{
  ResInfo, Worker, locking, testing, waiting, running, ended, Move, lock, take, finish, break_off,
  sleep, wake, System, Step, work, execute, notify_one, notify_none, shut_down, notify_every,
  notified, Reach, begin, later,
}
use cpyu_ze.WorkerPool.Count.{total, total-middle, total-notify_all, total-all_locking, is_testing}

abbrev pub one_if : Bool → ℕ
one_if true = 1
one_if false = 0

one_if-le : (b : Bool) → one_if b ≤ 1
one_if-le true = omega arith
one_if-le false = omega arith

-- A worker's step, with `others` more workers inside the mutex.
Move-testing :
    {s s' : ResInfo} {w w' : Worker} (others : ℕ)
    → Move s w s' w'
    → others + is_testing w ≡ one_if s.locked
    → others + is_testing w' ≡ one_if s'.locked
Move-testing others (lock free) held = omega (arith, held, ap one_if free)
Move-testing {s} others (take e) held = omega (arith, held, one_if-le s.locked)
Move-testing others finish held = held
Move-testing {s} others (break_off e on) held = omega (arith, held, one_if-le s.locked)
Move-testing {s} others (sleep e off) held = omega (arith, held, one_if-le s.locked)
Move-testing others wake held = held

-- The number of workers inside the mutex is what its flag says.
abbrev pub IsExclusive : System → Type 0
IsExclusive s = total is_testing s.workers ≡ one_if s.info.locked

pub Step-IsExclusive : {s t : System} → Step s t → IsExclusive s → IsExclusive t
Step-IsExclusive {s} (work before after {w} {w'} e move) held =
    total-middle is_testing before after w'
    ∙ Move-testing (total is_testing (before ++ after)) move
        (sym (total-middle is_testing before after w) ∙ ap (total is_testing) (sym e) ∙ held)
Step-IsExclusive (execute t free open_still) held = held
Step-IsExclusive (notify_one before after e there) held =
    total-middle is_testing before after locking
    ∙ sym (total-middle is_testing before after waiting)
    ∙ ap (total is_testing) (sym there)
    ∙ held
Step-IsExclusive (notify_none e none_there) held = held
Step-IsExclusive (shut_down free) held = held
Step-IsExclusive {s} (notify_every e) held =
    total-notify_all is_testing is_testing same s.workers ∙ held
  where
    same : (w : Worker) → is_testing (notified w) ≡ is_testing w
    same locking = refl
    same testing = refl
    same waiting = refl
    same ended = refl
    same (running t) = refl

Reach-IsExclusive : {n : ℕ} {s : System} → Reach n s → IsExclusive s
Reach-IsExclusive {n} begin = total-all_locking is_testing refl n
Reach-IsExclusive (later r st) = Step-IsExclusive st (Reach-IsExclusive r)

-- In every reachable state at most one worker is between a `lock` and an `unlock`, whatever the
-- number of workers and the order of their steps.
pub mutual_exclusion : {n : ℕ} {s : System} → Reach n s → total is_testing s.workers ≤ 1
mutual_exclusion {s} r = omega (arith, Reach-IsExclusive r, one_if-le s.info.locked)
