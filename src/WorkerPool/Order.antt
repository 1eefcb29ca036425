-- ===== src/WorkerPool/Order.antt =====
-- The queue of tasks of thread_pool/thread_pool.h.
use cpyu_ze.Base.{
  ℕ, ◌+◌, ◌≡◌, refl, sym, ap, ◌∙◌, [], ◌∷◌, ◌++◌, append_assoc, arith, length, length-append,
}
use cpyu_ze.WorkerPool.{
  ResInfo, Worker, locking, testing, waiting, running, ended, Move, lock, take, finish, break_off,
  sleep, wake, System, Step, work, execute, notify_one, notify_none, shut_down, notify_every,
  notified, Reach, begin, later,
}
use cpyu_ze.WorkerPool.Count.{total, total-middle, total-notify_all, total-all_locking, is_running}

-- The tasks that were started and those that wait are those that were submitted, in their order, and
-- each that was started is being run or was run to its end.
pub record InOrder (info : ResInfo) (now_running : ℕ) : Type 0 where
  pub queue : info.submitted ≡ info.started ++ info.tasks
  pub counted : length info.started ≡ now_running + info.done_tasks

Move-InOrder :
    {s s' : ResInfo} {w w' : Worker} (others : ℕ)
    → Move s w s' w'
    → InOrder s (others + is_running w)
    → InOrder s' (others + is_running w')
Move-InOrder others (lock free) v = record { queue = v.queue; counted = v.counted }
Move-InOrder {s} others (take {t} {ts} e) v = record {
  queue = v.queue ∙ ap (λ l. s.started ++ l) e ∙ sym (append_assoc s.started (t ∷ []) ts);
  counted = omega (arith, v.counted, length-append s.started (t ∷ []));
}
Move-InOrder others finish v = record { queue = v.queue; counted = omega (arith, v.counted) }
Move-InOrder others (break_off e on) v = record { queue = v.queue; counted = v.counted }
Move-InOrder others (sleep e off) v = record { queue = v.queue; counted = v.counted }
Move-InOrder others wake v = v

recounted : {info : ResInfo} {m n : ℕ} → m ≡ n → InOrder info m → InOrder info n
recounted e v = record { queue = v.queue; counted = omega (arith, e, v.counted) }

pub Step-InOrder :
    {s t : System}
    → Step s t
    → InOrder s.info (total is_running s.workers)
    → InOrder t.info (total is_running t.workers)
Step-InOrder (work before after {w} {w'} e move) v =
    recounted (sym (total-middle is_running before after w')) (
      Move-InOrder (total is_running (before ++ after)) move
        (recounted (ap (total is_running) e ∙ total-middle is_running before after w) v))
Step-InOrder {s} (execute t free open_still) v = record {
  queue = ap (λ l. l ++ t ∷ []) v.queue ∙ append_assoc s.info.started s.info.tasks (t ∷ []);
  counted = v.counted;
}
Step-InOrder (notify_one before after e there) v =
    recounted
      (ap (total is_running) there
        ∙ total-middle is_running before after waiting
        ∙ sym (total-middle is_running before after locking))
      v
Step-InOrder (notify_none e none_there) v = v
Step-InOrder (shut_down free) v = record { queue = v.queue; counted = v.counted }
Step-InOrder {s} (notify_every e) v =
    recounted (sym (total-notify_all is_running is_running same s.workers)) v
  where
    same : (w : Worker) → is_running (notified w) ≡ is_running w
    same locking = refl
    same testing = refl
    same waiting = refl
    same ended = refl
    same (running t) = refl

-- In every reachable state the tasks that were started are the first of those submitted, in the
-- order of their submission, each once; the rest waits in the queue.
pub Reach-InOrder : {n : ℕ} {s : System} → Reach n s → InOrder s.info (total is_running s.workers)
Reach-InOrder {n} begin = record {
  queue = refl;
  counted = omega (arith, total-all_locking is_running refl n);
}
Reach-InOrder (later r st) = Step-InOrder st (Reach-InOrder r)
