-- ===== src/WorkerPool/Wakeups.antt =====
-- The condition variable of thread_pool/thread_pool.h: no task and no end is slept through.
use cpyu_ze.Base.{
  ℕ, ◌+◌, ◌≤◌, ◌<◌, ◌≡◌, refl, sym, ap, ◌∙◌, true, false, ◌⊎◌, inl, inr, List, [], ◌∷◌, ◌++◌,
  append-nil, arith, length,
}
use cpyu_ze.WorkerPool.{Worker, locking, testing, waiting, running, ended, System, Reach}
use cpyu_ze.WorkerPool.Count.{total, is_running, is_waiting, has_ended, is_awake}
use cpyu_ze.WorkerPool.Order.{Reach-InOrder}
use cpyu_ze.WorkerPool.Alert.{Reach-IsAlert}

-- While a task waits in the queue of a pool with workers, either one of them is awake or a call of
-- `notify_one` is still owed: no wakeup is lost.
pub no_lost_wakeup :
    {n : ℕ} {s : System}
    → 0 < n
    → Reach n s
    → 0 < length s.info.tasks
    → (0 < total is_awake s.workers) ⊎ (0 < s.owed_one)
no_lost_wakeup some_worker r h = (Reach-IsAlert some_worker r).no_work h

-- After the destructor and its notification no worker sleeps, and when all workers have ended every
-- task that was submitted was run to its end.
pub shut_down-drained :
    {n : ℕ} {s : System}
    → 0 < n
    → Reach n s
    → s.info.is_shutdown ≡ true
    → s.owed_all ≡ false
    → (total is_waiting s.workers ≡ 0)
      × (total has_ended s.workers ≡ n
          → (s.info.started ≡ s.info.submitted) × (s.info.done_tasks ≡ length s.info.submitted))
shut_down-drained {n} {s} some_worker r on told =
    let v = Reach-IsAlert some_worker r in
    let o = Reach-InOrder r in
    (
      elim (v.no_sleep on) [ inl none_there ↦ none_there | inr owed ↦ absurd (cc (owed, told)) ],
      λ over.
          (let none_left : s.info.tasks ≡ [] =
              empty_of (s.info.tasks) ((v.why_gone (omega (arith, over))).1) in
            let same : s.info.submitted ≡ s.info.started =
              o.queue ∙ ap (λ l. s.info.started ++ l) none_left ∙ append-nil s.info.started in
            (sym same, omega (arith, ap length same, o.counted, at_end n s over (v.all)))),
    )
  where
    empty_of : (ts : List ℕ) → length ts ≡ 0 → ts ≡ []
    empty_of [] e = refl
    empty_of (t ∷ ts) e = absurd (omega (arith, e))

    running_awake : (ws : List Worker) → total is_running ws ≤ total is_awake ws
    running_awake [] = omega arith
    running_awake (waiting ∷ ws) = omega (arith, running_awake ws)
    running_awake (locking ∷ ws) = omega (arith, running_awake ws)
    running_awake (testing ∷ ws) = omega (arith, running_awake ws)
    running_awake (ended ∷ ws) = omega (arith, running_awake ws)
    running_awake (running t ∷ ws) = omega (arith, running_awake ws)

    at_end :
        (m : ℕ) (u : System)
        → total has_ended u.workers ≡ m
        → total is_awake u.workers + total is_waiting u.workers + total has_ended u.workers ≡ m
        → total is_running u.workers ≡ 0
    at_end m u over all = omega (arith, over, all, running_awake u.workers)
