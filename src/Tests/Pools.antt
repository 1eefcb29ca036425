-- ===== src/Tests/Pools.antt =====
-- Runs of thread_pool/thread_pool.h and of connection/src/connection_pool.cpp with few steps.
use cpyu_ze.Base.{
  ◌≤◌, ◌<◌, ◌≡◌, ◌⊎◌, refl, true, false, List, [], ◌∷◌, map, replicate, arith, length, ok, halt,
  out_of_bounds,
}
use cpyu_ze.WorkerPool.{
  System, Reach, begin, later, waiting, locking, ended, work, execute, notify_one, shut_down,
  notify_every, lock, take, finish, break_off, sleep,
}
use cpyu_ze.WorkerPool.Count.{total, is_awake, is_testing, is_running, is_waiting, has_ended}
use cpyu_ze.WorkerPool.Exclusion.{mutual_exclusion}
use cpyu_ze.WorkerPool.Order.{InOrder, Reach-InOrder}
use cpyu_ze.WorkerPool.Wakeups.{no_lost_wakeup, shut_down-drained}
use cpyu_ze.ConnectionPool.{
  Connection, ConnectionPool, connection_pool, fill, add_connection, scan_connections,
}
use cpyu_ze.ConnectionPool.Sound.{IsSound, Reach-IsSound}
use cpyu_ze.ConnectionPool.Scan.{IsScanned, scan-IsScanned, scan_out}

-- Two workers, of which the first has gone to sleep and the second has not come to the mutex, and then a
-- task.
abbrev with_task : System
with_task = record {
  info = record {
    locked = false;
    is_shutdown = false;
    tasks = 7 ∷ [];
    submitted = 7 ∷ [];
    started = [];
    done_tasks = 0;
  };
  workers = waiting ∷ locking ∷ [];
  owed_one = 1;
  owed_all = false;
}

with_task-Reach : Reach 2 with_task
with_task-Reach =
    later
      (later (later begin (work [] (locking ∷ []) refl (lock refl)))
        (work [] (locking ∷ []) refl (sleep refl refl)))
      (execute 7 refl refl)

mutual_exclusion_example : total is_testing with_task.workers ≤ 1
mutual_exclusion_example = mutual_exclusion with_task-Reach

Reach-InOrder_example : InOrder with_task.info (total is_running with_task.workers)
Reach-InOrder_example = Reach-InOrder with_task-Reach

no_lost_wakeup_example : (0 < total is_awake with_task.workers) ⊎ (0 < with_task.owed_one)
no_lost_wakeup_example = no_lost_wakeup (omega arith) with_task-Reach (omega arith)

-- One worker, which slept, was woken for a task, ran it, and ended at the destructor.
abbrev drained : System
drained = record {
  info = record {
    locked = false;
    is_shutdown = true;
    tasks = [];
    submitted = 7 ∷ [];
    started = 7 ∷ [];
    done_tasks = 1;
  };
  workers = ended ∷ [];
  owed_one = 0;
  owed_all = false;
}

drained-Reach : Reach 1 drained
drained-Reach =
    later
      (later
        (later
          (later
            (later
              (later
                (later
                  (later
                    (later
                      (later
                        (later
                          (later (later begin (work [] [] refl (lock refl)))
                            (work [] [] refl (sleep refl refl)))
                          (execute 7 refl refl))
                        (notify_one [] [] refl refl))
                      (work [] [] refl (lock refl)))
                    (work [] [] refl (take refl)))
                  (work [] [] refl finish))
                (work [] [] refl (lock refl)))
              (work [] [] refl (sleep refl refl)))
            (shut_down refl))
          (notify_every refl))
        (work [] [] refl (lock refl)))
      (work [] [] refl (break_off refl refl))

shut_down-drained_example :
    (total is_waiting drained.workers ≡ 0)
    × (total has_ended drained.workers ≡ 1
        → (drained.info.started ≡ drained.info.submitted)
          × (drained.info.done_tasks ≡ length drained.info.submitted))
shut_down-drained_example = shut_down-drained (omega arith) drained-Reach refl refl

-- The pool after one call of `getconnection`.
abbrev lent_one : ConnectionPool
lent_one = record {
  connection_que =
      map (λ i. record { id = i; alivetime = 5 }) (1 ∷ 2 ∷ 3 ∷ 4 ∷ 5 ∷ 6 ∷ 7 ∷ 8 ∷ 9 ∷ []);
  connection_cnt = 10;
  lent = record { id = 0; alivetime = 5 } ∷ [];
  next_id = 10;
}

lent_one-Reach : cpyu_ze.ConnectionPool.Reach lent_one
unfolding connection_pool fill add_connection
lent_one-Reach = cpyu_ze.ConnectionPool.later (cpyu_ze.ConnectionPool.begin (λ i. true) 5) (
    cpyu_ze.ConnectionPool.getconnection (record { id = 0; alivetime = 5 }) lent_one.connection_que
      refl)

Reach-IsSound_example : IsSound lent_one
Reach-IsSound_example = Reach-IsSound lent_one-Reach

-- Two more than at the beginning, all of them old.
abbrev many : ConnectionPool
many = record {
  connection_que = replicate 12 (record { id = 1; alivetime = 0 });
  connection_cnt = 12;
  lent = [];
  next_id = 20;
}

scan-IsScanned_example :
    (q : ConnectionPool) × (gone : List Connection) × (scan_connections 100000 many ≡ ok q)
    × IsScanned 10 100000 many q gone
scan-IsScanned_example = scan-IsScanned 100000 many refl (omega arith) (omega arith)

-- One old connection in the queue, and eleven with callers.
abbrev mostly_lent : ConnectionPool
mostly_lent = record {
  connection_que = record { id = 1; alivetime = 0 } ∷ [];
  connection_cnt = 12;
  lent = replicate 11 (record { id = 2; alivetime = 0 });
  next_id = 20;
}

scan_out_example : scan_connections 100000 mostly_lent ≡ halt out_of_bounds
scan_out_example = scan_out 100000 mostly_lent refl (refl, tt) (omega arith)
