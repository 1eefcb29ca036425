-- ===== src/BlockingQueue/Order.antt =====
-- What the threads get out of the queue of for_cpp_basis/include/t_blocking_queue.h.
use cpyu_ze.Base.{
  ◌≤◌, ◌<◌, ◌≡◌, refl, sym, ap, ◌∙◌, [], ◌∷◌, ◌++◌, append_assoc, arith, length, length-append,
}
use cpyu_ze.BlockingQueue.{
  BlockingQueue, Step, push_wakes, push_alone, calls_get, gets, waits, wakes, Reach, begin, later,
}

-- Everything that was pushed was got in the same order or is in the queue, and while a thread waits no
-- more is in the queue than there are threads on the way to it.
pub record IsServed (q : BlockingQueue) : Type 0 where
  pub in_order : q.pushed ≡ q.got ++ q.queue
  pub woken : 0 < q.asleep → length q.queue ≤ q.awake

Step-IsServed : {q r : BlockingQueue} → Step q r → IsServed q → IsServed r
Step-IsServed {q} (push_wakes x e) v = record {
  in_order = ap (λ l. l ++ x ∷ []) v.in_order ∙ append_assoc q.got q.queue (x ∷ []);
  woken = λ some_asleep. omega (arith, v.woken (omega (arith, e)), length-append q.queue (x ∷ []));
}
Step-IsServed {q} (push_alone x e) v = record {
  in_order = ap (λ l. l ++ x ∷ []) v.in_order ∙ append_assoc q.got q.queue (x ∷ []);
  woken = λ some_asleep. absurd (omega (arith, some_asleep));
}
Step-IsServed calls_get v = record {
  in_order = v.in_order;
  woken = λ some_asleep. omega (arith, v.woken some_asleep);
}
Step-IsServed {q} (gets {x} {n} {xs} e f) v = record {
  in_order = v.in_order ∙ ap (λ l. q.got ++ l) e ∙ sym (append_assoc q.got (x ∷ []) xs);
  woken = λ some_asleep. omega (arith, v.woken some_asleep, ap length e, f);
}
Step-IsServed (waits e f) v = record {
  in_order = v.in_order;
  woken = λ some_asleep. omega (arith, ap length e);
}
Step-IsServed (wakes e) v = record {
  in_order = v.in_order;
  woken = λ some_asleep. omega (arith, v.woken (omega (arith, e)));
}

-- In every reachable state, whatever the threads do, what was got and what is in the queue is what was
-- pushed, in its order and each once; and while a thread waits in `Get`, no more elements are in the
-- queue than there are threads awake in `Get`, so that no wakeup is lost.
pub Reach-IsServed : {q : BlockingQueue} → Reach q → IsServed q
Reach-IsServed begin = record {
  in_order = refl;
  woken = λ some_asleep. absurd (omega (arith, some_asleep));
}
Reach-IsServed (later r st) = Step-IsServed st (Reach-IsServed r)
