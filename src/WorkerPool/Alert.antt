-- ===== src/WorkerPool/Alert.antt =====
-- Which workers of thread_pool/thread_pool.h are awake, asleep or gone.
use cpyu_ze.Base.{
  ℕ, zero, suc, ◌+◌, ◌<◌, ◌≡◌, refl, sym, ap, ◌∙◌, true, ◌⊎◌, inl, inr, List, [], ◌∷◌, ◌++◌, arith,
  length,
}
use native.Mathlib.Decide.{dec_lt}
use cpyu_ze.WorkerPool.{
  ResInfo, Worker, locking, testing, waiting, running, ended, Move, lock, take, finish, break_off,
  sleep, wake, System, Step, work, execute, notify_one, notify_none, shut_down, notify_every,
  notified, notify_all, none_waiting, all_locking, Reach, begin, later,
}
use cpyu_ze.WorkerPool.Count.{
  total, total-middle, total-notify_all, total-all_locking, is_waiting, has_ended, is_awake,
}

-- What holds of the numbers of awake, sleeping and ended workers, of the tasks in the queue and of
-- the notifications that are owed.
pub record IsAlert (n : ℕ) (s : System) (awake asleep gone : ℕ) : Type 0 where
  pub all : awake + asleep + gone ≡ n
  pub no_work : 0 < length s.info.tasks → (0 < awake) ⊎ (0 < s.owed_one)
  pub why_gone : 0 < gone → (s.info.is_shutdown ≡ true) × (length s.info.tasks ≡ 0)
  pub no_sleep : s.info.is_shutdown ≡ true → (asleep ≡ 0) ⊎ (s.owed_all ≡ true)

abbrev pub IsAlertSystem : ℕ → System → Type 0
IsAlertSystem n s =
    IsAlert n s (total is_awake s.workers) (total is_waiting s.workers) (total has_ended s.workers)

recounted :
    {n : ℕ} {s : System} {a b c a' b' c' : ℕ}
    → a ≡ a'
    → b ≡ b'
    → c ≡ c'
    → IsAlert n s a b c
    → IsAlert n s a' b' c'
recounted {n} {s} ea eb ec v = rw (← ea, ← eb, ← ec) v

Move-IsAlert :
    {n : ℕ} {s : System} {info : ResInfo} {w w' : Worker} (a b c : ℕ) (ws : List Worker)
    → Move s.info w info w'
    → IsAlert n s (a + is_awake w) (b + is_waiting w) (c + has_ended w)
    → IsAlert n
        (record s { info = info; workers = ws })
        (a + is_awake w')
        (b + is_waiting w')
        (c + has_ended w')
Move-IsAlert a b c ws (lock free) v = record {
  all = v.all;
  no_work = λ h. inl (omega arith);
  why_gone = v.why_gone;
  no_sleep = v.no_sleep;
}
Move-IsAlert {s} a b c ws (take e) v = record {
  all = v.all;
  no_work = λ h. inl (omega arith);
  why_gone = λ h. absurd (omega (arith, (v.why_gone h).1, ap length e));
  no_sleep = v.no_sleep;
}
Move-IsAlert a b c ws finish v = record {
  all = v.all;
  no_work = λ h. inl (omega arith);
  why_gone = v.why_gone;
  no_sleep = v.no_sleep;
}
Move-IsAlert a b c ws (break_off e on) v = record {
  all = omega (arith, v.all);
  no_work = λ h. absurd (omega (arith, h, ap length e));
  why_gone = λ h. (on, ap length e);
  no_sleep = v.no_sleep;
}
Move-IsAlert a b c ws (sleep e off) v = record {
  all = omega (arith, v.all);
  no_work = λ h. absurd (omega (arith, h, ap length e));
  why_gone = v.why_gone;
  no_sleep = λ on. absurd (cc (off, on));
}
Move-IsAlert a b c ws wake v = record {
  all = omega (arith, v.all);
  no_work = λ h. inl (omega arith);
  why_gone = v.why_gone;
  no_sleep = λ on. elim (v.no_sleep on) [
    | inl none_there ↦ absurd (omega (arith, none_there))
    | inr owed ↦ inr owed
  ];
}

-- A worker that was notified: it is awake in place of asleep.
woken :
    {n m : ℕ} {s : System} (a b c : ℕ) (ws : List Worker)
    → IsAlert n s (a + 0) (b + 1) (c + 0)
    → IsAlert n (record s { workers = ws; owed_one = m }) (a + 1) (b + 0) (c + 0)
woken a b c ws v = record {
  all = omega (arith, v.all);
  no_work = λ h. inl (omega arith);
  why_gone = v.why_gone;
  no_sleep = λ on. elim (v.no_sleep on) [
    | inl none_there ↦ absurd (omega (arith, none_there))
    | inr owed ↦ inr owed
  ];
}

none_asleep : (ws : List Worker) → none_waiting ws ≡ true → total is_waiting ws ≡ 0
none_asleep [] e = refl
none_asleep (waiting ∷ ws) e = cc
none_asleep (locking ∷ ws) e = omega (arith, none_asleep ws e)
none_asleep (testing ∷ ws) e = omega (arith, none_asleep ws e)
none_asleep (ended ∷ ws) e = omega (arith, none_asleep ws e)
none_asleep (running t ∷ ws) e = omega (arith, none_asleep ws e)

all_awake :
    (ws : List Worker) → total is_awake (notify_all ws) ≡ total is_awake ws + total is_waiting ws
all_awake [] = refl
all_awake (waiting ∷ ws) = omega (arith, all_awake ws)
all_awake (locking ∷ ws) = omega (arith, all_awake ws)
all_awake (testing ∷ ws) = omega (arith, all_awake ws)
all_awake (ended ∷ ws) = omega (arith, all_awake ws)
all_awake (running t ∷ ws) = omega (arith, all_awake ws)

still_ended : (w : Worker) → has_ended (notified w) ≡ has_ended w
still_ended locking = refl
still_ended testing = refl
still_ended waiting = refl
still_ended ended = refl
still_ended (running t) = refl

not_asleep : (w : Worker) → is_waiting (notified w) ≡ 0
not_asleep locking = refl
not_asleep testing = refl
not_asleep waiting = refl
not_asleep ended = refl
not_asleep (running t) = refl

zero_total : (ws : List Worker) → total (λ w. 0) ws ≡ 0
zero_total [] = refl
zero_total (w ∷ ws) = omega (arith, zero_total ws)

split :
    {n : ℕ} {s : System} (before after : List Worker) (w : Worker)
    → s.workers ≡ before ++ w ∷ after
    → IsAlertSystem n s
    → IsAlert n s
        (total is_awake (before ++ after) + is_awake w)
        (total is_waiting (before ++ after) + is_waiting w)
        (total has_ended (before ++ after) + has_ended w)
split before after w e v =
    recounted (ap (total is_awake) e ∙ total-middle is_awake before after w)
      (ap (total is_waiting) e ∙ total-middle is_waiting before after w)
      (ap (total has_ended) e ∙ total-middle has_ended before after w) v

joined :
    {n : ℕ} {s : System} (before after : List Worker) (w : Worker)
    → IsAlert n s
        (total is_awake (before ++ after) + is_awake w)
        (total is_waiting (before ++ after) + is_waiting w)
        (total has_ended (before ++ after) + has_ended w)
    → s.workers ≡ before ++ w ∷ after
    → IsAlertSystem n s
joined before after w v e =
    recounted (sym (ap (total is_awake) e ∙ total-middle is_awake before after w))
      (sym (ap (total is_waiting) e ∙ total-middle is_waiting before after w))
      (sym (ap (total has_ended) e ∙ total-middle has_ended before after w)) v

pub Step-IsAlert : {n : ℕ} {s t : System} → 0 < n → Step s t → IsAlertSystem n s → IsAlertSystem n t
Step-IsAlert some_worker (work before after {w} {w'} e move) v =
    joined before after w'
      (Move-IsAlert (total is_awake (before ++ after)) (total is_waiting (before ++ after))
        (total has_ended (before ++ after)) (before ++ w' ∷ after) move (split before after w e v))
      refl
Step-IsAlert {s} some_worker (execute t free still) v = record {
  all = v.all;
  no_work = λ h. inr (omega arith);
  why_gone = λ h. absurd (cc ((v.why_gone h).0, still));
  no_sleep = v.no_sleep;
}
Step-IsAlert some_worker (notify_one before after e there) v =
    joined before after locking
      (woken (total is_awake (before ++ after)) (total is_waiting (before ++ after))
        (total has_ended (before ++ after)) (before ++ locking ∷ after)
        (split before after waiting there v))
      refl
Step-IsAlert {s} some_worker (notify_none e none_there) v = record {
  all = v.all;
  no_work = λ h. elim (dec_lt 0 (total has_ended s.workers)) [
    | yes gone ↦ absurd (omega (arith, (v.why_gone gone).1, h))
    | no stay ↦ inl (omega (arith, v.all, none_asleep s.workers none_there))
  ];
  why_gone = v.why_gone;
  no_sleep = v.no_sleep;
}
Step-IsAlert {s} some_worker (shut_down free) v = record {
  all = v.all;
  no_work = v.no_work;
  why_gone = λ h. (refl, (v.why_gone h).1);
  no_sleep = λ on. inr refl;
}
Step-IsAlert {s} some_worker (notify_every e) v =
    let none_left : total is_waiting (notify_all s.workers) ≡ 0 =
      total-notify_all is_waiting (λ w. 0) not_asleep s.workers ∙ zero_total s.workers in
    let gone : total has_ended (notify_all s.workers) ≡ total has_ended s.workers =
      total-notify_all has_ended has_ended still_ended s.workers in
    record {
      all = omega (arith, v.all, all_awake s.workers, none_left, gone);
      no_work = λ h. elim (v.no_work h) [
        | inl some_awake ↦ inl (omega (arith, all_awake s.workers))
        | inr owed ↦ inr owed
      ];
      why_gone = λ h. v.why_gone (omega (arith, gone, h));
      no_sleep = λ on. inl none_left;
    }

all-locking : (n : ℕ) → total is_awake (all_locking n) ≡ n
all-locking zero = refl
all-locking (suc n) = omega (arith, all-locking n)

pub Reach-IsAlert : {n : ℕ} {s : System} → 0 < n → Reach n s → IsAlertSystem n s
Reach-IsAlert {n} some_worker begin = record {
  all = omega (
    arith,
    all-locking n,
    total-all_locking is_waiting refl n,
    total-all_locking has_ended refl n,
  );
  no_work = λ h. absurd (omega (arith, h));
  why_gone = λ h. absurd (omega (arith, h, total-all_locking has_ended refl n));
  no_sleep = λ on. cc;
}
Reach-IsAlert some_worker (later r st) = Step-IsAlert some_worker st (Reach-IsAlert some_worker r)
