-- ===== src/ConnectionPool/Sound.antt =====
-- What holds of the pool of connection/src/connection_pool.cpp in every order of its steps.
use cpyu_ze.Base.{
  ℕ, zero, suc, ◌+◌, ◌-◌, ◌≤◌, ◌<◌, ◌≡◌, refl, ap, subst, Bool, true, false, Bool-cases, inl, inr,
  List, [], ◌∷◌, ◌++◌, arith, ltb, ◌==◌, if◌then◌else◌, length, length-append, Outcome, ok, halt,
}
use cpyu_ze.ConnectionPool.{
  Connection, ConnectionPool, refresh_alivetime, init_size, max_size, add_connection, fill,
  connection_pool, produce_connection, is_expired, scan_rounds, scan_connections, Step,
  getconnection, time_out, give_back, produce, scan, Reach, begin, later,
}

-- How often a connection stands in a list.
abbrev pub uses : ℕ → List Connection → ℕ
uses k [] = 0
uses k (c ∷ cs) = (if c.id == k then 1 else 0) + uses k cs

uses-append : (k : ℕ) (a b : List Connection) → uses k (a ++ b) ≡ uses k a + uses k b
uses-append k [] b = omega arith
uses-append k (c ∷ a) b = omega (arith, uses-append k a b)

-- Every connection is counted, no more are there than the pool may have, and no connection stands in
-- two places, be it in the queue or with callers.
pub record IsSound (p : ConnectionPool) : Type 0 where
  pub counted : p.connection_cnt ≡ length p.connection_que + length p.lent
  pub bounded : p.connection_cnt ≤ max_size
  pub once : (k : ℕ) → uses k p.connection_que + uses k p.lent ≤ 1
  pub fresh : (k : ℕ) → p.next_id ≤ k → uses k p.connection_que + uses k p.lent ≡ 0

add_connection-IsSound :
    (connected : Bool) (now : ℕ) (p : ConnectionPool)
    → p.connection_cnt < max_size
    → IsSound p
    → IsSound (add_connection connected now p)
unfolding add_connection
add_connection-IsSound true now p room v =
    let new : Connection = record { id = p.next_id; alivetime = now } in
    record {
      counted = omega (arith, v.counted, length-append p.connection_que (new ∷ []));
      bounded = omega (arith, room);
      once = λ k. ground (arith, v.once k, v.fresh k, uses-append k p.connection_que (new ∷ []));
      fresh = λ k above. ground (arith, v.fresh k, uses-append k p.connection_que (new ∷ []));
    }
add_connection-IsSound false now p room v = record {
  counted = v.counted;
  bounded = v.bounded;
  once = v.once;
  fresh = λ k above. v.fresh k (omega (arith, above));
}

cnt-add_connection :
    (connected : Bool) (now : ℕ) (p : ConnectionPool)
    → (add_connection connected now p).connection_cnt ≤ p.connection_cnt + 1
unfolding add_connection
cnt-add_connection true now p = omega arith
cnt-add_connection false now p = omega arith

fill-IsSound :
    (connected : ℕ → Bool) (now rounds i : ℕ) (p : ConnectionPool)
    → p.connection_cnt + rounds ≤ max_size
    → IsSound p
    → IsSound (fill connected now rounds i p)
unfolding fill
fill-IsSound connected now zero i p room v = v
fill-IsSound connected now (suc rounds) i p room v =
    fill-IsSound connected now rounds (i + 1) (add_connection (connected i) now p)
      (omega (arith, cnt-add_connection (connected i) now p))
      (add_connection-IsSound (connected i) now p (omega arith) v)

-- If the code returns, its value has the property.
abbrev IfReturns : (ConnectionPool → Type 0) → Outcome ConnectionPool → Type 0
IfReturns P (ok q) = P q
IfReturns P (halt e) = Unit

without_front :
    (c : Connection) (cs : List Connection) (p : ConnectionPool)
    → IsSound (record p { connection_que = c ∷ cs })
    → IsSound (record p { connection_que = cs; connection_cnt = p.connection_cnt - 1 })
without_front c cs p v = record {
  counted = omega (arith, v.counted);
  bounded = omega (arith, v.bounded);
  once = λ k. omega (arith, v.once k);
  fresh = λ k above. omega (arith, v.fresh k above);
}

scan_rounds-IsSound :
    (rounds now : ℕ) (que : List Connection) (p : ConnectionPool)
    → IsSound (record p { connection_que = que })
    → IfReturns IsSound (scan_rounds rounds now que p)
unfolding scan_rounds
scan_rounds-IsSound zero now que p v = v
scan_rounds-IsSound (suc rounds) now [] p v = tt
scan_rounds-IsSound (suc rounds) now (c ∷ cs) p v = elim (Bool-cases (is_expired now c)) [
  | inl old ↦ rw old (
      scan_rounds-IsSound rounds now cs (record p { connection_cnt = p.connection_cnt - 1 })
        (without_front c cs p v))
  | inr young ↦ rw young v
]

lent_out :
    (p : ConnectionPool) (c : Connection) (cs : List Connection)
    → p.connection_que ≡ c ∷ cs
    → IsSound p
    → IsSound (record p { connection_que = cs; lent = c ∷ p.lent })
lent_out p c cs e v = record {
  counted = omega (arith, v.counted, ap length e);
  bounded = v.bounded;
  once = λ k. omega (arith, v.once k, ap (uses k) e);
  fresh = λ k above. omega (arith, v.fresh k above, ap (uses k) e);
}

given_back :
    (p : ConnectionPool) (now : ℕ) (before after : List Connection) (c : Connection)
    → p.lent ≡ before ++ c ∷ after
    → IsSound p
    → IsSound (record p {
      connection_que = p.connection_que ++ refresh_alivetime now c ∷ [];
      lent = before ++ after;
    })
given_back p now before after c e v =
    let used : (k : ℕ)
        → uses k (p.connection_que ++ refresh_alivetime now c ∷ []) + uses k (before ++ after)
          ≡ uses k p.connection_que + uses k p.lent =
      λ k. omega (
        arith,
        ap (uses k) e,
        uses-append k p.connection_que (refresh_alivetime now c ∷ []),
        uses-append k before (c ∷ after),
        uses-append k before after,
      ) in
    record {
      counted = omega (
        arith,
        v.counted,
        ap length e,
        length-append p.connection_que (refresh_alivetime now c ∷ []),
        length-append before (c ∷ after),
        length-append before after,
      );
      bounded = v.bounded;
      once = λ k. omega (arith, used k, v.once k);
      fresh = λ k above. omega (arith, used k, v.fresh k above);
    }

produced :
    (connected : Bool) (now : ℕ) (p : ConnectionPool)
    → IsSound p
    → IsSound (produce_connection connected now p)
unfolding produce_connection
produced connected now p v = elim (Bool-cases (ltb p.connection_cnt max_size)) [
  | inl room ↦ rw room (add_connection-IsSound connected now p (ground (arith, room)) v)
  | inr full ↦ rw full v
]

pub Step-IsSound : {p q : ConnectionPool} → Step p q → IsSound p → IsSound q
unfolding scan_connections
Step-IsSound {p} (getconnection c cs e) v = lent_out p c cs e v
Step-IsSound (time_out e) v = v
Step-IsSound {p} (give_back now before after c e) v = given_back p now before after c e v
Step-IsSound {p} (produce connected now e) v = produced connected now p v
Step-IsSound {p} (scan now e) v =
    subst (IfReturns IsSound) e
      (scan_rounds-IsSound (p.connection_cnt - init_size) now p.connection_que p v)

-- In every reachable state the counter is the number of connections in the queue and with callers,
-- it is at most 1024, and no connection is in two places, so that none is lent to two callers.
pub Reach-IsSound : {p : ConnectionPool} → Reach p → IsSound p
unfolding connection_pool
Reach-IsSound (begin connected now) =
    fill-IsSound connected now init_size 0
      (record { connection_que = []; connection_cnt = 0; lent = []; next_id = 0 }) (omega arith)
      (record {
        counted = refl;
        bounded = omega arith;
        once = λ k. omega arith;
        fresh = λ k above. refl;
      })
Reach-IsSound (later r st) = Step-IsSound st (Reach-IsSound r)
