-- ===== src/ConnectionPool.antt =====
-- connection/src/connection_pool.h, connection_pool.cpp and the clock of connection.cpp: a pool of
-- connections to a database, with a thread that makes new ones and one that takes idle ones away.
-- A connection is a number, given when it is made, and the time of its last `refresh_alivetime`.
-- Whether `connect` succeeds and what `clock` returns are arguments. Every section under
-- `_queue_mutex` is one step, so that the waits on `_cv` are the steps' conditions. `lent`, the
-- connections that callers hold, and `next_id` stand for the heap and are read by no operation.
pub mod Sound
pub mod Scan
use cpyu_ze.Base.{
  ℕ, zero, suc, ◌+◌, ◌-◌, ◌*◌, ◌≡◌, Bool, List, [], ◌∷◌, ◌++◌, ltb, if◌then◌else◌, Outcome, ok,
  halt, out_of_bounds,
}

pub record Connection : Type 0 where
  pub id : ℕ
  pub alivetime : ℕ

-- `refresh_alivetime` and `get_alivetime`, at the time `now`.
abbrev pub refresh_alivetime : ℕ → Connection → Connection
refresh_alivetime now c = record c { alivetime = now }

abbrev pub get_alivetime : ℕ → Connection → ℕ
get_alivetime now c = now - c.alivetime

abbrev pub init_size : ℕ
init_size = 10

abbrev pub max_size : ℕ
max_size = 1024

abbrev pub max_idle_time : ℕ
max_idle_time = 60

pub record ConnectionPool : Type 0 where
  pub connection_que : List Connection
  pub connection_cnt : ℕ
  pub lent : List Connection
  pub next_id : ℕ

-- `new connection()`, pushed if `connect` succeeded; otherwise it is lost.
unfoldable pub add_connection : Bool → ℕ → ConnectionPool → ConnectionPool
add_connection connected now p =
    if connected
    then record p {
      connection_que = p.connection_que ++ record { id = p.next_id; alivetime = now } ∷ [];
      connection_cnt = p.connection_cnt + 1;
      next_id = p.next_id + 1;
    }
    else record p { next_id = p.next_id + 1 }

-- The loop of the constructor; `connected` is the result of `connect` by the number of the round.
unfoldable pub fill : (ℕ → Bool) → ℕ → ℕ → ℕ → ConnectionPool → ConnectionPool
fill connected now zero i p = p
fill connected now (suc rounds) i p =
    fill connected now rounds (i + 1) (add_connection (connected i) now p)

-- The constructor; `load_config_file` always returns true.
unfoldable pub connection_pool : (ℕ → Bool) → ℕ → ConnectionPool
connection_pool connected now =
    fill connected now init_size 0
      (record { connection_que = []; connection_cnt = 0; lent = []; next_id = 0 })

-- `produce_connection_task`, one round behind its wait for an empty queue.
unfoldable pub produce_connection : Bool → ℕ → ConnectionPool → ConnectionPool
produce_connection connected now p =
    if ltb p.connection_cnt max_size then add_connection connected now p else p

-- The test of `scan_connection_task`.
abbrev pub is_expired : ℕ → Connection → Bool
is_expired now c = ltb (1000 * max_idle_time) (get_alivetime now c)

-- The loop `while(_connection_cnt > _init_size)`, in which each round takes one away from
-- `_connection_cnt`. `front` of an empty queue is undefined.
scan_rounds : ℕ → ℕ → List Connection → ConnectionPool → Outcome ConnectionPool
scan_rounds zero now que p = ok (record p { connection_que = que })
scan_rounds (suc rounds) now [] p = halt out_of_bounds
scan_rounds (suc rounds) now (c ∷ cs) p =
    let more = scan_rounds rounds now cs (record p { connection_cnt = p.connection_cnt - 1 }) in
    if is_expired now c then more else ok (record p { connection_que = c ∷ cs })

-- `scan_connection_task`, one round behind its sleep.
unfoldable pub scan_connections : ℕ → ConnectionPool → Outcome ConnectionPool
unfolding scan_rounds
scan_connections now p = scan_rounds (p.connection_cnt - init_size) now p.connection_que p

-- A step of a caller of `getconnection`, of the deleter of a `shared_ptr` that it returned, or of one
-- of the two threads. A wait that times out on an empty queue returns `nullptr` and changes nothing.
pub data Step (p : ConnectionPool) : ConnectionPool → Type 0 where
  getconnection :
      (c : Connection) (cs : List Connection)
      → p.connection_que ≡ c ∷ cs
      → Step p (record p { connection_que = cs; lent = c ∷ p.lent })
  time_out : p.connection_que ≡ [] → Step p p
  give_back :
      (now : ℕ) (before after : List Connection) (c : Connection)
      → p.lent ≡ before ++ c ∷ after
      → Step p (record p {
        connection_que = p.connection_que ++ refresh_alivetime now c ∷ [];
        lent = before ++ after;
      })
  produce :
      (connected : Bool) (now : ℕ)
      → p.connection_que ≡ []
      → Step p (produce_connection connected now p)
  scan : (now : ℕ) {q : ConnectionPool} → scan_connections now p ≡ ok q → Step p q

pub data Reach : ConnectionPool → Type 0 where
  begin : (connected : ℕ → Bool) (now : ℕ) → Reach (connection_pool connected now)
  later : {p q : ConnectionPool} → Reach p → Step p q → Reach q
