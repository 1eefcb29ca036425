-- ===== src/ConnectionPool/Scan.antt =====
-- scan_connection_task of connection/src/connection_pool.cpp: what it takes away, and where it reads
-- the front of an empty queue.
use cpyu_ze.Base.{
  ℕ, zero, suc, ◌+◌, ◌-◌, ◌≤◌, ◌<◌, ◌≡◌, ◌⊎◌, refl, ap, true, false, Bool-cases, inl, inr, List, [],
  ◌∷◌, ◌++◌, arith, length, ok, halt, out_of_bounds,
}
use cpyu_ze.ConnectionPool.{
  Connection, ConnectionPool, init_size, is_expired, scan_rounds, scan_connections,
}

abbrev pub AllExpired : ℕ → List Connection → Type 0
AllExpired now [] = Unit
AllExpired now (c ∷ cs) = (is_expired now c ≡ true) × AllExpired now cs

-- Does the first of the queue stay?
abbrev pub FrontIsYoung : ℕ → List Connection → Type 0
FrontIsYoung now [] = ⊥
FrontIsYoung now (c ∷ cs) = is_expired now c ≡ false

-- `gone` was taken off the front of the queue and from the counter, all of it expired, until a
-- connection was young or the counter was down to `floor`.
pub record IsScanned (floor now : ℕ) (p q : ConnectionPool) (gone : List Connection) : Type 0 where
  pub split : p.connection_que ≡ gone ++ q.connection_que
  pub expired : AllExpired now gone
  pub counted : q.connection_cnt + length gone ≡ p.connection_cnt
  pub lent_same : q.lent ≡ p.lent
  pub until : (q.connection_cnt ≡ floor) ⊎ FrontIsYoung now q.connection_que

scan_rounds-IsScanned :
    (floor rounds now : ℕ) (que : List Connection) (p : ConnectionPool)
    → p.connection_cnt ≡ floor + rounds
    → rounds ≤ length que
    → (q : ConnectionPool) × (gone : List Connection) × (scan_rounds rounds now que p ≡ ok q)
      × IsScanned floor now (record p { connection_que = que }) q gone
unfolding scan_rounds
scan_rounds-IsScanned floor zero now que p count room = (
  record p { connection_que = que },
  [],
  refl,
  record {
    split = refl;
    expired = tt;
    counted = omega arith;
    lent_same = refl;
    until = inl (omega arith);
  },
)
scan_rounds-IsScanned floor (suc rounds) now [] p count room = absurd (omega (arith, room))
scan_rounds-IsScanned floor (suc rounds) now (c ∷ cs) p count room =
    elim (Bool-cases (is_expired now c)) [
      | inr young ↦ (
        record p { connection_que = c ∷ cs },
        [],
        rw young refl,
        record {
          split = refl;
          expired = tt;
          counted = omega arith;
          lent_same = refl;
          until = inr young;
        },
      )
      | inl old ↦
          (let (q, gone, done, v) =
              scan_rounds-IsScanned floor rounds now cs
                (record p { connection_cnt = p.connection_cnt - 1 }) (omega (arith, count))
                (omega (arith, room)) in
            (
              q,
              c ∷ gone,
              rw old done,
              record {
                split = ap (◌∷◌ c) v.split;
                expired = (old, v.expired);
                counted = omega (arith, v.counted, count);
                lent_same = v.lent_same;
                until = v.until;
              },
            ))
    ]

-- While no more connections are lent than the pool begins with, the scan returns: it takes expired
-- connections off the front of the queue, one from the counter for each, and stops at the first that
-- is not expired, or when the counter is down to the initial number.
pub scan-IsScanned :
    (now : ℕ) (p : ConnectionPool)
    → p.connection_cnt ≡ length p.connection_que + length p.lent
    → length p.lent ≤ init_size
    → init_size ≤ p.connection_cnt
    → (q : ConnectionPool) × (gone : List Connection) × (scan_connections now p ≡ ok q)
      × IsScanned init_size now p q gone
unfolding scan_connections
scan-IsScanned now p counted few enough =
    scan_rounds-IsScanned init_size (p.connection_cnt - init_size) now p.connection_que p
      (omega (arith, enough)) (omega (arith, counted, few))

scan_rounds_out :
    (rounds now : ℕ) (que : List Connection) (p : ConnectionPool)
    → AllExpired now que
    → length que < rounds
    → scan_rounds rounds now que p ≡ halt out_of_bounds
unfolding scan_rounds
scan_rounds_out zero now que p old more = absurd (omega (arith, more))
scan_rounds_out (suc rounds) now [] p old more = refl
scan_rounds_out (suc rounds) now (c ∷ cs) p old more = rw (old.0) (
    scan_rounds_out rounds now cs (record p { connection_cnt = p.connection_cnt - 1 }) old.1
      (omega (arith, more)))

-- With more connections lent than the pool begins with, and none in the queue but expired ones, the
-- scan comes to read the front of the empty queue.
pub scan_out :
    (now : ℕ) (p : ConnectionPool)
    → p.connection_cnt ≡ length p.connection_que + length p.lent
    → AllExpired now p.connection_que
    → init_size < length p.lent
    → scan_connections now p ≡ halt out_of_bounds
unfolding scan_connections
scan_out now p counted old many =
    scan_rounds_out (p.connection_cnt - init_size) now p.connection_que p old
      (omega (arith, counted, many))
