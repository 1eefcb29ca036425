-- ===== src/Tests/Sessions.antt =====
-- Runs of the session of asio_server/server.h.
use cpyu_ze.Base.{
  ℕ, zero, suc, ◌≡◌, refl, Option, none, some, List, ◌∷◌, ◌++◌, arith, length, length-replicate,
  replicate, codes, ◌==◌, if◌then◌else◌, ok, halt, out_of_bounds,
}
use cpyu_ze.Buffer.Append.{AllNonzero}
use cpyu_ze.HttpResponse.Strings.{nonzero-AllNonzero}
use cpyu_ze.Session.{Session, start, writing, on_read, on_write, Reach, begin, later, reads, writes}
use cpyu_ze.Session.Echo.{IsSession, Reach-IsSession, on_read_full, on_read-strlen}

-- A header is a text of two bytes here.
abbrev two_bytes : List ℕ → Option (List ℕ)
two_bytes text = if length text == 2 then some (codes "10.0.0.1") else none

on_read-strlen_example :
    (t : Session) × (on_read two_bytes (codes "hi" ++ 0 ∷ codes "more") start ≡ ok t)
    × (t.client_ip ≡ codes "10.0.0.1")
    × (t.pending ≡ writing 7)
    × (t.received ≡ codes "hi" ++ 0 ∷ codes "more")
on_read-strlen_example =
    on_read-strlen two_bytes (codes "hi") (codes "more") start refl
      (nonzero-AllNonzero (codes "hi") refl)

abbrev read_once :
    (t : Session) × (on_read two_bytes (codes "hi" ++ 0 ∷ codes "more") start ≡ ok t)
    × (t.client_ip ≡ codes "10.0.0.1")
    × (t.pending ≡ writing 7)
    × (t.received ≡ codes "hi" ++ 0 ∷ codes "more")
read_once =
    on_read-strlen two_bytes (codes "hi") (codes "more") start refl
      (nonzero-AllNonzero (codes "hi") refl)

echoed_once : Reach two_bytes (on_write two_bytes 7 read_once.0)
echoed_once =
    later (later begin (reads (codes "hi" ++ 0 ∷ codes "more") refl (omega arith) read_once.1))
      (writes 7 read_once.3)

Reach-IsSession_example : IsSession (on_write two_bytes 7 read_once.0)
Reach-IsSession_example = Reach-IsSession two_bytes echoed_once

sevens : (n : ℕ) → AllNonzero (replicate n 7)
sevens zero = tt
sevens (suc n) = ((λ e. omega (arith, e)), sevens n)

on_read_full_example : on_read two_bytes (replicate 1024 7) start ≡ halt out_of_bounds
on_read_full_example =
    on_read_full two_bytes (replicate 1024 7) begin (sevens 1024) (length-replicate {A = ℕ} 1024 7)
