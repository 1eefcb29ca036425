-- ===== src/Session.antt =====
-- asio_server/server.h: `Session`, a connection that sends back what it receives.
-- What `pp_parse_hdr` makes of a header is a parameter: the source address, if there is one. What
-- `async_read_some` and `async_write` complete with is an argument. Output is left out. `received` and
-- `echoed` record the past and are read by no step.
pub mod Echo
use cpyu_ze.Base.{
  ℕ, ◌≤◌, ◌≡◌, Option, none, some, List, [], ◌∷◌, ◌++◌, if◌then◌else◌, length, take, drop,
  replicate, codes, ◌==◌, Outcome, ok, ◌>>=◌,
}
use cpyu_ze.Buffer.{strlen}

-- `BUF_SIZE`
abbrev pub buf_size : ℕ
buf_size = 1024

-- The operation that the session waits for; after an error there is none, and it is destroyed.
pub data Pending : Type 0 where
  reading : Pending
  writing : ℕ → Pending
  gone : Pending

pub record Session : Type 0 where
  pub buffer : List ℕ
  pub client_ip : List ℕ
  pub pending : Pending
  pub received : List ℕ
  pub echoed : List ℕ

-- A new session behind `Start`.
abbrev pub start : Session
start = record {
  buffer = replicate 1024 0;
  client_ip = [];
  pending = reading;
  received = [];
  echoed = [];
}

-- The address that is kept for what `pp_parse_hdr` found.
abbrev pub ip_or_some : Option (List ℕ) → List ℕ
ip_or_some none = codes "some ip"
ip_or_some (some []) = codes "some ip"
ip_or_some (some (c ∷ cs)) = c ∷ cs

module _ (pp_parse_hdr : List ℕ → Option (List ℕ)) where
  -- `OnRead` without an error, on the bytes that were read to the start of the buffer. The buffer is
  -- taken for a string, by `strlen` or by the output.
  unfoldable pub on_read : List ℕ → Session → Outcome Session
  on_read bytes s = do
    let filled = bytes ++ drop (length bytes) s.buffer
    size ← strlen filled
    let first = ip_or_some (pp_parse_hdr (take size filled))
    ok (record s {
      buffer = filled;
      client_ip = if length s.client_ip == 0 then first else s.client_ip;
      pending = writing (length bytes);
      received = s.received ++ bytes;
    })

  -- `OnWrite` without an error, after so many bytes of the buffer.
  abbrev pub on_write : ℕ → Session → Session
  on_write size s = record s { pending = reading; echoed = s.echoed ++ take size s.buffer }

  -- The completion of the operation that the session waits for, or an error of it.
  pub data Step (s : Session) : Session → Type 0 where
    reads :
        {t : Session} (bytes : List ℕ)
        → s.pending ≡ reading
        → length bytes ≤ buf_size
        → on_read bytes s ≡ ok t
        → Step s t
    writes : (size : ℕ) → s.pending ≡ writing size → Step s (on_write size s)
    fails : Step s (record s { pending = gone })

  pub data Reach : Session → Type 0 where
    begin : Reach start
    later : {s t : Session} → Reach s → Step s t → Reach t
