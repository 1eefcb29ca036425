-- ===== src/Session/Echo.antt =====
-- What a session of asio_server/server.h sends back, and where it reads behind its buffer.
use cpyu_ze.Base.{
  ℕ, ◌≤◌, ◌≡◌, refl, sym, ap, ◌∙◌, subst, Option, List, [], ◌∷◌, ◌++◌, arith, ◌==◌, if◌then◌else◌,
  length, take, drop, drop_all, take-length, length-append, length-drop, length-replicate,
  append_assoc, append-nil, ok, halt, out_of_bounds, bind_ok,
}
use cpyu_ze.Buffer.{strlen}
use cpyu_ze.Buffer.Append.{AllNonzero, strlen_lem}
use cpyu_ze.Session.{
  buf_size, Pending, reading, writing, gone, Session, ip_or_some, on_read, Step, reads, writes,
  fails, Reach, begin, later,
}

-- What was received was sent back or is on its way, as far as the session has got.
abbrev pub IsEcho : Session → Pending → Type 0
IsEcho s gone = (rest : List ℕ) × (s.received ≡ s.echoed ++ rest)
IsEcho s reading = s.received ≡ s.echoed
IsEcho s (writing size) = s.received ≡ s.echoed ++ take size s.buffer

pub record IsSession (s : Session) : Type 0 where
  pub sized : length s.buffer ≡ buf_size
  pub echo : IsEcho s s.pending

strlen_out : (text : List ℕ) → AllNonzero text → strlen text ≡ halt out_of_bounds
unfolding strlen
strlen_out [] plain = refl
strlen_out (c ∷ cs) plain = ground (arith, strlen_out cs plain.1, plain.0)

failed-IsEcho : (s : Session) (pending : Pending) → IsEcho s pending → IsEcho s gone
failed-IsEcho s gone echo = echo
failed-IsEcho s reading echo = ([], echo ∙ sym (append-nil s.echoed))
failed-IsEcho s (writing size) echo = (take size s.buffer, echo)

filled-length :
    (bytes buffer : List ℕ)
    → length buffer ≡ buf_size
    → length bytes ≤ buf_size
    → length (bytes ++ drop (length bytes) buffer) ≡ buf_size
filled-length bytes buffer sized room = omega (
  arith,
  sized,
  room,
  length-append bytes (drop (length bytes) buffer),
  length-drop (length bytes) buffer,
)

module _ (pp_parse_hdr : List ℕ → Option (List ℕ)) where
  on_read-IsSession :
      (bytes : List ℕ) (s t : Session)
      → s.pending ≡ reading
      → length bytes ≤ buf_size
      → on_read pp_parse_hdr bytes s ≡ ok t
      → IsSession s
      → IsSession t
  unfolding on_read
  on_read-IsSession bytes s t e room done v =
      let (size, got, last) = bind_ok (strlen (bytes ++ drop (length bytes) s.buffer)) _ t done in
      let idle : s.received ≡ s.echoed = subst (IsEcho s) e v.echo in
      let filled : List ℕ = bytes ++ drop (length bytes) s.buffer in
      let after : Session = record s {
        buffer = filled;
        client_ip =
            if length s.client_ip == 0
            then ip_or_some (pp_parse_hdr (take size filled))
            else s.client_ip;
        pending = writing (length bytes);
        received = s.received ++ bytes;
      } in
      let same : after ≡ t = cc last in
      subst IsSession same (record {
        sized = filled-length bytes s.buffer v.sized room;
        echo =
            ap (λ l. l ++ bytes) idle
            ∙ ap (λ l. s.echoed ++ l) (sym (take-length bytes (drop (length bytes) s.buffer)));
      })

  Step-IsSession : {s t : Session} → Step pp_parse_hdr s t → IsSession s → IsSession t
  Step-IsSession {s} {t} (reads bytes e room done) v = on_read-IsSession bytes s t e room done v
  Step-IsSession {s} (writes size e) v = record {
    sized = v.sized;
    echo = subst (IsEcho s) e v.echo;
  }
  Step-IsSession {s} fails v = record { sized = v.sized; echo = failed-IsEcho s s.pending v.echo }

  -- In every reachable state the session has sent back what it received, in order, up to the one block
  -- that is on its way or was lost to an error, and its buffer has 1024 bytes.
  pub Reach-IsSession : {s : Session} → Reach pp_parse_hdr s → IsSession s
  Reach-IsSession begin = record { sized = length-replicate {A = ℕ} 1024 0; echo = refl }
  Reach-IsSession (later r st) = Step-IsSession st (Reach-IsSession r)

  -- In every reachable state, a read that fills the buffer with bytes other than NUL makes the session
  -- read behind its buffer, which it takes for a string.
  pub on_read_full :
      {s : Session} (bytes : List ℕ)
      → Reach pp_parse_hdr s
      → AllNonzero bytes
      → length bytes ≡ buf_size
      → on_read pp_parse_hdr bytes s ≡ halt out_of_bounds
  unfolding on_read
  on_read_full {s} bytes reached plain full =
      let v = Reach-IsSession reached in
      let none_left : drop (length bytes) s.buffer ≡ [] =
        drop_all (length bytes) s.buffer (omega (arith, full, v.sized)) in
      rw (none_left, append-nil bytes, strlen_out bytes plain)

  -- A session that knows no address yet looks for a header only in what stands in front of the first NUL
  -- that it receives, whatever comes behind it: then the read returns, and its block goes back as a whole.
  pub on_read-strlen :
      (text behind : List ℕ) (s : Session)
      → s.client_ip ≡ []
      → AllNonzero text
      → (t : Session) × (on_read pp_parse_hdr (text ++ 0 ∷ behind) s ≡ ok t)
        × (t.client_ip ≡ ip_or_some (pp_parse_hdr text))
        × (t.pending ≡ writing (length (text ++ 0 ∷ behind)))
        × (t.received ≡ s.received ++ (text ++ 0 ∷ behind))
  unfolding on_read
  on_read-strlen text behind s unknown plain =
      let bytes : List ℕ = text ++ 0 ∷ behind in
      let rest : List ℕ = drop (length bytes) s.buffer in
      let split : bytes ++ rest ≡ text ++ 0 ∷ (behind ++ rest) =
        append_assoc text (0 ∷ behind) rest in
      let size : strlen (bytes ++ rest) ≡ ok (length text) =
        ap strlen split ∙ strlen_lem text (behind ++ rest) plain in
      let seen : take (length text) (bytes ++ rest) ≡ text =
        ap (take (length text)) split ∙ take-length text (0 ∷ (behind ++ rest)) in
      (
        record s {
          buffer = bytes ++ rest;
          client_ip = ip_or_some (pp_parse_hdr text);
          pending = writing (length bytes);
          received = s.received ++ bytes;
        },
        rw (size, seen, unknown),
        refl,
        refl,
        refl,
      )
