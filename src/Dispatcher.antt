-- ===== src/Dispatcher.antt =====
-- test_epoll/lib/event_dispatcher.h: the interface between an event loop and a poller.
-- `struct event_dispatcher` is a record of functions over the poller's own data `D`. What the
-- loop relies on is `Contract`: a poller keeps, for each descriptor, what is asked of it.
use cpyu_ze.Base.{
  ℕ, ◌+◌, ◌<◌, ◌≡◌, Bool, false, Option, none, some, if◌then◌else◌, ℤ, pos, is_negative, eq_ℤ,
  Outcome, ok,
}
use cpyu_ze.Channel.{Channel, has_event, event_read, event_write}

-- The operations that change the poller's data; the `int` is what they return.
pub record Dispatcher (D : Type 0) : Type 0 where
  pub init : Outcome D
  pub add : D → Channel → Outcome (ℤ × D)
  pub del : D → Channel → Outcome (ℤ × D)
  pub update : D → Channel → Outcome (ℤ × D)

-- What a poller is asked to report of a descriptor.
pub record Interest : Type 0 where
  pub reads : Bool
  pub writes : Bool

-- The interest of a channel, from its `events`.
abbrev pub interest : Channel → Interest
interest c = record {
  reads = has_event event_read c.events;
  writes = has_event event_write c.events;
}

-- `g` looked up after `fd` was given the value `v`.
abbrev pub updated {ℓ} : {A : Type ℓ} → ℤ → A → (ℤ → A) → ℤ → A
updated fd v old g = if eq_ℤ fd g then v else old g

-- A call of `del` or `update` on a registered descriptor, and one of `add` on a new one while
-- there is room, returns 0 and changes that descriptor alone. `free` is how many more fit in.
pub record Contract {D : Type 0} (ops : Dispatcher D) : Type 1 where
  pub Valid : D → Type 0
  pub free : D → ℕ
  pub registered : D → ℤ → Option Interest
  pub add_lem :
      (d : D) (c : Channel)
      → Valid d
      → 0 < free d
      → is_negative c.fd ≡ false
      → registered d c.fd ≡ none
      → (d' : D) × (ops.add d c ≡ ok (pos 0, d'))
        × Valid d'
        × (free d' + 1 ≡ free d)
        × ((g : ℤ) → registered d' g ≡ updated c.fd (some (interest c)) (registered d) g)
  pub del_lem :
      (d : D) (c : Channel) (i : Interest)
      → Valid d
      → registered d c.fd ≡ some i
      → (d' : D) × (ops.del d c ≡ ok (pos 0, d'))
        × Valid d'
        × (free d' ≡ free d + 1)
        × ((g : ℤ) → registered d' g ≡ updated c.fd none (registered d) g)
  pub update_lem :
      (d : D) (c : Channel) (i : Interest)
      → Valid d
      → registered d c.fd ≡ some i
      → (d' : D) × (ops.update d c ≡ ok (pos 0, d'))
        × Valid d'
        × (free d' ≡ free d)
        × ((g : ℤ) → registered d' g ≡ updated c.fd (some (interest c)) (registered d) g)
