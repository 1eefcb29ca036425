-- ===== src/EventLoop/Pending.antt =====
-- The queue of changes of test_epoll/lib/event_loop.c, against a map that is changed at once.
use mathlib.Core.Path.{fun_ext}
use cpyu_ze.Base.{
  ℕ, ◌+◌, ◌^◌, ◌≤◌, ◌<◌, ◌≡◌, ◌⊎◌, refl, sym, ap, ◌∙◌, subst, Bool, true, false, Option, none, some,
  List, [], ◌∷◌, arith, ◌==◌, if◌then◌else◌, ℤ, pos, ok, Option-cases, inl, inr, ==_iff,
}
use cpyu_ze.Channel.{Channel, Store}
use cpyu_ze.ChannelMap.{entry}
use cpyu_ze.Dispatcher.{Dispatcher, Contract, Interest, interest, updated}
use cpyu_ze.EventLoop.{
  EventLoop, ChannelElement, handle_element, handle_elements, event_loop_handle_pending_channel,
}
use cpyu_ze.EventLoop.Handlers.{
  AllFits, LoopInv, pending_add-Changed, pending_add_again, pending_remove-Changed,
  pending_update-Changed,
}

-- The abstract map: the channel of each descriptor.
abbrev pub View : Type 0
View = ℕ → Option ℕ

abbrev pub view : {D : Type 0} → EventLoop D → View
view l = entry l.channel_map

abbrev pub or_else : Option ℕ → Option ℕ → Option ℕ
or_else none b = b
or_else (some a) b = some a

-- What a change means for the map: add keeps a channel that is there, and update changes none.
unfoldable pub apply_at : View → ℕ → ChannelElement → View
apply_at a fd e i =
    if i == fd
    then (if e.type == 1 then or_else (a i) (some e.channel) else if e.type == 2 then none else a i)
    else a i

-- What the poller is asked to report of each descriptor.
abbrev pub Wants : Type 0
Wants = ℤ → Option Interest

-- For a descriptor with a channel, what was; for one without, what is new.
abbrev pub unless_there : Option ℕ → Option Interest → Option Interest → Option Interest
unless_there none new was = new
unless_there (some q) new was = was

-- What a change means for the poller, with the channel that stands at its address: add asks for a channel
-- that is not in the map, and update asks anew.
unfoldable pub want_at : View → ℕ → ChannelElement → Channel → Wants → Wants
want_at a fd e c was g =
    if e.type == 1
    then unless_there (a fd) (updated (pos fd) (some (interest c)) was g) (was g)
    else if e.type == 2
    then updated (pos fd) none was g
    else updated (pos fd) (some (interest c)) was g

module _ (store : Store) where
  -- A change that the program may ask for: its channel is in memory, and only a descriptor in use
  -- is removed or updated.
  pub record IsLegal (a : View) (e : ChannelElement) (fd : ℕ) : Type 0 where
    pub channel : Channel
    pub there : store e.channel ≡ some channel
    pub at : channel.fd ≡ pos fd
    pub small : fd < 2 ^ 27
    pub kind : (e.type ≡ 1) ⊎ (((e.type ≡ 2) ⊎ (e.type ≡ 3)) × ((q : ℕ) × (a fd ≡ some q)))

  -- All of them, each in the map that those before it leave. The descriptors are given.
  pub data AllLegal : View → List ChannelElement → View → Type 0 where
    nil : {a : View} → AllLegal a [] a
    cons :
        {a b : View} {e : ChannelElement} {es : List ChannelElement} (fd : ℕ)
        → IsLegal a e fd
        → AllLegal (apply_at a fd e) es b
        → AllLegal a (e ∷ es) b

  -- What the poller is asked after all of them.
  unfoldable pub want_after :
      (es : List ChannelElement) (a b : View) → AllLegal a es b → Wants → Wants
  want_after [] a b nil was = was
  want_after (e ∷ es) a b (cons fd legal rest) was =
      want_after es (apply_at a fd e) b rest (want_at a fd e legal.channel was)

abbrev adds_one : ChannelElement → ℕ
adds_one e = if e.type == 1 then 1 else 0

-- How many of the changes may need a place in the poller.
unfoldable pub adds : List ChannelElement → ℕ
adds [] = 0
adds (e ∷ es) = adds_one e + adds es

module _ {D : Type 0} {ops : Dispatcher D} (k : Contract ops) (store : Store) (can_alloc : ℕ → Bool)
    (memory : AllFits can_alloc) where
  -- One change, applied to the loop.
  record Applied (l : EventLoop D) (e : ChannelElement) (fd : ℕ) (c : Channel) (l' : EventLoop D)
      : Type 0 where
    valid : LoopInv k store l'
    seen : (i : ℕ) → view l' i ≡ apply_at (view l) fd e i
    asks :
        (g : ℤ)
        → k.registered l'.event_dispatcher_data g
          ≡ want_at (view l) fd e c (k.registered l.event_dispatcher_data) g
    room : k.free l.event_dispatcher_data ≤ k.free l'.event_dispatcher_data + adds_one e

  apply_add :
      (l : EventLoop D) (e : ChannelElement) (fd : ℕ) (c : Channel)
      → LoopInv k store l
      → store e.channel ≡ some c
      → c.fd ≡ pos fd
      → fd < 2 ^ 27
      → e.type ≡ 1
      → 0 < k.free l.event_dispatcher_data
      → (l' : EventLoop D) × (handle_element ops can_alloc store l e ≡ ok l') × Applied l e fd c l'
  unfolding handle_element apply_at want_at
  apply_add l e fd c v there at small type free =
      let one : (e.type == 1) ≡ true = (==_iff e.type 1).1 type in
      elim (Option-cases (view l fd)) [
        | inl new ↦
            (let (l', done, changed, less) =
                pending_add-Changed k store can_alloc memory l fd e.channel c v there at small free
                  new in
              (
                l',
                rw (there, one, at, done),
                record {
                  valid = changed.valid;
                  seen = λ i. ground (arith, changed.entries i);
                  asks = λ g. rw (one, new) (changed.asked g);
                  room = rw one (omega (arith, less));
                },
              ))
        | inr (q, old) ↦ (
          l,
          rw (there, one, at, pending_add_again k store can_alloc l fd e.channel q v small old),
          record {
            valid = v;
            seen = λ i. ground arith;
            asks = λ g. rw (one, old) refl;
            room = rw one (omega arith);
          },
        )
      ]

  apply_remove :
      (l : EventLoop D) (e : ChannelElement) (fd q : ℕ) (c : Channel)
      → LoopInv k store l
      → store e.channel ≡ some c
      → c.fd ≡ pos fd
      → e.type ≡ 2
      → view l fd ≡ some q
      → (l' : EventLoop D) × (handle_element ops can_alloc store l e ≡ ok l') × Applied l e fd c l'
  unfolding handle_element apply_at want_at
  apply_remove l e fd q c v there at type old =
      let not_one : (e.type == 1) ≡ false = ground arith in
      let two : (e.type == 2) ≡ true = (==_iff e.type 2).1 type in
      let (l', done, changed, more) =
        pending_remove-Changed k store can_alloc l fd e.channel q c v there at old in
      (
        l',
        rw (there, not_one, two, at, done),
        record {
          valid = changed.valid;
          seen = λ i. ground (arith, changed.entries i);
          asks = λ g. rw (not_one, two) (changed.asked g);
          room = omega (arith, more);
        },
      )

  apply_update :
      (l : EventLoop D) (e : ChannelElement) (fd q : ℕ) (c : Channel)
      → LoopInv k store l
      → store e.channel ≡ some c
      → c.fd ≡ pos fd
      → e.type ≡ 3
      → view l fd ≡ some q
      → (l' : EventLoop D) × (handle_element ops can_alloc store l e ≡ ok l') × Applied l e fd c l'
  unfolding handle_element apply_at want_at
  apply_update l e fd q c v there at type old =
      let not_one : (e.type == 1) ≡ false = ground arith in
      let not_two : (e.type == 2) ≡ false = ground arith in
      let three : (e.type == 3) ≡ true = (==_iff e.type 3).1 type in
      let (l', done, changed, kept) =
        pending_update-Changed k store can_alloc l fd e.channel q c v there at old in
      (
        l',
        rw (there, not_one, not_two, three, at, done),
        record {
          valid = changed.valid;
          seen = λ i. ground (arith, changed.entries i);
          asks = λ g. rw (not_one, not_two) (changed.asked g);
          room = omega (arith, kept);
        },
      )

  apply_element :
      (l : EventLoop D) (e : ChannelElement) (fd : ℕ)
      → LoopInv k store l
      → (legal : IsLegal store (view l) e fd) → adds_one e ≤ k.free l.event_dispatcher_data
      → (l' : EventLoop D) × (handle_element ops can_alloc store l e ≡ ok l')
        × Applied l e fd legal.channel l'
  apply_element l e fd v legal free = elim legal.kind [
    | inl one ↦
        apply_add l e fd legal.channel v legal.there legal.at legal.small one
          (let yes_one : (e.type == 1) ≡ true = (==_iff e.type 1).1 one in rw yes_one at free)
    | inr (inl two, (q, old)) ↦ apply_remove l e fd q legal.channel v legal.there legal.at two old
    | inr (inr three, (q, old)) ↦
        apply_update l e fd q legal.channel v legal.there legal.at three old
  ]

  -- The same change, in a map that is known by another name.
  renamed :
      (a a' : View) (e : ChannelElement) (fd : ℕ)
      → a' ≡ a
      → IsLegal store a e fd
      → IsLegal store a' e fd
  renamed a a' e fd same legal = record {
    channel = legal.channel;
    there = legal.there;
    at = legal.at;
    small = legal.small;
    kind =
        subst
          (λ (y : View).
            (e.type ≡ 1) ⊎ (((e.type ≡ 2) ⊎ (e.type ≡ 3)) × ((q : ℕ) × (y fd ≡ some q))))
          (sym same) legal.kind;
  }

  handle_elements_lem :
      (es : List ChannelElement) (l : EventLoop D) (a b : View) (was : Wants)
      → view l ≡ a
      → k.registered l.event_dispatcher_data ≡ was
      → (legal : AllLegal store a es b) → LoopInv k store l
      → adds es ≤ k.free l.event_dispatcher_data
      → (l' : EventLoop D) × (handle_elements ops can_alloc store l es ≡ ok l')
        × LoopInv k store l'
        × (view l' ≡ b)
        × (k.registered l'.event_dispatcher_data ≡ want_after store es a b legal was)
  unfolding handle_elements adds want_after want_at renamed
  handle_elements_lem [] l a b was e asked nil v free = (l, refl, v, e, asked)
  handle_elements_lem (x ∷ es) l a b was e asked (cons fd legal rest) v free =
      let (l1, done, applied) =
        apply_element l x fd v (renamed a (view l) x fd e legal) (omega arith) in
      let seen : view l1 ≡ apply_at a fd x = fun_ext applied.seen ∙ ap (λ y. apply_at y fd x) e in
      let asked1 : k.registered l1.event_dispatcher_data ≡ want_at a fd x legal.channel was =
        fun_ext applied.asks
        ∙ ap (λ y. want_at y fd x legal.channel (k.registered l.event_dispatcher_data)) e
        ∙ ap (want_at a fd x legal.channel) asked in
      let (l2, later, v2, seen2, asked2) =
        handle_elements_lem es l1 (apply_at a fd x) b (want_at a fd x legal.channel was) seen asked1
          rest applied.valid (omega (arith, applied.room)) in
      (l2, rw done later, v2, seen2, asked2)

  -- `event_loop_handle_pending_channel` applies the queue in order, first element first, where every change
  -- of it is legal (the channel is in memory, on a descriptor below 2^27, and only a descriptor in use is
  -- removed or updated), no more of them are additions than the poller has free places, no allocation fails,
  -- and the invariant of the loop holds. The map ends as the abstract map does. The poller reports of each
  -- descriptor what the last change of it asked: the events that the channel of an addition or of an update
  -- has in memory, nothing behind a removal, and what was before where the queue does not name it or only adds
  -- it again. The queue is empty, the flag is down, and the invariant holds.
  pub handle_pending-AllLegal :
      (l : EventLoop D) (b : View)
      → (legal : AllLegal store (view l) l.pending b) → LoopInv k store l
      → adds l.pending ≤ k.free l.event_dispatcher_data
      → (l' : EventLoop D) × (event_loop_handle_pending_channel ops can_alloc store l ≡ ok l')
        × LoopInv k store l'
        × (view l' ≡ b)
        × (l'.pending ≡ [])
        × (l'.is_handle_pending ≡ false)
        × (k.registered l'.event_dispatcher_data
            ≡ want_after store l.pending (view l) b legal (k.registered l.event_dispatcher_data))
  unfolding event_loop_handle_pending_channel
  handle_pending-AllLegal l b legal v free =
      let start : EventLoop D = record l { is_handle_pending = true } in
      let (l', done, v', seen, asked) =
        handle_elements_lem l.pending start (view l) b (k.registered l.event_dispatcher_data) refl
          refl legal
          (record {
            map_is = v.map_is;
            poller = v.poller;
            channels = v.channels;
            agrees = v.agrees;
          })
          free in
      (
        record l' { pending = []; is_handle_pending = false },
        rw done,
        record {
          map_is = v'.map_is;
          poller = v'.poller;
          channels = v'.channels;
          agrees = v'.agrees;
        },
        seen,
        refl,
        refl,
        asked,
      )
