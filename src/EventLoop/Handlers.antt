-- ===== src/EventLoop/Handlers.antt =====
-- The handlers of test_epoll/lib/event_loop.c that change the map and the poller together.
use cpyu_ze.Base.{
  ℕ, ◌+◌, ◌^◌, ◌≤◌, ◌<◌, ◌≡◌, refl, sym, ap, ◌∙◌, Bool, true, false, Option, none, some, arith, leb,
  ◌==◌, if◌then◌else◌, length, get_elem?, set, get_elem?-none, length-set, ℤ, pos, eq_ℤ, eq_ℤ_refl,
  ok, halt, null_pointer, out_of_bounds, int_limit, le→leb, leb-false, ==_iff,
}
use native.Mathlib.Decide.{dec_le, ℕ_discrete}
use cpyu_ze.Channel.{Channel, Store}
use cpyu_ze.ChannelMap.{ChannelMap, map_make_space, entry, IsMap}
use cpyu_ze.ChannelMap.Space.{Widened, entry-set, get_elem?-entry, entry_lt, make_pointer_space}
use cpyu_ze.Dispatcher.{Dispatcher, Interest, interest, updated, Contract}
use cpyu_ze.EventLoop.{
  EventLoop, pointer_size, event_loop_handle_pending_add, event_loop_handle_pending_remove,
  event_loop_handle_pending_update,
}

abbrev pub is_some {ℓ} : {A : Type ℓ} → Option A → Bool
is_some none = false
is_some (some a) = true

is_some_witness {ℓ} : {A : Type ℓ} (o : Option A) → is_some o ≡ true → (a : A) × (o ≡ some a)
is_some_witness none e = cc
is_some_witness (some a) e = (a, refl)

-- A loop with another map and other poller data.
abbrev moved : {D : Type 0} → EventLoop D → ChannelMap → D → EventLoop D
moved l m d = record l { channel_map = m; event_dispatcher_data = d }

-- The allocator has every block whose size is an `int`.
abbrev pub AllFits : (ℕ → Bool) → Type 0
AllFits can_alloc = (n : ℕ) → n < int_limit → can_alloc n ≡ true

module _ {D : Type 0} {ops : Dispatcher D} (k : Contract ops) (store : Store) where
  -- The map is well formed, each of its channels is in memory under its own descriptor, and the
  -- poller watches exactly the descriptors of the map.
  pub record LoopInv (l : EventLoop D) : Type 0 where
    pub map_is : IsMap l.channel_map
    pub poller : k.Valid l.event_dispatcher_data
    pub channels :
        (n p : ℕ)
        → entry l.channel_map n ≡ some p
        → (c : Channel) × (store p ≡ some c) × (c.fd ≡ pos n)
    pub agrees :
        (n : ℕ)
        → is_some (entry l.channel_map n) ≡ is_some (k.registered l.event_dispatcher_data (pos n))

  -- `l'` differs from `l` in one descriptor: its entry is `p`, and the poller is asked `want`.
  pub record Changed (l : EventLoop D) (fd : ℕ) (p : Option ℕ) (want : Option Interest)
      (l' : EventLoop D) : Type 0 where
    pub valid : LoopInv l'
    pub entries : (i : ℕ) → entry l'.channel_map i ≡ (if i == fd then p else entry l.channel_map i)
    pub asked :
        (g : ℤ)
        → k.registered l'.event_dispatcher_data g
          ≡ updated (pos fd) want (k.registered l.event_dispatcher_data) g

  InMemory : ℕ → Option ℕ → Type 0
  InMemory fd p = (q : ℕ) → p ≡ some q → (c : Channel) × (store q ≡ some c) × (c.fd ≡ pos fd)

  LoopInv-Changed :
      (l l' : EventLoop D) (fd : ℕ) (p : Option ℕ) (want : Option Interest)
      → LoopInv l
      → IsMap l'.channel_map
      → k.Valid l'.event_dispatcher_data
      → ((i : ℕ) → entry l'.channel_map i ≡ (if i == fd then p else entry l.channel_map i))
      → ((g : ℤ)
          → k.registered l'.event_dispatcher_data g
            ≡ updated (pos fd) want (k.registered l.event_dispatcher_data) g)
      → is_some p ≡ is_some want
      → ((q : ℕ) → p ≡ some q → (c : Channel) × (store q ≡ some c) × (c.fd ≡ pos fd))
      → Changed l fd p want l'
  LoopInv-Changed l l' fd p want v map_is valid entries asked same there = record {
    valid = record {
      map_is = map_is;
      poller = valid;
      channels = λ n q e. elim (ℕ_discrete n fd) [
        | yes at ↦
            (let (c, s, f) = there q (ground (arith, entries n)) in (c, s, f ∙ ap pos (sym at)))
        | no off ↦ v.channels n q (ground (arith, entries n))
      ];
      agrees = λ n. ground (arith, entries n, asked (pos n), v.agrees n, same);
    };
    entries = entries;
    asked = asked;
  }

  registered_there :
      (l : EventLoop D) (fd q : ℕ)
      → LoopInv l
      → entry l.channel_map fd ≡ some q
      → (i : Interest) × (k.registered l.event_dispatcher_data (pos fd) ≡ some i)
  registered_there l fd q v old =
      is_some_witness (k.registered l.event_dispatcher_data (pos fd))
        (sym (v.agrees fd) ∙ ap is_some old)

  kept_entry :
      (m : ChannelMap) (fd n q : ℕ)
      → entry m fd ≡ some q
      → entry m n ≡ (if n == fd then some q else entry m n)
  kept_entry m fd n q old = elim (ℕ_discrete n fd) [
    | yes e ↦ rw (e, (==_iff fd fd).1 refl) old
    | no ne ↦ (let off : (n == fd) ≡ false = ground arith in rw off refl)
  ]

  module _ (can_alloc : ℕ → Bool) (memory : AllFits can_alloc) where
    -- The map that `event_loop_handle_pending_add` goes on with.
    room_for :
        (m : ChannelMap) (fd : ℕ)
        → IsMap m
        → fd < 2 ^ 27
        → (m' : ChannelMap) × ((if leb m.nentries fd
              then map_make_space can_alloc m fd pointer_size
              else ok (pos 0, m))
            ≡ ok (pos 0, m'))
          × Widened m fd m'
    room_for m fd v small = elim (dec_le m.nentries fd) [
      | yes full ↦
          (let (m', done, w) = make_pointer_space can_alloc m fd v small full memory in
            (m', rw (le→leb m.nentries fd full) done, w))
      | no free ↦ (
        m,
        rw (leb-false m.nentries fd (omega arith)),
        record { valid = v; room = omega arith; kept = λ i. refl },
      )
    ]

    -- While memory lasts and the poller has room, a channel in memory on a descriptor below 2^27
    -- that is not in use enters the map and the poller, and 1 is returned. The invariant holds
    -- before and after, and no other descriptor changes.
    pub pending_add-Changed :
        (l : EventLoop D) (fd p : ℕ) (c : Channel)
        → LoopInv l
        → store p ≡ some c
        → c.fd ≡ pos fd
        → fd < 2 ^ 27
        → 0 < k.free l.event_dispatcher_data
        → entry l.channel_map fd ≡ none
        → (l' : EventLoop D) × (event_loop_handle_pending_add ops can_alloc store l (pos fd) p
            ≡ ok (pos 1, l'))
          × Changed l fd (some p) (some (interest c)) l'
          × (k.free l'.event_dispatcher_data + 1 ≡ k.free l.event_dispatcher_data)
    unfolding event_loop_handle_pending_add
    pending_add-Changed l fd p c v s f small room new =
        let (m, made, w) = room_for l.channel_map fd v.map_is small in
        let unregistered : k.registered l.event_dispatcher_data c.fd ≡ none =
          rw f (ground (arith, v.agrees fd)) in
        let (d', added, valid, less, asked) =
          k.add_lem l.event_dispatcher_data c v.poller room (rw f refl) unregistered in
        let inside : fd < length m.entries = omega (arith, w.room, w.valid.sized) in
        let read : get_elem? m.entries fd ≡ some none =
          get_elem?-entry m fd inside ∙ ap some (w.kept fd ∙ new) in
        let m' : ChannelMap = record m { entries = set m.entries fd (some p) } in
        (
          moved l m' d',
          rw (made, read, s, added),
          LoopInv-Changed l (moved l m' d') fd (some p) (some (interest c)) v
              (record { sized = length-set m.entries fd (some p) ∙ w.valid.sized }) valid
              (λ i.
                entry-set m fd i (some p) inside
                ∙ ap (λ e. if i == fd then some p else e) (w.kept i))
              (λ g.
                asked g
                ∙ ap (λ h. updated h (some (interest c)) (k.registered l.event_dispatcher_data) g)
                    f)
              refl (λ q e. (c, (let same : q ≡ p = cc in rw same s), f)),
          less,
        )

  module _ (can_alloc : ℕ → Bool) where
    -- A descriptor that is in the map already is left as it is; 0 is returned.
    pub pending_add_again :
        (l : EventLoop D) (fd p q : ℕ)
        → LoopInv l
        → fd < 2 ^ 27
        → entry l.channel_map fd ≡ some q
        → event_loop_handle_pending_add ops can_alloc store l (pos fd) p ≡ ok (pos 0, l)
    unfolding event_loop_handle_pending_add
    pending_add_again l fd p q v small old =
        let inside : fd < length l.channel_map.entries = entry_lt l.channel_map fd q old in
        let fits : leb l.channel_map.nentries fd ≡ false =
          leb-false _ _ (omega (arith, v.map_is.sized)) in
        let read : get_elem? l.channel_map.entries fd ≡ some (some q) =
          get_elem?-entry l.channel_map fd inside ∙ ap some old in
        rw (fits, read)

    -- A channel in memory, on a descriptor in use, leaves the map and the poller, and 1 is
    -- returned. The invariant holds before and after, and no other descriptor changes.
    pub pending_remove-Changed :
        (l : EventLoop D) (fd p q : ℕ) (c : Channel)
        → LoopInv l
        → store p ≡ some c
        → c.fd ≡ pos fd
        → entry l.channel_map fd ≡ some q
        → (l' : EventLoop D) × (event_loop_handle_pending_remove ops can_alloc store l (pos fd) p
            ≡ ok (pos 1, l'))
          × Changed l fd none none l'
          × (k.free l'.event_dispatcher_data ≡ k.free l.event_dispatcher_data + 1)
    unfolding event_loop_handle_pending_remove
    pending_remove-Changed l fd p q c v s f old =
        let m : ChannelMap = l.channel_map in
        let inside : fd < length m.entries = entry_lt m fd q old in
        let fits : leb m.nentries fd ≡ false = leb-false _ _ (omega (arith, v.map_is.sized)) in
        let read : get_elem? m.entries fd ≡ some (some q) =
          get_elem?-entry m fd inside ∙ ap some old in
        let (c2, s2, f2) = v.channels fd q old in
        let (i, watched) = registered_there l fd q v old in
        let (d', deleted, valid, more, asked) =
          k.del_lem l.event_dispatcher_data c2 i v.poller (rw f2 watched) in
        let m' : ChannelMap = record m { entries = set m.entries fd none } in
        let same : eq_ℤ (pos fd) c.fd ≡ true = rw f (eq_ℤ_refl (pos fd)) in
        (
          moved l m' d',
          rw (s, same, fits, read, s2, deleted),
          LoopInv-Changed l (moved l m' d') fd none none v
              (record { sized = length-set m.entries fd none ∙ v.map_is.sized }) valid
              (λ n. entry-set m fd n none inside)
              (λ g. asked g ∙ ap (λ h. updated h none (k.registered l.event_dispatcher_data) g) f2)
              refl (λ r e. cc),
          more,
        )

    -- A channel in memory, on a descriptor in use, gets its present interest in the poller; the
    -- map stays. The invariant holds before and after, and no other descriptor changes.
    pub pending_update-Changed :
        (l : EventLoop D) (fd p q : ℕ) (c : Channel)
        → LoopInv l
        → store p ≡ some c
        → c.fd ≡ pos fd
        → entry l.channel_map fd ≡ some q
        → (l' : EventLoop D) × (event_loop_handle_pending_update ops can_alloc store l (pos fd) p
            ≡ ok (none, l'))
          × Changed l fd (some q) (some (interest c)) l'
          × (k.free l'.event_dispatcher_data ≡ k.free l.event_dispatcher_data)
    unfolding event_loop_handle_pending_update
    pending_update-Changed l fd p q c v s f old =
        let m : ChannelMap = l.channel_map in
        let inside : fd < length m.entries = entry_lt m fd q old in
        let read : get_elem? m.entries fd ≡ some (some q) =
          get_elem?-entry m fd inside ∙ ap some old in
        let (i, watched) = registered_there l fd q v old in
        let (d', changed, valid, kept, asked) =
          k.update_lem l.event_dispatcher_data c i v.poller (rw f watched) in
        (
          moved l m d',
          rw (read, s, changed),
          LoopInv-Changed l (moved l m d') fd (some q) (some (interest c)) v v.map_is valid
              (λ n. kept_entry m fd n q old)
              (λ g.
                asked g
                ∙ ap (λ h. updated h (some (interest c)) (k.registered l.event_dispatcher_data) g)
                    f)
              refl (λ r e. v.channels fd r (old ∙ e)),
          kept,
        )

  -- The poller reads the channel that the map holds without a test for NULL: under the invariant,
  -- to remove a channel in memory whose descriptor is inside the map, but not in use, is a NULL
  -- dereference.
  pub pending_remove_absent :
      (can_alloc : ℕ → Bool) (l : EventLoop D) (fd p : ℕ) (c : Channel)
      → LoopInv l
      → store p ≡ some c
      → c.fd ≡ pos fd
      → fd < l.channel_map.nentries
      → entry l.channel_map fd ≡ none
      → event_loop_handle_pending_remove ops can_alloc store l (pos fd) p ≡ halt null_pointer
  unfolding event_loop_handle_pending_remove
  pending_remove_absent can_alloc l fd p c v s f lt absent =
      let m : ChannelMap = l.channel_map in
      let fits : leb m.nentries fd ≡ false = leb-false _ _ lt in
      let read : get_elem? m.entries fd ≡ some none =
        get_elem?-entry m fd (omega (arith, v.map_is.sized)) ∙ ap some absent in
      let same : eq_ℤ (pos fd) c.fd ≡ true = rw f (eq_ℤ_refl (pos fd)) in rw (s, same, fits, read)

  -- An update does not test the descriptor against the size of the map: one beyond it is a read
  -- outside the block.
  pub pending_update_beyond :
      (can_alloc : ℕ → Bool) (l : EventLoop D) (fd p : ℕ)
      → LoopInv l
      → l.channel_map.nentries ≤ fd
      → event_loop_handle_pending_update ops can_alloc store l (pos fd) p ≡ halt out_of_bounds
  unfolding event_loop_handle_pending_update
  pending_update_beyond can_alloc l fd p v le =
      let read : get_elem? l.channel_map.entries fd ≡ none =
        get_elem?-none l.channel_map.entries fd (omega (arith, v.map_is.sized)) in
      rw read
