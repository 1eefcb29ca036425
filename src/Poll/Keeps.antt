-- ===== src/Poll/Keeps.antt =====
-- poll_add, poll_del and poll_update of test_epoll/lib/poll_dispatcher.c keep the contract of an
-- event dispatcher.
use cpyu_ze.Base.{
  ◌<◌, ◌+◌, ℕ, ◌≡◌, refl, ◌∙◌, Bool, false, Option, none, some, List, [], ◌∷◌, arith, length, map,
  ℤ, pos, is_negative, ok,
}
use cpyu_ze.Channel.{Channel}
use cpyu_ze.Dispatcher.{Interest, interest, updated, Contract}
use cpyu_ze.Poll.{
  PollFd, PollData, init_poll_size, edit_first, poll_events, is_free, holds, occupy, release, rearm,
  poll_init, poll_add, poll_del, poll_update, poll_dispatcher,
}
use cpyu_ze.Poll.Slots.{update_first, length-update_first, edit_first-update_first}
use cpyu_ze.Poll.Registered.{
  poll_interest-poll_events, slots_registered, Distinct, free_slots, free_slots-add, free_slots-del,
  free_slots-update, update_first_full, slots_add, slots_del, slots_update, Distinct-add,
  Distinct-del, Distinct-update, serves, slots_nonneg,
}

-- The set has its full size, and no descriptor stands in it twice.
pub record IsPoll (d : PollData) : Type 0 where
  pub sized : length d.event_set ≡ init_poll_size
  pub distinct : Distinct d.event_set

abbrev pub registered : PollData → ℤ → Option Interest
registered d = slots_registered d.event_set

edited : PollData → (PollFd → Bool) → (PollFd → PollFd) → PollData
edited d test edit = record d { event_set = update_first test edit d.event_set }

edit-edited :
    (d : PollData) (test : PollFd → Bool) (edit : PollFd → PollFd)
    → IsPoll d
    → (j : ℕ) × (edit_first test edit init_poll_size 0 d.event_set
        ≡ ok (j, update_first test edit d.event_set))
edit-edited d test edit v = edit_first-update_first test edit init_poll_size 0 d.event_set v.sized

-- In a valid set with a free slot, a descriptor that is not negative and not registered is added
-- with the interest of the channel; the set stays valid with one slot fewer free, and no other
-- descriptor is touched.
pub poll_add-registered :
    (d : PollData) (c : Channel)
    → IsPoll d
    → 0 < free_slots d.event_set
    → is_negative c.fd ≡ false
    → registered d c.fd ≡ none
    → (d' : PollData) × (poll_add d c ≡ ok (pos 0, d'))
      × IsPoll d'
      × (free_slots d'.event_set + 1 ≡ free_slots d.event_set)
      × ((g : ℤ) → registered d' g ≡ updated c.fd (some (interest c)) (registered d) g)
unfolding poll_add edited
poll_add-registered d c v free nonneg new =
    let edit = occupy c.fd (poll_events c) in
    let (j, e) = edit-edited d is_free edit v in
    (
      edited d is_free edit,
      rw e,
      record {
        sized = length-update_first is_free edit d.event_set ∙ v.sized;
        distinct = Distinct-add d.event_set c.fd (poll_events c) nonneg new free v.distinct;
      },
      free_slots-add d.event_set c.fd (poll_events c) nonneg free,
      λ g.
          rw (← poll_interest-poll_events c)
            (slots_add d.event_set c.fd g (poll_events c) nonneg new free),
    )

-- In a valid set a registered descriptor is taken out; the set stays valid with one more slot
-- free, and no other descriptor is touched.
pub poll_del-registered :
    (d : PollData) (c : Channel) (i : Interest)
    → IsPoll d
    → registered d c.fd ≡ some i
    → (d' : PollData) × (poll_del d c ≡ ok (pos 0, d'))
      × IsPoll d'
      × (free_slots d'.event_set ≡ free_slots d.event_set + 1)
      × ((g : ℤ) → registered d' g ≡ updated c.fd none (registered d) g)
unfolding poll_del edited
poll_del-registered d c i v old =
    let nonneg : is_negative c.fd ≡ false = slots_nonneg d.event_set c.fd i old in
    let (j, e) = edit-edited d (holds c.fd) release v in
    (
      edited d (holds c.fd) release,
      rw e,
      record {
        sized = length-update_first (holds c.fd) release d.event_set ∙ v.sized;
        distinct = Distinct-del d.event_set c.fd nonneg v.distinct;
      },
      free_slots-del d.event_set c.fd i old nonneg,
      λ g. slots_del d.event_set c.fd g nonneg v.distinct,
    )

-- In a valid set a registered descriptor gets the interest of the channel; the set stays valid
-- with as many slots free, and no other descriptor is touched.
pub poll_update-registered :
    (d : PollData) (c : Channel) (i : Interest)
    → IsPoll d
    → registered d c.fd ≡ some i
    → (d' : PollData) × (poll_update d c ≡ ok (pos 0, d'))
      × IsPoll d'
      × (free_slots d'.event_set ≡ free_slots d.event_set)
      × ((g : ℤ) → registered d' g ≡ updated c.fd (some (interest c)) (registered d) g)
unfolding poll_update edited
poll_update-registered d c i v old =
    let nonneg : is_negative c.fd ≡ false = slots_nonneg d.event_set c.fd i old in
    let edit = rearm (poll_events c) in
    let (j, e) = edit-edited d (holds c.fd) edit v in
    (
      edited d (holds c.fd) edit,
      rw e,
      record {
        sized = length-update_first (holds c.fd) edit d.event_set ∙ v.sized;
        distinct = Distinct-update d.event_set c.fd (poll_events c) i nonneg old v.distinct;
      },
      free_slots-update d.event_set c.fd (poll_events c),
      λ g.
          rw (← poll_interest-poll_events c)
            (slots_update d.event_set c.fd g (poll_events c) i nonneg old),
    )

-- When no slot of a valid set is free, `poll_add` returns 0 as ever and changes nothing.
pub poll_add_full :
    (d : PollData) (c : Channel)
    → IsPoll d
    → free_slots d.event_set ≡ 0
    → poll_add d c ≡ ok (pos 0, d)
unfolding poll_add
poll_add_full d c v full =
    let edit = occupy c.fd (poll_events c) in
    let (j, e) = edit-edited d is_free edit v in rw (e, update_first_full d.event_set edit full)

-- The poller fills the interface of an event loop.
unfoldable pub poll_contract : (fresh : List PollFd) → Contract (poll_dispatcher fresh)
unfolding poll_dispatcher
poll_contract fresh = record {
  Valid = IsPoll;
  free = λ d. free_slots d.event_set;
  registered = registered;
  add_lem = poll_add-registered;
  del_lem = poll_del-registered;
  update_lem = poll_update-registered;
}

release_all_registered :
    (fresh : List PollFd) (g : ℤ) → slots_registered (map release fresh) g ≡ none
unfolding slots_registered serves
release_all_registered [] g = refl
release_all_registered (p ∷ ps) g = release_all_registered ps g

release_all-Distinct : (fresh : List PollFd) → Distinct (map release fresh)
release_all-Distinct [] = tt
release_all-Distinct (p ∷ ps) = (λ e. cc, release_all-Distinct ps)

length-release_all : (fresh : List PollFd) → length (map release fresh) ≡ length fresh
length-release_all [] = refl
length-release_all (p ∷ ps) = omega (arith, length-release_all ps)

free_slots-release_all : (fresh : List PollFd) → free_slots (map release fresh) ≡ length fresh
unfolding free_slots
free_slots-release_all [] = refl
free_slots-release_all (p ∷ ps) = omega (arith, free_slots-release_all ps)

-- A new poller has nothing registered, whatever was in the block that `malloc` gave.
pub poll_init-registered :
    (fresh : List PollFd)
    → length fresh ≡ init_poll_size
    → (d : PollData) × (poll_init fresh ≡ ok d)
      × IsPoll d
      × (free_slots d.event_set ≡ init_poll_size)
      × ((g : ℤ) → registered d g ≡ none)
unfolding poll_init
poll_init-registered fresh e = (
  _,
  refl,
  record { sized = length-release_all fresh ∙ e; distinct = release_all-Distinct fresh },
  free_slots-release_all fresh ∙ e,
  release_all_registered fresh,
)
