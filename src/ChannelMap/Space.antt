-- ===== src/ChannelMap/Space.antt =====
-- map_make_space of test_epoll/lib/channel_map.c: room for the slot, and no entry lost.
use native.Mathlib.Nat.{pow-suc}
use cpyu_ze.Base.{
  ==_iff, set, get_elem?-set_self, get_elem?-set_ne, get_elem?-some, ℕ, zero, suc, ◌-◌, ◌*◌, ◌^◌,
  ◌≤◌, ◌<◌, ◌≡◌, refl, sym, ap, ◌∙◌, ◌⊎◌, inl, inr, Bool, true, false, Option, none, some, ◌++◌,
  arith, ◌==◌, if◌then◌else◌, length, get_elem?, replicate, length-append, length-replicate,
  get_elem?-append_left, get_elem?-none, get_elem?-append_replicate, le→leb, leb-false, pos, ok,
  int_limit, int_mul-ok,
}
use native.Mathlib.Decide.{dec_le, dec_lt, ℕ_discrete}
use cpyu_ze.ChannelMap.{
  ChannelMap, grow_to, first_size, extended, map_make_space, join, entry, IsMap,
}

-- What the doubling loop comes to: the first of `n`, `2 n`, `4 n`, … above the slot.
record Grown (n slot m : ℕ) : Type 0 where
  above : slot < m
  doublings : (k : ℕ) × (m ≡ n * 2 ^ k)
  least : (m ≡ n) ⊎ (m ≤ 2 * slot)

Grown-double : (n slot m : ℕ) → n ≤ slot → Grown (n * 2) slot m → Grown n slot m
Grown-double n slot m below g =
    let (k, e) = g.doublings in
    record {
      above = g.above;
      doublings = (suc k, rw (pow-suc 2 k) (omega (arith, e)));
      least = inr (omega (arith, g.least));
    }

grow_to_lem :
    (fuel n slot : ℕ)
    → 0 < n
    → slot < n * 2 ^ fuel
    → 2 * slot < int_limit
    → (m : ℕ) × (grow_to (suc fuel) n slot ≡ ok m) × Grown n slot m
unfolding grow_to
grow_to_lem zero n slot p h small = (
  n,
  rw (leb-false n slot (omega arith)),
  record { above = omega arith; doublings = (0, omega arith); least = inl refl },
)
grow_to_lem (suc fuel) n slot p h small = elim (dec_le n slot) [
  | yes below ↦
      let bound : slot < n * (2 ^ fuel * 2) = (rw pow-suc at h) in
      let (m, done, g) = grow_to_lem fuel (n * 2) slot (omega arith) (omega (arith, bound)) small in
      (
        m,
        rw (le→leb n slot below, int_mul-ok n 2 (omega arith)) done,
        Grown-double n slot m below g,
      )
  | no above ↦ (
    n,
    rw (leb-false n slot (omega arith)),
    record { above = omega arith; doublings = (0, omega arith); least = inl refl },
  )
]

-- The map after room was made for `slot`: every descriptor has the entry that it had.
pub record Widened (m : ChannelMap) (slot : ℕ) (m' : ChannelMap) : Type 0 where
  pub valid : IsMap m'
  pub room : slot < m'.nentries
  pub kept : (i : ℕ) → entry m' i ≡ entry m i

extended-Widened :
    (m : ChannelMap) (slot n : ℕ)
    → IsMap m
    → m.nentries ≤ n
    → slot < n
    → Widened m slot (extended m n)
extended-Widened m slot n v le above = record {
  valid = record {
    sized = omega (
      arith,
      v.sized,
      length-append m.entries (replicate (n - m.nentries) none),
      length-replicate {A = Option ℕ} (n - m.nentries) none,
    );
  };
  room = above;
  kept = λ i. elim (dec_lt i m.nentries) [
    | yes old ↦ ap join (get_elem?-append_left m.entries _ i (omega (arith, v.sized)))
    | no new ↦ elim (dec_lt i n) [
      | yes within ↦
          ap join (
            get_elem?-append_replicate m.entries (n - m.nentries) i none (omega (arith, v.sized))
              (omega (arith, v.sized)))
          ∙ sym (ap join (get_elem?-none m.entries i (omega (arith, v.sized))))
      | no beyond ↦
          ap join (
            get_elem?-none (m.entries ++ replicate (n - m.nentries) none) i (
              omega (
                arith,
                v.sized,
                length-append m.entries (replicate (n - m.nentries) none),
                length-replicate {A = Option ℕ} (n - m.nentries) none,
              )))
          ∙ sym (ap join (get_elem?-none m.entries i (omega (arith, v.sized))))
    ]
  ];
}

first_size_pos : (n : ℕ) → (0 < first_size n) × (n ≤ first_size n)
first_size_pos n = ground arith

product_fits :
    (n msize : ℕ) {first bound : ℕ}
    → (n ≡ first) ⊎ (n ≤ bound)
    → first * msize < int_limit
    → bound * msize < int_limit
    → n * msize < int_limit
product_fits n msize (inl e) h k = rw e h
product_fits n msize (inr le) h k = grind arith

-- From a well-formed map, `map_make_space` succeeds, makes room for the slot and keeps every
-- entry, while the products of its sizes stay below 2^31 and memory lasts.
pub map_make_space_lem :
    (can_alloc : ℕ → Bool) (m : ChannelMap) (slot msize : ℕ)
    → IsMap m
    → 2 * slot < int_limit
    → first_size m.nentries * msize < int_limit
    → 2 * slot * msize < int_limit
    → ((n : ℕ) → n < int_limit → can_alloc n ≡ true)
    → (m' : ChannelMap) × (map_make_space can_alloc m slot msize ≡ ok (pos 0, m'))
      × Widened m slot m'
unfolding map_make_space
map_make_space_lem can_alloc m slot msize v small first_fits slot_fits memory =
    elim (dec_le m.nentries slot) [
      | yes full ↦
          let (positive, le) = first_size_pos m.nentries in
          let (n, done, g) =
            grow_to_lem 31 (first_size m.nentries) slot positive (omega arith) small in
          let fits : n * msize < int_limit = product_fits n msize g.least first_fits slot_fits in
          let above : slot < n = g.above in
          (
            extended m n,
            rw (
              le→leb m.nentries slot full,
              done,
              int_mul-ok n msize fits,
              memory (n * msize) fits,
            ),
            extended-Widened m slot n v (omega arith) above,
          )
      | no free ↦ (
        m,
        rw (leb-false m.nentries slot (omega arith)),
        record { valid = v; room = omega arith; kept = λ i. refl },
      )
    ]

-- One entry written.
pub entry-set :
    (m : ChannelMap) (fd i : ℕ) (v : Option ℕ)
    → fd < length m.entries
    → entry (record m { entries = set m.entries fd v }) i ≡ (if i == fd then v else entry m i)
entry-set m fd i v h = elim (ℕ_discrete i fd) [
  | yes e ↦ rw (e, (==_iff fd fd).1 refl) (ap join (get_elem?-set_self m.entries fd v h))
  | no ne ↦
      let off : (i == fd) ≡ false = ground arith in
      rw off (ap join (get_elem?-set_ne m.entries fd i v (λ e. ne (sym e))))
]

-- What stands at a place inside the map is its entry.
pub get_elem?-entry :
    (m : ChannelMap) (fd : ℕ) → fd < length m.entries → get_elem? m.entries fd ≡ some (entry m fd)
get_elem?-entry m fd h = let (e, got) = get_elem?-some m.entries fd h in rw got

-- An entry that is there lies inside the map.
pub entry_lt : (m : ChannelMap) (fd p : ℕ) → entry m fd ≡ some p → fd < length m.entries
entry_lt m fd p e = elim (dec_lt fd (length m.entries)) [
  | yes lt ↦ lt
  | no ge ↦ cc (get_elem?-none m.entries fd (omega arith))
]

-- For pointers, any slot below 2^27 will do.
pub make_pointer_space :
    (can_alloc : ℕ → Bool) (m : ChannelMap) (slot : ℕ)
    → IsMap m
    → slot < 2 ^ 27
    → m.nentries ≤ slot
    → ((n : ℕ) → n < int_limit → can_alloc n ≡ true)
    → (m' : ChannelMap) × (map_make_space can_alloc m slot 8 ≡ ok (pos 0, m')) × Widened m slot m'
make_pointer_space can_alloc m slot v small full memory =
    map_make_space_lem can_alloc m slot 8 v (omega arith) (ground arith) (omega arith) memory
