-- ===== src/ChannelMap.antt =====
-- test_epoll/lib/channel_map.h and channel_map.c: the channels of a loop, by descriptor.
-- `entries` holds addresses, NULL being `none`; a NULL `entries` is the empty list.
pub mod Space
pub mod Clear
use cpyu_ze.Base.{
  ℕ, zero, suc, ◌+◌, ◌-◌, ◌≡◌, Bool, Option, none, some, List, [], ◌∷◌, ◌++◌, leb, ◌==◌,
  if◌then◌else◌, length, get_elem?, replicate, ℤ, pos, negsuc, Outcome, ok, halt, no_fuel, int_mul,
  read_at, ◌>>=◌,
}

pub record ChannelMap : Type 0 where
  pub entries : List (Option ℕ)
  pub nentries : ℕ

-- The loop `while (nentries <= slot) nentries <<= 1`.
grow_to : ℕ → ℕ → ℕ → Outcome ℕ
grow_to zero n slot = halt no_fuel
grow_to (suc fuel) n slot =
    let next = (do doubled ← int_mul n 2; grow_to fuel doubled slot) in
    if leb n slot then next else ok n

-- The size that the loop starts from.
abbrev first_size : ℕ → ℕ
first_size n = if n == 0 then 32 else n

-- The new block: the old entries, and zeroes behind them.
abbrev extended : ChannelMap → ℕ → ChannelMap
extended m n = record { entries = m.entries ++ replicate (n - m.nentries) none; nentries = n }

-- `map_make_space`; `can_alloc` says whether `realloc` gives a block of so many bytes. An `int`
-- has 31 doublings in it, so 32 rounds are enough for the loop.
unfoldable pub map_make_space : (ℕ → Bool) → ChannelMap → ℕ → ℕ → Outcome (ℤ × ChannelMap)
unfolding grow_to
map_make_space can_alloc m slot msize =
    if leb m.nentries slot
    then (do
      n ← grow_to 32 (first_size m.nentries) slot
      bytes ← int_mul n msize
      ok (if can_alloc bytes then (pos 0, extended m n) else (negsuc 0, m)))
    else ok (pos 0, m)

unfoldable pub map_init : ChannelMap
map_init = record { entries = []; nentries = 0 }

-- The loop of `map_clear` over the entries, from `i` on: the channels that it frees, in order.
clear_from : ℕ → ℕ → List (Option ℕ) → Outcome (List ℕ)
clear_from zero i entries = ok []
clear_from (suc rounds) i entries = do
  entry ← read_at entries i
  rest ← clear_from rounds (i + 1) entries
  ok (elim entry [ none ↦ rest | some p ↦ p ∷ rest ])

-- `map_clear`: the freed channels, and the empty map.
unfoldable pub map_clear : ChannelMap → Outcome (List ℕ × ChannelMap)
unfolding clear_from
map_clear m = elim m.entries [
  | [] ↦ ok ([], record m { nentries = 0 })
  | x ∷ xs ↦ (do
    freed ← clear_from m.nentries 0 m.entries
    ok (freed, record { entries = []; nentries = 0 }))
]

-- `map->entries[fd]`, with NULL where the map ends.
abbrev pub join {ℓ} : {A : Type ℓ} → Option (Option A) → Option A
join none = none
join (some o) = o

abbrev pub entry : ChannelMap → ℕ → Option ℕ
entry m i = join (get_elem? m.entries i)

pub record IsMap (m : ChannelMap) : Type 0 where
  pub sized : length m.entries ≡ m.nentries
