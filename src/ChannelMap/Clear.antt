-- ===== src/ChannelMap/Clear.antt =====
-- map_clear of test_epoll/lib/channel_map.c: each channel of the map is freed once, in order.
use cpyu_ze.Base.{
  ℕ, zero, suc, ◌+◌, ◌≡◌, refl, ap, Option, none, some, List, [], ◌∷◌, arith, length, drop,
  drop-cons, drop_all, get_elem?-some, ok,
}
use cpyu_ze.ChannelMap.{ChannelMap, clear_from, map_clear, map_init, IsMap}

-- The channels of a list of entries.
pub present : List (Option ℕ) → List ℕ
present [] = []
present (none ∷ es) = present es
present (some p ∷ es) = p ∷ present es

present-cons :
    (e : Option ℕ) (es : List (Option ℕ))
    → (elim e [ none ↦ present es | some p ↦ p ∷ present es ]) ≡ present (e ∷ es)
unfolding present
present-cons none es = refl
present-cons (some p) es = refl

clear_from-present :
    (rounds i : ℕ) (es : List (Option ℕ))
    → length es ≡ i + rounds
    → clear_from rounds i es ≡ ok (present (drop i es))
unfolding clear_from present
clear_from-present zero i es e = rw (drop_all i es (omega arith))
clear_from-present (suc rounds) i es e =
    let (x, got) = get_elem?-some es i (omega arith) in
    let next : drop i es ≡ x ∷ drop (i + 1) es =
      (let one : i + 1 ≡ suc i = omega arith in rw one (drop-cons es i got)) in
    rw (got, clear_from-present rounds (i + 1) es (omega arith), next)
      (ap ok (present-cons x (drop (i + 1) es)))

map_clear_cases :
    (es xs : List (Option ℕ)) (n : ℕ)
    → length es ≡ n
    → es ≡ xs
    → map_clear (record { entries = es; nentries = n }) ≡ ok (present es, map_init)
unfolding map_clear map_init present
map_clear_cases [] xs n v e = refl
map_clear_cases (x ∷ es) xs n v e = rw (clear_from-present n 0 (x ∷ es) (omega arith))

-- `map_clear` frees the channels of the map, each as often as it stands in it, and leaves the
-- empty map.
pub map_clear-present : (m : ChannelMap) → IsMap m → map_clear m ≡ ok (present m.entries, map_init)
map_clear-present m v = map_clear_cases m.entries m.entries m.nentries v.sized refl
