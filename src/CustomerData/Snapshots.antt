-- ===== src/CustomerData/Snapshots.antt =====
-- What a query of for_cpp_basis/include/t_shared_ptr.h sees while updates go on.
use cpyu_ze.Base.{
  ℕ, ◌<◌, ◌≡◌, ◌≢◌, refl, ap, ◌∙◌, true, false, Bool-cases, inl, inr, some, List, [], ◌∷◌, ◌++◌,
  ◌==◌, if◌then◌else◌, arith, ==_iff,
}
use native.Mathlib.Decide.{ℕ_discrete}
use cpyu_ze.CustomerData.{
  EntryList, find_entry, found, lookup, CustomerData, holds, query, update, Step, begins, ends,
  updates, Reach, begin, later,
}

-- Every pointer in use is that of a map that was made.
record IsMade (s : CustomerData) : Type 0 where
  current : s.data_at < s.next
  held : (p : ℕ) → holds p s.readers ≡ true → p < s.next

holds-append : (p q : ℕ) (a b : List ℕ) → holds p (a ++ b) ≡ true → holds p (a ++ q ∷ b) ≡ true
holds-append p q [] b e = ground arith
holds-append p q (r ∷ a) b e = elim (Bool-cases (r == p)) [
  | inl here ↦ rw here
  | inr other ↦ rw other (holds-append p q a b (ground arith))
]

update-IsMade :
    (customer : ℕ) (entries : EntryList) (s : CustomerData)
    → IsMade s
    → IsMade (update customer entries s)
unfolding update
update-IsMade customer entries s v = elim (Bool-cases (holds s.data_at s.readers)) [
  | inl shared ↦
      rw shared (record { current = omega arith; held = λ p e. omega (arith, v.held p e) })
  | inr alone ↦ rw alone (record { current = v.current; held = v.held })
]

Step-IsMade : {s t : CustomerData} → Step s t → IsMade s → IsMade t
Step-IsMade begins v = record {
  current = v.current;
  held = λ p e. ground (arith, v.held p, v.current);
}
Step-IsMade (ends before after p e) v = record {
  current = v.current;
  held = λ q h. v.held q (ap (holds q) e ∙ holds-append q p before after h);
}
Step-IsMade {s} (updates customer entries) v = update-IsMade customer entries s v

Reach-IsMade : {s : CustomerData} → Reach s → IsMade s
Reach-IsMade begin = record { current = omega arith; held = λ p e. cc e }
Reach-IsMade (later r st) = Step-IsMade st (Reach-IsMade r)

-- An update leaves every map that a query holds as it is, and puts the entries into the current one.
update-kept :
    (customer : ℕ) (entries : EntryList) (s : CustomerData) (p : ℕ)
    → IsMade s
    → holds p s.readers ≡ true
    → (update customer entries s).maps p ≡ s.maps p
unfolding update
update-kept customer entries s p v held = elim (Bool-cases (holds s.data_at s.readers)) [
  | inl shared ↦
      (let other : (p == s.next) ≡ false = ground (arith, v.held p held) in rw (shared, other) refl)
  | inr alone ↦ elim (ℕ_discrete p s.data_at) [
    | yes same ↦ absurd (cc (ap (λ q. holds q s.readers) same, held, alone))
    | no differ ↦ (let other : (p == s.data_at) ≡ false = ground arith in rw (alone, other) refl)
  ]
]

-- A map that a running query holds is not changed by any step of the program, so that what it says of
-- every customer and stock stays as it was when the query began.
pub snapshot_kept :
    {s t : CustomerData} (p customer stock : ℕ)
    → Reach s
    → Step s t
    → holds p s.readers ≡ true
    → lookup (t.maps p) customer stock ≡ lookup (s.maps p) customer stock
snapshot_kept p customer stock reached begins held = refl
snapshot_kept p customer stock reached (ends before after q e) held = refl
snapshot_kept {s} p customer stock reached (updates c entries) held =
    ap (λ m. lookup m customer stock) (update-kept c entries s p (Reach-IsMade reached) held)

-- The current map after an update.
update-current :
    (customer : ℕ) (entries : EntryList) (s : CustomerData) (c : ℕ)
    → (update customer entries s).maps (update customer entries s).data_at c
      ≡ (if c == customer then some entries else s.maps s.data_at c)
unfolding update
update-current customer entries s c = elim (Bool-cases (holds s.data_at s.readers)) [
  | inl shared ↦ rw (shared, (==_iff s.next s.next).1 refl) refl
  | inr alone ↦ rw (alone, (==_iff s.data_at s.data_at).1 refl) refl
]

-- After an update, while one query at least holds the current map, the rest of `Query` gives the new
-- entries of the customer, and for every other customer what it gave before. The map that the query holds
-- gives the old ones: a query that began before the update does not answer from its own copy.
pub query-update :
    {s : CustomerData} (customer stock : ℕ) (entries : EntryList)
    → Reach s
    → holds s.data_at s.readers ≡ true
    → (query (update customer entries s) customer stock ≡ find_entry entries stock)
      × ((c : ℕ) → c ≢ customer → query (update customer entries s) c stock ≡ query s c stock)
      × (lookup ((update customer entries s).maps s.data_at) customer stock
          ≡ query s customer stock)
unfolding query
query-update {s} customer stock entries reached held = (
  ap (λ o. found o stock)
      (update-current customer entries s customer
        ∙ ap (λ b. if b then some entries else s.maps s.data_at customer)
            ((==_iff customer customer).1 refl)),
  (λ c differ.
      let other : (c == customer) ≡ false = ground arith in
      ap (λ o. found o stock)
        (update-current customer entries s c
          ∙ ap (λ b. if b then some entries else s.maps s.data_at c) other)),
  ap (λ m. lookup m customer stock)
      (update-kept customer entries s s.data_at (Reach-IsMade reached) held),
)
