-- ===== src/CustomerData.antt =====
-- for_cpp_basis/include/t_shared_ptr.h: `CustomerData`, a map that is copied on write while a query
-- holds it.
-- Names are numbers. The maps that were made stand in a memory by address, and a `shared_ptr` is an
-- address; `readers` are the pointers that running queries hold in `data`, so that `_data.unique()`
-- says that none of them is `_data`. Each section under `_lock` is one step.
pub mod Snapshots
use cpyu_ze.Base.{
  ℕ, ◌+◌, ◌≡◌, Bool, false, Option, none, some, List, [], ◌∷◌, ◌++◌, ◌==◌, if◌then◌else◌, ◌||◌, ℤ,
  negsuc,
}

-- `EntryList`: stocks and their numbers.
abbrev pub EntryList : Type 0
EntryList = List (ℕ × ℤ)

abbrev pub Map : Type 0
Map = ℕ → Option EntryList

-- `FindEntry`: the first entry of the stock, or -1.
unfoldable pub find_entry : EntryList → ℕ → ℤ
find_entry [] stock = negsuc 0
find_entry ((name, value) ∷ entries) stock =
    if name == stock then value else find_entry entries stock

-- What `find` gave: the stock of its entries, or -1 at the end of the map.
abbrev pub found : Option EntryList → ℕ → ℤ
found none stock = negsuc 0
found (some entries) stock = find_entry entries stock

abbrev pub lookup : Map → ℕ → ℕ → ℤ
lookup m customer stock = found (m customer) stock

-- `m[customer] = entries`
abbrev pub set_entries : ℕ → EntryList → Map → Map
set_entries customer entries m c = if c == customer then some entries else m c

pub record CustomerData : Type 0 where
  pub maps : ℕ → Map
  pub next : ℕ
  pub data_at : ℕ
  pub readers : List ℕ

abbrev pub holds : ℕ → List ℕ → Bool
holds p [] = false
holds p (r ∷ readers) = (r == p) || holds p readers

-- The memory with another map at an address.
abbrev pub write_map : ℕ → Map → (ℕ → Map) → ℕ → Map
write_map p m maps q = if q == p then m else maps q

-- `CustomerData()`
abbrev pub customer_data : CustomerData
customer_data = record { maps = λ p c. none; next = 1; data_at = 0; readers = [] }

-- `GetData` at the start of a query.
abbrev pub get_data : CustomerData → CustomerData
get_data s = record s { readers = s.data_at ∷ s.readers }

-- The rest of `Query`, which looks into `_data` and not into its own `data`.
unfoldable pub query : CustomerData → ℕ → ℕ → ℤ
query s customer stock = lookup (s.maps s.data_at) customer stock

-- `Update`
unfoldable pub update : ℕ → EntryList → CustomerData → CustomerData
update customer entries s =
    let changed = set_entries customer entries (s.maps s.data_at) in
    if holds s.data_at s.readers
    then record s { maps = write_map s.next changed s.maps; next = s.next + 1; data_at = s.next }
    else record s { maps = write_map s.data_at changed s.maps }

pub data Step (s : CustomerData) : CustomerData → Type 0 where
  begins : Step s (get_data s)
  ends :
      (before after : List ℕ) (p : ℕ)
      → s.readers ≡ before ++ p ∷ after
      → Step s (record s { readers = before ++ after })
  updates : (customer : ℕ) (entries : EntryList) → Step s (update customer entries s)

pub data Reach : CustomerData → Type 0 where
  begin : Reach customer_data
  later : {s t : CustomerData} → Reach s → Step s t → Reach t
