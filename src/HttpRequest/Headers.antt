-- ===== src/HttpRequest/Headers.antt =====
-- The headers of a request, test_epoll/lib/http_request.c.
use native.Mathlib.Decide.{ℕ_discrete}
use cpyu_ze.Base.{
  subst, ==_iff, ◌≢◌, ℕ, zero, suc, ◌+◌, ◌≤◌, ◌<◌, ◌≡◌, refl, sym, ap, ◌∙◌, true, false, Option,
  none, some, List, [], ◌∷◌, ◌++◌, map, arith, ◌==◌, if◌then◌else◌, Bool-cases, inl, inr, length,
  take, drop, set, get_elem?, drop-cons, get_elem?-some, take-suc, take-set_ge, get_elem?-set_self,
  length-set, lt→ltb, ltb-false, ℤ, pos, eq_ℤ, eq_ℤ→eq, ok, halt, out_of_bounds, int_limit,
  int_add-ok, codes, strncmp, c_string, Avoids,
}
use mathlib.Core.List.{map-append}
use Prim.Native.String.{String}
use cpyu_ze.Buffer.{starts_with}
use cpyu_ze.HttpRequest.{
  RequestHeader, HttpRequest, http_request_add_header, http_request_get_header, get_from,
}

-- A header by its two strings.
abbrev pub Pair : Type 0
Pair = List ℕ × List ℕ

abbrev pub as_strings : RequestHeader → Pair
as_strings h = (c_string h.key, c_string h.value)

-- The headers that a request has, as strings, in the order in which they were added.
abbrev pub stored : HttpRequest → List Pair
stored r = map as_strings (take r.request_headers_number r.header_block)

-- The request after one more header.
pub record HasAdded (r : HttpRequest) (key value : List ℕ) (r' : HttpRequest) : Type 0 where
  pub stored_is : stored r' ≡ stored r ++ (c_string key, c_string value) ∷ []
  pub number_is : r'.request_headers_number ≡ r.request_headers_number + 1
  pub room_same : length r'.header_block ≡ length r.header_block
  pub state_same : r'.current_state ≡ r.current_state
  pub method_same : r'.method ≡ r.method
  pub url_same : r'.url ≡ r.url
  pub version_same : r'.version ≡ r.version

-- While the array has room, a header is added behind the others.
pub add_header-HasAdded :
    (r : HttpRequest) (key value : List ℕ)
    → r.request_headers_number < length r.header_block
    → length r.header_block < int_limit
    → (r' : HttpRequest) × (http_request_add_header r key value ≡ ok r') × HasAdded r key value r'
unfolding http_request_add_header
add_header-HasAdded r key value room small =
    let n : ℕ = r.request_headers_number in
    let h : RequestHeader = record { key = key; value = value } in
    let block : List RequestHeader = set r.header_block n h in
    let at : get_elem? block n ≡ some h = get_elem?-set_self r.header_block n h room in
    let one : n + 1 ≡ suc n = omega arith in
    let grown : take (n + 1) block ≡ take n r.header_block ++ h ∷ [] = rw one (
      take-suc block n at
      ∙ ap (λ l. l ++ h ∷ []) (take-set_ge r.header_block n n h (omega arith))) in
    (
      record r { header_block = block; request_headers_number = n + 1 },
      rw (lt→ltb _ _ room, int_add-ok n 1 (omega arith)),
      record {
        stored_is = rw grown (map-append as_strings (take n r.header_block) (h ∷ []));
        number_is = refl;
        room_same = length-set r.header_block n h;
        state_same = refl;
        method_same = refl;
        url_same = refl;
        version_same = refl;
      },
    )

-- A header beyond the array is written behind its block: nothing in the source tests for room.
pub add_header_overflow :
    (r : HttpRequest) (key value : List ℕ)
    → length r.header_block ≤ r.request_headers_number
    → http_request_add_header r key value ≡ halt out_of_bounds
unfolding http_request_add_header
add_header_overflow r key value full = rw (ltb-false _ _ full)

-- The first header whose key begins with `key`.
pub find_prefix : List ℕ → List RequestHeader → Option (List ℕ)
find_prefix key [] = none
find_prefix key (h ∷ hs) =
    if starts_with key (c_string h.key) then some h.value else find_prefix key hs

-- A block that holds a string: it has a NUL.
abbrev pub IsString : List ℕ → Type 0
IsString [] = ⊥
IsString (c ∷ cs) = if c == 0 then Unit {0} else IsString cs

abbrev pub AllStrings : List RequestHeader → Type 0
AllStrings [] = Unit
AllStrings (h ∷ hs) = IsString h.key × AllStrings hs

module _ (diff : ℕ → ℕ → ℤ) (tells : (x y : ℕ) → diff x y ≡ pos 0 → x ≡ y) where
  strncmp_nothing : (s : List ℕ) → strncmp diff s (0 ∷ []) 0 ≡ ok (pos 0)
  unfolding strncmp
  strncmp_nothing [] = refl
  strncmp_nothing (c ∷ s) = refl

  not_zero : (x y : ℕ) → x ≢ y → eq_ℤ (diff x y) (pos 0) ≡ false
  not_zero x y differ = elim (Bool-cases (eq_ℤ (diff x y) (pos 0))) [
    | inl e ↦ absurd (differ (tells x y (eq_ℤ→eq (diff x y) (pos 0) e)))
    | inr e ↦ e
  ]

  -- `strncmp(s, key, strlen(key)) == 0` says that the string begins with the key.
  pub strncmp-starts_with :
      (s key : List ℕ)
      → IsString s
      → Avoids 0 key
      → (z : ℤ) × (strncmp diff s (key ++ 0 ∷ []) (length key) ≡ ok z)
        × (eq_ℤ z (pos 0) ≡ starts_with key (c_string s))
  unfolding strncmp starts_with
  strncmp-starts_with s [] is z = (pos 0, strncmp_nothing s, refl)
  strncmp-starts_with [] (k ∷ key) is z = absurd is
  strncmp-starts_with (c ∷ s) (k ∷ key) is (ne, z) = elim (ℕ_discrete c k) [
    | yes e ↦
        (let same : (c == k) ≡ true = (==_iff c k).1 e in
          let back : (k == c) ≡ true = (==_iff k c).1 (sym e) in
          let text : (c == 0) ≡ false = ground arith in
          let (order, done, tells_it) = strncmp-starts_with s key (rw text at is) z in
          (order, rw (same, text) done, rw (text, back) tells_it))
    | no differ ↦
        (let other : (c == k) ≡ false = ground arith in
          (diff c k, rw other, not_zero c k differ ∙ sym (not_prefix c k differ)))
  ]
    where
      not_prefix : (x y : ℕ) → x ≢ y → starts_with (y ∷ key) (c_string (x ∷ s)) ≡ false
      not_prefix x y differ = ground arith

  get_from-find_prefix :
      (rounds i : ℕ) (hs : List RequestHeader) (key : String)
      → i + rounds ≤ length hs
      → AllStrings (take rounds (drop i hs))
      → Avoids 0 (codes key)
      → get_from diff rounds i hs key ≡ ok (find_prefix (codes key) (take rounds (drop i hs)))
  unfolding get_from find_prefix
  get_from-find_prefix zero i hs key room strings z = refl
  get_from-find_prefix (suc rounds) i hs key room strings z =
      let (h, got) = get_elem?-some hs i (omega arith) in
      let next : drop i hs ≡ h ∷ drop (i + 1) hs =
        (let one : i + 1 ≡ suc i = omega arith in rw one (drop-cons hs i got)) in
      let parts : IsString h.key × AllStrings (take rounds (drop (i + 1) hs)) =
        subst (λ l. AllStrings (take (suc rounds) l)) next strings in
      let (order, done, tells_it) = strncmp-starts_with h.key (codes key) parts.0 z in
      let later = get_from-find_prefix rounds (i + 1) hs key (omega arith) parts.1 z in
      rw (got, next, done, tells_it)
        (elim (Bool-cases (starts_with (codes key) (c_string h.key))) [
          | inl hit ↦ rw hit
          | inr miss ↦ rw miss later
        ])

  -- Where all headers lie in the array and are strings, and the sign of `strncmp` tells bytes
  -- apart, `http_request_get_header` returns the value of the first header whose key begins with
  -- the text asked for, and NULL only if there is none.
  pub get_header-find_prefix :
      (r : HttpRequest) (key : String)
      → r.request_headers_number ≤ length r.header_block
      → AllStrings (take r.request_headers_number r.header_block)
      → Avoids 0 (codes key)
      → http_request_get_header diff r key
        ≡ ok (find_prefix (codes key) (take r.request_headers_number r.header_block))
  unfolding http_request_get_header
  get_header-find_prefix r key room strings z =
      get_from-find_prefix r.request_headers_number 0 r.header_block key (omega arith) strings z
