-- ===== src/Base/Arrays.antt =====
-- Reading and writing one place of a list.
use Prim.Native.Nat.{ℕ, zero, suc, ◌+◌, ◌≤◌, ◌<◌}
use mathlib.Core.Path.{◌≡◌, refl, ap}
use mathlib.Core.Logic.{◌≢◌}
use mathlib.Core.List.{List, [], ◌∷◌, ◌++◌}
use mathlib.Core.Option.{none, some}
use native.Mathlib.Omega.{arith}
use cpyu_ze.Base.Lists.{length, get_elem?, set, take, drop, replicate}

module _ {ℓ} {A : Type ℓ} where
  pub get_elem?-set_self :
      (xs : List A) (i : ℕ) (v : A) → i < length xs → get_elem? (set xs i v) i ≡ some v
  get_elem?-set_self [] i v h = absurd (omega arith)
  get_elem?-set_self (x ∷ xs) zero v h = refl
  get_elem?-set_self (x ∷ xs) (suc i) v h = get_elem?-set_self xs i v (omega arith)

  pub get_elem?-set_ne :
      (xs : List A) (i j : ℕ) (v : A) → i ≢ j → get_elem? (set xs i v) j ≡ get_elem? xs j
  get_elem?-set_ne [] i j v h = refl
  get_elem?-set_ne (x ∷ xs) zero zero v h = absurd (h refl)
  get_elem?-set_ne (x ∷ xs) zero (suc j) v h = refl
  get_elem?-set_ne (x ∷ xs) (suc i) zero v h = refl
  get_elem?-set_ne (x ∷ xs) (suc i) (suc j) v h = get_elem?-set_ne xs i j v (λ e. h (ap suc e))

  pub get_elem?-some : (xs : List A) (i : ℕ) → i < length xs → (a : A) × (get_elem? xs i ≡ some a)
  get_elem?-some [] i h = absurd (omega arith)
  get_elem?-some (x ∷ xs) zero h = (x, refl)
  get_elem?-some (x ∷ xs) (suc i) h = get_elem?-some xs i (omega arith)

  pub get_elem?-none : (xs : List A) (i : ℕ) → length xs ≤ i → get_elem? xs i ≡ none
  get_elem?-none [] i h = refl
  get_elem?-none (x ∷ xs) zero h = absurd (omega arith)
  get_elem?-none (x ∷ xs) (suc i) h = get_elem?-none xs i (omega arith)

  pub get_elem?-append_left :
      (xs ys : List A) (i : ℕ) → i < length xs → get_elem? (xs ++ ys) i ≡ get_elem? xs i
  get_elem?-append_left [] ys i h = absurd (omega arith)
  get_elem?-append_left (x ∷ xs) ys zero h = refl
  get_elem?-append_left (x ∷ xs) ys (suc i) h = get_elem?-append_left xs ys i (omega arith)

  pub get_elem?-append_replicate :
      (xs : List A) (n i : ℕ) (a : A)
      → length xs ≤ i
      → i < length xs + n
      → get_elem? (xs ++ replicate n a) i ≡ some a
  get_elem?-append_replicate [] zero i a h k = absurd (omega arith)
  get_elem?-append_replicate [] (suc n) zero a h k = refl
  get_elem?-append_replicate [] (suc n) (suc i) a h k =
      get_elem?-append_replicate [] n i a (omega arith) (omega arith)
  get_elem?-append_replicate (x ∷ xs) n zero a h k = absurd (omega arith)
  get_elem?-append_replicate (x ∷ xs) n (suc i) a h k =
      get_elem?-append_replicate xs n i a (omega arith) (omega arith)

  -- Two lists that agree at every place are equal.
  pub eq_of_get_elem? : (xs ys : List A) → ((i : ℕ) → get_elem? xs i ≡ get_elem? ys i) → xs ≡ ys
  eq_of_get_elem? [] [] h = refl
  eq_of_get_elem? [] (y ∷ ys) h = cc (h 0)
  eq_of_get_elem? (x ∷ xs) [] h = cc (h 0)
  eq_of_get_elem? (x ∷ xs) (y ∷ ys) h = cc (h 0, eq_of_get_elem? xs ys (λ i. h (suc i)))

  pub drop-cons :
      (xs : List A) (i : ℕ) {a : A} → get_elem? xs i ≡ some a → drop i xs ≡ a ∷ drop (suc i) xs
  drop-cons [] i e = cc
  drop-cons (x ∷ xs) zero e = cc
  drop-cons (x ∷ xs) (suc i) e = drop-cons xs i e

  pub take-suc :
      (xs : List A) (i : ℕ) {a : A}
      → get_elem? xs i ≡ some a
      → take (suc i) xs ≡ take i xs ++ a ∷ []
  take-suc [] i e = cc
  take-suc (x ∷ xs) zero e = cc
  take-suc (x ∷ xs) (suc i) e = ap (◌∷◌ x) (take-suc xs i e)

  pub drop-set_lt : (xs : List A) (i n : ℕ) (v : A) → i < n → drop n (set xs i v) ≡ drop n xs
  drop-set_lt [] i n v h = refl
  drop-set_lt (x ∷ xs) i zero v h = absurd (omega arith)
  drop-set_lt (x ∷ xs) zero (suc n) v h = refl
  drop-set_lt (x ∷ xs) (suc i) (suc n) v h = drop-set_lt xs i n v (omega arith)

  pub take-set_ge : (xs : List A) (i n : ℕ) (v : A) → n ≤ i → take n (set xs i v) ≡ take n xs
  take-set_ge [] i n v h = refl
  take-set_ge (x ∷ xs) i zero v h = refl
  take-set_ge (x ∷ xs) zero (suc n) v h = absurd (omega arith)
  take-set_ge (x ∷ xs) (suc i) (suc n) v h = ap (◌∷◌ x) (take-set_ge xs i n v (omega arith))

  pub get_elem?_of_drop :
      (xs : List A) (i : ℕ) {a : A} {rest : List A}
      → drop i xs ≡ a ∷ rest
      → (get_elem? xs i ≡ some a) × (drop (suc i) xs ≡ rest) × (i < length xs)
  get_elem?_of_drop [] zero e = cc
  get_elem?_of_drop [] (suc i) e = cc
  get_elem?_of_drop (x ∷ xs) zero e = (cc, cc, omega arith)
  get_elem?_of_drop (x ∷ xs) (suc i) e =
      let (got, tail, lt) = get_elem?_of_drop xs i e in (got, tail, omega arith)

  pub get_elem?_of_take :
      (xs : List A) (n i : ℕ) {a : A} → get_elem? (take n xs) i ≡ some a → get_elem? xs i ≡ some a
  get_elem?_of_take [] zero i e = cc
  get_elem?_of_take [] (suc n) i e = cc
  get_elem?_of_take (x ∷ xs) zero i e = cc
  get_elem?_of_take (x ∷ xs) (suc n) zero e = e
  get_elem?_of_take (x ∷ xs) (suc n) (suc i) e = get_elem?_of_take xs n i e
