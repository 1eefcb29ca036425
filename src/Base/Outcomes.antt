-- ===== src/Base/Outcomes.antt =====
-- What a piece of C code comes to: a value, or the reason why there is none.
use Prim.Native.Nat.{ℕ, ◌+◌, ◌*◌, ◌^◌, ◌<◌}
use mathlib.Core.Path.{◌≡◌, refl}
use mathlib.Core.List.{List}
use mathlib.Core.Option.{Option, none, some}
use native.Mathlib.Omega.{arith}
use cpyu_ze.Base.Tests.{ltb, if◌then◌else◌}
use cpyu_ze.Base.Lists.{get_elem?}
use cpyu_ze.Base.Int.{ℤ, pos, negsuc}

-- The first four are undefined behaviour in C. `negative_index` is an index below zero, which the
-- models keep as a natural number. `assertion` is a failed `assert`, `exited` a call of `exit`, and
-- `no_fuel` a loop that has not ended in the rounds given to it.
pub data Halt : Type 0 where
  out_of_bounds null_pointer overflow bad_cast : Halt
  negative_index assertion exited no_fuel : Halt

pub data Outcome {ℓ} (A : Type ℓ) : Type ℓ where
  ok : A → Outcome A
  halt : Halt → Outcome A

infixl 5 ◌>>=◌ ◌>>◌
abbrev pub ◌>>=◌ {ℓ κ} : {A : Type ℓ} {B : Type κ} → Outcome A → (A → Outcome B) → Outcome B
ok value >>= next = next value
halt reason >>= next = halt reason

abbrev pub ◌>>◌ {ℓ} : {B : Type ℓ} → Outcome (Unit {0}) → Outcome B → Outcome B
first >> second = first >>= λ _. second

-- The code returns, with a value that has the property.
abbrev pub Returns {ℓ} : {A : Type ℓ} → (A → Type 0) → Outcome A → Type 0
Returns P (ok a) = P a
Returns P (halt e) = ⊥

pub Returns-bind {ℓ κ} :
    {A : Type ℓ} {B : Type κ} (P : A → Type 0) (Q : B → Type 0) (m : Outcome A) (f : A → Outcome B)
    → Returns P m
    → ((a : A) → P a → Returns Q (f a))
    → Returns Q (m >>= f)
Returns-bind P Q (ok a) f h k = k a h
Returns-bind P Q (halt e) f h k = absurd h

pub Returns-mono {ℓ} :
    {A : Type ℓ} (P Q : A → Type 0) (m : Outcome A)
    → Returns P m
    → ((a : A) → P a → Q a)
    → Returns Q m
Returns-mono P Q (ok a) h k = k a h
Returns-mono P Q (halt e) h k = absurd h

pub Returns-ok {ℓ} :
    {A : Type ℓ} {P : A → Type 0} (m : Outcome A) → Returns P m → (a : A) × (m ≡ ok a) × P a
Returns-ok (ok a) h = (a, refl, h)
Returns-ok (halt e) h = absurd h

-- The two halves of a code that returns.
pub bind_ok {ℓ κ} :
    {A : Type ℓ} {B : Type κ} (m : Outcome A) (f : A → Outcome B) (b : B)
    → (m >>= f) ≡ ok b
    → (a : A) × (m ≡ ok a) × (f a ≡ ok b)
bind_ok (ok a) f b e = (a, refl, e)
bind_ok (halt r) f b e = cc

-- 2^31, above the largest `int`.
abbrev pub int_limit : ℕ
int_limit = 2 ^ 31

-- `a + b` and `a * b` of two `int`s that are not negative.
unfoldable pub int_add : ℕ → ℕ → Outcome ℕ
int_add a b = if ltb (a + b) int_limit then ok (a + b) else halt overflow

unfoldable pub int_mul : ℕ → ℕ → Outcome ℕ
int_mul a b = if ltb (a * b) int_limit then ok (a * b) else halt overflow

pub int_add-ok : (a b : ℕ) → a + b < int_limit → int_add a b ≡ ok (a + b)
unfolding int_add
int_add-ok a b h = ground arith

pub int_mul-ok : (a b : ℕ) → a * b < int_limit → int_mul a b ≡ ok (a * b)
unfolding int_mul
int_mul-ok a b h = ground arith

-- A number that is used as an index or a size.
abbrev pub to_index : ℤ → Outcome ℕ
to_index (pos n) = ok n
to_index (negsuc n) = halt negative_index

abbrev pub or_halt {ℓ} : {A : Type ℓ} → Halt → Option A → Outcome A
or_halt e none = halt e
or_halt e (some a) = ok a

-- `a[i]`, read.
abbrev pub read_at {ℓ} : {A : Type ℓ} → List A → ℕ → Outcome A
read_at xs i = or_halt out_of_bounds (get_elem? xs i)
