-- ===== src/Base/Text.antt =====
-- C strings: a block of bytes, read up to its first NUL.
use Prim.Native.Nat.{ℕ, zero, suc, ◌≤◌}
use Prim.Native.Char.{code}
use Prim.Native.String.{String}
use mathlib.Core.Path.{◌≡◌, refl}
use mathlib.Core.Logic.{◌≢◌}
use mathlib.Core.Bool.{◌&&◌}
use mathlib.Core.List.{List, [], ◌∷◌, ◌++◌}
use native.Mathlib.Omega.{arith}
use cpyu_ze.Base.Tests.{leb, ltb, ◌==◌, if◌then◌else◌}
use cpyu_ze.Base.Lists.{length, take, drop, set}
use cpyu_ze.Base.Int.{ℤ, pos}
use cpyu_ze.Base.Outcomes.{Outcome, ok, halt, out_of_bounds}

-- The bytes of an ASCII text, and its block with the NUL that a literal has.
abbrev pub codes : String → List ℕ
codes String.[] = []
codes (String.◌∷◌ c s) = code c ∷ codes s

abbrev pub literal : String → List ℕ
literal s = codes s ++ 0 ∷ []

-- The string that a block holds.
abbrev pub c_string : List ℕ → List ℕ
c_string [] = []
c_string (c ∷ cs) = if c == 0 then [] else c ∷ c_string cs

-- No byte of a list is `x`.
abbrev pub Avoids : ℕ → List ℕ → Type 0
Avoids x [] = Unit
Avoids x (c ∷ cs) = (c ≢ x) × Avoids x cs

-- `strncmp(a, b, n)`. The standard fixes only the sign of a result that is not 0: what the library
-- returns at the first two bytes that differ is `diff`.
unfoldable pub strncmp : (ℕ → ℕ → ℤ) → List ℕ → List ℕ → ℕ → Outcome ℤ
strncmp diff a b zero = ok (pos 0)
strncmp diff [] b (suc n) = halt out_of_bounds
strncmp diff (x ∷ a) [] (suc n) = halt out_of_bounds
strncmp diff (x ∷ a) (y ∷ b) (suc n) =
    let rest = strncmp diff a b n in
    if x == y then (if x == 0 then ok (pos 0) else rest) else ok (diff x y)

-- The `n` bytes that `strncpy` writes: those of the source up to a NUL, then zeroes.
unfoldable pub padded : ℕ → List ℕ → List ℕ
padded zero src = []
padded (suc n) [] = 0 ∷ padded n []
padded (suc n) (c ∷ cs) = if c == 0 then 0 ∷ padded n [] else c ∷ padded n cs

-- `strncpy(dst, src, n)`, where `src` holds all that may be read.
unfoldable pub strncpy : List ℕ → List ℕ → ℕ → Outcome (List ℕ)
strncpy dst src n =
    if leb n (length dst) && leb n (length src)
    then ok (padded n src ++ drop n dst)
    else halt out_of_bounds

-- `a[i] = v`
unfoldable pub write_at : List ℕ → ℕ → ℕ → Outcome (List ℕ)
write_at a i v = if ltb i (length a) then ok (set a i v) else halt out_of_bounds

pub padded-take : (n : ℕ) (src : List ℕ) → n ≤ length src → Avoids 0 src → padded n src ≡ take n src
unfolding padded
padded-take zero src h z = refl
padded-take (suc n) [] h z = absurd (omega arith)
padded-take (suc n) (c ∷ cs) h z = ground (arith, padded-take n cs)

pub c_string-append : (text behind : List ℕ) → Avoids 0 text → c_string (text ++ 0 ∷ behind) ≡ text
c_string-append [] behind z = refl
c_string-append (c ∷ cs) behind z = ground (arith, c_string-append cs behind)
