-- ===== src/Tests.antt =====
-- Concrete parameters and values for running the models of test_epoll/lib.
pub mod Buffers
pub mod Polls
pub mod Loops
pub mod Requests
pub mod Reads
pub mod Connections
pub mod Pools
pub mod Epolls
pub mod Servers
pub mod Responses
pub mod Threads
pub mod Sessions
use cpyu_ze.Base.{
  Avoids, ◌&&◌, not, ℕ, ◌+◌, ◌-◌, ◌≤◌, ◌≡◌, refl, sym, ap, ◌∙◌, Bool, true, none, some, List, [],
  ◌∷◌, ◌++◌, arith, length, take, length-take, length-append, length-replicate, take-append,
  take-length, take_all, eq_ℤ, ◌==◌, replicate, ℤ, pos, sub_ℕ,
}
use cpyu_ze.Buffer.{Allocator, IsRealloc, block}
use cpyu_ze.Buffer.Socket.{NeverFails}
use cpyu_ze.HttpServer.Tokens.{GivesBlocks, GivesExact}

-- An allocator with a zero byte to spare, which always has memory.
abbrev pub roomy : Allocator
roomy = record {
  malloc = λ n. some (replicate (n + 1) 0);
  realloc = λ old n. some (take n (old ++ replicate n 0));
}

-- An allocator that gives just what is asked for, and never a larger block for an old one.
abbrev pub tight : Allocator
tight = record { malloc = λ n. some (replicate n 0); realloc = λ old n. none }

pub roomy-IsRealloc : IsRealloc roomy
roomy-IsRealloc = record {
  sized = λ old n e.
      ap length (sym (ap block e))
      ∙ omega (
        arith,
        length-take n (old ++ replicate n 0),
        length-append old (replicate n 0),
        length-replicate {A = ℕ} n 0,
      );
  keeps = λ old n small e. ap (take (length old)) (sym (ap block e)) ∙ kept old n small;
}
  where
    kept :
        (old : List ℕ) (n : ℕ)
        → length old ≤ n
        → take (length old) (take n (old ++ replicate n 0)) ≡ old
    kept old n small =
        rw (take-append n old (replicate n 0), take_all n old small)
          (take-length old (take (n - length old) (replicate n 0)))

pub roomy-NeverFails : NeverFails roomy
roomy-NeverFails old n small = (take n (old ++ replicate n 0), refl)

pub roomy-GivesBlocks : GivesBlocks roomy
roomy-GivesBlocks n = (replicate (n + 1) 0, refl, omega (arith, length-replicate {A = ℕ} (n + 1) 0))

pub tight-GivesExact : GivesExact tight
tight-GivesExact n p e = ap length (sym (ap block e)) ∙ length-replicate {A = ℕ} n 0

-- The difference of two bytes, as `strncmp` of the tests returns it.
abbrev pub diff : ℕ → ℕ → ℤ
diff x y = sub_ℕ x y

pub diff_tells : (x y : ℕ) → diff x y ≡ pos 0 → x ≡ y
diff_tells x y e =
    let zero_there : eq_ℤ (sub_ℕ x y) (pos 0) ≡ true = ap (λ z. eq_ℤ z (pos 0)) e in ground arith

-- Does no byte have this value?
abbrev pub avoids : ℕ → List ℕ → Bool
avoids x [] = true
avoids x (c ∷ cs) = not (c == x) && avoids x cs

pub avoids_lem : (x : ℕ) (cs : List ℕ) → avoids x cs ≡ true → Avoids x cs
avoids_lem x [] e = tt
avoids_lem x (c ∷ cs) e = (ground arith, avoids_lem x cs (ground arith))
