-- ===== src/HttpServer/Tokens.antt =====
-- The copies that test_epoll/lib/http_server.c makes of the parts of a line.
use cpyu_ze.Base.{
  ◌⊎◌, inl, inr, Bool-cases, take-length, ℕ, zero, suc, ◌+◌, ◌≤◌, ◌<◌, ◌≡◌, refl, sym, ap, ◌∙◌,
  true, false, some, List, [], ◌∷◌, ◌++◌, arith, ltb, length, take, drop, set, length-append,
  length-take, length-drop, ok, halt, out_of_bounds, le→leb, lt→ltb, ltb-false, strncpy, write_at,
  padded-take, c_string, c_string-append, Avoids,
}
use cpyu_ze.Buffer.{Allocator}
use cpyu_ze.HttpServer.{copy_token, copy_field}

-- `malloc` gives a block of at least the size asked for, with any bytes in it.
abbrev pub GivesBlocks : Allocator → Type 0
GivesBlocks mem = (n : ℕ) → (p : List ℕ) × (mem.malloc n ≡ some p) × (n ≤ length p)

-- A block is never larger than what was asked for, which is all that a program may use of it.
abbrev pub GivesExact : Allocator → Type 0
GivesExact mem = (n : ℕ) (p : List ℕ) → mem.malloc n ≡ some p → length p ≡ n

-- Some block is just as large as what was asked for.
abbrev pub HasTight : Allocator → Type 0
HasTight mem = (n : ℕ) × (p : List ℕ) × (mem.malloc n ≡ some p) × (length p ≡ n)

pub Avoids-take : (x n : ℕ) (xs : List ℕ) → Avoids x xs → Avoids x (take n xs)
Avoids-take x zero xs z = tt
Avoids-take x (suc n) [] z = tt
Avoids-take x (suc n) (c ∷ cs) z = (z.0, Avoids-take x n cs z.1)

strncpy-ok :
    (dst src : List ℕ) (n : ℕ)
    → n ≤ length dst
    → n ≤ length src
    → Avoids 0 src
    → strncpy dst src n ≡ ok (take n src ++ drop n dst)
unfolding strncpy
strncpy-ok dst src n h k z =
    rw (le→leb n (length dst) h, le→leb n (length src) k, padded-take n src k z)

set-at_length :
    (a : List ℕ) (b : List ℕ) (c v n : ℕ) → n ≡ length a → set (a ++ c ∷ b) n v ≡ a ++ v ∷ b
set-at_length [] b c v zero e = refl
set-at_length [] b c v (suc n) e = absurd (omega arith)
set-at_length (x ∷ a) b c v zero e = absurd (omega arith)
set-at_length (x ∷ a) b c v (suc n) e = ap (◌∷◌ x) (set-at_length a b c v n (omega arith))

take-set : (a : List ℕ) (n i v : ℕ) → n ≤ i → take n (set a i v) ≡ take n a
take-set a zero i v h = refl
take-set [] (suc n) i v h = refl
take-set (x ∷ a) (suc n) zero v h = absurd (omega (arith, h))
take-set (x ∷ a) (suc n) (suc i) v h = ap (◌∷◌ x) (take-set a n i v (omega (arith, h)))

drop_nonempty : (n : ℕ) (p : List ℕ) → n < length p → (c : ℕ) × (b : List ℕ) × (drop n p ≡ c ∷ b)
drop_nonempty n [] h = absurd (omega arith)
drop_nonempty zero (c ∷ p) h = (c, p, refl)
drop_nonempty (suc n) (c ∷ p) h = drop_nonempty n p (omega arith)

module _ (mem : Allocator) where
  -- A key or a value is copied as it stands, whatever was in the block.
  pub copy_field-c_string :
      GivesBlocks mem
      → (src : List ℕ) (n : ℕ) → n ≤ length src
      → Avoids 0 src
      → (s : List ℕ) × (copy_field mem src n ≡ ok s) × (c_string s ≡ take n src)
  unfolding copy_field write_at
  copy_field-c_string gives src n h z =
      let (p, got, size) = gives (n + 1) in
      let (c, b, e) = drop_nonempty n p (omega arith) in
      let len : length (take n src) ≡ n = omega (arith, length-take n src) in
      let copied : strncpy p src n ≡ ok (take n src ++ c ∷ b) =
        strncpy-ok p src n (omega arith) h z ∙ ap (λ l. ok (take n src ++ l)) e in
      let room : ltb n (length (take n src ++ c ∷ b)) ≡ true =
        lt→ltb _ _ (omega (arith, len, length-append (take n src) (c ∷ b))) in
      (
        take n src ++ 0 ∷ b,
        rw (got, copied, room) (ap ok (set-at_length (take n src) b c 0 n (sym len))),
        c_string-append (take n src) b (Avoids-take 0 n src z),
      )

  -- For a part of the status line the NUL goes behind the block, which then has just the size asked for, or,
  -- if the block is larger, one place behind the part, with a byte between them that nothing has written.
  pub copy_token_cases :
      GivesBlocks mem
      → (src : List ℕ) (n : ℕ) → n ≤ length src
      → Avoids 0 src
      → ((copy_token mem src n ≡ halt out_of_bounds) × HasTight mem)
        ⊎ ((s : List ℕ) × (copy_token mem src n ≡ ok s) × (take n s ≡ take n src))
  unfolding copy_token write_at
  copy_token_cases gives src n h z =
      let (p, got, size) = gives (n + 1) in
      let copy : List ℕ = take n src ++ drop n p in
      let copied : strncpy p src n ≡ ok copy = strncpy-ok p src n (omega arith) h z in
      let len : length (take n src) ≡ n = omega (arith, length-take n src) in
      let kept : take n copy ≡ take n src =
        ap (λ m. take m copy) (sym len) ∙ take-length (take n src) (drop n p) in
      elim (Bool-cases (ltb (n + 1) (length copy))) [
        | inr full ↦ inl (
          rw (got, copied, full),
          (
            n + 1,
            p,
            got,
            ground (arith, length-append (take n src) (drop n p), length-drop n p, len, size),
          ),
        )
        | inl room ↦ inr (
          set copy (n + 1) 0,
          rw (got, copied, room),
          take-set copy n (n + 1) 0 (omega arith) ∙ kept,
        )
      ]

  -- With blocks of just the size asked for, the NUL is written behind the block.
  pub copy_token_overflow :
      GivesExact mem
      → (src p : List ℕ) (n : ℕ) → n ≤ length src
      → Avoids 0 src
      → mem.malloc (n + 1) ≡ some p
      → copy_token mem src n ≡ halt out_of_bounds
  unfolding copy_token write_at
  copy_token_overflow exact src p n h z got =
      let size : length p ≡ n + 1 = exact (n + 1) p got in
      let full : ltb (n + 1) (length (take n src ++ drop n p)) ≡ false = ltb-false _ _ (
        omega (
          arith,
          size,
          length-append (take n src) (drop n p),
          length-take n src,
          length-drop n p,
        )) in
      rw (got, strncpy-ok p src n (omega arith) h z, full)
