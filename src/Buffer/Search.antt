-- ===== src/Buffer/Search.antt =====
-- buffer_find_CRLF of test_epoll/lib/buffer.c: the search is sound, complete and finds the first.
use cpyu_ze.Base.{
  refl, Avoids, ◌∙◌, ◌++◌, ◌==◌, ℕ, zero, suc, ◌+◌, ◌-◌, ◌≤◌, ◌<◌, ◌≡◌, ap, true, false, Option,
  none, some, List, [], ◌∷◌, arith, inl, inr, length, drop, leb, Bool-cases, ok, sub_ℕ, pos,
  take-drop-slice, le→leb,
}
use cpyu_ze.Buffer.{
  Buffer, starts_with, memmem_from, memmem, crlf, readable_bytes, buffer_find_crlf,
  buffer_readable_size,
}
use cpyu_ze.Buffer.Contents.{contents, IsBuffer}

-- `pattern` stands at place `i` of `text`.
abbrev pub IsAt : List ℕ → List ℕ → ℕ → Type 0
IsAt pattern text i = starts_with pattern (drop i text) ≡ true

abbrev pub NotAt : List ℕ → List ℕ → ℕ → Type 0
NotAt pattern text i = starts_with pattern (drop i text) ≡ false

-- `r` is the first place of `pattern` in `text`, counted from `at`; `none` if there is none.
abbrev pub FirstFrom : ℕ → List ℕ → List ℕ → Option ℕ → Type 0
FirstFrom at pattern text none = (i : ℕ) → NotAt pattern text i
FirstFrom at pattern text (some j) =
    (i : ℕ) × (j ≡ at + i)
    × (i ≤ length text)
    × IsAt pattern text i
    × ((k : ℕ) → k < i → NotAt pattern text k)

FirstFrom-cons :
    (at : ℕ) (pattern : List ℕ) (c : ℕ) (cs : List ℕ) (r : Option ℕ)
    → NotAt pattern (c ∷ cs) 0
    → FirstFrom (at + 1) pattern cs r
    → FirstFrom at pattern (c ∷ cs) r
FirstFrom-cons at pattern c cs none miss h = elim [ zero ↦ miss | suc i ↦ h i ]
FirstFrom-cons at pattern c cs (some j) miss (i, e, le, hit, before) = (
  suc i,
  omega arith,
  omega arith,
  hit,
  elim [ zero ↦ λ _. miss | suc k ↦ λ lt. before k (omega arith) ],
)

memmem_from_first :
    (at : ℕ) (pattern text : List ℕ) → FirstFrom at pattern text (memmem_from at pattern text)
unfolding memmem_from
memmem_from_first at pattern [] = elim (Bool-cases (starts_with pattern [])) [
  | inl hit ↦ rw hit (0, omega arith, omega arith, hit, λ k lt. absurd (omega arith))
  | inr miss ↦ rw miss (elim [ zero ↦ miss | suc i ↦ miss ])
]
memmem_from_first at pattern (c ∷ cs) = elim (Bool-cases (starts_with pattern (c ∷ cs))) [
  | inl hit ↦ rw hit (0, omega arith, omega arith, hit, λ k lt. absurd (omega arith))
  | inr miss ↦
      rw miss (FirstFrom-cons at pattern c cs _ miss (memmem_from_first (at + 1) pattern cs))
]

pub memmem_first : (pattern text : List ℕ) → FirstFrom 0 pattern text (memmem text pattern)
unfolding memmem
memmem_first pattern text = memmem_from_first 0 pattern text

pub readable_bytes-contents : (b : Buffer) → IsBuffer b → readable_bytes b ≡ ok (contents b)
unfolding readable_bytes buffer_readable_size
readable_bytes-contents b v =
    let n : ℕ = b.write_index - b.read_index in
    let e : sub_ℕ b.write_index b.read_index ≡ pos n = ground (arith, v.read_le) in
    let fits : leb (b.read_index + n) (length b.bytes) ≡ true =
      le→leb _ _ (omega (arith, v.read_le, v.write_le, v.block_is)) in
    rw (e, fits) (ap ok (take-drop-slice b.read_index b.write_index b.bytes))

-- In a well-formed buffer, `buffer_find_CRLF` returns the first CRLF of the contents, and NULL
-- only if there is none.
pub buffer_find_crlf_first :
    (b : Buffer)
    → IsBuffer b
    → (r : Option ℕ) × (buffer_find_crlf b ≡ ok r) × FirstFrom 0 crlf (contents b) r
unfolding buffer_find_crlf
buffer_find_crlf_first b v =
    (memmem (contents b) crlf, rw (readable_bytes-contents b v), memmem_first crlf (contents b))

memmem_from_found :
    (at x : ℕ) (ps a rest : List ℕ)
    → Avoids x a
    → starts_with (x ∷ ps) rest ≡ true
    → memmem_from at (x ∷ ps) (a ++ rest) ≡ some (at + length a)
unfolding memmem_from
memmem_from_found at x ps [] [] z h = rw h (ap some (omega arith))
memmem_from_found at x ps [] (c ∷ cs) z h = rw h (ap some (omega arith))
memmem_from_found at x ps (c ∷ cs) rest (ne, z) h =
    let miss : starts_with (x ∷ ps) (c ∷ (cs ++ rest)) ≡ false =
      unfold starts_with in ground arith in
    rw (miss, memmem_from_found (at + 1) x ps cs rest z h) (ap some (omega arith))

-- A pattern whose first byte is not in the text before it is found there.
pub memmem_found :
    (x : ℕ) (ps a rest : List ℕ)
    → Avoids x a
    → starts_with (x ∷ ps) rest ≡ true
    → memmem (a ++ rest) (x ∷ ps) ≡ some (length a)
unfolding memmem
memmem_found x ps a rest z h = memmem_from_found 0 x ps a rest z h ∙ ap some (omega arith)

memmem_from_absent : (at x : ℕ) (ps a : List ℕ) → Avoids x a → memmem_from at (x ∷ ps) a ≡ none
unfolding memmem_from starts_with
memmem_from_absent at x ps [] z = refl
memmem_from_absent at x ps (c ∷ cs) (ne, z) =
    let miss : (x == c) ≡ false = ground arith in rw (miss, memmem_from_absent (at + 1) x ps cs z)

pub memmem_absent : (x : ℕ) (ps a : List ℕ) → Avoids x a → memmem a (x ∷ ps) ≡ none
unfolding memmem
memmem_absent x ps a z = memmem_from_absent 0 x ps a z
