-- ===== src/Transport/Fragment/Render.antt =====
-- A payload cut into chunks, and the buffer in which some of the chunks have arrived.
use native.Mathlib.Nat.{suc-add, zero-add, add_assoc}
use zenoh_plugin_lcm.Base.{
  ℕ, zero, suc, ◌+◌, ◌≤◌, ◌<◌, ◌≡◌, refl, arith, Bytes, Bool, true, false, List, [], ◌∷◌, ◌++◌, ap,
  ◌∙◌, length, take, drop, set, replicate, flatten, append_assoc, drop-append, length-append,
  length-replicate, replicate-add,
}
use zenoh_plugin_lcm.Transport.Fragment.Accept.{count, count-le-length, overwrite}

abbrev pub chunk_at : List Bytes → ℕ → Bytes
chunk_at [] i = []
chunk_at (c ∷ cs) zero = c
chunk_at (c ∷ cs) (suc i) = chunk_at cs i

-- Where chunk `i` begins.
abbrev pub offset_of : List Bytes → ℕ → ℕ
offset_of cs i = length (flatten (take i cs))

abbrev cell : Bool → Bytes → Bytes
cell true c = c
cell false c = replicate (length c) 0

-- The chunks that the mask marks, and zeros for the others.
unfoldable pub render : List Bool → List Bytes → Bytes
render [] cs = []
render (b ∷ mask) [] = []
render (b ∷ mask) (c ∷ cs) = cell b c ++ render mask cs

length-cell : (b : Bool) (c : Bytes) → length (cell b c) ≡ length c
length-cell true c = refl
length-cell false c = length-replicate (length c) 0

module _ {ℓ} {A : Type ℓ} where
  take_past : (xs ys : List A) (n : ℕ) → take (length xs + n) (xs ++ ys) ≡ xs ++ take n ys
  take_past [] ys n = rw zero-add
  take_past (x ∷ xs) ys n = rw (suc-add, take_past xs ys n)

  drop_past : (xs ys : List A) (n : ℕ) → drop (length xs + n) (xs ++ ys) ≡ drop n ys
  drop_past [] ys n = rw zero-add
  drop_past (x ∷ xs) ys n = rw (suc-add, drop_past xs ys n)

pub render_fresh :
    (cs : List Bytes) → render (replicate (length cs) false) cs ≡ replicate (length (flatten cs)) 0
unfolding render
render_fresh [] = refl
render_fresh (c ∷ cs) = rw (
  render_fresh cs,
  replicate-add {A = ℕ} (length c) (length (flatten cs)) 0,
  length-append c (flatten cs),
)

pub render_all :
    (mask : List Bool) (cs : List Bytes)
    → length mask ≡ length cs
    → count mask ≡ length cs
    → render mask cs ≡ flatten cs
unfolding render
render_all [] [] h k = refl
render_all [] (c ∷ cs) h k = absurd (omega arith)
render_all (b ∷ mask) [] h k = absurd (omega arith)
render_all (true ∷ mask) (c ∷ cs) h k = ap (◌++◌ c) (render_all mask cs (omega arith) (omega arith))
render_all (false ∷ mask) (c ∷ cs) h k = absurd (omega (arith, count-le-length mask))

overwrite_first : (b : Bool) (c rest : Bytes) → overwrite (cell b c ++ rest) 0 c ≡ c ++ rest
overwrite_first b c rest =
    ap (◌++◌ c) (rw (zero-add, ← length-cell b c) (drop-append (cell b c) rest))

overwrite_past :
    (xs rest : Bytes) (offset : ℕ) (chunk : Bytes)
    → overwrite (xs ++ rest) (length xs + offset) chunk ≡ xs ++ overwrite rest offset chunk
overwrite_past xs rest offset chunk = rw (
  take_past xs rest offset,
  add_assoc (length xs) offset (length chunk),
  drop_past xs rest (offset + length chunk),
  append_assoc,
)

overwrite_later :
    (b : Bool) (c rest : Bytes) (offset : ℕ) (chunk : Bytes)
    → overwrite (cell b c ++ rest) (length c + offset) chunk
      ≡ cell b c ++ overwrite rest offset chunk
overwrite_later b c rest offset chunk =
    rw (← length-cell b c) (overwrite_past (cell b c) rest offset chunk)

-- Copying chunk `i` to its place marks it.
pub overwrite-render :
    (mask : List Bool) (cs : List Bytes) (i : ℕ)
    → length mask ≡ length cs
    → i < length cs
    → overwrite (render mask cs) (offset_of cs i) (chunk_at cs i) ≡ render (set mask i true) cs
unfolding render
overwrite-render mask [] i h k = absurd (omega arith)
overwrite-render [] (c ∷ cs) i h k = absurd (omega arith)
overwrite-render (b ∷ mask) (c ∷ cs) zero h k = overwrite_first b c (render mask cs)
overwrite-render (b ∷ mask) (c ∷ cs) (suc i) h k = rw (length-append c (flatten (take i cs))) (
    overwrite_later b c (render mask cs) (offset_of cs i) (chunk_at cs i)
    ∙ ap (◌++◌ (cell b c)) (overwrite-render mask cs i (omega arith) (omega arith)))

pub chunk_fits :
    (cs : List Bytes) (i : ℕ)
    → i < length cs
    → offset_of cs i + length (chunk_at cs i) ≤ length (flatten cs)
chunk_fits [] i k = absurd (omega arith)
chunk_fits (c ∷ cs) zero k = omega (arith, length-append c (flatten cs))
chunk_fits (c ∷ cs) (suc i) k = omega (
  arith,
  length-append c (flatten cs),
  length-append c (flatten (take i cs)),
  chunk_fits cs i (omega arith),
)
