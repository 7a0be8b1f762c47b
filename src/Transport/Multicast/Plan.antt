-- ===== src/Transport/Multicast/Plan.antt =====
-- How `send_fragmented` cuts a payload, without the loop.
use Prim.Native.Nat.{min}
use native.Mathlib.Nat.{div-add-mod, mod-lt, mul_comm}
use native.Mathlib.Omega.{arith}
use zenoh_plugin_lcm.Base.{
  ℕ, zero, suc, ◌+◌, ◌-◌, ◌*◌, ◌/◌, ◌≤◌, ◌<◌, ◌≡◌, refl, ap, ◌∙◌, Bytes, List, [], ◌∷◌, ◌++◌,
  length, take, drop, flatten, length-drop, take-append-drop, take_all,
}

-- `n` pieces of `cap` bytes; the last ones may be shorter.
unfoldable pub pieces : ℕ → ℕ → Bytes → List Bytes
pieces zero cap bytes = []
pieces (suc n) cap bytes = take cap bytes ∷ pieces n cap (drop cap bytes)

-- A first piece and `n` more.
abbrev pub cut : ℕ → ℕ → ℕ → Bytes → List Bytes
cut first cap n bytes = take first bytes ∷ pieces n cap (drop first bytes)

pub length-pieces : (n cap : ℕ) (bytes : Bytes) → length (pieces n cap bytes) ≡ n
unfolding pieces
length-pieces zero cap bytes = refl
length-pieces (suc n) cap bytes = ap suc (length-pieces n cap (drop cap bytes))

-- Enough pieces hold everything.
flatten-pieces :
    (n cap : ℕ) (bytes : Bytes) → length bytes ≤ n * cap → flatten (pieces n cap bytes) ≡ bytes
unfolding pieces
flatten-pieces zero cap [] h = refl
flatten-pieces zero cap (b ∷ bytes) h = absurd (omega arith)
flatten-pieces (suc n) cap bytes h =
    ap (◌++◌ (take cap bytes))
      (flatten-pieces n cap (drop cap bytes) (omega (arith, length-drop cap bytes)))
    ∙ take-append-drop cap bytes

pub flatten-cut :
    (first cap n : ℕ) (bytes : Bytes)
    → length bytes - first ≤ n * cap
    → flatten (cut first cap n bytes) ≡ bytes
flatten-cut first cap n bytes h =
    ap (◌++◌ (take first bytes))
      (flatten-pieces n cap (drop first bytes) (omega (arith, length-drop first bytes)))
    ∙ take-append-drop first bytes

-- The division that rounds up gives enough pieces, and not one too many.
pub div_enough : (a cap : ℕ) → 0 < cap → a ≤ (a + (cap - 1)) / cap * cap
div_enough a cap h = omega (
  arith,
  div-add-mod (a + (cap - 1)) cap,
  mod-lt (a + (cap - 1)) h,
  mul_comm cap ((a + (cap - 1)) / cap),
)

pub take-min : (n : ℕ) (xs : Bytes) → take (min n (length xs)) xs ≡ take n xs
take-min zero xs = ap (λ (k : ℕ). take k xs) (zero_min (length xs))
  where
    zero_min : (m : ℕ) → min zero m ≡ zero
    zero_min m = omega arith
take-min (suc n) [] = take_all _ [] (omega arith)
take-min (suc n) (x ∷ xs) =
    ap (λ (k : ℕ). take k (x ∷ xs)) (suc_min n (length xs)) ∙ ap (◌∷◌ x) (take-min n xs)
  where
    suc_min : (m k : ℕ) → min (suc m) (suc k) ≡ suc (min m k)
    suc_min m k = omega arith
