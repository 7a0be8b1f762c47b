-- ===== src/Base/Slices.antt =====
-- Big-endian words, and lists that are known to have a first few elements.
use Prim.Native.Nat.{ℕ, ◌+◌, ◌*◌, ◌/◌, ◌%◌, ◌^◌, ◌≤◌, ◌<◌}
use mathlib.Core.Path.{◌≡◌, refl}
use mathlib.Core.List.{List, [], ◌∷◌}
use native.Mathlib.Omega.{arith}
use zenoh_plugin_lcm.Base.Lists.{length}

abbrev pub Bytes : Type 0
Bytes = List ℕ

abbrev pub IsByte : ℕ → Type 0
IsByte b = b < 256

-- `u32::from_be_bytes` and `u16::from_be_bytes`
abbrev pub u32_from_be_bytes : ℕ → ℕ → ℕ → ℕ → ℕ
u32_from_be_bytes a b c d = ((a * 256 + b) * 256 + c) * 256 + d

abbrev pub u16_from_be_bytes : ℕ → ℕ → ℕ
u16_from_be_bytes a b = a * 256 + b

-- `u32::to_be_bytes` and `u16::to_be_bytes`
abbrev pub u32_to_be_bytes : ℕ → Bytes
u32_to_be_bytes n = (n / 16777216 % 256) ∷ (n / 65536 % 256) ∷ (n / 256 % 256) ∷ (n % 256) ∷ []

abbrev pub u16_to_be_bytes : ℕ → Bytes
u16_to_be_bytes n = (n / 256 % 256) ∷ (n % 256) ∷ []

pub u32_from-to :
    (n : ℕ)
    → n < 2 ^ 32
    → u32_from_be_bytes (n / 16777216 % 256) (n / 65536 % 256) (n / 256 % 256) (n % 256) ≡ n
u32_from-to n h = omega arith

pub u16_from-to : (n : ℕ) → n < 2 ^ 16 → u16_from_be_bytes (n / 256 % 256) (n % 256) ≡ n
u16_from-to n h = omega arith

pub u32_to-from :
    (a b c d : ℕ)
    → IsByte a × IsByte b × IsByte c × IsByte d
    → u32_to_be_bytes (u32_from_be_bytes a b c d) ≡ a ∷ b ∷ c ∷ d ∷ []
u32_to-from a b c d h = ground arith

pub u16_to-from :
    (a b : ℕ) → IsByte a × IsByte b → u16_to_be_bytes (u16_from_be_bytes a b) ≡ a ∷ b ∷ []
u16_to-from a b h = ground arith

module _ {ℓ} {A : Type ℓ} where
  -- A list of four elements or more, taken apart.
  pub split_four :
      (xs : List A)
      → 4 ≤ length xs
      → (a : A) × (b : A) × (c : A) × (d : A) × (rest : List A) × (xs ≡ a ∷ b ∷ c ∷ d ∷ rest)
  split_four [] h = absurd (omega arith)
  split_four (a ∷ []) h = absurd (omega arith)
  split_four (a ∷ b ∷ []) h = absurd (omega arith)
  split_four (a ∷ b ∷ c ∷ []) h = absurd (omega arith)
  split_four (a ∷ b ∷ c ∷ d ∷ rest) h = (a, b, c, d, rest, refl)
