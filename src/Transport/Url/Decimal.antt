-- ===== src/Transport/Url/Decimal.antt =====
-- Numbers in decimal notation, and their parse.
use zenoh_plugin_lcm.Base.{
  ℕ, zero, suc, ◌+◌, ◌/◌, ◌%◌, ◌≤◌, ◌<◌, ◌≡◌, refl, ◌∙◌, arith, true, false, [], ◌∷◌, some, length,
  All, ltb,
}
use zenoh_plugin_lcm.Base.Str.{Str}
use zenoh_plugin_lcm.Transport.Url.{digits_below, parse_unsigned, parse_octet}

abbrev pub IsDigit : ℕ → Type 0
IsDigit b = (b'0' ≤ b) × (b ≤ b'9')

-- The digits of a number in front of a text; more rounds than the number are enough.
unfoldable emit : ℕ → ℕ → Str → Str
emit zero n out = out
emit (suc fuel) n out = elim (ltb n 10) [
  | true ↦ (b'0' + n) ∷ out
  | false ↦ emit fuel (n / 10) ((b'0' + n % 10) ∷ out)
]

unfoldable pub decimal : ℕ → Str
unfolding emit
decimal n = emit (suc (suc (suc n))) n []

digits_below-emit :
    (bound fuel n : ℕ) (out : Str)
    → n < bound
    → n < fuel
    → digits_below bound 0 (emit fuel n out) ≡ digits_below bound n out
unfolding digits_below emit
digits_below-emit bound zero n out h k = absurd (omega arith)
digits_below-emit bound (suc fuel) n out h k =
    ground (arith, digits_below-emit bound fuel (n / 10) ((b'0' + n % 10) ∷ out))

emit-IsDigit : (fuel n : ℕ) (out : Str) → All IsDigit out → All IsDigit (emit fuel n out)
unfolding emit
emit-IsDigit zero n out h = h
emit-IsDigit (suc fuel) n out h = ground (arith, emit-IsDigit fuel (n / 10) ((b'0' + n % 10) ∷ out))

pub decimal-IsDigit : (n : ℕ) → All IsDigit (decimal n)
unfolding decimal
decimal-IsDigit n = emit-IsDigit (suc (suc (suc n))) n [] tt

length-emit : (fuel n : ℕ) (out : Str) → length out ≤ length (emit fuel n out)
unfolding emit
length-emit zero n out = omega arith
length-emit (suc fuel) n out = ground (arith, length-emit fuel (n / 10) ((b'0' + n % 10) ∷ out))

pub length-decimal : (n : ℕ) → 0 < length (decimal n)
unfolding decimal emit
length-decimal n = ground (arith, length-emit (suc (suc n)) (n / 10) ((b'0' + n % 10) ∷ []))

parse_unsigned-digits :
    (bound : ℕ) (s : Str)
    → 0 < length s
    → All IsDigit s
    → parse_unsigned bound s ≡ digits_below bound 0 s
unfolding parse_unsigned
parse_unsigned-digits bound [] h k = absurd (omega arith)
parse_unsigned-digits bound (b ∷ []) h k = refl
parse_unsigned-digits bound (b ∷ c ∷ s) h k = ground arith

-- A number below the bound is read back from its decimal notation.
pub parse_unsigned-decimal : (bound n : ℕ) → n < bound → parse_unsigned bound (decimal n) ≡ some n
unfolding decimal digits_below
parse_unsigned-decimal bound n h =
    parse_unsigned-digits bound (decimal n) (length-decimal n) (decimal-IsDigit n)
    ∙ digits_below-emit bound (suc (suc (suc n))) n [] h (omega arith)

pub parse_octet-decimal : (n : ℕ) → n < 256 → parse_octet (decimal n) ≡ some n
unfolding parse_octet decimal emit digits_below
parse_octet-decimal n h = ground arith
