-- ===== src/Base/Str.antt =====
-- Rust's `str`: the list of its bytes, which `from_utf8` checks.
use zenoh_plugin_lcm.Base.Tests.{leb, ◌==◌, if◌then◌else◌}
use zenoh_plugin_lcm.Base.Slices.{Bytes}
use Prim.Native.Nat.{ℕ, zero, suc}
use Prim.Native.Char.{code}
use Prim.Native.String.{String}
use mathlib.Core.Bool.{Bool, true, false, ◌&&◌}
use mathlib.Core.List.{[], ◌∷◌}
use mathlib.Core.Option.{Option, none, some}

abbrev pub Str : Type 0
Str = Bytes

-- The bytes of an ASCII literal.
abbrev pub codes : String → Str
codes String.[] = []
codes (String.◌∷◌ c s) = code c ∷ codes s

abbrev pub between : ℕ → ℕ → ℕ → Bool
between lo hi b = leb lo b && leb b hi

-- What may come next: a lead byte; a byte in a range and then some continuation bytes; nothing.
pub data Utf8State : Type 0 where
  lead : Utf8State
  expect : ℕ → ℕ → ℕ → Utf8State
  malformed : Utf8State

unfoldable pub more : ℕ → Utf8State
more zero = lead
more (suc k) = expect 0x80 0xbf k

unfoldable after_byte : Utf8State → ℕ → Utf8State
unfolding more
after_byte lead b =
    if leb b 0x7f
    then lead
    else if between 0xc2 0xdf b
    then expect 0x80 0xbf 0
    else if b == 0xe0
    then expect 0xa0 0xbf 1
    else if b == 0xed
    then expect 0x80 0x9f 1
    else if between 0xe1 0xef b
    then expect 0x80 0xbf 1
    else if b == 0xf0
    then expect 0x90 0xbf 2
    else if b == 0xf4
    then expect 0x80 0x8f 2
    else if between 0xf1 0xf3 b
    then expect 0x80 0xbf 2
    else malformed
after_byte (expect lo hi k) b = if between lo hi b then more k else malformed
after_byte malformed b = malformed

unfoldable scan_utf8 : Utf8State → Bytes → Bool
unfolding after_byte
scan_utf8 lead [] = true
scan_utf8 _ [] = false
scan_utf8 s (b ∷ bs) = scan_utf8 (after_byte s b) bs

-- Well-formed UTF-8, by the table of the Unicode standard.
unfoldable pub is_utf8 : Bytes → Bool
unfolding scan_utf8
is_utf8 = scan_utf8 lead

-- `std::str::from_utf8(bytes).ok()`
unfoldable pub from_utf8 : Bytes → Option Str
unfolding is_utf8
from_utf8 bs = if is_utf8 bs then some bs else none

-- `str::strip_prefix`
unfoldable pub strip_prefix : Str → Str → Option Str
strip_prefix [] s = some s
strip_prefix (p ∷ ps) [] = none
strip_prefix (p ∷ ps) (b ∷ s) = let rest = strip_prefix ps s in if b == p then rest else none

-- The equality of two texts.
abbrev pub same_text : Str → Str → Bool
same_text [] [] = true
same_text [] (b ∷ s) = false
same_text (a ∷ r) [] = false
same_text (a ∷ r) (b ∷ s) = a == b && same_text r s
