-- ===== src/Transport/Protocol/Canonical.antt =====
-- Parsing an arbitrary datagram: no panic, and nothing accepted but what the encoders write.
use zenoh_plugin_lcm.Base.{
  ℕ, ◌≡◌, ◌≢◌, ◌↔◌, inl, inr, refl, sym, arith, Bytes, ◌∷◌, none, some, ok, panic, ltb, ◌==◌,
  length, All, IsByte, split_four, Bool-cases, ltb→le, u32_from_be_bytes, subst, ==_iff,
}
use zenoh_plugin_lcm.Transport.Protocol.{
  Packet, short, fragment, parse_short_message, parse_fragment, parse_datagram, magic_short,
  magic_fragment,
}
use zenoh_plugin_lcm.Transport.Protocol.RoundTrip.{
  parse-encode_short_message, parse-encode_fragment,
}
use zenoh_plugin_lcm.Transport.Protocol.Wire.{Parses, Parsed, wire, IsWire}
use zenoh_plugin_lcm.Transport.Protocol.ShortForm.{short_Parses}
use zenoh_plugin_lcm.Transport.Protocol.FragmentForm.{header_then, fragment_Parses}

short_cases :
    (buf : Bytes) (a b c d : ℕ) (rest : Bytes)
    → buf ≡ a ∷ b ∷ c ∷ d ∷ rest
    → All IsByte buf
    → u32_from_be_bytes a b c d ≡ magic_short
    → Parses buf (parse_short_message buf)
short_cases buf a b c d rest e bytes magic = elim (Bool-cases (ltb (length rest) 4)) [
  | inl small ↦ (none, unfold parse_short_message in ground arith, tt)
  | inr large ↦
      let (f, g, h, i, rest', e') = split_four rest (ltb→le _ _ large) in
      let whole : buf ≡ a ∷ b ∷ c ∷ d ∷ f ∷ g ∷ h ∷ i ∷ rest' = rw (← e') e in
      subst (λ x. Parses x (parse_short_message x)) (sym whole)
        (short_Parses a b c d f g h i rest' (subst (All IsByte) whole bytes) magic)
]

fragment_at :
    (buf : Bytes) (a b c d f g h i j k l m n o p q r s t u : ℕ) (rest : Bytes)
    → buf ≡ header_then a b c d f g h i j k l m n o p q r s t u rest
    → All IsByte buf
    → u32_from_be_bytes a b c d ≡ magic_fragment
    → Parses buf (parse_fragment buf)
fragment_at buf a b c d f g h i j k l m n o p q r s t u rest e bytes magic =
    subst (λ x. Parses x (parse_fragment x)) (sym e)
      (fragment_Parses a b c d f g h i j k l m n o p q r s t u rest (subst (All IsByte) e bytes)
        magic)

fragment_cases :
    (buf : Bytes) (a b c d : ℕ) (rest : Bytes)
    → buf ≡ a ∷ b ∷ c ∷ d ∷ rest
    → All IsByte buf
    → u32_from_be_bytes a b c d ≡ magic_fragment
    → Parses buf (parse_fragment buf)
fragment_cases buf a b c d rest e bytes magic = elim (Bool-cases (ltb (length rest) 16)) [
  | inl small ↦ (none, unfold parse_fragment in ground arith, tt)
  | inr large ↦
      let (f, g, h, i, r1, e1) = split_four rest (ground arith) in
      let (j, k, l, m, r2, e2) = split_four r1 (ground arith) in
      let (n, o, p, q, r3, e3) = split_four r2 (ground arith) in
      let (r, s, t, u, r4, e4) = split_four r3 (ground arith) in
      fragment_at buf a b c d f g h i j k l m n o p q r s t u r4 (rw (← e4, ← e3, ← e2, ← e1) e)
        bytes magic
]

long_Parses :
    (a b c d : ℕ) (rest : Bytes)
    → let buf : Bytes = a ∷ b ∷ c ∷ d ∷ rest in All IsByte buf → Parses buf (parse_datagram buf)
long_Parses a b c d rest bytes = elim (Bool-cases (u32_from_be_bytes a b c d == magic_short)) [
  | inl is_short ↦
      let (o, e, w) =
        short_cases (a ∷ b ∷ c ∷ d ∷ rest) a b c d rest refl bytes ((==_iff _ _).0 is_short) in
      (o, unfold parse_datagram in ground arith, w)
  | inr not_short ↦ elim (Bool-cases (u32_from_be_bytes a b c d == magic_fragment)) [
    | inl is_fragment ↦
        let (o, e, w) =
          fragment_cases (a ∷ b ∷ c ∷ d ∷ rest) a b c d rest refl bytes
            ((==_iff _ _).0 is_fragment) in
        (o, unfold parse_datagram in ground arith, w)
    | inr not_fragment ↦ (none, unfold parse_datagram in ground arith, tt)
  ]
]

pub parse_datagram-Parses : (buf : Bytes) → All IsByte buf → Parses buf (parse_datagram buf)
parse_datagram-Parses buf bytes = elim (Bool-cases (ltb (length buf) 4)) [
  | inl small ↦ (none, unfold parse_datagram in ground arith, tt)
  | inr large ↦
      let (a, b, c, d, rest, e) = split_four buf (ltb→le _ _ large) in
      subst (λ x. Parses x (parse_datagram x)) (sym e)
        (long_Parses a b c d rest (subst (All IsByte) e bytes))
]

-- `parse_datagram` returns on every datagram, of any length and content: no index or slice that it
-- takes is out of range.
pub parse_datagram-ne-panic : (buf : Bytes) → All IsByte buf → parse_datagram buf ≢ panic
parse_datagram-ne-panic buf bytes e = let (o, r, w) = parse_datagram-Parses buf bytes in cc

parse_wire : (p : Packet) → IsWire p → parse_datagram (wire p) ≡ ok (some p)
parse_wire (short m) (h, c) = parse-encode_short_message m.sequence_number m.channel m.payload h c
parse_wire (fragment f) (w, n) = parse-encode_fragment f w n

-- A list of bytes, as a datagram, parses as the packet `p` exactly when `p` has fields in range and
-- a proper channel, and the datagram is, byte for byte, what the encoder writes for `p`.
pub parse_datagram_iff :
    (buf : Bytes) (p : Packet)
    → All IsByte buf
    → (parse_datagram buf ≡ ok (some p)) ↔ (IsWire p × (wire p ≡ buf))
parse_datagram_iff buf p bytes = (
  λ e.
      let (o, r, w) = parse_datagram-Parses buf bytes in
      let same : o ≡ some p = cc in subst (Parsed buf) same w,
  λ (w, e). subst (λ b. parse_datagram b ≡ ok (some p)) e (parse_wire p w),
)
