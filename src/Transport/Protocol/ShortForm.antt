-- ===== src/Transport/Protocol/ShortForm.antt =====
-- Parsing a datagram that begins with the magic number of a short message.
use zenoh_plugin_lcm.Base.{
  ℕ, ◌+◌, ◌≡◌, inl, inr, arith, Bytes, ◌∷◌, ◌++◌, none, some, ok, true, All, u32_to-from, take,
  drop, IsByte, Option-cases, u32_from_be_bytes, ap₂,
}
use zenoh_plugin_lcm.Base.Str.{from_utf8, is_utf8}
use zenoh_plugin_lcm.Transport.Protocol.{
  short, null_position, parse_short_message, encode_short_message, magic_short,
}
use zenoh_plugin_lcm.Transport.Protocol.Names.{
  slice_to_null, slice_from_null, IsNameThen-null, from_utf8_cases,
}
use zenoh_plugin_lcm.Transport.Protocol.Wire.{Parses, word_bytes}

module _ (a b c d e f g h : ℕ) (rest : Bytes) where
  abbrev pub datagram : Bytes
  datagram = a ∷ b ∷ c ∷ d ∷ e ∷ f ∷ g ∷ h ∷ rest

  short_none : null_position rest ≡ none → parse_short_message datagram ≡ ok none
  unfolding parse_short_message
  short_none n = ground arith

  module _ (i : ℕ) (n : null_position rest ≡ some i) where
    short_bad_name : from_utf8 (take i rest) ≡ none → parse_short_message datagram ≡ ok none
    unfolding parse_short_message
    short_bad_name u = ground (arith, slice_to_null rest i n)

    short_good_name :
        from_utf8 (take i rest) ≡ some (take i rest)
        → parse_short_message datagram
          ≡ ok (
              some (
                short (record {
                  sequence_number = u32_from_be_bytes e f g h;
                  channel = take i rest;
                  payload = drop (i + 1) rest;
                })))
    unfolding parse_short_message
    short_good_name u = ground (arith, slice_to_null rest i n, slice_from_null rest i n)

  short_wire :
      (i : ℕ) (n : null_position rest ≡ some i)
      → is_utf8 (take i rest) ≡ true
      → All IsByte datagram
      → u32_from_be_bytes a b c d ≡ magic_short
      → encode_short_message (u32_from_be_bytes e f g h) (take i rest) (drop (i + 1) rest)
        ≡ datagram
  unfolding encode_short_message
  short_wire i n u (pa, (pb, (pc, (pd, (pe, (pf, (pg, (ph, _)))))))) m =
      ap₂ ◌++◌ (word_bytes a b c d magic_short m (pa, pb, pc, pd))
        (ap₂ ◌++◌ (u32_to-from e f g h (pe, pf, pg, ph)) (IsNameThen-null rest i n u).spelled)

  pub short_Parses :
      All IsByte datagram
      → u32_from_be_bytes a b c d ≡ magic_short
      → Parses datagram (parse_short_message datagram)
  short_Parses bytes m = elim (Option-cases (null_position rest)) [
    | inl n ↦ (none, short_none n, tt)
    | inr (i, n) ↦ elim (from_utf8_cases (take i rest)) [
      | inr (_, u) ↦ (none, short_bad_name i n u, tt)
      | inl (u, v) ↦ (
        some _,
        short_good_name i n v,
        ((omega arith, (IsNameThen-null rest i n u).is_channel), short_wire i n u bytes m),
      )
    ]
  ]
