-- ===== src/Transport/Protocol/FragmentForm.antt =====
-- Parsing a datagram that begins with the magic number of a fragment.
use zenoh_plugin_lcm.Base.{
  ℕ, zero, suc, ◌+◌, ◌≡◌, inl, inr, refl, arith, Bytes, [], ◌∷◌, ◌++◌, Option, none, some, Run, ok,
  All, u32_to-from, u16_to-from, take, drop, ◌∙◌, append_assoc, IsByte, Option-cases,
  u32_from_be_bytes, u16_from_be_bytes, ap₂,
}
use zenoh_plugin_lcm.Base.Str.{Str, from_utf8}
use zenoh_plugin_lcm.Transport.Protocol.{
  Fragment, fragment, null_position, parse_fragment, parse_fragment_body, encode_fragment,
  channel_bytes, magic_fragment,
}
use zenoh_plugin_lcm.Transport.Protocol.RoundTrip.{IsNamed, FitsWords, encoding}
use zenoh_plugin_lcm.Transport.Protocol.Names.{
  slice_to_null, slice_from_null, IsNameThen-null, from_utf8_cases,
}
use zenoh_plugin_lcm.Transport.Protocol.Wire.{Parses, word_bytes}

-- What the parser makes of the bytes behind a fragment's header.
abbrev BodyParsed : ℕ → Bytes → Option (Option Str × Bytes) → Type 0
BodyParsed number rest none = Unit
BodyParsed number rest (some (channel, payload)) =
    IsNamed number channel × (channel_bytes channel ++ payload ≡ rest)

abbrev BodyParses : ℕ → Bytes → Run (Option (Option Str × Bytes)) → Type 0
BodyParses number rest r = (o : Option (Option Str × Bytes)) × (r ≡ ok o) × BodyParsed number rest o

module _ (rest : Bytes) where
  first_none : null_position rest ≡ none → parse_fragment_body 0 rest ≡ ok none
  unfolding parse_fragment_body
  first_none n = ground arith

  module _ (i : ℕ) (n : null_position rest ≡ some i) where
    first_bad_name : from_utf8 (take i rest) ≡ none → parse_fragment_body 0 rest ≡ ok none
    unfolding parse_fragment_body
    first_bad_name u = ground (arith, slice_to_null rest i n)

    first_good_name :
        from_utf8 (take i rest) ≡ some (take i rest)
        → parse_fragment_body 0 rest ≡ ok (some (some (take i rest), drop (i + 1) rest))
    unfolding parse_fragment_body
    first_good_name u = ground (arith, slice_to_null rest i n, slice_from_null rest i n)

  first_BodyParses : BodyParses 0 rest (parse_fragment_body 0 rest)
  first_BodyParses = elim (Option-cases (null_position rest)) [
    | inl n ↦ (none, first_none n, tt)
    | inr (i, n) ↦ elim (from_utf8_cases (take i rest)) [
      | inr (_, u) ↦ (none, first_bad_name i n u, tt)
      | inl (u, v) ↦ (
        some (some (take i rest), drop (i + 1) rest),
        first_good_name i n v,
        (
          (refl, (IsNameThen-null rest i n u).is_channel),
          append_assoc (take i rest) (0 ∷ []) (drop (i + 1) rest)
              ∙ (IsNameThen-null rest i n u).spelled,
        ),
      )
    ]
  ]

body_BodyParses :
    (number : ℕ) (rest : Bytes) → BodyParses number rest (parse_fragment_body number rest)
body_BodyParses zero rest = first_BodyParses rest
body_BodyParses (suc number) rest =
    (some (none, rest), unfold parse_fragment_body in ground arith, (omega arith, refl))

-- The words of a fragment's header, with the bytes behind it.
module _ (a b c d e f g h i j k l m n o p q r s t : ℕ) (rest : Bytes) where
  abbrev pub header_then : Bytes
  header_then = a ∷ b ∷ c ∷ d ∷ e ∷ f ∷ g ∷ h ∷ i ∷ j ∷ k ∷ l ∷ m ∷ n ∷ o ∷ p ∷ q ∷ r ∷ s ∷ t ∷ rest

  abbrev read_as : Option Str → Bytes → Fragment
  read_as channel payload = record {
    sequence_number = u32_from_be_bytes e f g h;
    payload_size = u32_from_be_bytes i j k l;
    fragment_offset = u32_from_be_bytes m n o p;
    fragment_number = u16_from_be_bytes q r;
    n_fragments = u16_from_be_bytes s t;
    channel = channel;
    payload = payload;
  }

  read_none :
      parse_fragment_body (u16_from_be_bytes q r) rest ≡ ok none
      → parse_fragment header_then ≡ ok none
  unfolding parse_fragment
  read_none e = ground arith

  read_some :
      (channel : Option Str) (payload : Bytes)
      → parse_fragment_body (u16_from_be_bytes q r) rest ≡ ok (some (channel, payload))
      → parse_fragment header_then ≡ ok (some (fragment (read_as channel payload)))
  unfolding parse_fragment
  read_some channel payload e = ground arith

  module _ (bytes : All IsByte header_then) where
    FitsWords-read_as :
        (channel : Option Str) (payload : Bytes) → FitsWords (read_as channel payload)
    FitsWords-read_as channel payload = omega arith

    encoding-read_as :
        (channel : Option Str) (payload : Bytes)
        → u32_from_be_bytes a b c d ≡ magic_fragment
        → channel_bytes channel ++ payload ≡ rest
        → encoding (read_as channel payload) ≡ header_then
    unfolding encode_fragment
    encoding-read_as channel payload magic body =
        ap₂ ◌++◌ (word_bytes a b c d magic_fragment magic (omega arith)) (
          ap₂ ◌++◌ (u32_to-from e f g h (omega arith)) (
            ap₂ ◌++◌ (u32_to-from i j k l (omega arith)) (
              ap₂ ◌++◌ (u32_to-from m n o p (omega arith)) (
                ap₂ ◌++◌ (u16_to-from q r (omega arith))
                  (ap₂ ◌++◌ (u16_to-from s t (omega arith)) body)))))

    pub fragment_Parses :
        u32_from_be_bytes a b c d ≡ magic_fragment → Parses header_then (parse_fragment header_then)
    fragment_Parses magic =
        let (body, z, w) = body_BodyParses (u16_from_be_bytes q r) rest in from_body body z w
      where
        from_body :
            (body : Option (Option Str × Bytes))
            → parse_fragment_body (u16_from_be_bytes q r) rest ≡ ok body
            → BodyParsed (u16_from_be_bytes q r) rest body
            → Parses header_then (parse_fragment header_then)
        from_body none z w = (none, read_none z, tt)
        from_body (some (channel, payload)) z (named, spelled) = (
          some (fragment (read_as channel payload)),
          read_some channel payload z,
          (
            (FitsWords-read_as channel payload, named),
            encoding-read_as channel payload magic spelled,
          ),
        )
