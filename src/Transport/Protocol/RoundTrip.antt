-- ===== src/Transport/Protocol/RoundTrip.antt =====
-- Parsing what the encoders of protocol.rs write.
use zenoh_plugin_lcm.Base.{
  ℕ, ◌+◌, ◌<◌, ◌^◌, ◌≡◌, ◌≢◌, refl, arith, Bytes, [], ◌∷◌, ◌++◌, Option, none, some, ok, slice_from,
  slice_to, true, length, All, u32_from-to, u16_from-to, length-append, take-append, take, drop,
  slice_to_ok, slice_from_ok, ap, ◌∙◌, append_assoc,
}
use native.Mathlib.Nat.{suc-add}
use zenoh_plugin_lcm.Base.Str.{Str, from_utf8, is_utf8}
use zenoh_plugin_lcm.Transport.Protocol.{
  Packet, Fragment, short, fragment, null_position, parse_short_message, parse_fragment,
  parse_fragment_body, parse_datagram, encode_short_message, encode_fragment, channel_bytes,
}

-- A `str` that can stand before a null terminator: UTF-8 without a null byte.
pub record IsChannel (s : Str) : Type 0 where
  pub utf8 : is_utf8 s ≡ true
  pub no_null : All (λ b. b ≢ 0) s

null_position-append :
    (s rest : Bytes) → All (λ b. b ≢ 0) s → null_position (s ++ (0 ∷ rest)) ≡ some (length s)
unfolding null_position
null_position-append [] rest h = refl
null_position-append (b ∷ s) rest h = ground (arith, null_position-append s rest h.1)

abbrev short_of : ℕ → Str → Bytes → Packet
short_of seq channel payload =
    short (record { sequence_number = seq; channel = channel; payload = payload })

take_name : (s rest : Bytes) → take (length s) (s ++ (0 ∷ rest)) ≡ s
take_name s rest = take-append s (0 ∷ rest)

drop_name : (s rest : Bytes) → drop (length s + 1) (s ++ (0 ∷ rest)) ≡ rest
drop_name [] rest = refl
drop_name (b ∷ s) rest = rw suc-add (drop_name s rest)

-- The terminator search, the cut and the check of the name, on a name that was written.
slice_to_name : (s rest : Bytes) → slice_to (s ++ (0 ∷ rest)) (length s) ≡ ok s
slice_to_name s rest =
    slice_to_ok (s ++ (0 ∷ rest)) (length s) (omega (arith, length-append s (0 ∷ rest)))
    ∙ ap ok (take_name s rest)

slice_from_name : (s rest : Bytes) → slice_from (s ++ (0 ∷ rest)) (length s + 1) ≡ ok rest
slice_from_name s rest =
    slice_from_ok (s ++ (0 ∷ rest)) (length s + 1) (omega (arith, length-append s (0 ∷ rest)))
    ∙ ap ok (drop_name s rest)

from_utf8_channel : {s : Str} → IsChannel s → from_utf8 s ≡ some s
unfolding from_utf8
from_utf8_channel c = rw c.utf8

-- A short message that `encode_short_message` writes is parsed back, whatever the payload is.
pub parse-encode_short_message :
    (seq : ℕ) (channel : Str) (payload : Bytes)
    → seq < 2 ^ 32
    → IsChannel channel
    → parse_datagram (encode_short_message seq channel payload)
      ≡ ok (some (short_of seq channel payload))
unfolding parse_datagram parse_short_message encode_short_message
parse-encode_short_message seq channel payload h c = ground (
  arith,
  null_position-append channel payload c.no_null,
  slice_to_name channel payload,
  from_utf8_channel c,
  slice_from_name channel payload,
  u32_from-to seq h,
)

-- The encoding of a fragment, all fields in the order of the arguments of `encode_fragment`.
abbrev pub encoding : Fragment → Bytes
encoding f =
    encode_fragment f.sequence_number f.payload_size f.fragment_offset f.fragment_number
      f.n_fragments f.channel f.payload

-- The fields fit their words.
pub record FitsWords (f : Fragment) : Type 0 where
  pub sequence_number : f.sequence_number < 2 ^ 32
  pub payload_size : f.payload_size < 2 ^ 32
  pub fragment_offset : f.fragment_offset < 2 ^ 32
  pub fragment_number : f.fragment_number < 2 ^ 16
  pub n_fragments : f.n_fragments < 2 ^ 16

-- The first fragment, and no other, carries a channel.
abbrev pub IsNamed : ℕ → Option Str → Type 0
IsNamed number none = number ≢ 0
IsNamed number (some channel) = (number ≡ 0) × IsChannel channel

parse_first_body :
    (channel : Str) (payload : Bytes)
    → IsChannel channel
    → parse_fragment_body 0 (channel ++ (0 ∷ payload)) ≡ ok (some (some channel, payload))
unfolding parse_fragment_body
parse_first_body channel payload c = ground (
  arith,
  null_position-append channel payload c.no_null,
  slice_to_name channel payload,
  from_utf8_channel c,
  slice_from_name channel payload,
)

parse_body :
    (number : ℕ) (channel : Option Str) (payload : Bytes)
    → IsNamed number channel
    → parse_fragment_body number (channel_bytes channel ++ payload) ≡ ok (some (channel, payload))
parse_body number none payload h = unfold parse_fragment_body in ground arith
parse_body number (some channel) payload (e, c) =
    rw (e, append_assoc channel (0 ∷ []) payload) (parse_first_body channel payload c)

-- A fragment that `encode_fragment` writes is parsed back, first or later, if its fields fit their
-- words, and it carries a channel exactly when it is the first.
pub parse-encode_fragment :
    (f : Fragment)
    → FitsWords f
    → IsNamed f.fragment_number f.channel
    → parse_datagram (encoding f) ≡ ok (some (fragment f))
unfolding parse_datagram parse_fragment encode_fragment
parse-encode_fragment f w n = ground (
  arith,
  u32_from-to f.sequence_number w.sequence_number,
  u32_from-to f.payload_size w.payload_size,
  u32_from-to f.fragment_offset w.fragment_offset,
  u16_from-to f.fragment_number w.fragment_number,
  u16_from-to f.n_fragments w.n_fragments,
  parse_body f.fragment_number f.channel f.payload n,
)
