-- ===== src/Transport/Protocol.antt =====
-- lcm-transport/src/protocol.rs: datagrams to packets and back. A byte slice is a list of numbers;
-- a `str` is the list of its UTF-8 bytes. A parse returns `ok none` for Rust's `None`, and `panic`
-- stands for an index or a slice out of range.
pub mod RoundTrip
pub mod Names
pub mod Wire
pub mod ShortForm
pub mod FragmentForm
pub mod Canonical
use zenoh_plugin_lcm.Base.{
  ℕ, zero, suc, ◌+◌, Bytes, List, [], ◌∷◌, ◌++◌, Option, none, some, Run, ok, panic, ◌>>=◌,
  try_with, index, slice_from, slice_to, ltb, ◌==◌, if◌then◌else◌, length, u32_from_be_bytes,
  u16_from_be_bytes, u32_to_be_bytes, u16_to_be_bytes,
}
use zenoh_plugin_lcm.Base.Str.{Str, from_utf8}

abbrev pub magic_short : ℕ
magic_short = 0x4c433032

abbrev pub magic_fragment : ℕ
magic_fragment = 0x4c433033

abbrev short_header_size : ℕ
short_header_size = 4 + 4

abbrev pub fragment_header_size : ℕ
fragment_header_size = 20

pub record ShortMessage : Type 0 where
  pub sequence_number : ℕ
  pub channel : Str
  pub payload : Bytes

pub record Fragment : Type 0 where
  pub sequence_number : ℕ
  pub payload_size : ℕ
  pub fragment_offset : ℕ
  pub fragment_number : ℕ
  pub n_fragments : ℕ
  pub channel : Option Str
  pub payload : Bytes

pub data Packet : Type 0 where
  short : ShortMessage → Packet
  fragment : Fragment → Packet

-- `u32::from_be_bytes([buf[i], buf[i + 1], buf[i + 2], buf[i + 3]])`
abbrev u32_at : Bytes → ℕ → Run ℕ
u32_at buf i = do
  a ← index buf i
  b ← index buf (i + 1)
  c ← index buf (i + 2)
  d ← index buf (i + 3)
  ok (u32_from_be_bytes a b c d)

abbrev u16_at : Bytes → ℕ → Run ℕ
u16_at buf i = do a ← index buf i; b ← index buf (i + 1); ok (u16_from_be_bytes a b)

-- `iter().position(|&b| b == 0)`
unfoldable pub null_position : Bytes → Option ℕ
null_position [] = none
null_position (b ∷ bs) =
    let rest = null_position bs in
    if b == 0 then some 0 else elim rest [ none ↦ none | some i ↦ some (suc i) ]

unfoldable pub parse_short_message : Bytes → Run (Option Packet)
parse_short_message buf = if ltb (length buf) short_header_size then ok none else do
  sequence_number ← u32_at buf 4
  channel_and_data ← slice_from buf 8
  try_with (null_position channel_and_data) λ null_pos. do
    name ← slice_to channel_and_data null_pos
    try_with (from_utf8 name) λ channel. do
      payload ← slice_from channel_and_data (null_pos + 1)
      ok (
          some (
            short
              (record { sequence_number = sequence_number; channel = channel; payload = payload })))

-- The pair `(channel, data)` of a fragment, by its number.
unfoldable pub parse_fragment_body : ℕ → Bytes → Run (Option (Option Str × Bytes))
parse_fragment_body fragment_number rest =
    if fragment_number == 0
    then (try_with (null_position rest) λ null_pos. do
      name ← slice_to rest null_pos
      try_with (from_utf8 name)
          λ channel. do payload ← slice_from rest (null_pos + 1); ok (some (some channel, payload)))
    else ok (some (none, rest))

unfoldable pub parse_fragment : Bytes → Run (Option Packet)
unfolding parse_fragment_body
parse_fragment buf = if ltb (length buf) fragment_header_size then ok none else do
  sequence_number ← u32_at buf 4
  payload_size ← u32_at buf 8
  fragment_offset ← u32_at buf 12
  fragment_number ← u16_at buf 16
  n_fragments ← u16_at buf 18
  rest ← slice_from buf fragment_header_size
  body ← parse_fragment_body fragment_number rest
  try_with body λ (channel, payload). ok (
      some (
        fragment (record {
          sequence_number = sequence_number;
          payload_size = payload_size;
          fragment_offset = fragment_offset;
          fragment_number = fragment_number;
          n_fragments = n_fragments;
          channel = channel;
          payload = payload;
        })))

unfoldable pub parse_datagram : Bytes → Run (Option Packet)
parse_datagram buf = if ltb (length buf) 4 then ok none else do
  magic ← u32_at buf 0
  if magic == magic_short
      then parse_short_message buf
      else if magic == magic_fragment
      then parse_fragment buf
      else ok none

-- The encoders clear the buffer first, so its content is what they append.
unfoldable pub encode_short_message : ℕ → Str → Bytes → Bytes
encode_short_message sequence_number channel payload =
    u32_to_be_bytes magic_short ++ (u32_to_be_bytes sequence_number ++ (channel ++ (0 ∷ payload)))

abbrev pub channel_bytes : Option Str → Bytes
channel_bytes none = []
channel_bytes (some channel) = channel ++ (0 ∷ [])

unfoldable pub encode_fragment : ℕ → ℕ → ℕ → ℕ → ℕ → Option Str → Bytes → Bytes
encode_fragment sequence_number payload_size fragment_offset fragment_number n_fragments channel
      payload =
    u32_to_be_bytes magic_fragment
    ++ (u32_to_be_bytes sequence_number
        ++ (u32_to_be_bytes payload_size
            ++ (u32_to_be_bytes fragment_offset
                ++ (u16_to_be_bytes fragment_number
                    ++ (u16_to_be_bytes n_fragments ++ (channel_bytes channel ++ payload))))))
