-- ===== src/Transport/Protocol/Wire.antt =====
-- Packets and their datagrams.
use zenoh_plugin_lcm.Base.{
  ℕ, ◌<◌, ◌^◌, ◌≡◌, Bytes, [], ◌∷◌, Option, none, some, Run, ok, u32_to-from, IsByte,
  u32_from_be_bytes, u32_to_be_bytes, subst,
}
use zenoh_plugin_lcm.Transport.Protocol.{Packet, short, fragment, encode_short_message}
use zenoh_plugin_lcm.Transport.Protocol.RoundTrip.{IsChannel, IsNamed, FitsWords, encoding}

-- The datagram of a packet, and the packets that have one.
abbrev pub wire : Packet → Bytes
wire (short m) = encode_short_message m.sequence_number m.channel m.payload
wire (fragment f) = encoding f

abbrev pub IsWire : Packet → Type 0
IsWire (short m) = (m.sequence_number < 2 ^ 32) × IsChannel m.channel
IsWire (fragment f) = FitsWords f × IsNamed f.fragment_number f.channel

-- What a parse of `buf` may return: nothing, or a packet whose datagram `buf` is.
abbrev pub Parsed : Bytes → Option Packet → Type 0
Parsed buf none = Unit
Parsed buf (some p) = IsWire p × (wire p ≡ buf)

abbrev pub Parses : Bytes → Run (Option Packet) → Type 0
Parses buf r = (o : Option Packet) × (r ≡ ok o) × Parsed buf o

-- The bytes of a word whose value is known.
pub word_bytes :
    (a b c d n : ℕ)
    → u32_from_be_bytes a b c d ≡ n
    → IsByte a × IsByte b × IsByte c × IsByte d
    → u32_to_be_bytes n ≡ a ∷ b ∷ c ∷ d ∷ []
word_bytes a b c d n e h =
    subst (λ x. u32_to_be_bytes x ≡ a ∷ b ∷ c ∷ d ∷ []) e (u32_to-from a b c d h)
