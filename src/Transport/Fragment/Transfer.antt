-- ===== src/Transport/Fragment/Transfer.antt =====
-- The abstract view of reassembly: a message cut into chunks, and the set of chunk numbers that have
-- arrived.
use zenoh_plugin_lcm.Base.{
  ℕ, zero, suc, ◌≤◌, ◌≡◌, Bytes, Bool, true, false, List, [], ◌∷◌, Option, none, some, length, set,
  replicate, flatten, if◌then◌else◌, ◌==◌, ◌⊎◌,
}
use zenoh_plugin_lcm.Base.Str.{Str}
use zenoh_plugin_lcm.Transport.Types.{LcmMessage}
use zenoh_plugin_lcm.Transport.Protocol.{Fragment}
use zenoh_plugin_lcm.Transport.Fragment.{FragmentKey, FragmentSet, FragmentReassembler, lookup}
use zenoh_plugin_lcm.Transport.Fragment.Accept.{count}
use zenoh_plugin_lcm.Transport.Fragment.Render.{chunk_at, offset_of, render}

pub record Transfer : Type 0 where
  pub key : FragmentKey
  pub channel : Str
  pub chunks : List Bytes

abbrev pub total : Transfer → ℕ
total t = length t.chunks

abbrev pub content : Transfer → Bytes
content t = flatten t.chunks

abbrev pub channel_for : Str → ℕ → Option Str
channel_for channel zero = some channel
channel_for channel (suc i) = none

-- Fragment `i` of the transfer.
abbrev pub fragment_of : Transfer → ℕ → Fragment
fragment_of t i = record {
  sequence_number = t.key.1;
  payload_size = length (content t);
  fragment_offset = offset_of t.chunks i;
  fragment_number = i;
  n_fragments = total t;
  channel = channel_for t.channel i;
  payload = chunk_at t.chunks i;
}

abbrev pub whole : Transfer → LcmMessage
whole t = record { channel = t.channel; sequence_number = t.key.1; payload = content t }

-- One arrival at the abstract machine: the number is marked, and the last one yields the message and
-- starts again.
abbrev pub is_complete : Transfer → List Bool → Bool
is_complete t mask = count mask == total t

abbrev pub emitted : Transfer → List Bool → Option LcmMessage
emitted t mask = if is_complete t mask then some (whole t) else none

abbrev pub none_seen : Transfer → List Bool
none_seen t = replicate (total t) false

abbrev pub kept : Transfer → List Bool → List Bool
kept t mask = if is_complete t mask then none_seen t else mask

-- The messages that a sequence of arrivals yields.
unfoldable pub deliveries : Transfer → List Bool → List ℕ → List LcmMessage
deliveries t mask [] = []
deliveries t mask (i ∷ is) =
    let mask' = set mask i true in
    let rest = deliveries t (kept t mask') is in
    if is_complete t mask' then whole t ∷ rest else rest

-- The channel is known once the first fragment has arrived.
abbrev pub seen_channel : Transfer → List Bool → Str
seen_channel t [] = []
seen_channel t (true ∷ mask) = t.channel
seen_channel t (false ∷ mask) = []

-- A set that holds the marked chunks, created at `start` or later.
pub record Refines (t : Transfer) (start : ℕ) (channel : Str) (mask : List Bool) (s : FragmentSet)
    : Type 0 where
  pub named : s.channel ≡ channel
  pub sized : s.payload_size ≡ length (content t)
  pub counted : s.n_fragments ≡ total t
  pub received : s.fragments_received ≡ count mask
  pub filled : s.buffer ≡ render mask t.chunks
  pub marked : s.received_mask ≡ mask
  pub recent : start ≤ s.created_at

-- The reassembler stands at the abstract state `mask` of the transfer.
abbrev pub Holds : Transfer → ℕ → List Bool → FragmentReassembler → Type 0
Holds t start mask r =
    ((lookup t.key r.pending ≡ none) × (mask ≡ none_seen t))
    ⊎ ((s : FragmentSet) × (lookup t.key r.pending ≡ some s)
        × Refines t start (seen_channel t mask) mask s)
