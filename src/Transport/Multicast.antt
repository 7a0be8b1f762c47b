-- ===== src/Transport/Multicast.antt =====
-- lcm-transport/src/multicast.rs: sending and receiving whole messages. The socket is a parameter:
-- what it answers to the next datagram may depend on the ones it took before. `usize` has 64 bits.
pub mod Plan
pub mod Fragments
pub mod Send
pub mod Datagrams
pub mod Receive
pub mod EndToEnd
pub mod SendRecv
pub mod Overflow
pub mod Rounds
pub mod Errors
pub mod AnySize
pub mod Truncation
pub mod NullBytes
pub mod Total
use Prim.Native.Nat.{min}
use zenoh_plugin_lcm.Base.{
  ℕ, zero, suc, ◌+◌, ◌-◌, ◌*◌, ◌/◌, ◌%◌, ◌^◌, Bytes, Bool, true, false, ◌||◌, List, [], ◌∷◌, ◌++◌,
  Option, none, some, Run, ok, panic, ◌>>=◌, slice, slice_to, ltb, leb, ◌==◌, if◌then◌else◌, length,
}
use zenoh_plugin_lcm.Base.Str.{Str}
use zenoh_plugin_lcm.Transport.Types.{LcmMessage}
use zenoh_plugin_lcm.Transport.Protocol.{
  fragment_header_size, encode_short_message, encode_fragment, parse_datagram, short, fragment,
}
use zenoh_plugin_lcm.Transport.Fragment.{SocketAddr, FragmentReassembler, process}

pub data IoError : Type 0 where
  invalid_input : IoError
  os_error : ℕ → IoError

-- `io::Result`
pub data Result {ℓ} (A : Type ℓ) : Type ℓ where
  success : A → Result A
  failure : IoError → Result A

-- The answer of the socket to a datagram, after those that it has taken.
abbrev pub Network : Type 0
Network = List Bytes → Bytes → Option IoError

-- `sent` is what the socket has taken, oldest first.
pub record LcmTransport : Type 0 where
  pub fragment_mtu : ℕ
  pub sequence_counter : ℕ
  pub sent : List Bytes

-- `a.checked_add(b).map(|v| v / cap).unwrap_or(0)`
abbrev pub div_up : ℕ → ℕ → ℕ
div_up a cap = let v = a + (cap - 1) in if ltb v (2 ^ 64) then v / cap else 0

-- The room for data in the first datagram and in a later one (`saturating_sub`).
abbrev pub first_frag_capacity : ℕ → Str → ℕ
first_frag_capacity fragment_mtu channel =
    fragment_mtu - (fragment_header_size + length channel + 1)

abbrev pub subsequent_frag_capacity : ℕ → ℕ
subsequent_frag_capacity fragment_mtu = fragment_mtu - fragment_header_size

-- The number of fragments before the cast to `u16`.
abbrev pub fragment_count : ℕ → Str → Bytes → ℕ
fragment_count fragment_mtu channel payload =
    1
    + div_up (length payload - first_frag_capacity fragment_mtu channel)
        (subsequent_frag_capacity fragment_mtu)

module _ (net : Network) (fragment_mtu sequence_number : ℕ) (channel : Str) (payload : Bytes) where
  -- The chunk of a round and the channel that goes with it.
  abbrev chunk_of : ℕ → ℕ → Run (Bytes × Option Str)
  chunk_of frag_num offset =
      if frag_num == 0
      then (do
        chunk ← slice_to payload (min (first_frag_capacity fragment_mtu channel) (length payload))
        ok (chunk, some channel))
      else (do
        chunk ←
            slice payload offset
              (min (offset + subsequent_frag_capacity fragment_mtu) (length payload))
        ok (chunk, none))

  -- `for frag_num in 0..n_fragments`, with the rounds that are left. The result is what the socket has
  -- taken, with the error that ended the loop early.
  unfoldable pub send_rounds : ℕ → ℕ → ℕ → ℕ → List Bytes → Run (List Bytes × Option IoError)
  send_rounds n_fragments zero frag_num offset sent = ok (sent, none)
  send_rounds n_fragments (suc rounds) frag_num offset sent = do
    (chunk, chan) ← chunk_of frag_num offset
    let buf =
        encode_fragment sequence_number (length payload % 2 ^ 32) (offset % 2 ^ 32) frag_num
          n_fragments chan chunk
    elim (net sent buf) [
      | some e ↦ ok (sent, some e)
      | none ↦
          send_rounds n_fragments rounds (frag_num + 1) (offset + length chunk) (sent ++ (buf ∷ []))
    ]

  unfoldable pub send_fragmented : List Bytes → Run (List Bytes × Option IoError)
  send_fragmented sent =
      if first_frag_capacity fragment_mtu channel == 0 || subsequent_frag_capacity fragment_mtu == 0
      then ok (sent, some invalid_input)
      else (let n_fragments = fragment_count fragment_mtu channel payload % 2 ^ 16 in
          send_rounds n_fragments n_fragments 0 0 sent)

-- `send`: the number is taken from the counter whether or not the sending succeeds.
abbrev with_number : ℕ → Option IoError → Result ℕ
with_number seq none = success seq
with_number seq (some e) = failure e

unfoldable pub send : Network → LcmTransport → Str → Bytes → Run (LcmTransport × Result ℕ)
send net t channel payload = do
  let seq = t.sequence_counter
  let short_size = 4 + 4 + length channel + 1 + length payload
  (sent, error) ←
      if leb short_size t.fragment_mtu
      then (let buf = encode_short_message seq channel payload in
          elim (net t.sent buf) [
            | some e ↦ ok (t.sent, some e)
            | none ↦ ok (t.sent ++ (buf ∷ []), none)
          ])
      else send_fragmented net t.fragment_mtu seq channel payload t.sent
  ok (record t { sequence_counter = (seq + 1) % 2 ^ 32; sent = sent }, with_number seq error)

-- What `recv_from` returns, in turn, with the clock readings of a call of `process`.
pub data Received : Type 0 where
  datagram : Bytes → SocketAddr → ℕ → ℕ → Received
  broken : IoError → Received

-- What the loop of `recv` has come to when the input is used up.
pub data Waiting : Type 0 where
  delivered : LcmMessage → Waiting
  failed : IoError → Waiting
  waiting : Waiting

-- `recv`, over the input that the socket has: the result, the reassembler and the unread input.
unfoldable pub recv :
    FragmentReassembler → List Received → Run (FragmentReassembler × Waiting × List Received)
recv r [] = ok (r, waiting, [])
recv r (broken e ∷ input) = ok (r, failed e, input)
recv r (datagram buf src now created ∷ input) = do
  packet ← parse_datagram buf
  elim packet [
    | none ↦ recv r input
    | some (short m) ↦ ok (
      r,
      delivered (record {
        channel = m.channel;
        sequence_number = m.sequence_number;
        payload = m.payload;
      }),
      input,
    )
    | some (fragment f) ↦ do
      (r', message) ← process r f src now created
      elim message [ some m ↦ ok (r', delivered m, input) | none ↦ recv r' input ]
  ]
