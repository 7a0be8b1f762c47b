-- ===== src/Transport/Multicast/Total.antt =====
-- `recv` on any input.
use zenoh_plugin_lcm.Base.{
  ℕ, ◌<◌, ◌≡◌, ◌⊎◌, inl, inr, refl, arith, Bytes, IsByte, List, [], ◌∷◌, Option, none, some, length,
  All, Run, ok,
}
use zenoh_plugin_lcm.Transport.Types.{LcmMessage}
use zenoh_plugin_lcm.Transport.Protocol.{Packet, short, fragment, Fragment, parse_datagram}
use zenoh_plugin_lcm.Transport.Protocol.Canonical.{parse_datagram-Parses}
use zenoh_plugin_lcm.Transport.Protocol.Wire.{Parsed}
use zenoh_plugin_lcm.Transport.Fragment.{SocketAddr, FragmentReassembler, process}
use zenoh_plugin_lcm.Transport.Fragment.Process.{IsValid}
use zenoh_plugin_lcm.Transport.Fragment.Safety.{process-IsValid}
use zenoh_plugin_lcm.Transport.Multicast.{
  Received, datagram, broken, Waiting, delivered, failed, waiting, recv,
}

-- What a socket can hand over: a datagram is made of bytes.
abbrev pub IsReceived : Received → Type 0
IsReceived (datagram buf src now created) = All IsByte buf
IsReceived (broken e) = Unit {0}

-- What `recv` comes to: it returns, the reassembler is valid, and unless the input is used up there is
-- less of it.
abbrev pub Returns : List Received → Run (FragmentReassembler × Waiting × List Received) → Type 0
Returns input result =
    (r : FragmentReassembler) × (w : Waiting) × (rest : List Received) × (result ≡ ok (r, w, rest))
    × IsValid r
    × All IsReceived rest
    × ((w ≡ waiting) ⊎ (length rest < length input))

later_Returns :
    (a : Received) (input : List Received)
    (result : Run (FragmentReassembler × Waiting × List Received))
    → Returns input result
    → Returns (a ∷ input) result
later_Returns a input result (r, w, rest, e, v, h, inl done) = (r, w, rest, e, v, h, inl done)
later_Returns a input result (r, w, rest, e, v, h, inr less) =
    (r, w, rest, e, v, h, inr (omega (arith, less)))

module _ (buf : Bytes) (src : SocketAddr) (now created : ℕ) (input : List Received)
    (h : All IsReceived input)
    (later : (r : FragmentReassembler) → IsValid r → Returns input (recv r input)) where
  fragment_Returns :
      (r r' : FragmentReassembler) (f : Fragment) (message : Option LcmMessage)
      → parse_datagram buf ≡ ok (some (fragment f))
      → process r f src now created ≡ ok (r', message)
      → IsValid r'
      → Returns
          (datagram buf src now created ∷ input)
          (recv r (datagram buf src now created ∷ input))
  unfolding recv
  fragment_Returns r r' f none e run v =
      rw (e, run) (later_Returns (datagram buf src now created) input (recv r' input) (later r' v))
  fragment_Returns r r' f (some m) e run v =
      rw (e, run) (r', delivered m, input, refl, v, h, inr (omega arith))

  packet_Returns :
      (r : FragmentReassembler) (o : Option Packet)
      → IsValid r
      → parse_datagram buf ≡ ok o
      → Parsed buf o
      → Returns
          (datagram buf src now created ∷ input)
          (recv r (datagram buf src now created ∷ input))
  unfolding recv
  packet_Returns r none v e fits =
      rw e (later_Returns (datagram buf src now created) input (recv r input) (later r v))
  packet_Returns r (some (short m)) v e fits =
      rw e (r, delivered _, input, refl, v, h, inr (omega arith))
  packet_Returns r (some (fragment f)) v e fits =
      let (r', message, run, v', _) = process-IsValid r f src now created v fits.0.0.n_fragments in
      fragment_Returns r r' f message e run v'

-- On a valid reassembler, whatever bytes the datagrams hold and whatever errors the socket gives, `recv`
-- returns without a panic and leaves a valid reassembler, and it has read some input, unless it waits
-- for more.
pub recv-Returns :
    (r : FragmentReassembler) (input : List Received)
    → IsValid r
    → All IsReceived input
    → Returns input (recv r input)
unfolding recv
recv-Returns r [] v h = (r, waiting, [], refl, v, tt, inl refl)
recv-Returns r (broken e ∷ input) v h = (r, failed e, input, refl, v, h.1, inr (omega arith))
recv-Returns r (datagram buf src now created ∷ input) v h =
    let (o, parsed, fits) = parse_datagram-Parses buf h.0 in
    packet_Returns buf src now created input h.1 (λ r' v'. recv-Returns r' input v' h.1) r o v
      parsed fits
