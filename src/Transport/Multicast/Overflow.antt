-- ===== src/Transport/Multicast/Overflow.antt =====
-- The cast of the number of fragments to `u16`.
use zenoh_plugin_lcm.Base.{ℕ, ◌+◌, ◌%◌, ◌^◌, ◌<◌, ◌≡◌, arith, ap, ◌∙◌, Bytes, List, none, ok}
use zenoh_plugin_lcm.Base.Str.{Str}
use zenoh_plugin_lcm.Transport.Multicast.{
  Network, LcmTransport, success, first_frag_capacity, subsequent_frag_capacity, fragment_count,
  send_rounds, send_fragmented, send,
}
use zenoh_plugin_lcm.Transport.Multicast.Send.{if_room}
use zenoh_plugin_lcm.Transport.Multicast.SendRecv.{short_size}

send_fragmented-too_many :
    (net : Network) (fragment_mtu seq : ℕ) (channel : Str) (payload : Bytes) (sent : List Bytes)
    → 0 < first_frag_capacity fragment_mtu channel
    → fragment_count fragment_mtu channel payload % 2 ^ 16 ≡ 0
    → send_fragmented net fragment_mtu seq channel payload sent ≡ ok (sent, none)
unfolding send_fragmented send_rounds
send_fragmented-too_many net fragment_mtu seq channel payload sent room wraps =
    if_room (first_frag_capacity fragment_mtu channel) (subsequent_frag_capacity fragment_mtu) _ _
      room (omega (arith, room))
    ∙ ap (λ (k : ℕ). send_rounds net fragment_mtu seq channel payload k k 0 0 sent) wraps

-- A message that does not fit the MTU, on a channel that leaves room in the first datagram, and
-- whose number of fragments is a multiple of 2 ^ 16, is reported as sent by any socket, and the
-- number is used, but the socket gets nothing.
pub send-too_many :
    (net : Network) (tr : LcmTransport) (channel : Str) (payload : Bytes)
    → 0 < first_frag_capacity tr.fragment_mtu channel
    → tr.fragment_mtu < short_size channel payload
    → fragment_count tr.fragment_mtu channel payload % 2 ^ 16 ≡ 0
    → send net tr channel payload
      ≡ ok (
        record tr { sequence_counter = (tr.sequence_counter + 1) % 2 ^ 32 },
        success tr.sequence_counter,
      )
unfolding send
send-too_many net tr channel payload room long wraps = ground (
  arith,
  send_fragmented-too_many net tr.fragment_mtu tr.sequence_counter channel payload tr.sent room
      wraps,
)
