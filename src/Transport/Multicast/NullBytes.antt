-- ===== src/Transport/Multicast/NullBytes.antt =====
-- A channel with a null byte, which `send` does not refuse.
use zenoh_plugin_lcm.Base.{
  ℕ, ◌^◌, ◌≤◌, ◌<◌, ◌≡◌, refl, ◌∙◌, arith, Bytes, List, [], ◌∷◌, ◌++◌, length-append, append_assoc,
  ok,
}
use zenoh_plugin_lcm.Base.Str.{Str}
use zenoh_plugin_lcm.Transport.Protocol.{encode_short_message}
use zenoh_plugin_lcm.Transport.Protocol.RoundTrip.{IsChannel}
use zenoh_plugin_lcm.Transport.Fragment.{SocketAddr, FragmentReassembler}
use zenoh_plugin_lcm.Transport.Multicast.{
  LcmTransport, success, send, Received, datagram, recv, delivered,
}
use zenoh_plugin_lcm.Transport.Multicast.EndToEnd.{accepting}
use zenoh_plugin_lcm.Transport.Multicast.SendRecv.{
  message, after_sending, short_size, send-recv_short,
}

module _ (tr : LcmTransport) (front back : Str) (payload : Bytes) where
  -- The same bytes, with the end of the channel in the payload.
  encode_short_message_null :
      encode_short_message tr.sequence_counter (front ++ (0 ∷ back)) payload
      ≡ encode_short_message tr.sequence_counter front (back ++ (0 ∷ payload))
  unfolding encode_short_message
  encode_short_message_null = rw (append_assoc front (0 ∷ back) (0 ∷ payload)) refl

  short_size_null :
      short_size (front ++ (0 ∷ back)) payload ≡ short_size front (back ++ (0 ∷ payload))
  short_size_null =
      omega (arith, length-append {0} front (0 ∷ back), length-append {0} back (0 ∷ payload))

  send_null :
      short_size (front ++ (0 ∷ back)) payload ≤ tr.fragment_mtu
      → send accepting tr (front ++ (0 ∷ back)) payload
        ≡ send accepting tr front (back ++ (0 ∷ payload))
  unfolding send
  send_null fits = ground (arith, encode_short_message_null, short_size_null)

  -- A message on a channel with a null byte, which fits the MTU, is sent without an error, and `recv`
  -- returns another: its channel ends before the first null byte, and the rest of the channel, with a
  -- null byte after it, stands in front of the payload.
  pub send-recv_null :
      (r : FragmentReassembler) (src : SocketAddr) (now created : ℕ) (input : List Received)
      → tr.sequence_counter < 2 ^ 32
      → IsChannel front
      → short_size (front ++ (0 ∷ back)) payload ≤ tr.fragment_mtu
      → (d : Bytes) × (send accepting tr (front ++ (0 ∷ back)) payload
          ≡ ok (after_sending tr (d ∷ []), success tr.sequence_counter))
        × (recv r (datagram d src now created ∷ input)
            ≡ ok (r, delivered (message tr front (back ++ (0 ∷ payload))), input))
  send-recv_null r src now created input word channel fits =
      let (d, run, _, back_again) =
        send-recv_short tr front (back ++ (0 ∷ payload)) word channel r src now created input
          (omega (arith, fits, short_size_null)) in
      (d, send_null fits ∙ run, back_again)
