-- ===== src/Transport/Multicast/SendRecv.antt =====
-- What `send` puts on the wire, `recv` gives back.
use native.Mathlib.Omega.{arith}
use zenoh_plugin_lcm.Base.{
  ℕ, ◌+◌, ◌%◌, ◌^◌, ◌≤◌, ◌<◌, ◌≡◌, refl, sym, ap, ◌∙◌, subst, Bytes, List, [], ◌∷◌, ◌++◌, none,
  length, length-append, All, ok,
}
use zenoh_plugin_lcm.Base.Str.{Str}
use zenoh_plugin_lcm.Transport.Types.{LcmMessage}
use zenoh_plugin_lcm.Transport.Protocol.{encode_short_message}
use zenoh_plugin_lcm.Transport.Protocol.RoundTrip.{IsChannel, parse-encode_short_message}
use zenoh_plugin_lcm.Transport.Fragment.{SocketAddr, FragmentReassembler, lookup}
use zenoh_plugin_lcm.Transport.Fragment.Process.{IsValid}
use zenoh_plugin_lcm.Transport.Fragment.Transfer.{total, content}
use zenoh_plugin_lcm.Transport.Fragment.Reassembly.{AllDistinct}
use zenoh_plugin_lcm.Transport.Multicast.{
  LcmTransport, success, send, send_fragmented, fragment_count, Received, datagram, recv, delivered,
}
use zenoh_plugin_lcm.Transport.Multicast.Fragments.{datagrams_of}
use zenoh_plugin_lcm.Transport.Multicast.Send.{
  Fragmentable, chunks_of, send_fragmented-transmit, count_pos,
}
use zenoh_plugin_lcm.Transport.Multicast.Datagrams.{encodings, length-encodings}
use zenoh_plugin_lcm.Transport.Multicast.Receive.{recv-Own}
use zenoh_plugin_lcm.Transport.Multicast.EndToEnd.{
  accepting, transmit-accepting, arriving, InWindow, transfer, transfer-total, transfer-content,
  transfer-IsSendable, transfer_datagrams, Own-history, history, numbers_of-history,
  arriving-received,
}

abbrev pub message : LcmTransport → Str → Bytes → LcmMessage
message tr channel payload = record {
  channel = channel;
  sequence_number = tr.sequence_counter;
  payload = payload;
}

-- The transport after a message: the datagrams are out, and the counter has moved, modulo 2 ^ 32.
abbrev pub after_sending : LcmTransport → List Bytes → LcmTransport
after_sending tr ds = record tr {
  sequence_counter = (tr.sequence_counter + 1) % 2 ^ 32;
  sent = tr.sent ++ ds;
}

abbrev pub short_size : Str → Bytes → ℕ
short_size channel payload = 4 + 4 + length channel + 1 + length payload

module _ (tr : LcmTransport) (channel : Str) (payload : Bytes) (word : tr.sequence_counter < 2 ^ 32)
    (is_channel : IsChannel channel) where
  -- A message that fits the MTU, on a channel without a null byte and with a number below 2 ^ 32,
  -- goes out over a socket that takes everything as one datagram, no longer than the MTU, and
  -- `recv` returns it from any reassembler, which it leaves as it was.
  pub send-recv_short :
      (r : FragmentReassembler) (src : SocketAddr) (now created : ℕ) (input : List Received)
      → short_size channel payload ≤ tr.fragment_mtu
      → (d : Bytes) × (send accepting tr channel payload
          ≡ ok (after_sending tr (d ∷ []), success tr.sequence_counter))
        × (length d ≤ tr.fragment_mtu)
        × (recv r (datagram d src now created ∷ input)
            ≡ ok (r, delivered (message tr channel payload), input))
  unfolding send recv
  send-recv_short r src now created input h = (
    encode_short_message tr.sequence_counter channel payload,
    ground arith,
    unfold encode_short_message in omega (arith, h, length-append channel (0 ∷ payload)),
    ground (arith, parse-encode_short_message tr.sequence_counter channel payload word is_channel),
  )

  send_long :
      (ds : List Bytes)
      → tr.fragment_mtu < short_size channel payload
      → send_fragmented accepting tr.fragment_mtu tr.sequence_counter channel payload tr.sent
        ≡ ok (tr.sent ++ ds, none)
      → send accepting tr channel payload ≡ ok (after_sending tr ds, success tr.sequence_counter)
  unfolding send
  send_long ds h e = ground arith

  module _ (frag : Fragmentable tr.fragment_mtu channel payload) where
    abbrev out : List Bytes
    out =
        datagrams_of tr.sequence_counter (length payload)
          (fragment_count tr.fragment_mtu channel payload) channel
          (chunks_of tr.fragment_mtu channel payload)

    sent_out :
        send_fragmented accepting tr.fragment_mtu tr.sequence_counter channel payload tr.sent
        ≡ ok (tr.sent ++ out, none)
    sent_out =
        send_fragmented-transmit accepting tr.fragment_mtu tr.sequence_counter channel payload
          tr.sent frag
        ∙ ap ok (transmit-accepting tr.sent out)

    -- A message that does not fit the MTU and can be sent in fragments, on a channel without a null
    -- byte and with a number below 2 ^ 32, goes out over a socket that takes everything as the
    -- planned number of datagrams. At a valid reassembler whose limit admits the payload and that
    -- holds no set of the message, whatever the order in which the datagrams arrive, each once and
    -- within one timeout, `recv` returns the message when the last one is in, has read no further,
    -- and leaves a valid reassembler.
    pub send-recv_fragmented :
        (r : FragmentReassembler) (src : SocketAddr) (start : ℕ) (now created : ℕ → ℕ)
        (order : List ℕ) (input : List Received)
        → tr.fragment_mtu < short_size channel payload
        → IsValid r
        → length payload ≤ r.max_message_size
        → lookup (src, tr.sequence_counter) r.pending ≡ none
        → InWindow start r.timeout now created
        → AllDistinct order
        → All (λ n. n < fragment_count tr.fragment_mtu channel payload) order
        → length order ≡ fragment_count tr.fragment_mtu channel payload
        → (ds : List Bytes) × (send accepting tr channel payload
            ≡ ok (after_sending tr ds, success tr.sequence_counter))
          × (length ds ≡ fragment_count tr.fragment_mtu channel payload)
          × (after : FragmentReassembler) × (recv r (arriving ds src now created order input)
              ≡ ok (after, delivered (message tr channel payload), input))
          × IsValid after
    send-recv_fragmented r src start now created order input h v small gone window d range all =
        let t =
          transfer tr.fragment_mtu tr.sequence_counter channel payload src frag is_channel word in
        let count =
          transfer-total tr.fragment_mtu tr.sequence_counter channel payload src frag is_channel
            word in
        let same =
          transfer-content tr.fragment_mtu tr.sequence_counter channel payload src frag is_channel
            word in
        let sendable =
          transfer-IsSendable tr.fragment_mtu tr.sequence_counter channel payload src frag
            is_channel word in
        let ds = encodings t 0 (total t) in
        let sizes : length (content t) ≤ r.max_message_size = omega (arith, ap length same) in
        let own =
          Own-history tr.fragment_mtu tr.sequence_counter channel payload src frag is_channel word
            start r.timeout r.max_message_size now created window sizes order (rw count range) in
        let (after, run, v') =
          recv-Own t start r.timeout r.max_message_size sendable sizes
            (history t src now created order) r input v refl refl gone
            (omega (arith, count, count_pos tr.fragment_mtu channel payload)) own
            (rw (numbers_of-history t src now created order) d)
            (ap length (numbers_of-history t src now created order) ∙ all ∙ sym count) in
        (
          ds,
          subst
              (λ (l : List Bytes).
                send accepting tr channel payload
                ≡ ok (after_sending tr l, success tr.sequence_counter))
              (transfer_datagrams tr.fragment_mtu tr.sequence_counter channel payload src frag
                is_channel word)
              (send_long out h sent_out),
          length-encodings t 0 (total t) ∙ count,
          after,
          ap (recv r) (arriving-received t src now created order input (rw count range))
              ∙ run
              ∙ ap
                  (λ (b : Bytes). ok (
                    after,
                    delivered (record {
                      channel = channel;
                      sequence_number = tr.sequence_counter;
                      payload = b;
                    }),
                    input,
                  ))
                  same,
          v',
        )
