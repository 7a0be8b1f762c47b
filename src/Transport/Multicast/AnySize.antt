-- ===== src/Transport/Multicast/AnySize.antt =====
-- What `send` puts on the wire, `recv` gives back, whatever the size of the message.
use zenoh_plugin_lcm.Base.{
  ℕ, zero, suc, ◌^◌, ◌≤◌, ◌<◌, ◌≡◌, ◌⊎◌, inl, inr, refl, arith, Bytes, List, [], ◌∷◌, none, length,
  All, ok, if◌then◌else◌, leb,
}
use zenoh_plugin_lcm.Base.Str.{Str}
use zenoh_plugin_lcm.Transport.Protocol.RoundTrip.{IsChannel}
use zenoh_plugin_lcm.Transport.Fragment.{SocketAddr, FragmentReassembler, lookup}
use zenoh_plugin_lcm.Transport.Fragment.Process.{IsValid}
use zenoh_plugin_lcm.Transport.Fragment.Reassembly.{AllDistinct}
use zenoh_plugin_lcm.Transport.Multicast.{
  LcmTransport, success, send, fragment_count, Received, recv, delivered,
}
use zenoh_plugin_lcm.Transport.Multicast.Send.{Fragmentable}
use zenoh_plugin_lcm.Transport.Multicast.EndToEnd.{accepting, arriving, InWindow}
use zenoh_plugin_lcm.Transport.Multicast.SendRecv.{
  message, after_sending, short_size, send-recv_short, send-recv_fragmented,
}

-- A message that `send` can put on the wire whole: its channel and number can be written, and it fits
-- one datagram or can be sent in fragments.
pub record IsCarried (tr : LcmTransport) (channel : Str) (payload : Bytes) : Type 0 where
  pub word : tr.sequence_counter < 2 ^ 32
  pub is_channel : IsChannel channel
  pub sized :
      (short_size channel payload ≤ tr.fragment_mtu)
      ⊎ ((tr.fragment_mtu < short_size channel payload)
          × Fragmentable tr.fragment_mtu channel payload)

abbrev pub datagram_count : ℕ → Str → Bytes → ℕ
datagram_count mtu channel payload =
    if leb (short_size channel payload) mtu then 1 else fragment_count mtu channel payload

-- A receiver that can take the message: a valid reassembler whose limit admits the payload and that
-- holds no set of the message, with the readings of the clock within one timeout.
pub record CanReceive (tr : LcmTransport) (payload : Bytes) (r : FragmentReassembler)
    (src : SocketAddr) (start : ℕ) (now created : ℕ → ℕ) : Type 0 where
  pub valid : IsValid r
  pub admits : length payload ≤ r.max_message_size
  pub fresh : lookup (src, tr.sequence_counter) r.pending ≡ none
  pub window : InWindow start r.timeout now created

-- Each of `n` datagrams once.
pub record IsOrder (order : List ℕ) (n : ℕ) : Type 0 where
  pub distinct : AllDistinct order
  pub in_range : All (λ i. i < n) order
  pub complete : length order ≡ n

single_order : (order : List ℕ) → IsOrder order 1 → order ≡ 0 ∷ []
single_order [] o = absurd (omega (arith, o.complete))
single_order (zero ∷ []) o = refl
single_order (suc i ∷ []) o = absurd (omega (arith, o.in_range.0))
single_order (i ∷ j ∷ is) o = absurd (omega (arith, o.complete))

-- A message that can be carried goes out over a socket that takes everything. A receiver that can take
-- it returns it once all its datagrams are there, in whatever order, and is valid again.
pub send-recv :
    (tr : LcmTransport) (channel : Str) (payload : Bytes) (r : FragmentReassembler)
    (src : SocketAddr) (start : ℕ) (now created : ℕ → ℕ) (order : List ℕ) (input : List Received)
    → IsCarried tr channel payload
    → CanReceive tr payload r src start now created
    → IsOrder order (datagram_count tr.fragment_mtu channel payload)
    → (ds : List Bytes) × (send accepting tr channel payload
        ≡ ok (after_sending tr ds, success tr.sequence_counter))
      × (after : FragmentReassembler) × (recv r (arriving ds src now created order input)
          ≡ ok (after, delivered (message tr channel payload), input))
      × IsValid after
send-recv tr channel payload r src start now created order input c can o = by_size c.sized
  where
    Delivery : Type 0
    Delivery =
        (ds : List Bytes) × (send accepting tr channel payload
          ≡ ok (after_sending tr ds, success tr.sequence_counter))
        × (after : FragmentReassembler) × (recv r (arriving ds src now created order input)
            ≡ ok (after, delivered (message tr channel payload), input))
        × IsValid after

    by_size :
        (short_size channel payload ≤ tr.fragment_mtu)
          ⊎ ((tr.fragment_mtu < short_size channel payload)
              × Fragmentable tr.fragment_mtu channel payload)
        → Delivery
    by_size (inl fits) =
        let (d, run, _, back) =
          send-recv_short tr channel payload c.word c.is_channel r src (now 0) (created 0) input
            fits in
        (d ∷ [], run, r, rw (single_order order (ground (arith, o))) back, can.valid)
    by_size (inr (large, frag)) =
        let o' : IsOrder order (fragment_count tr.fragment_mtu channel payload) =
          ground (arith, o) in
        let (ds, run, _, after, back, v) =
          send-recv_fragmented tr channel payload c.word c.is_channel frag r src start now created
            order input large can.valid can.admits can.fresh can.window o'.distinct o'.in_range
            o'.complete in
        (ds, run, after, back, v)
