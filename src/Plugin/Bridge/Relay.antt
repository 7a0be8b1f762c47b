-- ===== src/Plugin/Bridge/Relay.antt =====
-- A message through two bridges.
use zenoh_plugin_lcm.Base.{ℕ, ◌≡◌, refl, ap, ◌∙◌, true, false, List, [], ◌∷◌, ◌++◌, some, Bytes, ok}
use zenoh_plugin_lcm.Transport.Types.{LcmMessage}
use zenoh_plugin_lcm.Transport.Fragment.{SocketAddr, FragmentReassembler}
use zenoh_plugin_lcm.Transport.Multicast.{Received, recv, delivered}
use zenoh_plugin_lcm.Transport.Multicast.EndToEnd.{accepting, arriving}
use zenoh_plugin_lcm.Transport.Multicast.SendRecv.{message, after_sending}
use zenoh_plugin_lcm.Transport.Multicast.AnySize.{
  IsCarried, CanReceive, IsOrder, datagram_count, send-recv,
}
use zenoh_plugin_lcm.Plugin.Config.{RegexApi, Config, is_allowed}
use zenoh_plugin_lcm.Plugin.Mapping.{
  KeyExprApi, ZResult, lcm_channel_to_key_expr, key_expr_to_lcm_channel,
}
use zenoh_plugin_lcm.Plugin.Mapping.RoundTrip.{lcm_channel-round-trip}
use zenoh_plugin_lcm.Plugin.Sequences.{has}
use zenoh_plugin_lcm.Plugin.Bridge.{
  Bridge, publish, on_message, after_send, transmit_sample, forward, on_sample,
}

module _ (regex : RegexApi) (keys : KeyExprApi) where
  open keys use {KeyExpr}

  -- A bridge `a` receives a message that it has not sent, on a channel that it allows and maps to a key
  -- expression. A bridge `b` with the same prefix, which allows the channel too, gets what `a` puts to
  -- Zenoh; its socket takes everything, and the message can be carried: the channel is UTF-8 text
  -- without a null byte, the number fits 32 bits, and the message fits one datagram, or has fewer than
  -- 2^32 bytes in fewer than 2^16 fragments with an MTU below 2^63 that leaves room for data. Then `a`
  -- publishes the payload once, and `b` sends it on the same channel. The receiver has a valid
  -- reassembler whose limit admits the payload, and no set of the message yet. When each datagram
  -- arrives once, in whatever order and within one timeout, the receiver gets that channel and that
  -- payload.
  pub on_message-on_sample :
      (from to : Config regex) (msg : LcmMessage) (a b : Bridge regex keys) (ke : KeyExpr)
      (r : FragmentReassembler) (src : SocketAddr) (start : ℕ) (now created : ℕ → ℕ)
      (order : List ℕ) (input : List Received)
      → has msg.sequence_number a.sent_sequences ≡ false
      → is_allowed regex msg.channel from ≡ true
      → lcm_channel_to_key_expr keys msg.channel from.key_prefix ≡ ZResult.ok ke
      → to.key_prefix ≡ from.key_prefix
      → is_allowed regex msg.channel to ≡ true
      → IsCarried b.transport msg.channel msg.payload
      → CanReceive b.transport msg.payload r src start now created
      → IsOrder order (datagram_count b.transport.fragment_mtu msg.channel msg.payload)
      → (ds : List Bytes) × ((on_message regex keys from msg a).published
          ≡ a.published ++ ((ke, msg.payload) ∷ []))
        × (on_sample regex keys accepting to ke msg.payload b
            ≡ ok (record b {
              transport = after_sending b.transport ds;
              unrecorded = some b.transport.sequence_counter;
            }))
        × (after : FragmentReassembler) × (recv r (arriving ds src now created order input)
            ≡ ok (after, delivered (message b.transport msg.channel msg.payload), input))
  unfolding on_message publish on_sample forward transmit_sample after_send
  on_message-on_sample from to msg a b ke r src start now created order input fresh allowed mapped
        same welcome carried can all =
      let (ds, run, after, back, _) =
        send-recv b.transport msg.channel msg.payload r src start now created order input carried
          can all in
      let channel : key_expr_to_lcm_channel keys ke to.key_prefix ≡ ZResult.ok msg.channel =
        ap (key_expr_to_lcm_channel keys ke) same
        ∙ lcm_channel-round-trip keys msg.channel from.key_prefix ke mapped in
      (ds, rw (fresh, allowed, mapped) refl, rw (channel, welcome, run) refl, after, back)
