-- ===== src/Plugin/Bridge/Tasks/Delivery.antt =====
-- A message of another LCM publisher, through the loop of `lcm_to_zenoh`.
use zenoh_plugin_lcm.Base.{ℕ, suc, ◌≡◌, refl, true, false, List, [], ◌∷◌, ◌++◌, Bytes, ok}
use zenoh_plugin_lcm.Base.Str.{Str}
use zenoh_plugin_lcm.Transport.Fragment.{SocketAddr, FragmentReassembler}
use zenoh_plugin_lcm.Transport.Fragment.Process.{IsValid}
use zenoh_plugin_lcm.Transport.Multicast.{LcmTransport, success, send, recv}
use zenoh_plugin_lcm.Transport.Multicast.EndToEnd.{accepting, arriving}
use zenoh_plugin_lcm.Transport.Multicast.SendRecv.{after_sending}
use zenoh_plugin_lcm.Transport.Multicast.AnySize.{
  IsCarried, CanReceive, IsOrder, datagram_count, send-recv,
}
use zenoh_plugin_lcm.Plugin.Config.{RegexApi, Config, is_allowed}
use zenoh_plugin_lcm.Plugin.Mapping.{KeyExprApi, ZResult, lcm_channel_to_key_expr}
use zenoh_plugin_lcm.Plugin.Sequences.{has}
use zenoh_plugin_lcm.Plugin.Bridge.{Bridge, publish, on_message}
use zenoh_plugin_lcm.Plugin.Bridge.Tasks.{lcm_to_zenoh}

module _ (regex : RegexApi) (keys : KeyExprApi) where
  open keys use {KeyExpr}

  -- An LCM publisher sends a message over a socket that takes everything, on a channel that the bridge
  -- allows and maps to a key expression, with a number that the bridge has not recorded. The message
  -- can be carried: the channel is UTF-8 text without a null byte, the number fits 32 bits, and the
  -- message fits one datagram, or has fewer than 2^32 bytes in fewer than 2^16 fragments with an MTU
  -- below 2^63 that leaves room for data. The reassembler is valid, its limit admits the payload, and
  -- it holds no set of the message. When the datagrams arrive, each once, in whatever order and within
  -- one timeout, the loop of `lcm_to_zenoh` publishes the payload under that key expression, once,
  -- changes nothing else of the bridge, and leaves a valid reassembler.
  pub lcm_to_zenoh-arriving :
      (config : Config regex) (b : Bridge regex keys) (ke : KeyExpr) (tr : LcmTransport)
      (channel : Str) (payload : Bytes) (r : FragmentReassembler) (src : SocketAddr) (start : ℕ)
      (now created : ℕ → ℕ) (order : List ℕ) (fuel : ℕ)
      → is_allowed regex channel config ≡ true
      → lcm_channel_to_key_expr keys channel config.key_prefix ≡ ZResult.ok ke
      → has tr.sequence_counter b.sent_sequences ≡ false
      → IsCarried tr channel payload
      → CanReceive tr payload r src start now created
      → IsOrder order (datagram_count tr.fragment_mtu channel payload)
      → (ds : List Bytes) × (send accepting tr channel payload
          ≡ ok (after_sending tr ds, success tr.sequence_counter))
        × (after : FragmentReassembler) × (lcm_to_zenoh regex keys config
              (suc (suc fuel))
              r
              (arriving ds src now created order [])
              b
            ≡ ok (after, record b { published = b.published ++ ((ke, payload) ∷ []) }))
        × IsValid after
  unfolding lcm_to_zenoh on_message publish recv
  lcm_to_zenoh-arriving config b ke tr channel payload r src start now created order fuel allowed
        mapped fresh carried can all =
      let (ds, sent, after, back, v) =
        send-recv tr channel payload r src start now created order [] carried can all in
      (ds, sent, after, rw (back, fresh, allowed, mapped) refl, v)
