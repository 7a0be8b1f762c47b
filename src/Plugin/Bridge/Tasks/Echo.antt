-- ===== src/Plugin/Bridge/Tasks/Echo.antt =====
-- The bridge's own message, looped back to it by the multicast group.
use zenoh_plugin_lcm.Base.{ℕ, suc, ◌≡◌, refl, arith, true, List, [], none, some, Bytes, ok}
use zenoh_plugin_lcm.Base.Str.{Str}
use zenoh_plugin_lcm.Transport.Fragment.{SocketAddr, FragmentReassembler}
use zenoh_plugin_lcm.Transport.Fragment.Process.{IsValid}
use zenoh_plugin_lcm.Transport.Multicast.{recv}
use zenoh_plugin_lcm.Transport.Multicast.EndToEnd.{accepting, arriving}
use zenoh_plugin_lcm.Transport.Multicast.SendRecv.{after_sending}
use zenoh_plugin_lcm.Transport.Multicast.AnySize.{
  IsCarried, CanReceive, IsOrder, datagram_count, send-recv,
}
use zenoh_plugin_lcm.Plugin.Config.{RegexApi, Config, is_allowed}
use zenoh_plugin_lcm.Plugin.Mapping.{KeyExprApi, ZResult, key_expr_to_lcm_channel}
use zenoh_plugin_lcm.Plugin.Sequences.{has, without, record_sent}
use zenoh_plugin_lcm.Plugin.Sequences.Window.{has-record_sent}
use zenoh_plugin_lcm.Plugin.Bridge.{
  Bridge, on_message, after_send, transmit_sample, forward, on_sample, on_recorded,
}
use zenoh_plugin_lcm.Plugin.Bridge.Tasks.{lcm_to_zenoh}

module _ (regex : RegexApi) (keys : KeyExprApi) where
  open keys use {KeyExpr}

  -- The bridge after the record of a message whose number has come back.
  abbrev pub after_echo : List Bytes → Bridge regex keys → Bridge regex keys
  after_echo ds b = record b {
    transport = after_sending b.transport ds;
    sent_sequences =
        without b.transport.sequence_counter
          (record_sent b.transport.sequence_counter b.sent_sequences);
    unrecorded = none;
  }

  has-record_sent_self : (n : ℕ) (seqs : List ℕ) → has n (record_sent n seqs) ≡ true
  has-record_sent_self n seqs = ground (arith, has-record_sent n n seqs)

  -- The bridge gets a sample for an allowed channel from Zenoh, its socket takes everything, and the
  -- message can be carried: the channel is UTF-8 text without a null byte, the number fits 32 bits, and
  -- the message fits one datagram, or has fewer than 2^32 bytes in fewer than 2^16 fragments with an
  -- MTU below 2^63 that leaves room for data. Once the number is recorded, the datagrams come back to
  -- the bridge, each once, in whatever order and within one timeout, to a valid reassembler whose limit
  -- admits the payload and that holds no set of the message. Then the loop of `lcm_to_zenoh` publishes
  -- nothing to Zenoh, takes the number out of the set, and leaves a valid reassembler.
  pub lcm_to_zenoh-on_recorded :
      (config : Config regex) (b : Bridge regex keys) (ke : KeyExpr) (channel : Str)
      (payload : Bytes) (r : FragmentReassembler) (src : SocketAddr) (start : ℕ)
      (now created : ℕ → ℕ) (order : List ℕ) (fuel : ℕ)
      → key_expr_to_lcm_channel keys ke config.key_prefix ≡ ZResult.ok channel
      → is_allowed regex channel config ≡ true
      → IsCarried b.transport channel payload
      → CanReceive b.transport payload r src start now created
      → IsOrder order (datagram_count b.transport.fragment_mtu channel payload)
      → (ds : List Bytes) × (sent : Bridge regex keys) × (on_sample regex keys accepting config ke
            payload b
          ≡ ok sent)
        × (sent.transport ≡ after_sending b.transport ds)
        × (after : FragmentReassembler) × (lcm_to_zenoh regex keys config
              (suc (suc fuel))
              r
              (arriving ds src now created order [])
              (on_recorded regex keys sent)
            ≡ ok (after, after_echo ds b))
        × IsValid after
  unfolding lcm_to_zenoh on_message on_sample forward transmit_sample after_send on_recorded recv
  lcm_to_zenoh-on_recorded config b ke channel payload r src start now created order fuel named
        allowed carried can all =
      let (ds, run, after, back, v) =
        send-recv b.transport channel payload r src start now created order [] carried can all in
      let n : ℕ = b.transport.sequence_counter in
      (
        ds,
        record b { transport = after_sending b.transport ds; unrecorded = some n },
        rw (named, allowed, run) refl,
        refl,
        after,
        rw (back, has-record_sent_self n b.sent_sequences) refl,
        v,
      )
