-- ===== src/Plugin/Bridge/Loopback.antt =====
-- What the bridge publishes and what it skips.
use zenoh_plugin_lcm.Base.{
  ℕ, ◌≡◌, refl, sym, arith, true, false, List, [], ◌∷◌, ◌++◌, some, Bytes, Run, ok, panic, All,
  subst,
}
use zenoh_plugin_lcm.Base.Str.{Str}
use zenoh_plugin_lcm.Transport.Types.{LcmMessage}
use zenoh_plugin_lcm.Transport.Multicast.{Network, LcmTransport, Result, success, failure, send}
use zenoh_plugin_lcm.Plugin.Config.{RegexApi, Config, is_allowed}
use zenoh_plugin_lcm.Plugin.Mapping.{
  KeyExprApi, ZResult, lcm_channel_to_key_expr, key_expr_to_lcm_channel,
}
use zenoh_plugin_lcm.Plugin.Mapping.RoundTrip.{lcm_channel-round-trip}
use zenoh_plugin_lcm.Plugin.Sequences.{has}
use zenoh_plugin_lcm.Plugin.Sequences.Window.{has-without, has-record_sent}
use zenoh_plugin_lcm.Plugin.Bridge.{
  Bridge, publish, on_message, after_send, transmit_sample, forward, on_sample, on_recorded, Step,
  received, sampled, recorded, Steps, stop, next,
}

module _ (regex : RegexApi) (keys : KeyExprApi) where
  open keys use {KeyExpr}

  -- A key expression that the configuration's prefix leads back to an allowed channel.
  unfoldable pub IsPublic : Config regex → KeyExpr × Bytes → Type 0
  IsPublic config (ke, payload) =
      (channel : Str) × (key_expr_to_lcm_channel keys ke config.key_prefix ≡ ZResult.ok channel)
      × (is_allowed regex channel config ≡ true)

  All-snoc :
      (config : Config regex) (entries : List (KeyExpr × Bytes)) (entry : KeyExpr × Bytes)
      → All (IsPublic config) entries
      → IsPublic config entry
      → All (IsPublic config) (entries ++ (entry ∷ []))
  All-snoc config [] entry all new = (new, tt)
  All-snoc config (e ∷ entries) entry (first, all) new =
      (first, All-snoc config entries entry all new)

  publish-IsPublic :
      (config : Config regex) (channel : Str) (payload : Bytes) (b : Bridge regex keys)
      (mapped : ZResult KeyExpr)
      → lcm_channel_to_key_expr keys channel config.key_prefix ≡ mapped
      → is_allowed regex channel config ≡ true
      → All (IsPublic config) b.published
      → All (IsPublic config) (publish regex keys mapped payload b).published
  unfolding publish IsPublic
  publish-IsPublic config channel payload b (ZResult.err e) eq allowed all = all
  publish-IsPublic config channel payload b (ZResult.ok ke) eq allowed all =
      All-snoc config b.published (ke, payload) all
        (channel, lcm_channel-round-trip keys channel config.key_prefix ke eq, allowed)

  pub on_message-IsPublic :
      (config : Config regex) (msg : LcmMessage) (b : Bridge regex keys)
      → All (IsPublic config) b.published
      → All (IsPublic config) (on_message regex keys config msg b).published
  unfolding on_message
  on_message-IsPublic config msg b all = ground (
    arith,
    publish-IsPublic config msg.channel msg.payload b
        (lcm_channel_to_key_expr keys msg.channel config.key_prefix) refl,
  )

  transmit_sample-published :
      (r : Run (LcmTransport × Result ℕ)) (b b' : Bridge regex keys)
      → transmit_sample regex keys r b ≡ ok b'
      → b'.published ≡ b.published
  unfolding transmit_sample after_send
  transmit_sample-published panic b b' e = cc
  transmit_sample-published (ok (tr, success seq)) b b' e = ground arith
  transmit_sample-published (ok (tr, failure err)) b b' e = ground arith

  forward-published :
      (net : Network) (config : Config regex) (mapped : ZResult Str) (payload : Bytes)
      (b b' : Bridge regex keys)
      → forward regex keys net config mapped payload b ≡ ok b'
      → b'.published ≡ b.published
  unfolding forward
  forward-published net config (ZResult.err e) payload b b' eq = ground arith
  forward-published net config (ZResult.ok channel) payload b b' eq =
      ground (arith, transmit_sample-published (send net b.transport channel payload) b b')

  on_recorded-published :
      (b : Bridge regex keys) → (on_recorded regex keys b).published ≡ b.published
  unfolding on_recorded
  on_recorded-published b = ground arith

  Step-IsPublic :
      (net : Network) (config : Config regex) (b b' : Bridge regex keys)
      → Step regex keys net config b b'
      → All (IsPublic config) b.published
      → All (IsPublic config) b'.published
  Step-IsPublic net config _ _ (received msg b) all = on_message-IsPublic config msg b all
  Step-IsPublic net config _ _ (sampled ke payload b b' idle e) all =
      subst (All (IsPublic config))
        (sym (
          forward-published net config (key_expr_to_lcm_channel keys ke config.key_prefix) payload b
            b' (unfold on_sample in e)))
        all
  Step-IsPublic net config _ _ (recorded b) all =
      subst (All (IsPublic config)) (sym (on_recorded-published b)) all

  -- Whatever the order of the steps of the two tasks, if all that was published goes to a key expression
  -- that the prefix leads back from to an allowed channel, that is still so after the steps.
  pub Steps-IsPublic :
      (net : Network) (config : Config regex) (b b' : Bridge regex keys)
      → Steps regex keys net config b b'
      → All (IsPublic config) b.published
      → All (IsPublic config) b'.published
  Steps-IsPublic net config _ _ (stop b) all = all
  Steps-IsPublic net config _ _ (next b c b' step steps) all =
      Steps-IsPublic net config c b' steps (Step-IsPublic net config b c step all)

  -- A message whose number is recorded is skipped: nothing is published, and the number is used up, so
  -- that another message with the same number, allowed and mapped to a key expression, is published.
  pub on_message-recorded :
      (config : Config regex) (own other : LcmMessage) (b : Bridge regex keys) (ke : KeyExpr)
      → has own.sequence_number b.sent_sequences ≡ true
      → other.sequence_number ≡ own.sequence_number
      → is_allowed regex other.channel config ≡ true
      → lcm_channel_to_key_expr keys other.channel config.key_prefix ≡ ZResult.ok ke
      → let skipped = on_message regex keys config own b in
        (skipped.published ≡ b.published)
        × (has own.sequence_number skipped.sent_sequences ≡ false)
        × ((on_message regex keys config other skipped).published
            ≡ b.published ++ ((ke, other.payload) ∷ []))
  unfolding on_message publish
  on_message-recorded config own other b ke known same allowed mapped = (
    ground arith,
    ground (arith, has-without own.sequence_number own.sequence_number b.sent_sequences),
    ground (arith, has-without own.sequence_number own.sequence_number b.sent_sequences),
  )

  -- A send whose loopback is received before its number is recorded: the bridge publishes its own
  -- message, the number stays in the set after it, and the next message with that number, whoever sent
  -- it and on whatever channel, is skipped.
  pub on_message-unrecorded :
      (config : Config regex) (own foreign : LcmMessage) (b : Bridge regex keys) (ke : KeyExpr)
      → b.unrecorded ≡ some own.sequence_number
      → has own.sequence_number b.sent_sequences ≡ false
      → is_allowed regex own.channel config ≡ true
      → lcm_channel_to_key_expr keys own.channel config.key_prefix ≡ ZResult.ok ke
      → foreign.sequence_number ≡ own.sequence_number
      → let early = on_message regex keys config own b in
        let late = on_recorded regex keys early in
        (late.published ≡ b.published ++ ((ke, own.payload) ∷ []))
        × (has own.sequence_number late.sent_sequences ≡ true)
        × ((on_message regex keys config foreign late).published ≡ late.published)
  unfolding on_message publish on_recorded
  on_message-unrecorded config own foreign b ke waiting unknown allowed mapped same = (
    ground arith,
    ground (arith, has-record_sent own.sequence_number own.sequence_number b.sent_sequences),
    ground (arith, has-record_sent own.sequence_number own.sequence_number b.sent_sequences),
  )
