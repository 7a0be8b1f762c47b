-- ===== src/Plugin/Bridge.antt =====
-- zenoh-plugin-lcm/src/lcm_to_zenoh.rs and zenoh_to_lcm.rs: what the two tasks do with one message,
-- and the steps of the two together. The sockets, regular expressions and key expressions are
-- parameters.
pub mod Loopback
pub mod Relay
pub mod Tasks
use zenoh_plugin_lcm.Base.{
  ℕ, ◌≡◌, Bool, true, false, List, [], ◌∷◌, ◌++◌, Option, none, some, Bytes, Run, ok, panic,
  if◌then◌else◌,
}
use zenoh_plugin_lcm.Base.Str.{Str}
use zenoh_plugin_lcm.Transport.Types.{LcmMessage}
use zenoh_plugin_lcm.Transport.Multicast.{Network, LcmTransport, Result, success, failure, send}
use zenoh_plugin_lcm.Plugin.Config.{RegexApi, Config, is_allowed}
use zenoh_plugin_lcm.Plugin.Mapping.{
  KeyExprApi, ZResult, lcm_channel_to_key_expr, key_expr_to_lcm_channel,
}
use zenoh_plugin_lcm.Plugin.Sequences.{SentSequences, has, without, record_sent}

module _ (regex : RegexApi) (keys : KeyExprApi) where
  open keys use {KeyExpr}

  -- What the tasks share, what they have put to Zenoh, and the number of a message that is sent but not
  -- yet recorded: between the two, `run` waits for the lock of the set.
  pub record Bridge : Type 0 where
    pub transport : LcmTransport
    pub sent_sequences : SentSequences
    pub published : List (KeyExpr × Bytes)
    pub unrecorded : Option ℕ

  -- `zsession.put`. A failure is only logged.
  unfoldable pub publish : ZResult KeyExpr → Bytes → Bridge → Bridge
  publish (ZResult.err e) payload b = b
  publish (ZResult.ok ke) payload b = record b { published = b.published ++ ((ke, payload) ∷ []) }

  -- One turn of the loop of `lcm_to_zenoh::run`, for a message that `recv` returned.
  unfoldable pub on_message : Config regex → LcmMessage → Bridge → Bridge
  unfolding publish
  on_message config msg b =
      if has msg.sequence_number b.sent_sequences
      then record b { sent_sequences = without msg.sequence_number b.sent_sequences }
      else if is_allowed regex msg.channel config
      then publish (lcm_channel_to_key_expr keys msg.channel config.key_prefix) msg.payload b
      else b

  unfoldable pub after_send : Bridge → LcmTransport × Result ℕ → Bridge
  after_send b (tr, success seq) = record b { transport = tr; unrecorded = some seq }
  after_send b (tr, failure e) = record b { transport = tr }

  unfoldable pub transmit_sample : Run (LcmTransport × Result ℕ) → Bridge → Run Bridge
  unfolding after_send
  transmit_sample panic b = panic
  transmit_sample (ok r) b = ok (after_send b r)

  unfoldable pub forward : Network → Config regex → ZResult Str → Bytes → Bridge → Run Bridge
  unfolding transmit_sample
  forward net config (ZResult.err e) payload b = ok b
  forward net config (ZResult.ok channel) payload b =
      if is_allowed regex channel config
      then transmit_sample (send net b.transport channel payload) b
      else ok b

  -- One turn of the loop of `zenoh_to_lcm::run`, up to the lock of the set.
  unfoldable pub on_sample : Network → Config regex → KeyExpr → Bytes → Bridge → Run Bridge
  unfolding forward
  on_sample net config key_expr payload b =
      forward net config (key_expr_to_lcm_channel keys key_expr config.key_prefix) payload b

  -- The rest of the turn, when the send succeeded.
  unfoldable pub on_recorded : Bridge → Bridge
  on_recorded b = elim b.unrecorded [
    | none ↦ b
    | some seq ↦ record b { sent_sequences = record_sent seq b.sent_sequences; unrecorded = none }
  ]

  -- The tasks run concurrently: a message may come between a send and its record.
  pub data Step (net : Network) (config : Config regex) : Bridge → Bridge → Type 0 where
    received : (msg : LcmMessage) (b : Bridge) → Step net config b (on_message config msg b)
    sampled :
        (key_expr : KeyExpr) (payload : Bytes) (b b' : Bridge)
        → b.unrecorded ≡ none
        → on_sample net config key_expr payload b ≡ ok b'
        → Step net config b b'
    recorded : (b : Bridge) → Step net config b (on_recorded b)

  pub data Steps (net : Network) (config : Config regex) : Bridge → Bridge → Type 0 where
    stop : (b : Bridge) → Steps net config b b
    next : (b c d : Bridge) → Step net config b c → Steps net config c d → Steps net config b d
