-- ===== src/Plugin/Bridge/Tasks.antt =====
-- zenoh-plugin-lcm/src/lcm_to_zenoh.rs and zenoh_to_lcm.rs: the loops of the two tasks, each on its own,
-- over what they receive.
pub mod Totality
pub mod Delivery
pub mod Tracking
pub mod Echo
use zenoh_plugin_lcm.Base.{
  ℕ, zero, suc, List, [], ◌∷◌, Option, none, some, ◌++◌, Bytes, Run, ok, ◌>>=◌,
}
use zenoh_plugin_lcm.Base.Str.{Str, codes}
use zenoh_plugin_lcm.Transport.Fragment.{FragmentReassembler}
use zenoh_plugin_lcm.Transport.Multicast.{Network, Received, delivered, failed, waiting, recv}
use zenoh_plugin_lcm.Plugin.Config.{RegexApi, Config}
use zenoh_plugin_lcm.Plugin.Mapping.{KeyExprApi}
use zenoh_plugin_lcm.Plugin.Bridge.{Bridge, on_message, on_sample, on_recorded}

module _ (regex : RegexApi) (keys : KeyExprApi) where
  open keys use {KeyExpr}

  -- The loop of `lcm_to_zenoh::run`, over the input of the socket and on fuel, until it waits for more.
  -- An error of `recv` is only logged.
  unfoldable pub lcm_to_zenoh :
      Config regex
      → ℕ
      → FragmentReassembler
      → List Received
      → Bridge regex keys
      → Run (FragmentReassembler × Bridge regex keys)
  lcm_to_zenoh config zero r input b = ok (r, b)
  lcm_to_zenoh config (suc fuel) r input b = do
    (r', w, rest) ← recv r input
    elim w [
      | waiting ↦ ok (r', b)
      | failed e ↦ lcm_to_zenoh config fuel r' rest b
      | delivered msg ↦ lcm_to_zenoh config fuel r' rest (on_message regex keys config msg b)
    ]

  -- What the subscriber gives: a sample, or an error, at which the loop ends.
  pub data Incoming : Type 0 where
    sample : KeyExpr → Bytes → Incoming
    closed : Incoming

  -- The loop of `zenoh_to_lcm::run`, over what the subscriber gives.
  unfoldable pub zenoh_to_lcm :
      Network → Config regex → List Incoming → Bridge regex keys → Run (Bridge regex keys)
  zenoh_to_lcm net config [] b = ok b
  zenoh_to_lcm net config (closed ∷ later) b = ok b
  zenoh_to_lcm net config (sample key_expr payload ∷ later) b = do
    b' ← on_sample regex keys net config key_expr payload b
    zenoh_to_lcm net config later (on_recorded regex keys b')

  -- Zenoh's answer to the declaration of a subscriber: an error, or what the subscriber gives.
  abbrev pub Session : Type 0
  Session = Str → Option (List Incoming)

  abbrev pub with_subscriber :
      Network → Config regex → Option (List Incoming) → Bridge regex keys → Run (Bridge regex keys)
  with_subscriber net config none b = ok b
  with_subscriber net config (some incoming) b = zenoh_to_lcm net config incoming b

  -- `zenoh_to_lcm::run`: without a subscriber, the task returns.
  unfoldable pub subscribe :
      Network → Config regex → Session → Bridge regex keys → Run (Bridge regex keys)
  subscribe net config declare_subscriber b =
      with_subscriber net config (declare_subscriber (config.key_prefix ++ codes "/**")) b
