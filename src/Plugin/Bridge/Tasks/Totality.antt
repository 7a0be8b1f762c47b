-- ===== src/Plugin/Bridge/Tasks/Totality.antt =====
-- The loops of the tasks come to an end of their input, without a panic.
use zenoh_plugin_lcm.Base.{
  ℕ, zero, suc, ◌<◌, ◌≡◌, ◌⊎◌, inl, inr, refl, arith, List, length, All, Run, ok,
}
use zenoh_plugin_lcm.Transport.Types.{LcmMessage}
use zenoh_plugin_lcm.Transport.Fragment.{FragmentReassembler}
use zenoh_plugin_lcm.Transport.Fragment.Process.{IsValid}
use zenoh_plugin_lcm.Transport.Multicast.{
  IoError, Received, Waiting, delivered, failed, waiting, recv,
}
use zenoh_plugin_lcm.Transport.Multicast.Total.{IsReceived, recv-Returns}
use zenoh_plugin_lcm.Plugin.Config.{RegexApi, Config}
use zenoh_plugin_lcm.Plugin.Mapping.{KeyExprApi}
use zenoh_plugin_lcm.Plugin.Bridge.{Bridge, on_message}
use zenoh_plugin_lcm.Plugin.Bridge.Loopback.{IsPublic, on_message-IsPublic}
use zenoh_plugin_lcm.Plugin.Bridge.Tasks.{lcm_to_zenoh}

module _ (regex : RegexApi) (keys : KeyExprApi) (config : Config regex) where
  -- The turns of the loop, as a relation: it goes on after an error and after a message, and is done
  -- when `recv` waits for more input.
  pub data Turns
      : FragmentReassembler
        → List Received
        → Bridge regex keys
        → FragmentReassembler
        → Bridge regex keys
        → Type 0 where
    done :
        (r r' : FragmentReassembler) (input rest : List Received) (b : Bridge regex keys)
        → recv r input ≡ ok (r', waiting, rest)
        → Turns r input b r' b
    after_error :
        (r r1 r' : FragmentReassembler) (input rest : List Received) (b b' : Bridge regex keys)
        (e : IoError)
        → recv r input ≡ ok (r1, failed e, rest)
        → Turns r1 rest b r' b'
        → Turns r input b r' b'
    after_message :
        (r r1 r' : FragmentReassembler) (input rest : List Received) (b b' : Bridge regex keys)
        (msg : LcmMessage)
        → recv r input ≡ ok (r1, delivered msg, rest)
        → Turns r1 rest (on_message regex keys config msg b) r' b'
        → Turns r input b r' b'

  abbrev pub Finishes :
      FragmentReassembler
      → List Received
      → Bridge regex keys
      → Run (FragmentReassembler × Bridge regex keys)
      → Type 0
  Finishes r input b result =
      (r' : FragmentReassembler) × (b' : Bridge regex keys) × (result ≡ ok (r', b'))
      × Turns r input b r' b'
      × IsValid r'
      × All (IsPublic regex keys config) b'.published

  turn_Finishes :
      (fuel : ℕ) (r r1 : FragmentReassembler) (w : Waiting) (input rest : List Received)
      (b : Bridge regex keys)
      → recv r input ≡ ok (r1, w, rest)
      → IsValid r1
      → All (IsPublic regex keys config) b.published
      → ((w ≡ waiting) ⊎ (length rest < length input))
      → ((b1 : Bridge regex keys)
          → length rest < length input
          → All (IsPublic regex keys config) b1.published
          → Finishes r1 rest b1 (lcm_to_zenoh regex keys config fuel r1 rest b1))
      → Finishes r input b (lcm_to_zenoh regex keys config (suc fuel) r input b)
  unfolding lcm_to_zenoh
  turn_Finishes fuel r r1 waiting input rest b run v public less more =
      rw run (r1, b, refl, done r r1 input rest b run, v, public)
  turn_Finishes fuel r r1 (failed e) input rest b run v public (inl bad) more = cc
  turn_Finishes fuel r r1 (failed e) input rest b run v public (inr less) more =
      let (r', b', result, turns, v', public') = more b less public in
      rw run (r', b', result, after_error r r1 r' input rest b b' e run turns, v', public')
  turn_Finishes fuel r r1 (delivered msg) input rest b run v public (inl bad) more = cc
  turn_Finishes fuel r r1 (delivered msg) input rest b run v public (inr less) more =
      let (r', b', result, turns, v', public') =
        more (on_message regex keys config msg b) less
          (on_message-IsPublic regex keys config msg b public) in
      rw run (r', b', result, after_message r r1 r' input rest b b' msg run turns, v', public')

  -- With more fuel than there is input, the loop of `lcm_to_zenoh` makes all its turns, until `recv` waits
  -- for more, whatever bytes the datagrams hold and whatever errors the socket gives: it returns without
  -- a panic, with a valid reassembler, and if all that was published went to allowed channels, all that
  -- is published does.
  pub lcm_to_zenoh-Finishes :
      (fuel : ℕ) (r : FragmentReassembler) (input : List Received) (b : Bridge regex keys)
      → length input < fuel
      → IsValid r
      → All IsReceived input
      → All (IsPublic regex keys config) b.published
      → Finishes r input b (lcm_to_zenoh regex keys config fuel r input b)
  lcm_to_zenoh-Finishes zero r input b h v bytes public = absurd (omega arith)
  lcm_to_zenoh-Finishes (suc fuel) r input b h v bytes public =
      let (r1, w, rest, run, v1, bytes1, less) = recv-Returns r input v bytes in
      turn_Finishes fuel r r1 w input rest b run v1 public less (λ b1 shorter public1.
        lcm_to_zenoh-Finishes fuel r1 rest b1 (omega (arith, h, shorter)) v1 bytes1 public1)
