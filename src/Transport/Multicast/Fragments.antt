-- ===== src/Transport/Multicast/Fragments.antt =====
-- The loop of `send_fragmented` sends the datagrams of the plan, in order, up to the first error.
use Prim.Native.Nat.{min}
use native.Mathlib.Nat.{zero-add}
use native.Mathlib.Omega.{arith}
use zenoh_plugin_lcm.Base.{
  ℕ, zero, suc, ◌+◌, ◌-◌, ◌%◌, ◌^◌, ◌<◌, ◌≡◌, ◌≢◌, refl, sym, ap, ap₂, ◌∙◌, Bytes, List, [], ◌∷◌,
  ◌++◌, Option, none, some, length, take, drop, length-append, take-append-drop, drop-append,
  append_assoc, ok, slice, slice_to, slice_ok, slice_to_ok,
}
use zenoh_plugin_lcm.Base.Str.{Str}
use zenoh_plugin_lcm.Transport.Protocol.{encode_fragment}
use zenoh_plugin_lcm.Transport.Multicast.{
  IoError, Network, send_rounds, first_frag_capacity, subsequent_frag_capacity,
}
use zenoh_plugin_lcm.Transport.Multicast.Plan.{pieces, cut, take-min}

-- Datagrams handed to the socket one by one, until it refuses one.
unfoldable pub transmit : Network → List Bytes → List Bytes → List Bytes × Option IoError
transmit net sent [] = (sent, none)
transmit net sent (d ∷ ds) =
    let rest = transmit net (sent ++ (d ∷ [])) ds in
    elim (net sent d) [ some e ↦ (sent, some e) | none ↦ rest ]

module _ (seq size n_fragments : ℕ) where
  -- The datagrams of the fragments from number `i` at `offset` on.
  unfoldable pub later_datagrams : ℕ → ℕ → List Bytes → List Bytes
  later_datagrams i offset [] = []
  later_datagrams i offset (c ∷ cs) =
      encode_fragment seq size offset i n_fragments none c
      ∷ later_datagrams (i + 1) (offset + length c) cs

  -- The datagrams of all fragments: the channel goes with the first one.
  unfoldable pub datagrams_of : Str → List Bytes → List Bytes
  unfolding later_datagrams
  datagrams_of channel [] = []
  datagrams_of channel (c ∷ cs) =
      encode_fragment seq size 0 0 n_fragments (some channel) c ∷ later_datagrams 1 (length c) cs

module _ (net : Network) (fragment_mtu seq : ℕ) (channel : Str) (payload : Bytes)
    (fits : length payload < 2 ^ 32) where
  abbrev cap : ℕ
  cap = subsequent_frag_capacity fragment_mtu

  abbrev first : ℕ
  first = first_frag_capacity fragment_mtu channel

  slice_rest :
      (pre rest : Bytes)
      → pre ++ rest ≡ payload
      → slice payload (length pre) (min (length pre + cap) (length payload)) ≡ ok (take cap rest)
  slice_rest pre rest e =
      let size : length payload ≡ length pre + length rest =
        sym (ap length e) ∙ length-append pre rest in
      let room : min (length pre + cap) (length payload) - length pre ≡ min cap (length rest) =
        omega (arith, size) in
      let tail : drop (length pre) payload ≡ rest =
        ap (drop (length pre)) (sym e) ∙ drop-append pre rest in
      slice_ok payload (length pre) (min (length pre + cap) (length payload)) (omega (arith, size))
        (omega arith)
      ∙ ap₂ (λ (n : ℕ) (xs : Bytes). ok (take n xs)) room tail
      ∙ ap ok (take-min cap rest)

  -- The rounds after the first, over what is left of the payload.
  later_rounds :
      (n rounds i : ℕ) (pre rest : Bytes) (sent : List Bytes)
      → i ≢ 0
      → pre ++ rest ≡ payload
      → send_rounds net fragment_mtu seq channel payload n rounds i (length pre) sent
        ≡ ok (
            transmit net sent
              (later_datagrams seq (length payload) n i (length pre) (pieces rounds cap rest)))
  unfolding send_rounds transmit later_datagrams pieces
  later_rounds n zero i pre rest sent h e = refl
  later_rounds n (suc rounds) i pre rest sent h e =
      let chunk = take cap rest in
      let buf = encode_fragment seq (length payload) (length pre) i n none chunk in
      let moved : length (pre ++ chunk) ≡ length pre + length chunk = length-append pre chunk in
      let size : length payload ≡ length pre + length rest =
        sym (ap length e) ∙ length-append pre rest in
      let split : (pre ++ chunk) ++ drop cap rest ≡ payload =
        append_assoc pre chunk (drop cap rest) ∙ ap (◌++◌ pre) (take-append-drop cap rest) ∙ e in
      let more =
        later_rounds n rounds (i + 1) (pre ++ chunk) (drop cap rest) (sent ++ (buf ∷ []))
          (omega arith) split in
      let at_offset = rw moved at more in
      let size_word : length payload % 2 ^ 32 ≡ length payload = omega arith in
      let offset_word : length pre % 2 ^ 32 ≡ length pre = omega (arith, size) in
      ground (arith, slice_rest pre rest e)

  slice_first : slice_to payload (min first (length payload)) ≡ ok (take first payload)
  slice_first =
      slice_to_ok payload (min first (length payload)) (omega arith)
      ∙ ap ok (take-min first payload)

  -- All rounds: the first, and `m` more.
  pub all_rounds :
      (n m : ℕ) (sent : List Bytes)
      → send_rounds net fragment_mtu seq channel payload n (suc m) 0 0 sent
        ≡ ok (
            transmit net sent
              (datagrams_of seq (length payload) n channel (cut first cap m payload)))
  unfolding send_rounds transmit datagrams_of
  all_rounds n m sent =
      let chunk = take first payload in
      let buf = encode_fragment seq (length payload) 0 0 n (some channel) chunk in
      let more =
        later_rounds n m 1 chunk (drop first payload) (sent ++ (buf ∷ [])) (omega arith)
          (take-append-drop first payload) in
      let size_word : length payload % 2 ^ 32 ≡ length payload = omega arith in
      ground (arith, slice_first, zero-add (length chunk))
