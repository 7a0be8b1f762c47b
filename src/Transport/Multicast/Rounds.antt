-- ===== src/Transport/Multicast/Rounds.antt =====
-- The rounds of `send_fragmented` over any socket: what they send, and how they end.
use Prim.Native.Nat.{min}
use zenoh_plugin_lcm.Base.{
  ℕ, zero, suc, ◌+◌, ◌-◌, ◌%◌, ◌^◌, ◌≡◌, inl, inr, refl, sym, ap, ◌∙◌, subst, arith, Bytes, List,
  [], ◌∷◌, ◌++◌, Option, none, some, length, take, drop, length-append, take-append-drop,
  drop-append, append_assoc, append-nil, Run, ok, slice_ok, slice_to_ok, ==_ne, Option-cases, ◌≤◌,
  ◌<◌, All, length-take,
}
use zenoh_plugin_lcm.Base.Str.{Str}
use zenoh_plugin_lcm.Transport.Protocol.{encode_fragment}
use zenoh_plugin_lcm.Transport.Multicast.{
  IoError, Network, chunk_of, send_rounds, first_frag_capacity, subsequent_frag_capacity,
}

-- The socket took the datagrams one after the other.
abbrev pub Taken : Network → List Bytes → List Bytes → Type 0
Taken net sent [] = Unit {0}
Taken net sent (d ∷ ds) = (net sent d ≡ none) × Taken net (sent ++ (d ∷ [])) ds

-- Of `rounds` datagrams, all have been taken, or those before one to which the socket answered with an
-- error.
abbrev pub Ended : Network → List Bytes → ℕ → ℕ → Option IoError → Type 0
Ended net sent taken rounds none = taken ≡ rounds
Ended net sent taken rounds (some e) = (taken < rounds) × (d : Bytes) × (net sent d ≡ some e)

-- No datagram is longer than the MTU.
abbrev pub Bounded : ℕ → List Bytes → Type 0
Bounded fragment_mtu ds = All (λ (d : Bytes). length d ≤ fragment_mtu) ds

-- What a run of the loop comes to: datagrams that were taken, and perhaps an error.
abbrev pub Ends : Network → ℕ → List Bytes → ℕ → Run (List Bytes × Option IoError) → Type 0
Ends net fragment_mtu sent rounds r =
    (ds : List Bytes) × (o : Option IoError) × (r ≡ ok (sent ++ ds, o))
    × Taken net sent ds
    × Bounded fragment_mtu ds
    × Ended net (sent ++ ds) (length ds) rounds o

Ends-nothing :
    (net : Network) (fragment_mtu : ℕ) (sent : List Bytes)
    → Ends net fragment_mtu sent 0 (ok (sent, none))
Ends-nothing net fragment_mtu sent =
    ([], none, ap (λ (l : List Bytes). ok (l, none)) (sym (append-nil sent)), tt, tt, refl)

Ended-suc :
    (net : Network) (sent sent' : List Bytes) (taken rounds : ℕ) (o : Option IoError)
    → sent ≡ sent'
    → Ended net sent taken rounds o
    → Ended net sent' (suc taken) (suc rounds) o
Ended-suc net sent sent' taken rounds none same h = ap suc h
Ended-suc net sent sent' taken rounds (some e) same (few, d, refused) =
    (omega (arith, few), d, subst (λ (l : List Bytes). net l d ≡ some e) same refused)

-- The bytes that a channel takes up in a first fragment.
abbrev pub head_size : Option Str → ℕ
head_size none = 0
head_size (some channel) = length channel + 1

module _ (net : Network) (fragment_mtu seq : ℕ) (channel : Str) (payload : Bytes)
    (first_room : 0 < first_frag_capacity fragment_mtu channel)
    (room : 0 < subsequent_frag_capacity fragment_mtu) where
  -- A chunk that leaves room for the headers, and the payload after it.
  abbrev Cuts : Bytes → Run (Bytes × Option Str) → Type 0
  Cuts pre r =
      (c : Bytes) × (chan : Option Str) × (rest : Bytes) × (r ≡ ok (c, chan))
      × ((pre ++ c) ++ rest ≡ payload)
      × (20 + head_size chan + length c ≤ fragment_mtu)

  chunk_of-Cuts :
      (i : ℕ) (pre rest : Bytes)
      → pre ++ rest ≡ payload
      → (i ≡ 0 → pre ≡ [])
      → Cuts pre (chunk_of net fragment_mtu seq channel payload i (length pre))
  chunk_of-Cuts zero pre rest e first =
      let m : ℕ = min (first_frag_capacity fragment_mtu channel) (length payload) in
      (
        take m payload,
        some channel,
        drop m payload,
        rw (slice_to_ok payload m (omega arith)) refl,
        rw (first refl) (take-append-drop m payload),
        omega (arith, first_room, length-take m payload),
      )
  chunk_of-Cuts (suc i) pre rest e first =
      let end : ℕ = min (length pre + subsequent_frag_capacity fragment_mtu) (length payload) in
      let size : length payload ≡ length pre + length rest =
        sym (ap length e) ∙ length-append pre rest in
      let tail : drop (length pre) payload ≡ rest =
        ap (drop (length pre)) (sym e) ∙ drop-append pre rest in
      (
        take (end - length pre) rest,
        none,
        drop (end - length pre) rest,
        rw
            (
              ==_ne (suc i) 0 (omega arith),
              slice_ok payload (length pre) end (omega (arith, size)) (omega arith),
              tail,
            )
            refl,
        append_assoc pre (take (end - length pre) rest) (drop (end - length pre) rest)
            ∙ ap (◌++◌ pre) (take-append-drop (end - length pre) rest)
            ∙ e,
        omega (arith, room, length-take (end - length pre) rest),
      )

  length-encode_fragment :
      (size offset i n : ℕ) (chan : Option Str) (c : Bytes)
      → length (encode_fragment seq size offset i n chan c) ≡ 20 + head_size chan + length c
  unfolding encode_fragment
  length-encode_fragment size offset i n none c = omega arith
  length-encode_fragment size offset i n (some chan) c =
      omega (arith, length-append chan (0 ∷ []), length-append (chan ++ (0 ∷ [])) c)

  pub send_rounds-Ends :
      (n rounds i : ℕ) (pre rest : Bytes) (sent : List Bytes)
      → pre ++ rest ≡ payload
      → (i ≡ 0 → pre ≡ [])
      → Ends net fragment_mtu sent rounds
          (send_rounds net fragment_mtu seq channel payload n rounds i (length pre) sent)
  unfolding send_rounds
  send_rounds-Ends n zero i pre rest sent e first = Ends-nothing net fragment_mtu sent
  send_rounds-Ends n (suc rounds) i pre rest sent e first =
      let (c, chan, rest', chunk, e', small) = chunk_of-Cuts i pre rest e first in
      let buf : Bytes =
        encode_fragment seq (length payload % 2 ^ 32) (length pre % 2 ^ 32) i n chan c in
      elim (Option-cases (net sent buf)) [
        | inl taken ↦
            let (ds, o, run, t, k, r) =
              send_rounds-Ends n rounds (i + 1) (pre ++ c) rest' (sent ++ (buf ∷ [])) e'
                (λ z. absurd (omega (arith, z))) in
            let moved = rw (length-append pre c) at run in
            (
              buf ∷ ds,
              o,
              rw (chunk, taken)
                  (moved ∙ ap (λ (l : List Bytes). ok (l, o)) (append_assoc sent (buf ∷ []) ds)),
              (taken, t),
              (
                omega (
                  arith,
                  small,
                  length-encode_fragment (length payload % 2 ^ 32) (length pre % 2 ^ 32) i n chan c,
                ),
                k,
              ),
              Ended-suc net ((sent ++ (buf ∷ [])) ++ ds) (sent ++ (buf ∷ ds)) (length ds) rounds o
                  (append_assoc sent (buf ∷ []) ds) r,
            )
        | inr (err, refused) ↦ (
          [],
          some err,
          rw (chunk, refused) (ap (λ (l : List Bytes). ok (l, some err)) (sym (append-nil sent))),
          tt,
          tt,
          (omega arith, buf, rw (append-nil sent) refused),
        )
      ]
