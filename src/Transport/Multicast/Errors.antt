-- ===== src/Transport/Multicast/Errors.antt =====
-- `send` over any socket: it returns, whatever the message is, reports what the socket answered, and keeps
-- to the MTU.
use zenoh_plugin_lcm.Base.{
  ℕ, ◌+◌, ◌%◌, ◌^◌, ◌≡◌, ◌⊎◌, inl, inr, refl, sym, ap, arith, Bytes, ◌||◌, List, [], ◌∷◌, ◌++◌,
  Option, none, some, length, length-append, append-nil, Run, ok, leb, ◌==◌, Bool-cases,
  Option-cases, ◌≤◌, ◌<◌, if◌then◌else◌,
}
use zenoh_plugin_lcm.Base.Str.{Str}
use zenoh_plugin_lcm.Transport.Protocol.{encode_short_message}
use zenoh_plugin_lcm.Transport.Multicast.{
  IoError, invalid_input, Network, LcmTransport, Result, success, failure, with_number,
  send_fragmented, send, first_frag_capacity, subsequent_frag_capacity, fragment_count,
}
use zenoh_plugin_lcm.Transport.Multicast.Rounds.{Taken, Bounded, Ends, send_rounds-Ends}

-- How many datagrams `send` makes of a message.
abbrev pub planned : LcmTransport → Str → Bytes → ℕ
planned tr channel payload =
    if leb (4 + 4 + length channel + 1 + length payload) tr.fragment_mtu
    then 1
    else fragment_count tr.fragment_mtu channel payload % 2 ^ 16

-- What `send` reports of `n` planned datagrams: success when the socket has taken them all, its error on a
-- further one when it has taken fewer, or that there is no room for data.
abbrev pub Reports : Network → LcmTransport → Str → ℕ → List Bytes → Result ℕ → Type 0
Reports net tr channel n ds (success seq) = (seq ≡ tr.sequence_counter) × (length ds ≡ n)
Reports net tr channel n ds (failure e) =
    ((length ds < n) × (d : Bytes) × (net (tr.sent ++ ds) d ≡ some e))
    ⊎ ((e ≡ invalid_input)
        × (ds ≡ [])
        × ((first_frag_capacity tr.fragment_mtu channel ≡ 0)
            ⊎ (subsequent_frag_capacity tr.fragment_mtu ≡ 0)))

module _ (net : Network) (tr : LcmTransport) (channel : Str) (payload : Bytes) where
  -- What the sending of a datagram or of fragments comes to.
  abbrev Sends : ℕ → Run (List Bytes × Option IoError) → Type 0
  Sends n r =
      (ds : List Bytes) × (o : Option IoError) × (r ≡ ok (tr.sent ++ ds, o))
      × Taken net tr.sent ds
      × Bounded tr.fragment_mtu ds
      × Reports net tr channel n ds (with_number tr.sequence_counter o)

  Ends-Sends :
      (n : ℕ) (r : Run (List Bytes × Option IoError))
      → Ends net tr.fragment_mtu tr.sent n r
      → Sends n r
  Ends-Sends n r (ds, none, run, t, k, all) = (ds, none, run, t, k, (refl, all))
  Ends-Sends n r (ds, some e, run, t, k, refused) = (ds, some e, run, t, k, inl refused)

  fragments-Sends :
      Sends
        (fragment_count tr.fragment_mtu channel payload % 2 ^ 16)
        (send_fragmented net tr.fragment_mtu tr.sequence_counter channel payload tr.sent)
  unfolding send_fragmented
  fragments-Sends =
      elim (Bool-cases (
        first_frag_capacity tr.fragment_mtu channel == 0
        || subsequent_frag_capacity tr.fragment_mtu == 0)) [
          | inl full ↦ rw full (
            [],
            some invalid_input,
            ap (λ (l : List Bytes). ok (l, some invalid_input)) (sym (append-nil tr.sent)),
            tt,
            tt,
            inr (refl, refl, ground arith),
          )
          | inr room ↦
              let n : ℕ = fragment_count tr.fragment_mtu channel payload % 2 ^ 16 in
              rw room (
                Ends-Sends n _ (
                  send_rounds-Ends net tr.fragment_mtu tr.sequence_counter channel payload
                    (ground arith) (ground arith) n n 0 [] payload tr.sent refl (λ e. refl)))
        ]

  datagram-Sends :
      (buf : Bytes)
      → length buf ≤ tr.fragment_mtu
      → Sends 1 (elim (net tr.sent buf) [
        | some e ↦ ok (tr.sent, some e)
        | none ↦ ok (tr.sent ++ (buf ∷ []), none)
      ])
  datagram-Sends buf small = elim (Option-cases (net tr.sent buf)) [
    | inl taken ↦ rw taken (buf ∷ [], none, refl, (taken, tt), (small, tt), (refl, refl))
    | inr (e, refused) ↦ rw refused (
      [],
      some e,
      ap (λ (l : List Bytes). ok (l, some e)) (sym (append-nil tr.sent)),
      tt,
      tt,
      inl (omega arith, buf, rw (append-nil tr.sent) refused),
    )
  ]

  length-encode_short_message :
      length (encode_short_message tr.sequence_counter channel payload)
      ≡ 4 + 4 + length channel + 1 + length payload
  unfolding encode_short_message
  length-encode_short_message = omega (
    arith,
    length-append channel (0 ∷ payload),
    length-append channel (0 ∷ []),
    length-append (channel ++ (0 ∷ [])) payload,
  )

  send-Sends :
      (ds : List Bytes) × (r : Result ℕ) × (send net tr channel payload
        ≡ ok (
          record tr { sequence_counter = (tr.sequence_counter + 1) % 2 ^ 32; sent = tr.sent ++ ds },
          r,
        ))
      × Taken net tr.sent ds
      × Bounded tr.fragment_mtu ds
      × Reports net tr channel (planned tr channel payload) ds r
  unfolding send
  send-Sends =
      elim (Bool-cases (leb (4 + 4 + length channel + 1 + length payload) tr.fragment_mtu)) [
        | inl fits ↦
            let (ds, o, run, t, k, r) =
              datagram-Sends (encode_short_message tr.sequence_counter channel payload)
                (ground (arith, fits, length-encode_short_message)) in
            (ds, with_number tr.sequence_counter o, rw (fits, run) refl, t, k, rw fits r)
        | inr large ↦
            let (ds, o, run, t, k, r) = fragments-Sends in
            (ds, with_number tr.sequence_counter o, rw (large, run) refl, t, k, rw large r)
      ]

  -- Whatever the message and the socket are, `send` returns without a panic. It uses one number, and what it
  -- adds to the sent datagrams is what the socket took. It reports success, with its number, only when
  -- the socket took every datagram: one for a short message, else as many as the number of fragments,
  -- cast to 16 bits. It reports an error only when the socket took fewer and then answered a datagram with
  -- that error, or as invalid input, with nothing sent, when the MTU leaves no room for data.
  pub send-Reports :
      (ds : List Bytes) × (r : Result ℕ) × (send net tr channel payload
        ≡ ok (
          record tr { sequence_counter = (tr.sequence_counter + 1) % 2 ^ 32; sent = tr.sent ++ ds },
          r,
        ))
      × Taken net tr.sent ds
      × Reports net tr channel (planned tr channel payload) ds r
  send-Reports = let (ds, r, run, t, _, reports) = send-Sends in (ds, r, run, t, reports)

  -- Whatever the message and the socket are, `send` returns without a panic, and none of the datagrams that
  -- it adds to the sent ones, header and channel included, is longer than the MTU.
  pub send-Bounded :
      (ds : List Bytes) × (r : Result ℕ) × (send net tr channel payload
        ≡ ok (
          record tr { sequence_counter = (tr.sequence_counter + 1) % 2 ^ 32; sent = tr.sent ++ ds },
          r,
        ))
      × Bounded tr.fragment_mtu ds
  send-Bounded = let (ds, r, run, _, bounded, _) = send-Sends in (ds, r, run, bounded)
