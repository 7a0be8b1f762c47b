-- ===== src/Transport/Multicast/Truncation.antt =====
-- A message of more fragments than `u16` counts.
use native.Mathlib.Nat.{le-div_iff_mul-le, suc-mul}
use zenoh_plugin_lcm.Base.{
  ℕ, zero, suc, ◌+◌, ◌-◌, ◌*◌, ◌/◌, ◌%◌, ◌^◌, ◌≤◌, ◌<◌, ◌≡◌, refl, sym, ap, ◌∙◌, arith, Bytes, List,
  [], ◌++◌, none, length, take, drop, flatten, length-drop, take-append-drop, append_assoc,
  append-nil, ok,
}
use zenoh_plugin_lcm.Base.Str.{Str}
use zenoh_plugin_lcm.Transport.Multicast.{
  LcmTransport, success, div_up, first_frag_capacity, subsequent_frag_capacity, fragment_count,
  send_rounds, send_fragmented, send,
}
use zenoh_plugin_lcm.Transport.Multicast.Plan.{pieces, cut}
use zenoh_plugin_lcm.Transport.Multicast.Fragments.{datagrams_of, all_rounds}
use zenoh_plugin_lcm.Transport.Multicast.Send.{if_room}
use zenoh_plugin_lcm.Transport.Multicast.EndToEnd.{accepting, transmit-accepting}
use zenoh_plugin_lcm.Transport.Multicast.SendRecv.{short_size, after_sending}

-- What `n` pieces leave over.
pieces_rest :
    (n cap : ℕ) (bytes : Bytes)
    → (rest : Bytes) × (flatten (pieces n cap bytes) ++ rest ≡ bytes)
      × (length bytes ≤ n * cap + length rest)
unfolding pieces
pieces_rest zero cap bytes = (bytes, refl, omega arith)
pieces_rest (suc n) cap bytes =
    let (rest, whole, enough) = pieces_rest n cap (drop cap bytes) in
    (
      rest,
      append_assoc (take cap bytes) (flatten (pieces n cap (drop cap bytes))) rest
          ∙ ap (◌++◌ (take cap bytes)) whole
          ∙ take-append-drop cap bytes,
      omega (arith, enough, length-drop cap bytes),
    )

-- Fewer pieces than the division that rounds up asks for do not hold everything.
div_up_tight : (a cap k : ℕ) → 0 < cap → k < div_up a cap → k * cap < a
div_up_tight a cap k pos h =
    let q : ℕ = (a + (cap - 1)) / cap in
    let below : suc k ≤ q = ground arith in
    omega (arith, (le-div_iff_mul-le pos).0 below, suc-mul k cap)

-- What goes out of a message: the chunks of as many fragments as the count has left after the cast.
abbrev pub chunks_sent : ℕ → Str → Bytes → ℕ → List Bytes
chunks_sent fragment_mtu channel payload zero = []
chunks_sent fragment_mtu channel payload (suc n) =
    cut (first_frag_capacity fragment_mtu channel) (subsequent_frag_capacity fragment_mtu) n payload

module _ (tr : LcmTransport) (channel : Str) (payload : Bytes)
    (room : 0 < first_frag_capacity tr.fragment_mtu channel) (size : length payload < 2 ^ 32) where
  abbrev mtu : ℕ
  mtu = tr.fragment_mtu

  -- The chunks of fewer fragments than the message has, and a rest that is not empty.
  chunks_sent_rest :
      (n : ℕ)
      → n < fragment_count mtu channel payload
      → 1 < fragment_count mtu channel payload
      → (lost : Bytes) × (flatten (chunks_sent mtu channel payload n) ++ lost ≡ payload)
        × (0 < length lost)
  chunks_sent_rest zero h k = (
    payload,
    refl,
    omega (
      arith,
      div_up_tight (length payload - first_frag_capacity mtu channel) (subsequent_frag_capacity mtu)
          0 (omega (arith, room)) (omega (arith, k)),
    ),
  )
  chunks_sent_rest (suc n) h k =
      let first : ℕ = first_frag_capacity mtu channel in
      let cap : ℕ = subsequent_frag_capacity mtu in
      let (lost, whole, enough) = pieces_rest n cap (drop first payload) in
      (
        lost,
        append_assoc (take first payload) (flatten (pieces n cap (drop first payload))) lost
            ∙ ap (◌++◌ (take first payload)) whole
            ∙ take-append-drop first payload,
        omega (
          arith,
          enough,
          length-drop first payload,
          div_up_tight (length payload - first) cap n (omega (arith, room)) (omega (arith, h)),
        ),
      )

  rounds_sent :
      (n : ℕ)
      → send_rounds accepting mtu tr.sequence_counter channel payload n n 0 0 tr.sent
        ≡ ok (
          tr.sent
              ++ datagrams_of tr.sequence_counter
                  (length payload)
                  n
                  channel
                  (chunks_sent mtu channel payload n),
          none,
        )
  unfolding send_rounds datagrams_of
  rounds_sent zero = ap (λ (l : List Bytes). ok (l, none)) (sym (append-nil tr.sent))
  rounds_sent (suc n) =
      all_rounds accepting mtu tr.sequence_counter channel payload size (suc n) n tr.sent
      ∙ ap ok (transmit-accepting tr.sent _)

  abbrev out : List Bytes
  out =
      datagrams_of tr.sequence_counter (length payload)
        (fragment_count mtu channel payload % 2 ^ 16) channel
        (chunks_sent mtu channel payload (fragment_count mtu channel payload % 2 ^ 16))

  fragmented :
      send_fragmented accepting mtu tr.sequence_counter channel payload tr.sent
      ≡ ok (tr.sent ++ out, none)
  unfolding send_fragmented
  fragmented =
      if_room (first_frag_capacity mtu channel) (subsequent_frag_capacity mtu) _ _ room
        (omega (arith, room))
      ∙ rounds_sent (fragment_count mtu channel payload % 2 ^ 16)

  send-out :
      mtu < short_size channel payload
      → send accepting tr channel payload ≡ ok (after_sending tr out, success tr.sequence_counter)
  unfolding send
  send-out large = ground (arith, fragmented)

  -- A message of 2 ^ 16 fragments or more, on a channel that leaves room in the first datagram and of
  -- less than 2 ^ 32 bytes, is cut short: `send` reports success over a socket that takes everything,
  -- its datagrams announce the whole size but hold only the chunks of as many fragments as are left
  -- when the count is taken modulo 2 ^ 16, and a rest of the payload that is not empty is never sent.
  pub send-lost :
      2 ^ 16 ≤ fragment_count mtu channel payload
      → mtu < short_size channel payload
      → (lost : Bytes) × (send accepting tr channel payload
          ≡ ok (
            after_sending tr (
                datagrams_of tr.sequence_counter
                  (length payload)
                  (fragment_count mtu channel payload % 2 ^ 16)
                  channel
                  (chunks_sent mtu channel payload (fragment_count mtu channel payload % 2 ^ 16))),
            success tr.sequence_counter,
          ))
        × (flatten (chunks_sent mtu channel payload (fragment_count mtu channel payload % 2 ^ 16))
              ++ lost
            ≡ payload)
        × (0 < length lost)
  send-lost many large =
      let n : ℕ = fragment_count mtu channel payload % 2 ^ 16 in
      let (lost, whole, some_lost) =
        chunks_sent_rest n (omega (arith, many)) (omega (arith, many)) in
      (lost, send-out large, whole, some_lost)
