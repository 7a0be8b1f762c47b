-- ===== src/Transport/Multicast/EndToEnd.antt =====
-- From `send` on one side to `recv` on the other.
use native.Mathlib.Omega.{arith}
use native.Mathlib.Nat.{add-zero, zero-add}
use zenoh_plugin_lcm.Base.{
  ℕ, zero, suc, ◌+◌, ◌^◌, ◌≤◌, ◌<◌, ◌≡◌, refl, sym, ap, ap₂, ◌∙◌, subst, Bytes, List, [], ◌∷◌, ◌++◌,
  none, length, All, append_assoc, append-nil,
}
use zenoh_plugin_lcm.Base.Str.{Str}
use zenoh_plugin_lcm.Transport.Protocol.RoundTrip.{encoding, IsChannel}
use zenoh_plugin_lcm.Transport.Fragment.{SocketAddr}
use zenoh_plugin_lcm.Transport.Fragment.Render.{chunk_at}
use zenoh_plugin_lcm.Transport.Fragment.Transfer.{Transfer, total, content, fragment_of}
use zenoh_plugin_lcm.Transport.Fragment.Sessions.{Arrival}
use zenoh_plugin_lcm.Transport.Multicast.{Network, fragment_count, Received, datagram}
use zenoh_plugin_lcm.Transport.Multicast.Fragments.{transmit, datagrams_of}
use zenoh_plugin_lcm.Transport.Multicast.Send.{
  Fragmentable, chunks_of, length-chunks_of, flatten-chunks_of,
}
use zenoh_plugin_lcm.Transport.Multicast.Datagrams.{encodings, datagrams_of-encodings}
use zenoh_plugin_lcm.Transport.Multicast.Receive.{numbers_of, received, IsSendable, Own}

-- A socket that takes everything.
abbrev pub accepting : Network
accepting sent d = none

pub transmit-accepting : (sent ds : List Bytes) → transmit accepting sent ds ≡ (sent ++ ds, none)
unfolding transmit
transmit-accepting sent [] = ap (λ (l : List Bytes). (l, none)) (sym (append-nil sent))
transmit-accepting sent (d ∷ ds) =
    transmit-accepting (sent ++ (d ∷ [])) ds
    ∙ ap (λ (l : List Bytes). (l, none)) (append_assoc sent (d ∷ []) ds)

-- Datagrams `ns` of the list, as they arrive from `src` with the clock readings of their calls.
abbrev pub arriving :
    List Bytes → SocketAddr → (ℕ → ℕ) → (ℕ → ℕ) → List ℕ → List Received → List Received
arriving ds src now created [] input = input
arriving ds src now created (n ∷ ns) input =
    datagram (chunk_at ds n) src (now n) (created n) ∷ arriving ds src now created ns input

encodings_at :
    (t : Transfer) (k i j : ℕ)
    → i < k
    → chunk_at (encodings t j k) i ≡ encoding (fragment_of t (j + i))
unfolding encodings
encodings_at t zero i j h = absurd (omega arith)
encodings_at t (suc k) zero j h = rw add-zero
encodings_at t (suc k) (suc i) j h =
    encodings_at t k i (suc j) (omega arith)
    ∙ ap (λ (n : ℕ). encoding (fragment_of t n)) (omega arith)

module _ (t : Transfer) (src : SocketAddr) (now created : ℕ → ℕ) where
  abbrev pub history : List ℕ → List Arrival
  history [] = []
  history (n ∷ ns) =
      record { fragment = fragment_of t n; sender = src; now = now n; created = created n }
      ∷ history ns

  pub numbers_of-history : (ns : List ℕ) → numbers_of (history ns) ≡ ns
  numbers_of-history [] = refl
  numbers_of-history (n ∷ ns) = ap (◌∷◌ n) (numbers_of-history ns)

  pub arriving-received :
      (ns : List ℕ) (input : List Received)
      → All (λ n. n < total t) ns
      → arriving (encodings t 0 (total t)) src now created ns input ≡ received (history ns) input
  arriving-received [] input h = refl
  arriving-received (n ∷ ns) input h =
      let same : chunk_at (encodings t 0 (total t)) n ≡ encoding (fragment_of t n) =
        encodings_at t (total t) n 0 h.0
        ∙ ap (λ (k : ℕ). encoding (fragment_of t k)) (zero-add n) in
      ap₂ ◌∷◌ (ap (λ (d : Bytes). datagram d src (now n) (created n)) same)
        (arriving-received ns input h.1)

-- The readings of the clock lie in a window of one timeout.
pub record InWindow (start timeout : ℕ) (now created : ℕ → ℕ) : Type 0 where
  pub soon : (n : ℕ) → now n ≤ start + timeout
  pub later : (n : ℕ) → start ≤ created n

module _ (fragment_mtu seq : ℕ) (channel : Str) (payload : Bytes) (src : SocketAddr)
    (h : Fragmentable fragment_mtu channel payload) (is_channel : IsChannel channel)
    (word : seq < 2 ^ 32) where
  abbrev pub transfer : Transfer
  transfer = record {
    key = (src, seq);
    channel = channel;
    chunks = chunks_of fragment_mtu channel payload;
  }

  pub transfer-total : total transfer ≡ fragment_count fragment_mtu channel payload
  transfer-total = length-chunks_of fragment_mtu channel payload

  pub transfer-content : content transfer ≡ payload
  transfer-content = flatten-chunks_of fragment_mtu channel payload h

  pub transfer-IsSendable : IsSendable transfer
  transfer-IsSendable = record {
    sequence_number = word;
    channel = is_channel;
    few = subst (λ (n : ℕ). n < 2 ^ 16) (sym transfer-total) h.few;
    size = subst (λ (b : Bytes). length b < 2 ^ 32) (sym transfer-content) h.size;
  }

  pub transfer_datagrams :
      datagrams_of seq
        (length payload)
        (fragment_count fragment_mtu channel payload)
        channel
        (chunks_of fragment_mtu channel payload)
      ≡ encodings transfer 0 (total transfer)
  transfer_datagrams =
      ap₂
        (λ (b : Bytes) (n : ℕ).
          datagrams_of seq (length b) n channel (chunks_of fragment_mtu channel payload))
        (sym transfer-content) (sym transfer-total)
      ∙ datagrams_of-encodings transfer

  module _ (start timeout max : ℕ) (now created : ℕ → ℕ)
      (window : InWindow start timeout now created) (small : length (content transfer) ≤ max) where
    pub Own-history :
        (ns : List ℕ)
        → All (λ n. n < total transfer) ns
        → All
            (Own transfer start timeout max transfer-IsSendable small)
            (history transfer src now created ns)
    Own-history [] r = tt
    Own-history (n ∷ ns) r = (
      (
        record {
          soon = window.soon n;
          later = window.later n;
          fits_word = transfer-IsSendable.few;
          genuine = λ _. (r.0, refl);
        },
        refl,
      ),
      Own-history ns r.1,
    )
