-- ===== src/Transport/Multicast/Receive.antt =====
-- `recv` over the datagrams of one message, in any order.
use native.Mathlib.Omega.{arith}
use zenoh_plugin_lcm.Base.{
  ℕ, zero, suc, ◌+◌, ◌^◌, ◌≤◌, ◌<◌, ◌≡◌, refl, sym, ◌∙◌, subst, Bool, true, false, List, [], ◌∷◌,
  none, some, length, All, set, ok, ==_iff, ==_ne, length-replicate, inl,
}
use zenoh_plugin_lcm.Transport.Types.{LcmMessage}
use zenoh_plugin_lcm.Transport.Protocol.{fragment, parse_datagram}
use zenoh_plugin_lcm.Transport.Protocol.RoundTrip.{
  encoding, IsChannel, IsNamed, FitsWords, parse-encode_fragment,
}
use zenoh_plugin_lcm.Transport.Fragment.{FragmentReassembler, process, lookup}
use zenoh_plugin_lcm.Transport.Fragment.Accept.{count, count-set}
use zenoh_plugin_lcm.Transport.Fragment.Process.{IsValid, count-replicate}
use zenoh_plugin_lcm.Transport.Fragment.Render.{chunk_fits}
use zenoh_plugin_lcm.Transport.Fragment.Transfer.{
  Transfer, total, content, fragment_of, channel_for, whole, is_complete, none_seen,
}
use zenoh_plugin_lcm.Transport.Fragment.Sessions.{Arrival, key_of, Fits, Stands, own_step}
use zenoh_plugin_lcm.Transport.Fragment.Reassembly.{AllDistinct, Unseen, Unseen-set, All-Unseen}
use zenoh_plugin_lcm.Transport.Multicast.{Received, datagram, recv, delivered}

abbrev pub numbers_of : List Arrival → List ℕ
numbers_of [] = []
numbers_of (a ∷ history) = a.fragment.fragment_number ∷ numbers_of history

-- The arrivals as the socket returns them, before further input.
abbrev pub received : List Arrival → List Received → List Received
received [] input = input
received (a ∷ history) input =
    datagram (encoding a.fragment) a.sender a.now a.created ∷ received history input

-- A transfer whose fragments can be encoded.
pub record IsSendable (t : Transfer) : Type 0 where
  pub sequence_number : t.key.1 < 2 ^ 32
  pub channel : IsChannel t.channel
  pub few : total t < 2 ^ 16
  pub size : length (content t) < 2 ^ 32

FitsWords-fragment_of :
    (t : Transfer) (i : ℕ) → IsSendable t → i < total t → FitsWords (fragment_of t i)
FitsWords-fragment_of t i s h = record {
  sequence_number = s.sequence_number;
  payload_size = s.size;
  fragment_offset = omega (arith, chunk_fits t.chunks i h, s.size);
  fragment_number = omega (arith, s.few);
  n_fragments = s.few;
}

IsNamed-fragment_of : (t : Transfer) (i : ℕ) → IsSendable t → IsNamed i (channel_for t.channel i)
IsNamed-fragment_of t zero s = (refl, s.channel)
IsNamed-fragment_of t (suc i) s = omega arith

parse-fragment_of :
    (t : Transfer) (i : ℕ)
    → IsSendable t
    → i < total t
    → parse_datagram (encoding (fragment_of t i)) ≡ ok (some (fragment (fragment_of t i)))
parse-fragment_of t i s h =
    parse-encode_fragment (fragment_of t i) (FitsWords-fragment_of t i s h)
      (IsNamed-fragment_of t i s)

module _ (t : Transfer) (start timeout max : ℕ) (sendable : IsSendable t)
    (small : length (content t) ≤ max) where
  -- An arrival of the transfer itself.
  abbrev pub Own : Arrival → Type 0
  Own a = Fits t start timeout a × (key_of a ≡ t.key)

  parse-Own :
      (a : Arrival) → Own a → parse_datagram (encoding a.fragment) ≡ ok (some (fragment a.fragment))
  parse-Own a (fit, e) =
      let (numbered, same) = fit.genuine e in
      subst (λ f. parse_datagram (encoding f) ≡ ok (some (fragment f))) (sym same)
        (parse-fragment_of t a.fragment.fragment_number sendable numbered)

  recv_last :
      (r after : FragmentReassembler) (a : Arrival) (m : LcmMessage) (input : List Received)
      → Own a
      → process r a.fragment a.sender a.now a.created ≡ ok (after, some m)
      → recv r (received (a ∷ []) input) ≡ ok (after, delivered m, input)
  unfolding recv
  recv_last r after a m input own e = ground (arith, parse-Own a own)

  recv_more :
      (r after : FragmentReassembler) (a : Arrival) (input : List Received)
      → Own a
      → process r a.fragment a.sender a.now a.created ≡ ok (after, none)
      → recv r (received (a ∷ []) input) ≡ recv after input
  unfolding recv
  recv_more r after a input own e = ground (arith, parse-Own a own)

  recv_history :
      (a : Arrival) (history : List Arrival) (mask : List Bool) (r : FragmentReassembler)
      (input : List Received)
      → Stands t start timeout max sendable.few small mask r
      → All Own (a ∷ history)
      → AllDistinct (numbers_of (a ∷ history))
      → All (Unseen mask) (numbers_of (a ∷ history))
      → count mask + length (numbers_of (a ∷ history)) ≡ total t
      → (after : FragmentReassembler) × (recv r (received (a ∷ history) input)
          ≡ ok (after, delivered (whole t), input))
        × IsValid after
  recv_history a [] mask r input st own d u h =
      let last : is_complete t (set mask a.fragment.fragment_number true) ≡ true =
        (==_iff _ _).1 (omega (arith, count-set mask a.fragment.fragment_number u.0)) in
      let (after, run, st') =
        own_step t start timeout max sendable.few small mask r a st own.0.0 own.0.1 in
      (after, recv_last r after a (whole t) input own.0 (rw last at run), st'.valid)
  recv_history a (b ∷ history) mask r input st own d u h =
      let marked = set mask a.fragment.fragment_number true in
      let more : is_complete t marked ≡ false =
        ==_ne _ _ (λ e. omega (arith, count-set mask a.fragment.fragment_number u.0)) in
      let (next, run, st') =
        own_step t start timeout max sendable.few small mask r a st own.0.0 own.0.1 in
      let (after, runs, v) =
        recv_history b history marked next input (rw more at st') own.1 d.1
          (Unseen-set mask a.fragment.fragment_number (numbers_of (b ∷ history)) d.0 u.1)
          (omega (arith, count-set mask a.fragment.fragment_number u.0)) in
      (after, recv_more r next a (received (b ∷ history) input) own.0 (rw more at run) ∙ runs, v)

  Own-in_range :
      (history : List Arrival) → All Own history → All (λ n. n < total t) (numbers_of history)
  Own-in_range [] own = tt
  Own-in_range (a ∷ history) own = ((own.0.0.genuine own.0.1).0, Own-in_range history own.1)

  -- Nothing of the transfer is pending, and all its fragments arrive within one timeout, each once, in
  -- any order.
  pub recv-Own :
      (history : List Arrival) (r : FragmentReassembler) (input : List Received)
      → IsValid r
      → r.timeout ≡ timeout
      → r.max_message_size ≡ max
      → lookup t.key r.pending ≡ none
      → 0 < total t
      → All Own history
      → AllDistinct (numbers_of history)
      → length (numbers_of history) ≡ total t
      → (after : FragmentReassembler) × (recv r (received history input)
          ≡ ok (after, delivered (whole t), input))
        × IsValid after
  recv-Own [] r input v time size gone pos own d all = absurd (omega arith)
  recv-Own (a ∷ history) r input v time size gone pos own d all =
      recv_history a history (none_seen t) r input
        (record {
          valid = v;
          holds = inl (gone, refl);
          covers = length-replicate (total t) false;
          same_timeout = time;
          same_max = size;
        })
        own d (All-Unseen (total t) (numbers_of (a ∷ history)) (Own-in_range (a ∷ history) own))
        (omega (arith, count-replicate (total t)))
