-- ===== src/Transport/Tests/Reassembly.antt =====
-- The theorems on reassembly at concrete fragments.
use zenoh_plugin_lcm.Base.{ℕ, ◌<◌, ◌≡◌, ◌≢◌, inl, refl, arith, List, [], ◌∷◌, Option, none, ok, All}
use zenoh_plugin_lcm.Transport.Types.{LcmMessage}
use zenoh_plugin_lcm.Transport.Protocol.{Fragment}
use zenoh_plugin_lcm.Transport.Fragment.{
  SocketAddr, FragmentKey, FragmentReassembler, key_eq, process, expire_stale, retain_fresh,
}
use zenoh_plugin_lcm.Transport.Fragment.Process.{IsValid}
use zenoh_plugin_lcm.Transport.Fragment.Safety.{Delivers, process-IsValid}
use zenoh_plugin_lcm.Transport.Fragment.Transfer.{
  Transfer, fragment_of, whole, none_seen, deliveries,
}
use zenoh_plugin_lcm.Transport.Fragment.Sessions.{
  Arrival, Fits, Stands, process_each, process_each-Agrees, messages_under, numbers_under,
}
use zenoh_plugin_lcm.Transport.Fragment.Reassembly.{reassembles_once}
use zenoh_plugin_lcm.Transport.Tests.{channel_a, home, elsewhere, empty, no_set, empty-IsValid}

abbrev pub t : Transfer
t = record { key = (home, 7); channel = channel_a; chunks = (1 ∷ 2 ∷ []) ∷ (3 ∷ []) ∷ [] }

abbrev pub foreign : Fragment
foreign = record {
  sequence_number = 7;
  payload_size = 9;
  fragment_offset = 4;
  fragment_number = 1;
  n_fragments = 3;
  channel = none;
  payload = 8 ∷ 8 ∷ [];
}

process-IsValid_example :
    (after : FragmentReassembler) × (m : Option LcmMessage) × (process empty foreign home 5 5
      ≡ ok (after, m))
    × IsValid after
    × Delivers empty foreign m
process-IsValid_example = process-IsValid empty foreign home 5 5 empty-IsValid (omega arith)

pub apart : ◌≢◌ {A = FragmentKey} (elsewhere, 7) (home, 7)
apart e = ground arith

abbrev received_at : Fragment → SocketAddr → Arrival
received_at f s = record { fragment = f; sender = s; now = 5; created = 5 }

-- The second fragment, one of another sender, and the first.
abbrev mixed : List Arrival
mixed =
    received_at (fragment_of t 1) home
    ∷ received_at foreign elsewhere
    ∷ received_at (fragment_of t 0) home
    ∷ []

mixed-Fits : All (Fits t 0 1000) mixed
mixed-Fits = (own 1 (omega arith), (other, (own 0 (omega arith), tt)))
  where
    own : (i : ℕ) → i < 2 → Fits t 0 1000 (received_at (fragment_of t i) home)
    own i h = record {
      soon = omega arith;
      later = omega arith;
      fits_word = omega arith;
      genuine = λ _. (h, refl);
    }

    other : Fits t 0 1000 (received_at foreign elsewhere)
    other = record {
      soon = omega arith;
      later = omega arith;
      fits_word = omega arith;
      genuine = λ e. absurd (apart e);
    }

numbers_of_mixed : numbers_under (home, 7) mixed ≡ 1 ∷ 0 ∷ []
unfolding numbers_under key_eq
numbers_of_mixed = refl

reassembles_once_example :
    (after : FragmentReassembler) × (ms : List (FragmentKey × LcmMessage)) × (process_each empty
        mixed
      ≡ ok (after, ms))
    × (messages_under (home, 7) ms ≡ whole t ∷ [])
reassembles_once_example =
    reassembles_once t 0 empty mixed (omega arith) (omega arith) empty-IsValid (no_set (home, 7))
      (omega arith) mixed-Fits (rw numbers_of_mixed ((omega arith, tt), (tt, tt)))
      (rw numbers_of_mixed refl)

empty-Stands : Stands t 0 1000 4096 (omega arith) (omega arith) (none_seen t) empty
empty-Stands = record {
  valid = empty-IsValid;
  holds = inl (no_set (home, 7), refl);
  covers = refl;
  same_timeout = refl;
  same_max = refl;
}

process_each-Agrees_example :
    (after : FragmentReassembler) × (ms : List (FragmentKey × LcmMessage)) × (process_each empty
        mixed
      ≡ ok (after, ms))
    × (messages_under (home, 7) ms ≡ deliveries t (none_seen t) (numbers_under (home, 7) mixed))
process_each-Agrees_example =
    process_each-Agrees t 0 1000 4096 (omega arith) (omega arith) mixed (none_seen t) empty
      empty-Stands mixed-Fits

abbrev oversized : Fragment
oversized = record foreign { payload_size = 5000 }

process-oversized : process empty oversized elsewhere 5 5 ≡ ok (empty, none)
unfolding process expire_stale retain_fresh
process-oversized = refl
