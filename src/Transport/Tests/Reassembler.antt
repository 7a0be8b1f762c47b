-- ===== src/Transport/Tests/Reassembler.antt =====
-- Calls of `process` on a reassembler that holds half a message.
use zenoh_plugin_lcm.Base.{
  ℕ, ◌≤◌, ◌-◌, ◌∙◌, le→ltb, ◌≡◌, refl, sym, subst, arith, true, false, [], ◌∷◌, Option, none, some,
  ok,
}
use zenoh_plugin_lcm.Base.Str.{codes}
use zenoh_plugin_lcm.Transport.Types.{LcmMessage}
use zenoh_plugin_lcm.Transport.Protocol.{Fragment}
use zenoh_plugin_lcm.Transport.Fragment.{
  FragmentKey, FragmentSet, FragmentReassembler, lookup, insert, new_set, retain_fresh,
  expire_stale, store_channel, accept, key_eq, process,
}
use zenoh_plugin_lcm.Transport.Fragment.Process.{IsValid}
use zenoh_plugin_lcm.Transport.Fragment.Safety.{process-IsValid}
use zenoh_plugin_lcm.Transport.Fragment.Transfer.{fragment_of}
use zenoh_plugin_lcm.Transport.Fragment.Independence.{Reading, process-process_comm}
use zenoh_plugin_lcm.Transport.Fragment.Ageing.{timeless}
use zenoh_plugin_lcm.Transport.Fragment.Commute.{NoneExpires}
use zenoh_plugin_lcm.Transport.Fragment.Renaming.{IsLast, Completes, process-refused}
use zenoh_plugin_lcm.Transport.Tests.{channel_a, home, elsewhere, empty, empty-IsValid}
use zenoh_plugin_lcm.Transport.Tests.Reassembly.{t, foreign, apart}

abbrev half_set : FragmentSet
half_set = record {
  channel = channel_a;
  payload_size = 3;
  n_fragments = 2;
  fragments_received = 1;
  buffer = 1 ∷ 2 ∷ 0 ∷ [];
  received_mask = true ∷ false ∷ [];
  created_at = 5;
}

abbrev half : FragmentReassembler
half = record empty { pending = ((home, 7), half_set) ∷ [] }

half_received : process empty (fragment_of t 0) home 5 5 ≡ ok (half, none)
unfolding process expire_stale retain_fresh lookup new_set store_channel accept insert
half_received = refl

half-IsValid : IsValid half
half-IsValid =
    let (r, m, e, v, _) =
      process-IsValid empty (fragment_of t 0) home 5 5 empty-IsValid (omega arith) in
    let same : r ≡ half = cc half_received in subst IsValid same v

-- Calls at the times 6 and 7, with the creation of a set one tick later.
abbrev at_six : Reading
at_six = record { now = 6; created = 7 }

abbrev at_seven : Reading
at_seven = record { now = 7; created = 8 }

half-NoneExpires : (now : ℕ) → now ≤ 1000 → NoneExpires half 6 now
half-NoneExpires now soon k s e =
    le→ltb 1000 (6 - s.created_at) (omega arith)
    ∙ sym (le→ltb 1000 (now - s.created_at) (omega (arith, soon)))

process-process_comm_example :
    (m n : Option LcmMessage) × (r1 r12 r2 r21 : FragmentReassembler) × (process half
        (fragment_of t 1)
        home
        6
        7
      ≡ ok (r1, m))
    × (process r1 foreign elsewhere 7 8 ≡ ok (r12, n))
    × (process half foreign elsewhere 6 7 ≡ ok (r2, n))
    × (process r2 (fragment_of t 1) home 7 8 ≡ ok (r21, m))
    × ((k : FragmentKey) → timeless (lookup k r12.pending) ≡ timeless (lookup k r21.pending))
process-process_comm_example =
    process-process_comm half (fragment_of t 1) foreign home elsewhere at_six at_seven at_six
      at_seven half-IsValid (omega arith) (omega arith) (λ e. apart (sym e))
      (half-NoneExpires 7 (omega arith)) (half-NoneExpires 6 (omega arith))
      (half-NoneExpires 7 (omega arith)) (omega arith) (omega arith)

-- A fragment 0 of the same message with another size and channel.
abbrev wrong_size : Fragment
wrong_size = record (fragment_of t 0) { payload_size = 4; channel = some (codes "X") }

third_byte-IsLast : IsLast (fragment_of t 1) half_set
third_byte-IsLast = record {
  wants = record {
    same_size = refl;
    same_count = refl;
    numbered = omega arith;
    unseen = refl;
    inside = omega arith;
  };
  last = refl;
  later = λ e. absurd (omega arith);
}

found_half : lookup (home, 7) half.pending ≡ some half_set
unfolding lookup key_eq
found_half = refl

process-refused_example :
    (between : FragmentReassembler) × (process half wrong_size home 6 6 ≡ ok (between, none))
    × Completes between (fragment_of t 1) home 7 7 half_set (codes "X")
    × Completes half (fragment_of t 1) home 7 7 half_set channel_a
process-refused_example =
    process-refused half wrong_size (fragment_of t 1) home 6 6 7 7 half_set (codes "X") half-IsValid
      (omega arith) (found_half, refl) refl refl refl (omega arith) (λ e. absurd (omega arith)) refl
      third_byte-IsLast
