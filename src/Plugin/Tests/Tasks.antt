-- ===== src/Plugin/Tests/Tasks.antt =====
-- The two tasks on concrete input.
use zenoh_plugin_lcm.Base.{
  ℕ, ◌<◌, ◌≤◌, length, ◌≡◌, inr, refl, arith, true, false, List, [], ◌∷◌, ◌++◌, some, Bytes, ok,
}
use zenoh_plugin_lcm.Base.Str.{codes}
use zenoh_plugin_lcm.Transport.Fragment.{FragmentReassembler}
use zenoh_plugin_lcm.Transport.Fragment.Process.{IsValid}
use zenoh_plugin_lcm.Transport.Multicast.{
  success, send, Received, datagram, broken, os_error, recv, delivered,
}
use zenoh_plugin_lcm.Transport.Multicast.EndToEnd.{accepting, arriving}
use zenoh_plugin_lcm.Transport.Multicast.SendRecv.{message, after_sending}
use zenoh_plugin_lcm.Transport.Multicast.AnySize.{IsCarried, CanReceive, IsOrder}
use zenoh_plugin_lcm.Transport.Tests.{
  channel_a, channel_a-IsChannel, home, empty, empty-IsValid, no_set, sender, thirty,
  thirty-Fragmentable, at_five, at_five-InWindow, last_first, last_first-AllDistinct, small,
  small-IsByte,
}
use zenoh_plugin_lcm.Plugin.Sequences.{has}
use zenoh_plugin_lcm.Plugin.Sequences.Wrap.{record_all, has-record_all}
use zenoh_plugin_lcm.Plugin.Bridge.{Bridge, on_message, on_sample, on_recorded}
use zenoh_plugin_lcm.Plugin.Bridge.Tasks.Echo.{after_echo, lcm_to_zenoh-on_recorded}
use zenoh_plugin_lcm.Plugin.Bridge.Relay.{on_message-on_sample}
use zenoh_plugin_lcm.Plugin.Bridge.Tasks.{
  lcm_to_zenoh, Incoming, sample, closed, Session, subscribe,
}
use zenoh_plugin_lcm.Plugin.Bridge.Tasks.Totality.{Finishes, lcm_to_zenoh-Finishes}
use zenoh_plugin_lcm.Plugin.Bridge.Tasks.Delivery.{lcm_to_zenoh-arriving}
use zenoh_plugin_lcm.Plugin.Bridge.Tasks.Tracking.{IsSteady, subscribe-IsSteady}
use zenoh_plugin_lcm.Plugin.Tests.{
  prefixes, texts, deny_d, accept_all, idle, on_a, to_key, to_channel, a-IsAllowed, two_numbers,
  two_numbers-IsDistinct,
}

thirty-IsCarried : IsCarried sender channel_a thirty
thirty-IsCarried = record {
  word = omega arith;
  is_channel = channel_a-IsChannel;
  sized = inr (omega arith, thirty-Fragmentable);
}

thirty-CanReceive : CanReceive sender thirty empty home 0 at_five at_five
thirty-CanReceive = record {
  valid = empty-IsValid;
  admits = omega arith;
  fresh = no_set (home, 7);
  window = at_five-InWindow;
}

last_first-IsOrder : IsOrder last_first 3
last_first-IsOrder = record {
  distinct = last_first-AllDistinct;
  in_range = (omega arith, (omega arith, (omega arith, tt)));
  complete = refl;
}

knows_no_seven : has 7 two_numbers ≡ false
unfolding has
knows_no_seven = refl

lcm_to_zenoh-arriving_example :
    (ds : List Bytes) × (send accepting sender channel_a thirty
      ≡ ok (after_sending sender ds, success 7))
    × (after : FragmentReassembler) × (lcm_to_zenoh prefixes texts deny_d 2 empty
          (arriving ds home at_five at_five last_first [])
          idle
        ≡ ok (after, record idle { published = [] ++ ((codes "lcm/A", thirty) ∷ []) }))
    × IsValid after
lcm_to_zenoh-arriving_example =
    lcm_to_zenoh-arriving prefixes texts deny_d idle (codes "lcm/A") sender channel_a thirty empty
      home 0 at_five at_five last_first 0 a-IsAllowed to_key knows_no_seven thirty-IsCarried
      thirty-CanReceive last_first-IsOrder

-- A bridge that sends with the small MTU.
abbrev other : Bridge prefixes texts
other = record idle { transport = sender }

on_message-on_sample_example :
    (ds : List Bytes) × ((on_message prefixes texts deny_d (on_a 9 thirty) idle).published
      ≡ [] ++ ((codes "lcm/A", thirty) ∷ []))
    × (on_sample prefixes texts accepting deny_d (codes "lcm/A") thirty other
        ≡ ok (record other { transport = after_sending sender ds; unrecorded = some 7 }))
    × (after : FragmentReassembler) × (recv empty (arriving ds home at_five at_five last_first [])
        ≡ ok (after, delivered (message sender channel_a thirty), []))
on_message-on_sample_example =
    on_message-on_sample prefixes texts deny_d deny_d (on_a 9 thirty) idle other (codes "lcm/A")
      empty home 0 at_five at_five last_first [] knows_no_nine a-IsAllowed to_key refl a-IsAllowed
      thirty-IsCarried thirty-CanReceive last_first-IsOrder
  where
    knows_no_nine : has 9 two_numbers ≡ false
    knows_no_nine = unfold has in refl

abbrev noisy : List Received
noisy = broken (os_error 1) ∷ datagram small home 5 5 ∷ []

lcm_to_zenoh-Finishes_example :
    Finishes prefixes texts deny_d empty noisy idle
      (lcm_to_zenoh prefixes texts deny_d 3 empty noisy idle)
lcm_to_zenoh-Finishes_example =
    lcm_to_zenoh-Finishes prefixes texts deny_d 3 empty noisy idle (omega arith) empty-IsValid
      (tt, (small-IsByte, tt)) tt

two_numbers_passed : (m : ℕ) → has m two_numbers ≡ true → m < 6
unfolding has
two_numbers_passed m h = ground arith

idle-IsSteady : IsSteady prefixes texts accept_all deny_d 2 idle
idle-IsSteady = record {
  idle = refl;
  tracked = record {
    distinct = two_numbers-IsDistinct;
    small = omega arith;
    passed = two_numbers_passed;
  };
  no_wrap = omega arith;
}

abbrev one_sample : List (Incoming prefixes texts)
one_sample = sample (codes "lcm/A") (1 ∷ []) ∷ closed ∷ []

abbrev one_subscriber : Session prefixes texts
one_subscriber key_expr = some one_sample

one_sample-length :
    (incoming : List (Incoming prefixes texts))
    → some one_sample ≡ some incoming
    → length incoming ≤ 2
one_sample-length incoming e = ground arith

subscribe-IsSteady_example :
    (b' : Bridge prefixes texts) × (subscribe prefixes texts accept_all deny_d one_subscriber idle
      ≡ ok b')
    × IsSteady prefixes texts accept_all deny_d 0 b'
    × (b'.published ≡ [])
subscribe-IsSteady_example =
    subscribe-IsSteady prefixes texts accept_all deny_d one_subscriber 2 idle one_sample-length
      idle-IsSteady

-- The run of the loop over the three datagrams.
arrived :
    (ds : List Bytes) × (send accepting sender channel_a thirty
      ≡ ok (after_sending sender ds, success 7))
    × (after : FragmentReassembler) × (lcm_to_zenoh prefixes texts deny_d 2 empty
          (arriving ds home at_five at_five last_first [])
          idle
        ≡ ok (after, record idle { published = [] ++ ((codes "lcm/A", thirty) ∷ []) }))
    × IsValid after
arrived =
    lcm_to_zenoh-arriving prefixes texts deny_d idle (codes "lcm/A") sender channel_a thirty empty
      home 0 at_five at_five last_first 0 a-IsAllowed to_key knows_no_seven thirty-IsCarried
      thirty-CanReceive last_first-IsOrder

served :
    (b' : Bridge prefixes texts) × (subscribe prefixes texts accept_all deny_d one_subscriber idle
      ≡ ok b')
    × IsSteady prefixes texts accept_all deny_d 0 b'
    × (b'.published ≡ [])
served =
    subscribe-IsSteady prefixes texts accept_all deny_d one_subscriber 2 idle one_sample-length
      idle-IsSteady

lcm_to_zenoh-on_recorded_example :
    (ds : List Bytes) × (sent : Bridge prefixes texts) × (on_sample prefixes texts accepting deny_d
        (codes "lcm/A")
        thirty
        other
      ≡ ok sent)
    × (sent.transport ≡ after_sending sender ds)
    × (after : FragmentReassembler) × (lcm_to_zenoh prefixes texts deny_d 2 empty
          (arriving ds home at_five at_five last_first [])
          (on_recorded prefixes texts sent)
        ≡ ok (after, after_echo prefixes texts ds other))
    × IsValid after
lcm_to_zenoh-on_recorded_example =
    lcm_to_zenoh-on_recorded prefixes texts deny_d other (codes "lcm/A") channel_a thirty empty home
      0 at_five at_five last_first 0 to_channel a-IsAllowed thirty-IsCarried thirty-CanReceive
      last_first-IsOrder

-- 2 ^ 32 - 1 stays while the numbers begin again.
has-record_all_example :
    has 4294967295 (record_all (0 ∷ 1 ∷ 2 ∷ []) (4294967295 ∷ 4294967294 ∷ [])) ≡ true
has-record_all_example =
    has-record_all 4294967295 (0 ∷ 1 ∷ 2 ∷ []) (4294967295 ∷ 4294967294 ∷ [])
      (omega arith, (omega arith, (omega arith, tt))) (unfold has in refl)
