-- ===== src/Plugin/Tests.antt =====
-- The theorems on the plugin at concrete regular expressions, key expressions and bridges.
pub mod AdminSpace
pub mod Startup
pub mod Tasks
pub mod Runtime
use zenoh_plugin_lcm.Base.{
  ℕ, ◌≤◌, ◌≡◌, ◌≢◌, ◌↔◌, refl, arith, Bool, true, false, ◌||◌, ◌&&◌, [], ◌∷◌, ◌++◌, Option, none,
  some, Bytes, ok, All, length, ◌==◌, leb,
}
use zenoh_plugin_lcm.Base.Str.{Str, codes, same_text, strip_prefix}
use zenoh_plugin_lcm.Transport.Types.{LcmMessage}
use zenoh_plugin_lcm.Transport.Multicast.{Network}
use zenoh_plugin_lcm.Plugin.Config.{RegexApi, Config, default_config, filter, is_allowed}
use zenoh_plugin_lcm.Plugin.Config.Filter.{
  is_allowed_iff, reload, is_allowed-reload, reload_denies_all,
}
use zenoh_plugin_lcm.Plugin.Mapping.{
  KeyExprApi, ok, contains, lcm_channel_to_key_expr, key_expr_to_lcm_channel,
}
use zenoh_plugin_lcm.Plugin.Mapping.RoundTrip.{
  has_reserved, key_expr_to_lcm_channel_iff, lcm_channel_to_key_expr_iff, lcm_channel-round-trip,
  key_expr-round-trip,
}
use zenoh_plugin_lcm.Plugin.Sequences.{SentSequences, has, add, record_sent}
use zenoh_plugin_lcm.Plugin.Sequences.Window.{
  IsDistinct, has-record_sent, record_sent-IsDistinct-length,
}
use zenoh_plugin_lcm.Plugin.Bridge.{Bridge, on_message, on_recorded, received, stop, next}
use zenoh_plugin_lcm.Plugin.Bridge.Loopback.{
  IsPublic, Steps-IsPublic, on_message-recorded, on_message-unrecorded,
}

-- Expressions that are the beginning of what they match, and `.*`.
abbrev begins : Str → Str → Bool
begins [] s = true
begins (p ∷ ps) [] = false
begins (p ∷ ps) (b ∷ s) = p == b && begins ps s

abbrev pub prefixes : RegexApi
prefixes = record {
  Regex = Str;
  new = some;
  is_match = λ re s. same_text re (codes ".*") || begins re s;
  to_string = λ re. re;
  new-to_string = λ re. (re, refl, λ s. refl);
  new_empty = (codes "", refl, λ s. refl);
  new_any = (codes ".*", refl, λ s. refl);
}

pub some-injective : (s k : Str) → ◌≡◌ {A = Option Str} (some s) (some k) → k ≡ s
some-injective s k e = cc

-- Every text is a key expression.
abbrev pub texts : KeyExprApi
texts = record {
  KeyExpr = Str;
  try_from = some;
  as_str = λ k. k;
  as_str-try_from = some-injective;
  try_from-as_str = λ k. refl;
}

abbrev deny_d : Config prefixes
deny_d = record {
  lcm_url = codes "udpm://239.255.76.67:7667?ttl=0";
  key_prefix = codes "lcm";
  allow = none;
  deny = some (codes "D");
  network_interface = none;
  max_message_size = 4096;
  work_thread_num = 2;
  max_block_thread_num = 50;
  required = none;
  path = none;
}

reload_denies_all_example :
    (c' : Config prefixes) × (reload prefixes (default_config prefixes) ≡ some c')
    × (is_allowed prefixes (codes "A") c' ≡ false)
unfolding default_config
reload_denies_all_example = reload_denies_all prefixes (default_config prefixes) (codes "A") refl

to_key : lcm_channel_to_key_expr texts (codes "A") (codes "lcm") ≡ ok (codes "lcm/A")
unfolding lcm_channel_to_key_expr contains
to_key = refl

to_channel : key_expr_to_lcm_channel texts (codes "lcm/A") (codes "lcm") ≡ ok (codes "A")
unfolding key_expr_to_lcm_channel strip_prefix
to_channel = refl

lcm_channel-round-trip_example :
    key_expr_to_lcm_channel texts (codes "lcm/A") (codes "lcm") ≡ ok (codes "A")
lcm_channel-round-trip_example =
    lcm_channel-round-trip texts (codes "A") (codes "lcm") (codes "lcm/A") to_key

key_expr-round-trip_example :
    lcm_channel_to_key_expr texts (codes "A") (codes "lcm") ≡ ok (codes "lcm/A")
unfolding contains
key_expr-round-trip_example =
    key_expr-round-trip texts (codes "lcm/A") (codes "lcm") (codes "A") to_channel refl

abbrev two_numbers : SentSequences
two_numbers = 5 ∷ 4 ∷ []

two_numbers-IsDistinct : IsDistinct two_numbers
unfolding IsDistinct has
two_numbers-IsDistinct = (refl, (refl, refl))

two_numbers_below : (m : ℕ) → has m two_numbers ≡ true → m ≤ 6
unfolding has
two_numbers_below m h = ground arith

record_sent-IsDistinct-length_example :
    IsDistinct (record_sent 6 two_numbers)
    × (length (record_sent 6 two_numbers) ≤ 10000)
    × (has 6 (record_sent 6 two_numbers) ≡ true)
    × ((m : ℕ) → has m (record_sent 6 two_numbers) ≡ true → m ≤ 6)
record_sent-IsDistinct-length_example =
    record_sent-IsDistinct-length 6 two_numbers two_numbers-IsDistinct (omega arith)
      two_numbers_below

abbrev accept_all : Network
accept_all sent d = none

abbrev idle : Bridge prefixes texts
idle = record {
  transport = record { fragment_mtu = 1400; sequence_counter = 6; sent = [] };
  sent_sequences = two_numbers;
  published = [];
  unrecorded = none;
}

abbrev on_a : ℕ → Bytes → LcmMessage
on_a seq payload = record { channel = codes "A"; sequence_number = seq; payload = payload }

a-IsAllowed : is_allowed prefixes (codes "A") deny_d ≡ true
unfolding is_allowed filter
a-IsAllowed = refl

Steps-IsPublic_example :
    All
      (IsPublic prefixes texts deny_d)
      (on_message prefixes texts deny_d (on_a 9 (1 ∷ [])) idle).published
Steps-IsPublic_example =
    Steps-IsPublic prefixes texts accept_all deny_d idle
      (on_message prefixes texts deny_d (on_a 9 (1 ∷ [])) idle)
      (next idle (on_message prefixes texts deny_d (on_a 9 (1 ∷ [])) idle)
        (on_message prefixes texts deny_d (on_a 9 (1 ∷ [])) idle) (received (on_a 9 (1 ∷ [])) idle)
        (stop (on_message prefixes texts deny_d (on_a 9 (1 ∷ [])) idle)))
      tt

knows_five : has 5 two_numbers ≡ true
unfolding has
knows_five = refl

on_message-recorded_example :
    let skipped = on_message prefixes texts deny_d (on_a 5 (1 ∷ [])) idle in
    (skipped.published ≡ [])
    × (has 5 skipped.sent_sequences ≡ false)
    × ((on_message prefixes texts deny_d (on_a 5 (2 ∷ [])) skipped).published
        ≡ [] ++ ((codes "lcm/A", 2 ∷ []) ∷ []))
on_message-recorded_example =
    on_message-recorded prefixes texts deny_d (on_a 5 (1 ∷ [])) (on_a 5 (2 ∷ [])) idle
      (codes "lcm/A") knows_five refl a-IsAllowed to_key

abbrev sending : Bridge prefixes texts
sending = record idle { unrecorded = some 6 }

knows_no_six : has 6 two_numbers ≡ false
unfolding has
knows_no_six = refl

on_message-unrecorded_example :
    let early = on_message prefixes texts deny_d (on_a 6 (1 ∷ [])) sending in
    let late = on_recorded prefixes texts early in
    (late.published ≡ [] ++ ((codes "lcm/A", 1 ∷ []) ∷ []))
    × (has 6 late.sent_sequences ≡ true)
    × ((on_message prefixes texts deny_d (on_a 6 (2 ∷ [])) late).published ≡ late.published)
on_message-unrecorded_example =
    on_message-unrecorded prefixes texts deny_d (on_a 6 (1 ∷ [])) (on_a 6 (2 ∷ [])) sending
      (codes "lcm/A") refl knows_no_six a-IsAllowed to_key refl
