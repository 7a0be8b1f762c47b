-- ===== src/Transport/Tests.antt =====
-- The theorems on datagrams, sending and receiving at concrete messages.
pub mod Reassembly
pub mod Reassembler
pub mod Limits
pub mod Urls
pub mod Sockets
use zenoh_plugin_lcm.Base.{
  ℕ, ◌≤◌, ◌<◌, ◌≡◌, ◌≢◌, ◌↔◌, inl, refl, arith, false, List, [], ◌∷◌, Option, none, some, Bytes,
  IsByte, ok, panic, All, length, flatten, replicate, length-replicate,
}
use zenoh_plugin_lcm.Base.Str.{Str, codes, is_utf8}
use zenoh_plugin_lcm.Transport.Types.{LcmMessage}
use zenoh_plugin_lcm.Transport.Protocol.{Packet, Fragment, short, parse_datagram}
use zenoh_plugin_lcm.Transport.Protocol.RoundTrip.{IsChannel}
use zenoh_plugin_lcm.Transport.Protocol.Wire.{wire, IsWire}
use zenoh_plugin_lcm.Transport.Protocol.Canonical.{parse_datagram_iff, parse_datagram-ne-panic}
use zenoh_plugin_lcm.Transport.Fragment.{
  SocketAddr, v4, FragmentKey, FragmentSet, FragmentReassembler, key_eq, lookup, process,
  expire_stale, retain_fresh,
}
use zenoh_plugin_lcm.Transport.Fragment.Map.{Unique, keep_fresh, lookup-retain_fresh}
use zenoh_plugin_lcm.Transport.Fragment.Process.{IsValid}
use zenoh_plugin_lcm.Transport.Fragment.Safety.{Delivers, process-IsValid}
use zenoh_plugin_lcm.Transport.Fragment.Isolation.{Untouched, process-lookup_ne}
use zenoh_plugin_lcm.Transport.Fragment.Transfer.{
  Transfer, fragment_of, whole, none_seen, deliveries,
}
use zenoh_plugin_lcm.Transport.Fragment.Sessions.{
  Arrival, Fits, Stands, process_each, process_each-Agrees, messages_under, numbers_under,
}
use zenoh_plugin_lcm.Transport.Fragment.Reassembly.{AllDistinct, reassembles_once}
use zenoh_plugin_lcm.Transport.Multicast.{
  os_error, Network, LcmTransport, success, send, send_fragmented, fragment_count, Received, recv,
  delivered,
}
use zenoh_plugin_lcm.Transport.Multicast.Fragments.{transmit, datagrams_of}
use zenoh_plugin_lcm.Transport.Multicast.Send.{
  Fragmentable, chunks_of, flatten-chunks_of, send_fragmented-transmit,
}
use zenoh_plugin_lcm.Transport.Multicast.EndToEnd.{accepting, arriving, InWindow}
use zenoh_plugin_lcm.Transport.Multicast.SendRecv.{
  message, after_sending, send-recv_short, send-recv_fragmented,
}
use zenoh_plugin_lcm.Transport.Multicast.Overflow.{send-too_many}
use zenoh_plugin_lcm.Transport.Multicast.Errors.{Reports, planned, send-Reports, send-Bounded}
use zenoh_plugin_lcm.Transport.Multicast.Rounds.{Taken, Bounded}
use zenoh_plugin_lcm.Transport.Multicast.Truncation.{chunks_sent, send-lost}
use zenoh_plugin_lcm.Base.{◌%◌, ◌++◌}
use zenoh_plugin_lcm.Transport.Multicast.{Result}

abbrev pub channel_a : Str
channel_a = codes "A"

pub channel_a-IsChannel : IsChannel channel_a
channel_a-IsChannel = record { utf8 = unfold is_utf8 in refl; no_null = (omega arith, tt) }

abbrev pub home : SocketAddr
home = v4 2130706433 7667

abbrev elsewhere : SocketAddr
elsewhere = v4 2130706433 7668

abbrev pub empty : FragmentReassembler
empty = record { pending = []; timeout = 1000; max_message_size = 4096 }

pub no_set : (k : FragmentKey) → lookup k [] ≡ none
unfolding lookup
no_set k = refl

pub empty-IsValid : IsValid empty
empty-IsValid = record { unique = tt; sets = λ k s e. cc (no_set k) }

abbrev pub sender : LcmTransport
sender = record { fragment_mtu = 32; sequence_counter = 7; sent = [] }

abbrev pub thirty : Bytes
thirty = replicate 30 9

pub thirty-Fragmentable : Fragmentable 32 channel_a thirty
thirty-Fragmentable = record {
  room = omega arith;
  mtu = omega arith;
  size = omega arith;
  few = omega arith;
}

abbrev pub at_five : ℕ → ℕ
at_five n = 5

pub at_five-InWindow : InWindow 0 1000 at_five at_five
at_five-InWindow = record { soon = λ n. omega arith; later = λ n. omega arith }

abbrev pub last_first : List ℕ
last_first = 2 ∷ 0 ∷ 1 ∷ []

pub last_first-AllDistinct : AllDistinct last_first
last_first-AllDistinct = ((omega arith, (omega arith, tt)), ((omega arith, tt), (tt, tt)))

send-recv_fragmented_example :
    (ds : List Bytes) × (send accepting sender channel_a thirty
      ≡ ok (after_sending sender ds, success 7))
    × (length ds ≡ fragment_count 32 channel_a thirty)
    × (after : FragmentReassembler) × (recv empty (arriving ds home at_five at_five last_first [])
        ≡ ok (after, delivered (message sender channel_a thirty), []))
    × IsValid after
send-recv_fragmented_example =
    send-recv_fragmented sender channel_a thirty (omega arith) channel_a-IsChannel
      thirty-Fragmentable empty home 0 at_five at_five last_first [] (omega arith) empty-IsValid
      (omega arith) (no_set (home, 7)) at_five-InWindow last_first-AllDistinct
      (omega arith, (omega arith, (omega arith, tt))) refl

-- A socket that takes one datagram and then fails.
abbrev failing : Network
failing [] d = none
failing (b ∷ sent) d = some (os_error 1)

send-Bounded_example :
    (ds : List Bytes) × (r : Result ℕ) × (send failing sender channel_a thirty
      ≡ ok (record sender { sequence_counter = 8; sent = [] ++ ds }, r))
    × Bounded 32 ds
send-Bounded_example = send-Bounded failing sender channel_a thirty

-- The datagram of a short message without a payload.
abbrev pub small : Bytes
small = 0x4c ∷ 0x43 ∷ 0x30 ∷ 0x32 ∷ 0 ∷ 0 ∷ 0 ∷ 7 ∷ 65 ∷ 0 ∷ []

abbrev small_packet : Packet
small_packet = short (record { sequence_number = 7; channel = channel_a; payload = [] })

pub small-IsByte : All IsByte small
small-IsByte = (
  omega arith,
  (
    omega arith,
    (
      omega arith,
      (
        omega arith,
        (
          omega arith,
          (omega arith, (omega arith, (omega arith, (omega arith, (omega arith, tt))))),
        ),
      ),
    ),
  ),
)

parse_datagram_iff_example :
    (parse_datagram small ≡ ok (some small_packet))
    ↔ (IsWire small_packet × (wire small_packet ≡ small))
parse_datagram_iff_example = parse_datagram_iff small small_packet small-IsByte

send-Reports_example :
    (ds : List Bytes) × (r : Result ℕ) × (send failing sender channel_a thirty
      ≡ ok (record sender { sequence_counter = 8; sent = [] ++ ds }, r))
    × Taken failing [] ds
    × Reports failing sender channel_a (planned sender channel_a thirty) ds r
send-Reports_example = send-Reports failing sender channel_a thirty
