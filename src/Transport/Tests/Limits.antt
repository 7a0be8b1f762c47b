-- ===== src/Transport/Tests/Limits.antt =====
-- Messages of more fragments than `u16` counts.
use zenoh_plugin_lcm.Base.{
  ℕ, ◌≤◌, ◌<◌, ◌≡◌, arith, Bytes, ok, length, flatten, replicate, length-replicate,
}
use zenoh_plugin_lcm.Transport.Multicast.{success, send, fragment_count}
use zenoh_plugin_lcm.Transport.Multicast.Fragments.{datagrams_of}
use zenoh_plugin_lcm.Transport.Multicast.EndToEnd.{accepting}
use zenoh_plugin_lcm.Transport.Multicast.SendRecv.{after_sending}
use zenoh_plugin_lcm.Transport.Multicast.Truncation.{chunks_sent, send-lost}
use zenoh_plugin_lcm.Base.{◌%◌}
use zenoh_plugin_lcm.Base.{◌^◌, ◌++◌}
use zenoh_plugin_lcm.Transport.Multicast.SendRecv.{short_size}
use zenoh_plugin_lcm.Transport.Tests.{channel_a, sender}
use zenoh_plugin_lcm.Base.{[], ◌∷◌}
use zenoh_plugin_lcm.Base.Str.{codes}
use zenoh_plugin_lcm.Transport.Multicast.{datagram, recv, delivered}
use zenoh_plugin_lcm.Transport.Multicast.SendRecv.{message}
use zenoh_plugin_lcm.Transport.Multicast.NullBytes.{send-recv_null}
use zenoh_plugin_lcm.Transport.Tests.{channel_a-IsChannel, home, empty}

unfoldable zeros : ℕ → Bytes
zeros n = replicate n 0

length-zeros : (n : ℕ) → length (zeros n) ≡ n
unfolding zeros
length-zeros n = length-replicate n 0

-- 65536 fragments: one with 10 bytes, and 65535 with 12.
abbrev huge : Bytes
huge = zeros 786430

length-huge : length huge ≡ 786430
length-huge = length-zeros 786430

-- 65538 fragments.
abbrev larger : Bytes
larger = zeros 786454

length-larger : length larger ≡ 786454
length-larger = length-zeros 786454

larger_size : length larger < 2 ^ 32
larger_size = omega (arith, length-larger)

larger_many : 2 ^ 16 ≤ fragment_count 32 channel_a larger
larger_many = rw length-larger (omega arith)

larger_long : 32 < short_size channel_a larger
larger_long = omega (arith, length-larger)

send-lost_example :
    (lost : Bytes) × (send accepting sender channel_a larger
      ≡ ok (
        after_sending sender (
            datagrams_of 7
              (length larger)
              (fragment_count 32 channel_a larger % 2 ^ 16)
              channel_a
              (chunks_sent 32 channel_a larger (fragment_count 32 channel_a larger % 2 ^ 16))),
        success 7,
      ))
    × (flatten (chunks_sent 32 channel_a larger (fragment_count 32 channel_a larger % 2 ^ 16))
          ++ lost
        ≡ larger)
    × (0 < length lost)
send-lost_example =
    send-lost sender channel_a larger (omega arith) larger_size larger_many larger_long

send-recv_null_example :
    (d : Bytes) × (send accepting sender (codes "A" ++ (0 ∷ codes "B")) (1 ∷ [])
      ≡ ok (after_sending sender (d ∷ []), success 7))
    × (recv empty (datagram d home 5 5 ∷ [])
        ≡ ok (empty, delivered (message sender (codes "A") (codes "B" ++ (0 ∷ 1 ∷ []))), []))
send-recv_null_example =
    send-recv_null sender (codes "A") (codes "B") (1 ∷ []) empty home 5 5 [] (omega arith)
      channel_a-IsChannel (omega arith)
