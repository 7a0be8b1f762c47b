-- ===== src/Transport/Multicast/Send.antt =====
-- `send_fragmented` and `send`: what goes out, in closed form.
use native.Mathlib.Omega.{arith}
use zenoh_plugin_lcm.Base.{
  ℕ, suc, ◌+◌, ◌-◌, ◌*◌, ◌/◌, ◌%◌, ◌^◌, ◌≤◌, ◌<◌, ◌≡◌, ap, ◌∙◌, Bytes, ◌||◌, List, Option, length,
  drop, flatten, Run, ok, ◌==◌, if◌then◌else◌, ==_ne, lt→ltb,
}
use zenoh_plugin_lcm.Base.Str.{Str}
use zenoh_plugin_lcm.Transport.Multicast.{
  IoError, Network, div_up, send_rounds, send_fragmented, first_frag_capacity,
  subsequent_frag_capacity, fragment_count,
}
use zenoh_plugin_lcm.Transport.Multicast.Plan.{cut, length-pieces, flatten-cut, div_enough}
use zenoh_plugin_lcm.Transport.Multicast.Fragments.{transmit, datagrams_of, all_rounds}

-- The message can be sent in fragments: there is room for data, the number of fragments fits `u16`, and
-- the sizes fit their words.
pub record Fragmentable (fragment_mtu : ℕ) (channel : Str) (payload : Bytes) : Type 0 where
  pub room : 0 < first_frag_capacity fragment_mtu channel
  pub mtu : fragment_mtu < 2 ^ 63
  pub size : length payload < 2 ^ 32
  pub few : fragment_count fragment_mtu channel payload < 2 ^ 16

-- The chunks of a message.
abbrev pub chunks_of : ℕ → Str → Bytes → List Bytes
chunks_of fragment_mtu channel payload =
    cut (first_frag_capacity fragment_mtu channel) (subsequent_frag_capacity fragment_mtu)
      (fragment_count fragment_mtu channel payload - 1) payload

word_of : (n : ℕ) → n < 2 ^ 16 → n % 2 ^ 16 ≡ n
word_of n h = omega arith

suc_of : (n : ℕ) → 0 < n → n ≡ suc (n - 1)
suc_of n h = omega arith

pub count_pos :
    (fragment_mtu : ℕ) (channel : Str) (payload : Bytes)
    → 0 < fragment_count fragment_mtu channel payload
count_pos fragment_mtu channel payload = omega arith

pub length-chunks_of :
    (fragment_mtu : ℕ) (channel : Str) (payload : Bytes)
    → length (chunks_of fragment_mtu channel payload) ≡ fragment_count fragment_mtu channel payload
length-chunks_of fragment_mtu channel payload = omega (
  arith,
  length-pieces (fragment_count fragment_mtu channel payload - 1)
      (subsequent_frag_capacity fragment_mtu)
      (drop (first_frag_capacity fragment_mtu channel) payload),
)

div_up_lem : (a cap : ℕ) → a + (cap - 1) < 2 ^ 64 → div_up a cap ≡ (a + (cap - 1)) / cap
div_up_lem a cap h = rw (lt→ltb (a + (cap - 1)) (2 ^ 64) h)

div_up_enough : (a cap : ℕ) → 0 < cap → a + (cap - 1) < 2 ^ 64 → a ≤ (1 + div_up a cap - 1) * cap
div_up_enough a cap h k =
    let drop_one : 1 + div_up a cap - 1 ≡ (a + (cap - 1)) / cap =
      omega (arith, div_up_lem a cap k) in
    rw drop_one (div_enough a cap h)

pub if_room :
    (first cap : ℕ) (x y : Run (List Bytes × Option IoError))
    → 0 < first
    → 0 < cap
    → (if first == 0 || cap == 0 then x else y) ≡ y
if_room first cap x y h k = rw (==_ne first 0 (omega arith), ==_ne cap 0 (omega arith))

-- For a message that can be sent in fragments, the chunks of the planned capacities, as many as the
-- planned fragments, put together are the payload.
pub flatten-chunks_of :
    (fragment_mtu : ℕ) (channel : Str) (payload : Bytes)
    → Fragmentable fragment_mtu channel payload
    → flatten (chunks_of fragment_mtu channel payload) ≡ payload
flatten-chunks_of fragment_mtu channel payload h =
    flatten-cut (first_frag_capacity fragment_mtu channel) (subsequent_frag_capacity fragment_mtu)
      (fragment_count fragment_mtu channel payload - 1) payload
      (div_up_enough (length payload - first_frag_capacity fragment_mtu channel)
        (subsequent_frag_capacity fragment_mtu) (omega (arith, h.room))
        (omega (arith, h.size, h.mtu)))

-- For a message that can be sent in fragments and any socket, the rounds of `send_fragmented` return
-- without a panic, and they are the transmission, up to the first error, of the list of the datagrams
-- of its chunks.
pub send_fragmented-transmit :
    (net : Network) (fragment_mtu seq : ℕ) (channel : Str) (payload : Bytes) (sent : List Bytes)
    → Fragmentable fragment_mtu channel payload
    → send_fragmented net fragment_mtu seq channel payload sent
      ≡ ok (
          transmit net sent (
            datagrams_of seq
              (length payload)
              (fragment_count fragment_mtu channel payload)
              channel
              (chunks_of fragment_mtu channel payload)))
unfolding send_fragmented
send_fragmented-transmit net fragment_mtu seq channel payload sent h =
    let n : ℕ = fragment_count fragment_mtu channel payload in
    let word : n % 2 ^ 16 ≡ n = word_of n h.few in
    let rounds : n ≡ suc (n - 1) = suc_of n (count_pos fragment_mtu channel payload) in
    if_room (first_frag_capacity fragment_mtu channel) (subsequent_frag_capacity fragment_mtu) _ _
      h.room (omega (arith, h.room))
    ∙ ap (λ (k : ℕ). send_rounds net fragment_mtu seq channel payload k k 0 0 sent) word
    ∙ ap (λ (k : ℕ). send_rounds net fragment_mtu seq channel payload n k 0 0 sent) rounds
    ∙ all_rounds net fragment_mtu seq channel payload h.size n (n - 1) sent
