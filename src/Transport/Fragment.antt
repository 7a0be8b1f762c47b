-- ===== src/Transport/Fragment.antt =====
-- lcm-transport/src/fragment.rs: reassembly. The hash map of pending sets is an association list;
-- the two readings of the clock in a call (`now` in `expire_stale`, `created` at an insertion) are
-- arguments, in nanoseconds. `usize` has 64 bits, so that `u32` widens to it unchanged.
pub mod Map
pub mod Accept
pub mod Process
pub mod Safety
pub mod Isolation
pub mod Render
pub mod Transfer
pub mod Arrival
pub mod Delivery
pub mod Sessions
pub mod Reassembly
pub mod Abstract
pub mod Ageing
pub mod Commute
pub mod Renaming
pub mod Independence
use zenoh_plugin_lcm.Base.{
  ℕ, zero, suc, ◌+◌, ◌-◌, ◌^◌, Bytes, Bool, true, false, not, ◌&&◌, ◌||◌, List, [], ◌∷◌, ◌++◌,
  Option, none, some, Run, ok, panic, ◌>>=◌, unwrap, index, index_set, copy_from_slice, ltb, leb,
  ◌==◌, if◌then◌else◌, length, replicate,
}
use zenoh_plugin_lcm.Base.Str.{Str}
use zenoh_plugin_lcm.Transport.Types.{LcmMessage}
use zenoh_plugin_lcm.Transport.Protocol.{Fragment}

-- `std::net::SocketAddr`: the address, its port, and the flow and scope of an IPv6 address.
pub data SocketAddr : Type 0 where
  v4 : ℕ → ℕ → SocketAddr
  v6 : ℕ → ℕ → ℕ → ℕ → SocketAddr

abbrev pub addr_eq : SocketAddr → SocketAddr → Bool
addr_eq (v4 a p) (v4 b q) = a == b && p == q
addr_eq (v6 a p f s) (v6 b q g t) = a == b && p == q && f == g && s == t
addr_eq _ _ = false

abbrev pub FragmentKey : Type 0
FragmentKey = SocketAddr × ℕ

unfoldable pub key_eq : FragmentKey → FragmentKey → Bool
key_eq (a, m) (b, n) = addr_eq a b && m == n

pub record FragmentSet : Type 0 where
  pub channel : Str
  pub payload_size : ℕ
  pub n_fragments : ℕ
  pub fragments_received : ℕ
  pub buffer : Bytes
  pub received_mask : List Bool
  pub created_at : ℕ

abbrev pub Pending : Type 0
Pending = List (FragmentKey × FragmentSet)

pub record FragmentReassembler : Type 0 where
  pub pending : Pending
  pub timeout : ℕ
  pub max_message_size : ℕ

unfoldable pub new : ℕ → ℕ → FragmentReassembler
new timeout max_message_size = record {
  pending = [];
  timeout = timeout;
  max_message_size = max_message_size;
}

-- The operations of the map that the code uses.
unfoldable pub lookup : FragmentKey → Pending → Option FragmentSet
lookup k [] = none
lookup k ((j, s) ∷ m) = if key_eq j k then some s else lookup k m

unfoldable pub insert : FragmentKey → FragmentSet → Pending → Pending
insert k s [] = (k, s) ∷ []
insert k s ((j, t) ∷ m) = if key_eq j k then (j, s) ∷ m else (j, t) ∷ insert k s m

unfoldable pub remove : FragmentKey → Pending → Pending
remove k [] = []
remove k ((j, s) ∷ m) = if key_eq j k then m else (j, s) ∷ remove k m

-- `now.duration_since(t)` is zero for a `t` that lies ahead.
abbrev pub is_stale : ℕ → ℕ → FragmentSet → Bool
is_stale timeout now s = ltb timeout (now - s.created_at)

unfoldable pub retain_fresh : ℕ → ℕ → Pending → Pending
retain_fresh timeout now [] = []
retain_fresh timeout now ((k, s) ∷ m) =
    let rest = retain_fresh timeout now m in if is_stale timeout now s then rest else (k, s) ∷ rest

unfoldable pub expire_stale : ℕ → FragmentReassembler → FragmentReassembler
expire_stale now r = record r { pending = retain_fresh r.timeout now r.pending }

-- The closure of `or_insert_with`.
unfoldable pub new_set : Fragment → ℕ → FragmentSet
new_set f created = record {
  channel = [];
  payload_size = f.payload_size;
  n_fragments = f.n_fragments;
  fragments_received = 0;
  buffer = replicate f.payload_size 0;
  received_mask = replicate f.n_fragments false;
  created_at = created;
}

abbrev pub or_insert : Option FragmentSet → FragmentSet → FragmentSet
or_insert none fresh = fresh
or_insert (some s) fresh = s

abbrev set_channel : Option Str → FragmentSet → FragmentSet
set_channel none s = s
set_channel (some channel) s = record s { channel = channel }

unfoldable pub store_channel : Fragment → FragmentSet → FragmentSet
store_channel f s = if f.fragment_number == 0 then set_channel f.channel s else s

-- `fragments_received += 1` on a `u16`, with the overflow check of a debug build.
abbrev add_one_u16 : ℕ → Run ℕ
add_one_u16 n = if ltb (n + 1) (2 ^ 16) then ok (n + 1) else panic

-- The checks and the copy on the set, after the channel is stored. The flag says that the fragment
-- was taken.
unfoldable pub accept : Fragment → FragmentSet → Run (FragmentSet × Bool)
accept f s =
    if not (f.payload_size == s.payload_size) || not (f.n_fragments == s.n_fragments)
    then ok (s, false)
    else if leb (length s.received_mask) f.fragment_number
    then ok (s, false)
    else do
      duplicate ← index s.received_mask f.fragment_number
      let offset = f.fragment_offset
      let end = offset + length f.payload
      if duplicate then ok (s, false) else if ltb (length s.buffer) end then ok (s, false) else (do
        buffer ← copy_from_slice s.buffer offset end f.payload
        received_mask ← index_set s.received_mask f.fragment_number true
        fragments_received ← add_one_u16 s.fragments_received
        ok (
          record s {
            fragments_received = fragments_received;
            buffer = buffer;
            received_mask = received_mask;
          },
          true,
        ))

-- What follows when all fragments have arrived: `self.pending.remove(&key).unwrap()`.
unfoldable pub finish :
    FragmentReassembler → FragmentKey → Run (FragmentReassembler × Option LcmMessage)
finish r key = do
  s ← unwrap (lookup key r.pending)
  ok (
    record r { pending = remove key r.pending },
    some (record { channel = s.channel; sequence_number = key.1; payload = s.buffer }),
  )

unfoldable pub process :
    FragmentReassembler
    → Fragment
    → SocketAddr
    → ℕ
    → ℕ
    → Run (FragmentReassembler × Option LcmMessage)
process before f sender now created =
    let r = expire_stale now before in
    if ltb r.max_message_size f.payload_size then ok (r, none) else (do
      let key : FragmentKey = (sender, f.sequence_number)
      let entry = or_insert (lookup key r.pending) (new_set f created)
      (s, taken) ← accept f (store_channel f entry)
      let r' : FragmentReassembler = record r { pending = insert key s r.pending }
      if taken && s.fragments_received == s.n_fragments then finish r' key else ok (r', none))
