-- ===== src/Transport/Sockets.antt =====
-- lcm-transport/src/multicast.rs: `LcmTransport::new` on a unix system, as the sequence of its calls on the
-- socket. The system is a parameter: what it answers to a call may depend on the calls before it.
pub mod Calls
use zenoh_plugin_lcm.Base.{ℕ, Bool, true, List, [], ◌∷◌, ◌++◌, Option, none, some}
use zenoh_plugin_lcm.Transport.Url.{Ipv4Addr}
use zenoh_plugin_lcm.Transport.Multicast.{IoError, Result, success, failure, LcmTransport}
use zenoh_plugin_lcm.Transport.Settings.{LcmTransportConfig, started}

pub data Call : Type 0 where
  create from_std : Call
  set_reuse_address set_reuse_port set_nonblocking set_multicast_loop_v4 : Bool → Call
  bind : Ipv4Addr → ℕ → Call
  set_recv_buffer_size set_multicast_ttl_v4 : ℕ → Call
  join_multicast_v4 : Ipv4Addr → Ipv4Addr → Call

-- The error of a call, if it fails, after the calls before it, oldest first.
abbrev pub System : Type 0
System = List Call → Call → Option IoError

-- Code that makes calls: from the calls before it to its result and all calls so far.
abbrev pub Calls : Type 0 → Type 0
Calls A = List Call → Result A × List Call

infixl 5 ◌>>=◌ ◌>>◌
abbrev pub ◌>>=◌ : {A B : Type 0} → Calls A → (A → Calls B) → Calls B
◌>>=◌ m f made =
    let (r, made') = m made in elim r [ success a ↦ f a made' | failure e ↦ (failure e, made') ]

abbrev pub ◌>>◌ : {B : Type 0} → Calls (Unit {0}) → Calls B → Calls B
m >> k = m >>= λ _. k

abbrev pub return : {A : Type 0} → A → Calls A
return a made = (success a, made)

abbrev pub answer : Option IoError → Result (Unit {0})
answer none = success tt
answer (some e) = failure e

-- `Ipv4Addr::UNSPECIFIED`
abbrev pub unspecified : Ipv4Addr
unspecified = (0, 0, 0, 0)

abbrev pub unwrap_or : Option Ipv4Addr → Ipv4Addr → Ipv4Addr
unwrap_or none a = a
unwrap_or (some b) a = b

abbrev pub error_of : {A : Type 0} → Result A → Option IoError
error_of (success a) = none
error_of (failure e) = some e

module _ (sys : System) where
  -- One call, with `?`.
  abbrev pub call : Call → Calls (Unit {0})
  call c made = (answer (sys made c), made ++ (c ∷ []))

  abbrev set_recv_buf : Option ℕ → Calls (Unit {0})
  set_recv_buf none = return tt
  set_recv_buf (some recv_buf_size) = call (set_recv_buffer_size recv_buf_size)

  unfoldable pub new : LcmTransportConfig → Calls LcmTransport
  new config = do
    call create
    call (set_reuse_address true)
    call (set_reuse_port true)
    call (set_nonblocking true)
    call (bind unspecified config.lcm_url.port)
    set_recv_buf config.lcm_url.recv_buf_size
    call (set_multicast_ttl_v4 config.lcm_url.ttl)
    call (set_multicast_loop_v4 true)
    call (
        join_multicast_v4 config.lcm_url.multicast_group
          (unwrap_or config.network_interface unspecified))
    call from_std
    return (started config)

  -- How `new` fails, if it does.
  unfoldable pub set_up : LcmTransportConfig → Option IoError
  unfolding new
  set_up config = error_of (new config []).0
