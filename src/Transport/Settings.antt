-- ===== src/Transport/Settings.antt =====
-- lcm-transport/src/multicast.rs: the settings of a transport, and the state in which one starts.
use zenoh_plugin_lcm.Base.{ℕ, ◌*◌, ◌≤◌, ◌<◌, ◌≡◌, arith, Bytes, Option, none, [], length}
use zenoh_plugin_lcm.Base.Str.{Str}
use zenoh_plugin_lcm.Transport.Url.{
  LcmUrl, default_url, Checked, valid, invalid, parse, Ipv4Addr, ◌>>=◌,
}
use zenoh_plugin_lcm.Transport.Multicast.{LcmTransport}
use zenoh_plugin_lcm.Transport.Multicast.Send.{Fragmentable}

abbrev default_fragment_mtu : ℕ
default_fragment_mtu = 1400

-- In milliseconds.
abbrev default_fragment_timeout : ℕ
default_fragment_timeout = 1000

abbrev pub default_max_message_size : ℕ
default_max_message_size = 4 * 1024 * 1024

pub record LcmTransportConfig : Type 0 where
  pub lcm_url : LcmUrl
  pub network_interface : Option Ipv4Addr
  pub fragment_mtu : ℕ
  pub fragment_timeout : ℕ
  pub max_message_size : ℕ

unfoldable pub default_settings : LcmTransportConfig
default_settings = record {
  lcm_url = default_url;
  network_interface = none;
  fragment_mtu = default_fragment_mtu;
  fragment_timeout = default_fragment_timeout;
  max_message_size = default_max_message_size;
}

-- The settings that `LcmTransport::from_url` hands to `new`.
unfoldable pub settings_of_url : Str → Checked LcmTransportConfig
unfolding default_settings
settings_of_url url = do lcm_url ← parse url; valid (record default_settings { lcm_url = lcm_url })

-- The state that `LcmTransport::new` returns once the sockets are set up.
unfoldable pub started : LcmTransportConfig → LcmTransport
started config = record { fragment_mtu = config.fragment_mtu; sequence_counter = 0; sent = [] }

settings-eq-valid :
    (u : Checked LcmUrl) (c : LcmTransportConfig)
    → (do lcm_url ← u; valid (record default_settings { lcm_url = lcm_url })) ≡ valid c
    → (c.fragment_mtu ≡ 1400) × (c.max_message_size ≡ 4194304)
unfolding default_settings
settings-eq-valid (invalid e) c h = cc
settings-eq-valid (valid u) c h = (ground arith, ground arith)

-- A transport that was started from an accepted URL can send in fragments any message of at most the
-- largest size it accepts itself, on any channel of less than 1379 bytes.
pub settings_of_url-Fragmentable :
    (url : Str) (c : LcmTransportConfig) (channel : Str) (payload : Bytes)
    → settings_of_url url ≡ valid c
    → length channel < 1379
    → length payload ≤ c.max_message_size
    → Fragmentable (started c).fragment_mtu channel payload
unfolding settings_of_url started
settings_of_url-Fragmentable url c channel payload e h k =
    let (mtu, max) = settings-eq-valid (parse url) c e in
    record {
      room = omega (arith, mtu);
      mtu = omega (arith, mtu);
      size = omega (arith, max);
      few = rw mtu (ground (arith, max));
    }
