-- ===== src/Plugin/Startup.antt =====
-- zenoh-plugin-lcm/src/lib.rs: the start of the plugin, and `run` up to the two tasks. Zenoh's session
-- and the set-up of the sockets are parameters: whether the first is there, and how the second fails.
pub mod Ready
pub mod Opening
use zenoh_plugin_lcm.Base.{ℕ, Bool, true, false, [], Option, none, some}
use zenoh_plugin_lcm.Base.Str.{Str}
use zenoh_plugin_lcm.Transport.Url.{
  Checked, valid, invalid, UrlError, LcmUrl, parse, Ipv4Addr, parse_ipv4,
}
use zenoh_plugin_lcm.Transport.Fragment.{FragmentReassembler, new}
use zenoh_plugin_lcm.Transport.Multicast.{IoError}
use zenoh_plugin_lcm.Transport.Settings.{LcmTransportConfig, default_settings, started}
use zenoh_plugin_lcm.Plugin.Json.{Value}
use zenoh_plugin_lcm.Plugin.Config.{RegexApi, Config}
use zenoh_plugin_lcm.Plugin.Config.Values.{from_value}
use zenoh_plugin_lcm.Plugin.Mapping.{KeyExprApi}
use zenoh_plugin_lcm.Plugin.Bridge.{Bridge}

-- Why `start` gives no plugin.
pub data StartError : Type 0 where
  missing_config configuration_error : StartError

-- Why `run` returns early.
pub data Stop : Type 0 where
  no_session : Stop
  invalid_url : UrlError → Stop
  no_transport : IoError → Stop

-- The set-up of the sockets: the error, if it fails.
abbrev pub SocketSetup : Type 0
SocketSetup = LcmTransportConfig → Option IoError

module _ (regex : RegexApi) (keys : KeyExprApi) where
  -- What `start` leaves: the copy of the configuration, and the two sizes of the thread pool.
  pub record LcmPlugin : Type 0 where
    pub config : Config regex
    pub work_thread_num : ℕ
    pub max_block_thread_num : ℕ

  pub data Start : Type 0 where
    refused : StartError → Start
    plugin : LcmPlugin → Start

  abbrev plugin_of : Option (Config regex) → Start
  plugin_of none = refused configuration_error
  plugin_of (some c) = plugin (record {
    config = c;
    work_thread_num = c.work_thread_num;
    max_block_thread_num = c.max_block_thread_num;
  })

  -- `start`, for what `get_plugin_config` answers.
  unfoldable pub start : Option Value → Start
  start none = refused missing_config
  start (some plugin_conf) = plugin_of (from_value regex plugin_conf)

  -- The two tasks at their start: the bridge that they share, and the reassembler of `lcm_to_zenoh`.
  pub record Running : Type 0 where
    pub settings : LcmTransportConfig
    pub bridge : Bridge regex keys
    pub reassembler : FragmentReassembler

  pub data Outcome : Type 0 where
    stopped : Stop → Outcome
    running : Running → Outcome

  -- A text that is no address counts as none.
  abbrev interface_of : Option Str → Option Ipv4Addr
  interface_of none = none
  interface_of (some iface) = parse_ipv4 iface

  unfoldable pub transport_config : Config regex → LcmUrl → LcmTransportConfig
  transport_config c lcm_url = record default_settings {
    lcm_url = lcm_url;
    network_interface = interface_of c.network_interface;
    max_message_size = c.max_message_size;
  }

  -- The reassembler that `lcm_to_zenoh::run` makes at first: its timeout of one second is in nanoseconds.
  unfoldable pub task_reassembler : Config regex → FragmentReassembler
  task_reassembler c = new 1000000000 c.max_message_size

  unfoldable pub tasks : Config regex → LcmTransportConfig → Running
  tasks c settings = record {
    settings = settings;
    bridge = record {
      transport = started settings;
      sent_sequences = [];
      published = [];
      unrecorded = none;
    };
    reassembler = task_reassembler c;
  }

  unfoldable pub with_transport : Config regex → LcmTransportConfig → Option IoError → Outcome
  with_transport c settings (some e) = stopped (no_transport e)
  with_transport c settings none = running (tasks c settings)

  unfoldable pub with_url : Config regex → SocketSetup → Checked LcmUrl → Outcome
  unfolding with_transport
  with_url c setup (invalid e) = stopped (invalid_url e)
  with_url c setup (valid lcm_url) =
      let settings = transport_config c lcm_url in with_transport c settings (setup settings)

  -- `run`, up to the spawn of the tasks.
  unfoldable pub run : Config regex → Bool → SocketSetup → Outcome
  unfolding with_url
  run c false setup = stopped no_session
  run c true setup = with_url c setup (parse c.lcm_url)
