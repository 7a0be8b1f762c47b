-- ===== src/Plugin/Tests/Startup.antt =====
-- The start of the plugin with concrete settings.
use zenoh_plugin_lcm.Base.{◌≡◌, ◌↔◌, refl, true, [], none, some}
use zenoh_plugin_lcm.Base.Str.{codes, strip_prefix}
use zenoh_plugin_lcm.Transport.Url.{
  valid, LcmUrl, parse, parse_octet, parse_unsigned, parse_ipv4, set_param, set_params, split,
  split_once, rsplit_once,
}
use zenoh_plugin_lcm.Plugin.Config.{Config}
use zenoh_plugin_lcm.Plugin.Config.Filter.{reload}
use zenoh_plugin_lcm.Plugin.Json.{Fields, end, field, text, only_keys}
use zenoh_plugin_lcm.Plugin.Config.{default_config}
use zenoh_plugin_lcm.Plugin.Config.Entries.{known_keys}
use zenoh_plugin_lcm.Plugin.Config.Reading.{Reads, from_object_iff}
use zenoh_plugin_lcm.Plugin.Config.Values.{from_object, to_object}
use zenoh_plugin_lcm.Plugin.Config.Reload.{from_object-to_object}
use zenoh_plugin_lcm.Plugin.Startup.{SocketSetup, Running, running, transport_config, tasks, run}
use zenoh_plugin_lcm.Transport.Sockets.{System, set_up}
use zenoh_plugin_lcm.Transport.Sockets.Calls.{plan, Accepted}
use zenoh_plugin_lcm.Plugin.Startup.Opening.{IsSettingsOf, run-set_up_iff}
use zenoh_plugin_lcm.Transport.Settings.{LcmTransportConfig}
use zenoh_plugin_lcm.Plugin.Startup.Ready.{run_iff, IsReady, run-IsReady, run-network_interface}
use zenoh_plugin_lcm.Plugin.Tests.{prefixes, texts, deny_d}

from_object-to_object_example :
    from_object prefixes (to_object prefixes deny_d) ≡ reload prefixes deny_d
from_object-to_object_example = from_object-to_object prefixes deny_d

abbrev no_error : SocketSetup
no_error settings = none

abbrev url : LcmUrl
url = record { multicast_group = (239, 255, 76, 67); port = 7667; ttl = 0; recv_buf_size = none }

parsed_url : parse deny_d.lcm_url ≡ valid url
unfolding parse strip_prefix parse_octet parse_unsigned parse_ipv4 set_param set_params split
    split_once rsplit_once
parsed_url = refl

abbrev begun : Running prefixes texts
begun = tasks prefixes texts deny_d (transport_config prefixes texts deny_d url)

it_runs : run prefixes texts deny_d true no_error ≡ running begun
it_runs =
    (run_iff prefixes texts deny_d true no_error begun).1 (refl, (url, parsed_url, refl, refl))

run-IsReady_example : IsReady prefixes texts deny_d begun
run-IsReady_example = run-IsReady prefixes texts deny_d true no_error begun it_runs

abbrev named_interface : Config prefixes
named_interface = record deny_d { network_interface = some (codes "eth0") }

no_address : parse_ipv4 (codes "eth0") ≡ none
unfolding parse_ipv4 parse_octet split
no_address = refl

run-network_interface_example :
    run prefixes texts named_interface true no_error
    ≡ run prefixes texts (record named_interface { network_interface = none }) true no_error
run-network_interface_example =
    run-network_interface prefixes texts named_interface true no_error (codes "eth0") refl
      no_address

abbrev all_taken : System
all_taken made c = none

run-set_up_iff_example :
    ((s : Running prefixes texts) × (run prefixes texts deny_d true (set_up all_taken) ≡ running s))
    ↔ ((true ≡ true)
        × (u : LcmUrl) × (parse deny_d.lcm_url ≡ valid u)
        × (settings : LcmTransportConfig) × IsSettingsOf deny_d u settings
        × Accepted all_taken [] (plan settings))
run-set_up_iff_example = run-set_up_iff prefixes texts deny_d true all_taken

abbrev only_prefix : Fields
only_prefix = field (codes "key_prefix") (text (codes "c")) end

from_object_iff_example :
    (from_object prefixes only_prefix
      ≡ some (record (default_config prefixes) { key_prefix = codes "c" }))
    ↔ ((only_keys known_keys only_prefix ≡ true)
        × Reads prefixes only_prefix (record (default_config prefixes) { key_prefix = codes "c" }))
from_object_iff_example =
    from_object_iff prefixes only_prefix
      (record (default_config prefixes) { key_prefix = codes "c" })
