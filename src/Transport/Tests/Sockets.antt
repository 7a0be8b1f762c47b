-- ===== src/Transport/Tests/Sockets.antt =====
-- `LcmTransport::new` on systems that answer in a given way.
use zenoh_plugin_lcm.Base.{◌≡◌, refl, true, [], ◌∷◌, none, some}
use zenoh_plugin_lcm.Transport.Url.{default_url}
use zenoh_plugin_lcm.Transport.Multicast.{os_error, failure}
use zenoh_plugin_lcm.Transport.Settings.{default_settings, started}
use zenoh_plugin_lcm.Transport.Sockets.{
  create, from_std, set_reuse_address, set_reuse_port, set_nonblocking, set_multicast_loop_v4, bind,
  set_recv_buffer_size, set_multicast_ttl_v4, join_multicast_v4, System, new,
}
use zenoh_plugin_lcm.Transport.Sockets.Calls.{plan, Performs, new-Performs}

-- No network device: the group cannot be joined.
abbrev no_device : System
no_device made create = none
no_device made from_std = none
no_device made (set_reuse_address b) = none
no_device made (set_reuse_port b) = none
no_device made (set_nonblocking b) = none
no_device made (set_multicast_loop_v4 b) = none
no_device made (bind a n) = none
no_device made (set_recv_buffer_size n) = none
no_device made (set_multicast_ttl_v4 n) = none
no_device made (join_multicast_v4 a b) = some (os_error 19)

new-default_settings : new no_device default_settings [] ≡ (
  failure (os_error 19),
  create
      ∷ set_reuse_address true
      ∷ set_reuse_port true
      ∷ set_nonblocking true
      ∷ bind (0, 0, 0, 0) 7667
      ∷ set_multicast_ttl_v4 0
      ∷ set_multicast_loop_v4 true
      ∷ join_multicast_v4 (239, 255, 76, 67) (0, 0, 0, 0)
      ∷ [],
)
unfolding new default_settings default_url
new-default_settings = refl

new-Performs_example :
    Performs no_device []
      (plan default_settings)
      (started default_settings)
      (new no_device default_settings [])
new-Performs_example = new-Performs no_device default_settings
