-- ===== src/Transport/Tests/Urls.antt =====
-- `LcmUrl::parse` at the texts of its unit tests.
use zenoh_plugin_lcm.Base.{◌≡◌, refl, some}
use zenoh_plugin_lcm.Base.Str.{codes, strip_prefix}
use zenoh_plugin_lcm.Transport.Url.{
  valid, invalid, bad_group, bad_port, bad_ttl, LcmUrl, default_url, parse, parse_octet,
  parse_unsigned, parse_ipv4, set_param, set_params, split, split_once, rsplit_once,
}
use zenoh_plugin_lcm.Transport.Url.Ranges.{IsInRange}
use zenoh_plugin_lcm.Transport.Multicast.Send.{Fragmentable}
use zenoh_plugin_lcm.Transport.Settings.{
  LcmTransportConfig, settings_of_url, started, settings_of_url-Fragmentable,
}
use zenoh_plugin_lcm.Base.{◌∷◌, [], arith, none}
use zenoh_plugin_lcm.Transport.Url.Print.{print}
use zenoh_plugin_lcm.Transport.Url.RoundTrip.{parse-print}

abbrev long_url : LcmUrl
long_url = record {
  multicast_group = (239, 255, 76, 67);
  port = 7667;
  ttl = 1;
  recv_buf_size = some 2097152;
}

parse_long :
    parse (codes " udpm://239.255.76.67:7667?ttl=1&recv_buf_size=2097152&x=1&y") ≡ valid long_url
unfolding parse strip_prefix parse_octet parse_unsigned parse_ipv4 set_param set_params split
    split_once rsplit_once
parse_long = refl

parse_plain : parse (codes "udpm://239.255.76.67:7667") ≡ valid default_url
unfolding parse strip_prefix parse_octet parse_unsigned parse_ipv4 set_param set_params split
    split_once rsplit_once default_url
parse_plain = refl

parse_large_octet : parse (codes "udpm://999.999.999.999:7667") ≡ invalid bad_group
unfolding parse strip_prefix parse_octet parse_unsigned parse_ipv4 set_param set_params split
    split_once rsplit_once
parse_large_octet = refl

parse_large_port : parse (codes "udpm://239.255.76.67:99999") ≡ invalid bad_port
unfolding parse strip_prefix parse_octet parse_unsigned parse_ipv4 set_param set_params split
    split_once rsplit_once
parse_large_port = refl

parse_word_ttl : parse (codes "udpm://239.255.76.67:7667?ttl=not_a_number") ≡ invalid bad_ttl
unfolding parse strip_prefix parse_octet parse_unsigned parse_ipv4 set_param set_params split
    split_once rsplit_once
parse_word_ttl = refl

abbrev plain_settings : LcmTransportConfig
plain_settings = record {
  lcm_url = record {
    multicast_group = (239, 255, 76, 67);
    port = 7667;
    ttl = 0;
    recv_buf_size = none;
  };
  network_interface = none;
  fragment_mtu = 1400;
  fragment_timeout = 1000;
  max_message_size = 4194304;
}

plain_settings_lem : settings_of_url (codes "udpm://239.255.76.67:7667") ≡ valid plain_settings
unfolding settings_of_url parse strip_prefix parse_octet parse_unsigned parse_ipv4 set_param
    set_params split split_once rsplit_once
plain_settings_lem = refl

settings_of_url-Fragmentable_example :
    Fragmentable (started plain_settings).fragment_mtu (codes "A") (1 ∷ 2 ∷ [])
settings_of_url-Fragmentable_example =
    settings_of_url-Fragmentable (codes "udpm://239.255.76.67:7667") plain_settings (codes "A")
      (1 ∷ 2 ∷ []) plain_settings_lem (omega arith) (omega arith)

long_url-IsInRange : IsInRange long_url
long_url-IsInRange = record {
  group = (omega arith, omega arith, omega arith, omega arith);
  port = omega arith;
  ttl = omega arith;
  recv_buf_size = omega arith;
}

parse-print_example : parse (print long_url) ≡ valid long_url
parse-print_example = parse-print long_url long_url-IsInRange
