-- ===== src/Plugin/Startup/Opening.antt =====
-- The start of the tasks over a system's answers to the calls of `LcmTransport::new`.
use zenoh_plugin_lcm.Base.{◌≡◌, ◌↔◌, refl, sym, ◌∙◌, subst, Bool, true, [], Option, none, some}
use zenoh_plugin_lcm.Base.Str.{Str}
use zenoh_plugin_lcm.Transport.Settings.{LcmTransportConfig}
use zenoh_plugin_lcm.Transport.Url.{valid, LcmUrl, parse, Ipv4Addr, parse_ipv4}
use zenoh_plugin_lcm.Transport.Sockets.{System, set_up}
use zenoh_plugin_lcm.Transport.Sockets.Calls.{plan, Accepted, set_up_iff}
use zenoh_plugin_lcm.Plugin.Config.{RegexApi, Config}
use zenoh_plugin_lcm.Plugin.Mapping.{KeyExprApi}
use zenoh_plugin_lcm.Plugin.Startup.{Running, running, transport_config, tasks, run}
use zenoh_plugin_lcm.Plugin.Startup.Ready.{run_iff}

-- The interface to join on, for the configured text: an address, or none.
abbrev pub Joins : Option Str → Option Ipv4Addr → Type 0
Joins none interface = interface ≡ none
Joins (some iface) interface = interface ≡ parse_ipv4 iface

-- The settings that a configuration with that parsed URL asks for.
pub record IsSettingsOf {regex : RegexApi} (c : Config regex) (u : LcmUrl)
    (settings : LcmTransportConfig) : Type 0 where
  pub lcm_url : settings.lcm_url ≡ u
  pub interface : Joins c.network_interface settings.network_interface
  pub max_message_size : settings.max_message_size ≡ c.max_message_size

Joins-unique : (n : Option Str) (o p : Option Ipv4Addr) → Joins n o → Joins n p → o ≡ p
Joins-unique none o p h k = h ∙ sym k
Joins-unique (some iface) o p h k = h ∙ sym k

-- The calls of the set-up depend on the URL and the interface only.
plan-eq :
    (a b : LcmTransportConfig)
    → a.lcm_url ≡ b.lcm_url
    → a.network_interface ≡ b.network_interface
    → plan a ≡ plan b
plan-eq a b url interface = rw (url, interface) refl

module _ (regex : RegexApi) (keys : KeyExprApi) where
  transport_config-Joins :
      (c : Config regex) (u : LcmUrl) (n : Option Str)
      → c.network_interface ≡ n
      → Joins n (transport_config regex keys c u).network_interface
  unfolding transport_config
  transport_config-Joins c u none e = rw e refl
  transport_config-Joins c u (some iface) e = rw e refl

  transport_config-IsSettingsOf :
      (c : Config regex) (u : LcmUrl) → IsSettingsOf c u (transport_config regex keys c u)
  unfolding transport_config
  transport_config-IsSettingsOf c u = record {
    lcm_url = refl;
    interface = transport_config-Joins c u c.network_interface refl;
    max_message_size = refl;
  }

  plan-transport_config :
      (c : Config regex) (u : LcmUrl) (settings : LcmTransportConfig)
      → IsSettingsOf c u settings
      → plan settings ≡ plan (transport_config regex keys c u)
  plan-transport_config c u settings h =
      let made : IsSettingsOf c u (transport_config regex keys c u) =
        transport_config-IsSettingsOf c u in
      plan-eq settings (transport_config regex keys c u) (h.lcm_url ∙ sym made.lcm_url)
        (Joins-unique c.network_interface _ _ h.interface made.interface)

  -- Over the system's sockets, `run` comes to its tasks exactly when there is a session, the URL of the
  -- configuration parses, and the system takes all calls of the set-up with the settings of the
  -- configuration: the socket is bound to the URL's port, and joins the URL's group on the interface
  -- of the configuration, or on any if that has none or one that is not an address.
  pub run-set_up_iff :
      (c : Config regex) (session : Bool) (sys : System)
      → ((s : Running regex keys) × (run regex keys c session (set_up sys) ≡ running s)) ↔ (
          (session ≡ true)
          × (u : LcmUrl) × (parse c.lcm_url ≡ valid u)
          × (settings : LcmTransportConfig) × IsSettingsOf c u settings
          × Accepted sys [] (plan settings))
  run-set_up_iff c session sys = (
    λ (s, e).
        let (there, (u, parsed, taken, _)) = (run_iff regex keys c session (set_up sys) s).0 e in
        let settings : LcmTransportConfig = transport_config regex keys c u in
        (
          there,
          u,
          parsed,
          settings,
          transport_config-IsSettingsOf c u,
          (set_up_iff sys settings).0 taken,
        ),
    λ (there, u, parsed, settings, h, taken).
        let taken' : Accepted sys [] (plan (transport_config regex keys c u)) =
          subst (Accepted sys []) (plan-transport_config c u settings h) taken in
        let s : Running regex keys = tasks regex keys c (transport_config regex keys c u) in
        (
          s,
          (run_iff regex keys c session (set_up sys) s).1 (
            there,
            (u, parsed, (set_up_iff sys (transport_config regex keys c u)).1 taken', refl),
          ),
        ),
  )
