-- ===== src/Plugin/Startup/Ready.antt =====
-- When the plugin comes to run its tasks, and in which state.
use zenoh_plugin_lcm.Base.{
  ℕ, ◌≡◌, ◌↔◌, refl, sym, ap, ◌∙◌, subst, arith, Bool, true, false, Option, none, some, All,
}
use zenoh_plugin_lcm.Base.Str.{Str}
use zenoh_plugin_lcm.Transport.Url.{Checked, valid, invalid, LcmUrl, parse, parse_ipv4}
use zenoh_plugin_lcm.Transport.Url.Ranges.{IsInRange, parse-IsInRange}
use zenoh_plugin_lcm.Transport.Fragment.{new, lookup}
use zenoh_plugin_lcm.Transport.Fragment.Process.{IsValid}
use zenoh_plugin_lcm.Transport.Multicast.{Network, IoError}
use zenoh_plugin_lcm.Transport.Settings.{LcmTransportConfig, default_settings, started}
use zenoh_plugin_lcm.Plugin.Config.{RegexApi, Config}
use zenoh_plugin_lcm.Plugin.Mapping.{KeyExprApi}
use zenoh_plugin_lcm.Plugin.Sequences.Window.{IsDistinct}
use zenoh_plugin_lcm.Plugin.Bridge.{Bridge, Steps}
use zenoh_plugin_lcm.Plugin.Bridge.Loopback.{IsPublic, Steps-IsPublic}
use zenoh_plugin_lcm.Plugin.Startup.{
  SocketSetup, Running, running, transport_config, task_reassembler, tasks, with_transport,
  with_url, run,
}

module _ (regex : RegexApi) (keys : KeyExprApi) where
  -- What the tasks start from, with the text parsed.
  abbrev Starts : Config regex → SocketSetup → Checked LcmUrl → Running regex keys → Type 0
  Starts c setup parsed s =
      (u : LcmUrl) × (parsed ≡ valid u)
      × (setup (transport_config regex keys c u) ≡ none)
      × (s ≡ tasks regex keys c (transport_config regex keys c u))

  with_transport-eq-running :
      (c : Config regex) (settings : LcmTransportConfig) (o : Option IoError)
      (s : Running regex keys)
      → with_transport regex keys c settings o ≡ running s
      → (o ≡ none) × (s ≡ tasks regex keys c settings)
  unfolding with_transport
  with_transport-eq-running c settings none s e = (refl, ground arith)
  with_transport-eq-running c settings (some x) s e = cc

  with_transport-running :
      (c : Config regex) (settings : LcmTransportConfig) (o : Option IoError)
      (s : Running regex keys)
      → o ≡ none
      → s ≡ tasks regex keys c settings
      → with_transport regex keys c settings o ≡ running s
  unfolding with_transport
  with_transport-running c settings none s e same = ap running (sym same)
  with_transport-running c settings (some x) s e same = cc

  with_url_iff :
      (c : Config regex) (setup : SocketSetup) (parsed : Checked LcmUrl) (s : Running regex keys)
      → (with_url regex keys c setup parsed ≡ running s) ↔ Starts c setup parsed s
  unfolding with_url
  with_url_iff c setup (invalid x) s = (λ e. cc, λ (u, e, _, _). cc)
  with_url_iff c setup (valid u) s = (
    λ e.
        let (bound, same) =
          with_transport-eq-running c (transport_config regex keys c u)
            (setup (transport_config regex keys c u)) s e in
        (u, refl, bound, same),
    λ (u', e, bound, same).
        let settings : LcmUrl → LcmTransportConfig = transport_config regex keys c in
        let u'_u : u' ≡ u = cc in
        subst (λ v. with_transport regex keys c (settings v) (setup (settings v)) ≡ running s) u'_u
          (with_transport-running c (settings u') (setup (settings u')) s bound same),
  )

  -- `run` comes to its two tasks exactly when there is a session, the URL of the configuration parses,
  -- and the sockets can be set up with the settings of the configuration; the tasks are then those of
  -- these settings.
  pub run_iff :
      (c : Config regex) (session : Bool) (setup : SocketSetup) (s : Running regex keys)
      → (run regex keys c session setup ≡ running s)
        ↔ ((session ≡ true) × Starts c setup (parse c.lcm_url) s)
  unfolding run
  run_iff c false setup s = (λ e. cc, λ (e, _). cc)
  run_iff c true setup s = (
    λ e. (refl, (with_url_iff c setup (parse c.lcm_url) s).0 e),
    λ (_, h). (with_url_iff c setup (parse c.lcm_url) s).1 h,
  )

  -- What holds when the tasks start: the invariants of their parts, with the limits of the configuration.
  pub record IsReady (c : Config regex) (s : Running regex keys) : Type 0 where
    pub url : IsInRange s.settings.lcm_url
    pub reassembler : IsValid s.reassembler
    pub limit : s.reassembler.max_message_size ≡ c.max_message_size
    pub timeout : s.reassembler.timeout ≡ 1000000000
    pub mtu : s.bridge.transport.fragment_mtu ≡ 1400
    pub numbers : IsDistinct s.bridge.sent_sequences
    pub idle : s.bridge.unrecorded ≡ none
    pub published : All (IsPublic regex keys c) s.bridge.published

  empty-IsValid : (timeout max : ℕ) → IsValid (new timeout max)
  unfolding new lookup
  empty-IsValid timeout max = record { unique = tt; sets = λ k s e. cc }

  tasks-IsReady :
      (c : Config regex) (u : LcmUrl)
      → IsInRange u
      → IsReady c (tasks regex keys c (transport_config regex keys c u))
  unfolding tasks task_reassembler transport_config default_settings started IsDistinct new
  tasks-IsReady c u h = record {
    url = h;
    reassembler = empty-IsValid 1000000000 c.max_message_size;
    limit = refl;
    timeout = refl;
    mtu = refl;
    numbers = refl;
    idle = refl;
    published = tt;
  }

  -- When `run` comes to its tasks, the address is in range, the reassembler is valid with the
  -- configuration's limit and a timeout of one second, the MTU is 1400, no number is recorded or waits for it, and nothing is
  -- published.
  pub run-IsReady :
      (c : Config regex) (session : Bool) (setup : SocketSetup) (s : Running regex keys)
      → run regex keys c session setup ≡ running s
      → IsReady c s
  run-IsReady c session setup s e =
      let (_, (u, parsed, _, same)) = (run_iff c session setup s).0 e in
      subst (IsReady c) (sym same) (tasks-IsReady c u (parse-IsInRange c.lcm_url u parsed))

  -- From the start of the tasks on, in every order of their steps, all that the bridge has published goes
  -- to key expressions that its prefix leads back from to channels that its configuration allows.
  pub run-Steps-IsPublic :
      (c : Config regex) (session : Bool) (setup : SocketSetup) (s : Running regex keys)
      (net : Network) (b : Bridge regex keys)
      → run regex keys c session setup ≡ running s
      → Steps regex keys net c s.bridge b
      → All (IsPublic regex keys c) b.published
  run-Steps-IsPublic c session setup s net b e steps =
      Steps-IsPublic regex keys net c s.bridge b steps (run-IsReady c session setup s e).published

  with_transport-network_interface :
      (c : Config regex) (n : Option Str) (settings : LcmTransportConfig) (o : Option IoError)
      → with_transport regex keys (record c { network_interface = n }) settings o
        ≡ with_transport regex keys c settings o
  unfolding with_transport tasks task_reassembler
  with_transport-network_interface c n settings none = refl
  with_transport-network_interface c n settings (some x) = refl

  transport_config-unparsed :
      (c : Config regex) (iface : Str) (u : LcmUrl)
      → c.network_interface ≡ some iface
      → parse_ipv4 iface ≡ none
      → transport_config regex keys c u
        ≡ transport_config regex keys (record c { network_interface = none }) u
  unfolding transport_config
  transport_config-unparsed c iface u e bad = ground arith

  with_url-network_interface :
      (c : Config regex) (setup : SocketSetup) (parsed : Checked LcmUrl) (iface : Str)
      → c.network_interface ≡ some iface
      → parse_ipv4 iface ≡ none
      → with_url regex keys c setup parsed
        ≡ with_url regex keys (record c { network_interface = none }) setup parsed
  unfolding with_url
  with_url-network_interface c setup (invalid x) iface e bad = refl
  with_url-network_interface c setup (valid u) iface e bad =
      let c' : Config regex = record c { network_interface = none } in
      ap (λ settings. with_transport regex keys c settings (setup settings))
        (transport_config-unparsed c iface u e bad)
      ∙ sym (
          with_transport-network_interface c none (transport_config regex keys c' u)
            (setup (transport_config regex keys c' u)))

  -- A configured network interface that is not an IPv4 address is ignored without an error: `run` does,
  -- whatever the session and the set-up of the sockets, what it does for the configuration without one.
  pub run-network_interface :
      (c : Config regex) (session : Bool) (setup : SocketSetup) (iface : Str)
      → c.network_interface ≡ some iface
      → parse_ipv4 iface ≡ none
      → run regex keys c session setup
        ≡ run regex keys (record c { network_interface = none }) session setup
  unfolding run
  run-network_interface c false setup iface e bad = refl
  run-network_interface c true setup iface e bad =
      with_url-network_interface c setup (parse c.lcm_url) iface e bad
