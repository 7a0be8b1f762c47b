-- ===== src/Executable.antt =====
-- zenoh-bridge-lcm/src/main.rs: what `parse_args` makes of the command line. The command line parser
-- and Zenoh's configuration are parameters.
pub mod Overrides
pub mod Acceptance
pub mod Main
pub mod Launch
pub mod Tests
use zenoh_plugin_lcm.Base.{
  ℕ, ◌≡◌, Bool, true, false, ◌||◌, ◌&&◌, ◌==◌, not, List, [], ◌∷◌, ◌++◌, Option, none, some, Run,
  ok, ◌>>=◌, unwrap, if◌then◌else◌,
}
use zenoh_plugin_lcm.Base.Str.{Str, codes, strip_prefix}
use zenoh_plugin_lcm.Plugin.Json.{Value, Fields, get}

-- The answers of clap's `ArgMatches`. An option that does not occur is absent, and so is a mode that
-- only stands for its default.
pub record Args : Type 0 where
  pub id : Option Str
  pub mode : Option Str
  pub config : Option Str
  pub listen : Option (List Str)
  pub connect : Option (List Str)
  pub no_multicast_scouting : Bool
  pub rest_http_port : Option Str
  pub lcm_url : Option Str
  pub key_prefix : Option Str
  pub allow : Option Str
  pub deny : Option Str
  pub network_interface : Option Str
  pub max_message_size : Option Str

-- The settings of Zenoh itself that the code sets; texts are parsed.
pub data Edit : Type 0 where
  set_id set_mode : Str → Edit
  set_connect set_listen : List Str → Edit
  set_multicast_scouting set_timestamping set_adminspace set_plugins_loading : Bool → Edit

abbrev found : Option Str → Bool
found none = false
found (some rest) = true

-- Neither of two paths is the beginning of the other.
abbrev pub apart : Str → Str → Bool
apart p q = not (found (strip_prefix p q) || found (strip_prefix q p))

-- One step of a path.
abbrev pub is_segment : Str → Bool
is_segment [] = true
is_segment (b ∷ s) = not (b == b'/') && is_segment s

-- `zenoh::config::Config`, and `serde_json::to_string` of a text (`quote`). An insertion sets the value
-- at its path and no value at a path apart from it; the settings of Zenoh are not among the plugins'; a
-- plugin that is added without entries has none; and what `get_plugin_config` answers holds the values
-- that stand under the plugin's path.
pub record ZenohApi : Type 1 where
  pub ZenohConfig : Type 0
  pub default : ZenohConfig
  pub from_file : Str → Option ZenohConfig
  pub has_plugin : Str → ZenohConfig → Bool
  pub insert_json5 : Str → Str → ZenohConfig → Option ZenohConfig
  pub edit : Edit → ZenohConfig → Option ZenohConfig
  pub quote : Str → Str
  pub parse_json5 : Str → Option Value
  pub value_at : Str → ZenohConfig → Option Value
  pub parse_json5-quote : (s : Str) → parse_json5 (quote s) ≡ some (Value.text s)
  pub value_at-insert_json5 :
      (p t : Str) (c c' : ZenohConfig)
      → insert_json5 p t c ≡ some c'
      → value_at p c' ≡ parse_json5 t
  pub value_at-insert_json5_apart :
      (p t q : Str)
      → apart p q ≡ true
      → (c c' : ZenohConfig) → insert_json5 p t c ≡ some c'
      → value_at q c' ≡ value_at q c
  pub value_at-insert_plugin :
      (name q : Str) (c c' : ZenohConfig)
      → has_plugin name c ≡ false
      → insert_json5 (codes "plugins/" ++ name) (codes "{}") c ≡ some c'
      → value_at (codes "plugins/" ++ (name ++ (b'/' ∷ q))) c'
        ≡ value_at (codes "plugins/" ++ (name ++ (b'/' ∷ q))) c
  pub plugin_config : Str → ZenohConfig → Option Value
  pub value_at-plugin_config :
      (name key : Str) (c : ZenohConfig) (fields : Fields)
      → is_segment key ≡ true
      → plugin_config name c ≡ some (Value.object fields)
      → value_at (codes "plugins/" ++ (name ++ (b'/' ∷ key))) c ≡ get key fields
  pub value_at-edit :
      (e : Edit) (q : Str) (c c' : ZenohConfig)
      → edit e c ≡ some c'
      → value_at (codes "plugins/" ++ q) c' ≡ value_at (codes "plugins/" ++ q) c

module _ (api : ZenohApi) where
  open api use {ZenohConfig, default, from_file, has_plugin, insert_json5, edit, quote}

  abbrev pub if_given {ℓ} :
      {A : Type ℓ}
      → Option A
      → (A → ZenohConfig → Option ZenohConfig)
      → ZenohConfig
      → Run ZenohConfig
  if_given none set c = ok c
  if_given (some a) set c = unwrap (set a c)

  unfoldable pub load : Args → Run ZenohConfig
  load args = elim args.config [ none ↦ ok default | some conf_file ↦ unwrap (from_file conf_file) ]

  unfoldable pub add_lcm : ZenohConfig → Run ZenohConfig
  add_lcm c =
      if has_plugin (codes "lcm") c
      then ok c
      else unwrap (insert_json5 (codes "plugins/lcm") (codes "{}") c)

  abbrev pub scouting : Bool → ZenohConfig → Run ZenohConfig
  scouting false c = ok c
  scouting true c = unwrap (edit (set_multicast_scouting false) c)

  -- The settings of Zenoh, in their order.
  unfoldable pub zenoh_args : Args → ZenohConfig → Run ZenohConfig
  zenoh_args args c = do
    c ← if_given args.id (λ s. edit (set_id s)) c
    c ← if_given args.mode (λ s. edit (set_mode s)) c
    c ← if_given args.connect (λ s. edit (set_connect s)) c
    c ← if_given args.listen (λ s. edit (set_listen s)) c
    c ← scouting args.no_multicast_scouting c
    c ←
        if_given args.rest_http_port
          (λ port. insert_json5 (codes "plugins/rest/http_port") ((b'"' ∷ port) ++ (b'"' ∷ []))) c
    c ← unwrap (edit (set_timestamping true) c)
    c ← unwrap (edit (set_adminspace true) c)
    unwrap (edit (set_plugins_loading true) c)

  -- The macro `insert_json5!` with `if`.
  abbrev pub insert_if : Str → Option Str → ZenohConfig → Run ZenohConfig
  insert_if key value = if_given value (λ s. insert_json5 key (quote s))

  -- The settings of the plugin. The size goes in as it is written.
  unfoldable pub lcm_args : Args → ZenohConfig → Run ZenohConfig
  lcm_args args c = do
    c ← insert_if (codes "plugins/lcm/lcm_url") args.lcm_url c
    c ← insert_if (codes "plugins/lcm/key_prefix") args.key_prefix c
    c ← insert_if (codes "plugins/lcm/allow") args.allow c
    c ← insert_if (codes "plugins/lcm/deny") args.deny c
    c ← insert_if (codes "plugins/lcm/network_interface") args.network_interface c
    if_given args.max_message_size (insert_json5 (codes "plugins/lcm/max_message_size")) c

  unfoldable pub parse_args : Args → Run ZenohConfig
  unfolding load add_lcm zenoh_args lcm_args
  parse_args args = do c ← load args; c ← add_lcm c; c ← zenoh_args args c; lcm_args args c
