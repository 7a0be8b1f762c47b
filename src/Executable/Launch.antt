-- ===== src/Executable/Launch.antt =====
-- From the command line of the bridge to the configuration of its plugin.
use zenoh_plugin_lcm.Base.{
  ◌≡◌, refl, sym, ap, ◌∙◌, arith, true, Option, none, some, ok, Option-cases, inl, inr,
}
use zenoh_plugin_lcm.Base.Str.{codes}
use zenoh_plugin_lcm.Plugin.Json.{Value, Fields, object, get}
use zenoh_plugin_lcm.Plugin.Config.{
  RegexApi, Config, default_lcm_url, default_key_prefix, default_max_message_size,
}
use zenoh_plugin_lcm.Plugin.Config.Values.{
  read_text, read_usize, read_option_text, or_default, read_regex, from_value, from_object,
}
use zenoh_plugin_lcm.Plugin.Config.Reading.{from_object-Readings}
use zenoh_plugin_lcm.Plugin.Mapping.{KeyExprApi}
use zenoh_plugin_lcm.Plugin.Startup.{LcmPlugin, plugin, start}
use zenoh_plugin_lcm.Executable.{Args, ZenohApi, is_segment, load, parse_args}
use zenoh_plugin_lcm.Executable.Overrides.{
  Setting, lcm_url, key_prefix, allow, deny, network_interface, max_message_size, name_of, path_of,
  given, over, parse_args-value_at,
}

module _ (regex : RegexApi) (keys : KeyExprApi) where
  start-eq-plugin :
      (fields : Fields) (p : LcmPlugin regex keys)
      → start regex keys (some (object fields)) ≡ plugin p
      → from_object regex fields ≡ some p.config
  unfolding start from_value
  start-eq-plugin fields p e = elim (Option-cases (from_object regex fields)) [
    | inl bad ↦ absurd (cc (rw bad at e))
    | inr (c, good) ↦ let same = rw good at e in rw good (ground arith)
  ]

  module _ (api : ZenohApi) (args : Args) where
    open api use {ZenohConfig, plugin_config, value_at, value_at-plugin_config}

    -- The value that a setting has from the command line, or else from the configuration file.
    abbrev pub chosen : ZenohConfig → Setting → Option Value
    chosen base s = over api (given api args s) (value_at (path_of s) base)

    name_of-is_segment : (s : Setting) → is_segment (name_of s) ≡ true
    name_of-is_segment lcm_url = refl
    name_of-is_segment key_prefix = refl
    name_of-is_segment allow = refl
    name_of-is_segment deny = refl
    name_of-is_segment network_interface = refl
    name_of-is_segment max_message_size = refl

    get-chosen :
        (base config : ZenohConfig) (fields : Fields) (s : Setting)
        → load api args ≡ ok base
        → parse_args api args ≡ ok config
        → plugin_config (codes "lcm") config ≡ some (object fields)
        → get (name_of s) fields ≡ chosen base s
    get-chosen base config fields s loaded parsed there =
        sym (
          value_at-plugin_config (codes "lcm") (name_of s) config fields (name_of-is_segment s)
            there)
        ∙ parse_args-value_at api args base config s loaded parsed

    -- The plugin's configuration has each setting from the command line, if its option is given, or else
    -- from the configuration file, or else its default.
    pub record IsConfigured (base : ZenohConfig) (c : Config regex) : Type 0 where
      pub lcm_url :
          or_default (chosen base Setting.lcm_url) default_lcm_url read_text ≡ some c.lcm_url
      pub key_prefix :
          or_default (chosen base Setting.key_prefix) default_key_prefix read_text
          ≡ some c.key_prefix
      pub allow : or_default (chosen base Setting.allow) none (read_regex regex) ≡ some c.allow
      pub deny : or_default (chosen base Setting.deny) none (read_regex regex) ≡ some c.deny
      pub network_interface :
          or_default (chosen base Setting.network_interface) none read_option_text
          ≡ some c.network_interface
      pub max_message_size :
          or_default (chosen base Setting.max_message_size) default_max_message_size read_usize
          ≡ some c.max_message_size

    -- A plugin that starts with the configuration that `parse_args` has made holds, in each setting that has
    -- an option, the reading of what the option gives, or else of what the configuration file gives, or
    -- else the default.
    pub start-parse_args :
        (base config : ZenohConfig) (fields : Fields) (p : LcmPlugin regex keys)
        → load api args ≡ ok base
        → parse_args api args ≡ ok config
        → plugin_config (codes "lcm") config ≡ some (object fields)
        → start regex keys (plugin_config (codes "lcm") config) ≡ plugin p
        → IsConfigured base p.config
    start-parse_args base config fields p loaded parsed there started =
        let reads =
          from_object-Readings regex fields p.config
            (start-eq-plugin fields p (rw there at started)) in
        let same : (s : Setting) → get (name_of s) fields ≡ chosen base s =
          λ s. get-chosen base config fields s loaded parsed there in
        record {
          lcm_url =
              ap (λ o. or_default o default_lcm_url read_text) (sym (same Setting.lcm_url))
              ∙ reads.lcm_url;
          key_prefix =
              ap (λ o. or_default o default_key_prefix read_text) (sym (same Setting.key_prefix))
              ∙ reads.key_prefix;
          allow =
              ap (λ o. or_default o none (read_regex regex)) (sym (same Setting.allow))
              ∙ reads.allow;
          deny =
              ap (λ o. or_default o none (read_regex regex)) (sym (same Setting.deny)) ∙ reads.deny;
          network_interface =
              ap (λ o. or_default o none read_option_text) (sym (same Setting.network_interface))
              ∙ reads.network_interface;
          max_message_size =
              ap (λ o. or_default o default_max_message_size read_usize)
                (sym (same Setting.max_message_size))
              ∙ reads.max_message_size;
        }
