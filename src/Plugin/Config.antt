-- ===== src/Plugin/Config.antt =====
-- zenoh-plugin-lcm/src/config.rs: the settings, the channel filter, and the serialization of the two
-- filters. The crate `regex` is a parameter.
pub mod Filter
pub mod Values
pub mod Reload
pub mod Entries
pub mod Reading
use zenoh_plugin_lcm.Base.{ℕ, ◌*◌, ◌≡◌, Bool, true, false, not, ◌&&◌, List, Option, none, some}
use zenoh_plugin_lcm.Base.Str.{Str, codes}

-- `regex::Regex`: `new` compiles a text, and the text that an expression gives compiles to one with
-- the same matches. A search is not anchored: the empty expression and `.*` match in every text.
pub record RegexApi : Type 1 where
  pub Regex : Type 0
  pub new : Str → Option Regex
  pub is_match : Regex → Str → Bool
  pub to_string : Regex → Str
  pub new-to_string :
      (re : Regex)
      → (re' : Regex) × (new (to_string re) ≡ some re')
        × ((s : Str) → is_match re' s ≡ is_match re s)
  pub new_empty : (re : Regex) × (new (codes "") ≡ some re) × ((s : Str) → is_match re s ≡ true)
  pub new_any : (re : Regex) × (new (codes ".*") ≡ some re) × ((s : Str) → is_match re s ≡ true)

abbrev pub default_lcm_url : Str
default_lcm_url = codes "udpm://239.255.76.67:7667?ttl=0"

abbrev pub default_key_prefix : Str
default_key_prefix = codes "lcm"

abbrev pub default_max_message_size : ℕ
default_max_message_size = 4 * 1024 * 1024

abbrev pub default_work_thread_num : ℕ
default_work_thread_num = 2

abbrev pub default_max_block_thread_num : ℕ
default_max_block_thread_num = 50

module _ (api : RegexApi) where
  open api use {Regex, new, is_match, to_string}

  -- The fields `required` and `path` are `__required__` and `__path__` of the code, which the plugin
  -- loader reads.
  pub record Config : Type 0 where
    pub lcm_url : Str
    pub key_prefix : Str
    pub allow : Option Regex
    pub deny : Option Regex
    pub network_interface : Option Str
    pub max_message_size : ℕ
    pub work_thread_num : ℕ
    pub max_block_thread_num : ℕ
    pub required : Option Bool
    pub path : Option (List Str)

  -- The configuration that `{}` gives.
  unfoldable pub default_config : Config
  default_config = record {
    lcm_url = default_lcm_url;
    key_prefix = default_key_prefix;
    allow = none;
    deny = none;
    network_interface = none;
    max_message_size = default_max_message_size;
    work_thread_num = default_work_thread_num;
    max_block_thread_num = default_max_block_thread_num;
    required = none;
    path = none;
  }

  -- The outer `none` is the error for a text that does not compile.
  unfoldable pub deserialize_regex : Option Str → Option (Option Regex)
  deserialize_regex none = some none
  deserialize_regex (some s) = elim (new s) [ none ↦ none | some re ↦ some (some re) ]

  unfoldable pub serialize_allow : Option Regex → Str
  serialize_allow none = codes ".*"
  serialize_allow (some re) = to_string re

  unfoldable pub serialize_deny : Option Regex → Str
  serialize_deny none = codes ""
  serialize_deny (some re) = to_string re

  unfoldable pub filter : Option Regex → Option Regex → Str → Bool
  filter (some allow) none channel = is_match allow channel
  filter none (some deny) channel = not (is_match deny channel)
  filter (some allow) (some deny) channel = is_match allow channel && not (is_match deny channel)
  filter none none channel = true

  -- The `match` on the pair of filters.
  unfoldable pub is_allowed : Str → Config → Bool
  unfolding filter
  is_allowed channel c = filter c.allow c.deny channel
