-- ===== src/Plugin/Config/Values.antt =====
-- zenoh-plugin-lcm/src/config.rs: the configuration as a JSON value, read by the attributes of its
-- fields and written in their order.
use zenoh_plugin_lcm.Base.{ℕ, Bool, List, [], ◌∷◌, Option, none, some, if◌then◌else◌}
use zenoh_plugin_lcm.Base.Str.{Str, codes}
use zenoh_plugin_lcm.Plugin.Json.{
  Value, null, boolean, number, text, array, object, Values, nil, cons, Fields, end, field, get,
  only_keys,
}
use zenoh_plugin_lcm.Plugin.Config.{
  RegexApi, Config, default_lcm_url, default_key_prefix, default_max_message_size,
  default_work_thread_num, default_max_block_thread_num, deserialize_regex, serialize_allow,
  serialize_deny,
}

infixl 5 ◌>>=◌
abbrev pub ◌>>=◌ {ℓ κ} : {A : Type ℓ} {B : Type κ} → Option A → (A → Option B) → Option B
none >>= f = none
some a >>= f = f a

-- The readings of the fields' types; `none` is an error.
abbrev pub read_text : Value → Option Str
read_text (text s) = some s
read_text _ = none

abbrev pub read_usize : Value → Option ℕ
read_usize (number n) = n
read_usize _ = none

abbrev pub read_option_text : Value → Option (Option Str)
read_option_text null = some none
read_option_text (text s) = some (some s)
read_option_text _ = none

abbrev pub read_option_bool : Value → Option (Option Bool)
read_option_bool null = some none
read_option_bool (boolean b) = some (some b)
read_option_bool _ = none

-- `PathVisitor::visit_seq`
abbrev pub visit_seq : Values → Option (List Str)
visit_seq nil = some []
visit_seq (cons v vs) = do s ← read_text v; rest ← visit_seq vs; some (s ∷ rest)

-- `PathVisitor`: `visit_str` makes a list of one.
abbrev path_visitor : Value → Option (List Str)
path_visitor (text s) = some (s ∷ [])
path_visitor (array vs) = visit_seq vs
path_visitor _ = none

-- `deserialize_path`, with `OptPathVisitor`
unfoldable pub deserialize_path : Value → Option (Option (List Str))
deserialize_path null = some none
deserialize_path v = do path ← path_visitor v; some (some path)

-- A field that may be missing: `#[serde(default)]`, or the missing field of an `Option`.
abbrev pub or_default {ℓ} : {A : Type ℓ} → Option Value → A → (Value → Option A) → Option A
or_default none a read = some a
or_default (some v) a read = read v

abbrev pub field_names : List Str
field_names =
    codes "lcm_url"
    ∷ codes "key_prefix"
    ∷ codes "allow"
    ∷ codes "deny"
    ∷ codes "network_interface"
    ∷ codes "max_message_size"
    ∷ codes "work_thread_num"
    ∷ codes "max_block_thread_num"
    ∷ codes "__required__"
    ∷ codes "__path__"
    ∷ []

abbrev pub text_or_null : Option Str → Value
text_or_null none = null
text_or_null (some s) = text s

abbrev pub bool_or_null : Option Bool → Value
bool_or_null none = null
bool_or_null (some b) = boolean b

abbrev pub texts : List Str → Values
texts [] = nil
texts (s ∷ ss) = cons (text s) (texts ss)

abbrev pub path_or_null : Option (List Str) → Value
path_or_null none = null
path_or_null (some ss) = array (texts ss)

-- The next element of an array, with a default or without.
abbrev next_item {ℓ} : {A : Type ℓ} → Values → (Value → Option A) → Option (A × Values)
next_item nil read = none
next_item (cons v vs) read = do a ← read v; some (a, vs)

abbrev next_or {ℓ} : {A : Type ℓ} → Values → A → (Value → Option A) → Option (A × Values)
next_or nil a read = some (a, nil)
next_or (cons v vs) a read = next_item (cons v vs) read

abbrev if_nil {ℓ} : {A : Type ℓ} → Values → A → Option A
if_nil nil a = some a
if_nil (cons v vs) a = none

module _ (api : RegexApi) where
  open api use {Regex}

  abbrev pub read_regex : Value → Option (Option Regex)
  read_regex v = do s ← read_option_text v; deserialize_regex api s

  -- A configuration from the entries of an object.
  unfoldable pub read_fields : Fields → Option (Config api)
  read_fields fields = do
    lcm_url ← or_default (get (codes "lcm_url") fields) default_lcm_url read_text
    key_prefix ← or_default (get (codes "key_prefix") fields) default_key_prefix read_text
    allow ← or_default (get (codes "allow") fields) none read_regex
    deny ← or_default (get (codes "deny") fields) none read_regex
    network_interface ← or_default (get (codes "network_interface") fields) none read_option_text
    max_message_size ←
        or_default (get (codes "max_message_size") fields) default_max_message_size read_usize
    work_thread_num ←
        or_default (get (codes "work_thread_num") fields) default_work_thread_num read_usize
    max_block_thread_num ←
        or_default (get (codes "max_block_thread_num") fields) default_max_block_thread_num
          read_usize
    required ← or_default (get (codes "__required__") fields) none read_option_bool
    path ← or_default (get (codes "__path__") fields) none deserialize_path
    some (record {
      lcm_url = lcm_url;
      key_prefix = key_prefix;
      allow = allow;
      deny = deny;
      network_interface = network_interface;
      max_message_size = max_message_size;
      work_thread_num = work_thread_num;
      max_block_thread_num = max_block_thread_num;
      required = required;
      path = path;
    })

  -- `Deserialize` for an object, with `deny_unknown_fields`.
  unfoldable pub from_object : Fields → Option (Config api)
  from_object fields = if only_keys field_names fields then read_fields fields else none

  -- A configuration from the elements of an array, in the order of the fields. Only `__required__` has
  -- no default here, and no element may be left.
  unfoldable read_array : Values → Option (Config api)
  read_array vs = do
    (lcm_url, vs1) ← next_or vs default_lcm_url read_text
    (key_prefix, vs2) ← next_or vs1 default_key_prefix read_text
    (allow, vs3) ← next_or vs2 none read_regex
    (deny, vs4) ← next_or vs3 none read_regex
    (network_interface, vs5) ← next_or vs4 none read_option_text
    (max_message_size, vs6) ← next_or vs5 default_max_message_size read_usize
    (work_thread_num, vs7) ← next_or vs6 default_work_thread_num read_usize
    (max_block_thread_num, vs8) ← next_or vs7 default_max_block_thread_num read_usize
    (required, vs9) ← next_item vs8 read_option_bool
    (path, rest) ← next_or vs9 none deserialize_path
    if_nil rest (record {
      lcm_url = lcm_url;
      key_prefix = key_prefix;
      allow = allow;
      deny = deny;
      network_interface = network_interface;
      max_message_size = max_message_size;
      work_thread_num = work_thread_num;
      max_block_thread_num = max_block_thread_num;
      required = required;
      path = path;
    })

  -- `serde_json::from_value`
  unfoldable pub from_value : Value → Option (Config api)
  unfolding from_object read_array
  from_value (object fields) = from_object fields
  from_value (array vs) = read_array vs
  from_value _ = none

  -- `Serialize`: all fields, in their order.
  unfoldable pub to_object : Config api → Fields
  to_object c = field (codes "lcm_url") (text c.lcm_url) (
      field (codes "key_prefix") (text c.key_prefix) (
        field (codes "allow") (text (serialize_allow api c.allow)) (
          field (codes "deny") (text (serialize_deny api c.deny)) (
            field (codes "network_interface") (text_or_null c.network_interface) (
              field (codes "max_message_size") (number (some c.max_message_size)) (
                field (codes "work_thread_num") (number (some c.work_thread_num)) (
                  field (codes "max_block_thread_num") (number (some c.max_block_thread_num)) (
                    field (codes "__required__") (bool_or_null c.required)
                      (field (codes "__path__") (path_or_null c.path) end)))))))))
