-- ===== src/Executable/Tests.antt =====
-- The command line over a configuration that is a list of entries.
use zenoh_plugin_lcm.Base.{
  ◌≡◌, refl, sym, ap, ◌∙◌, append_assoc, arith, Bool, true, false, List, [], ◌∷◌, ◌++◌, Option,
  none, some, ok, ◌==◌, if◌then◌else◌,
}
use zenoh_plugin_lcm.Base.Str.{Str, codes, same_text, strip_prefix}
use zenoh_plugin_lcm.Plugin.Json.{Value, Fields, end, field, get, only_keys, one_of}
use zenoh_plugin_lcm.Executable.{Args, ZenohApi, apart, load, parse_args}
use zenoh_plugin_lcm.Executable.Overrides.{
  Setting, lcm_url, key_prefix, allow, deny, network_interface, max_message_size, path_of, given,
  over,
}
use zenoh_plugin_lcm.Executable.Acceptance.{
  option_of, json_of, Inserted, plugin, rest_port, setting, Accepts,
}
use zenoh_plugin_lcm.Executable.Main.{RuntimeApi, Declared, Declares, Ends, main, main-Ends}
use zenoh_plugin_lcm.Executable.Launch.{IsConfigured, start-parse_args}
use zenoh_plugin_lcm.Plugin.Config.{default_config, deserialize_regex}
use zenoh_plugin_lcm.Plugin.Config.Values.{from_value, read_fields}
use zenoh_plugin_lcm.Plugin.Startup.{LcmPlugin, Start, start}
use zenoh_plugin_lcm.Plugin.Tests.{prefixes, texts}

abbrev Entries : Type 0
Entries = List (Str × Value)

abbrev entry_at : Str → Entries → Option Value
entry_at q [] = none
entry_at q ((p, v) ∷ c) = if same_text p q then some v else entry_at q c

-- A text begins with a quote; all else reads as a number.
abbrev read : Str → Option Value
read [] = none
read (b ∷ s) = if b == b'"' then some (Value.text s) else some (Value.number none)

abbrev insert_value : Str → Option Value → Entries → Option Entries
insert_value p none c = none
insert_value p (some v) c = some ((p, v) ∷ c)

abbrev is_there : Option Value → Bool
is_there none = false
is_there (some v) = true

same_text_refl : (p : Str) → same_text p p ≡ true
same_text_refl [] = refl
same_text_refl (b ∷ p) = ground (arith, same_text_refl p)

same_text-longer : (p q : Str) → same_text p (p ++ (b'/' ∷ q)) ≡ false
same_text-longer [] q = refl
same_text-longer (b ∷ p) q = ground (arith, same_text-longer p q)

same_text-apart : (p q : Str) → apart p q ≡ true → same_text p q ≡ false
unfolding strip_prefix
same_text-apart [] q h = cc
same_text-apart (a ∷ p) [] h = refl
same_text-apart (a ∷ p) (b ∷ q) h = ground (arith, same_text-apart p q)

entry_at-insert_value :
    (p : Str) (o : Option Value) (c c' : Entries) → insert_value p o c ≡ some c' → entry_at p c' ≡ o
entry_at-insert_value p none c c' e = cc
entry_at-insert_value p (some v) c c' e = ground (arith, same_text_refl p)

entry_at-insert_value_ne :
    (p q : Str) (o : Option Value)
    → same_text p q ≡ false
    → (c c' : Entries) → insert_value p o c ≡ some c'
    → entry_at q c' ≡ entry_at q c
entry_at-insert_value_ne p q none h c c' e = cc
entry_at-insert_value_ne p q (some v) h c c' e = ground arith

entry_at-same :
    (q : Str) (c c' : Entries)
    → ◌≡◌ {A = Option Entries} (some c) (some c')
    → entry_at q c' ≡ entry_at q c
entry_at-same q c c' e = ground arith

-- The entries under a path, as an object.
abbrev under : Option Str → Value → Fields → Fields
under none v fields = fields
under (some k) v fields = field k v fields

abbrev fields_under : Str → Entries → Fields
fields_under pre [] = end
fields_under pre ((p, v) ∷ c) = under (strip_prefix pre p) v (fields_under pre c)

abbrev is_rest : Option Str → Str → Bool
is_rest none key = false
is_rest (some k) key = same_text k key

same_text-append : (pre p key : Str) → same_text p (pre ++ key) ≡ is_rest (strip_prefix pre p) key
unfolding strip_prefix
same_text-append [] p key = refl
same_text-append (a ∷ pre) [] key = refl
same_text-append (a ∷ pre) (b ∷ p) key = ground (arith, same_text-append pre p key)

get-under :
    (o : Option Str) (v : Value) (fields : Fields) (key : Str)
    → get key (under o v fields) ≡ (if is_rest o key then some v else get key fields)
unfolding get
get-under none v fields key = refl
get-under (some k) v fields key = refl

entry_at-fields_under :
    (pre key : Str) (c : Entries) → entry_at (pre ++ key) c ≡ get key (fields_under pre c)
unfolding get
entry_at-fields_under pre key [] = refl
entry_at-fields_under pre key ((p, v) ∷ c) =
    rw (same_text-append pre p key, entry_at-fields_under pre key c)
      (sym (get-under (strip_prefix pre p) v (fields_under pre c) key))

abbrev plugin_path : Str → Str
plugin_path name = codes "plugins/" ++ (name ++ (b'/' ∷ []))

object_injective :
    (f g : Fields) → ◌≡◌ {A = Option Value} (some (Value.object f)) (some (Value.object g)) → f ≡ g
object_injective f g e = cc

entry_at-plugin :
    (name key : Str) (c : Entries) (fields : Fields)
    → ◌≡◌ {A = Option Value}
        (some (Value.object (fields_under (plugin_path name) c)))
        (some (Value.object fields))
    → entry_at (codes "plugins/" ++ (name ++ (b'/' ∷ key))) c ≡ get key fields
entry_at-plugin name key c fields e =
    ap (λ q. entry_at (codes "plugins/" ++ q) c) (sym (append_assoc name (b'/' ∷ []) key))
    ∙ entry_at-fields_under (plugin_path name) key c
    ∙ ap (get key) (object_injective _ fields e)

abbrev entries : ZenohApi
entries = record {
  ZenohConfig = Entries;
  default = [];
  from_file = λ name. some (
      (codes "plugins/lcm/key_prefix", Value.text (codes "a"))
      ∷ (codes "plugins/lcm/deny", Value.text (codes "b"))
      ∷ []);
  has_plugin = λ name c. is_there (entry_at (codes "plugins/" ++ name) c);
  insert_json5 = λ p t. insert_value p (read t);
  edit = λ e c. some c;
  quote = λ s. b'"' ∷ s;
  parse_json5 = read;
  value_at = entry_at;
  parse_json5-quote = λ s. refl;
  value_at-insert_json5 = λ p t. entry_at-insert_value p (read t);
  value_at-insert_json5_apart =
      λ p t q h. entry_at-insert_value_ne p q (read t) (same_text-apart p q h);
  value_at-insert_plugin = λ name q c c' h.
      entry_at-insert_value_ne (codes "plugins/" ++ name) (codes "plugins/" ++ (name ++ (b'/' ∷ q)))
        (read (codes "{}")) (same_text-longer name q) c c';
  plugin_config = λ name c. some (Value.object (fields_under (plugin_path name) c));
  value_at-plugin_config = λ name key c fields _. entry_at-plugin name key c fields;
  value_at-edit = λ e q. entry_at-same (codes "plugins/" ++ q);
}

-- `-c conf -p c`: the file has a prefix and a deny expression.
abbrev prefix_only : Args
prefix_only = record {
  id = none;
  mode = none;
  config = some (codes "conf");
  listen = none;
  connect = none;
  no_multicast_scouting = true;
  rest_http_port = none;
  lcm_url = none;
  key_prefix = some (codes "c");
  allow = none;
  deny = none;
  network_interface = none;
  max_message_size = none;
}

abbrev file : Entries
file =
    (codes "plugins/lcm/key_prefix", Value.text (codes "a"))
    ∷ (codes "plugins/lcm/deny", Value.text (codes "b"))
    ∷ []

loaded : load entries prefix_only ≡ ok file
unfolding load
loaded = refl

setting_taken :
    (s : Setting) (t : Str)
    → option_of prefix_only s ≡ some t
    → (c : Entries)
    → (c' : Entries) × (insert_value (path_of s) (read (json_of entries s t)) c ≡ some c')
setting_taken lcm_url t h c = cc
setting_taken key_prefix t h c = ((codes "plugins/lcm/key_prefix", Value.text t) ∷ c, refl)
setting_taken allow t h c = cc
setting_taken deny t h c = cc
setting_taken network_interface t h c = cc
setting_taken max_message_size t h c = cc

all_taken :
    (p t : Str)
    → Inserted entries prefix_only p t
    → (c : Entries) → (c' : Entries) × (insert_value p (read t) c ≡ some c')
all_taken p t plugin c = ((codes "plugins/lcm", Value.number none) ∷ c, refl)
all_taken p t (rest_port port h) c = cc
all_taken p t (setting s u h) c = setting_taken s u h c

prefix_only-Accepts : Accepts entries prefix_only
prefix_only-Accepts = record { edits = λ e _ c. (c, refl); inserts = all_taken }

-- A runtime that builds and does not start.
abbrev no_start : RuntimeApi Entries
no_start = record { Runtime = Unit {0}; build = λ c plugins. some tt; start = λ r. none }

main-Ends_example :
    (config : Entries) × (parse_args entries prefix_only ≡ ok config)
    × (plugins : List Declared) × Declares entries no_start config plugins
    × Ends entries no_start config plugins (main entries no_start prefix_only)
    × ((s : Setting)
        → entry_at (path_of s) config
          ≡ over entries (given entries prefix_only s) (entry_at (path_of s) file))
main-Ends_example = main-Ends entries no_start prefix_only file prefix_only-Accepts loaded

abbrev overridden : Entries
overridden =
    (codes "plugins/lcm/key_prefix", Value.text (codes "c"))
    ∷ (codes "plugins/lcm", Value.number none)
    ∷ file

parsed : parse_args entries prefix_only ≡ ok overridden
unfolding parse_args
parsed = refl

abbrev launched : LcmPlugin prefixes texts
launched = record {
  config = record (default_config prefixes) { key_prefix = codes "c"; deny = some (codes "b") };
  work_thread_num = 2;
  max_block_thread_num = 50;
}

starts :
    start prefixes texts (entries.plugin_config (codes "lcm") overridden) ≡ Start.plugin launched
unfolding start from_value read_fields get only_keys default_config strip_prefix one_of
    deserialize_regex
starts = refl

start-parse_args_example : IsConfigured prefixes texts entries prefix_only file launched.config
start-parse_args_example =
    start-parse_args prefixes texts entries prefix_only file overridden
      (fields_under (plugin_path (codes "lcm")) overridden) launched loaded parsed refl starts
