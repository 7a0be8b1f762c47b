-- ===== src/Plugin/Config/Reload.antt =====
-- What a configuration is after it is written out as JSON and read again.
use zenoh_plugin_lcm.Base.{
  ◌≡◌, refl, Bool, List, [], ◌∷◌, Option, none, some, Option-cases, inl, inr,
}
use zenoh_plugin_lcm.Base.Str.{Str}
use zenoh_plugin_lcm.Plugin.Json.{get, only_keys, one_of}
use zenoh_plugin_lcm.Plugin.Config.{
  RegexApi, Config, deserialize_regex, serialize_allow, serialize_deny,
}
use zenoh_plugin_lcm.Plugin.Config.Filter.{reload}
use zenoh_plugin_lcm.Plugin.Config.Values.{
  visit_seq, texts, path_or_null, text_or_null, bool_or_null, deserialize_path, read_option_text,
  read_option_bool, from_object, read_fields, to_object,
}

visit_seq-texts : (ss : List Str) → visit_seq (texts ss) ≡ some ss
visit_seq-texts [] = refl
visit_seq-texts (s ∷ ss) = rw (visit_seq-texts ss) refl

deserialize_path-path_or_null : (o : Option (List Str)) → deserialize_path (path_or_null o) ≡ some o
unfolding deserialize_path
deserialize_path-path_or_null none = refl
deserialize_path-path_or_null (some ss) = rw (visit_seq-texts ss) refl

read_option_text-text_or_null : (o : Option Str) → read_option_text (text_or_null o) ≡ some o
read_option_text-text_or_null none = refl
read_option_text-text_or_null (some s) = refl

read_option_bool-bool_or_null : (o : Option Bool) → read_option_bool (bool_or_null o) ≡ some o
read_option_bool-bool_or_null none = refl
read_option_bool-bool_or_null (some b) = refl

module _ (api : RegexApi) where
  -- A configuration that is written out as an object and read again is the one with its two filters
  -- written out and read again, and all other fields as they were.
  pub from_object-to_object : (c : Config api) → from_object api (to_object api c) ≡ reload api c
  unfolding from_object to_object read_fields get only_keys one_of reload
  from_object-to_object c =
      rw
        (
          deserialize_path-path_or_null c.path,
          read_option_text-text_or_null c.network_interface,
          read_option_bool-bool_or_null c.required,
        )
        (elim (Option-cases (deserialize_regex api (some (serialize_allow api c.allow)))) [
          | inl bad ↦ rw bad refl
          | inr (allow, good) ↦
              elim (Option-cases (deserialize_regex api (some (serialize_deny api c.deny)))) [
                | inl bad ↦ rw (good, bad) refl
                | inr (deny, fine) ↦ rw (good, fine) refl
              ]
        ])
