-- ===== src/Plugin/Config/Reading.antt =====
-- What a configuration read from an object says about the object's entries.
use zenoh_plugin_lcm.Base.{◌≡◌, ◌↔◌, refl, subst, true, none, some, Bool-cases, inl, inr}
use zenoh_plugin_lcm.Base.Str.{codes}
use zenoh_plugin_lcm.Plugin.Json.{Fields, get, only_keys}
use zenoh_plugin_lcm.Plugin.Config.{
  RegexApi, Config, default_lcm_url, default_key_prefix, default_max_message_size,
  default_work_thread_num, default_max_block_thread_num,
}
use zenoh_plugin_lcm.Plugin.Config.Values.{
  read_text, read_usize, read_option_text, read_option_bool, deserialize_path, or_default,
  read_regex, read_fields, from_object,
}
use zenoh_plugin_lcm.Plugin.Config.Entries.{
  >>=-eq-some, known_keys, HasText, HasUsize, HasOptionText, HasOptionBool, HasPath, HasRegex,
  Entry, or_default_iff, read_text_iff, read_usize_iff, read_option_text_iff, read_option_bool_iff,
  deserialize_path_iff, read_regex_iff,
}

some_injective : {A : Type 0} (a b : A) → some a ≡ some b → a ≡ b
some_injective a b e = cc

module _ (api : RegexApi) where
  -- The readings that `read_fields` makes, one after the other.
  pub record Readings (fields : Fields) (c : Config api) : Type 0 where
    pub lcm_url :
        or_default (get (codes "lcm_url") fields) default_lcm_url read_text ≡ some c.lcm_url
    pub key_prefix :
        or_default (get (codes "key_prefix") fields) default_key_prefix read_text
        ≡ some c.key_prefix
    pub allow : or_default (get (codes "allow") fields) none (read_regex api) ≡ some c.allow
    pub deny : or_default (get (codes "deny") fields) none (read_regex api) ≡ some c.deny
    pub network_interface :
        or_default (get (codes "network_interface") fields) none read_option_text
        ≡ some c.network_interface
    pub max_message_size :
        or_default (get (codes "max_message_size") fields) default_max_message_size read_usize
        ≡ some c.max_message_size
    pub work_thread_num :
        or_default (get (codes "work_thread_num") fields) 2 read_usize ≡ some c.work_thread_num
    pub max_block_thread_num :
        or_default (get (codes "max_block_thread_num") fields) 50 read_usize
        ≡ some c.max_block_thread_num
    pub required :
        or_default (get (codes "__required__") fields) none read_option_bool ≡ some c.required
    pub path : or_default (get (codes "__path__") fields) none deserialize_path ≡ some c.path

  read_fields-Readings :
      (fields : Fields) (c : Config api) → read_fields api fields ≡ some c → Readings fields c
  unfolding read_fields
  read_fields-Readings fields c e0 =
      let (x1, a1, e1) = >>=-eq-some _ _ c e0 in
      let (x2, a2, e2) = >>=-eq-some _ _ c e1 in
      let (x3, a3, e3) = >>=-eq-some _ _ c e2 in
      let (x4, a4, e4) = >>=-eq-some _ _ c e3 in
      let (x5, a5, e5) = >>=-eq-some _ _ c e4 in
      let (x6, a6, e6) = >>=-eq-some _ _ c e5 in
      let (x7, a7, e7) = >>=-eq-some _ _ c e6 in
      let (x8, a8, e8) = >>=-eq-some _ _ c e7 in
      let (x9, a9, e9) = >>=-eq-some _ _ c e8 in
      let (x10, a10, e10) = >>=-eq-some _ _ c e9 in
      let d : Config api = record {
        lcm_url = x1;
        key_prefix = x2;
        allow = x3;
        deny = x4;
        network_interface = x5;
        max_message_size = x6;
        work_thread_num = x7;
        max_block_thread_num = x8;
        required = x9;
        path = x10;
      } in
      let read : Readings fields d = record {
        lcm_url = a1;
        key_prefix = a2;
        allow = a3;
        deny = a4;
        network_interface = a5;
        max_message_size = a6;
        work_thread_num = a7;
        max_block_thread_num = a8;
        required = a9;
        path = a10;
      } in
      let same : d ≡ c = some_injective d c e10 in subst (Readings fields) same read

  Readings-read_fields :
      (fields : Fields) (c : Config api) → Readings fields c → read_fields api fields ≡ some c
  unfolding read_fields
  Readings-read_fields fields c h =
      rw
        (
          h.lcm_url, h.key_prefix, h.allow, h.deny, h.network_interface, h.max_message_size,
          h.work_thread_num, h.max_block_thread_num, h.required, h.path,
        )
        refl

  -- Each field is what its entry holds, or its default where there is no entry.
  pub record Reads (fields : Fields) (c : Config api) : Type 0 where
    pub lcm_url : Entry fields (codes "lcm_url") default_lcm_url HasText c.lcm_url
    pub key_prefix : Entry fields (codes "key_prefix") default_key_prefix HasText c.key_prefix
    pub allow : Entry fields (codes "allow") none (HasRegex api) c.allow
    pub deny : Entry fields (codes "deny") none (HasRegex api) c.deny
    pub network_interface :
        Entry fields (codes "network_interface") none HasOptionText c.network_interface
    pub max_message_size :
        Entry fields (codes "max_message_size") default_max_message_size HasUsize c.max_message_size
    pub work_thread_num :
        Entry fields (codes "work_thread_num") default_work_thread_num HasUsize c.work_thread_num
    pub max_block_thread_num :
        Entry fields
          (codes "max_block_thread_num")
          default_max_block_thread_num
          HasUsize
          c.max_block_thread_num
    pub required : Entry fields (codes "__required__") none HasOptionBool c.required
    pub path : Entry fields (codes "__path__") none HasPath c.path

  Readings-Reads : (fields : Fields) (c : Config api) → Readings fields c ↔ Reads fields c
  Readings-Reads fields c = (
    λ h. record {
      lcm_url = (or_default_iff fields _ _ _ HasText c.lcm_url read_text_iff).0 h.lcm_url;
      key_prefix = (or_default_iff fields _ _ _ HasText c.key_prefix read_text_iff).0 h.key_prefix;
      allow = (or_default_iff fields _ _ _ (HasRegex api) c.allow (read_regex_iff api)).0 h.allow;
      deny = (or_default_iff fields _ _ _ (HasRegex api) c.deny (read_regex_iff api)).0 h.deny;
      network_interface =
          (or_default_iff fields _ _ _ HasOptionText c.network_interface read_option_text_iff).0
            h.network_interface;
      max_message_size =
          (or_default_iff fields _ _ _ HasUsize c.max_message_size read_usize_iff).0
            h.max_message_size;
      work_thread_num =
          (or_default_iff fields _ _ _ HasUsize c.work_thread_num read_usize_iff).0
            h.work_thread_num;
      max_block_thread_num =
          (or_default_iff fields _ _ _ HasUsize c.max_block_thread_num read_usize_iff).0
            h.max_block_thread_num;
      required =
          (or_default_iff fields _ _ _ HasOptionBool c.required read_option_bool_iff).0 h.required;
      path = (or_default_iff fields _ _ _ HasPath c.path deserialize_path_iff).0 h.path;
    },
    λ h. record {
      lcm_url = (or_default_iff fields _ _ _ HasText c.lcm_url read_text_iff).1 h.lcm_url;
      key_prefix = (or_default_iff fields _ _ _ HasText c.key_prefix read_text_iff).1 h.key_prefix;
      allow = (or_default_iff fields _ _ _ (HasRegex api) c.allow (read_regex_iff api)).1 h.allow;
      deny = (or_default_iff fields _ _ _ (HasRegex api) c.deny (read_regex_iff api)).1 h.deny;
      network_interface =
          (or_default_iff fields _ _ _ HasOptionText c.network_interface read_option_text_iff).1
            h.network_interface;
      max_message_size =
          (or_default_iff fields _ _ _ HasUsize c.max_message_size read_usize_iff).1
            h.max_message_size;
      work_thread_num =
          (or_default_iff fields _ _ _ HasUsize c.work_thread_num read_usize_iff).1
            h.work_thread_num;
      max_block_thread_num =
          (or_default_iff fields _ _ _ HasUsize c.max_block_thread_num read_usize_iff).1
            h.max_block_thread_num;
      required =
          (or_default_iff fields _ _ _ HasOptionBool c.required read_option_bool_iff).1 h.required;
      path = (or_default_iff fields _ _ _ HasPath c.path deserialize_path_iff).1 h.path;
    },
  )

  pub from_object-Readings :
      (fields : Fields) (c : Config api) → from_object api fields ≡ some c → Readings fields c
  unfolding from_object
  from_object-Readings fields c e = elim (Bool-cases (only_keys known_keys fields)) [
    | inl known ↦ read_fields-Readings fields c (rw known at e)
    | inr unknown ↦ absurd (cc (rw unknown at e))
  ]

  -- An object gives a configuration exactly when all its keys are among the ten names and each field is
  -- what its entry holds, or its default where there is no entry: a text, a number, a text or boolean or
  -- `null`, a text that compiles to the filter or `null`, and a text, an array of texts or `null` for the
  -- path.
  pub from_object_iff :
      (fields : Fields) (c : Config api)
      → (from_object api fields ≡ some c) ↔ ((only_keys known_keys fields ≡ true) × Reads fields c)
  unfolding from_object
  from_object_iff fields c = elim (Bool-cases (only_keys known_keys fields)) [
    | inl known ↦ (
      λ e. (known, (Readings-Reads fields c).0 (from_object-Readings fields c e)),
      λ (_, h). rw known (Readings-read_fields fields c ((Readings-Reads fields c).1 h)),
    )
    | inr unknown ↦ (λ e. absurd (cc), λ (known, _). cc)
  ]
