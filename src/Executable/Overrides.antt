-- ===== src/Executable/Overrides.antt =====
-- The options of the command line against the settings of the configuration file.
use zenoh_plugin_lcm.Base.{
  ◌≡◌, refl, ap, ◌∙◌, arith, Bool, true, false, ◌++◌, Option, none, some, Run, ok, ◌>>=◌, unwrap,
  >>=-eq-ok, Bool-cases, inl, inr,
}
use zenoh_plugin_lcm.Base.Str.{Str, codes, strip_prefix}
use zenoh_plugin_lcm.Plugin.Json.{Value}
use zenoh_plugin_lcm.Executable.{
  Args, Edit, ZenohApi, apart, if_given, load, add_lcm, scouting, zenoh_args, insert_if, lcm_args,
  parse_args, set_id, set_mode, set_connect, set_listen, set_multicast_scouting, set_timestamping,
  set_adminspace, set_plugins_loading,
}

-- The settings of the plugin that have an option.
pub data Setting : Type 0 where
  lcm_url key_prefix allow deny network_interface max_message_size : Setting

abbrev pub name_of : Setting → Str
name_of lcm_url = codes "lcm_url"
name_of key_prefix = codes "key_prefix"
name_of allow = codes "allow"
name_of deny = codes "deny"
name_of network_interface = codes "network_interface"
name_of max_message_size = codes "max_message_size"

abbrev pub path_of : Setting → Str
path_of s = codes "plugins/lcm/" ++ name_of s

unwrap-eq-ok : {A : Type 0} (o : Option A) (a : A) → unwrap o ≡ ok a → o ≡ some a
unwrap-eq-ok none a e = cc
unwrap-eq-ok (some b) a e = ground arith

module _ (api : ZenohApi) where
  open api use {
    ZenohConfig, default, has_plugin, insert_json5, edit, quote, parse_json5, value_at,
    parse_json5-quote, value_at-insert_json5, value_at-insert_json5_apart, value_at-insert_plugin,
    value_at-edit,
  }

  -- The value that an option gives to its setting: the text, and for the size what the text reads as.
  abbrev text_of : Option Str → Option (Option Value)
  text_of none = none
  text_of (some s) = some (some (Value.text s))

  abbrev reading_of : Option Str → Option (Option Value)
  reading_of none = none
  reading_of (some s) = some (parse_json5 s)

  abbrev pub given : Args → Setting → Option (Option Value)
  given args lcm_url = text_of args.lcm_url
  given args key_prefix = text_of args.key_prefix
  given args allow = text_of args.allow
  given args deny = text_of args.deny
  given args network_interface = text_of args.network_interface
  given args max_message_size = reading_of args.max_message_size

  abbrev pub over : Option (Option Value) → Option Value → Option Value
  over none old = old
  over (some new) old = new

  -- A step that leaves a path alone, and one that writes a value there, if there is one to write.
  abbrev Keeps : Str → (ZenohConfig → Run ZenohConfig) → Type 0
  Keeps q f = (c c' : ZenohConfig) → f c ≡ ok c' → value_at q c' ≡ value_at q c

  abbrev Sets : Str → Option (Option Value) → (ZenohConfig → Run ZenohConfig) → Type 0
  Sets q o f = (c c' : ZenohConfig) → f c ≡ ok c' → value_at q c' ≡ over o (value_at q c)

  module _ {q : Str} {f g : ZenohConfig → Run ZenohConfig} where
    Keeps-then : Keeps q f → Keeps q g → Keeps q (λ c. f c >>= g)
    Keeps-then k l c c' e =
        let (d, first, second) = >>=-eq-ok (f c) g c' e in l d c' second ∙ k c d first

    Sets-after : (o : Option (Option Value)) → Keeps q f → Sets q o g → Sets q o (λ c. f c >>= g)
    Sets-after o k l c c' e =
        let (d, first, second) = >>=-eq-ok (f c) g c' e in l d c' second ∙ ap (over o) (k c d first)

    Sets-before : (o : Option (Option Value)) → Sets q o f → Keeps q g → Sets q o (λ c. f c >>= g)
    Sets-before o k l c c' e =
        let (d, first, second) = >>=-eq-ok (f c) g c' e in l d c' second ∙ k c d first

  Keeps-unwrap :
      (q : Str) (op : ZenohConfig → Option ZenohConfig)
      → ((c c' : ZenohConfig) → op c ≡ some c' → value_at q c' ≡ value_at q c)
      → Keeps q (λ c. unwrap (op c))
  Keeps-unwrap q op h c c' e = h c c' (unwrap-eq-ok (op c) c' e)

  Keeps-if_given :
      {A : Type 0} (q : Str) (o : Option A) (op : A → ZenohConfig → Option ZenohConfig)
      → ((a : A) (c c' : ZenohConfig) → op a c ≡ some c' → value_at q c' ≡ value_at q c)
      → Keeps q (if_given api o op)
  Keeps-if_given q none op h c c' e = ground arith
  Keeps-if_given q (some a) op h c c' e = h a c c' (unwrap-eq-ok (op a c) c' e)

  kept :
      {q : Str} (s : Setting) (o : Option Str)
      → apart (path_of s) q ≡ true
      → Keeps q (insert_if api (path_of s) o)
  kept {q} s o away =
      let p : Str = path_of s in
      Keeps-if_given q o (λ t. insert_json5 p (quote t))
        (λ t. value_at-insert_json5_apart p (quote t) q away)

  Sets-insert_if : (p : Str) (o : Option Str) → Sets p (text_of o) (insert_if api p o)
  Sets-insert_if p none c c' e = ground arith
  Sets-insert_if p (some s) c c' e =
      value_at-insert_json5 p (quote s) c c' (unwrap-eq-ok (insert_json5 p (quote s) c) c' e)
      ∙ parse_json5-quote s

  Sets-insert_json5 :
      (p : Str) (o : Option Str) → Sets p (reading_of o) (if_given api o (insert_json5 p))
  Sets-insert_json5 p none c c' e = ground arith
  Sets-insert_json5 p (some s) c c' e =
      value_at-insert_json5 p s c c' (unwrap-eq-ok (insert_json5 p s c) c' e)

  Keeps-scouting :
      (q : Str) (b : Bool)
      → ((e : Edit) (c c' : ZenohConfig) → edit e c ≡ some c' → value_at q c' ≡ value_at q c)
      → Keeps q (scouting api b)
  Keeps-scouting q false edits c c' e = ground arith
  Keeps-scouting q true edits c c' e =
      edits (set_multicast_scouting false) c c' (unwrap-eq-ok _ c' e)

  module _ (args : Args) where
    Keeps-zenoh_args : (s : Setting) → Keeps (path_of s) (zenoh_args api args)
    unfolding zenoh_args strip_prefix
    Keeps-zenoh_args s =
        let q : Str = path_of s in
        let edits : (e : Edit) (c c' : ZenohConfig)
            → edit e c ≡ some c'
            → value_at q c' ≡ value_at q c =
          λ e. value_at-edit e (codes "lcm/" ++ name_of s) in
        Keeps-then (Keeps-if_given q args.id _ (λ a. edits (set_id a))) (
          Keeps-then (Keeps-if_given q args.mode _ (λ a. edits (set_mode a))) (
            Keeps-then (Keeps-if_given q args.connect _ (λ a. edits (set_connect a))) (
              Keeps-then (Keeps-if_given q args.listen _ (λ a. edits (set_listen a))) (
                Keeps-then (Keeps-scouting q args.no_multicast_scouting edits) (
                  Keeps-then
                    (Keeps-if_given q args.rest_http_port _
                      (λ a. value_at-insert_json5_apart (codes "plugins/rest/http_port") _ q refl))
                    (Keeps-then (Keeps-unwrap q _ (edits (set_timestamping true))) (
                      Keeps-then (Keeps-unwrap q _ (edits (set_adminspace true)))
                        (Keeps-unwrap q _ (edits (set_plugins_loading true))))))))))

    Keeps-add_lcm : (s : Setting) → Keeps (path_of s) (add_lcm api)
    unfolding add_lcm
    Keeps-add_lcm s c c' e = elim (Bool-cases (has_plugin (codes "lcm") c)) [
      | inl there ↦ let same : ok c ≡ ok c' = rw there at e in ground arith
      | inr new ↦
          let inserted = rw new at e in
          value_at-insert_plugin (codes "lcm") (name_of s) c c' new (unwrap-eq-ok _ c' inserted)
    ]

    kept_size :
        {q : Str}
        → apart (path_of max_message_size) q ≡ true
        → Keeps q (if_given api args.max_message_size (insert_json5 (path_of max_message_size)))
    kept_size {q} away =
        Keeps-if_given q args.max_message_size _
          (λ t. value_at-insert_json5_apart (path_of max_message_size) t q away)

    Sets-lcm_args : (s : Setting) → Sets (path_of s) (given args s) (lcm_args api args)
    unfolding lcm_args strip_prefix
    Sets-lcm_args lcm_url = Sets-before (text_of args.lcm_url) (Sets-insert_if _ args.lcm_url) (
        Keeps-then (kept key_prefix args.key_prefix refl) (
          Keeps-then (kept allow args.allow refl) (
            Keeps-then (kept deny args.deny refl)
              (Keeps-then (kept network_interface args.network_interface refl) (kept_size refl)))))
    Sets-lcm_args key_prefix = Sets-after (given args key_prefix) (kept lcm_url args.lcm_url refl) (
        Sets-before (text_of args.key_prefix) (Sets-insert_if _ args.key_prefix) (
          Keeps-then (kept allow args.allow refl) (
            Keeps-then (kept deny args.deny refl)
              (Keeps-then (kept network_interface args.network_interface refl) (kept_size refl)))))
    Sets-lcm_args allow = Sets-after (given args allow) (kept lcm_url args.lcm_url refl) (
        Sets-after (given args allow) (kept key_prefix args.key_prefix refl) (
          Sets-before (text_of args.allow) (Sets-insert_if _ args.allow) (
            Keeps-then (kept deny args.deny refl)
              (Keeps-then (kept network_interface args.network_interface refl) (kept_size refl)))))
    Sets-lcm_args deny = Sets-after (given args deny) (kept lcm_url args.lcm_url refl) (
        Sets-after (given args deny) (kept key_prefix args.key_prefix refl) (
          Sets-after (given args deny) (kept allow args.allow refl) (
            Sets-before (text_of args.deny) (Sets-insert_if _ args.deny)
              (Keeps-then (kept network_interface args.network_interface refl) (kept_size refl)))))
    Sets-lcm_args network_interface =
        Sets-after (given args network_interface) (kept lcm_url args.lcm_url refl) (
          Sets-after (given args network_interface) (kept key_prefix args.key_prefix refl) (
            Sets-after (given args network_interface) (kept allow args.allow refl) (
              Sets-after (given args network_interface) (kept deny args.deny refl) (
                Sets-before (text_of args.network_interface)
                  (Sets-insert_if _ args.network_interface) (kept_size refl)))))
    Sets-lcm_args max_message_size =
        Sets-after (given args max_message_size) (kept lcm_url args.lcm_url refl) (
          Sets-after (given args max_message_size) (kept key_prefix args.key_prefix refl) (
            Sets-after (given args max_message_size) (kept allow args.allow refl) (
              Sets-after (given args max_message_size) (kept deny args.deny refl) (
                Sets-after (given args max_message_size)
                  (kept network_interface args.network_interface refl)
                  (Sets-insert_json5 _ args.max_message_size)))))

    -- If `parse_args` returns, each setting of the plugin that has an option holds what the option gives,
    -- if it is given, and otherwise what the configuration file gives, or the default configuration.
    pub parse_args-value_at :
        (base c : ZenohConfig) (s : Setting)
        → load api args ≡ ok base
        → parse_args api args ≡ ok c
        → value_at (path_of s) c ≡ over (given args s) (value_at (path_of s) base)
    unfolding parse_args
    parse_args-value_at base c s loaded e =
        let (c1, e1, f1) = >>=-eq-ok (load api args) _ c e in
        let (c2, e2, f2) = >>=-eq-ok (add_lcm api c1) _ c f1 in
        let (c3, e3, f3) = >>=-eq-ok (zenoh_args api args c2) _ c f2 in
        let same : c1 ≡ base = cc in
        Sets-lcm_args s c3 c f3
        ∙ ap (over (given args s)) (
            Keeps-zenoh_args s c2 c3 e3 ∙ Keeps-add_lcm s c1 c2 e2 ∙ ap (value_at (path_of s)) same)
