-- ===== src/Executable/Acceptance.antt =====
-- When `parse_args` returns: all that it unwraps is what Zenoh's configuration answers to settings that
-- the command line asks for.
use zenoh_plugin_lcm.Base.{
  ◌≡◌, refl, Bool, true, false, [], ◌∷◌, ◌++◌, Option, none, some, Run, ok, ◌>>=◌, unwrap,
  Bool-cases, inl, inr,
}
use zenoh_plugin_lcm.Base.Str.{Str, codes}
use zenoh_plugin_lcm.Executable.{
  Args, Edit, ZenohApi, if_given, load, add_lcm, scouting, zenoh_args, lcm_args, parse_args, set_id,
  set_mode, set_connect, set_listen, set_multicast_scouting, set_timestamping, set_adminspace,
  set_plugins_loading,
}
use zenoh_plugin_lcm.Executable.Overrides.{
  Setting, lcm_url, key_prefix, allow, deny, network_interface, max_message_size, path_of, given,
  over, parse_args-value_at,
}

abbrev pub option_of : Args → Setting → Option Str
option_of args lcm_url = args.lcm_url
option_of args key_prefix = args.key_prefix
option_of args allow = args.allow
option_of args deny = args.deny
option_of args network_interface = args.network_interface
option_of args max_message_size = args.max_message_size

-- The settings of Zenoh that a command line asks for; three are always set.
abbrev Asked : Args → Edit → Type 0
Asked args (set_id s) = args.id ≡ some s
Asked args (set_mode s) = args.mode ≡ some s
Asked args (set_connect l) = args.connect ≡ some l
Asked args (set_listen l) = args.listen ≡ some l
Asked args (set_multicast_scouting b) = (args.no_multicast_scouting ≡ true) × (b ≡ false)
Asked args (set_timestamping b) = b ≡ true
Asked args (set_adminspace b) = b ≡ true
Asked args (set_plugins_loading b) = b ≡ true

module _ (api : ZenohApi) where
  open api use {ZenohConfig, has_plugin, insert_json5, edit, quote, value_at}

  abbrev pub json_of : Setting → Str → Str
  json_of max_message_size t = t
  json_of _ t = quote t

  -- The texts that a command line has inserted, with their paths.
  pub data Inserted (args : Args) : Str → Str → Type 0 where
    plugin : Inserted args (codes "plugins/lcm") (codes "{}")
    rest_port :
        (port : Str)
        → args.rest_http_port ≡ some port
        → Inserted args (codes "plugins/rest/http_port") ((b'"' ∷ port) ++ (b'"' ∷ []))
    setting :
        (s : Setting) (t : Str)
        → option_of args s ≡ some t
        → Inserted args (path_of s) (json_of s t)

  -- Zenoh's configuration takes what the command line asks for.
  pub record Accepts (args : Args) : Type 0 where
    pub edits :
        (e : Edit) → Asked args e → (c : ZenohConfig) → (c' : ZenohConfig) × (edit e c ≡ some c')
    pub inserts :
        (p t : Str)
        → Inserted args p t
        → (c : ZenohConfig) → (c' : ZenohConfig) × (insert_json5 p t c ≡ some c')

  abbrev Returns : (ZenohConfig → Run ZenohConfig) → Type 0
  Returns f = (c : ZenohConfig) → (c' : ZenohConfig) × (f c ≡ ok c')

  abbrev Succeeds : (ZenohConfig → Option ZenohConfig) → Type 0
  Succeeds op = (c : ZenohConfig) → (c' : ZenohConfig) × (op c ≡ some c')

  Returns-then :
      {f g : ZenohConfig → Run ZenohConfig} → Returns f → Returns g → Returns (λ c. f c >>= g)
  Returns-then h k c = let (d, first) = h c in let (c', second) = k d in (c', rw first second)

  Returns-unwrap :
      {op : ZenohConfig → Option ZenohConfig} → Succeeds op → Returns (λ c. unwrap (op c))
  Returns-unwrap h c = let (c', e) = h c in (c', rw e refl)

  Returns-if_given :
      {A : Type 0} (o : Option A) (op : A → ZenohConfig → Option ZenohConfig)
      → ((a : A) → o ≡ some a → Succeeds (op a))
      → Returns (if_given api o op)
  Returns-if_given none op h c = (c, refl)
  Returns-if_given (some a) op h c = Returns-unwrap (h a refl) c

  Returns-scouting :
      (b : Bool)
      → (b ≡ true → Succeeds (edit (set_multicast_scouting false)))
      → Returns (scouting api b)
  Returns-scouting false h c = (c, refl)
  Returns-scouting true h c = Returns-unwrap (h refl) c

  module _ (args : Args) (accepts : Accepts args) where
    Returns-add_lcm : Returns (add_lcm api)
    unfolding add_lcm
    Returns-add_lcm c = elim (Bool-cases (has_plugin (codes "lcm") c)) [
      | inl there ↦ (c, rw there refl)
      | inr new ↦ let (c', e) = accepts.inserts _ _ plugin c in (c', rw (new, e) refl)
    ]

    Returns-zenoh_args : Returns (zenoh_args api args)
    unfolding zenoh_args
    Returns-zenoh_args = Returns-then (Returns-if_given args.id _ (λ s. accepts.edits (set_id s))) (
        Returns-then (Returns-if_given args.mode _ (λ s. accepts.edits (set_mode s))) (
          Returns-then (Returns-if_given args.connect _ (λ l. accepts.edits (set_connect l))) (
            Returns-then (Returns-if_given args.listen _ (λ l. accepts.edits (set_listen l))) (
              Returns-then
                (Returns-scouting args.no_multicast_scouting
                  (λ h. accepts.edits (set_multicast_scouting false) (h, refl)))
                (Returns-then
                  (Returns-if_given args.rest_http_port _
                    (λ port h. accepts.inserts _ _ (rest_port port h)))
                  (Returns-then (Returns-unwrap (accepts.edits (set_timestamping true) refl)) (
                    Returns-then (Returns-unwrap (accepts.edits (set_adminspace true) refl))
                      (Returns-unwrap (accepts.edits (set_plugins_loading true) refl)))))))))

    Returns-lcm_args : Returns (lcm_args api args)
    unfolding lcm_args
    Returns-lcm_args =
        Returns-then
          (Returns-if_given args.lcm_url _ (λ t h. accepts.inserts _ _ (setting lcm_url t h)))
          (Returns-then
            (Returns-if_given args.key_prefix _
              (λ t h. accepts.inserts _ _ (setting key_prefix t h)))
            (Returns-then
              (Returns-if_given args.allow _ (λ t h. accepts.inserts _ _ (setting allow t h)))
              (Returns-then
                (Returns-if_given args.deny _ (λ t h. accepts.inserts _ _ (setting deny t h)))
                (Returns-then
                  (Returns-if_given args.network_interface _
                    (λ t h. accepts.inserts _ _ (setting network_interface t h)))
                  (Returns-if_given args.max_message_size _
                    (λ t h. accepts.inserts _ _ (setting max_message_size t h)))))))

    -- If the configuration file can be loaded and Zenoh's configuration takes all that the command line
    -- asks for, `parse_args` returns, and each setting of the plugin that has an option holds what the
    -- option gives, if it is given, and otherwise what the file gives, or the default configuration.
    pub parse_args-given :
        (base : ZenohConfig)
        → load api args ≡ ok base
        → (c : ZenohConfig) × (parse_args api args ≡ ok c)
          × ((s : Setting)
              → value_at (path_of s) c ≡ over api (given api args s) (value_at (path_of s) base))
    unfolding parse_args
    parse_args-given base loaded =
        let (c1, e1) =
          Returns-then Returns-add_lcm (Returns-then Returns-zenoh_args Returns-lcm_args) base in
        let result : parse_args api args ≡ ok c1 = rw loaded e1 in
        (c1, result, λ s. parse_args-value_at api args base c1 s loaded result)
