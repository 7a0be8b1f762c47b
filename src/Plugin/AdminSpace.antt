-- ===== src/Plugin/AdminSpace.antt =====
-- zenoh-plugin-lcm/src/lib.rs: what the plugin answers in Zenoh's admin space. The key expressions of
-- Zenoh and their intersection are a parameter.
use zenoh_plugin_lcm.Base.{
  ℕ, ◌≡◌, refl, arith, Bool, true, ◌||◌, List, [], ◌∷◌, ◌++◌, Option, none, some, length,
  length-append, take, take-append, drop, flatten, leb, ltb, Run, ok, panic, ◌>>=◌, unwrap,
  if◌then◌else◌,
}
use zenoh_plugin_lcm.Base.Str.{Str, codes}
use zenoh_plugin_lcm.Plugin.Config.{RegexApi, Config}

-- A byte that a character starts with.
abbrev starts_char : List ℕ → Bool
starts_char [] = true
starts_char (b ∷ s) = ltb b 0x80 || leb 0xc0 b

-- `String::truncate`, which panics inside a character.
truncate : ℕ → Str → Run Str
truncate n s =
    if leb (length s) n then ok s else if starts_char (drop n s) then ok (take n s) else panic

-- The closure gets the text and may change it.
with_extended_string {ℓ} : {R : Type ℓ} → Str → List Str → (Str → Run (R × Str)) → Run (R × Str)
unfolding truncate
with_extended_string prefix suffixes closure = do
  (result, key) ← closure (prefix ++ flatten suffixes)
  key' ← truncate (length prefix) key
  ok (result, key')

-- `keyexpr`: the check of a text, and whether two of them intersect.
pub record SelectorApi : Type 1 where
  pub Selector : Type 0
  pub new : Str → Option Selector
  pub intersects : Selector → Selector → Bool

module _ (regex : RegexApi) (keys : SelectorApi) where
  open keys use {Selector, new, intersects}

  -- The value of a response: the version of the plugin, or its configuration.
  pub data Value : Type 0 where
    version : Value
    config : Config regex → Value

  abbrev Responses : Type 0
  Responses = List (Str × Value)

  -- The body of a closure of `adminspace_getter`: a value that is there is pushed if the key intersects.
  answer : Selector → Option Value → Responses → Str → Run (Responses × Str)
  answer key_expr value responses key = do
    selector ← unwrap (new key)
    ok (
      if intersects selector key_expr
          then elim value [ none ↦ responses | some v ↦ responses ++ ((key, v) ∷ []) ]
          else responses,
      key,
    )

  abbrev config_value : Option (Config regex) → Option Value
  config_value none = none
  config_value (some c) = some (config c)

  -- The configuration is absent when its lock is poisoned.
  pub adminspace_getter : Option (Config regex) → Selector → Str → Run Responses
  unfolding with_extended_string answer
  adminspace_getter locked key_expr plugin_status_key = do
    (responses, key) ←
        with_extended_string plugin_status_key (codes "/version" ∷ [])
          (answer key_expr (some version) [])
    (responses', key') ←
        with_extended_string key (codes "/config" ∷ [])
          (answer key_expr (config_value locked) responses)
    ok responses'

  drop_prefix : (p s : Str) → drop (length p) (p ++ s) ≡ s
  drop_prefix [] s = refl
  drop_prefix (b ∷ p) s = drop_prefix p s

  truncate-append : (p : Str) (s : Str) → truncate (length p) (p ++ (b'/' ∷ s)) ≡ ok p
  unfolding truncate
  truncate-append p s =
      ground (arith, length-append p (b'/' ∷ s), drop_prefix p (b'/' ∷ s), take-append p (b'/' ∷ s))

  -- If Zenoh accepts the status key with `/version` and with `/config`, the answer is made without a
  -- panic, the second key without the first suffix: the version if the first key intersects, and then
  -- the configuration if it is there and the second key intersects.
  pub adminspace_getter_lem :
      (locked : Option (Config regex)) (key_expr at_version at_config : Selector) (status : Str)
      → new (status ++ codes "/version") ≡ some at_version
      → new (status ++ codes "/config") ≡ some at_config
      → adminspace_getter locked key_expr status
        ≡ ok (
            (if intersects at_version key_expr
              then (status ++ codes "/version", version) ∷ []
              else [])
            ++ (if intersects at_config key_expr
                then elim locked [ none ↦ [] | some c ↦ (status ++ codes "/config", config c) ∷ [] ]
                else []))
  unfolding adminspace_getter
  adminspace_getter_lem locked key_expr at_version at_config status a b =
      ground
        (arith, truncate-append status (codes "version"), truncate-append status (codes "config"))
