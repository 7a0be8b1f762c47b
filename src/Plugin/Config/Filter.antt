-- ===== src/Plugin/Config/Filter.antt =====
-- The channel filter, and what becomes of it when the configuration is written out and read again.
use zenoh_plugin_lcm.Base.{◌≡◌, ◌↔◌, refl, arith, true, false, Option, none, some}
use zenoh_plugin_lcm.Base.Str.{Str}
use zenoh_plugin_lcm.Plugin.Config.{
  RegexApi, Config, is_allowed, filter, deserialize_regex, serialize_allow, serialize_deny,
}

module _ (api : RegexApi) where
  open api use {Regex, new, is_match, to_string, new-to_string, new_any, new_empty}

  filter_iff :
      (allow deny : Option Regex) (channel : Str)
      → (filter api allow deny channel ≡ true) ↔ (
          ((re : Regex) → allow ≡ some re → is_match re channel ≡ true)
          × ((re : Regex) → deny ≡ some re → is_match re channel ≡ false))
  unfolding filter
  filter_iff (some a) none channel = (λ h. (λ re e. cc, λ re e. cc), λ (h, k). h a refl)
  filter_iff none (some d) channel =
      (λ h. (λ re e. cc, λ re e. ground arith), λ (h, k). ground (arith, k d refl))
  filter_iff (some a) (some d) channel = (
    λ h. (λ re e. ground arith, λ re e. ground arith),
    λ (h, k). ground (arith, h a refl, k d refl),
  )
  filter_iff none none channel = (λ h. (λ re e. cc, λ re e. cc), λ h. refl)

  -- A channel passes exactly when it matches the allow expression, if there is one, and does not match
  -- the deny expression, if there is one.
  pub is_allowed_iff :
      (channel : Str) (c : Config api)
      → (is_allowed api channel c ≡ true) ↔ (
          ((re : Regex) → c.allow ≡ some re → is_match re channel ≡ true)
          × ((re : Regex) → c.deny ≡ some re → is_match re channel ≡ false))
  unfolding is_allowed
  is_allowed_iff channel c = filter_iff c.allow c.deny channel

  unfoldable with_filters :
      Config api → Option (Option Regex) → Option (Option Regex) → Option (Config api)
  with_filters c none deny = none
  with_filters c (some allow) none = none
  with_filters c (some allow) (some deny) = some (record c { allow = allow; deny = deny })

  -- The configuration with the two filters written out and read again, if both texts compile.
  unfoldable pub reload : Config api → Option (Config api)
  unfolding with_filters
  reload c =
      with_filters c (deserialize_regex api (some (serialize_allow api c.allow)))
        (deserialize_regex api (some (serialize_deny api c.deny)))

  -- A configuration with a deny expression keeps its filter when it is written out and read again.
  pub is_allowed-reload :
      (c : Config api) (deny : Regex) (channel : Str)
      → c.deny ≡ some deny
      → (c' : Config api) × (reload c ≡ some c')
        × (is_allowed api channel c' ≡ is_allowed api channel c)
  unfolding reload is_allowed filter deserialize_regex serialize_allow serialize_deny
  is_allowed-reload c deny channel e = by_allow c.allow refl
    where
      by_allow :
          (o : Option Regex)
          → c.allow ≡ o
          → (c' : Config api) × (reload c ≡ some c')
            × (is_allowed api channel c' ≡ is_allowed api channel c)
      by_allow none a =
          let (any, compiles, matches) = new_any in
          let (deny', recompiles, same) = new-to_string deny in
          (
            record c { allow = some any; deny = some deny' },
            ground arith,
            ground (arith, matches channel, same channel),
          )
      by_allow (some allow) a =
          let (allow', compiles, matches) = new-to_string allow in
          let (deny', recompiles, same) = new-to_string deny in
          (
            record c { allow = some allow'; deny = some deny' },
            ground arith,
            ground (arith, matches channel, same channel),
          )

  -- A configuration without a deny expression does not: read again, it lets no channel pass.
  pub reload_denies_all :
      (c : Config api) (channel : Str)
      → c.deny ≡ none
      → (c' : Config api) × (reload c ≡ some c') × (is_allowed api channel c' ≡ false)
  unfolding reload is_allowed filter deserialize_regex serialize_allow serialize_deny
  reload_denies_all c channel e = by_allow c.allow refl
    where
      by_allow :
          (o : Option Regex)
          → c.allow ≡ o
          → (c' : Config api) × (reload c ≡ some c') × (is_allowed api channel c' ≡ false)
      by_allow none a =
          let (any, compiles, matches) = new_any in
          let (deny', recompiles, same) = new_empty in
          (
            record c { allow = some any; deny = some deny' },
            ground arith,
            ground (arith, matches channel, same channel),
          )
      by_allow (some allow) a =
          let (allow', compiles, matches) = new-to_string allow in
          let (deny', recompiles, same) = new_empty in
          (
            record c { allow = some allow'; deny = some deny' },
            ground arith,
            ground (arith, matches channel, same channel),
          )
