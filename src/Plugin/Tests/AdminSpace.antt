-- ===== src/Plugin/Tests/AdminSpace.antt =====
-- The admin space at a concrete status key.
use zenoh_plugin_lcm.Base.{◌≡◌, refl, true, [], ◌∷◌, some, ok}
use zenoh_plugin_lcm.Base.Str.{Str, codes}
use zenoh_plugin_lcm.Plugin.AdminSpace.{
  SelectorApi, version, config, adminspace_getter, adminspace_getter_lem,
}
use zenoh_plugin_lcm.Plugin.Tests.{prefixes, deny_d}

-- Every text is accepted, and all intersect.
abbrev everything : SelectorApi
everything = record { Selector = Str; new = some; intersects = λ a b. true }

adminspace_getter_lem_example :
    adminspace_getter prefixes everything (some deny_d) (codes "**") (codes "p")
    ≡ ok ((codes "p/version", version) ∷ (codes "p/config", config deny_d) ∷ [])
adminspace_getter_lem_example =
    adminspace_getter_lem prefixes everything (some deny_d) (codes "**") (codes "p/version")
      (codes "p/config") (codes "p") refl refl
