-- ===== src/Plugin/Json.antt =====
-- `serde_json::Value`, which the configuration is read from and written to.
use zenoh_plugin_lcm.Base.{
  ℕ, Bool, true, false, ◌&&◌, ◌||◌, List, [], ◌∷◌, Option, none, some, if◌then◌else◌,
}
use zenoh_plugin_lcm.Base.Str.{Str, same_text}

-- A number is known by what `as_u64` says of it.
mutual
  pub data Value : Type 0 where
    null : Value
    boolean : Bool → Value
    number : Option ℕ → Value
    text : Str → Value
    array : Values → Value
    object : Fields → Value

  pub data Values : Type 0 where
    nil : Values
    cons : Value → Values → Values

  -- The entries of a map, each key once.
  pub data Fields : Type 0 where
    end : Fields
    field : Str → Value → Fields → Fields

-- `Map::get`
unfoldable pub get : Str → Fields → Option Value
get key end = none
get key (field k v fields) = if same_text k key then some v else get key fields

-- Whether every key is one of a list.
unfoldable pub one_of : List Str → Str → Bool
one_of [] key = false
one_of (k ∷ keys) key = same_text k key || one_of keys key

unfoldable pub only_keys : List Str → Fields → Bool
only_keys known end = true
only_keys known (field k v fields) = one_of known k && only_keys known fields
