-- ===== src/Plugin/Mapping.antt =====
-- zenoh-plugin-lcm/src/mapping.rs: channel names to key expressions and back. Zenoh's key expressions
-- are a parameter.
pub mod RoundTrip
use zenoh_plugin_lcm.Base.{
  ℕ, ◌≡◌, Bool, true, false, ◌||◌, List, [], ◌∷◌, ◌++◌, Option, none, some, ◌==◌, if◌then◌else◌,
}
use zenoh_plugin_lcm.Base.Str.{Str, strip_prefix}

-- `zenoh::key_expr::KeyExpr`: the conversion from a text checks it and keeps it as it is.
pub record KeyExprApi : Type 1 where
  pub KeyExpr : Type 0
  pub try_from : Str → Option KeyExpr
  pub as_str : KeyExpr → Str
  pub as_str-try_from : (s : Str) (k : KeyExpr) → try_from s ≡ some k → as_str k ≡ s
  pub try_from-as_str : (k : KeyExpr) → try_from (as_str k) ≡ some k

pub data MappingError : Type 0 where
  reserved_character empty_channel invalid_key_expr wrong_prefix : MappingError

-- `zenoh::Result`
pub data ZResult {ℓ} (A : Type ℓ) : Type ℓ where
  ok : A → ZResult A
  err : MappingError → ZResult A

-- `str::contains` of an ASCII character.
unfoldable pub contains : ℕ → Str → Bool
contains c [] = false
contains c (b ∷ s) = b == c || contains c s

abbrev is_empty : Str → Bool
is_empty [] = true
is_empty (b ∷ s) = false

-- `format!("{prefix}/")`
abbrev pub with_slash : Str → Str
with_slash prefix = prefix ++ (b'/' ∷ [])

module _ (api : KeyExprApi) where
  open api use {KeyExpr, try_from, as_str}

  unfoldable pub converted : Option KeyExpr → ZResult KeyExpr
  converted none = err invalid_key_expr
  converted (some k) = ok k

  unfoldable pub lcm_channel_to_key_expr : Str → Str → ZResult KeyExpr
  unfolding converted
  lcm_channel_to_key_expr channel prefix =
      if contains b'*' channel || contains b'#' channel || contains b'$' channel
      then err reserved_character
      else if is_empty channel
      then err empty_channel
      else converted (try_from (prefix ++ (b'/' ∷ channel)))

  unfoldable pub stripped : Option Str → ZResult Str
  stripped none = err wrong_prefix
  stripped (some channel) = if is_empty channel then err empty_channel else ok channel

  unfoldable pub key_expr_to_lcm_channel : KeyExpr → Str → ZResult Str
  unfolding stripped
  key_expr_to_lcm_channel key_expr prefix =
      stripped (strip_prefix (with_slash prefix) (as_str key_expr))
