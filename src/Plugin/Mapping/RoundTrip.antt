-- ===== src/Plugin/Mapping/RoundTrip.antt =====
-- The two directions of the mapping undo one another.
use zenoh_plugin_lcm.Base.{
  ◌≡◌, ◌≢◌, ◌↔◌, refl, sym, ◌∙◌, arith, Bool, false, ◌||◌, [], ◌∷◌, ◌++◌, Option, none, some,
  ==_refl, append_assoc, Bool-cases, inl, inr, subst,
}
use zenoh_plugin_lcm.Base.Str.{Str, strip_prefix}
use zenoh_plugin_lcm.Plugin.Mapping.{
  KeyExprApi, ok, contains, with_slash, lcm_channel_to_key_expr, key_expr_to_lcm_channel, converted,
  stripped,
}

strip_prefix-append : (p s : Str) → strip_prefix p (p ++ s) ≡ some s
unfolding strip_prefix
strip_prefix-append [] s = refl
strip_prefix-append (b ∷ p) s = rw ==_refl (strip_prefix-append p s)

strip_prefix-eq-some : (p s rest : Str) → strip_prefix p s ≡ some rest → s ≡ p ++ rest
unfolding strip_prefix
strip_prefix-eq-some [] s rest e = cc
strip_prefix-eq-some (c ∷ p) [] rest e = cc
strip_prefix-eq-some (c ∷ p) (b ∷ s) rest e = ground (arith, strip_prefix-eq-some p s rest)

strip_prefix_iff : (p s rest : Str) → (strip_prefix p s ≡ some rest) ↔ (s ≡ p ++ rest)
strip_prefix_iff p s rest = (
  strip_prefix-eq-some p s rest,
  λ e. subst (λ x. strip_prefix p x ≡ some rest) (sym e) (strip_prefix-append p rest),
)

-- A channel that Zenoh's reserved characters do not rule out.
abbrev pub has_reserved : Str → Bool
has_reserved channel = contains b'*' channel || contains b'#' channel || contains b'$' channel

module _ (api : KeyExprApi) where
  open api use {KeyExpr, try_from, as_str, as_str-try_from, try_from-as_str}

  stripped-eq-ok :
      (o : Option Str) (channel : Str)
      → stripped api o ≡ ok channel
      → (o ≡ some channel) × (channel ≢ [])
  unfolding stripped
  stripped-eq-ok none channel e = cc
  stripped-eq-ok (some []) channel e = cc
  stripped-eq-ok (some (c ∷ rest)) channel e = (ground arith, ground arith)

  stripped-some : (channel : Str) → channel ≢ [] → stripped api (some channel) ≡ ok channel
  unfolding stripped
  stripped-some [] ne = absurd (ne refl)
  stripped-some (c ∷ rest) ne = refl

  converted-eq-ok : (o : Option KeyExpr) (k : KeyExpr) → converted api o ≡ ok k → o ≡ some k
  unfolding converted
  converted-eq-ok none k e = cc
  converted-eq-ok (some l) k e = ground arith

  -- A key expression gives a channel exactly when it is the prefix, a slash and that channel, and the
  -- channel is not empty.
  pub key_expr_to_lcm_channel_iff :
      (k : KeyExpr) (prefix channel : Str)
      → (key_expr_to_lcm_channel api k prefix ≡ ok channel)
        ↔ ((as_str k ≡ prefix ++ (b'/' ∷ channel)) × (channel ≢ []))
  unfolding key_expr_to_lcm_channel
  key_expr_to_lcm_channel_iff k prefix channel = (
    λ e.
        let (found, ne) = stripped-eq-ok (strip_prefix (with_slash prefix) (as_str k)) channel e in
        (
          strip_prefix-eq-some (with_slash prefix) (as_str k) channel found
              ∙ append_assoc prefix (b'/' ∷ []) channel,
          ne,
        ),
    λ (named, ne).
        rw
          (
            named,
            sym (append_assoc prefix (b'/' ∷ []) channel),
            strip_prefix-append (with_slash prefix) channel,
          )
          (stripped-some channel ne),
  )

  -- A channel gives a key expression exactly when it is not empty, has no reserved character, and Zenoh
  -- accepts the prefix, a slash and the channel as that key expression.
  pub lcm_channel_to_key_expr_iff :
      (channel prefix : Str) (k : KeyExpr)
      → (lcm_channel_to_key_expr api channel prefix ≡ ok k) ↔ (
          (has_reserved channel ≡ false)
          × (channel ≢ [])
          × (try_from (prefix ++ (b'/' ∷ channel)) ≡ some k))
  unfolding lcm_channel_to_key_expr converted
  lcm_channel_to_key_expr_iff [] prefix k = (λ e. ground arith, λ (a, b, c). absurd (b refl))
  lcm_channel_to_key_expr_iff (c ∷ channel) prefix k = (
    λ e. elim (Bool-cases (has_reserved (c ∷ channel))) [
      | inl bad ↦ ground arith
      | inr plain ↦ (plain, ground arith, converted-eq-ok _ k (ground arith))
    ],
    λ (a, b, e). ground arith,
  )

  -- A key expression that a channel is published under leads back to that channel.
  pub lcm_channel-round-trip :
      (channel prefix : Str) (k : KeyExpr)
      → lcm_channel_to_key_expr api channel prefix ≡ ok k
      → key_expr_to_lcm_channel api k prefix ≡ ok channel
  lcm_channel-round-trip channel prefix k e =
      let (_, ne, made) = (lcm_channel_to_key_expr_iff channel prefix k).0 e in
      (key_expr_to_lcm_channel_iff k prefix channel).1 (as_str-try_from _ k made, ne)

  -- A channel that a key expression leads to is published under that key expression, unless it has a
  -- reserved character.
  pub key_expr-round-trip :
      (k : KeyExpr) (prefix channel : Str)
      → key_expr_to_lcm_channel api k prefix ≡ ok channel
      → has_reserved channel ≡ false
      → lcm_channel_to_key_expr api channel prefix ≡ ok k
  key_expr-round-trip k prefix channel e plain =
      let (named, ne) = (key_expr_to_lcm_channel_iff k prefix channel).0 e in
      (lcm_channel_to_key_expr_iff channel prefix k).1
        (plain, ne, subst (λ s. try_from s ≡ some k) named (try_from-as_str k))
