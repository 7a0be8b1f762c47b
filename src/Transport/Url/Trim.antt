-- ===== src/Transport/Url/Trim.antt =====
-- The two passes of `trim` come to an end.
use zenoh_plugin_lcm.Base.{
  ℕ, zero, suc, ◌+◌, ◌≤◌, ◌<◌, ◌≡◌, arith, List, [], ◌∷◌, none, some, length, All, Option-cases,
  inl, inr,
}
use zenoh_plugin_lcm.Base.Str.{Str, strip_prefix}
use zenoh_plugin_lcm.Transport.Url.{strip_one, trim_front}

length-strip_prefix : (p s t : Str) → strip_prefix p s ≡ some t → length s ≡ length p + length t
unfolding strip_prefix
length-strip_prefix [] s t e = ground arith
length-strip_prefix (p ∷ ps) [] t e = cc
length-strip_prefix (p ∷ ps) (b ∷ s) t e = ground (arith, length-strip_prefix ps s t)

abbrev IsSolid : Str → Type 0
IsSolid c = 0 < length c

strip_one_shorter :
    (cs : List Str) (s t : Str) → All IsSolid cs → strip_one cs s ≡ some t → length t < length s
strip_one_shorter [] s t h e = cc
strip_one_shorter (c ∷ cs) s t h e =
    ground (arith, strip_one_shorter cs s t h.1, length-strip_prefix c s t, h.0)

-- With one round for each byte, the loop stops since no character of the list is in front.
strip_one-trim_front :
    (fuel : ℕ) (cs : List Str) (s : Str)
    → All IsSolid cs
    → length s ≤ fuel
    → strip_one cs (trim_front fuel cs s) ≡ none
unfolding trim_front
strip_one-trim_front zero cs [] h k = elim (Option-cases (strip_one cs [])) [
  | inl stuck ↦ stuck
  | inr (t, more) ↦ absurd (omega (arith, strip_one_shorter cs [] t h more))
]
strip_one-trim_front zero cs (b ∷ s) h k = absurd (omega arith)
strip_one-trim_front (suc fuel) cs s h k = elim (Option-cases (strip_one cs s)) [
  | inl stuck ↦ ground arith
  | inr (t, more) ↦
      ground
        (arith, strip_one-trim_front fuel cs t h (omega (arith, strip_one_shorter cs s t h more)))
]
