-- ===== src/Transport/Fragment/Arrival.antt =====
-- How a fragment of a transfer changes a set that refines an abstract state.
use zenoh_plugin_lcm.Base.{
  ℕ, zero, suc, ◌≤◌, ◌<◌, ◌≡◌, refl, sym, arith, Bytes, Bool, true, false, List, [], ◌∷◌, some, ap,
  ◌∙◌, length, set, replicate, get_elem?,
}
use zenoh_plugin_lcm.Base.Str.{Str}
use zenoh_plugin_lcm.Transport.Fragment.{FragmentSet, new_set, store_channel}
use zenoh_plugin_lcm.Transport.Fragment.Accept.{
  IsSound, Wants, taken_set, taken_set-IsSound, count, overwrite,
}
use zenoh_plugin_lcm.Transport.Fragment.Process.{count-replicate}
use zenoh_plugin_lcm.Transport.Fragment.Render.{
  chunk_at, offset_of, render_fresh, overwrite-render, chunk_fits,
}
use zenoh_plugin_lcm.Transport.Fragment.Transfer.{
  Transfer, total, fragment_of, none_seen, seen_channel, Refines,
}

pub Refines-new :
    (t : Transfer) (start created i : ℕ)
    → start ≤ created
    → Refines t start [] (none_seen t) (new_set (fragment_of t i) created)
unfolding new_set
Refines-new t start created i h = record {
  named = refl;
  sized = refl;
  counted = refl;
  received = sym (count-replicate (total t));
  filled = sym (render_fresh t.chunks);
  marked = refl;
  recent = h;
}

pub seen_channel_none : (t : Transfer) → seen_channel t (none_seen t) ≡ []
seen_channel_none t = none_in t.chunks
  where
    none_in : (cs : List Bytes) → seen_channel t (replicate (length cs) false) ≡ []
    none_in [] = refl
    none_in (c ∷ cs) = refl

-- Storing the channel of fragment `i` brings the name up to date with the mark.
pub Refines-store_channel :
    (t : Transfer) (start i : ℕ) (mask : List Bool) (s : FragmentSet)
    → i < length mask
    → Refines t start (seen_channel t mask) mask s
    → Refines t start (seen_channel t (set mask i true)) mask (store_channel (fragment_of t i) s)
unfolding store_channel
Refines-store_channel t start i [] s h v = absurd (omega arith)
Refines-store_channel t start zero (b ∷ mask) s h v = ground arith
Refines-store_channel t start (suc i) (true ∷ mask) s h v = ground arith
Refines-store_channel t start (suc i) (false ∷ mask) s h v = ground arith

-- A fragment of the transfer is wanted unless it is marked already.
pub Wants-unless-marked :
    (t : Transfer) (start i : ℕ) (channel : Str) (mask : List Bool) (s : FragmentSet)
    → length mask ≡ total t
    → i < total t
    → Refines t start channel mask s
    → ¬ Wants (fragment_of t i) s
    → set mask i true ≡ mask
Wants-unless-marked t start i channel mask s h k v unwanted = marked_already mask i λ unseen.
    unwanted (record {
      same_size = sym v.sized;
      same_count = sym v.counted;
      numbered = omega (arith, v.counted);
      unseen = ap (λ (m : List Bool). get_elem? m i) v.marked ∙ unseen;
      inside = omega (arith, chunk_fits t.chunks i k, v.sized);
    })
  where
    marked_already : (m : List Bool) (j : ℕ) → ¬ (get_elem? m j ≡ some false) → set m j true ≡ m
    marked_already [] j n = refl
    marked_already (true ∷ m) zero n = refl
    marked_already (false ∷ m) zero n = absurd (n refl)
    marked_already (b ∷ m) (suc j) n = ap (◌∷◌ b) (marked_already m j n)

-- Taking fragment `i` marks it.
pub Refines-taken_set :
    (t : Transfer) (start i : ℕ) (channel : Str) (mask : List Bool) (s : FragmentSet)
    → length mask ≡ total t
    → i < total t
    → IsSound s
    → Refines t start channel mask s
    → Wants (fragment_of t i) s
    → Refines t start channel (set mask i true) (taken_set (fragment_of t i) s)
Refines-taken_set t start i channel mask s h k p v w = record {
  named = v.named;
  sized = v.sized;
  counted = v.counted;
  received =
      sym (taken_set-IsSound (fragment_of t i) s p w).counted
      ∙ ap (λ (m : List Bool). count (set m i true)) v.marked;
  filled =
      ap (λ (b : Bytes). overwrite b (offset_of t.chunks i) (chunk_at t.chunks i)) v.filled
      ∙ overwrite-render mask t.chunks i h k;
  marked = ap (λ (m : List Bool). set m i true) v.marked;
  recent = v.recent;
}
