-- ===== src/Transport/Fragment/Accept.antt =====
-- What `accept` does with a fragment: it takes it and changes the set, or leaves the set alone.
use zenoh_plugin_lcm.Base.{
  ℕ, zero, suc, ◌+◌, ◌≤◌, ◌<◌, ◌^◌, ◌≡◌, ◌⊎◌, inl, inr, refl, arith, Bytes, Bool, true, false, List,
  [], ◌∷◌, ◌++◌, Option, some, ◌&&◌, ap, ◌∙◌, ltb, leb, ◌==◌, length, Bool-cases, ok,
  copy_from_slice_ok, get_elem?, set, take, drop, length-append, length-take, length-drop,
  length-set,
}
use zenoh_plugin_lcm.Transport.Protocol.{Fragment}
use zenoh_plugin_lcm.Transport.Fragment.{FragmentSet, accept}

-- How many fragments a mask counts.
abbrev pub count : List Bool → ℕ
count [] = 0
count (true ∷ m) = suc (count m)
count (false ∷ m) = count m

pub count-le-length : (m : List Bool) → count m ≤ length m
count-le-length [] = omega arith
count-le-length (true ∷ m) = omega (arith, count-le-length m)
count-le-length (false ∷ m) = omega (arith, count-le-length m)

pub count-set :
    (m : List Bool) (i : ℕ) → get_elem? m i ≡ some false → count (set m i true) ≡ suc (count m)
count-set [] i h = cc
count-set (true ∷ m) zero h = cc
count-set (false ∷ m) zero h = refl
count-set (true ∷ m) (suc i) h = ap suc (count-set m i h)
count-set (false ∷ m) (suc i) h = count-set m i h

-- `buffer[offset..end]` replaced.
abbrev pub overwrite : Bytes → ℕ → Bytes → Bytes
overwrite buffer offset chunk = take offset buffer ++ (chunk ++ drop (offset + length chunk) buffer)

length-overwrite :
    (buffer : Bytes) (offset : ℕ) (chunk : Bytes)
    → offset + length chunk ≤ length buffer
    → length (overwrite buffer offset chunk) ≡ length buffer
length-overwrite buffer offset chunk h = omega (
  arith,
  length-append (take offset buffer) (chunk ++ drop (offset + length chunk) buffer),
  length-append chunk (drop (offset + length chunk) buffer),
  length-take offset buffer,
  length-drop (offset + length chunk) buffer,
)

-- A set whose buffer and mask have the sizes that its metadata give, and whose counter counts the
-- mask. It waits for a fragment, unless it has none.
pub record IsSound (s : FragmentSet) : Type 0 where
  pub buffered : length s.buffer ≡ s.payload_size
  pub masked : length s.received_mask ≡ s.n_fragments
  pub counted : count s.received_mask ≡ s.fragments_received
  pub fits : s.n_fragments < 2 ^ 16

-- A fragment that the set still wants: the same metadata, a number in range that was not seen, and
-- data inside the buffer.
pub record Wants (f : Fragment) (s : FragmentSet) : Type 0 where
  pub same_size : f.payload_size ≡ s.payload_size
  pub same_count : f.n_fragments ≡ s.n_fragments
  pub numbered : f.fragment_number < s.n_fragments
  pub unseen : get_elem? s.received_mask f.fragment_number ≡ some false
  pub inside : f.fragment_offset + length f.payload ≤ s.payload_size

-- The set with the fragment in it.
abbrev pub taken_set : Fragment → FragmentSet → FragmentSet
taken_set f s = record s {
  fragments_received = s.fragments_received + 1;
  buffer = overwrite s.buffer f.fragment_offset f.payload;
  received_mask = set s.received_mask f.fragment_number true;
}

pub taken_set-IsSound :
    (f : Fragment) (s : FragmentSet) → IsSound s → Wants f s → IsSound (taken_set f s)
taken_set-IsSound f s v w = record {
  buffered =
      omega (arith, length-overwrite s.buffer f.fragment_offset f.payload, v.buffered, w.inside);
  masked = length-set s.received_mask f.fragment_number true ∙ v.masked;
  counted = omega (arith, count-set s.received_mask f.fragment_number w.unseen, v.counted);
  fits = v.fits;
}

-- A wanted fragment is taken, with no index or slice out of range and no overflow of the counter.
accept_wanted :
    (f : Fragment) (s : FragmentSet) → IsSound s → Wants f s → accept f s ≡ ok (taken_set f s, true)
unfolding accept
accept_wanted f s v w = ground (
  arith,
  copy_from_slice_ok s.buffer f.fragment_offset f.payload,
  count-le-length (set s.received_mask f.fragment_number true),
  count-set s.received_mask f.fragment_number w.unseen,
  length-set s.received_mask f.fragment_number true,
)

is_unseen : Option Bool → Bool
is_unseen (some false) = true
is_unseen _ = false

wanted : Fragment → FragmentSet → Bool
unfolding is_unseen
wanted f s =
    f.payload_size == s.payload_size
    && f.n_fragments == s.n_fragments
    && ltb f.fragment_number s.n_fragments
    && is_unseen (get_elem? s.received_mask f.fragment_number)
    && leb (f.fragment_offset + length f.payload) s.payload_size

wanted-Wants : (f : Fragment) (s : FragmentSet) → wanted f s ≡ true → Wants f s
unfolding wanted
wanted-Wants f s h = ground arith

Wants-wanted : (f : Fragment) (s : FragmentSet) → Wants f s → wanted f s ≡ true
unfolding wanted
Wants-wanted f s w = ground arith

index-ok-or-large :
    (m : List Bool) (i : ℕ) → (length m ≤ i) ⊎ ((b : Bool) × (get_elem? m i ≡ some b))
index-ok-or-large [] i = inl (omega arith)
index-ok-or-large (b ∷ m) zero = inr (b, refl)
index-ok-or-large (b ∷ m) (suc i) = elim (index-ok-or-large m i) [
  | inl h ↦ inl (omega arith)
  | inr h ↦ inr h
]

accept_unwanted :
    (f : Fragment) (s : FragmentSet) → IsSound s → wanted f s ≡ false → accept f s ≡ ok (s, false)
unfolding accept wanted
accept_unwanted f s v h = ground (arith, index-ok-or-large s.received_mask f.fragment_number)

-- On a well-formed set `accept` never panics. It takes the fragment exactly when the set wants it, and
-- returns the set unchanged otherwise.
pub accept_cases :
    (f : Fragment) (s : FragmentSet)
    → IsSound s
    → (Wants f s × (accept f s ≡ ok (taken_set f s, true)))
      ⊎ ((¬ Wants f s) × (accept f s ≡ ok (s, false)))
accept_cases f s v = elim (Bool-cases (wanted f s)) [
  | inl h ↦ let w = wanted-Wants f s h in inl (w, accept_wanted f s v w)
  | inr h ↦ inr (λ w. cc (Wants-wanted f s w), accept_unwanted f s v h)
]
