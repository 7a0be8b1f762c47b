-- ===== src/Transport/Protocol/Names.antt =====
-- The channel name in a datagram: the search of its terminator, and the cut there.
use native.Mathlib.Nat.{suc-add}
use zenoh_plugin_lcm.Base.{
  ℕ, suc, ◌+◌, ◌<◌, ◌≡◌, ◌≢◌, ◌⊎◌, inl, inr, refl, arith, Bytes, [], ◌∷◌, ◌++◌, none, some, ok,
  slice_from, slice_to, true, false, length, All, take, drop, slice_to_ok, slice_from_ok, ap,
}
use zenoh_plugin_lcm.Base.Str.{Str, from_utf8, is_utf8}
use zenoh_plugin_lcm.Transport.Protocol.{null_position}
use zenoh_plugin_lcm.Transport.Protocol.RoundTrip.{IsChannel}

-- The position found is that of the first null byte.
pub record IsNullAt (bs : Bytes) (i : ℕ) : Type 0 where
  pub inside : i < length bs
  pub parts : take i bs ++ (0 ∷ drop (i + 1) bs) ≡ bs
  pub before : All (λ b. b ≢ 0) (take i bs)

IsNullAt-cons : (b : ℕ) (bs : Bytes) (j : ℕ) → b ≢ 0 → IsNullAt bs j → IsNullAt (b ∷ bs) (suc j)
IsNullAt-cons b bs j h n = record {
  inside = omega (arith, n.inside);
  parts = rw suc-add (ap (◌∷◌ b) n.parts);
  before = (h, n.before);
}

null_position_cons :
    (b : ℕ) (bs : Bytes) (i : ℕ)
    → null_position (b ∷ bs) ≡ some i
    → ((b ≡ 0) × (i ≡ 0)) ⊎ ((b ≢ 0) × ((j : ℕ) × (null_position bs ≡ some j) × (i ≡ suc j)))
unfolding null_position
null_position_cons b bs i h = ground arith

null_position-IsNullAt : (bs : Bytes) (i : ℕ) → null_position bs ≡ some i → IsNullAt bs i
null_position-IsNullAt [] i h = unfold null_position in cc
null_position-IsNullAt (b ∷ bs) i h = elim (null_position_cons b bs i h) [
  | inl (e, z) ↦ rw (e, z) (record { inside = omega arith; parts = refl; before = tt })
  | inr (n, (j, e, z)) ↦ rw z (IsNullAt-cons b bs j n (null_position-IsNullAt bs j e))
]

-- What the parser reads behind a header: a name, its terminator and the payload.
pub record IsNameThen (bs : Bytes) (channel : Str) (payload : Bytes) : Type 0 where
  pub spelled : channel ++ (0 ∷ payload) ≡ bs
  pub is_channel : IsChannel channel

module _ (bs : Bytes) (i : ℕ) (e : null_position bs ≡ some i) where
  pub slice_to_null : slice_to bs i ≡ ok (take i bs)
  slice_to_null = slice_to_ok bs i (omega (arith, (null_position-IsNullAt bs i e).inside))

  pub slice_from_null : slice_from bs (i + 1) ≡ ok (drop (i + 1) bs)
  slice_from_null = slice_from_ok bs (i + 1) (omega (arith, (null_position-IsNullAt bs i e).inside))

  pub IsNameThen-null : is_utf8 (take i bs) ≡ true → IsNameThen bs (take i bs) (drop (i + 1) bs)
  IsNameThen-null u = record {
    spelled = (null_position-IsNullAt bs i e).parts;
    is_channel = record { utf8 = u; no_null = (null_position-IsNullAt bs i e).before };
  }

pub from_utf8_cases :
    (bs : Bytes)
    → ((is_utf8 bs ≡ true) × (from_utf8 bs ≡ some bs))
      ⊎ ((is_utf8 bs ≡ false) × (from_utf8 bs ≡ none))
unfolding from_utf8
from_utf8_cases bs = ground arith
