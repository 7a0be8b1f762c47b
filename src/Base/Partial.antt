-- ===== src/Base/Partial.antt =====
-- Rust code that may panic (an index or a slice out of range, `unwrap` of `None`, an overflowing
-- addition), and the operator `?` in a function that returns `Option`.
use Prim.Native.Nat.{ℕ, ◌+◌, ◌-◌, ◌≤◌}
use mathlib.Core.Path.{◌≡◌, refl}
use mathlib.Core.Bool.{◌&&◌}
use mathlib.Core.List.{List, ◌++◌}
use mathlib.Core.Option.{Option, none, some}
use native.Mathlib.Omega.{arith}
use native.Mathlib.Nat.{add-sub_cancel_left}
use zenoh_plugin_lcm.Base.Tests.{leb, ltb, ◌==◌, if◌then◌else◌, le→leb, ==_refl}
use zenoh_plugin_lcm.Base.Lists.{length, get_elem?, set, take, drop}

pub data Run {ℓ} (A : Type ℓ) : Type ℓ where
  ok : A → Run A
  panic : Run A

infixl 5 ◌>>=◌
abbrev pub ◌>>=◌ {ℓ κ} : {A : Type ℓ} {B : Type κ} → Run A → (A → Run B) → Run B
ok a >>= f = f a
panic >>= f = panic

-- What a bind that returned comes from.
pub >>=-eq-ok {ℓ κ} :
    {A : Type ℓ} {B : Type κ} (r : Run A) (f : A → Run B) (b : B)
    → r >>= f ≡ ok b
    → (a : A) × (r ≡ ok a) × (f a ≡ ok b)
>>=-eq-ok (ok a) f b e = (a, refl, e)
>>=-eq-ok panic f b e = cc

-- `e?`: an absent value ends the function with `None`.
abbrev pub try_with {ℓ κ} :
    {A : Type ℓ} {B : Type κ} → Option A → (A → Run (Option B)) → Run (Option B)
try_with none f = ok none
try_with (some a) f = f a

abbrev pub unwrap {ℓ} : {A : Type ℓ} → Option A → Run A
unwrap none = panic
unwrap (some a) = ok a

module _ {ℓ} {A : Type ℓ} where
  -- `xs[i]`
  abbrev pub index : List A → ℕ → Run A
  index xs i = unwrap (get_elem? xs i)

  -- `xs[i] = v`
  abbrev pub index_set : List A → ℕ → A → Run (List A)
  index_set xs i v = if ltb i (length xs) then ok (set xs i v) else panic

  -- `&xs[n..]`
  abbrev pub slice_from : List A → ℕ → Run (List A)
  slice_from xs n = if leb n (length xs) then ok (drop n xs) else panic

  -- `&xs[..n]`
  abbrev pub slice_to : List A → ℕ → Run (List A)
  slice_to xs n = if leb n (length xs) then ok (take n xs) else panic

  -- `&xs[a..b]`
  abbrev pub slice : List A → ℕ → ℕ → Run (List A)
  slice xs a b = if leb a b && leb b (length xs) then ok (take (b - a) (drop a xs)) else panic

  -- `xs[a..b].copy_from_slice(ys)`
  abbrev pub copy_from_slice : List A → ℕ → ℕ → List A → Run (List A)
  copy_from_slice xs a b ys =
      if leb a b && leb b (length xs) && (b - a == length ys)
      then ok (take a xs ++ (ys ++ drop b xs))
      else panic

  pub slice_from_ok : (xs : List A) (n : ℕ) → n ≤ length xs → slice_from xs n ≡ ok (drop n xs)
  slice_from_ok xs n h = ground arith

  pub slice_to_ok : (xs : List A) (n : ℕ) → n ≤ length xs → slice_to xs n ≡ ok (take n xs)
  slice_to_ok xs n h = ground arith

  pub slice_ok :
      (xs : List A) (a b : ℕ) → a ≤ b → b ≤ length xs → slice xs a b ≡ ok (take (b - a) (drop a xs))
  slice_ok xs a b h k = rw (le→leb a b h, le→leb b (length xs) k)

  pub copy_from_slice_ok :
      (xs : List A) (a : ℕ) (ys : List A)
      → a + length ys ≤ length xs
      → copy_from_slice xs a (a + length ys) ys ≡ ok (take a xs ++ (ys ++ drop (a + length ys) xs))
  copy_from_slice_ok xs a ys h = rw (
    le→leb a (a + length ys) (omega arith),
    le→leb (a + length ys) (length xs) h,
    add-sub_cancel_left a (length ys),
    ==_refl (length ys),
  )
