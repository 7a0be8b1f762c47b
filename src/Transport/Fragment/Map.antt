-- ===== src/Transport/Fragment/Map.antt =====
-- The map of pending fragment sets: what its operations do to a lookup.
use zenoh_plugin_lcm.Base.{
  ℕ, ◌≡◌, ◌≢◌, ◌↔◌, inl, inr, refl, sym, ◌∙◌, subst, arith, true, [], ◌∷◌, Option, none, some,
  if◌then◌else◌, Bool-cases,
}
use zenoh_plugin_lcm.Transport.Fragment.{
  SocketAddr, v4, v6, addr_eq, FragmentKey, key_eq, FragmentSet, Pending, lookup, insert, remove,
  is_stale, retain_fresh,
}

addr_eq_iff : (a b : SocketAddr) → (addr_eq a b ≡ true) ↔ (a ≡ b)
addr_eq_iff (v4 a p) (v4 b q) = ground arith
addr_eq_iff (v4 a p) (v6 b q g t) = ground arith
addr_eq_iff (v6 a p f s) (v4 b q) = ground arith
addr_eq_iff (v6 a p f s) (v6 b q g t) = ground arith

pub key_eq_iff : (j k : FragmentKey) → (key_eq j k ≡ true) ↔ (j ≡ k)
unfolding key_eq
key_eq_iff (a, m) (b, n) = ground (arith, addr_eq_iff a b)

pub key_eq_refl : (k : FragmentKey) → key_eq k k ≡ true
key_eq_refl k = (key_eq_iff k k).1 refl

pub lookup-insert :
    (k j : FragmentKey) (s : FragmentSet) (m : Pending)
    → lookup j (insert k s m) ≡ (if key_eq k j then some s else lookup j m)
unfolding lookup insert
lookup-insert k j s [] = refl
lookup-insert k j s ((i, t) ∷ m) =
    ground (arith, key_eq_iff k j, key_eq_iff i k, key_eq_iff i j, lookup-insert k j s m)

pub lookup-remove_ne :
    (k j : FragmentKey) (m : Pending) → k ≢ j → lookup j (remove k m) ≡ lookup j m
unfolding lookup remove
lookup-remove_ne k j [] h = refl
lookup-remove_ne k j ((i, t) ∷ m) h =
    ground (arith, key_eq_iff i k, key_eq_iff i j, lookup-remove_ne k j m h)

-- Each key stands once.
abbrev pub Unique : Pending → Type 0
Unique [] = Unit {0}
Unique ((k, s) ∷ m) = (lookup k m ≡ none) × Unique m

pub lookup-remove_self : (k : FragmentKey) (m : Pending) → Unique m → lookup k (remove k m) ≡ none
unfolding lookup remove
lookup-remove_self k [] u = refl
lookup-remove_self k ((i, t) ∷ m) u = ground (arith, key_eq_iff i k, lookup-remove_self k m u.1)

-- Fresh sets are kept and stale ones are dropped.
abbrev pub keep_fresh : ℕ → ℕ → Option FragmentSet → Option FragmentSet
keep_fresh timeout now none = none
keep_fresh timeout now (some s) = if is_stale timeout now s then none else some s

-- In a map without repeated keys, the expiry keeps exactly the sets that are not stale, each as it was:
-- a lookup after it finds what a lookup before it found, unless that is stale.
pub lookup-retain_fresh :
    (timeout now : ℕ) (j : FragmentKey) (m : Pending)
    → Unique m
    → lookup j (retain_fresh timeout now m) ≡ keep_fresh timeout now (lookup j m)
unfolding lookup retain_fresh
lookup-retain_fresh timeout now j [] u = refl
lookup-retain_fresh timeout now j ((i, t) ∷ m) u =
    ground (arith, key_eq_iff i j, lookup-retain_fresh timeout now j m u.1)

pub insert-Unique :
    (k : FragmentKey) (s : FragmentSet) (m : Pending) → Unique m → Unique (insert k s m)
unfolding insert lookup
insert-Unique k s [] u = (refl, tt)
insert-Unique k s ((i, t) ∷ m) u =
    ground (arith, key_eq_iff i k, key_eq_iff k i, lookup-insert k i s m, insert-Unique k s m u.1)

pub remove-Unique : (k : FragmentKey) (m : Pending) → Unique m → Unique (remove k m)
unfolding remove lookup
remove-Unique k [] u = tt
remove-Unique k ((i, t) ∷ m) u =
    ground (arith, key_eq_iff i k, key_eq_iff k i, lookup-remove_ne k i m, remove-Unique k m u.1)

pub retain_fresh-Unique :
    (timeout now : ℕ) (m : Pending) → Unique m → Unique (retain_fresh timeout now m)
unfolding retain_fresh lookup
retain_fresh-Unique timeout now [] u = tt
retain_fresh-Unique timeout now ((i, t) ∷ m) u =
    ground (arith, retain_fresh-Unique timeout now m u.1, lookup-retain_fresh timeout now i m u.1)

-- A property of every set in the map.
module _ (P : FragmentSet → Type 0) where
  abbrev pub AllSets : Pending → Type 0
  AllSets m = (k : FragmentKey) (s : FragmentSet) → lookup k m ≡ some s → P s

  pub insert-AllSets :
      (k : FragmentKey) (s : FragmentSet) (m : Pending) → P s → AllSets m → AllSets (insert k s m)
  insert-AllSets k s m p h j t e = elim (Bool-cases (key_eq k j)) [
    | inl hit ↦
        let same : some s ≡ some t = rw (lookup-insert k j s m, hit) at e in
        let equal : s ≡ t = cc in subst P equal p
    | inr miss ↦ h j t (rw (lookup-insert k j s m, miss) at e)
  ]

  remove-AllSets : (k : FragmentKey) (m : Pending) → Unique m → AllSets m → AllSets (remove k m)
  remove-AllSets k m u h j t e = elim (Bool-cases (key_eq k j)) [
    | inl hit ↦ let same : k ≡ j = (key_eq_iff k j).0 hit in absurd (cc (lookup-remove_self k m u))
    | inr miss ↦ h j t (sym (lookup-remove_ne k j m (λ same. cc (key_eq_refl k))) ∙ e)
  ]

  pub retain_fresh-AllSets :
      (timeout now : ℕ) (m : Pending) → Unique m → AllSets m → AllSets (retain_fresh timeout now m)
  retain_fresh-AllSets timeout now m u h j t e =
      h j t (kept (lookup j m) (sym (lookup-retain_fresh timeout now j m u) ∙ e))
    where
      kept : (o : Option FragmentSet) → keep_fresh timeout now o ≡ some t → o ≡ some t
      kept o k = ground arith
