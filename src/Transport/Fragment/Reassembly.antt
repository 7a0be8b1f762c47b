-- ===== src/Transport/Fragment/Reassembly.antt =====
-- The contract of reassembly: each chunk once, in any order and among any other traffic, gives the
-- message once.
use zenoh_plugin_lcm.Base.{
  ℕ, zero, suc, ◌+◌, ◌≤◌, ◌<◌, ◌^◌, ◌≡◌, ◌≢◌, inl, inr, refl, arith, Bool, true, false, List, [],
  ◌∷◌, none, some, ap, ◌∙◌, ok, length, set, replicate, All, Bool-cases, length-replicate, ==_iff,
  ==_ne, get_elem?,
}
use zenoh_plugin_lcm.Transport.Types.{LcmMessage}
use zenoh_plugin_lcm.Transport.Fragment.{FragmentKey, FragmentReassembler, key_eq, lookup}
use zenoh_plugin_lcm.Transport.Fragment.Map.{key_eq_iff}
use zenoh_plugin_lcm.Transport.Fragment.Accept.{count, count-set}
use zenoh_plugin_lcm.Transport.Fragment.Process.{IsValid, count-replicate}
use zenoh_plugin_lcm.Transport.Fragment.Transfer.{
  Transfer, total, content, whole, is_complete, none_seen, deliveries,
}
use zenoh_plugin_lcm.Transport.Fragment.Sessions.{
  Arrival, key_of, process_each, messages_under, numbers_under, Fits, process_each-Agrees,
}

-- No number comes twice.
abbrev pub AllDistinct : List ℕ → Type 0
AllDistinct [] = Unit {0}
AllDistinct (n ∷ ns) = All (λ m. n ≢ m) ns × AllDistinct ns

abbrev pub Unseen : List Bool → ℕ → Type 0
Unseen mask n = get_elem? mask n ≡ some false

get_elem?-set_ne : (m : List Bool) (i j : ℕ) → i ≢ j → get_elem? (set m i true) j ≡ get_elem? m j
get_elem?-set_ne [] i j h = refl
get_elem?-set_ne (x ∷ xs) zero zero h = absurd (h refl)
get_elem?-set_ne (x ∷ xs) zero (suc j) h = refl
get_elem?-set_ne (x ∷ xs) (suc i) zero h = refl
get_elem?-set_ne (x ∷ xs) (suc i) (suc j) h = get_elem?-set_ne xs i j (λ e. h (ap suc e))

pub Unseen-set :
    (mask : List Bool) (n : ℕ) (ns : List ℕ)
    → All (λ m. n ≢ m) ns
    → All (Unseen mask) ns
    → All (Unseen (set mask n true)) ns
Unseen-set mask n [] h k = tt
Unseen-set mask n (m ∷ ns) h k = (get_elem?-set_ne mask n m h.0 ∙ k.0, Unseen-set mask n ns h.1 k.1)

deliveries_once :
    (t : Transfer) (mask : List Bool) (n : ℕ) (ns : List ℕ)
    → AllDistinct (n ∷ ns)
    → All (Unseen mask) (n ∷ ns)
    → count mask + length (n ∷ ns) ≡ total t
    → deliveries t mask (n ∷ ns) ≡ whole t ∷ []
unfolding deliveries
deliveries_once t mask n [] d u h =
    let last : is_complete t (set mask n true) ≡ true =
      (==_iff _ _).1 (omega (arith, count-set mask n u.0)) in
    rw last
deliveries_once t mask n (m ∷ ns) d u h =
    let more : is_complete t (set mask n true) ≡ false =
      ==_ne _ _ (λ e. omega (arith, count-set mask n u.0)) in
    rw more (
      deliveries_once t (set mask n true) m ns d.1 (Unseen-set mask n (m ∷ ns) d.0 u.1)
        (omega (arith, count-set mask n u.0)))

numbers_in_range :
    (t : Transfer) (start timeout : ℕ) (history : List Arrival)
    → All (Fits t start timeout) history
    → All (λ n. n < total t) (numbers_under t.key history)
unfolding numbers_under
numbers_in_range t start timeout [] fits = tt
numbers_in_range t start timeout (a ∷ history) fits = elim (Bool-cases (key_eq (key_of a) t.key)) [
  | inl hit ↦ rw hit (
    (fits.0.genuine ((key_eq_iff (key_of a) t.key).0 hit)).0,
    numbers_in_range t start timeout history fits.1,
  )
  | inr miss ↦ rw miss (numbers_in_range t start timeout history fits.1)
]

Unseen-replicate : (k n : ℕ) → n < k → Unseen (replicate k false) n
Unseen-replicate zero n h = absurd (omega arith)
Unseen-replicate (suc k) zero h = refl
Unseen-replicate (suc k) (suc n) h = Unseen-replicate k n (omega arith)

pub All-Unseen : (k : ℕ) (ns : List ℕ) → All (λ n. n < k) ns → All (Unseen (replicate k false)) ns
All-Unseen k [] h = tt
All-Unseen k (n ∷ ns) h = (Unseen-replicate k n h.0, All-Unseen k ns h.1)

distinct_deliveries :
    (t : Transfer) (ns : List ℕ)
    → 0 < total t
    → AllDistinct ns
    → All (λ n. n < total t) ns
    → length ns ≡ total t
    → deliveries t (none_seen t) ns ≡ whole t ∷ []
distinct_deliveries t [] h d r e = absurd (omega arith)
distinct_deliveries t (n ∷ ns) h d r e =
    deliveries_once t (none_seen t) n ns d (All-Unseen (total t) (n ∷ ns) r)
      (omega (arith, count-replicate (total t)))

-- A transfer of at least one and fewer than 2 ^ 16 chunks, within the size limit, comes to a valid
-- reassembler that holds no set of it, in a history of fragments within one timeout. If the
-- transfer's own fragments are all there, each once, in whatever order and among whatever other
-- fragments, then every call returns without a panic and the transfer's key yields exactly one
-- message: the channel and the whole content.
pub reassembles_once :
    (t : Transfer) (start : ℕ) (r : FragmentReassembler) (history : List Arrival)
    → total t < 2 ^ 16
    → length (content t) ≤ r.max_message_size
    → IsValid r
    → lookup t.key r.pending ≡ none
    → 0 < total t
    → All (Fits t start r.timeout) history
    → AllDistinct (numbers_under t.key history)
    → length (numbers_under t.key history) ≡ total t
    → (after : FragmentReassembler) × (ms : List (FragmentKey × LcmMessage)) × (process_each r
          history
        ≡ ok (after, ms))
      × (messages_under t.key ms ≡ whole t ∷ [])
reassembles_once t start r history few small v gone pos fits distinct all =
    let (after, ms, run, same) =
      process_each-Agrees t start r.timeout r.max_message_size few small history (none_seen t) r
        (record {
          valid = v;
          holds = inl (gone, refl);
          covers = length-replicate (total t) false;
          same_timeout = refl;
          same_max = refl;
        })
        fits in
    (
      after,
      ms,
      run,
      same
          ∙ distinct_deliveries t (numbers_under t.key history) pos distinct
              (numbers_in_range t start r.timeout history fits) all,
    )
