-- ===== src/Transport/Fragment/Abstract.antt =====
-- The reassembler as a function from keys to sets, in which the order of the map is forgotten.
use mathlib.Core.Path.{fun_ext}
use zenoh_plugin_lcm.Base.{
  ℕ, ◌≡◌, refl, sym, ap, ◌∙◌, subst, arith, Bool, true, false, ◌&&◌, Option, none, some, Run, ok,
  panic, ◌>>=◌, ltb, ◌==◌, if◌then◌else◌, Bool-cases, inl, inr,
}
use zenoh_plugin_lcm.Transport.Types.{LcmMessage}
use zenoh_plugin_lcm.Transport.Protocol.{Fragment}
use zenoh_plugin_lcm.Transport.Fragment.{
  SocketAddr, FragmentKey, key_eq, FragmentSet, Pending, FragmentReassembler, lookup, insert,
  remove, retain_fresh, expire_stale, new_set, or_insert, store_channel, accept, finish, process,
}
use zenoh_plugin_lcm.Transport.Fragment.Map.{
  key_eq_iff, key_eq_refl, lookup-insert, lookup-remove_ne, lookup-remove_self, Unique, keep_fresh,
  lookup-retain_fresh, insert-Unique, retain_fresh-Unique,
}

abbrev pub FragmentMap : Type 0
FragmentMap = FragmentKey → Option FragmentSet

abbrev pub update : FragmentKey → Option FragmentSet → FragmentMap → FragmentMap
update k o m j = if key_eq k j then o else m j

abbrev pub view : Pending → FragmentMap
view m k = lookup k m

abbrev pub refresh : ℕ → ℕ → FragmentMap → FragmentMap
refresh timeout now m k = keep_fresh timeout now (m k)

-- The entry that is left under the key of a fragment, and the message, from the set that was accepted.
abbrev pub served : FragmentKey → FragmentSet → Bool → Option FragmentSet × Option LcmMessage
served key s true =
    (none, some (record { channel = s.channel; sequence_number = key.1; payload = s.buffer }))
served key s false = (some s, none)

abbrev pub serve_set :
    FragmentKey → Run (FragmentSet × Bool) → Run (Option FragmentSet × Option LcmMessage)
serve_set key panic = panic
serve_set key (ok (s, taken)) = ok (served key s (taken && s.fragments_received == s.n_fragments))

-- What a fragment does to the entry under its key.
unfoldable pub serve :
    ℕ
    → Fragment
    → FragmentKey
    → ℕ
    → Option FragmentSet
    → Run (Option FragmentSet × Option LcmMessage)
serve max_message_size f key created held =
    if ltb max_message_size f.payload_size
    then ok (held, none)
    else serve_set key (accept f (store_channel f (or_insert held (new_set f created))))

-- The abstract reassembler.
pub record KeyedSets : Type 0 where
  pub sets : FragmentMap
  pub timeout : ℕ
  pub max_message_size : ℕ

abbrev pub abstraction : FragmentReassembler → KeyedSets
abstraction r = record {
  sets = view r.pending;
  timeout = r.timeout;
  max_message_size = r.max_message_size;
}

-- The answer with the map in which the entry is replaced.
abbrev pub replaced :
    FragmentKey
    → KeyedSets
    → Run (Option FragmentSet × Option LcmMessage)
    → Run (KeyedSets × Option LcmMessage)
replaced key a panic = panic
replaced key a (ok (held, message)) = ok (record a { sets = update key held a.sets }, message)

abbrev pub without_stale : ℕ → KeyedSets → KeyedSets
without_stale now a = record a { sets = refresh a.timeout now a.sets }

-- A call in the abstract: the stale sets go, and the entry of the fragment's key is served.
unfoldable pub abstract_process :
    KeyedSets → Fragment → SocketAddr → ℕ → ℕ → Run (KeyedSets × Option LcmMessage)
abstract_process a f sender now created =
    let key : FragmentKey = (sender, f.sequence_number) in
    let fresh : KeyedSets = without_stale now a in
    replaced key fresh (serve a.max_message_size f key created (fresh.sets key))

-- What a call comes to in the abstract.
abbrev pub seen :
    Run (FragmentReassembler × Option LcmMessage) → Run (KeyedSets × Option LcmMessage)
seen panic = panic
seen (ok (r, message)) = ok (abstraction r, message)

view-insert :
    (k : FragmentKey) (s : FragmentSet) (m : Pending)
    → view (insert k s m) ≡ update k (some s) (view m)
view-insert k s m = fun_ext λ j. lookup-insert k j s m

view-remove :
    (k : FragmentKey) (m : Pending) → Unique m → view (remove k m) ≡ update k none (view m)
view-remove k m u = fun_ext at
  where
    at : (j : FragmentKey) → lookup j (remove k m) ≡ update k none (view m) j
    at j = elim (Bool-cases (key_eq k j)) [
      | inl hit ↦ rw hit (
          subst (λ i. lookup i (remove k m) ≡ none) ((key_eq_iff k j).0 hit)
            (lookup-remove_self k m u))
      | inr miss ↦ rw miss (lookup-remove_ne k j m (λ same. cc (key_eq_refl k)))
    ]

view-retain_fresh :
    (timeout now : ℕ) (m : Pending)
    → Unique m
    → view (retain_fresh timeout now m) ≡ refresh timeout now (view m)
view-retain_fresh timeout now m u = fun_ext λ j. lookup-retain_fresh timeout now j m u

update_same : (k : FragmentKey) (m : FragmentMap) → update k (m k) m ≡ m
update_same k m = fun_ext at
  where
    at : (j : FragmentKey) → update k (m k) m j ≡ m j
    at j = elim (Bool-cases (key_eq k j)) [
      | inl hit ↦ rw hit (ap m ((key_eq_iff k j).0 hit))
      | inr miss ↦ rw miss refl
    ]

update_twice :
    (k : FragmentKey) (o p : Option FragmentSet) (m : FragmentMap)
    → update k o (update k p m) ≡ update k o m
update_twice k o p m = fun_ext λ j. ground arith

-- A reassembler with another map.
abbrev holding : FragmentReassembler → Pending → FragmentReassembler
holding r m = record r { pending = m }

-- The code from the accepted set on.
abbrev conclude :
    FragmentReassembler
    → FragmentKey
    → Run (FragmentSet × Bool)
    → Run (FragmentReassembler × Option LcmMessage)
conclude r key a = do
  (s, taken) ← a
  let r' : FragmentReassembler = holding r (insert key s r.pending)
  if taken && s.fragments_received == s.n_fragments then finish r' key else ok (r', none)

module _ (r : FragmentReassembler) (key : FragmentKey) (s : FragmentSet)
    (u : Unique r.pending) where
  with_sets : FragmentMap → Option LcmMessage → Run (KeyedSets × Option LcmMessage)
  with_sets sets message = ok (record (abstraction r) { sets = sets }, message)

  finish-served :
      (done : Bool)
      → seen (
          if done
          then finish (holding r (insert key s r.pending)) key
          else ok (holding r (insert key s r.pending), none))
        ≡ replaced key (abstraction r) (ok (served key s done))
  unfolding finish with_sets
  finish-served true =
      let found : lookup key (insert key s r.pending) ≡ some s =
        lookup-insert key key s r.pending ∙ rw (key_eq_refl key) refl in
      rw found (
        ap (λ v. with_sets v (served key s true).1)
          (view-remove key (insert key s r.pending) (insert-Unique key s r.pending u)
            ∙ ap (update key none) (view-insert key s r.pending)
            ∙ update_twice key none (some s) (view r.pending)))
  finish-served false = ap (λ v. with_sets v none) (view-insert key s r.pending)

conclude-replaced :
    (r : FragmentReassembler) (key : FragmentKey) (a : Run (FragmentSet × Bool))
    → Unique r.pending
    → seen (conclude r key a) ≡ replaced key (abstraction r) (serve_set key a)
conclude-replaced r key panic u = refl
conclude-replaced r key (ok (s, taken)) u =
    finish-served r key s u (taken && s.fragments_received == s.n_fragments)

-- On every map without repeated keys, and for every fragment, the code does what the abstract call does:
-- it panics in the same cases, it returns the same message, its limits are the same, and its map
-- has, under every key, the set that the abstract one has.
pub process-abstract_process :
    (before : FragmentReassembler) (f : Fragment) (sender : SocketAddr) (now created : ℕ)
    → Unique before.pending
    → seen (process before f sender now created)
      ≡ abstract_process (abstraction before) f sender now created
unfolding process expire_stale abstract_process serve
process-abstract_process before f sender now created u =
    elim (Bool-cases (ltb before.max_message_size f.payload_size)) [
      | inl large ↦ rw large (ap (λ v. at v none) (expired ∙ sym (update_same key fresh)))
      | inr small ↦ rw small (
          conclude-replaced r key
            (accept f (store_channel f (or_insert (lookup key r.pending) (new_set f created))))
            (retain_fresh-Unique before.timeout now before.pending u)
          ∙ ap served_from expired)
    ]
  where
    key : FragmentKey
    key = (sender, f.sequence_number)

    r : FragmentReassembler
    r = expire_stale now before

    fresh : FragmentMap
    fresh = refresh before.timeout now (view before.pending)

    at : FragmentMap → Option LcmMessage → Run (KeyedSets × Option LcmMessage)
    at sets message = ok (record (abstraction before) { sets = sets }, message)

    served_from : FragmentMap → Run (KeyedSets × Option LcmMessage)
    served_from sets =
        replaced key (record (abstraction before) { sets = sets })
          (serve_set key (accept f (store_channel f (or_insert (sets key) (new_set f created)))))

    expired : view (expire_stale now before).pending ≡ fresh
    expired = view-retain_fresh before.timeout now before.pending u
