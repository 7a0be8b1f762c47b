-- ===== src/Transport/Fragment/Commute.antt =====
-- Fragments of different messages do not disturb one another: their order is of no consequence.
use mathlib.Core.Path.{fun_ext}
use zenoh_plugin_lcm.Base.{
  ℕ, ◌+◌, ◌≤◌, ◌-◌, ◌≡◌, ◌≢◌, refl, sym, ap, ◌∙◌, subst, arith, Bool, true, false, ◌&&◌, Option,
  none, some, Run, ok, panic, ltb, ◌==◌, Bool-cases, inl, inr,
}
use zenoh_plugin_lcm.Transport.Types.{LcmMessage}
use zenoh_plugin_lcm.Transport.Protocol.{Fragment}
use zenoh_plugin_lcm.Transport.Fragment.{
  SocketAddr, FragmentKey, key_eq, FragmentSet, FragmentReassembler, lookup, new_set, or_insert,
  store_channel, accept, process, is_stale,
}
use zenoh_plugin_lcm.Transport.Fragment.Map.{key_eq_iff, Unique, keep_fresh}
use zenoh_plugin_lcm.Transport.Fragment.Abstract.{
  FragmentMap, update, view, refresh, served, serve_set, serve, KeyedSets, abstraction, replaced,
  abstract_process, seen, process-abstract_process,
}

accept-created_at :
    (f : Fragment) (s s' : FragmentSet) (taken : Bool)
    → accept f s ≡ ok (s', taken)
    → s'.created_at ≡ s.created_at
unfolding accept
accept-created_at f s s' taken e = ground arith

store_channel-created_at :
    (f : Fragment) (s : FragmentSet) → (store_channel f s).created_at ≡ s.created_at
unfolding store_channel
store_channel-created_at f s = ground arith

abbrev IsFresh : ℕ → ℕ → Option FragmentSet → Type 0
IsFresh timeout now held = keep_fresh timeout now held ≡ held

keep_fresh_twice :
    (timeout now : ℕ) (o : Option FragmentSet) → IsFresh timeout now (keep_fresh timeout now o)
keep_fresh_twice timeout now none = refl
keep_fresh_twice timeout now (some s) = ground arith

-- Keys that differ.
module _ (j k : FragmentKey) (other : j ≢ k) where
  key_eq_ne : key_eq j k ≡ false
  key_eq_ne = ground (arith, key_eq_iff j k)

pub update_comm :
    (j k : FragmentKey) (o p : Option FragmentSet) (m : FragmentMap)
    → j ≢ k
    → update j o (update k p m) ≡ update k p (update j o m)
update_comm j k o p m other = fun_ext λ i. ground (arith, key_eq_iff j i, key_eq_iff k i)

refresh-update :
    (timeout now : ℕ) (k : FragmentKey) (o : Option FragmentSet) (m : FragmentMap)
    → ((j : FragmentKey) → IsFresh timeout now (m j))
    → IsFresh timeout now o
    → refresh timeout now (update k o m) ≡ update k o m
refresh-update timeout now k o m all h = fun_ext at
  where
    at : (j : FragmentKey) → refresh timeout now (update k o m) j ≡ update k o m j
    at j = elim (Bool-cases (key_eq k j)) [ inl hit ↦ rw hit h | inr miss ↦ rw miss (all j) ]

-- No set of the map expires between two readings of the clock.
abbrev pub NoneExpires : FragmentReassembler → ℕ → ℕ → Type 0
NoneExpires r now now' =
    (k : FragmentKey) (s : FragmentSet)
    → lookup k r.pending ≡ some s
    → is_stale r.timeout now s ≡ is_stale r.timeout now' s

pub refresh-NoneExpires :
    (r : FragmentReassembler) (now now' : ℕ)
    → NoneExpires r now now'
    → refresh r.timeout now' (view r.pending) ≡ refresh r.timeout now (view r.pending)
refresh-NoneExpires r now now' h = fun_ext λ k. at (lookup k r.pending) (h k)
  where
    at :
        (o : Option FragmentSet)
        → ((s : FragmentSet) → o ≡ some s → is_stale r.timeout now s ≡ is_stale r.timeout now' s)
        → keep_fresh r.timeout now' o ≡ keep_fresh r.timeout now o
    at none same = refl
    at (some s) same = rw (same s refl) refl

pub IsFresh-refresh :
    (r : FragmentReassembler) (now now' : ℕ)
    → NoneExpires r now now'
    → (k : FragmentKey) → IsFresh r.timeout now' (refresh r.timeout now (view r.pending) k)
IsFresh-refresh r now now' h k =
    subst (λ (x : FragmentMap). IsFresh r.timeout now' (x k)) (refresh-NoneExpires r now now' h)
      (keep_fresh_twice r.timeout now' (view r.pending k))

module _ (timeout now : ℕ) where
  IsFresh-served :
      (key : FragmentKey) (s : FragmentSet) (done : Bool)
      → is_stale timeout now s ≡ false
      → IsFresh timeout now (served key s done).0
  IsFresh-served key s true h = refl
  IsFresh-served key s false h = rw h refl

  IsFresh-serve_set :
      (key : FragmentKey) (a : Run (FragmentSet × Bool)) (held : Option FragmentSet)
      (message : Option LcmMessage)
      → ((s : FragmentSet) (taken : Bool) → a ≡ ok (s, taken) → is_stale timeout now s ≡ false)
      → serve_set key a ≡ ok (held, message)
      → IsFresh timeout now held
  IsFresh-serve_set key panic held message h e = cc
  IsFresh-serve_set key (ok (s, taken)) held message h e =
      let done : Bool = taken && s.fragments_received == s.n_fragments in
      let same : (served key s done).0 ≡ held = cc in
      subst (IsFresh timeout now) same (IsFresh-served key s done (h s taken refl))

  is_stale-or_insert :
      (f : Fragment) (created : ℕ) (held : Option FragmentSet)
      → IsFresh timeout now held
      → now ≤ created + timeout
      → is_stale timeout now (or_insert held (new_set f created)) ≡ false
  unfolding new_set
  is_stale-or_insert f created none fresh later = ground arith
  is_stale-or_insert f created (some s) fresh later = ground arith

  IsFresh-serve :
      (max : ℕ) (f : Fragment) (key : FragmentKey) (created : ℕ) (held held' : Option FragmentSet)
      (message : Option LcmMessage)
      → IsFresh timeout now held
      → now ≤ created + timeout
      → serve max f key created held ≡ ok (held', message)
      → IsFresh timeout now held'
  unfolding serve
  IsFresh-serve max f key created held held' message fresh later e =
      elim (Bool-cases (ltb max f.payload_size)) [
        | inl large ↦
            let kept : ◌≡◌ {A = Run (Option FragmentSet × Option LcmMessage)} (ok (held, none))
                (ok (held', message)) =
              rw large at e in
            let same : held ≡ held' = cc in subst (IsFresh timeout now) same fresh
        | inr small ↦
            let entry : FragmentSet = or_insert held (new_set f created) in
            IsFresh-serve_set key (accept f (store_channel f entry)) held' message
              (λ s taken run.
                let age : s.created_at ≡ entry.created_at =
                  accept-created_at f (store_channel f entry) s taken run
                  ∙ store_channel-created_at f entry in
                ap (λ (t : ℕ). ltb timeout (now - t)) age
                ∙ is_stale-or_insert f created held fresh later)
              (rw small at e)
      ]

-- What a call that returned has done, in the abstract.
abbrev pub Serves :
    FragmentReassembler
    → Fragment
    → FragmentKey
    → ℕ
    → FragmentMap
    → FragmentReassembler
    → Option LcmMessage
    → Type 0
Serves r f key created fresh after message =
    (held : Option FragmentSet) × (serve r.max_message_size f key created (fresh key)
      ≡ ok (held, message))
    × (view after.pending ≡ update key held fresh)
    × (after.timeout ≡ r.timeout)
    × (after.max_message_size ≡ r.max_message_size)

abbrev state_of : KeyedSets → Run (KeyedSets × Option LcmMessage) → KeyedSets
state_of default panic = default
state_of default (ok (a, message)) = a

abbrev message_of : Run (KeyedSets × Option LcmMessage) → Option LcmMessage
message_of panic = none
message_of (ok (a, message)) = message

replaced-Serves :
    (r : FragmentReassembler) (f : Fragment) (key : FragmentKey) (created now : ℕ)
    (o : Run (Option FragmentSet × Option LcmMessage)) (after : FragmentReassembler)
    (message : Option LcmMessage)
    → let fresh : FragmentMap = refresh r.timeout now (view r.pending) in
      serve r.max_message_size f key created (fresh key) ≡ o
      → replaced key (record (abstraction r) { sets = fresh }) o ≡ ok (abstraction after, message)
      → Serves r f key created fresh after message
replaced-Serves r f key created now panic after message s e = cc
replaced-Serves r f key created now (ok (held, m)) after message s e =
    let a : KeyedSets = abstraction after in
    let then_sets : FragmentMap = update key held (refresh r.timeout now (view r.pending)) in
    let same : a ≡ record (abstraction r) { sets = then_sets } = ap (state_of a) (sym e) in
    (
      held,
      s ∙ ap (λ (x : Option LcmMessage). ok (held, x)) (ap message_of e),
      ap (λ (x : KeyedSets). x.sets) same,
      ap (λ (x : KeyedSets). x.timeout) same,
      ap (λ (x : KeyedSets). x.max_message_size) same,
    )

pub process-Serves :
    (r : FragmentReassembler) (f : Fragment) (sender : SocketAddr) (now created : ℕ)
    (after : FragmentReassembler) (message : Option LcmMessage)
    → Unique r.pending
    → process r f sender now created ≡ ok (after, message)
    → Serves r f
        (sender, f.sequence_number)
        created
        (refresh r.timeout now (view r.pending))
        after
        message
unfolding abstract_process
process-Serves r f sender now created after message u e =
    replaced-Serves r f (sender, f.sequence_number) created now _ after message refl
      (sym (process-abstract_process r f sender now created u) ∙ ap seen e)

-- The second call, after one for another key.
pub second-Serves :
    (r between : FragmentReassembler) (f g : Fragment) (j k : FragmentKey) (now created later : ℕ)
    (m n : Option LcmMessage) (after : FragmentReassembler) (fresh : FragmentMap)
    → j ≢ k
    → ((i : FragmentKey) → IsFresh r.timeout now (fresh i))
    → now ≤ created + r.timeout
    → (first : Serves r f j created fresh between m)
    → Serves between g k later (refresh between.timeout now (view between.pending)) after n
    → (held : Option FragmentSet) × (serve r.max_message_size g k later (fresh k) ≡ ok (held, n))
      × (view after.pending ≡ update k held (update j first.0 fresh))
second-Serves r between f g j k now created later m n after fresh other all soon
      (hf, sf, vf, tf, mf) (hg, sg, vg, _, _) =
    let kept : IsFresh r.timeout now hf =
      IsFresh-serve r.timeout now r.max_message_size f j created (fresh j) hf m (all j) soon sf in
    let between_is : refresh between.timeout now (view between.pending) ≡ update j hf fresh =
      ap (λ (t : ℕ). refresh t now (view between.pending)) tf
      ∙ ap (refresh r.timeout now) vf
      ∙ refresh-update r.timeout now j hf fresh all kept in
    let at_k : refresh between.timeout now (view between.pending) k ≡ fresh k =
      ap (λ (x : FragmentMap). x k) between_is ∙ rw (key_eq_ne j k other) refl in
    (
      hg,
      sym (ap (λ (x : ℕ). serve x g k later (fresh k)) mf)
          ∙ sym (ap (serve between.max_message_size g k later) at_k)
          ∙ sg,
      vg ∙ ap (update k hg) between_is,
    )
