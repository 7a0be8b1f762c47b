-- ===== src/Transport/Fragment/Process.antt =====
-- `process` on every branch, and the invariant that it keeps.
use zenoh_plugin_lcm.Base.{
  ℕ, zero, suc, ◌+◌, ◌≤◌, ◌<◌, ◌^◌, ◌≡◌, ◌≢◌, ◌⊎◌, inl, inr, refl, arith, true, false, Option, none,
  some, ◌∙◌, ltb, ◌==◌, ==_iff, Bool-cases, Run, ok, length-replicate, replicate, ltb→lt, ltb→le,
}
use zenoh_plugin_lcm.Transport.Types.{LcmMessage}
use zenoh_plugin_lcm.Transport.Protocol.{Fragment}
use zenoh_plugin_lcm.Transport.Fragment.{
  SocketAddr, FragmentSet, FragmentReassembler, lookup, insert, remove, expire_stale, new_set,
  or_insert, store_channel, accept, finish, process,
}
use zenoh_plugin_lcm.Transport.Fragment.Map.{
  Unique, AllSets, lookup-insert, key_eq_refl, retain_fresh-AllSets, retain_fresh-Unique,
}
use zenoh_plugin_lcm.Transport.Fragment.Accept.{IsSound, Wants, taken_set, accept_cases, count}

-- A pending set: well formed, within the size limit, and waiting for a fragment. One that announced no
-- fragments waits for nothing and leaves by its timeout.
pub record IsPendingSet (max_message_size : ℕ) (s : FragmentSet) : Type 0 where
  pub set : IsSound s
  pub bounded : s.payload_size ≤ max_message_size
  pub waits : (s.fragments_received < s.n_fragments) ⊎ (s.n_fragments ≡ 0)

pub record IsValid (r : FragmentReassembler) : Type 0 where
  pub unique : Unique r.pending
  pub sets : AllSets (IsPendingSet r.max_message_size) r.pending

pub expire_stale-IsValid :
    (now : ℕ) (r : FragmentReassembler) → IsValid r → IsValid (expire_stale now r)
unfolding expire_stale
expire_stale-IsValid now r v = record {
  unique = retain_fresh-Unique r.timeout now r.pending v.unique;
  sets =
      retain_fresh-AllSets (IsPendingSet r.max_message_size) r.timeout now r.pending v.unique
        v.sets;
}

pub count-replicate : (n : ℕ) → count (replicate n false) ≡ 0
count-replicate zero = refl
count-replicate (suc n) = count-replicate n

new_set-IsPendingSet :
    (f : Fragment) (created max : ℕ)
    → f.n_fragments < 2 ^ 16
    → f.payload_size ≤ max
    → IsPendingSet max (new_set f created)
unfolding new_set
new_set-IsPendingSet f created max h k = record {
  set = record {
    buffered = length-replicate f.payload_size 0;
    masked = length-replicate f.n_fragments false;
    counted = count-replicate f.n_fragments;
    fits = h;
  };
  bounded = k;
  waits = omega arith;
}

store_channel-IsPendingSet :
    (f : Fragment) (max : ℕ) (s : FragmentSet)
    → IsPendingSet max s
    → IsPendingSet max (store_channel f s)
unfolding store_channel
store_channel-IsPendingSet f max s v = ground arith

-- The set that a fragment meets: the pending one under its key or a new one, with the channel stored.
unfoldable pub met_set : FragmentReassembler → Fragment → SocketAddr → ℕ → FragmentSet
met_set r f sender created =
    store_channel f (or_insert (lookup (sender, f.sequence_number) r.pending) (new_set f created))

pub met_set-IsPendingSet :
    (r : FragmentReassembler) (f : Fragment) (sender : SocketAddr) (created : ℕ)
    → IsValid r
    → f.n_fragments < 2 ^ 16
    → f.payload_size ≤ r.max_message_size
    → IsPendingSet r.max_message_size (met_set r f sender created)
unfolding met_set
met_set-IsPendingSet r f sender created v h k =
    store_channel-IsPendingSet f r.max_message_size _
      (entry (lookup (sender, f.sequence_number) r.pending) refl)
  where
    entry :
        (o : Option FragmentSet)
        → lookup (sender, f.sequence_number) r.pending ≡ o
        → IsPendingSet r.max_message_size (or_insert o (new_set f created))
    entry none e = new_set-IsPendingSet f created r.max_message_size h k
    entry (some s) e = v.sets (sender, f.sequence_number) s e

unfoldable pub message_of : Fragment → FragmentSet → LcmMessage
message_of f s = record {
  channel = s.channel;
  sequence_number = f.sequence_number;
  payload = s.buffer;
}

module _ (r : FragmentReassembler) (f : Fragment) (sender : SocketAddr) (s : FragmentSet) where
  -- `s` written back under the fragment's key.
  unfoldable pub written : FragmentReassembler
  written = record r { pending = insert (sender, f.sequence_number) s r.pending }

  -- The entry under the fragment's key removed.
  unfoldable pub removed : FragmentReassembler
  removed = record r {
    pending = remove (sender, f.sequence_number) (insert (sender, f.sequence_number) s r.pending);
  }

  finish-written : finish written (sender, f.sequence_number) ≡ ok (removed, some (message_of f s))
  unfolding finish written removed message_of
  finish-written = ground (
    arith,
    lookup-insert (sender, f.sequence_number) (sender, f.sequence_number) s r.pending,
    key_eq_refl (sender, f.sequence_number),
  )

module _ (before : FragmentReassembler) (f : Fragment) (sender : SocketAddr) (now created : ℕ) where
  abbrev after_expiry : FragmentReassembler
  after_expiry = expire_stale now before

  abbrev met : FragmentSet
  met = met_set after_expiry f sender created

  process-oversized :
      after_expiry.max_message_size < f.payload_size
      → process before f sender now created ≡ ok (after_expiry, none)
  unfolding process
  process-oversized h = ground arith

  module _ (small : f.payload_size ≤ after_expiry.max_message_size) where
    process_refused :
        accept f met ≡ ok (met, false)
        → process before f sender now created ≡ ok (written after_expiry f sender met, none)
    unfolding process met_set written
    process_refused e = ground arith

    process_taken :
        accept f met ≡ ok (taken_set f met, true)
        → met.fragments_received + 1 ≢ met.n_fragments
        → process before f sender now created
          ≡ ok (written after_expiry f sender (taken_set f met), none)
    unfolding process met_set written
    process_taken e h = ground arith

    process_finishes :
        accept f met ≡ ok (taken_set f met, true)
        → met.fragments_received + 1 ≡ met.n_fragments
        → process before f sender now created
          ≡ finish (written after_expiry f sender (taken_set f met)) (sender, f.sequence_number)
    unfolding process met_set written
    process_finishes e h = ground arith

-- What a call of `process` does, by cases: `r` is the reassembler after expiry and `s` the set that the
-- fragment meets there.
pub data Outcome (r : FragmentReassembler) (f : Fragment) (sender : SocketAddr) (s : FragmentSet)
    (result : Run (FragmentReassembler × Option LcmMessage)) : Type 0 where
  -- The announced size is over the limit: no set is touched.
  oversized :
      r.max_message_size < f.payload_size → result ≡ ok (r, none) → Outcome r f sender s result
  -- The set does not want the fragment: it is stored without it.
  refused :
      f.payload_size ≤ r.max_message_size
      → ¬ Wants f s
      → result ≡ ok (written r f sender s, none)
      → Outcome r f sender s result
  -- The set takes the fragment and waits for more.
  incomplete :
      f.payload_size ≤ r.max_message_size
      → Wants f s
      → s.fragments_received + 1 < s.n_fragments
      → result ≡ ok (written r f sender (taken_set f s), none)
      → Outcome r f sender s result
  -- The fragment was the last one: the set leaves the map as a message.
  complete :
      f.payload_size ≤ r.max_message_size
      → Wants f s
      → s.fragments_received + 1 ≡ s.n_fragments
      → result ≡ ok (removed r f sender (taken_set f s), some (message_of f (taken_set f s)))
      → Outcome r f sender s result

-- `process` never panics on a valid reassembler, and does what the case that applies says.
pub process-Outcome :
    (before : FragmentReassembler) (f : Fragment) (sender : SocketAddr) (now created : ℕ)
    → IsValid before
    → f.n_fragments < 2 ^ 16
    → Outcome
        (expire_stale now before)
        f
        sender
        (met_set (expire_stale now before) f sender created)
        (process before f sender now created)
process-Outcome before f sender now created v h =
    let r = expire_stale now before in
    let s = met_set r f sender created in
    elim (Bool-cases (ltb r.max_message_size f.payload_size)) [
      | inl large ↦
          oversized (ltb→lt _ _ large)
            (process-oversized before f sender now created (ltb→lt _ _ large))
      | inr small ↦
          let fits : f.payload_size ≤ r.max_message_size = ltb→le _ _ small in
          let p =
            met_set-IsPendingSet r f sender created (expire_stale-IsValid now before v) h fits in
          elim (accept_cases f s p.set) [
            | inr (unwanted, e) ↦
                refused fits unwanted (process_refused before f sender now created fits e)
            | inl (w, e) ↦ elim (Bool-cases (s.fragments_received + 1 == s.n_fragments)) [
              | inl last ↦
                  let all : s.fragments_received + 1 ≡ s.n_fragments = (==_iff _ _).0 last in
                  complete fits w all (
                    process_finishes before f sender now created fits e all
                    ∙ finish-written r f sender (taken_set f s))
              | inr more ↦
                  let not_all : s.fragments_received + 1 ≢ s.n_fragments = ground arith in
                  incomplete fits w (omega (arith, p.waits, w.numbered))
                    (process_taken before f sender now created fits e not_all)
            ]
          ]
    ]
