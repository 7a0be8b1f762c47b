-- ===== src/Transport/Fragment/Safety.antt =====
-- What every call of `process` keeps: the invariant, the size limit, and the other senders' sets.
use zenoh_plugin_lcm.Base.{
  ℕ, ◌+◌, ◌≤◌, ◌<◌, ◌^◌, ◌≡◌, ◌≢◌, inl, inr, refl, sym, Bool, Option, none, some, ap, ◌∙◌, length,
  ok, if◌then◌else◌, Bool-cases,
}
use zenoh_plugin_lcm.Transport.Types.{LcmMessage}
use zenoh_plugin_lcm.Transport.Protocol.{Fragment}
use zenoh_plugin_lcm.Transport.Fragment.{
  SocketAddr, FragmentKey, FragmentSet, FragmentReassembler, key_eq, lookup, insert, remove,
  expire_stale, process,
}
use zenoh_plugin_lcm.Transport.Fragment.Map.{
  lookup-insert, lookup-remove_ne, lookup-remove_self, key_eq_iff, key_eq_refl, insert-AllSets,
  insert-Unique, remove-Unique,
}
use zenoh_plugin_lcm.Transport.Fragment.Accept.{Wants, taken_set, taken_set-IsSound}
use zenoh_plugin_lcm.Transport.Fragment.Process.{
  IsPendingSet, IsValid, expire_stale-IsValid, met_set, met_set-IsPendingSet, message_of, written,
  removed, Outcome, oversized, refused, incomplete, complete, process-Outcome,
}

written-IsValid :
    (r : FragmentReassembler) (f : Fragment) (sender : SocketAddr) (s : FragmentSet)
    → IsValid r
    → IsPendingSet r.max_message_size s
    → IsValid (written r f sender s)
unfolding written
written-IsValid r f sender s v p = record {
  unique = insert-Unique (sender, f.sequence_number) s r.pending v.unique;
  sets =
      insert-AllSets (IsPendingSet r.max_message_size) (sender, f.sequence_number) s r.pending p
        v.sets;
}

-- Removing the key after a write leaves what the write did not touch.
removed-IsValid :
    (r : FragmentReassembler) (f : Fragment) (sender : SocketAddr) (s : FragmentSet)
    → IsValid r
    → IsValid (removed r f sender s)
unfolding removed
removed-IsValid r f sender s v = record {
  unique = remove-Unique key (insert key s r.pending) (insert-Unique key s r.pending v.unique);
  sets = λ k t e. v.sets k t (only_old k t e);
}
  where
    key : FragmentKey
    key = (sender, f.sequence_number)

    only_old :
        (k : FragmentKey) (t : FragmentSet)
        → lookup k (remove key (insert key s r.pending)) ≡ some t
        → lookup k r.pending ≡ some t
    only_old k t e = elim (Bool-cases (key_eq key k)) [
      | inl hit ↦
          let same : key ≡ k = (key_eq_iff key k).0 hit in
          cc (
            same,
            lookup-remove_self key (insert key s r.pending)
                (insert-Unique key s r.pending v.unique),
          )
      | inr miss ↦
          let other : key ≢ k = λ same. cc (key_eq_refl key) in
          cc (
            lookup-remove_ne key k (insert key s r.pending) other,
            lookup-insert key k s r.pending,
            ap (λ (b : Bool). if b then some s else lookup k r.pending) miss,
          )
    ]

-- A message that a call returned fits the announced size and the limit.
abbrev pub Delivers : FragmentReassembler → Fragment → Option LcmMessage → Type 0
Delivers r f none = Unit {0}
Delivers r f (some m) =
    (length m.payload ≡ f.payload_size)
    × (f.payload_size ≤ r.max_message_size)
    × (m.sequence_number ≡ f.sequence_number)

taken_pending :
    (max : ℕ) (f : Fragment) (s : FragmentSet)
    → IsPendingSet max s
    → Wants f s
    → s.fragments_received + 1 < s.n_fragments
    → IsPendingSet max (taken_set f s)
taken_pending max f s p w h = record {
  set = taken_set-IsSound f s p.set w;
  bounded = p.bounded;
  waits = inl h;
}

-- On a valid reassembler `process` returns, without a panic, for any fragment whose number of
-- fragments is below 2 ^ 16; the invariant holds again; and a message that it returns has as many
-- bytes as the fragment announced, no more than the limit, and the fragment's sequence number.
pub process-IsValid :
    (before : FragmentReassembler) (f : Fragment) (sender : SocketAddr) (now created : ℕ)
    → IsValid before
    → f.n_fragments < 2 ^ 16
    → (after : FragmentReassembler) × (message : Option LcmMessage) × (process before f sender now
          created
        ≡ ok (after, message))
      × IsValid after
      × Delivers before f message
unfolding expire_stale message_of
process-IsValid before f sender now created v h =
    by_outcome (process-Outcome before f sender now created v h)
  where
    r : FragmentReassembler
    r = expire_stale now before

    s : FragmentSet
    s = met_set r f sender created

    valid : IsValid r
    valid = expire_stale-IsValid now before v

    by_outcome :
        Outcome r f sender s (process before f sender now created)
        → (after : FragmentReassembler) × (message : Option LcmMessage) × (process before f sender
              now created
            ≡ ok (after, message))
          × IsValid after
          × Delivers before f message
    by_outcome (oversized _ e) = (r, none, e, valid, tt)
    by_outcome (refused fits _ e) = (
      written r f sender s,
      none,
      e,
      written-IsValid r f sender s valid (met_set-IsPendingSet r f sender created valid h fits),
      tt,
    )
    by_outcome (incomplete fits w more e) = (
      written r f sender (taken_set f s),
      none,
      e,
      written-IsValid r f sender (taken_set f s) valid
          (taken_pending _ f s (met_set-IsPendingSet r f sender created valid h fits) w more),
      tt,
    )
    by_outcome (complete fits w last e) = (
      removed r f sender (taken_set f s),
      some (message_of f (taken_set f s)),
      e,
      removed-IsValid r f sender (taken_set f s) valid,
      (
        (taken_set-IsSound f s (met_set-IsPendingSet r f sender created valid h fits).set
              w).buffered
            ∙ sym w.same_size,
        fits,
        refl,
      ),
    )
