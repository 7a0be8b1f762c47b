-- ===== src/Transport/Fragment/Isolation.antt =====
-- A fragment changes the set under its own key only; what it does to the others is the expiry.
use zenoh_plugin_lcm.Base.{ℕ, ◌<◌, ◌^◌, ◌≡◌, ◌≢◌, refl, arith, false, Option, ◌∙◌, subst, ok}
use zenoh_plugin_lcm.Transport.Types.{LcmMessage}
use zenoh_plugin_lcm.Transport.Protocol.{Fragment}
use zenoh_plugin_lcm.Transport.Fragment.{
  SocketAddr, FragmentKey, FragmentSet, FragmentReassembler, key_eq, lookup, expire_stale, process,
}
use zenoh_plugin_lcm.Transport.Fragment.Map.{
  lookup-insert, lookup-remove_ne, lookup-retain_fresh, keep_fresh, key_eq_iff,
}
use zenoh_plugin_lcm.Transport.Fragment.Accept.{taken_set}
use zenoh_plugin_lcm.Transport.Fragment.Process.{
  IsValid, met_set, written, removed, Outcome, oversized, refused, incomplete, complete,
  process-Outcome,
}

module _ (r : FragmentReassembler) (f : Fragment) (sender : SocketAddr) (s : FragmentSet)
    (k : FragmentKey) (other : (sender, f.sequence_number) ≢ k) where
  differs : key_eq (sender, f.sequence_number) k ≡ false
  differs = ground (arith, key_eq_iff (sender, f.sequence_number) k)

  lookup-written_ne : lookup k (written r f sender s).pending ≡ lookup k r.pending
  unfolding written
  lookup-written_ne = rw (lookup-insert (sender, f.sequence_number) k s r.pending, differs)

  lookup-removed_ne : lookup k (removed r f sender s).pending ≡ lookup k r.pending
  unfolding removed
  lookup-removed_ne =
      lookup-remove_ne (sender, f.sequence_number) k _ other
      ∙ rw (lookup-insert (sender, f.sequence_number) k s r.pending, differs)

abbrev pub Untouched : FragmentReassembler → ℕ → FragmentKey → FragmentReassembler → Type 0
Untouched before now k after =
    (lookup k after.pending ≡ keep_fresh before.timeout now (lookup k before.pending))
    × (after.timeout ≡ before.timeout)
    × (after.max_message_size ≡ before.max_message_size)

module _ (before : FragmentReassembler) (now : ℕ) (k : FragmentKey) (v : IsValid before) where
  expire_stale-Untouched : Untouched before now k (expire_stale now before)
  unfolding expire_stale
  expire_stale-Untouched =
      (lookup-retain_fresh before.timeout now k before.pending v.unique, refl, refl)

  module _ (f : Fragment) (sender : SocketAddr) (s : FragmentSet)
      (other : (sender, f.sequence_number) ≢ k) where
    written-Untouched : Untouched before now k (written (expire_stale now before) f sender s)
    written-Untouched = (
      lookup-written_ne (expire_stale now before) f sender s k other ∙ expire_stale-Untouched.0,
      unfold written expire_stale in refl,
      unfold written expire_stale in refl,
    )

    removed-Untouched : Untouched before now k (removed (expire_stale now before) f sender s)
    removed-Untouched = (
      lookup-removed_ne (expire_stale now before) f sender s k other ∙ expire_stale-Untouched.0,
      unfold removed expire_stale in refl,
      unfold removed expire_stale in refl,
    )

-- On a valid reassembler, a call of `process` that returns, for a fragment whose number of
-- fragments is below 2 ^ 16 and whose sender and sequence number are not the key `k`, leaves the
-- set under `k` exactly as it was, and the limits too; only the timeout can take it away.
pub process-lookup_ne :
    (before after : FragmentReassembler) (f : Fragment) (sender : SocketAddr) (now created : ℕ)
    (message : Option LcmMessage) (k : FragmentKey)
    → IsValid before
    → f.n_fragments < 2 ^ 16
    → (sender, f.sequence_number) ≢ k
    → process before f sender now created ≡ ok (after, message)
    → Untouched before now k after
process-lookup_ne before after f sender now created message k v h other e =
    by_outcome (process-Outcome before f sender now created v h)
  where
    r : FragmentReassembler
    r = expire_stale now before

    s : FragmentSet
    s = met_set r f sender created

    by_outcome :
        Outcome r f sender s (process before f sender now created) → Untouched before now k after
    by_outcome (oversized _ e') =
        let same : r ≡ after = cc in
        subst (Untouched before now k) same (expire_stale-Untouched before now k v)
    by_outcome (refused _ _ e') =
        let same : written r f sender s ≡ after = cc in
        subst (Untouched before now k) same (written-Untouched before now k v f sender s other)
    by_outcome (incomplete _ _ _ e') =
        let same : written r f sender (taken_set f s) ≡ after = cc in
        subst (Untouched before now k) same
          (written-Untouched before now k v f sender (taken_set f s) other)
    by_outcome (complete _ _ _ e') =
        let same : removed r f sender (taken_set f s) ≡ after = cc in
        subst (Untouched before now k) same
          (removed-Untouched before now k v f sender (taken_set f s) other)
