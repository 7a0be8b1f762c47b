-- ===== src/Transport/Fragment/Delivery.antt =====
-- One arrival: `process` does what the abstract machine does.
use zenoh_plugin_lcm.Base.{
  ℕ, ◌+◌, ◌-◌, ◌≤◌, ◌<◌, ◌^◌, ◌≡◌, ◌≢◌, inl, inr, refl, sym, arith, Bool, true, false, List, [],
  ◌∷◌, Option, none, some, ap, ◌∙◌, subst, length, Run, ok, set, le→ltb, length-set, ==_iff, ==_ne,
}
use zenoh_plugin_lcm.Transport.Types.{LcmMessage}
use zenoh_plugin_lcm.Transport.Protocol.{Fragment}
use zenoh_plugin_lcm.Transport.Fragment.{
  SocketAddr, FragmentSet, FragmentReassembler, lookup, insert, expire_stale, process, new_set,
  or_insert,
}
use zenoh_plugin_lcm.Transport.Fragment.Map.{
  lookup-insert, lookup-remove_self, lookup-retain_fresh, keep_fresh, key_eq_refl, insert-Unique,
}
use zenoh_plugin_lcm.Transport.Fragment.Accept.{taken_set, count, count-le-length}
use zenoh_plugin_lcm.Transport.Fragment.Process.{
  IsPendingSet, IsValid, expire_stale-IsValid, met_set, met_set-IsPendingSet, message_of, written,
  removed, Outcome, oversized, refused, incomplete, complete, process-Outcome,
}
use zenoh_plugin_lcm.Transport.Fragment.Safety.{process-IsValid}
use zenoh_plugin_lcm.Transport.Fragment.Render.{render_all}
use zenoh_plugin_lcm.Transport.Fragment.Transfer.{
  Transfer, total, content, fragment_of, whole, is_complete, emitted, kept, seen_channel, Refines,
  Holds,
}
use zenoh_plugin_lcm.Transport.Fragment.Arrival.{
  Refines-new, Refines-store_channel, Refines-taken_set, Wants-unless-marked, seen_channel_none,
}

seen_complete :
    (t : Transfer) (mask : List Bool)
    → count mask ≡ length mask
    → 0 < length mask
    → seen_channel t mask ≡ t.channel
seen_complete t [] h k = absurd (omega arith)
seen_complete t (true ∷ mask) h k = refl
seen_complete t (false ∷ mask) h k = absurd (omega (arith, count-le-length mask))

-- Every result of `process` on a valid reassembler leaves a valid one.
IsValid-after :
    (before after : FragmentReassembler) (f : Fragment) (sender : SocketAddr) (now created : ℕ)
    (message : Option LcmMessage)
    → IsValid before
    → f.n_fragments < 2 ^ 16
    → process before f sender now created ≡ ok (after, message)
    → IsValid after
IsValid-after before after f sender now created message v h e =
    let (a, m, e', v', _) = process-IsValid before f sender now created v h in
    let same : a ≡ after = cc in subst IsValid same v'

module _ (t : Transfer) (start : ℕ) (mask : List Bool) (before : FragmentReassembler)
    (i now created : ℕ) (valid : IsValid before) (few : total t < 2 ^ 16)
    (small : length (content t) ≤ before.max_message_size) (numbered : i < total t)
    (covers : length mask ≡ total t) (holds : Holds t start mask before)
    (soon : now ≤ start + before.timeout) (later : start ≤ created) where
  abbrev f : Fragment
  f = fragment_of t i

  abbrev sender : SocketAddr
  sender = t.key.0

  abbrev r : FragmentReassembler
  r = expire_stale now before

  expired : lookup t.key r.pending ≡ keep_fresh before.timeout now (lookup t.key before.pending)
  unfolding expire_stale
  expired = lookup-retain_fresh before.timeout now t.key before.pending valid.unique

  still_there :
      (s : FragmentSet) → start ≤ s.created_at → keep_fresh before.timeout now (some s) ≡ some s
  still_there s h = rw (le→ltb before.timeout (now - s.created_at) (omega arith))

  -- No set of the transfer expires in the window, so the state is the same after expiry.
  entry_Refines :
      Refines t start
        (seen_channel t mask)
        mask
        (or_insert (lookup t.key r.pending) (new_set f created))
  entry_Refines = elim holds [
    | inl (e, fresh) ↦
        let gone : lookup t.key r.pending ≡ none = rw (expired, e) in
        rw (gone, fresh, seen_channel_none t) (Refines-new t start created i later)
    | inr (s, e, v) ↦
        let found : lookup t.key r.pending ≡ some s = rw (expired, e) (still_there s v.recent) in
        rw found v
  ]

  abbrev s : FragmentSet
  s = met_set r f sender created

  met_Refines : Refines t start (seen_channel t (set mask i true)) mask s
  unfolding met_set
  met_Refines = Refines-store_channel t start i mask _ (omega arith) entry_Refines

  -- The state after the arrival, and what the call returns.
  abbrev Delivered : Run (FragmentReassembler × Option LcmMessage) → Type 0
  Delivered result =
      (after : FragmentReassembler) × (result ≡ ok (after, emitted t (set mask i true)))
      × IsValid after
      × Holds t start (kept t (set mask i true)) after
      × (after.timeout ≡ before.timeout)
      × (after.max_message_size ≡ before.max_message_size)

  abbrev marked : List Bool
  marked = set mask i true

  stored : (s' : FragmentSet) → lookup t.key (written r f sender s').pending ≡ some s'
  unfolding written
  stored s' = rw (lookup-insert t.key t.key s' r.pending, key_eq_refl t.key)

  stored_Delivered :
      (result : Run (FragmentReassembler × Option LcmMessage)) (s' : FragmentSet)
      → IsValid (written r f sender s')
      → Refines t start (seen_channel t marked) marked s'
      → count marked ≢ total t
      → result ≡ ok (written r f sender s', none)
      → Delivered result
  stored_Delivered result s' v refines more e =
      let open_ : is_complete t marked ≡ false = ==_ne (count marked) (total t) more in
      (
        written r f sender s',
        rw open_ e,
        v,
        rw open_ (inr (s', stored s', refines)),
        unfold expire_stale written in refl,
        unfold expire_stale written in refl,
      )

  gone : (s' : FragmentSet) → lookup t.key (removed r f sender s').pending ≡ none
  unfolding removed
  gone s' =
      lookup-remove_self t.key (insert t.key s' r.pending)
        (insert-Unique t.key s' r.pending (expire_stale-IsValid now before valid).unique)

  same_message :
      (s' : FragmentSet)
      → Refines t start (seen_channel t marked) marked s'
      → count marked ≡ total t
      → message_of f s' ≡ whole t
  unfolding message_of
  same_message s' refines last =
      let sizes : length marked ≡ total t = length-set mask i true ∙ covers in
      cc (
        refines.named,
        refines.filled,
        seen_complete t marked (omega arith) (omega arith),
        render_all marked t.chunks sizes last,
      )

  finished_Delivered :
      (result : Run (FragmentReassembler × Option LcmMessage)) (s' : FragmentSet)
      → IsValid (removed r f sender s')
      → Refines t start (seen_channel t marked) marked s'
      → count marked ≡ total t
      → result ≡ ok (removed r f sender s', some (message_of f s'))
      → Delivered result
  finished_Delivered result s' v refines last e =
      let done : is_complete t marked ≡ true = (==_iff (count marked) (total t)).1 last in
      (
        removed r f sender s',
        rw done (
            e
            ∙ ap (λ (m : LcmMessage). ok (removed r f sender s', some m))
                (same_message s' refines last)),
        v,
        rw done (inl (gone s', refl)),
        unfold expire_stale removed in refl,
        unfold expire_stale removed in refl,
      )

  met_pending : IsPendingSet r.max_message_size s
  unfolding expire_stale
  met_pending =
      met_set-IsPendingSet r f sender created (expire_stale-IsValid now before valid) few small

  by_outcome :
      Outcome r f sender s (process before f sender now created)
      → Delivered (process before f sender now created)
  by_outcome (oversized large e) = absurd (unfold expire_stale in omega arith)
  by_outcome (refused _ unwanted e) =
      let same : marked ≡ mask =
        Wants-unless-marked t start i _ mask s covers numbered met_Refines unwanted in
      let more : s.fragments_received < s.n_fragments =
        omega (arith, met_pending.waits, met_Refines.counted) in
      stored_Delivered _ s (IsValid-after before _ f sender now created none valid few e)
        (subst (λ m. Refines t start (seen_channel t marked) m s) (sym same) met_Refines)
        (λ last. absurd (omega (arith, met_Refines.received, met_Refines.counted, ap count same))) e
  by_outcome (incomplete _ w more e) =
      let refines =
        Refines-taken_set t start i _ mask s covers numbered met_pending.set met_Refines w in
      stored_Delivered _ (taken_set f s)
        (IsValid-after before _ f sender now created none valid few e) refines
        (λ last. absurd (omega (arith, refines.received, met_Refines.counted))) e
  by_outcome (complete _ w last e) =
      let refines =
        Refines-taken_set t start i _ mask s covers numbered met_pending.set met_Refines w in
      finished_Delivered _ (taken_set f s)
        (IsValid-after before _ f sender now created (some (message_of f (taken_set f s))) valid few
          e)
        refines (omega (arith, refines.received, met_Refines.counted)) e

  -- One fragment of a transfer, at a reassembler that holds an abstract state: the call returns the
  -- whole message if this number was the last one missing and nothing otherwise, and the reassembler
  -- holds the state with the number marked, or the empty state after the last one.
  pub process-Delivered : Delivered (process before f sender now created)
  process-Delivered = by_outcome (process-Outcome before f sender now created valid few)
