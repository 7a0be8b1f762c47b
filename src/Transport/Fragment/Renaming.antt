-- ===== src/Transport/Fragment/Renaming.antt =====
-- A first fragment stores its channel before it is checked.
use zenoh_plugin_lcm.Base.{
  ℕ, ◌+◌, ◌≤◌, ◌<◌, ◌^◌, ◌≡◌, ◌≢◌, refl, ap, ◌∙◌, subst, arith, false, Option, none, some, ok,
}
use zenoh_plugin_lcm.Base.Str.{Str}
use zenoh_plugin_lcm.Transport.Protocol.{Fragment}
use zenoh_plugin_lcm.Transport.Fragment.{
  SocketAddr, FragmentKey, FragmentSet, FragmentReassembler, lookup, is_stale, expire_stale,
  new_set, or_insert, store_channel, process,
}
use zenoh_plugin_lcm.Transport.Fragment.Map.{
  key_eq_refl, lookup-insert, keep_fresh, lookup-retain_fresh,
}
use zenoh_plugin_lcm.Transport.Fragment.Accept.{Wants, taken_set}
use zenoh_plugin_lcm.Transport.Fragment.Process.{
  IsPendingSet, IsValid, met_set, written, message_of, Outcome, oversized, refused, incomplete,
  complete, process-Outcome,
}
use zenoh_plugin_lcm.Transport.Fragment.Safety.{process-IsValid}

-- A set that is pending and not stale when a fragment comes.
abbrev pub IsPending : FragmentReassembler → FragmentKey → ℕ → FragmentSet → Type 0
IsPending r key now s = (lookup key r.pending ≡ some s) × (is_stale r.timeout now s ≡ false)

lookup-expire_stale :
    (r : FragmentReassembler) (key : FragmentKey) (now : ℕ) (s : FragmentSet)
    → IsValid r
    → IsPending r key now s
    → lookup key (expire_stale now r).pending ≡ some s
unfolding expire_stale
lookup-expire_stale r key now s v (there, young) =
    lookup-retain_fresh r.timeout now key r.pending v.unique
    ∙ ap (keep_fresh r.timeout now) there
    ∙ rw young refl

met_set_pending :
    (r : FragmentReassembler) (f : Fragment) (sender : SocketAddr) (now created : ℕ)
    (s : FragmentSet)
    → IsValid r
    → IsPending r (sender, f.sequence_number) now s
    → met_set (expire_stale now r) f sender created ≡ store_channel f s
unfolding met_set
met_set_pending r f sender now created s v h =
    ap (λ (o : Option FragmentSet). store_channel f (or_insert o (new_set f created)))
      (lookup-expire_stale r (sender, f.sequence_number) now s v h)

lookup-written :
    (r : FragmentReassembler) (f : Fragment) (sender : SocketAddr) (s : FragmentSet)
    → lookup (sender, f.sequence_number) (written r f sender s).pending ≡ some s
unfolding written
lookup-written r f sender s =
    lookup-insert (sender, f.sequence_number) (sender, f.sequence_number) s r.pending
    ∙ rw (key_eq_refl (sender, f.sequence_number)) refl

store_channel_first :
    (f : Fragment) (s : FragmentSet) (c : Str)
    → f.fragment_number ≡ 0
    → f.channel ≡ some c
    → store_channel f s ≡ record s { channel = c }
unfolding store_channel
store_channel_first f s c h k = ground arith

store_channel_later :
    (g : Fragment) (s : FragmentSet) → g.fragment_number ≢ 0 → store_channel g s ≡ s
unfolding store_channel
store_channel_later g s h = ground arith

-- A fragment 0 that announces another size than the pending set under its key is refused.
module _ (r : FragmentReassembler) (f : Fragment) (sender : SocketAddr) (now created : ℕ)
    (s : FragmentSet) (c : Str) (v : IsValid r) (few : f.n_fragments < 2 ^ 16)
    (pending : IsPending r (sender, f.sequence_number) now s) (first : f.fragment_number ≡ 0)
    (named : f.channel ≡ some c) (small : f.payload_size ≤ r.max_message_size)
    (differs : f.payload_size ≢ s.payload_size) where
  renamed : FragmentSet
  renamed = record s { channel = c }

  refused_written :
      process r f sender now created ≡ ok (written (expire_stale now r) f sender renamed, none)
  unfolding renamed expire_stale
  refused_written = by_outcome (
      subst (λ x. Outcome (expire_stale now r) f sender x (process r f sender now created)) met
        (process-Outcome r f sender now created v few))
    where
      met : met_set (expire_stale now r) f sender created ≡ renamed
      met =
          met_set_pending r f sender now created s v pending ∙ store_channel_first f s c first named

      by_outcome :
          Outcome (expire_stale now r) f sender renamed (process r f sender now created)
          → process r f sender now created
            ≡ ok (written (expire_stale now r) f sender renamed, none)
      by_outcome (oversized large e) = absurd (omega arith)
      by_outcome (refused _ _ e) = e
      by_outcome (incomplete _ wants _ e) = absurd (differs wants.same_size)
      by_outcome (complete _ wants _ e) = absurd (differs wants.same_size)

-- The last fragment of a pending set, other than the first.
pub record IsLast (g : Fragment) (s : FragmentSet) : Type 0 where
  pub wants : Wants g s
  pub last : s.fragments_received + 1 ≡ s.n_fragments
  pub later : g.fragment_number ≢ 0

IsLast-renamed :
    (g : Fragment) (s : FragmentSet) (c : Str) → IsLast g s → IsLast g (record s { channel = c })
IsLast-renamed g s c h = record {
  wants = record {
    same_size = h.wants.same_size;
    same_count = h.wants.same_count;
    numbered = h.wants.numbered;
    unseen = h.wants.unseen;
    inside = h.wants.inside;
  };
  last = h.last;
  later = h.later;
}

-- The last fragment brings the message of the set, with the set's channel.
abbrev pub Completes :
    FragmentReassembler → Fragment → SocketAddr → ℕ → ℕ → FragmentSet → Str → Type 0
Completes r g sender now created s channel =
    (after : FragmentReassembler) × (process r g sender now created
      ≡ ok (
        after,
        some (record {
          channel = channel;
          sequence_number = g.sequence_number;
          payload = (taken_set g s).buffer;
        }),
      ))

process_last :
    (r : FragmentReassembler) (g : Fragment) (sender : SocketAddr) (now created : ℕ)
    (s : FragmentSet)
    → IsValid r
    → IsPending r (sender, g.sequence_number) now s
    → IsLast g s
    → Completes r g sender now created s s.channel
unfolding message_of
process_last r g sender now created s v pending h = by_outcome (
    subst (λ x. Outcome (expire_stale now r) g sender x (process r g sender now created)) met
      (process-Outcome r g sender now created v few))
  where
    set_is : IsPendingSet r.max_message_size s
    set_is = v.sets (sender, g.sequence_number) s pending.0

    few : g.n_fragments < 2 ^ 16
    few = omega (arith, set_is.set.fits, h.wants.same_count)

    met : met_set (expire_stale now r) g sender created ≡ s
    met = met_set_pending r g sender now created s v pending ∙ store_channel_later g s h.later

    limit : (expire_stale now r).max_message_size ≡ r.max_message_size
    limit = unfold expire_stale in refl

    by_outcome :
        Outcome (expire_stale now r) g sender s (process r g sender now created)
        → Completes r g sender now created s s.channel
    by_outcome (oversized large e) =
        absurd (omega (arith, large, limit, set_is.bounded, h.wants.same_size))
    by_outcome (refused _ unwanted e) = absurd (unwanted h.wants)
    by_outcome (incomplete _ _ more e) = absurd (omega (arith, more, h.last))
    by_outcome (complete _ _ _ e) = (_, e)

expire_stale-timeout :
    (r : FragmentReassembler) (now : ℕ) → (expire_stale now r).timeout ≡ r.timeout
unfolding expire_stale
expire_stale-timeout r now = refl

written-timeout :
    (r : FragmentReassembler) (f : Fragment) (sender : SocketAddr) (s : FragmentSet)
    → (written r f sender s).timeout ≡ r.timeout
unfolding written
written-timeout r f sender s = refl

-- A set is pending that lacks only the fragment `g`. A fragment 0 of the same sender and sequence number
-- announces another payload size: it is refused, but its channel stays in the set. `g` then completes
-- the message, which is delivered on the channel of the refused fragment, where without that fragment
-- it would have been delivered, with the same payload, on the channel of the set.
pub process-refused :
    (r : FragmentReassembler) (f g : Fragment) (sender : SocketAddr) (now created now' created' : ℕ)
    (s : FragmentSet) (c : Str)
    → IsValid r
    → f.n_fragments < 2 ^ 16
    → IsPending r (sender, f.sequence_number) now s
    → is_stale r.timeout now' s ≡ false
    → f.fragment_number ≡ 0
    → f.channel ≡ some c
    → f.payload_size ≤ r.max_message_size
    → f.payload_size ≢ s.payload_size
    → g.sequence_number ≡ f.sequence_number
    → IsLast g s
    → (between : FragmentReassembler) × (process r f sender now created ≡ ok (between, none))
      × Completes between g sender now' created' s c
      × Completes r g sender now' created' s s.channel
unfolding renamed
process-refused r f g sender now created now' created' s c v few pending young first named small
      differs same last =
    let between : FragmentReassembler =
      written (expire_stale now r) f sender (record s { channel = c }) in
    let run = refused_written r f sender now created s c v few pending first named small differs in
    let (a, m, e, va, _) = process-IsValid r f sender now created v few in
    let there : a ≡ between = cc in
    let vb : IsValid between = subst IsValid there va in
    let age : between.timeout ≡ r.timeout =
      written-timeout (expire_stale now r) f sender (record s { channel = c })
      ∙ expire_stale-timeout r now in
    let found : lookup (sender, g.sequence_number) between.pending
        ≡ some (record s { channel = c }) =
      ap (λ (n : ℕ). lookup (sender, n) between.pending) same
      ∙ lookup-written (expire_stale now r) f sender (record s { channel = c }) in
    (
      between,
      run,
      process_last between g sender now' created' (record s { channel = c }) vb
          (found, ap (λ (t : ℕ). is_stale t now' s) age ∙ young) (IsLast-renamed g s c last),
      process_last r g sender now' created' s v
          (ap (λ (n : ℕ). lookup (sender, n) r.pending) same ∙ pending.0, young) last,
    )
