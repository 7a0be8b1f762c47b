-- ===== src/Transport/Fragment/Independence.antt =====
-- Fragments of different messages, in either order.
use zenoh_plugin_lcm.Base.{
  ℕ, ◌+◌, ◌≤◌, ◌<◌, ◌^◌, ◌≡◌, ◌≢◌, refl, sym, ap, ◌∙◌, subst, Bool-cases, inl, inr, Option, Run, ok,
  panic,
}
use zenoh_plugin_lcm.Transport.Types.{LcmMessage}
use zenoh_plugin_lcm.Transport.Protocol.{Fragment}
use zenoh_plugin_lcm.Transport.Fragment.{
  SocketAddr, FragmentKey, FragmentSet, FragmentReassembler, key_eq, lookup, process,
}
use zenoh_plugin_lcm.Transport.Fragment.Process.{IsValid}
use zenoh_plugin_lcm.Transport.Fragment.Safety.{process-IsValid}
use zenoh_plugin_lcm.Transport.Fragment.Abstract.{FragmentMap, update, view, refresh}
use zenoh_plugin_lcm.Transport.Fragment.Ageing.{timeless, SameServed, serve-SameServed}
use zenoh_plugin_lcm.Transport.Fragment.Commute.{
  Serves, update_comm, process-Serves, second-Serves, NoneExpires, refresh-NoneExpires,
  IsFresh-refresh,
}

-- The readings of the clock in a call: for the expiry, and for a set that the call creates.
pub record Reading : Type 0 where
  pub now : ℕ
  pub created : ℕ

same_answer :
    (a b : Run (Option FragmentSet × Option LcmMessage)) (o p : Option FragmentSet)
    (m n : Option LcmMessage)
    → SameServed a b
    → a ≡ ok (o, m)
    → b ≡ ok (p, n)
    → (timeless o ≡ timeless p) × (m ≡ n)
same_answer panic b o p m n same h k = cc
same_answer (ok (o', m')) b o p m n (p', e, times) h k =
    let left : o' ≡ o = cc in
    let right : p' ≡ p = cc in (sym (ap timeless left) ∙ times ∙ ap timeless right, cc)

update-timeless :
    (k : FragmentKey) (o p : Option FragmentSet) (x y : FragmentMap) (i : FragmentKey)
    → timeless o ≡ timeless p
    → timeless (x i) ≡ timeless (y i)
    → timeless (update k o x i) ≡ timeless (update k p y i)
update-timeless k o p x y i held rest = elim (Bool-cases (key_eq k i)) [
  | inl hit ↦ rw hit held
  | inr miss ↦ rw miss rest
]

-- Two fragments of different senders or sequence numbers, each of fewer than 2 ^ 16 fragments in all,
-- reach a valid reassembler, in either order, each call with its own readings of the clock: each set
-- that is pending at first is stale at all of the readings or at none, and a set that the first call
-- of an order creates is not stale at the second. Then in either order both calls return, each
-- fragment with the same message, and in the end the same set, up to the time of its creation, is
-- pending under every key.
pub process-process_comm :
    (r : FragmentReassembler) (f g : Fragment) (src dst : SocketAddr) (a b c d : Reading)
    → IsValid r
    → f.n_fragments < 2 ^ 16
    → g.n_fragments < 2 ^ 16
    → ◌≢◌ {A = FragmentKey} (src, f.sequence_number) (dst, g.sequence_number)
    → NoneExpires r a.now b.now
    → NoneExpires r a.now c.now
    → NoneExpires r a.now d.now
    → b.now ≤ a.created + r.timeout
    → d.now ≤ c.created + r.timeout
    → (m n : Option LcmMessage) × (r1 r12 r2 r21 : FragmentReassembler) × (process r f src a.now
          a.created
        ≡ ok (r1, m))
      × (process r1 g dst b.now b.created ≡ ok (r12, n))
      × (process r g dst c.now c.created ≡ ok (r2, n))
      × (process r2 f src d.now d.created ≡ ok (r21, m))
      × ((k : FragmentKey) → timeless (lookup k r12.pending) ≡ timeless (lookup k r21.pending))
process-process_comm r f g src dst a b c d v hf hg other ab ac ad soon soon' =
    let j : FragmentKey = (src, f.sequence_number) in
    let k : FragmentKey = (dst, g.sequence_number) in
    let fresh : FragmentMap = refresh r.timeout a.now (view r.pending) in
    let at_c = refresh-NoneExpires r a.now c.now ac in
    let (r1, m, e1, v1, _) = process-IsValid r f src a.now a.created v hf in
    let (r12, n, e12, _, _) = process-IsValid r1 g dst b.now b.created v1 hg in
    let (r2, n', e2, v2, _) = process-IsValid r g dst c.now c.created v hg in
    let (r21, m', e21, _, _) = process-IsValid r2 f src d.now d.created v2 hf in
    let first : Serves r f j a.created fresh r1 m =
      process-Serves r f src a.now a.created r1 m v.unique e1 in
    let second : Serves r g k c.created fresh r2 n' =
      subst (λ (x : FragmentMap). Serves r g k c.created x r2 n') at_c
        (process-Serves r g dst c.now c.created r2 n' v.unique e2) in
    let (o, so, vo) =
      second-Serves r r1 f g j k b.now a.created b.created m n r12 fresh other
        (IsFresh-refresh r a.now b.now ab) soon first
        (process-Serves r1 g dst b.now b.created r12 n v1.unique e12) in
    let (p, sp, vp) =
      second-Serves r r2 g f k j d.now c.created d.created n' m' r21 fresh (λ e. other (sym e))
        (IsFresh-refresh r a.now d.now ad) soon' second
        (process-Serves r2 f src d.now d.created r21 m' v2.unique e21) in
    let (held_g, same_n) =
      same_answer _ _ o second.0 n n'
        (serve-SameServed r.max_message_size g k b.created c.created (fresh k)) so second.1 in
    let (held_f, same_m) =
      same_answer _ _ first.0 p m m'
        (serve-SameServed r.max_message_size f j a.created d.created (fresh j)) first.1 sp in
    let swapped : view r21.pending ≡ update k second.0 (update j p fresh) =
      vp ∙ update_comm j k p second.0 fresh other in
    (
      m,
      n,
      r1,
      r12,
      r2,
      r21,
      e1,
      e12,
      e2 ∙ ap (λ x. ok (r2, x)) (sym same_n),
      e21 ∙ ap (λ x. ok (r21, x)) (sym same_m),
      λ i.
          ap (λ (x : FragmentMap). timeless (x i)) vo
          ∙ update-timeless k o second.0 (update j first.0 fresh) (update j p fresh) i held_g
              (update-timeless j first.0 p fresh fresh i held_f refl)
          ∙ ap (λ (x : FragmentMap). timeless (x i)) (sym swapped),
    )
