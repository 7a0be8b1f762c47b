-- ===== src/Transport/Fragment/Sessions.antt =====
-- A whole history of arrivals, from several senders, against the abstract machine of one transfer.
use zenoh_plugin_lcm.Base.{
  ℕ, ◌-◌, ◌+◌, ◌≤◌, ◌<◌, ◌^◌, ◌≡◌, ◌≢◌, inl, inr, refl, ap₂, arith, Bool, true, false, List, [],
  ◌∷◌, Option, none, some, ap, ◌∙◌, Run, ok, ◌>>=◌, if◌then◌else◌, le→ltb, length, set, All,
  Bool-cases, length-set, length-replicate,
}
use zenoh_plugin_lcm.Transport.Types.{LcmMessage}
use zenoh_plugin_lcm.Transport.Protocol.{Fragment}
use zenoh_plugin_lcm.Transport.Fragment.{
  SocketAddr, FragmentKey, FragmentReassembler, key_eq, lookup, process,
}
use zenoh_plugin_lcm.Transport.Fragment.Map.{keep_fresh, key_eq_iff}
use zenoh_plugin_lcm.Transport.Fragment.Process.{IsValid}
use zenoh_plugin_lcm.Transport.Fragment.Safety.{process-IsValid}
use zenoh_plugin_lcm.Transport.Fragment.Isolation.{process-lookup_ne}
use zenoh_plugin_lcm.Transport.Fragment.Transfer.{
  Transfer, total, content, fragment_of, is_complete, emitted, kept, deliveries, Holds,
}
use zenoh_plugin_lcm.Transport.Fragment.Delivery.{process-Delivered}

-- A fragment as the socket hands it over, with the clock readings of the call.
pub record Arrival : Type 0 where
  pub fragment : Fragment
  pub sender : SocketAddr
  pub now : ℕ
  pub created : ℕ

abbrev pub key_of : Arrival → FragmentKey
key_of a = (a.sender, a.fragment.sequence_number)

abbrev log :
    FragmentKey
    → Option LcmMessage
    → List (FragmentKey × LcmMessage)
    → List (FragmentKey × LcmMessage)
log k none ms = ms
log k (some m) ms = (k, m) ∷ ms

-- All arrivals in turn, with each message under the key of the fragment that completed it.
unfoldable pub process_each :
    FragmentReassembler → List Arrival → Run (FragmentReassembler × List (FragmentKey × LcmMessage))
process_each r [] = ok (r, [])
process_each r (a ∷ later) = do
  (r', m) ← process r a.fragment a.sender a.now a.created
  (r'', ms) ← process_each r' later
  ok (r'', log (key_of a) m ms)

unfoldable pub messages_under : FragmentKey → List (FragmentKey × LcmMessage) → List LcmMessage
messages_under k [] = []
messages_under k ((j, m) ∷ ms) =
    let rest = messages_under k ms in if key_eq j k then m ∷ rest else rest

-- The numbers of the transfer's own fragments, in the order of their arrival.
unfoldable pub numbers_under : FragmentKey → List Arrival → List ℕ
numbers_under k [] = []
numbers_under k (a ∷ later) =
    let rest = numbers_under k later in
    if key_eq (key_of a) k then a.fragment.fragment_number ∷ rest else rest

-- An arrival in the window of a transfer: a fragment of the transfer if it comes under the transfer's
-- key, and any fragment otherwise.
pub record Fits (t : Transfer) (start timeout : ℕ) (a : Arrival) : Type 0 where
  pub soon : a.now ≤ start + timeout
  pub later : start ≤ a.created
  pub fits_word : a.fragment.n_fragments < 2 ^ 16
  pub genuine :
      key_of a ≡ t.key
      → (a.fragment.fragment_number < total t)
        × (a.fragment ≡ fragment_of t a.fragment.fragment_number)

-- Arrivals under other keys leave the abstract state alone.
Holds-other :
    (t : Transfer) (start : ℕ) (mask : List Bool) (before after : FragmentReassembler) (now : ℕ)
    → now ≤ start + before.timeout
    → lookup t.key after.pending ≡ keep_fresh before.timeout now (lookup t.key before.pending)
    → Holds t start mask before
    → Holds t start mask after
Holds-other t start mask before after now soon e (inl (gone, fresh)) = inl (rw (e, gone), fresh)
Holds-other t start mask before after now soon e (inr (s, found, v)) =
    let recent : start ≤ s.created_at = v.recent in
    inr (s, rw (e, found, le→ltb before.timeout (now - s.created_at) (omega arith)), v)

kept-length :
    (t : Transfer) (mask : List Bool) → length mask ≡ total t → length (kept t mask) ≡ total t
kept-length t mask h = elim (Bool-cases (is_complete t mask)) [
  | inl e ↦ rw e (length-replicate (total t) false)
  | inr e ↦ rw e h
]

module _ (t : Transfer) (start timeout max : ℕ) (few : total t < 2 ^ 16)
    (small : length (content t) ≤ max) where
  -- The reassembler between two arrivals.
  pub record Stands (mask : List Bool) (r : FragmentReassembler) : Type 0 where
    pub valid : IsValid r
    pub holds : Holds t start mask r
    pub covers : length mask ≡ total t
    pub same_timeout : r.timeout ≡ timeout
    pub same_max : r.max_message_size ≡ max

  -- `process_each` returns, and under the transfer's key it yields what the abstract machine yields.
  abbrev Agrees : FragmentReassembler → List Bool → List Arrival → Type 0
  Agrees r mask history =
      (after : FragmentReassembler) × (ms : List (FragmentKey × LcmMessage)) × (process_each r
          history
        ≡ ok (after, ms))
      × (messages_under t.key ms ≡ deliveries t mask (numbers_under t.key history))

  pub own_step :
      (mask : List Bool) (r : FragmentReassembler) (a : Arrival)
      → Stands mask r
      → Fits t start timeout a
      → key_of a ≡ t.key
      → let marked = set mask a.fragment.fragment_number true in
        (after : FragmentReassembler) × (process r a.fragment a.sender a.now a.created
          ≡ ok (after, emitted t marked))
        × Stands (kept t marked) after
  own_step mask r a st fit e =
      let i = a.fragment.fragment_number in
      let (numbered, same) = fit.genuine e in
      let sender : a.sender ≡ t.key.0 = ap (λ (k : FragmentKey). k.0) e in
      let (after, run, v, h, time, max) =
        process-Delivered t start mask r i a.now a.created st.valid few (rw (st.same_max) small)
          numbered st.covers st.holds (rw (st.same_timeout) fit.soon) fit.later in
      (
        after,
        ap₂ (λ (f : Fragment) (k : SocketAddr). process r f k a.now a.created) same sender ∙ run,
        record {
          valid = v;
          holds = h;
          covers = kept-length t _ (length-set mask i true ∙ st.covers);
          same_timeout = time ∙ st.same_timeout;
          same_max = max ∙ st.same_max;
        },
      )

  other_step :
      (mask : List Bool) (r : FragmentReassembler) (a : Arrival)
      → Stands mask r
      → Fits t start timeout a
      → key_of a ≢ t.key
      → (after : FragmentReassembler) × (m : Option LcmMessage) × (process r a.fragment a.sender
            a.now a.created
          ≡ ok (after, m))
        × Stands mask after
  other_step mask r a st fit other =
      let (after, m, run, v, _) =
        process-IsValid r a.fragment a.sender a.now a.created st.valid fit.fits_word in
      let (found, time, max) =
        process-lookup_ne r after a.fragment a.sender a.now a.created m t.key st.valid fit.fits_word
          other run in
      (
        after,
        m,
        run,
        record {
          valid = v;
          holds =
              Holds-other t start mask r after a.now (rw (st.same_timeout) fit.soon) found st.holds;
          covers = st.covers;
          same_timeout = time ∙ st.same_timeout;
          same_max = max ∙ st.same_max;
        },
      )

  own_log :
      (k : FragmentKey) (mask : List Bool) (ms : List (FragmentKey × LcmMessage)) (n : ℕ)
      (ns : List ℕ)
      → k ≡ t.key
      → messages_under t.key ms ≡ deliveries t (kept t (set mask n true)) ns
      → messages_under t.key (log k (emitted t (set mask n true)) ms) ≡ deliveries t mask (n ∷ ns)
  unfolding messages_under deliveries
  own_log k mask ms n ns e h = ground (arith, key_eq_iff k t.key)

  other_log :
      (k : FragmentKey) (m : Option LcmMessage) (ms : List (FragmentKey × LcmMessage))
      → k ≢ t.key
      → messages_under t.key (log k m ms) ≡ messages_under t.key ms
  unfolding messages_under
  other_log k none ms h = refl
  other_log k (some m) ms h = ground (arith, key_eq_iff k t.key)

  -- For a transfer of fewer than 2 ^ 16 chunks, within the size limit, at a reassembler that stands
  -- at a state of the transfer's abstract machine (a mask of the chunks that have come), and for a
  -- history within one timeout in which what comes under the transfer's key is genuine: whatever
  -- the order, the repetitions and the traffic of others, all calls of `process` return, and under
  -- the transfer's key they yield what the machine yields for the numbers that arrived.
  pub process_each-Agrees :
      (history : List Arrival) (mask : List Bool) (r : FragmentReassembler)
      → Stands mask r
      → All (Fits t start timeout) history
      → Agrees r mask history
  unfolding process_each numbers_under
  process_each-Agrees [] mask r st fits = (r, [], refl, unfold messages_under deliveries in refl)
  process_each-Agrees (a ∷ history) mask r st fits = elim (Bool-cases (key_eq (key_of a) t.key)) [
    | inl hit ↦
        let own : key_of a ≡ t.key = (key_eq_iff (key_of a) t.key).0 hit in
        let (r', run, st') = own_step mask r a st fits.0 own in
        let (after, ms, runs, same) = process_each-Agrees history _ r' st' fits.1 in
        (
          after,
          log (key_of a) (emitted t (set mask a.fragment.fragment_number true)) ms,
          rw (run, runs),
          rw hit (own_log (key_of a) mask ms a.fragment.fragment_number _ own same),
        )
    | inr miss ↦
        let other : key_of a ≢ t.key = ground (arith, key_eq_iff (key_of a) t.key) in
        let (r', m, run, st') = other_step mask r a st fits.0 other in
        let (after, ms, runs, same) = process_each-Agrees history mask r' st' fits.1 in
        (
          after,
          log (key_of a) m ms,
          rw (run, runs),
          rw miss (other_log (key_of a) m ms other ∙ same),
        )
  ]
