-- ===== src/Plugin/Bridge/Tasks/Tracking.antt =====
-- The loop of `zenoh_to_lcm` and the set of sent numbers.
use zenoh_plugin_lcm.Base.{
  ℕ, suc, ◌+◌, ◌^◌, ◌≤◌, ◌<◌, ◌≡◌, refl, sym, ap, ◌∙◌, subst, arith, true, List, [], ◌∷◌, none,
  Bytes, length, Run, ok, Option, some, ◌++◌, Bool-cases, inl, inr,
}
use zenoh_plugin_lcm.Base.Str.{Str, codes}
use zenoh_plugin_lcm.Transport.Multicast.{Network, LcmTransport, Result, success, failure}
use zenoh_plugin_lcm.Transport.Multicast.Errors.{planned, Reports, send-Reports}
use zenoh_plugin_lcm.Plugin.Config.{RegexApi, Config, is_allowed}
use zenoh_plugin_lcm.Plugin.Mapping.{KeyExprApi, ZResult, key_expr_to_lcm_channel}
use zenoh_plugin_lcm.Plugin.Sequences.{SentSequences, has, record_sent}
use zenoh_plugin_lcm.Plugin.Sequences.Window.{IsDistinct, record_sent-IsDistinct-length}
use zenoh_plugin_lcm.Plugin.Bridge.{
  Bridge, after_send, transmit_sample, forward, on_sample, on_recorded,
}
use zenoh_plugin_lcm.Plugin.Bridge.Tasks.{
  Incoming, sample, closed, zenoh_to_lcm, Session, with_subscriber, subscribe,
}

-- A set of at most 10000 distinct numbers, all of which the counter has passed.
pub record IsTracked (counter : ℕ) (seqs : SentSequences) : Type 0 where
  pub distinct : IsDistinct seqs
  pub small : length seqs ≤ 10000
  pub passed : (m : ℕ) → has m seqs ≡ true → m < counter

record_sent-IsTracked :
    (n : ℕ) (seqs : SentSequences) → IsTracked n seqs → IsTracked (suc n) (record_sent n seqs)
record_sent-IsTracked n seqs t =
    let (d, small, _, below) =
      record_sent-IsDistinct-length n seqs t.distinct t.small
        (λ m h. omega (arith, t.passed m h)) in
    record { distinct = d; small = small; passed = λ m h. omega (arith, below m h) }

IsTracked-suc : (n : ℕ) (seqs : SentSequences) → IsTracked n seqs → IsTracked (suc n) seqs
IsTracked-suc n seqs t = record {
  distinct = t.distinct;
  small = t.small;
  passed = λ m h. omega (arith, t.passed m h);
}

module _ (regex : RegexApi) (keys : KeyExprApi) (net : Network) (config : Config regex) where
  open keys use {KeyExpr}

  -- A bridge between two samples: no number waits to be recorded, and the set is tracked.
  pub record IsSteady (left : ℕ) (b : Bridge regex keys) : Type 0 where
    pub idle : b.unrecorded ≡ none
    pub tracked : IsTracked b.transport.sequence_counter b.sent_sequences
    pub no_wrap : b.transport.sequence_counter + left < 2 ^ 32

  -- What one sample comes to.
  abbrev Serves : ℕ → Bridge regex keys → Run (Bridge regex keys) → Type 0
  Serves left b result =
      (b' : Bridge regex keys) × (result ≡ ok b')
      × IsSteady left (on_recorded regex keys b')
      × ((on_recorded regex keys b').published ≡ b.published)

  on_recorded-eq_self : (b : Bridge regex keys) → b.unrecorded ≡ none → on_recorded regex keys b ≡ b
  unfolding on_recorded
  on_recorded-eq_self b e = ground arith

  IsSteady-suc : (left : ℕ) (b : Bridge regex keys) → IsSteady (suc left) b → IsSteady left b
  IsSteady-suc left b s = record {
    idle = s.idle;
    tracked = s.tracked;
    no_wrap = omega (arith, s.no_wrap);
  }

  unserved : (left : ℕ) (b : Bridge regex keys) → IsSteady (suc left) b → Serves left b (ok b)
  unserved left b s =
      let same : on_recorded regex keys b ≡ b = on_recorded-eq_self b s.idle in
      (
        b,
        refl,
        subst (IsSteady left) (sym same) (IsSteady-suc left b s),
        ap (λ (x : Bridge regex keys). x.published) same,
      )

  sent_Serves :
      (left : ℕ) (b : Bridge regex keys) (tr : LcmTransport) (r : Result ℕ)
      → IsSteady (suc left) b
      → tr.sequence_counter ≡ suc b.transport.sequence_counter
      → ((n : ℕ) → r ≡ success n → n ≡ b.transport.sequence_counter)
      → Serves left b (ok (after_send regex keys b (tr, r)))
  unfolding on_recorded after_send
  sent_Serves left b tr (success n) s moved numbered =
      let at_counter : n ≡ b.transport.sequence_counter = numbered n refl in
      (
        _,
        refl,
        record {
          idle = refl;
          tracked = rw (moved, at_counter) (record_sent-IsTracked _ b.sent_sequences s.tracked);
          no_wrap = omega (arith, moved, s.no_wrap);
        },
        refl,
      )
  sent_Serves left b tr (failure e) s moved numbered =
      let sent : Bridge regex keys = record b { transport = tr } in
      let same : on_recorded regex keys sent ≡ sent = on_recorded-eq_self sent s.idle in
      (
        sent,
        refl,
        subst (IsSteady left) (sym same) (record {
          idle = s.idle;
          tracked = rw moved (IsTracked-suc _ b.sent_sequences s.tracked);
          no_wrap = omega (arith, moved, s.no_wrap);
        }),
        ap (λ (x : Bridge regex keys). x.published) same,
      )

  forward-Serves :
      (left : ℕ) (b : Bridge regex keys) (mapped : ZResult Str) (payload : Bytes)
      → IsSteady (suc left) b
      → Serves left b (forward regex keys net config mapped payload b)
  unfolding forward transmit_sample
  forward-Serves left b (ZResult.err e) payload s = unserved left b s
  forward-Serves left b (ZResult.ok channel) payload s =
      elim (Bool-cases (is_allowed regex channel config)) [
        | inl allowed ↦
            let (ds, r, run, _, reports) = send-Reports net b.transport channel payload in
            rw (allowed, run)
              (sent_Serves left b _ r s (omega (arith, s.no_wrap)) (numbered ds r reports))
        | inr not_allowed ↦ rw not_allowed (unserved left b s)
      ]
    where
      numbered :
          (ds : List Bytes) (r : Result ℕ)
          → Reports net b.transport channel (planned b.transport channel payload) ds r
          → (n : ℕ) → r ≡ success n
          → n ≡ b.transport.sequence_counter
      numbered ds (success m) h n e = ground arith
      numbered ds (failure x) h n e = cc

  -- Over a run of `zenoh_to_lcm` in which the counter does not wrap around, whatever the samples are and
  -- whatever the socket answers: the loop returns without a panic, it publishes nothing to Zenoh, no
  -- number is left to record, and the set is again one of at most 10000 distinct numbers
  -- that the counter has passed.
  zenoh_to_lcm-IsSteady :
      (incoming : List (Incoming regex keys)) (b : Bridge regex keys)
      → IsSteady (length incoming) b
      → (b' : Bridge regex keys) × (zenoh_to_lcm regex keys net config incoming b ≡ ok b')
        × IsSteady 0 b'
        × (b'.published ≡ b.published)
  unfolding zenoh_to_lcm on_sample
  zenoh_to_lcm-IsSteady [] b s = (b, refl, s, refl)
  zenoh_to_lcm-IsSteady (closed ∷ later) b s = (
    b,
    refl,
    record { idle = s.idle; tracked = s.tracked; no_wrap = omega (arith, s.no_wrap) },
    refl,
  )
  zenoh_to_lcm-IsSteady (sample ke payload ∷ later) b s =
      let (b1, run, steady, quiet) =
        forward-Serves (length later) b (key_expr_to_lcm_channel keys ke config.key_prefix) payload
          s in
      let (b', result, steady', quiet') =
        zenoh_to_lcm-IsSteady later (on_recorded regex keys b1) steady in
      (b', rw run result, steady', quiet' ∙ quiet)

  fewer_left : (m n : ℕ) (b : Bridge regex keys) → m ≤ n → IsSteady n b → IsSteady m b
  fewer_left m n b h s = record {
    idle = s.idle;
    tracked = s.tracked;
    no_wrap = omega (arith, s.no_wrap);
  }

  with_subscriber-IsSteady :
      (o : Option (List (Incoming regex keys))) (n : ℕ) (b : Bridge regex keys)
      → ((incoming : List (Incoming regex keys)) → o ≡ some incoming → length incoming ≤ n)
      → IsSteady n b
      → (b' : Bridge regex keys) × (with_subscriber regex keys net config o b ≡ ok b')
        × IsSteady 0 b'
        × (b'.published ≡ b.published)
  with_subscriber-IsSteady none n b few s = (b, refl, fewer_left 0 n b (omega arith) s, refl)
  with_subscriber-IsSteady (some incoming) n b few s =
      zenoh_to_lcm-IsSteady incoming b (fewer_left (length incoming) n b (few incoming refl) s)

  -- However the subscriber is declared and whatever it gives, at most `n` samples in all, and whatever the
  -- socket answers: if the counter does not wrap around within `n` samples, the task of `zenoh_to_lcm`
  -- returns without a panic, publishes nothing to Zenoh, leaves no number to record, and the set is
  -- again one of at most 10000 distinct numbers that the counter has passed.
  pub subscribe-IsSteady :
      (declare_subscriber : Session regex keys) (n : ℕ) (b : Bridge regex keys)
      → ((incoming : List (Incoming regex keys))
          → declare_subscriber (config.key_prefix ++ codes "/**") ≡ some incoming
          → length incoming ≤ n)
      → IsSteady n b
      → (b' : Bridge regex keys) × (subscribe regex keys net config declare_subscriber b ≡ ok b')
        × IsSteady 0 b'
        × (b'.published ≡ b.published)
  unfolding subscribe
  subscribe-IsSteady declare_subscriber =
      with_subscriber-IsSteady (declare_subscriber (config.key_prefix ++ codes "/**"))
