-- ===== src/Transport/Fragment/Ageing.antt =====
-- What a fragment does to a set does not depend on the time at which the set was created.
use zenoh_plugin_lcm.Base.{
  ℕ, ◌≡◌, refl, sym, ap, ◌∙◌, subst, arith, Bool, true, false, ◌&&◌, Option, none, some, Run, ok,
  panic, ltb, ◌==◌, Bool-cases, inl, inr,
}
use zenoh_plugin_lcm.Transport.Types.{LcmMessage}
use zenoh_plugin_lcm.Transport.Protocol.{Fragment}
use zenoh_plugin_lcm.Transport.Fragment.{
  FragmentKey, FragmentSet, new_set, or_insert, store_channel, accept,
}
use zenoh_plugin_lcm.Transport.Fragment.Abstract.{served, serve_set, serve}

-- A set up to the time of its creation.
abbrev pub timeless : Option FragmentSet → Option FragmentSet
timeless none = none
timeless (some s) = some (record s { created_at = 0 })

abbrev aged : ℕ → Run (FragmentSet × Bool) → Run (FragmentSet × Bool)
aged created panic = panic
aged created (ok (s, taken)) = ok (record s { created_at = created }, taken)

-- Neither the acceptance of a fragment nor its channel depends on the time of the set.
accept-aged :
    (f : Fragment) (s : FragmentSet) (created : ℕ)
    → accept f (record s { created_at = created }) ≡ aged created (accept f s)
unfolding accept
accept-aged f s created = ground arith

store_channel-aged :
    (f : Fragment) (s : FragmentSet) (created : ℕ)
    → store_channel f (record s { created_at = created })
      ≡ record (store_channel f s) { created_at = created }
unfolding store_channel
store_channel-aged f s created = ground arith

-- What is left under a key and the message, up to the time of the set.
abbrev pub SameServed :
    Run (Option FragmentSet × Option LcmMessage)
    → Run (Option FragmentSet × Option LcmMessage)
    → Type 0
SameServed panic b = b ≡ panic
SameServed (ok (o, m)) b = (o' : Option FragmentSet) × (b ≡ ok (o', m)) × (timeless o ≡ timeless o')

serve_set-SameServed :
    (key : FragmentKey) (created : ℕ) (a : Run (FragmentSet × Bool))
    → SameServed (serve_set key a) (serve_set key (aged created a))
serve_set-SameServed key created panic = refl
serve_set-SameServed key created (ok (s, taken)) =
    served-SameServed (taken && s.fragments_received == s.n_fragments)
  where
    served-SameServed :
        (done : Bool)
        → SameServed
            (ok (served key s done))
            (ok (served key (record s { created_at = created }) done))
    served-SameServed true = (none, refl, refl)
    served-SameServed false = (some (record s { created_at = created }), refl, refl)

-- Two services of an entry differ in the time of a set that they create, and in nothing else.
pub serve-SameServed :
    (max : ℕ) (f : Fragment) (key : FragmentKey) (created created' : ℕ) (held : Option FragmentSet)
    → SameServed (serve max f key created held) (serve max f key created' held)
unfolding serve new_set
serve-SameServed max f key created created' held = elim (Bool-cases (ltb max f.payload_size)) [
  | inl large ↦ rw large (held, refl, refl)
  | inr small ↦ rw small (entry held)
]
  where
    itself : (a : Run (Option FragmentSet × Option LcmMessage)) → SameServed a a
    itself panic = refl
    itself (ok (o, m)) = (o, refl, refl)

    entry :
        (o : Option FragmentSet)
        → SameServed
            (serve_set key (accept f (store_channel f (or_insert o (new_set f created)))))
            (serve_set key (accept f (store_channel f (or_insert o (new_set f created')))))
    entry none =
        let s : FragmentSet = store_channel f (new_set f created) in
        let same : accept f (store_channel f (new_set f created')) ≡ aged created' (accept f s) =
          ap (accept f) (store_channel-aged f (new_set f created) created')
          ∙ accept-aged f s created' in
        subst (λ a. SameServed (serve_set key (accept f s)) (serve_set key a)) (sym same)
          (serve_set-SameServed key created' (accept f s))
    entry (some s) = itself (serve_set key (accept f (store_channel f s)))
