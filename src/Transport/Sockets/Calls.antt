-- ===== src/Transport/Sockets/Calls.antt =====
-- The calls that `LcmTransport::new` makes, in their order, and what it does when one fails.
use zenoh_plugin_lcm.Base.{
  ℕ, ◌≡◌, ◌↔◌, refl, sym, ap, ◌∙◌, subst, true, List, [], ◌∷◌, ◌++◌, Option, none, some,
  append_assoc, append-nil, Option-cases, inl, inr,
}
use zenoh_plugin_lcm.Transport.Multicast.{IoError, Result, success, failure}
use zenoh_plugin_lcm.Transport.Settings.{LcmTransportConfig, started}
use zenoh_plugin_lcm.Transport.Sockets.{
  Call, create, from_std, set_reuse_address, set_reuse_port, set_nonblocking, set_multicast_loop_v4,
  bind, set_recv_buffer_size, set_multicast_ttl_v4, join_multicast_v4, System, ◌>>◌, return, answer,
  unspecified, unwrap_or, call, error_of, new, set_up,
}

abbrev recv_buffer : Option ℕ → List Call
recv_buffer none = []
recv_buffer (some n) = set_recv_buffer_size n ∷ []

-- All the calls: the port can be shared before it is bound, and the group is joined on the interface of
-- the settings, or on any, when the rest is set.
abbrev pub plan : LcmTransportConfig → List Call
plan config =
    (create
      ∷ set_reuse_address true
      ∷ set_reuse_port true
      ∷ set_nonblocking true
      ∷ bind unspecified config.lcm_url.port
      ∷ [])
    ++ (recv_buffer config.lcm_url.recv_buf_size
        ++ (set_multicast_ttl_v4 config.lcm_url.ttl
            ∷ set_multicast_loop_v4 true
            ∷ join_multicast_v4 config.lcm_url.multicast_group
                (unwrap_or config.network_interface unspecified)
            ∷ from_std
            ∷ []))

-- The system takes the calls one after the other.
abbrev pub Accepted : System → List Call → List Call → Type 0
Accepted sys made [] = Unit {0}
Accepted sys made (c ∷ cs) = (sys made c ≡ none) × Accepted sys (made ++ (c ∷ [])) cs

-- The calls were all taken, or they were taken up to one that failed, after which none was made.
abbrev pub Performs :
    {A : Type 0} → System → List Call → List Call → A → Result A × List Call → Type 0
Performs sys made cs a (success a', calls) = (a' ≡ a) × (calls ≡ made ++ cs) × Accepted sys made cs
Performs sys made cs a (failure e, calls) =
    (done : List Call) × (c : Call) × (rest : List Call) × (cs ≡ done ++ (c ∷ rest))
    × (calls ≡ made ++ (done ++ (c ∷ [])))
    × Accepted sys made done
    × (sys (made ++ done) c ≡ some e)

perform : {A : Type 0} → System → List Call → A → List Call → Result A × List Call
perform sys [] a = return a
perform sys (c ∷ cs) a = call sys c >> perform sys cs a

perform-plan :
    (sys : System) (config : LcmTransportConfig) (made : List Call)
    → new sys config made ≡ perform sys (plan config) (started config) made
unfolding new perform
perform-plan sys config made = elim (Option-cases config.lcm_url.recv_buf_size) [
  | inl unset ↦ rw unset refl
  | inr (n, set) ↦ rw set refl
]

extend :
    {A : Type 0} (sys : System) (made : List Call) (c : Call) (cs : List Call) (a : A)
    (r : Result A × List Call)
    → sys made c ≡ none
    → Performs sys (made ++ (c ∷ [])) cs a r
    → Performs sys made (c ∷ cs) a r
extend sys made c cs a (success a', calls) fine (same, all, taken) =
    (same, all ∙ append_assoc made (c ∷ []) cs, (fine, taken))
extend sys made c cs a (failure e, calls) fine (done, d, rest, split, all, taken, bad) = (
  c ∷ done,
  d,
  rest,
  ap (λ l. c ∷ l) split,
  all ∙ append_assoc made (c ∷ []) (done ++ (d ∷ [])),
  (fine, taken),
  subst (λ l. sys l d ≡ some e) (append_assoc made (c ∷ []) done) bad,
)

after_answer :
    {A : Type 0} (sys : System) (made : List Call) (c : Call) (cs : List Call) (a : A)
    (o : Option IoError)
    → sys made c ≡ o
    → Performs sys (made ++ (c ∷ [])) cs a (perform sys cs a (made ++ (c ∷ [])))
    → Performs sys made
        (c ∷ cs)
        a
        (◌>>◌ (λ (before : List Call). (answer o, before ++ (c ∷ []))) (perform sys cs a) made)
after_answer sys made c cs a none fine h = extend sys made c cs a _ fine h
after_answer sys made c cs a (some e) bad h =
    ([], c, cs, refl, refl, tt, subst (λ l. sys l c ≡ some e) (sym (append-nil made)) bad)

perform-Performs :
    {A : Type 0} (sys : System) (cs : List Call) (a : A) (made : List Call)
    → Performs sys made cs a (perform sys cs a made)
unfolding perform
perform-Performs sys [] a made = (refl, sym (append-nil made), tt)
perform-Performs sys (c ∷ cs) a made =
    after_answer sys made c cs a (sys made c) refl (perform-Performs sys cs a (made ++ (c ∷ [])))

-- Whatever the system answers, `new` makes the calls of its plan, in their order, up to the first that
-- fails. If none fails, it returns the transport of the settings; if one does, it returns that error and
-- makes no further call.
pub new-Performs :
    (sys : System) (config : LcmTransportConfig)
    → Performs sys [] (plan config) (started config) (new sys config [])
new-Performs sys config =
    subst (Performs sys [] (plan config) (started config)) (sym (perform-plan sys config []))
      (perform-Performs sys (plan config) (started config) [])

Accepted-append :
    (sys : System) (made done : List Call) (c : Call) (rest : List Call)
    → Accepted sys made (done ++ (c ∷ rest))
    → sys (made ++ done) c ≡ none
Accepted-append sys made [] c rest (fine, _) =
    subst (λ l. sys l c ≡ none) (sym (append-nil made)) fine
Accepted-append sys made (d ∷ done) c rest (_, taken) =
    subst (λ l. sys l c ≡ none) (append_assoc made (d ∷ []) done)
      (Accepted-append sys (made ++ (d ∷ [])) done c rest taken)

error_of_iff :
    {A : Type 0} (sys : System) (cs : List Call) (a : A) (r : Result A × List Call)
    → Performs sys [] cs a r
    → (error_of r.0 ≡ none) ↔ Accepted sys [] cs
error_of_iff sys cs a (success a', calls) (_, _, taken) = (λ _. taken, λ _. refl)
error_of_iff sys cs a (failure e, calls) (done, c, rest, split, _, _, bad) = (
  λ x. cc,
  λ taken.
      let fine : sys done c ≡ none =
        Accepted-append sys [] done c rest (subst (Accepted sys []) split taken) in
      let bad' : sys done c ≡ some e = bad in cc,
)

-- `new` succeeds exactly when the system takes all calls of its plan.
pub set_up_iff :
    (sys : System) (config : LcmTransportConfig)
    → (set_up sys config ≡ none) ↔ Accepted sys [] (plan config)
unfolding set_up
set_up_iff sys config = error_of_iff sys (plan config) (started config) _ (new-Performs sys config)
