-- ===== src/Plugin/Runtime/Sizes.antt =====
-- Which configuration decides on the sizes of the thread pool.
use zenoh_plugin_lcm.Base.{
  Bool-cases, inl, inr, ◌≡◌, refl, sym, ap, ◌∙◌, arith, Bool, true, false, List, [], ◌∷◌, Option,
  none, some, if◌then◌else◌,
}
use zenoh_plugin_lcm.Plugin.Config.{RegexApi}
use zenoh_plugin_lcm.Plugin.Mapping.{KeyExprApi}
use zenoh_plugin_lcm.Plugin.Startup.{LcmPlugin, Start, start}
use zenoh_plugin_lcm.Plugin.Runtime.{
  PoolSize, LazyRuntime, unused, poisoned, built, Statics, initial_statics, on_current, on_pool,
  build_runtime, force, spawn_on, spawn_runtime, Attempt, Launch, launched, panicked, launch_of,
  store, launch_with, launch, launches,
}

module _ (regex : RegexApi) (keys : KeyExprApi) where
  -- The sizes that the configuration of a plugin asks for.
  abbrev pub asked : LcmPlugin regex keys → PoolSize
  asked p = record {
    worker_threads = p.config.work_thread_num;
    max_blocking_threads = p.config.max_block_thread_num;
  }

  -- The plugin of a call outside of a runtime.
  abbrev outside : Bool → Start regex keys → Option (LcmPlugin regex keys)
  outside true s = none
  outside false (Start.refused e) = none
  outside false (Start.plugin p) = some p

  abbrev or_else :
      Option (LcmPlugin regex keys) → Option (LcmPlugin regex keys) → Option (LcmPlugin regex keys)
  or_else none later = later
  or_else (some p) later = some p

  -- The first plugin of a history that is started outside of a runtime.
  abbrev pub first_outside : List Attempt → Option (LcmPlugin regex keys)
  first_outside [] = none
  first_outside (a ∷ rest) =
      or_else (outside a.current (start regex keys a.plugin_conf)) (first_outside rest)

  -- The plugin that decides on the sizes: the first one, or else the new one.
  abbrev pub deciding : Option (LcmPlugin regex keys) → LcmPlugin regex keys → LcmPlugin regex keys
  deciding none p = p
  deciding (some q) p = q

  module _ (builds : PoolSize → Bool) where
    -- The thread pool that it leaves.
    abbrev pool_of : Option (LcmPlugin regex keys) → LazyRuntime
    pool_of none = unused
    pool_of (some p) = build_runtime builds (asked p)

    -- What is left of the pool `r` after a history with that first plugin.
    abbrev settle : LazyRuntime → Option (LcmPlugin regex keys) → LazyRuntime
    settle unused q = pool_of q
    settle poisoned q = poisoned
    settle (built size) q = built size

    settle-build_runtime :
        (size : PoolSize) (q : Option (LcmPlugin regex keys))
        → settle (build_runtime builds size) q ≡ build_runtime builds size
    unfolding build_runtime
    settle-build_runtime size q = ground arith

    settle-or_else :
        (r : LazyRuntime) (o q : Option (LcmPlugin regex keys))
        → settle (settle r o) q ≡ settle r (or_else o q)
    settle-or_else unused none q = refl
    settle-or_else unused (some p) q = settle-build_runtime (asked p) q
    settle-or_else poisoned o q = refl
    settle-or_else (built size) o q = refl

    force-settle :
        (p : LcmPlugin regex keys) (r : LazyRuntime) → force builds (asked p) r ≡ settle r (some p)
    unfolding force
    force-settle p unused = refl
    force-settle p poisoned = refl
    force-settle p (built size) = refl

    settle-none : (r : LazyRuntime) → settle r none ≡ r
    settle-none unused = refl
    settle-none poisoned = refl
    settle-none (built size) = refl

    launch_with-settle :
        (current : Bool) (s : Start regex keys) (st : Statics)
        → (launch_with regex keys builds current s st).1.tokio_runtime
          ≡ settle st.tokio_runtime (outside current s)
    unfolding launch_with spawn_runtime store
    launch_with-settle true (Start.refused e) st = sym (settle-none st.tokio_runtime)
    launch_with-settle true (Start.plugin p) st = sym (settle-none st.tokio_runtime)
    launch_with-settle false (Start.refused e) st = sym (settle-none st.tokio_runtime)
    launch_with-settle false (Start.plugin p) st = force-settle p st.tokio_runtime

    launches-settle :
        (calls : List Attempt) (st : Statics)
        → (launches regex keys builds calls st).tokio_runtime
          ≡ settle st.tokio_runtime (first_outside calls)
    unfolding launches launch
    launches-settle [] st = sym (settle-none st.tokio_runtime)
    launches-settle (a ∷ rest) st =
        let s : Start regex keys = start regex keys a.plugin_conf in
        launches-settle rest (launch_with regex keys builds a.current s st).1
        ∙ ap (λ r. settle r (first_outside rest)) (launch_with-settle a.current s st)
        ∙ settle-or_else st.tokio_runtime (outside a.current s) (first_outside rest)

    -- What comes of the start of the plugin `p`, where `q` is the one that decides.
    abbrev pub verdict : Bool → LcmPlugin regex keys → LcmPlugin regex keys → Launch regex keys
    verdict true q p = launched p on_current
    verdict false q p = if builds (asked q) then launched p (on_pool (asked q)) else panicked

    launch_of-build_runtime :
        (size : PoolSize) (p : LcmPlugin regex keys)
        → launch_of regex keys p (spawn_on (build_runtime builds size))
          ≡ (if builds size then launched p (on_pool size) else panicked)
    unfolding build_runtime
    launch_of-build_runtime size p = elim (Bool-cases (builds size)) [
      | inl taken ↦ rw taken refl
      | inr not_taken ↦ rw not_taken refl
    ]

    launch_of-settle :
        (q : Option (LcmPlugin regex keys)) (p : LcmPlugin regex keys)
        → launch_of regex keys p (spawn_on (settle (settle unused q) (some p)))
          ≡ verdict false (deciding q p) p
    launch_of-settle none p = launch_of-build_runtime (asked p) p
    launch_of-settle (some q) p =
        ap (λ r. launch_of regex keys p (spawn_on r)) (settle-build_runtime (asked q) (some p))
        ∙ launch_of-build_runtime (asked q) p

    launch_with-settled :
        (current : Bool) (q : Option (LcmPlugin regex keys)) (p : LcmPlugin regex keys)
        (st : Statics)
        → st.tokio_runtime ≡ settle unused q
        → (launch_with regex keys builds current (Start.plugin p) st).0
          ≡ verdict current (deciding q p) p
    unfolding launch_with spawn_runtime store
    launch_with-settled true q p st e = refl
    launch_with-settled false q p st e =
        ap (λ r. launch_of regex keys p (spawn_on r))
          (force-settle p st.tokio_runtime ∙ ap (λ r. settle r (some p)) e)
        ∙ launch_of-settle q p

    -- After any calls of `start` in a process, a call whose configuration is valid gives its plugin. If a
    -- tokio runtime is current, the task of the plugin goes to that, whatever the configuration says of
    -- threads. Otherwise it goes to the plugin's own pool, and the sizes of that are those of the first
    -- valid configuration of a call outside of a runtime, whatever was configured since; if tokio's builder
    -- does not take these sizes, the call panics, and so do all later ones outside of a runtime.
    pub launch-launches :
        (calls : List Attempt) (a : Attempt) (p : LcmPlugin regex keys)
        → start regex keys a.plugin_conf ≡ Start.plugin p
        → (launch regex keys builds a (launches regex keys builds calls initial_statics)).0
          ≡ verdict a.current (deciding (first_outside calls) p) p
    unfolding launch
    launch-launches calls a p e = rw e (
        launch_with-settled a.current (first_outside calls) p
          (launches regex keys builds calls initial_statics)
          (launches-settle calls initial_statics))
