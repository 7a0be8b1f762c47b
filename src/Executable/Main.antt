-- ===== src/Executable/Main.antt =====
-- zenoh-bridge-lcm/src/main.rs: `main`. Zenoh's runtime is a parameter.
use zenoh_plugin_lcm.Base.{
  ◌≡◌, ◌⊎◌, inl, inr, refl, Bool, true, false, Bool-cases, List, [], ◌∷◌, Option, none, some, Run,
  ok, panic, if◌then◌else◌,
}
use zenoh_plugin_lcm.Base.Str.{Str, codes}
use zenoh_plugin_lcm.Executable.{Args, ZenohApi, load, parse_args}
use zenoh_plugin_lcm.Executable.Overrides.{Setting, path_of, given, over}
use zenoh_plugin_lcm.Executable.Acceptance.{Accepts, parse_args-given}

-- A static plugin that is declared: its name, and whether it is required.
abbrev pub Declared : Type 0
Declared = Str × Bool

-- `RuntimeBuilder::build` with the declared plugins, and `Runtime::start`; `none` is an error.
pub record RuntimeApi (ZenohConfig : Type 0) : Type 1 where
  pub Runtime : Type 0
  pub build : ZenohConfig → List Declared → Option Runtime
  pub start : Runtime → Option Runtime

module _ (api : ZenohApi) (runtime : RuntimeApi api.ZenohConfig) where
  open api use {ZenohConfig, has_plugin, value_at}
  open runtime use {Runtime, build, start}

  -- How the process goes on: it panics, it exits with -1, or it waits for ever beside the runtime.
  pub data Process : Type 0 where
    panicked exited : Process
    serves : Runtime → Process

  abbrev pub declared : ZenohConfig → List Declared
  declared config =
      let lcm : List Declared = (codes "lcm", true) ∷ [] in
      if has_plugin (codes "rest") config then (codes "rest", true) ∷ lcm else lcm

  abbrev started_runtime : Option Runtime → Process
  started_runtime none = exited
  started_runtime (some r) = serves r

  abbrev built : Option Runtime → Process
  built none = exited
  built (some r) = started_runtime (start r)

  abbrev with_config : Run ZenohConfig → Process
  with_config panic = panicked
  with_config (ok config) = built (build config (declared config))

  unfoldable pub main : Args → Process
  main args = with_config (parse_args api args)

  -- The plugins that a process declares: the LCM plugin, and the REST plugin if it is configured.
  abbrev pub Declares : ZenohConfig → List Declared → Type 0
  Declares config plugins =
      ((has_plugin (codes "rest") config ≡ true)
        × (plugins ≡ (codes "rest", true) ∷ (codes "lcm", true) ∷ []))
      ⊎ ((has_plugin (codes "rest") config ≡ false) × (plugins ≡ (codes "lcm", true) ∷ []))

  declared-Declares : (config : ZenohConfig) → Declares config (declared config)
  declared-Declares config = elim (Bool-cases (has_plugin (codes "rest") config)) [
    | inl configured ↦ inl (configured, rw configured refl)
    | inr absent ↦ inr (absent, rw absent refl)
  ]

  -- How the process ends for a configuration and plugins, on every branch.
  abbrev pub Ends : ZenohConfig → List Declared → Process → Type 0
  Ends config plugins panicked = ⊥
  Ends config plugins exited =
      (build config plugins ≡ none)
      ⊎ ((r : Runtime) × (build config plugins ≡ some r) × (start r ≡ none))
  Ends config plugins (serves running) =
      (r : Runtime) × (build config plugins ≡ some r) × (start r ≡ some running)

  started_runtime-Ends :
      (config : ZenohConfig) (r : Runtime) (o : Option Runtime)
      → build config (declared config) ≡ some r
      → start r ≡ o
      → Ends config (declared config) (started_runtime o)
  started_runtime-Ends config r none b s = inr (r, b, s)
  started_runtime-Ends config r (some running) b s = (r, b, s)

  built-Ends :
      (config : ZenohConfig) (o : Option Runtime)
      → build config (declared config) ≡ o
      → Ends config (declared config) (built o)
  built-Ends config none b = inl b
  built-Ends config (some r) b = started_runtime-Ends config r (start r) b refl

  -- If the configuration file can be loaded and Zenoh's configuration takes all that the command line
  -- asks for, the process does not panic. It builds a runtime from the configuration with the options
  -- of the command line, with the LCM plugin and, if it is configured, the REST plugin declared, starts
  -- it and waits beside it; it exits exactly when the build or the start fails.
  pub main-Ends :
      (args : Args) (base : ZenohConfig)
      → Accepts api args
      → load api args ≡ ok base
      → (config : ZenohConfig) × (parse_args api args ≡ ok config)
        × (plugins : List Declared) × Declares config plugins
        × Ends config plugins (main args)
        × ((s : Setting)
            → value_at (path_of s) config ≡ over api (given api args s) (value_at (path_of s) base))
  unfolding main
  main-Ends args base accepts loaded =
      let (config, result, settings) = parse_args-given api args accepts base loaded in
      (
        config,
        result,
        declared config,
        declared-Declares config,
        rw result (built-Ends config (build config (declared config)) refl),
        settings,
      )
