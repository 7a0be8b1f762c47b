-- ===== src/Plugin/Runtime.antt =====
-- zenoh-plugin-lcm/src/lib.rs: the statics of the plugin, `spawn_runtime`, and `start` with its effect on
-- them, as often as it is called in one process. Whether a tokio runtime is current at the call, and
-- which sizes tokio's builder takes, are parameters.
pub mod Sizes
use zenoh_plugin_lcm.Base.{ℕ, Bool, true, false, List, [], ◌∷◌, Option, if◌then◌else◌}
use zenoh_plugin_lcm.Plugin.Json.{Value}
use zenoh_plugin_lcm.Plugin.Config.{RegexApi, default_work_thread_num, default_max_block_thread_num}
use zenoh_plugin_lcm.Plugin.Mapping.{KeyExprApi}
use zenoh_plugin_lcm.Plugin.Startup.{StartError, LcmPlugin, Start, start}

-- The sizes that the builder of the thread pool is given.
pub record PoolSize : Type 0 where
  pub worker_threads : ℕ
  pub max_blocking_threads : ℕ

-- `TOKIO_RUNTIME`: it is built when it is first used, and a panic in that is final.
pub data LazyRuntime : Type 0 where
  unused poisoned : LazyRuntime
  built : PoolSize → LazyRuntime

-- The statics of the plugin.
pub record Statics : Type 0 where
  pub work_thread_num : ℕ
  pub max_block_thread_num : ℕ
  pub tokio_runtime : LazyRuntime

abbrev pub initial_statics : Statics
initial_statics = record {
  work_thread_num = default_work_thread_num;
  max_block_thread_num = default_max_block_thread_num;
  tokio_runtime = unused;
}

-- Where `spawn_runtime` puts a task, if it does not panic.
pub data Spawn : Type 0 where
  on_current failed : Spawn
  on_pool : PoolSize → Spawn

-- What the builder is given: the numbers as they are at the time.
abbrev pub loaded : Statics → PoolSize
loaded st = record {
  worker_threads = st.work_thread_num;
  max_blocking_threads = st.max_block_thread_num;
}

-- The place for the state after that use.
abbrev pub spawn_on : LazyRuntime → Spawn
spawn_on unused = failed
spawn_on poisoned = failed
spawn_on (built size) = on_pool size

module _ (builds : PoolSize → Bool) where
  -- The initialiser of `TOKIO_RUNTIME`, with its `expect`.
  unfoldable pub build_runtime : PoolSize → LazyRuntime
  build_runtime size = if builds size then built size else poisoned

  -- The use of `TOKIO_RUNTIME`.
  unfoldable pub force : PoolSize → LazyRuntime → LazyRuntime
  force size unused = build_runtime size
  force size poisoned = poisoned
  force size (built s) = built s

  -- `spawn_runtime`: `current` tells whether `Handle::try_current` finds a runtime.
  unfoldable pub spawn_runtime : Bool → Statics → Spawn × Statics
  spawn_runtime true st = (on_current, st)
  spawn_runtime false st =
      let used : LazyRuntime = force (loaded st) st.tokio_runtime in
      (spawn_on used, record st { tokio_runtime = used })

-- One call of `start`: whether a runtime is current, and what `get_plugin_config` answers.
pub record Attempt : Type 0 where
  pub current : Bool
  pub plugin_conf : Option Value

module _ (regex : RegexApi) (keys : KeyExprApi) where
  -- What comes of a call: an error, a plugin and the place of its task, or a panic.
  pub data Launch : Type 0 where
    rejected : StartError → Launch
    launched : LcmPlugin regex keys → Spawn → Launch
    panicked : Launch

  abbrev pub launch_of : LcmPlugin regex keys → Spawn → Launch
  launch_of p failed = panicked
  launch_of p on_current = launched p on_current
  launch_of p (on_pool size) = launched p (on_pool size)

  -- The two stores of `start`.
  unfoldable pub store : LcmPlugin regex keys → Statics → Statics
  store p st = record st {
    work_thread_num = p.config.work_thread_num;
    max_block_thread_num = p.config.max_block_thread_num;
  }

  module _ (builds : PoolSize → Bool) where
    unfoldable pub launch_with : Bool → Start regex keys → Statics → Launch × Statics
    launch_with current (Start.refused e) st = (rejected e, st)
    launch_with current (Start.plugin p) st =
        let (place, after) = spawn_runtime builds current (store p st) in (launch_of p place, after)

    -- `start`, with the statics before and after it.
    unfoldable pub launch : Attempt → Statics → Launch × Statics
    launch a st = launch_with a.current (start regex keys a.plugin_conf) st

    -- The calls of `start` in one process, one after the other.
    unfoldable pub launches : List Attempt → Statics → Statics
    launches [] st = st
    launches (a ∷ rest) st = launches rest (launch a st).1
