-- ===== src/Plugin/Tests/Runtime.antt =====
-- The start of the plugin, twice in one process.
use zenoh_plugin_lcm.Base.{ℕ, ◌≡◌, refl, Bool, false, [], ◌∷◌, some, ◌&&◌, leb}
use zenoh_plugin_lcm.Base.Str.{codes, strip_prefix}
use zenoh_plugin_lcm.Plugin.Json.{end, field, number, object, get, only_keys, one_of}
use zenoh_plugin_lcm.Plugin.Config.{default_config}
use zenoh_plugin_lcm.Plugin.Config.Values.{from_value, read_fields}
use zenoh_plugin_lcm.Plugin.Startup.{LcmPlugin, Start, start}
use zenoh_plugin_lcm.Plugin.Runtime.{
  PoolSize, Attempt, initial_statics, launched, panicked, on_pool, launch, launches,
}
use zenoh_plugin_lcm.Plugin.Runtime.Sizes.{launch-launches}
use zenoh_plugin_lcm.Plugin.Tests.{prefixes, texts}

-- A builder that takes any size but 0.
abbrev positive : PoolSize → Bool
positive size = leb 1 size.worker_threads && leb 1 size.max_blocking_threads

abbrev with_threads : ℕ → Attempt
with_threads n = record {
  current = false;
  plugin_conf = some (object (field (codes "work_thread_num") (number (some n)) end));
}

abbrev plugin_with : ℕ → LcmPlugin prefixes texts
plugin_with n = record {
  config = record (default_config prefixes) { work_thread_num = n };
  work_thread_num = n;
  max_block_thread_num = 50;
}

starts_with_8 : start prefixes texts (with_threads 8).plugin_conf ≡ Start.plugin (plugin_with 8)
unfolding start from_value read_fields get only_keys one_of default_config strip_prefix
starts_with_8 = refl

starts_with_0 : start prefixes texts (with_threads 0).plugin_conf ≡ Start.plugin (plugin_with 0)
unfolding start from_value read_fields get only_keys one_of default_config strip_prefix
starts_with_0 = refl

abbrev first_size : PoolSize
first_size = record { worker_threads = 4; max_blocking_threads = 50 }

-- The second plugin asks for 8 threads and gets the 4 of the first.
launch-launches_example :
    (launch prefixes texts positive
      (with_threads 8)
      (launches prefixes texts positive (with_threads 4 ∷ []) initial_statics)).0
    ≡ launched (plugin_with 8) (on_pool first_size)
unfolding start from_value read_fields get only_keys one_of default_config strip_prefix
launch-launches_example =
    launch-launches prefixes texts positive (with_threads 4 ∷ []) (with_threads 8) (plugin_with 8)
      starts_with_8

-- No thread is a size that the configuration takes and the builder does not.
no_threads : (launch prefixes texts positive (with_threads 0) initial_statics).0 ≡ panicked
unfolding start from_value read_fields get only_keys one_of default_config strip_prefix launches
no_threads =
    launch-launches prefixes texts positive [] (with_threads 0) (plugin_with 0) starts_with_0
