-- ===== src/Plugin.antt =====
-- zenoh-plugin-lcm: configuration, the mapping of names, and the two bridging tasks.
pub mod Json
pub mod Config
pub mod Mapping
pub mod Sequences
pub mod Bridge
pub mod Tests
pub mod AdminSpace
pub mod Startup
pub mod Runtime
