-- ===== src/Transport.antt =====
-- lcm-transport: the LCM wire protocol, fragment reassembly and the multicast transport.
pub mod Types
pub mod Url
pub mod Protocol
pub mod Fragment
pub mod Multicast
pub mod Settings
pub mod Sockets
pub mod Tests
