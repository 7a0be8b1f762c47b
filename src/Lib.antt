-- ===== src/Lib.antt =====
-- A verification of the LCM to Zenoh bridge: a library (lcm-transport) that speaks LCM's UDP multicast
-- protocol, and a plugin (zenoh-plugin-lcm) that publishes what it receives on LCM channels to Zenoh
-- key expressions and sends what it receives from Zenoh to LCM channels.
--
-- The parts, and the files that model them:
--   Base             what the Rust code takes from its library: slices that panic out of range (Run),
--                    big-endian words, byte strings and the UTF-8 check
--   Transport/Types, Transport/Protocol
--                    lcm-transport/src/types.rs (LcmMessage) and protocol.rs: parse_datagram and the
--                    two encoders, byte by byte
--   Transport/Url    lcm-transport/src/types.rs: LcmUrl and its parser
--   Transport/Fragment
--                    lcm-transport/src/fragment.rs: FragmentReassembler with process and expire_stale; in
--                    Fragment/Abstract a reassembler that is a function from keys to sets
--   Transport/Multicast
--                    lcm-transport/src/multicast.rs: send, send_fragmented and recv. They use Protocol
--                    to write and read datagrams, and recv hands fragments to Fragment
--   Transport/Settings
--                    lcm-transport/src/multicast.rs: LcmTransportConfig, from_url up to new, and the
--                    state in which a transport starts
--   Transport/Sockets
--                    lcm-transport/src/multicast.rs: LcmTransport::new as its calls on the socket
--   Plugin/Json, Plugin/Config
--                    zenoh-plugin-lcm/src/config.rs: the settings, their defaults and is_allowed; in
--                    Config/Values what serde's attributes make of a JSON value, in both directions
--   Plugin/Mapping   zenoh-plugin-lcm/src/mapping.rs: channels to key expressions and back
--   Plugin/Sequences zenoh-plugin-lcm/src/zenoh_to_lcm.rs: the set of sent sequence numbers
--   Plugin/Bridge    one turn of the loops of lcm_to_zenoh.rs and zenoh_to_lcm.rs, and the
--                    interleavings of the two tasks as a relation; in Bridge/Tasks each loop as a whole
--   Plugin/Startup   zenoh-plugin-lcm/src/lib.rs: start, which reads the configuration, and run, which
--                    makes a transport of it and comes to the two tasks of Bridge
--   Plugin/Runtime   zenoh-plugin-lcm/src/lib.rs: the statics, spawn_runtime, and what start does to them
--   Plugin/AdminSpace
--                    zenoh-plugin-lcm/src/lib.rs: adminspace_getter and with_extended_string
--   Executable       zenoh-bridge-lcm/src/main.rs: parse_args, from the command line to Zenoh's
--                    configuration, and main, which builds and starts Zenoh's runtime with it; in
--                    Executable/Launch how start of the plugin reads its part of that configuration
--   Transport/Tests, Plugin/Tests, Executable/Tests
--                    the theorems at concrete values
--
-- Numbers are natural numbers; the casts to u16 and u32 are written as remainders, `saturating_sub` is
-- the subtraction of natural numbers, and `usize` has 64 bits. The reassembler's map and the set of
-- numbers are lists that are searched by key. The clock is an argument of process: one reading for the
-- expiry, and one for a set that is created. A socket is a function from what it took before and the
-- next datagram to its answer, and what recv reads is a list. Each loop is a recursion on its list or,
-- in send_fragmented, on the number of rounds that the code's range has. Two loops are on fuel. The loop
-- of lcm_to_zenoh, which the code never leaves, has one unit for each turn and ends when recv would wait:
-- a turn takes at least one datagram, so more fuel than input is enough. The `trim` of a URL has one
-- round for each byte, and a round takes at least one byte away.
--
-- Parameters are the crate `regex` (RegexApi) and Zenoh's key expressions (KeyExprApi, and SelectorApi
-- for the admin space), with the laws that are used stated in the records, the socket (Network), the
-- answers of the system to the calls that set the socket up (System; in run, SocketSetup is the error
-- of the whole set-up, if it fails), whether Zenoh's session is there, its answer to the declaration of
-- a subscriber (Session), Zenoh's configuration with its insertions and the part that a plugin gets
-- (ZenohApi), the build and the start of its runtime (RuntimeApi), and which sizes tokio's builder takes
-- (builds, in Plugin/Runtime). The command line is what clap makes of it (Args). A field that the code
-- calls `data` is `payload` here.
--
-- A send is one step of the relation: what comes from the socket between two datagrams of a message
-- does not touch the transport, and the message itself cannot come back before its last datagram.
--
-- Not modelled: what the system calls do, the text syntax of JSON, clap's parsing, logging, the delivery
-- inside Zenoh, tokio's scheduler, and the abort of the two tasks when the plugin is dropped, which may
-- stop a task at any of its waits.
pub mod Base
pub mod Transport
pub mod Plugin
pub mod Executable
