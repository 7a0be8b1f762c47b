-- ===== src/Transport/Types.antt =====
-- lcm-transport/src/types.rs: the message that the transport delivers.
use zenoh_plugin_lcm.Base.{ℕ, Bytes}
use zenoh_plugin_lcm.Base.Str.{Str}

pub record LcmMessage : Type 0 where
  pub channel : Str
  pub sequence_number : ℕ
  pub payload : Bytes
