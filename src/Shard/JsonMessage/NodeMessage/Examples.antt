-- ===== src/Shard/JsonMessage/NodeMessage/Examples.antt =====
-- backend/telemetry_shard/src/json_message/node_message.rs, on concrete input: the details of a node
-- with an old version.
use substrate_telemetry.Prelude.{none, [], ◌∷◌, Text}
use substrate_telemetry.Shard.JsonMessage.NodeMessage.{NodeDetails}
use substrate_telemetry.Common.Strings.Splitting.{joined}
use substrate_telemetry.Shard.JsonMessage.Version.{dash}

-- "0.9.17"
abbrev version : Text
version = b'0' ∷ b'.' ∷ b'9' ∷ b'.' ∷ b'1' ∷ b'7' ∷ []

-- "x86_64"
abbrev x86_64 : Text
x86_64 = b'x' ∷ b'8' ∷ b'6' ∷ 95 ∷ b'6' ∷ b'4' ∷ []

-- "linux"
abbrev linux : Text
linux = b'l' ∷ b'i' ∷ b'n' ∷ b'u' ∷ b'x' ∷ []

-- "gnu"
abbrev gnu : Text
gnu = b'g' ∷ b'n' ∷ b'u' ∷ []

abbrev pub old_node : NodeDetails
old_node = record {
  chain = b'c' ∷ [];
  name = b'n' ∷ [];
  implementation = [];
  version = joined dash version (x86_64 ∷ linux ∷ gnu ∷ []);
  validator = none;
  network_id = [];
  startup_time = none;
  target_os = none;
  target_arch = none;
  target_env = none;
  sysinfo = none;
  ip = none;
}
