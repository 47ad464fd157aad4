-- ===== src/Shard/JsonMessage/NodeMessage/Migration.antt =====
-- backend/telemetry_shard/src/json_message/node_message.rs: the details of an old node.
use substrate_telemetry.Prelude.{◌≡◌, Bool, ◌&&◌, Option, Text, map_option}
use substrate_telemetry.Common.NodeTypes as NodeTypes
use substrate_telemetry.Shard.JsonMessage.NodeMessage.{NodeDetails, is_none, into_sysinfo}

-- Whatever is not a target or the version is as it was sent.
pub record Carried (details : NodeDetails) (converted : NodeTypes.NodeDetails) : Type 0 where
  pub chain : converted.chain ≡ details.chain
  pub name : converted.name ≡ details.name
  pub implementation : converted.implementation ≡ details.implementation
  pub validator : converted.validator ≡ details.validator
  pub network_id : converted.network_id ≡ details.network_id
  pub startup_time : converted.startup_time ≡ details.startup_time
  pub sysinfo : converted.sysinfo ≡ map_option into_sysinfo details.sysinfo
  pub ip : converted.ip ≡ details.ip

-- The version and the target of a node.
abbrev pub target : NodeTypes.NodeDetails → Text × (Option Text × (Option Text × Option Text))
target details = (details.version, (details.target_arch, (details.target_os, details.target_env)))

abbrev pub no_target : NodeDetails → Bool
no_target details =
    is_none details.target_os && is_none details.target_arch && is_none details.target_env
