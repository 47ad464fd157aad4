-- ===== src/Shard/JsonMessage/NodeMessage.antt =====
-- backend/telemetry_shard/src/json_message/node_message.rs: the messages as JSON gives them, and
-- their conversion to the messages of backend/common/src/node_message.rs. The reading of JSON is left
-- out.
mod Migration
pub mod Examples
use substrate_telemetry.Prelude.{
  ℕ, Bool, true, false, ◌&&◌, Option, none, some, Text, map_option, if◌then◌else◌,
}
use substrate_telemetry.Common.NodeTypes
use substrate_telemetry.Common.NodeMessage as Internal
use substrate_telemetry.Shard.JsonMessage.Hash.{Hash, into_block_hash}
use substrate_telemetry.Shard.JsonMessage.Version.{Parts, split_old_style_version}

abbrev pub NodeMessageId : Type 0
NodeMessageId = ℕ

abbrev pub BlockNumber : Type 0
BlockNumber = ℕ

pub record Block : Type 0 where
  pub hash : Hash
  pub height : BlockNumber

pub record NodeSysInfo : Type 0 where
  pub cpu : Option Text
  pub memory : Option ℕ
  pub core_count : Option ℕ
  pub linux_kernel : Option Text
  pub linux_distro : Option Text
  pub is_virtual_machine : Option Bool

pub record NodeHwBench : Type 0 where
  pub cpu_hashrate_score : ℕ
  pub memory_memcpy_score : ℕ
  pub disk_sequential_write_score : Option ℕ
  pub disk_random_write_score : Option ℕ

pub record NodeDetails : Type 0 where
  pub chain : Text
  pub name : Text
  pub implementation : Text
  pub version : Text
  pub validator : Option Text
  pub network_id : Text
  pub startup_time : Option Text
  pub target_os : Option Text
  pub target_arch : Option Text
  pub target_env : Option Text
  pub sysinfo : Option NodeSysInfo
  pub ip : Option Text

pub record SystemConnected : Type 0 where
  pub genesis_hash : Hash
  pub node : NodeDetails

pub record SystemInterval : Type 0 where
  pub peers : Option ℕ
  pub txcount : Option ℕ
  pub bandwidth_upload : Option ℕ
  pub bandwidth_download : Option ℕ
  pub finalized_height : Option BlockNumber
  pub finalized_hash : Option Hash
  pub block : Option Block
  pub used_state_cache_size : Option ℕ

pub record Finalized : Type 0 where
  pub hash : Hash
  pub height : Text

pub record AfgAuthoritySet : Type 0 where
  pub authority_id : Text

pub data Payload : Type 0 where
  system_connected : SystemConnected → Payload
  system_interval : SystemInterval → Payload
  block_import : Block → Payload
  notify_finalized : Finalized → Payload
  afg_authority_set : AfgAuthoritySet → Payload
  hw_bench : NodeHwBench → Payload

pub data NodeMessage : Type 0 where
  v1 : Payload → NodeMessage
  v2 : NodeMessageId → Payload → NodeMessage

-- The conversions, `From` in the source, by the type that they convert.
abbrev pub into_block : Block → NodeTypes.Block
into_block block = record { hash = into_block_hash block.hash; height = block.height }

abbrev pub into_sysinfo : NodeSysInfo → NodeTypes.NodeSysInfo
into_sysinfo sysinfo = record {
  cpu = sysinfo.cpu;
  memory = sysinfo.memory;
  core_count = sysinfo.core_count;
  linux_kernel = sysinfo.linux_kernel;
  linux_distro = sysinfo.linux_distro;
  is_virtual_machine = sysinfo.is_virtual_machine;
}

abbrev pub into_hw_bench_types : NodeHwBench → NodeTypes.NodeHwBench
into_hw_bench_types hwbench = record {
  cpu_hashrate_score = hwbench.cpu_hashrate_score;
  memory_memcpy_score = hwbench.memory_memcpy_score;
  disk_sequential_write_score = hwbench.disk_sequential_write_score;
  disk_random_write_score = hwbench.disk_random_write_score;
}

abbrev pub into_hw_bench : NodeHwBench → Internal.NodeHwBench
into_hw_bench msg = record {
  cpu_hashrate_score = msg.cpu_hashrate_score;
  memory_memcpy_score = msg.memory_memcpy_score;
  disk_sequential_write_score = msg.disk_sequential_write_score;
  disk_random_write_score = msg.disk_random_write_score;
}

abbrev pub is_none : Option Text → Bool
is_none none = true
is_none (some text) = false

-- The details with what an old version was split into, if it was.
abbrev pub with_parts : Option Parts → NodeDetails → NodeDetails
with_parts none details = details
with_parts (some (version, (target_arch, (target_os, target_env)))) details = record details {
  target_arch = some target_arch;
  target_os = some target_os;
  target_env = some target_env;
  version = version;
}

-- Old-style versions give the target, where no part of it is given.
pub migrate : NodeDetails → NodeDetails
migrate details =
    if is_none details.target_os && is_none details.target_arch && is_none details.target_env
    then with_parts (split_old_style_version details.version) details
    else details

pub into_details_migrated : NodeDetails → NodeTypes.NodeDetails
into_details_migrated details = record {
  chain = details.chain;
  name = details.name;
  implementation = details.implementation;
  version = details.version;
  validator = details.validator;
  network_id = details.network_id;
  startup_time = details.startup_time;
  target_os = details.target_os;
  target_arch = details.target_arch;
  target_env = details.target_env;
  sysinfo = map_option into_sysinfo details.sysinfo;
  ip = details.ip;
}

pub into_details : NodeDetails → NodeTypes.NodeDetails
unfolding migrate into_details_migrated
into_details details = into_details_migrated (migrate details)

abbrev pub into_system_connected : SystemConnected → Internal.SystemConnected
into_system_connected msg = record {
  genesis_hash = into_block_hash msg.genesis_hash;
  node = into_details msg.node;
}

abbrev pub into_system_interval : SystemInterval → Internal.SystemInterval
into_system_interval msg = record {
  peers = msg.peers;
  txcount = msg.txcount;
  bandwidth_upload = msg.bandwidth_upload;
  bandwidth_download = msg.bandwidth_download;
  finalized_height = msg.finalized_height;
  finalized_hash = map_option into_block_hash msg.finalized_hash;
  block = map_option into_block msg.block;
  used_state_cache_size = msg.used_state_cache_size;
}

abbrev pub into_finalized : Finalized → Internal.Finalized
into_finalized msg = record { hash = into_block_hash msg.hash; height = msg.height }

abbrev pub into_afg_authority_set : AfgAuthoritySet → Internal.AfgAuthoritySet
into_afg_authority_set msg = record { authority_id = msg.authority_id }

abbrev pub into_payload : Payload → Internal.Payload
into_payload (system_connected m) = Internal.system_connected (into_system_connected m)
into_payload (system_interval m) = Internal.system_interval (into_system_interval m)
into_payload (block_import m) = Internal.block_import (into_block m)
into_payload (notify_finalized m) = Internal.notify_finalized (into_finalized m)
into_payload (afg_authority_set m) = Internal.afg_authority_set (into_afg_authority_set m)
into_payload (hw_bench m) = Internal.hw_bench (into_hw_bench m)

abbrev pub into_message : NodeMessage → Internal.NodeMessage
into_message (v1 payload) = Internal.v1 (into_payload payload)
into_message (v2 id payload) = Internal.v2 id (into_payload payload)
