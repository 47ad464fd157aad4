-- ===== src/Shard/BlockedAddrs.antt =====
-- backend/telemetry_shard/src/blocked_addrs.rs: the addresses that are refused for some time. The
-- lock around the map is taken by one caller at a time, so each call is one step.
pub mod Expiry
mod Examples
use substrate_telemetry.Prelude.{ℕ, ◌+◌, Option, none, some, [], Text, ltb, if◌then◌else◌}
use substrate_telemetry.Prelude.HashMap
use substrate_telemetry.Prelude.HashMap.{HashMap}
use substrate_telemetry.Common.InternalMessages.{IpAddr, addr_key}

pub record BlockedAddrs : Type 0 where
  pub block_duration : ℕ
  pub inner : HashMap IpAddr (Text × ℕ)

pub new : ℕ → BlockedAddrs
new block_duration = record { block_duration = block_duration; inner = [] }

unfoldable pub block_addr : (now : ℕ) → IpAddr → Text → BlockedAddrs → BlockedAddrs
block_addr now addr reason b = record b { inner = HashMap.insert addr (reason, now) b.inner }

-- `blocked_reason`, with the entry of the address.
check_entry : (now : ℕ) → IpAddr → Option (Text × ℕ) → BlockedAddrs → BlockedAddrs × Option Text
check_entry now addr none b = (b, none)
check_entry now addr (some (reason, time)) b =
    if ltb (time + b.block_duration) now
    then (record b { inner = HashMap.remove addr b.inner }, none)
    else (b, some reason)

pub blocked_reason : (now : ℕ) → IpAddr → BlockedAddrs → BlockedAddrs × Option Text
unfolding check_entry
blocked_reason now addr b = check_entry now addr (HashMap.get addr b.inner) b
