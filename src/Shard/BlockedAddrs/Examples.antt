-- ===== src/Shard/BlockedAddrs/Examples.antt =====
-- backend/telemetry_shard/src/blocked_addrs.rs, on concrete input.
use substrate_telemetry.Prelude.{◌≡◌, ite, [], ◌∷◌, some}
use substrate_telemetry.Common.InternalMessages.{addr_key, v4}
use substrate_telemetry.Shard.BlockedAddrs.{new, block_addr, blocked_reason}
use substrate_telemetry.Shard.BlockedAddrs.Expiry.{reason_at, blocked_reason-block_addr}

blocked_reason-block_addr_example :
    (blocked_reason 75 (v4 1) (block_addr 10 (v4 1) (7 ∷ []) (new 60))).1
    ≡ ite
        (addr_key.dec (v4 1) (v4 1))
        (reason_at (new 60).block_duration 75 (some (7 ∷ [], 10)))
        (blocked_reason 75 (v4 1) (new 60)).1
blocked_reason-block_addr_example = blocked_reason-block_addr 10 75 (v4 1) (v4 1) (7 ∷ []) (new 60)
