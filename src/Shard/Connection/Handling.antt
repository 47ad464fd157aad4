-- ===== src/Shard/Connection/Handling.antt =====
-- backend/telemetry_shard/src/main.rs: the loop of a connection does not panic, speaks to the
-- aggregator by the protocol, and lets in no more nodes than it may.
use substrate_telemetry.Prelude.{
  ℕ, ◌+◌, ◌/◌, ◌<◌, ◌≤◌, ◌≡◌, refl, Bool, true, false, some, List, [], ◌∷◌, Text, nat_key, arith,
  is_some, ltb, length, if◌then◌else◌, Run, ok, Returns, Returns-bind, Returns-mono,
}
use substrate_telemetry.Prelude.HashMap
use substrate_telemetry.Prelude.HashMap.{HashMap}
use substrate_telemetry.Common.RollingTotal as Rolling
use substrate_telemetry.Shard.Aggregator.{FromWebsocket, initialize}
use substrate_telemetry.Shard.BlockedAddrs.{BlockedAddrs, blocked_reason}
use substrate_telemetry.Shard.BlockedAddrs.Expiry.{blocked_reason-block_addr}
use substrate_telemetry.Shard.Connection.{
  Settings, Connection, Event, received, start, handle, on_counted, too_much_traffic,
}
use substrate_telemetry.Shard.Connection.Protocol.{is_active, Lawful, sent, run}
use substrate_telemetry.Shard.Connection.Invariant.{Tracks, Keeps, handle-Keeps, start-Tracks}

next-Keeps :
    (max : ℕ) (go : Bool) (c : Connection) (t : List FromWebsocket)
    (rest : Run (Connection × List FromWebsocket))
    → Tracks max c t
    → Returns rest (λ r. Tracks max r.0 r.1)
    → Returns (if go then rest else ok (c, t)) (λ r. Tracks max r.0 r.1)
next-Keeps max true c t rest h k = k
next-Keeps max false c t rest h k = h

run-Tracks :
    (s : Settings) (es : List Event) (c : Connection) (t : List FromWebsocket)
    → Tracks s.max_nodes_per_connection c t
    → Returns (run s es c t) (λ r. Tracks s.max_nodes_per_connection r.0 r.1)
unfolding run
run-Tracks s [] c t h = h
run-Tracks s (e ∷ es) c t h =
    Returns-bind (handle s e c) _ (Keeps s.max_nodes_per_connection t)
      (λ r. Tracks s.max_nodes_per_connection r.0 r.1) (handle-Keeps s e c t h)
      (λ turn k.
        next-Keeps _ turn.1.1 turn.0 (sent turn.1.0 t) (run s es turn.0 (sent turn.1.0 t)) k
          (run-Tracks s es turn.0 (sent turn.1.0 t) k))

-- What a connection has sent is by the protocol, the message ids that it lets in are exactly the
-- ones that it added and did not remove, and they are not more than `max`.
pub Conforms : (max : ℕ) → Connection × List FromWebsocket → Type 0
Conforms max r =
    Lawful r.1
    × (((id : ℕ) → is_some (HashMap.get id r.0.allowed_message_ids) ≡ is_active id r.1)
        × (length r.0.allowed_message_ids ≤ max))

-- Whatever a connection receives, and whenever, its loop does not panic; it adds only ids that
-- are not active, updates and removes only active ids, and has at most the maximum of nodes active.
pub run-Conforms :
    (s : Settings) (es : List Event) (now channel : ℕ) (blocked : BlockedAddrs)
    → Returns
        (run s es (start now blocked) (initialize channel ∷ []))
        (Conforms s.max_nodes_per_connection)
unfolding Conforms
run-Conforms s es now channel blocked =
    Returns-mono (run s es (start now blocked) (initialize channel ∷ [])) _ _
      (run-Tracks s es (start now blocked) (initialize channel ∷ [])
        (start-Tracks _ now channel blocked))
      (λ r h. (h.lawful, (h.active, h.few)))

lt→ltb : (a b : ℕ) → a < b → ltb a b ≡ true
lt→ltb a b h = ground (arith, h)

-- Traffic over the limit ends the connection: nothing more is sent, and the address is refused, with the reason "Too much
-- traffic", until the block has lasted its duration.
pub handle-over :
    (s : Settings) (now : ℕ) (bytes : Text) (c : Connection) (rolling : Rolling.RollingTotal)
    → Rolling.push now (length bytes) c.rolling_total_bytes ≡ ok rolling
    → s.bytes_per_second < Rolling.total rolling / 10
    → Returns (handle s (received now (some bytes)) c) (λ turn.
      (turn.1 ≡ ([], false))
      × ((later : ℕ)
          → later ≤ now + c.block_list.block_duration
          → (blocked_reason later s.real_addr turn.0.block_list).1 ≡ some too_much_traffic))
unfolding handle on_counted
handle-over s now bytes c rolling e over = rw e (
    rw (lt→ltb s.bytes_per_second (Rolling.total rolling / 10) over) (
      refl,
      λ later k. ground (
        arith,
        blocked_reason-block_addr now later s.real_addr s.real_addr too_much_traffic c.block_list,
        k,
      ),
    ))
