-- ===== src/Shard/Connection.antt =====
-- backend/telemetry_shard/src/main.rs: `handle_node_websocket_connection`, which takes the messages of
-- one connection to the aggregator. The clock is read once for each turn of the loop, a send to the
-- aggregator is not taken to fail, and reading JSON is an argument.
pub mod Protocol
mod Invariant
mod Expiry
pub mod Handling
mod Examples
use substrate_telemetry.Prelude.{
  ℕ, ◌-◌, ◌/◌, Bool, true, false, Option, none, some, List, [], ◌∷◌, map, Text, nat_key, ltb, leb,
  length, map_option, if◌then◌else◌, Run, ok, ◌>>=◌,
}
use substrate_telemetry.Prelude.HashMap
use substrate_telemetry.Prelude.HashMap.{HashMap}
use substrate_telemetry.Common.InternalMessages.{IpAddr}
use substrate_telemetry.Common.NodeMessage.{
  NodeMessage, Payload, SystemConnected, system_connected, message_id, into_payload,
}
use substrate_telemetry.Shard.JsonMessage.NodeMessage as Json
use substrate_telemetry.Common.RollingTotal as Rolling
use substrate_telemetry.Common.RollingTotal.{RollingTotal}
use substrate_telemetry.Shard.Aggregator.{FromWebsocket, add, update, remove}
use substrate_telemetry.Shard.BlockedAddrs.{BlockedAddrs, block_addr}

pub record Settings : Type 0 where
  pub real_addr : IpAddr
  pub max_nodes_per_connection : ℕ
  pub bytes_per_second : ℕ
  pub stale_node_timeout : ℕ
  pub from_slice : Text → Option Json.NodeMessage

-- The variables of the loop, and the list of blocked addresses.
pub record Connection : Type 0 where
  pub allowed_message_ids : HashMap ℕ ℕ
  pub rolling_total_bytes : RollingTotal
  pub block_list : BlockedAddrs

-- What a turn of the loop leaves, what it sends, and whether the loop goes on.
abbrev pub Turn : Type 0
Turn = Connection × (List FromWebsocket × Bool)

-- "Too much traffic"
abbrev pub too_much_traffic : Text
too_much_traffic =
    84 ∷ 111 ∷ 111 ∷ 32 ∷ 109 ∷ 117 ∷ 99 ∷ 104 ∷ 32 ∷ 116 ∷ 114 ∷ 97 ∷ 102 ∷ 102 ∷ 105 ∷ 99 ∷ []

-- The message ids last seen longer than the timeout ago.
pub stale_ids : (timeout now : ℕ) → HashMap ℕ ℕ → List ℕ
stale_ids timeout now [] = []
stale_ids timeout now (e ∷ m) =
    let rest = stale_ids timeout now m in if ltb timeout (now - e.1) then e.0 ∷ rest else rest

pub remove_ids : List ℕ → HashMap ℕ ℕ → HashMap ℕ ℕ
remove_ids [] m = m
remove_ids (id ∷ ids) m = remove_ids ids (HashMap.remove id m)

-- `!stale_ids.is_empty() && allowed_message_ids.is_empty()`
all_stale : List ℕ → HashMap ℕ ℕ → Bool
all_stale (id ∷ ids) [] = true
all_stale _ _ = false

-- The stale interval has ticked, with the ids that are stale.
pub remove_stale : List ℕ → Connection → Turn
unfolding remove_ids all_stale
remove_stale ids c =
    let allowed = remove_ids ids c.allowed_message_ids in
    (
      record c { allowed_message_ids = allowed },
      (map remove ids, if all_stale ids allowed then false else true),
    )

pub on_tick : Settings → (now : ℕ) → Connection → Turn
unfolding stale_ids remove_stale
on_tick s now c = remove_stale (stale_ids s.stale_node_timeout now c.allowed_message_ids) c

-- The message for the aggregator about a node that is new, with what `insert` answered.
add_unless : Option ℕ → IpAddr → ℕ → SystemConnected → List FromWebsocket
add_unless (some _) addr id info = []
add_unless none addr id info = add id addr info.node info.genesis_hash ∷ []

-- A `SystemConnected` message, with whether there are too many nodes already.
pub on_system_connected : Bool → Settings → (now id : ℕ) → SystemConnected → Connection → Turn
unfolding add_unless
on_system_connected true s now id info c = (c, ([], true))
on_system_connected false s now id info c = (
  record c { allowed_message_ids = HashMap.insert id now c.allowed_message_ids },
  (add_unless (HashMap.get id c.allowed_message_ids) s.real_addr id info, true),
)

-- Any other message, with when its id was last seen.
pub on_update : Option ℕ → (now id : ℕ) → Payload → Connection → Turn
on_update (some last_seen) now id payload c = (
  record c { allowed_message_ids = HashMap.insert id now c.allowed_message_ids },
  (update id payload ∷ [], true),
)
on_update none now id payload c = (c, ([], true))

pub on_payload : Settings → (now id : ℕ) → Payload → Connection → Turn
unfolding on_system_connected on_update
on_payload s now id (system_connected info) c =
    on_system_connected (leb s.max_nodes_per_connection (length c.allowed_message_ids)) s now id
      info c
on_payload s now id payload c = on_update (HashMap.get id c.allowed_message_ids) now id payload c

-- A message as it was read; one that could not be read is passed over.
pub on_parsed : Settings → (now : ℕ) → Option NodeMessage → Connection → Turn
unfolding on_payload
on_parsed s now none c = (c, ([], true))
on_parsed s now (some message) c = on_payload s now (message_id message) (into_payload message) c

-- Some bytes, with whether the average over the last ten seconds exceeds the limit.
pub on_counted : Bool → Settings → (now : ℕ) → Text → Connection → Turn
unfolding on_parsed
on_counted true s now bytes c = (
  record c { block_list = block_addr now s.real_addr too_much_traffic c.block_list },
  ([], false),
)
on_counted false s now bytes c =
    on_parsed s now (map_option Json.into_message (s.from_slice bytes)) c

pub data Event : Type 0 where
  tick : (now : ℕ) → Event
  received : (now : ℕ) → Option Text → Event

-- One turn of the loop.
pub handle : Settings → Event → Connection → Run Turn
unfolding on_tick on_counted
handle s (tick now) c = ok (on_tick s now c)
handle s (received now none) c = ok (c, ([], false))
handle s (received now (some bytes)) c = do
  rolling ← Rolling.push now (length bytes) c.rolling_total_bytes
  ok (
      on_counted (ltb s.bytes_per_second (Rolling.total rolling / 10)) s now bytes
        (record c { rolling_total_bytes = rolling }))

-- What a connection starts with, and the message that it starts by sending.
pub start : (now : ℕ) → BlockedAddrs → Connection
start now blocked = record {
  allowed_message_ids = [];
  rolling_total_bytes =
      Rolling.start now
        (Rolling.window_size_multiple 10 (Rolling.granularity 1000000000 Rolling.new));
  block_list = blocked;
}
