-- ===== src/Lib.antt =====
-- Substrate Telemetry: the state that the telemetry core keeps of the nodes that report to it, and
-- the shards that pass on what the nodes say.
--
-- Shards accept the connections of nodes and pass their messages on to the core. The core keeps a
-- `State` of all chains; each `Chain` keeps its nodes, its best and finalized block, its most seen
-- label and the statistics of its nodes; each `Node` keeps its last blocks and its measurements. A
-- call that updates a chain pushes messages for the feeds, the web pages that watch the chain.
-- A shard handles each connection in a loop of its own, which tells the shard's aggregator of the
-- nodes behind it; the aggregator gives each node a local id and talks to the core.
--
-- What models what, with paths from the root of the repository:
-- - Common/DenseMap: backend/common/src/dense_map.rs. `put` is the write through `get_mut`.
-- - Common/MostSeen: backend/common/src/most_seen.rs.
-- - Common/NumStats: backend/common/src/num_stats.rs, at `u64`.
-- - Common/MeanList: backend/common/src/mean_list.rs.
-- - Common/NodeTypes, Common/NodeMessage: backend/common/src/node_types.rs and node_message.rs.
-- - Common/MultiMapUnique: backend/common/src/multi_map_unique.rs.
-- - Common/AssignId: backend/common/src/assign_id.rs; Common/BiMap is what is used of the crate
--   `bimap`, its operations and their laws, and Common/BiMap/Pairs is a map that has them.
-- - Common/RollingTotal: backend/common/src/rolling_total.rs.
-- - Common/Strings: the methods of Rust's strings that the code uses, on lists of bytes.
-- - Common/ByteSize: backend/common/src/byte_size.rs.
-- - Common/InternalMessages: backend/common/src/internal_messages.rs.
-- - Core/Counter, Core/ChainStats: backend/telemetry_core/src/state/counter.rs and chain_stats.rs.
-- - Core/Node: backend/telemetry_core/src/state/node.rs.
-- - Core/Feed: the messages of backend/telemetry_core/src/feed_message.rs, with their serialiser in
--   Core/Feed/Serializer.
-- - Core/Locations: backend/telemetry_core/src/find_location.rs, with the database as an argument; the
--   tasks take turns in any order.
-- - Core/Chain: backend/telemetry_core/src/state/chain.rs, with `update_stale_nodes` and
--   `regenerate_stats_if_necessary` in Core/Chain/Stale, `handle_block` in Core/Chain/Blocks and
--   `update_node` in Core/Chain/Payloads.
-- - Core/State: backend/telemetry_core/src/state/state.rs. Core/State/Index says when a state is
--   valid, Core/State/Chains is about chains that are made and dropped, Core/State/Nodes about nodes,
--   and Core/State/Presence about which nodes a state holds.
-- - Core/InnerLoop: `handle_from_feed`, the broadcasts and, in Core/InnerLoop/Commands, `from_str` of
--   backend/telemetry_core/src/aggregator/inner_loop.rs; `handle_from_shard`, `remove_node` and the
--   rest of the loop's handlers in Core/InnerLoop/Shards, and `handle`, with the queue and the
--   metrics, in Core/InnerLoop/Queue.
-- - Shard/Aggregator: backend/telemetry_shard/src/aggregator.rs, one turn of `handle_messages`, with
--   the messages that it sends as effects. Shard/Aggregator/Traces says what the core may expect.
-- - Shard/Connection: `handle_node_websocket_connection` of backend/telemetry_shard/src/main.rs, with
--   what the aggregator may expect of it in Shard/Connection/Protocol.
-- - Shard/CoreConnection: backend/telemetry_shard/src/connection.rs, one event of the loop at a time.
-- - Shard/JsonMessage: backend/telemetry_shard/src/json_message/. Hash and NodeMessage have the names
--   of the files; Version is `split_old_style_version` and what it uses.
-- - Shard/RealIp: backend/telemetry_shard/src/real_ip.rs, with the parsing of an address as an argument.
-- - Shard/BlockedAddrs: backend/telemetry_shard/src/blocked_addrs.rs.
-- The functions have the names of the source's methods. A method that changes its object returns
-- the new object; one that is given a feed returns what it pushes. The files below a component's
-- file are about that component, and its Examples hold runs and the theorems at concrete inputs.
--
-- Numbers: `u64` arithmetic that the code does on values from outside wraps as in a release build
-- (`add64`, `sub64`); numbers that count the objects in memory or the calls of a method are taken
-- not to reach 2 ^ 64. Floats are bit patterns and their operations are parameters (`Float`,
-- `F64`). Text is a list of bytes, a hash is a number. What the clocks read is an argument
-- of each call. A panic, of an index, an `expect` or a remainder by zero, is the result `panic` of a
-- `Run`. The standard library's hash maps are association lists, which iterate in their order; where
-- the code's result depends on the order of iteration, the theorems do not say which entry it takes.
-- Loops are recursion on the list that the code goes over, so there is no fuel.
--
-- Not modelled: sockets, tasks and channels (a send to one is taken to succeed, except in
-- Shard/CoreConnection), what serde and bincode read and write, the database of locations, the
-- servers of backend/telemetry_core/src/main.rs and backend/telemetry_shard/src/main.rs around their
-- loops, the set of aggregators, the clients in backend/test_utils, and the logging.
pub mod Prelude
pub mod Common
pub mod Core
pub mod Shard
