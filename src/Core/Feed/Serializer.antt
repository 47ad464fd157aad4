-- ===== src/Core/Feed/Serializer.antt =====
-- backend/telemetry_core/src/feed_message.rs: `FeedMessageSerializer`, which frames messages as one JSON
-- array of their actions and contents. What serde_json writes for a number and for a message are
-- arguments.
mod Framing
mod Examples
use substrate_telemetry.Prelude.{ℕ, Option, none, some, [], ◌∷◌, ◌++◌, Text}
use substrate_telemetry.Core.Feed.{
  FeedMessage, Feed, version, best_block, best_finalized, added_node, removed_node, located_node,
  imported_block, finalized_block, node_stats_update, hardware, time_sync, added_chain,
  removed_chain, subscribed_to, unsubscribed_from, pong, stale_node, node_io_update,
  chain_stats_update,
}

pub record FeedMessageSerializer : Type 0 where
  pub buffer : Text

-- `FeedMessage::ACTION`
abbrev pub action : FeedMessage → ℕ
action (version _) = 0
action (best_block _ _ _) = 1
action (best_finalized _ _) = 2
action (added_node _ _ _) = 3
action (removed_node _) = 4
action (located_node _ _ _ _) = 5
action (imported_block _ _) = 6
action (finalized_block _ _ _) = 7
action (node_stats_update _ _) = 8
action (hardware _ _) = 9
action (time_sync _) = 10
action (added_chain _ _ _) = 11
action (removed_chain _) = 12
action (subscribed_to _) = 13
action (unsubscribed_from _) = 14
action (pong _) = 15
action (stale_node _) = 20
action (node_io_update _ _) = 21
action (chain_stats_update _) = 22

-- What `serde_json::to_writer` writes of an action and of a message.
pub record Json : Type 0 where
  pub of_action : ℕ → Text
  pub of_message : FeedMessage → Text

-- '[', ']' and ','
abbrev pub open_bracket : ℕ
open_bracket = 91

abbrev pub close_bracket : ℕ
close_bracket = 93

abbrev pub comma : ℕ
comma = 44

pub new : FeedMessageSerializer
new = record { buffer = [] }

-- What stands in front of a message.
abbrev pub glue : Text → ℕ
glue [] = open_bracket
glue (b ∷ bs) = comma

pub write : Text → FeedMessageSerializer → FeedMessageSerializer
write value s = record { buffer = s.buffer ++ value }

pub push : Json → FeedMessage → FeedMessageSerializer → FeedMessageSerializer
unfolding write
push json msg s =
    write (json.of_message msg)
      (write (comma ∷ []) (write (json.of_action (action msg)) (write (glue s.buffer ∷ []) s)))

-- The bytes so far, if there are any.
abbrev pub finalized : Text → Option Text
finalized [] = none
finalized (b ∷ bs) = some (b ∷ bs ++ close_bracket ∷ [])

pub into_finalized : FeedMessageSerializer → Option Text
into_finalized s = finalized s.buffer

-- The messages of a feed, pushed one after the other.
pub push_all : Json → Feed → FeedMessageSerializer → FeedMessageSerializer
unfolding push
push_all json [] s = s
push_all json (msg ∷ feed) s = push_all json feed (push json msg s)
