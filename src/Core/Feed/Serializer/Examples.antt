-- ===== src/Core/Feed/Serializer/Examples.antt =====
-- backend/telemetry_core/src/feed_message.rs, on concrete input: two messages whose contents are left
-- empty.
use substrate_telemetry.Prelude.{◌+◌, ◌≡◌, some, [], ◌∷◌}
use substrate_telemetry.Core.Feed.{stale_node, removed_node}
use substrate_telemetry.Core.Feed.Serializer.{Json, new, into_finalized, push_all}
use substrate_telemetry.Core.Feed.Serializer.Framing.{into_finalized-push_all}

-- The action as one digit, and no more.
abbrev json : Json
json = record { of_action = λ n. (b'0' + n) ∷ []; of_message = λ msg. b'n' ∷ [] }

into_finalized-push_all_example :
    into_finalized (push_all json (removed_node 3 ∷ stale_node 5 ∷ []) new)
    ≡ some (91 ∷ b'4' ∷ 44 ∷ b'n' ∷ 44 ∷ 68 ∷ 44 ∷ b'n' ∷ 93 ∷ [])
into_finalized-push_all_example = into_finalized-push_all json (removed_node 3 ∷ stale_node 5 ∷ [])
