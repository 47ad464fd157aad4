-- ===== src/Core/Feed/Serializer/Framing.antt =====
-- backend/telemetry_core/src/feed_message.rs: what a feed receives is one JSON array.
use substrate_telemetry.Prelude.{
  ℕ, ◌≡◌, refl, sym, ap, ◌∙◌, Option, none, some, [], ◌∷◌, ◌++◌, map, Text,
}
use mathlib.Core.List.{append_assoc, append-nil}
use substrate_telemetry.Common.Strings.Splitting.{joined}
use substrate_telemetry.Core.Feed.{FeedMessage, Feed}
use substrate_telemetry.Core.Feed.Serializer.{
  FeedMessageSerializer, Json, action, open_bracket, close_bracket, comma, glue, new, write, push,
  into_finalized, push_all, finalized,
}

-- A message, with its action in front.
abbrev pub element : Json → FeedMessage → Text
element json msg = json.of_action (action msg) ++ comma ∷ json.of_message msg

-- A JSON array of the messages, two elements for each; nothing, if there is no message.
abbrev pub array : Json → Feed → Option Text
array json [] = none
array json (msg ∷ feed) = some (
    open_bracket
    ∷ (joined comma (element json msg) (map (element json) feed) ++ close_bracket ∷ []))

push-buffer :
    (json : Json) (msg : FeedMessage) (s : FeedMessageSerializer)
    → (push json msg s).buffer ≡ s.buffer ++ glue s.buffer ∷ element json msg
unfolding push write
push-buffer json msg s =
    let b = s.buffer in
    let g = glue b ∷ [] in
    let a = json.of_action (action msg) in
    let m = json.of_message msg in
    append_assoc ((b ++ g) ++ a) (comma ∷ []) m
    ∙ append_assoc (b ++ g) a (comma ∷ m)
    ∙ append_assoc b g (a ++ comma ∷ m)

-- What follows the first message.
more : Json → Feed → Text
more json [] = []
more json (msg ∷ feed) = comma ∷ (element json msg ++ more json feed)

joined-more :
    (json : Json) (msg : FeedMessage) (feed : Feed)
    → joined comma (element json msg) (map (element json) feed) ≡ element json msg ++ more json feed
unfolding more
joined-more json msg [] = sym (append-nil (element json msg))
joined-more json msg (next ∷ feed) =
    ap (λ t. element json msg ++ comma ∷ t) (joined-more json next feed)

push_all-buffer :
    (json : Json) (feed : Feed) (b : ℕ) (bs : Text)
    → (push_all json feed (record { buffer = b ∷ bs })).buffer ≡ b ∷ (bs ++ more json feed)
unfolding push_all more
push_all-buffer json [] b bs = ap (◌∷◌ b) (sym (append-nil bs))
push_all-buffer json (msg ∷ feed) b bs =
    ap (λ t. (push_all json feed (record { buffer = t })).buffer)
      (push-buffer json msg (record { buffer = b ∷ bs }))
    ∙ push_all-buffer json feed b (bs ++ comma ∷ element json msg)
    ∙ ap (◌∷◌ b) (append_assoc bs (comma ∷ element json msg) (more json feed))

-- The messages of a feed, pushed onto a new serializer, are framed as one array, in their order,
-- in which each message follows its action; where there is no message there are no bytes.
pub into_finalized-push_all :
    (json : Json) (feed : Feed) → into_finalized (push_all json feed new) ≡ array json feed
unfolding into_finalized push_all new
into_finalized-push_all json [] = refl
into_finalized-push_all json (msg ∷ feed) =
    ap finalized (
      ap (λ t. (push_all json feed (record { buffer = t })).buffer) (push-buffer json msg new)
      ∙ push_all-buffer json feed open_bracket (element json msg))
    ∙ ap (λ t. some (open_bracket ∷ (t ++ close_bracket ∷ []))) (sym (joined-more json msg feed))
