-- ===== src/Core/InnerLoop/Commands.antt =====
-- backend/telemetry_core/src/aggregator/inner_loop.rs: the text commands of a feed. Reading a hash is
-- an argument.
use substrate_telemetry.Prelude.{
  ℕ, ◌≡◌, refl, ap, subst, ◌∙◌, ite, if_pos, if_neg, inl, inr, ◌⊎◌, ◌↔◌, Option, none, some, [],
  ◌∷◌, ◌++◌, Text, text_key, ℕ_discrete, arith, map_option,
}
use substrate_telemetry.Common.NodeTypes.{BlockHash}
use substrate_telemetry.Core.InnerLoop.{
  FromFeedWebsocket, initialize, subscribe, ping, disconnected,
}

pub data CommandError : Type 0 where
  expecting_format hash_not_read : CommandError
  not_recognised : Text → CommandError

-- "ping"
abbrev pub ping_command : Text
ping_command = 112 ∷ 105 ∷ 110 ∷ 103 ∷ []

-- "subscribe"
abbrev pub subscribe_command : Text
subscribe_command = 115 ∷ 117 ∷ 98 ∷ 115 ∷ 99 ∷ 114 ∷ 105 ∷ 98 ∷ 101 ∷ []

-- ':'
abbrev pub colon : ℕ
colon = 58

-- `s.find(':')`, with what stands before it and after it.
pub split_at_colon : Text → Option (Text × Text)
split_at_colon [] = none
split_at_colon (c ∷ s) =
    let rest = split_at_colon s in
    ite (ℕ_discrete c colon) (some ([], s)) (map_option (λ (p : Text × Text). (c ∷ p.0, p.1)) rest)

read_hash : Option BlockHash → CommandError ⊎ FromFeedWebsocket
read_hash none = inl hash_not_read
read_hash (some chain) = inr (subscribe chain)

module _ (parse : Text → Option BlockHash) where
  -- `match cmd`
  read_command : Option (Text × Text) → CommandError ⊎ FromFeedWebsocket
  unfolding read_hash
  read_command none = inl expecting_format
  read_command (some (cmd, value)) = ite (text_key.dec cmd ping_command) (inr (ping value)) (
      ite (text_key.dec cmd subscribe_command) (read_hash (parse value)) (inl (not_recognised cmd)))

  pub from_str : Text → CommandError ⊎ FromFeedWebsocket
  unfolding split_at_colon read_command
  from_str s = read_command (split_at_colon s)

parts : Option (Text × Text) → Text × Text
parts none = ([], [])
parts (some p) = p

message_of : CommandError ⊎ FromFeedWebsocket → FromFeedWebsocket
message_of (inl error) = disconnected
message_of (inr message) = message

split_step :
    (c : ℕ) (s cmd value : Text) (d : Dec (c ≡ colon)) (o : Option (Text × Text))
    → ((a b : Text) → o ≡ some (a, b) → s ≡ a ++ colon ∷ b)
    → ite {C = Option (Text × Text)} d
        (some ([], s))
        (map_option (λ (p : Text × Text). (c ∷ p.0, p.1)) o)
      ≡ some (cmd, value)
    → c ∷ s ≡ cmd ++ colon ∷ value
unfolding parts
split_step c s cmd value (yes h) o f e =
    ap (λ x. x ∷ s) h ∙ ap (λ o. (parts o).0 ++ colon ∷ (parts o).1) e
split_step c s cmd value (no n) none f e = absurd (ground arith)
split_step c s cmd value (no n) (some (a, b)) f e =
    ap (λ t. c ∷ t) (f a b refl) ∙ ap (λ o. (parts o).0 ++ colon ∷ (parts o).1) e

-- What is split is what was there.
split_at_colon_lem :
    (s cmd value : Text) → split_at_colon s ≡ some (cmd, value) → s ≡ cmd ++ colon ∷ value
unfolding split_at_colon
split_at_colon_lem [] cmd value e = absurd (ground arith)
split_at_colon_lem (c ∷ s) cmd value e =
    split_step c s cmd value (ℕ_discrete c colon) (split_at_colon s) (split_at_colon_lem s) e

-- The text that a command is read from.
pub Writes : (Text → Option BlockHash) → Text → FromFeedWebsocket → Type 0
Writes parse s (ping value) = s ≡ ping_command ++ colon ∷ value
Writes parse s (subscribe chain) =
    (text : Text) × ((s ≡ subscribe_command ++ colon ∷ text) × (parse text ≡ some chain))
Writes parse s (initialize channel) = ⊥
Writes parse s disconnected = ⊥

module _ (parse : Text → Option BlockHash) where
  read_hash_lem :
      (s text : Text) (o : Option BlockHash) (m : FromFeedWebsocket)
      → parse text ≡ o
      → s ≡ subscribe_command ++ colon ∷ text
      → read_hash o ≡ inr m
      → Writes parse s m
  unfolding read_hash Writes message_of
  read_hash_lem s text none m h e k = absurd (ground arith)
  read_hash_lem s text (some chain) m h e k =
      subst (Writes parse s) (ap message_of k) (text, (e, h))

  read_command_lem :
      (s cmd w : Text) (d : Dec (cmd ≡ ping_command)) (d' : Dec (cmd ≡ subscribe_command))
      (m : FromFeedWebsocket)
      → s ≡ cmd ++ colon ∷ w
      → ite d (inr (ping w)) (ite d' (read_hash (parse w)) (inl (not_recognised cmd))) ≡ inr m
      → Writes parse s m
  unfolding Writes message_of
  read_command_lem s cmd w (yes p) d' m e k =
      subst (Writes parse s) (ap message_of k) (e ∙ ap (λ t. t ++ colon ∷ w) p)
  read_command_lem s cmd w (no n) (yes p) m e k =
      read_hash_lem s w (parse w) m refl (e ∙ ap (λ t. t ++ colon ∷ w) p) k
  read_command_lem s cmd w (no n) (no n') m e k = absurd (ground arith)

  from_command :
      (s : Text) (o : Option (Text × Text)) (m : FromFeedWebsocket)
      → split_at_colon s ≡ o
      → read_command parse o ≡ inr m
      → Writes parse s m
  unfolding read_command
  from_command s none m h k = absurd (ground arith)
  from_command s (some (cmd, w)) m h k =
      read_command_lem s cmd w (text_key.dec cmd ping_command) (text_key.dec cmd subscribe_command)
        m (split_at_colon_lem s cmd w h) k

  to_command : (s : Text) (m : FromFeedWebsocket) → Writes parse s m → from_str parse s ≡ inr m
  unfolding Writes from_str read_command split_at_colon read_hash ℕ_discrete
  to_command s (ping value) h =
      ap (from_str parse) h ∙ if_pos (text_key.dec ping_command ping_command) refl _ _
  to_command s (subscribe chain) (text, (h, p)) =
      ap (from_str parse) h
      ∙ if_neg (text_key.dec subscribe_command ping_command) (λ e. cc) _ _
      ∙ if_pos (text_key.dec subscribe_command subscribe_command) refl _ _
      ∙ ap read_hash p
  to_command s (initialize channel) h = absurd h
  to_command s disconnected h = absurd h

  -- A text is read as a message exactly if it writes it: `ping:` and any text is a ping with the
  -- text, `subscribe:` and a text that is read as a hash subscribes to the hash, and no text is
  -- read as any other message.
  pub from_str-Writes :
      (s : Text) (m : FromFeedWebsocket) → (from_str parse s ≡ inr m) ↔ Writes parse s m
  unfolding from_str
  from_str-Writes s m = (λ k. from_command s (split_at_colon s) m refl k, to_command s m)
