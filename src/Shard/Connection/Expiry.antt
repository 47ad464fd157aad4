-- ===== src/Shard/Connection/Expiry.antt =====
-- backend/telemetry_shard/src/main.rs: what a tick does to the ids that were not seen for long.
use substrate_telemetry.Prelude.{
  ℕ, ◌-◌, ◌≡◌, refl, ap, ◌∙◌, Bool, false, ◌||◌, Option, none, some, List, [], ◌∷◌, map, nat_key,
  arith, ltb, ◌==◌, if◌then◌else◌,
}
use substrate_telemetry.Prelude.HashMap
use substrate_telemetry.Prelude.HashMap.{HashMap, get-remove}
use substrate_telemetry.Shard.Aggregator.{FromWebsocket, remove}
use substrate_telemetry.Shard.Connection.{
  Settings, Connection, stale_ids, remove_ids, remove_stale, on_tick,
}

-- When an id was last seen, unless that is longer ago than the timeout.
abbrev pub recent : (timeout now : ℕ) → Option ℕ → Option ℕ
recent timeout now none = none
recent timeout now (some last_seen) = if ltb timeout (now - last_seen) then none else some last_seen

listed : ℕ → List ℕ → Bool
listed id [] = false
listed id (j ∷ js) = j == id || listed id js

get-remove_ids :
    (id : ℕ) (ids : List ℕ) (m : HashMap ℕ ℕ)
    → HashMap.get id (remove_ids ids m) ≡ (if listed id ids then none else HashMap.get id m)
unfolding remove_ids listed
get-remove_ids id [] m = refl
get-remove_ids id (j ∷ js) m =
    ground (arith, get-remove_ids id js (HashMap.remove j m), get-remove j id m)

abbrev pub is_stale : (timeout now : ℕ) → Option ℕ → Bool
is_stale timeout now none = false
is_stale timeout now (some last_seen) = ltb timeout (now - last_seen)

listed-stale_ids :
    (timeout now id : ℕ) (es : HashMap ℕ ℕ)
    → HashMap.IsMap es
    → listed id (stale_ids timeout now es) ≡ is_stale timeout now (HashMap.get id es)
unfolding stale_ids listed HashMap.get
listed-stale_ids timeout now id [] u = refl
listed-stale_ids timeout now id (e ∷ es) u =
    ground (arith, listed-stale_ids timeout now id es u.1, u.0)

recent-is_stale :
    (timeout now : ℕ) (o : Option ℕ)
    → (if is_stale timeout now o then none else o) ≡ recent timeout now o
recent-is_stale timeout now none = refl
recent-is_stale timeout now (some last_seen) = refl

-- Whether the messages remove the node of an id.
abbrev pub removes : ℕ → List FromWebsocket → Bool
removes id [] = false
removes id (remove j ∷ messages) = j == id || removes id messages
removes id (_ ∷ messages) = removes id messages

removes-map : (id : ℕ) (ids : List ℕ) → removes id (map remove ids) ≡ listed id ids
unfolding listed
removes-map id [] = refl
removes-map id (j ∷ js) = ap (λ b. j == id || b) (removes-map id js)

-- A tick takes out the ids last seen longer ago than the timeout and lets in the others as before, and
-- it tells the aggregator to remove exactly the nodes of the ids that it takes out.
pub on_tick-recent :
    (s : Settings) (now id : ℕ) (c : Connection)
    → HashMap.IsMap c.allowed_message_ids
    → (HashMap.get id (on_tick s now c).0.allowed_message_ids
        ≡ recent s.stale_node_timeout now (HashMap.get id c.allowed_message_ids))
      × (removes id (on_tick s now c).1.0
          ≡ is_stale s.stale_node_timeout now (HashMap.get id c.allowed_message_ids))
unfolding on_tick remove_stale
on_tick-recent s now id c u =
    let ids = stale_ids s.stale_node_timeout now c.allowed_message_ids in
    let stale = listed-stale_ids s.stale_node_timeout now id c.allowed_message_ids u in
    (
      get-remove_ids id ids c.allowed_message_ids
          ∙ ap (λ b. if b then none else HashMap.get id c.allowed_message_ids) stale
          ∙ recent-is_stale s.stale_node_timeout now (HashMap.get id c.allowed_message_ids),
      removes-map id ids ∙ stale,
    )
