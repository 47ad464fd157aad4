-- ===== src/Shard/Connection/Protocol.antt =====
-- backend/telemetry_shard/src/main.rs: what the aggregator may expect to hear from a connection.
use substrate_telemetry.Prelude.{
  ℕ, ◌≡◌, ite, Bool, true, false, List, [], ◌∷◌, ℕ_discrete, Run, ok, ◌>>=◌, if◌then◌else◌,
}
use substrate_telemetry.Shard.Aggregator.{FromWebsocket, add, update, remove}
use substrate_telemetry.Shard.Connection.{Settings, Connection, Event, handle}

-- Added, and not removed since; the newest message comes first.
abbrev pub is_active : ℕ → List FromWebsocket → Bool
is_active id [] = false
is_active id (add j ip node hash ∷ t) = ite (ℕ_discrete j id) true (is_active id t)
is_active id (remove j ∷ t) = ite (ℕ_discrete j id) false (is_active id t)
is_active id (_ ∷ t) = is_active id t

-- Only ids that are not active are added, and only active ones are updated or removed.
abbrev pub Allowed : FromWebsocket → List FromWebsocket → Type 0
Allowed (add id ip node hash) t = is_active id t ≡ false
Allowed (update id payload) t = is_active id t ≡ true
Allowed (remove id) t = is_active id t ≡ true
Allowed _ t = Unit

abbrev pub Lawful : List FromWebsocket → Type 0
Lawful [] = Unit
Lawful (m ∷ t) = Allowed m t × Lawful t

-- Messages sent one after the other, put on a trace.
abbrev pub sent : List FromWebsocket → List FromWebsocket → List FromWebsocket
sent [] t = t
sent (m ∷ ms) t = sent ms (m ∷ t)

-- The loop, from what was sent so far: it ends when a turn breaks it.
unfoldable pub run :
    Settings → List Event → Connection → List FromWebsocket → Run (Connection × List FromWebsocket)
unfolding handle
run s [] c t = ok (c, t)
run s (e ∷ es) c t = do
  turn ← handle s e c
  let rest = run s es turn.0 (sent turn.1.0 t)
  if turn.1.1 then rest else ok (turn.0, sent turn.1.0 t)
