-- ===== src/Shard/Connection/Invariant.antt =====
-- backend/telemetry_shard/src/main.rs: an invariant between the variables of a connection
-- and what it has sent, kept by each turn of its loop.
use substrate_telemetry.Prelude.{
  ℕ, ◌-◌, ◌≤◌, ◌≡◌, refl, sym, ap, ◌∙◌, inl, inr, Bool, true, false, Option, none, some, List, [],
  ◌∷◌, map, Text, nat_key, arith, Bool-cases, Option-cases, is_some, ltb, leb, length, map_option,
  Returns, Returns-bind,
}
use substrate_telemetry.Prelude.HashMap
use substrate_telemetry.Prelude.HashMap.{
  HashMap, get-insert, get-remove, insert-IsMap, remove-IsMap, length-insert, length-insert_over,
}
use substrate_telemetry.Common.NodeMessage.{
  NodeMessage, Payload, SystemConnected, system_connected, system_interval, block_import,
  notify_finalized, afg_authority_set, hw_bench,
}
use substrate_telemetry.Shard.JsonMessage.NodeMessage as Json
use substrate_telemetry.Common.RollingTotal as Rolling
use substrate_telemetry.Common.RollingTotal.Totality.{Starts, start-Starts, push-Starts}
use substrate_telemetry.Shard.Aggregator.{FromWebsocket, initialize, remove}
use substrate_telemetry.Shard.BlockedAddrs.{BlockedAddrs}
use substrate_telemetry.Shard.Connection.{
  Settings, Connection, Turn, Event, tick, received, start, handle, stale_ids, remove_ids,
  remove_stale, on_tick, add_unless, on_system_connected, on_update, on_payload, on_parsed,
  on_counted,
}
use substrate_telemetry.Shard.Connection.Protocol.{is_active, Lawful, sent}

-- The ids that are let in are the active ones, and not more than the maximum.
pub record Tracks (max : ℕ) (c : Connection) (t : List FromWebsocket) : Type 0 where
  pub lawful : Lawful t
  pub active : (id : ℕ) → is_some (HashMap.get id c.allowed_message_ids) ≡ is_active id t
  pub ids : HashMap.IsMap c.allowed_message_ids
  pub few : length c.allowed_message_ids ≤ max
  pub rolling : Starts c.rolling_total_bytes

-- A turn that leaves the connection in step with what it has sent.
abbrev pub Keeps : (max : ℕ) → List FromWebsocket → Turn → Type 0
Keeps max t turn = Tracks max turn.0 (sent turn.1.0 t)

length-remove_le : (id : ℕ) (m : HashMap ℕ ℕ) → length (HashMap.remove id m) ≤ length m
unfolding HashMap.remove
length-remove_le id [] = omega arith
length-remove_le id (e ∷ m) = ground (arith, length-remove_le id m)

-- Each id that is removed is there when its turn comes.
AllThere : List ℕ → HashMap ℕ ℕ → Type 0
AllThere [] m = Unit
AllThere (id ∷ ids) m = (is_some (HashMap.get id m) ≡ true) × AllThere ids (HashMap.remove id m)

remove_ids-Tracks :
    (max : ℕ) (ids : List ℕ) (c : Connection) (t : List FromWebsocket)
    → Tracks max c t
    → AllThere ids c.allowed_message_ids
    → Tracks max
        (record c { allowed_message_ids = remove_ids ids c.allowed_message_ids })
        (sent (map remove ids) t)
unfolding remove_ids AllThere
remove_ids-Tracks max [] c t h a = h
remove_ids-Tracks max (id ∷ ids) c t h a =
    remove_ids-Tracks max ids
      (record c { allowed_message_ids = HashMap.remove id c.allowed_message_ids }) (remove id ∷ t)
      (record {
        lawful = (sym (h.active id) ∙ a.0, h.lawful);
        active = λ j. ground (arith, get-remove id j c.allowed_message_ids, h.active j);
        ids = remove-IsMap id c.allowed_message_ids h.ids;
        few = omega (arith, length-remove_le id c.allowed_message_ids, h.few);
        rolling = h.rolling;
      })
      a.1

stale_ids-AllThere :
    (timeout now : ℕ) (es m : HashMap ℕ ℕ)
    → HashMap.IsMap es
    → ((i : ℕ) → is_some (HashMap.get i es) ≡ true → is_some (HashMap.get i m) ≡ true)
    → AllThere (stale_ids timeout now es) m
unfolding stale_ids AllThere HashMap.get
stale_ids-AllThere timeout now [] m u f = tt
stale_ids-AllThere timeout now (e ∷ es) m u f =
    let others = stale_ids-AllThere timeout now es m u.1 (λ i g. f i (ground (arith, u.0, g))) in
    let rest =
      stale_ids-AllThere timeout now es (HashMap.remove e.0 m) u.1
        (λ i g. ground (arith, get-remove e.0 i m, f i, u.0, g)) in
    elim (Bool-cases (ltb timeout (now - e.1))) [
      | inl y ↦ rw y (f e.0 (ground arith), rest)
      | inr n ↦ rw n others
    ]

on_tick-Keeps :
    (s : Settings) (now : ℕ) (c : Connection) (t : List FromWebsocket)
    → Tracks s.max_nodes_per_connection c t
    → Keeps s.max_nodes_per_connection t (on_tick s now c)
unfolding on_tick remove_stale
on_tick-Keeps s now c t h =
    remove_ids-Tracks s.max_nodes_per_connection
      (stale_ids s.stale_node_timeout now c.allowed_message_ids) c t h
      (stale_ids-AllThere s.stale_node_timeout now c.allowed_message_ids c.allowed_message_ids h.ids
        (λ i g. g))

on_system_connected-Keeps :
    (b : Bool) (s : Settings) (now id : ℕ) (info : SystemConnected) (c : Connection)
    (t : List FromWebsocket)
    → Tracks s.max_nodes_per_connection c t
    → leb s.max_nodes_per_connection (length c.allowed_message_ids) ≡ b
    → Keeps s.max_nodes_per_connection t (on_system_connected b s now id info c)
unfolding on_system_connected add_unless
on_system_connected-Keeps true s now id info c t h e = h
on_system_connected-Keeps false s now id info c t h e =
    elim (Option-cases (HashMap.get id c.allowed_message_ids)) [
      | inl n ↦ rw n (record {
        lawful = (sym (h.active id) ∙ ap is_some n, h.lawful);
        active = λ j. ground (arith, get-insert id j now c.allowed_message_ids, h.active j);
        ids = insert-IsMap id now c.allowed_message_ids h.ids;
        few = rw (length-insert id now c.allowed_message_ids n) (ground (arith, e));
        rolling = h.rolling;
      })
      | inr (v, y) ↦ rw y (record {
        lawful = h.lawful;
        active = λ j. ground (arith, get-insert id j now c.allowed_message_ids, h.active j, y);
        ids = insert-IsMap id now c.allowed_message_ids h.ids;
        few = rw (length-insert_over id now v c.allowed_message_ids y) h.few;
        rolling = h.rolling;
      })
    ]

on_update-Keeps :
    (max : ℕ) (o : Option ℕ) (now id : ℕ) (payload : Payload) (c : Connection)
    (t : List FromWebsocket)
    → Tracks max c t
    → HashMap.get id c.allowed_message_ids ≡ o
    → Keeps max t (on_update o now id payload c)
unfolding on_update
on_update-Keeps max none now id payload c t h e = h
on_update-Keeps max (some v) now id payload c t h e = record {
  lawful = (sym (h.active id) ∙ ap is_some e, h.lawful);
  active = λ j. ground (arith, get-insert id j now c.allowed_message_ids, h.active j, e);
  ids = insert-IsMap id now c.allowed_message_ids h.ids;
  few = rw (length-insert_over id now v c.allowed_message_ids e) h.few;
  rolling = h.rolling;
}

on_payload-Keeps :
    (s : Settings) (now id : ℕ) (payload : Payload) (c : Connection) (t : List FromWebsocket)
    → Tracks s.max_nodes_per_connection c t
    → Keeps s.max_nodes_per_connection t (on_payload s now id payload c)
unfolding on_payload
on_payload-Keeps s now id (system_connected info) c t h =
    on_system_connected-Keeps _ s now id info c t h refl
on_payload-Keeps s now id (system_interval p) c t h =
    on_update-Keeps _ _ now id (system_interval p) c t h refl
on_payload-Keeps s now id (block_import p) c t h =
    on_update-Keeps _ _ now id (block_import p) c t h refl
on_payload-Keeps s now id (notify_finalized p) c t h =
    on_update-Keeps _ _ now id (notify_finalized p) c t h refl
on_payload-Keeps s now id (afg_authority_set p) c t h =
    on_update-Keeps _ _ now id (afg_authority_set p) c t h refl
on_payload-Keeps s now id (hw_bench p) c t h = on_update-Keeps _ _ now id (hw_bench p) c t h refl

on_parsed-Keeps :
    (s : Settings) (now : ℕ) (o : Option NodeMessage) (c : Connection) (t : List FromWebsocket)
    → Tracks s.max_nodes_per_connection c t
    → Keeps s.max_nodes_per_connection t (on_parsed s now o c)
unfolding on_parsed
on_parsed-Keeps s now none c t h = h
on_parsed-Keeps s now (some m) c t h = on_payload-Keeps s now _ _ c t h

on_counted-Keeps :
    (b : Bool) (s : Settings) (now : ℕ) (bytes : Text) (c : Connection) (t : List FromWebsocket)
    → Tracks s.max_nodes_per_connection c t
    → Keeps s.max_nodes_per_connection t (on_counted b s now bytes c)
unfolding on_counted
on_counted-Keeps true s now bytes c t h = record {
  lawful = h.lawful;
  active = h.active;
  ids = h.ids;
  few = h.few;
  rolling = h.rolling;
}
on_counted-Keeps false s now bytes c t h =
    on_parsed-Keeps s now (map_option Json.into_message (s.from_slice bytes)) c t h

pub handle-Keeps :
    (s : Settings) (e : Event) (c : Connection) (t : List FromWebsocket)
    → Tracks s.max_nodes_per_connection c t
    → Returns (handle s e c) (Keeps s.max_nodes_per_connection t)
unfolding handle
handle-Keeps s (tick now) c t h = on_tick-Keeps s now c t h
handle-Keeps s (received now none) c t h = h
handle-Keeps s (received now (some bytes)) c t h =
    Returns-bind (Rolling.push now (length bytes) c.rolling_total_bytes) _ Starts
      (Keeps s.max_nodes_per_connection t)
      (push-Starts now (length bytes) c.rolling_total_bytes h.rolling)
      (λ rolling k.
        on_counted-Keeps _ s now bytes (record c { rolling_total_bytes = rolling }) t
          (record { lawful = h.lawful; active = h.active; ids = h.ids; few = h.few; rolling = k }))

pub start-Tracks :
    (max now channel : ℕ) (blocked : BlockedAddrs)
    → Tracks max (start now blocked) (initialize channel ∷ [])
unfolding start Rolling.new Rolling.granularity Rolling.window_size_multiple HashMap.get
start-Tracks max now channel blocked = record {
  lawful = (tt, tt);
  active = λ id. refl;
  ids = tt;
  few = omega arith;
  rolling = start-Starts now _ (omega arith);
}
