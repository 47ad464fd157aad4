-- ===== src/Shard/Aggregator/Invariant.antt =====
-- backend/telemetry_shard/src/aggregator.rs: an invariant between the variables of the loop
-- and the trace of what was said, kept by each handler.
use substrate_telemetry.Prelude.{
  ℕ, ◌+◌, ◌≤◌, ◌<◌, ◌≡◌, refl, sym, ◌∙◌, ite, inl, inr, Bool, true, false, Option, none, some, List,
  [], ◌∷◌, ◌++◌, nat_key, ℕ_discrete, arith, Bool-cases, add64_small, u64_mod,
}
use substrate_telemetry.Prelude.HashMap
use substrate_telemetry.Prelude.HashMap.{HashMap, get-remove}
use substrate_telemetry.Common.AssignId
use substrate_telemetry.Common.BiMap.{BiMap, IsBiMap}
use substrate_telemetry.Common.InternalMessages.{ShardNodeId, IpAddr}
use substrate_telemetry.Common.NodeMessage.{Payload}
use substrate_telemetry.Common.NodeTypes.{BlockHash, NodeDetails}
use substrate_telemetry.Shard.Aggregator.{
  Aggregator, ConnId, Effect, Source, source_key, close_all, ids_of, on_connected, on_add,
  update_unless, on_update, on_remove, on_disconnected, remove_local_id, remove_local_ids, new,
}
use substrate_telemetry.Shard.Aggregator.Traces.{
  online, Trace, note_effect, note_effects, is_online, next_id, is_live, is_muted, Lawful,
}

note_effects-append :
    (es fs : List Effect) (t : Trace)
    → note_effects (es ++ fs) t ≡ note_effects fs (note_effects es t)
note_effects-append [] fs t = refl
note_effects-append (e ∷ es) fs t = note_effects-append es fs (note_effect e t)

-- Closing connections says nothing to the core.
note_effects-close_all : (m : HashMap ConnId ℕ) (t : Trace) → note_effects (close_all m) t ≡ t
unfolding close_all
note_effects-close_all [] t = refl
note_effects-close_all (e ∷ m) t = note_effects-close_all m t

module _ {bimap : BiMap ℕ Source} (laws : IsBiMap bimap) where
  -- The ids in use are live and below the counter, which is above all that were ever added, and
  -- every muted id that is in use, or may be used later, is in the set of the muted ones.
  pub record Tracks (a : Aggregator bimap) (t : Trace) : Type 0 where
    pub lawful : Lawful t
    pub connected : a.connected_to_telemetry_core ≡ is_online t
    pub fresh : next_id t ≤ a.to_local_id.current_id
    pub below :
        (i : ℕ) (d : Source)
        → bimap.get_by_left i a.to_local_id.mapping ≡ some d
        → i < a.to_local_id.current_id
    pub live :
        (i : ℕ) (d : Source)
        → bimap.get_by_left i a.to_local_id.mapping ≡ some d
        → is_live i t ≡ true
    pub muted :
        (i : ℕ) (d : Source)
        → bimap.get_by_left i a.to_local_id.mapping ≡ some d
        → is_muted i t ≡ true
        → HashMap.get i a.muted ≡ some tt
    pub muted_fresh :
        (i : ℕ)
        → a.to_local_id.current_id ≤ i
        → is_muted i t ≡ true
        → HashMap.get i a.muted ≡ some tt

  pub new-Tracks : Tracks (new bimap) []
  unfolding new AssignId.new
  new-Tracks = record {
    lawful = tt;
    connected = refl;
    fresh = omega arith;
    below = λ i d e. ground (arith, laws.left-new i);
    live = λ i d e. ground (arith, laws.left-new i);
    muted = λ i d e. ground (arith, laws.left-new i);
    muted_fresh = λ i h e. ground arith;
  }

  pub on_connected-Tracks :
      (a : Aggregator bimap) (t : Trace)
      → Tracks a t
      → Tracks (on_connected a).0 (note_effects (on_connected a).1 (online ∷ t))
  unfolding on_connected AssignId.clear
  on_connected-Tracks a t h = rw (note_effects-close_all a.close_connections (online ∷ t)) (record {
    lawful = (tt, h.lawful);
    connected = refl;
    fresh = h.fresh;
    below = λ i d e. ground (arith, laws.left-new i);
    live = λ i d e. ground (arith, laws.left-new i);
    muted = λ i d e. ground (arith, laws.left-new i);
    muted_fresh = λ i k e. ground arith;
  })

  pub on_add-Tracks :
      (b : Bool) (conn : ConnId) (message_id : ℕ) (ip : IpAddr) (node : NodeDetails)
      (hash : BlockHash) (a : Aggregator bimap) (t : Trace)
      → Tracks a t
      → a.connected_to_telemetry_core ≡ b
      → a.to_local_id.current_id + 1 < u64_mod
      → Tracks
          (on_add b conn message_id ip node hash a).0
          (note_effects (on_add b conn message_id ip node hash a).1 t)
  unfolding on_add AssignId.assign_id
  on_add-Tracks false conn message_id ip node hash a t h c small = h
  on_add-Tracks true conn message_id ip node hash a t h c small =
      let id = a.to_local_id.current_id in
      record {
        lawful = ((sym h.connected ∙ c, h.fresh), h.lawful);
        connected = h.connected;
        fresh = rw (add64_small id 1 small) (omega arith);
        below = λ i d e. ground (
          arith,
          add64_small id 1 small,
          laws.left-insert id i (conn, message_id) a.to_local_id.mapping,
          h.below i d,
          e,
        );
        live = λ i d e.
            ground (
              arith,
              laws.left-insert id i (conn, message_id) a.to_local_id.mapping,
              h.live i d,
              e,
            );
        muted = λ i d e f. ground (
          arith,
          laws.left-insert id i (conn, message_id) a.to_local_id.mapping,
          h.muted i d,
          h.muted_fresh i,
          e,
          f,
        );
        muted_fresh = λ i k f. h.muted_fresh i (ground (arith, add64_small id 1 small, k)) f;
      }

  not_muted :
      (id : ShardNodeId) (d : Source) (a : Aggregator bimap) (t : Trace)
      → Tracks a t
      → bimap.get_by_left id a.to_local_id.mapping ≡ some d
      → HashMap.get id a.muted ≡ none
      → is_muted id t ≡ false
  not_muted id d a t h m n = elim (Bool-cases (is_muted id t)) [
    | inl y ↦ absurd (ground (arith, h.muted id d m y, n))
    | inr n ↦ n
  ]

  update_unless-Tracks :
      (id : ShardNodeId) (d : Source) (payload : Payload) (a : Aggregator bimap) (t : Trace)
      → Tracks a t
      → a.connected_to_telemetry_core ≡ true
      → bimap.get_by_left id a.to_local_id.mapping ≡ some d
      → (o : Option {0} Unit) → HashMap.get id a.muted ≡ o
      → Tracks a (note_effects (update_unless o id payload) t)
  unfolding update_unless
  update_unless-Tracks id d payload a t h c m (some u) e = h
  update_unless-Tracks id d payload a t h c m none e = record {
    lawful = ((sym h.connected ∙ c, (h.live id d m, not_muted id d a t h m e)), h.lawful);
    connected = h.connected;
    fresh = h.fresh;
    below = h.below;
    live = h.live;
    muted = h.muted;
    muted_fresh = h.muted_fresh;
  }

  -- `Update`, with what `get_id` found.
  pub on_update-Tracks :
      (b : Bool) (conn : ConnId) (message_id : ℕ) (payload : Payload) (a : Aggregator bimap)
      (t : Trace)
      → Tracks a t
      → a.connected_to_telemetry_core ≡ b
      → (o : Option ℕ) → AssignId.get_id (conn, message_id) a.to_local_id ≡ o
      → Tracks a (note_effects (on_update b o a.muted payload) t)
  unfolding on_update AssignId.get_id
  on_update-Tracks false conn message_id payload a t h c o e = h
  on_update-Tracks true conn message_id payload a t h c none e = h
  on_update-Tracks true conn message_id payload a t h c (some id) e =
      update_unless-Tracks id (conn, message_id) payload a t h c
        (laws.to_left id (conn, message_id) _ e) (HashMap.get id a.muted) refl

  remove_local_id-Tracks :
      (id : ShardNodeId) (d : Source) (a : Aggregator bimap) (t : Trace)
      → Tracks a t
      → bimap.get_by_left id a.to_local_id.mapping ≡ some d
      → Tracks (remove_local_id id a).0 (note_effects (remove_local_id id a).1 t)
  unfolding remove_local_id AssignId.remove_by_id
  remove_local_id-Tracks id d a t h m = elim (Bool-cases a.connected_to_telemetry_core) [
    | inl c ↦ rw c (record {
      lawful = ((sym h.connected ∙ c, h.live id d m), h.lawful);
      connected = sym c ∙ h.connected;
      fresh = h.fresh;
      below = λ i e f.
          ground (arith, laws.left-remove_by_left id i a.to_local_id.mapping, h.below i e, f);
      live = λ i e f.
          ground (arith, laws.left-remove_by_left id i a.to_local_id.mapping, h.live i e, f);
      muted = λ i e f g. ground (
        arith,
        laws.left-remove_by_left id i a.to_local_id.mapping,
        get-remove id i a.muted,
        h.muted i e,
        f,
        g,
      );
      muted_fresh =
          λ i k f. ground (arith, get-remove id i a.muted, h.below id d m, h.muted_fresh i, k, f);
    })
    | inr c ↦ rw c (record {
      lawful = h.lawful;
      connected = sym c ∙ h.connected;
      fresh = h.fresh;
      below = λ i e f.
          ground (arith, laws.left-remove_by_left id i a.to_local_id.mapping, h.below i e, f);
      live = λ i e f.
          ground (arith, laws.left-remove_by_left id i a.to_local_id.mapping, h.live i e, f);
      muted = λ i e f g. ground (
        arith,
        laws.left-remove_by_left id i a.to_local_id.mapping,
        get-remove id i a.muted,
        h.muted i e,
        f,
        g,
      );
      muted_fresh =
          λ i k f. ground (arith, get-remove id i a.muted, h.below id d m, h.muted_fresh i, k, f);
    })
  ]

  -- Each id is in use when its turn comes.
  AllInUse : List ShardNodeId → bimap.Map → Type 0
  AllInUse [] m = Unit
  AllInUse (id ∷ ids) m =
      ((d : Source) × (bimap.get_by_left id m ≡ some d)) × AllInUse ids (bimap.remove_by_left id m)

  ids_of-AllInUse :
      (conn : ConnId) (es : List (ShardNodeId × Source)) (m : bimap.Map)
      → HashMap.IsMap es
      → ((i : ℕ) (d : Source) → HashMap.get i es ≡ some d → bimap.get_by_left i m ≡ some d)
      → AllInUse (ids_of conn es) m
  unfolding ids_of HashMap.get AllInUse
  ids_of-AllInUse conn [] m u f = tt
  ids_of-AllInUse conn (e ∷ es) m u f =
      let others = ids_of-AllInUse conn es m u.1 (λ i d g. f i d (ground (arith, u.0, g))) in
      let rest =
        ids_of-AllInUse conn es (bimap.remove_by_left e.0 m) u.1
          (λ i d g. ground (arith, laws.left-remove_by_left e.0 i m, f i d, u.0, g)) in
      let r = ids_of conn es in
      elim (ℕ_discrete conn e.1.0) as (λ x. AllInUse (ite x (e.0 ∷ r) r) m) [
        | yes c ↦ ((e.1, f e.0 e.1 (ground arith)), rest)
        | no n ↦ others
      ]

  remove_local_ids-Tracks :
      (ids : List ShardNodeId) (a : Aggregator bimap) (t : Trace)
      → Tracks a t
      → AllInUse ids a.to_local_id.mapping
      → Tracks (remove_local_ids ids a).0 (note_effects (remove_local_ids ids a).1 t)
  unfolding remove_local_ids AllInUse remove_local_id AssignId.remove_by_id
  remove_local_ids-Tracks [] a t h u = h
  remove_local_ids-Tracks (id ∷ ids) a t h ((d, m), rest) =
      let (b, effects) = remove_local_id id a in
      rw (note_effects-append effects (remove_local_ids ids b).1 t) (
        remove_local_ids-Tracks ids b (note_effects effects t) (remove_local_id-Tracks id d a t h m)
          rest)

  pub on_remove-Tracks :
      (conn : ConnId) (message_id : ℕ) (a : Aggregator bimap) (t : Trace)
      → Tracks a t
      → (o : Option ℕ) → AssignId.get_id (conn, message_id) a.to_local_id ≡ o
      → Tracks (on_remove o a).0 (note_effects (on_remove o a).1 t)
  unfolding on_remove AssignId.get_id
  on_remove-Tracks conn message_id a t h none e = h
  on_remove-Tracks conn message_id a t h (some id) e =
      remove_local_id-Tracks id (conn, message_id) a t h (laws.to_left id (conn, message_id) _ e)

  pub on_disconnected-Tracks :
      (conn : ConnId) (a : Aggregator bimap) (t : Trace)
      → Tracks a t
      → Tracks (on_disconnected conn a).0 (note_effects (on_disconnected conn a).1 t)
  unfolding on_disconnected AssignId.iter
  on_disconnected-Tracks conn a t h =
      remove_local_ids-Tracks (ids_of conn (bimap.iter a.to_local_id.mapping)) _ t
        (record {
          lawful = h.lawful;
          connected = h.connected;
          fresh = h.fresh;
          below = h.below;
          live = h.live;
          muted = h.muted;
          muted_fresh = h.muted_fresh;
        })
        (ids_of-AllInUse conn (bimap.iter a.to_local_id.mapping) a.to_local_id.mapping
          (laws.iter-IsMap a.to_local_id.mapping)
          (λ i d e. sym (laws.get-iter i a.to_local_id.mapping) ∙ e))
