-- ===== src/Common/MultiMapUnique/Refinement.antt =====
-- backend/common/src/multi_map_unique.rs: the two maps of a `MultiMapUnique` are one partial
-- function from values to keys.
use substrate_telemetry.Prelude.{
  ◌≡◌, ite, refl, ◌∙◌, ◌≢◌, inl, inr, Option, none, some, [], ◌∷◌, Key, arith, Option-cases,
  and_then, if_pos,
}
use substrate_telemetry.Prelude.HashMap
use substrate_telemetry.Prelude.HashMap.{
  HashMap, get-insert, get-remove, insert-IsMap, remove-IsMap,
}
use substrate_telemetry.Common.MultiMapUnique.{
  MultiMapUnique, new, or_default, set_or_remove, remove_from_set, remove_found, remove_value, add,
  insert,
}

-- Whether a value of the given key is in the set of `k`.
abbrev pub belongs : {K : Type 0} ⦃key : Key K⦄ → Option K → K → Option {0} Unit
belongs none k = none
belongs ⦃key⦄ (some j) k = ite (key.dec j k) (some tt) none

get-or_default :
    {V : Type 0} ⦃val : Key V⦄ (w : V) (o : Option (HashMap V Unit))
    → HashMap.get w (or_default o) ≡ and_then o (HashMap.get w)
unfolding or_default HashMap.get
get-or_default w none = refl
get-or_default w (some s) = refl

insert-inhabited :
    {V : Type 0} ⦃val : Key V⦄ (v : V) (s : HashMap V Unit) → HashMap.insert v tt s ≢ []
unfolding HashMap.insert
insert-inhabited v [] = λ e. cc
insert-inhabited v (e ∷ s) = ground arith

module _ {K V : Type 0} ⦃key : Key K⦄ ⦃val : Key V⦄ where
  -- Whether `v` is in the set of `k`, as the sets say.
  abbrev pub member : K → V → HashMap K (HashMap V Unit) → Option {0} Unit
  member k v sets = and_then (HashMap.get k sets) (HashMap.get v)

  -- Both maps have each key once, a value is in the set of the key it belongs to and in no other,
  -- and no set is empty.
  pub record IsValid (m : MultiMapUnique K V) : Type 0 where
    pub keys : HashMap.IsMap m.value_to_key
    pub sets : HashMap.IsMap m.key_to_values
    pub agree :
        (k : K) (v : V) → member k v m.key_to_values ≡ belongs (HashMap.get v m.value_to_key) k
    pub inhabited : (k : K) → HashMap.get k m.key_to_values ≢ some []

  pub new-IsValid : IsValid new
  unfolding new HashMap.get
  new-IsValid = record { keys = tt; sets = tt; agree = λ k v. refl; inhabited = λ k e. cc }

  member-insert :
      (k : K) (s : HashMap V Unit) (j : K) (w : V) (sets : HashMap K (HashMap V Unit))
      → member j w (HashMap.insert k s sets) ≡ ite (key.dec k j) (HashMap.get w s) (member j w sets)
  member-insert k s j w sets = ground (arith, get-insert k j s sets)

  member-remove :
      (k : K) (j : K) (w : V) (sets : HashMap K (HashMap V Unit))
      → member j w (HashMap.remove k sets) ≡ ite (key.dec k j) none (member j w sets)
  member-remove k j w sets = ground (arith, get-remove k j sets)

  member-add :
      (k : K) (v : V) (j : K) (w : V) (m : MultiMapUnique K V)
      → member j w (add k v m).key_to_values
        ≡ ite
            (key.dec k j)
            (ite (val.dec v w) (some tt) (member j w m.key_to_values))
            (member j w m.key_to_values)
  unfolding add
  member-add k v j w m = ground (
    arith,
    member-insert k (HashMap.insert v tt (or_default (HashMap.get k m.key_to_values))) j w
        m.key_to_values,
    get-insert v w tt (or_default (HashMap.get k m.key_to_values)),
    get-or_default w (HashMap.get k m.key_to_values),
  )

  -- `set_or_remove`, whatever the set.
  member-set_or_remove :
      (k : K) (s : HashMap V Unit) (j : K) (w : V) (sets : HashMap K (HashMap V Unit))
      → member j w (set_or_remove k s sets) ≡ ite (key.dec k j) (HashMap.get w s) (member j w sets)
  unfolding set_or_remove HashMap.get
  member-set_or_remove k [] j w sets = member-remove k j w sets
  member-set_or_remove k (e ∷ s) j w sets = member-insert k (e ∷ s) j w sets

  member-remove_from_set :
      (v : V) (k : K) (j : K) (w : V) (sets : HashMap K (HashMap V Unit))
      → member j w (remove_from_set v k (HashMap.get k sets) sets)
        ≡ ite (key.dec k j) (ite (val.dec v w) none (member j w sets)) (member j w sets)
  unfolding remove_from_set
  member-remove_from_set v k j w sets = elim (Option-cases (HashMap.get k sets)) [
    | inl e ↦ rw e (ground arith)
    | inr (s, e) ↦
        rw e
          (ground (arith, member-set_or_remove k (HashMap.remove v s) j w sets, get-remove v w s))
  ]

  inhabited-set_or_remove :
      (k : K) (s : HashMap V Unit) (sets : HashMap K (HashMap V Unit))
      → ((j : K) → HashMap.get j sets ≢ some [])
      → (j : K) → HashMap.get j (set_or_remove k s sets) ≢ some []
  unfolding set_or_remove
  inhabited-set_or_remove k [] sets h j = ground (arith, get-remove k j sets, h j)
  inhabited-set_or_remove k (e ∷ s) sets h j = ground (arith, get-insert k j (e ∷ s) sets, h j)

  set_or_remove-IsMap :
      (k : K) (s : HashMap V Unit) (sets : HashMap K (HashMap V Unit))
      → HashMap.IsMap sets
      → HashMap.IsMap (set_or_remove k s sets)
  unfolding set_or_remove
  set_or_remove-IsMap k [] sets h = remove-IsMap k sets h
  set_or_remove-IsMap k (e ∷ s) sets h = insert-IsMap k (e ∷ s) sets h

  -- Where `v` belonged to `k`, it is in no set once it has left both maps.
  remove_found-IsValid :
      (v : V) (o : Option K) (m : MultiMapUnique K V)
      → IsValid m
      → HashMap.get v m.value_to_key ≡ o
      → IsValid (remove_found v o m).0
  unfolding remove_found remove_from_set
  remove_found-IsValid v none m ok e = ok
  remove_found-IsValid v (some k) m ok e = record {
    keys = remove-IsMap v m.value_to_key ok.keys;
    sets = elim (Option-cases (HashMap.get k m.key_to_values)) [
      | inl h ↦ rw h ok.sets
      | inr (s, h) ↦ rw h (set_or_remove-IsMap k (HashMap.remove v s) m.key_to_values ok.sets)
    ];
    agree = λ j w. ground (
      arith,
      member-remove_from_set v k j w m.key_to_values,
      get-remove v w m.value_to_key,
      ok.agree j w,
      e,
    );
    inhabited = λ j. elim (Option-cases (HashMap.get k m.key_to_values)) [
      | inl h ↦ rw h (ok.inhabited j)
      | inr (s, h) ↦
          rw h (inhabited-set_or_remove k (HashMap.remove v s) m.key_to_values ok.inhabited j)
    ];
  }

  pub remove_value-IsValid :
      (v : V) (m : MultiMapUnique K V) → IsValid m → IsValid (remove_value v m).0
  unfolding remove_value
  remove_value-IsValid v m ok = remove_found-IsValid v (HashMap.get v m.value_to_key) m ok refl

  pub remove_value_lem :
      (v w : V) (m : MultiMapUnique K V)
      → HashMap.get w (remove_value v m).0.value_to_key
        ≡ ite (val.dec v w) none (HashMap.get w m.value_to_key)
  unfolding remove_value remove_found
  remove_value_lem v w m = elim (Option-cases (HashMap.get v m.value_to_key)) [
    | inl e ↦ rw e ground arith
    | inr (k, e) ↦ rw e (get-remove v w m.value_to_key)
  ]

  add-IsValid :
      (k : K) (v : V) (m : MultiMapUnique K V)
      → IsValid m
      → HashMap.get v m.value_to_key ≡ none
      → IsValid (add k v m)
  unfolding add or_default
  add-IsValid k v m ok e = record {
    keys = insert-IsMap v k m.value_to_key ok.keys;
    sets = insert-IsMap k _ m.key_to_values ok.sets;
    agree = λ j w.
        ground (arith, member-add k v j w m, get-insert v w k m.value_to_key, ok.agree j w, e);
    inhabited = λ j. ground (
      arith,
      get-insert k j (HashMap.insert v tt (or_default (HashMap.get k m.key_to_values)))
          m.key_to_values,
      insert-inhabited v (or_default (HashMap.get k m.key_to_values)),
      ok.inhabited j,
    );
  }

  -- An insertion keeps the maps in step.
  pub insert-IsValid :
      (k : K) (v : V) (m : MultiMapUnique K V) → IsValid m → IsValid (insert k v m).0
  unfolding insert
  insert-IsValid k v m ok =
      add-IsValid k v (remove_value v m).0 (remove_value-IsValid v m ok)
        (remove_value_lem v v m ∙ if_pos (val.dec v v) refl none (HashMap.get v m.value_to_key))

  -- What a sequence of insertions and removals makes of a partial function from values to keys.
  pub insert_lem :
      (k : K) (v w : V) (m : MultiMapUnique K V)
      → HashMap.get w (insert k v m).0.value_to_key
        ≡ ite (val.dec v w) (some k) (HashMap.get w m.value_to_key)
  unfolding insert add
  insert_lem k v w m =
      ground (arith, get-insert v w k (remove_value v m).0.value_to_key, remove_value_lem v w m)

  pub remove_value-old :
      (v : V) (m : MultiMapUnique K V) → (remove_value v m).1 ≡ HashMap.get v m.value_to_key
  unfolding remove_value remove_found
  remove_value-old v m = elim (Option-cases (HashMap.get v m.value_to_key)) [
    | inl e ↦ rw e refl
    | inr (k, e) ↦ rw e refl
  ]
