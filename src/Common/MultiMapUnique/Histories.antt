-- ===== src/Common/MultiMapUnique/Histories.antt =====
-- backend/common/src/multi_map_unique.rs: what a history of insertions and removals leaves, against
-- the last operation on each value.
use substrate_telemetry.Prelude.{
  ◌≡◌, ite, refl, ap, ◌∙◌, ◌≢◌, Option, none, some, List, [], ◌∷◌, Key, and_then,
}
use substrate_telemetry.Prelude.HashMap
use substrate_telemetry.Common.MultiMapUnique.{
  MultiMapUnique, new, remove_value, insert, get_values,
}
use substrate_telemetry.Common.MultiMapUnique.Refinement.{
  belongs, IsValid, new-IsValid, insert-IsValid, insert_lem, remove_value-IsValid, remove_value_lem,
  remove_value-old,
}

pub data Operation (K V : Type 0) : Type 0 where
  put : K → V → Operation K V
  take_out : V → Operation K V

module _ {K V : Type 0} ⦃key : Key K⦄ ⦃val : Key V⦄ where
  apply : Operation K V → MultiMapUnique K V → MultiMapUnique K V
  unfolding insert remove_value
  apply (put k v) m = (insert k v m).0
  apply (take_out v) m = (remove_value v m).0

  -- The map after a history, the newest operation first.
  pub run : List (Operation K V) → MultiMapUnique K V
  unfolding apply
  run [] = new
  run (op ∷ ops) = apply op (run ops)

  -- The key that a history leaves a value with, by its newest operation on the value.
  pub owner : V → List (Operation K V) → Option K
  owner w [] = none
  owner w (put k v ∷ ops) = ite (val.dec v w) (some k) (owner w ops)
  owner w (take_out v ∷ ops) = ite (val.dec v w) none (owner w ops)

  run-IsValid : (ops : List (Operation K V)) → IsValid (run ops)
  unfolding run apply
  run-IsValid [] = new-IsValid
  run-IsValid (put k v ∷ ops) = insert-IsValid k v (run ops) (run-IsValid ops)
  run-IsValid (take_out v ∷ ops) = remove_value-IsValid v (run ops) (run-IsValid ops)

  run-owner :
      (ops : List (Operation K V)) (w : V) → HashMap.get w (run ops).value_to_key ≡ owner w ops
  unfolding run apply owner new HashMap.get
  run-owner [] w = refl
  run-owner (put k v ∷ ops) w = rw (insert_lem k v w (run ops), run-owner ops w) refl
  run-owner (take_out v ∷ ops) w = rw (remove_value_lem v w (run ops), run-owner ops w) refl

  -- After any history of insertions and removals from an empty map, a value stands in the set of
  -- a key exactly if the newest operation on the value inserted it under that key, and no key is
  -- left with an empty set.
  pub get_values-run :
      (ops : List (Operation K V)) (k : K) (w : V)
      → (and_then (get_values k (run ops)) (HashMap.get w) ≡ belongs (owner w ops) k)
        × (get_values k (run ops) ≢ some [])
  unfolding get_values
  get_values-run ops k w = (
    (run-IsValid ops).agree k w ∙ ap (λ o. belongs o k) (run-owner ops w),
    (run-IsValid ops).inhabited k,
  )

  -- Inserting a value answers with the key that the newest earlier operation on it gave it.
  pub insert-owner :
      (ops : List (Operation K V)) (k : K) (w : V) → (insert k w (run ops)).1 ≡ owner w ops
  unfolding insert
  insert-owner ops k w = remove_value-old w (run ops) ∙ run-owner ops w
