-- ===== src/Common/BiMap/Pairs.antt =====
-- A two-way map as a list of pairs, for the examples: the promises of the crate `bimap` can be kept.
use substrate_telemetry.Prelude.{
  ◌≡◌, ◌≢◌, ite, refl, ap, ◌∙◌, Option, none, some, [], ◌∷◌, Key, arith, Option-cases, nat_key, inl,
  inr,
}
use substrate_telemetry.Prelude.HashMap
use substrate_telemetry.Prelude.HashMap.{HashMap, remove-IsMap, get-remove}
use substrate_telemetry.Common.BiMap.{BiMap, IsBiMap, without}

module _ {L D : Type 0} ⦃left : Key L⦄ ⦃key : Key D⦄ where
  -- The left value of `d` in a list of pairs.
  find : D → HashMap L D → Option L
  find d [] = none
  find d (e ∷ m) = ite (key.dec e.1 d) (some e.0) (find d m)

  drop_details : D → HashMap L D → HashMap L D
  drop_details d [] = []
  drop_details d (e ∷ m) = let rest = drop_details d m in ite (key.dec d e.1) rest (e ∷ rest)

  get-drop_details :
      (d : D) (i : L) (m : HashMap L D)
      → HashMap.IsMap m
      → HashMap.get i (drop_details d m) ≡ without d (HashMap.get i m)
  unfolding drop_details HashMap.get
  get-drop_details d i [] h = refl
  get-drop_details d i (e ∷ m) h = ground (arith, get-drop_details d i m h.1)

  drop_details-IsMap :
      (d : D) (m : HashMap L D) → HashMap.IsMap m → HashMap.IsMap (drop_details d m)
  unfolding drop_details
  drop_details-IsMap d [] h = tt
  drop_details-IsMap d (e ∷ m) h =
      ground (arith, drop_details-IsMap d m h.1, get-drop_details d e.0 m h.1, h.0)

  get-find :
      (d : D) (i : L) (m : HashMap L D)
      → HashMap.IsMap m
      → find d m ≡ some i
      → HashMap.get i m ≡ some d
  unfolding find HashMap.get
  get-find d i [] h e = ground arith
  get-find d i (x ∷ m) h e = ground (arith, get-find d i m h.1, h.0)

  find-absent : (d : D) (i : L) (m : HashMap L D) → find d m ≡ none → HashMap.get i m ≢ some d
  unfolding find HashMap.get
  find-absent d i [] e = λ h. ground arith
  find-absent d i (x ∷ m) e = ground (arith, find-absent d i m)

  -- No details under two left values.
  Injective : HashMap L D → Type 0
  Injective m = (i j : L) (d : D) → HashMap.get i m ≡ some d → HashMap.get j m ≡ some d → i ≡ j

  IsPairs : HashMap L D → Type 0
  IsPairs m = HashMap.IsMap m × Injective m

  insert : L → D → HashMap L D → HashMap L D
  insert i d m = (i, d) ∷ HashMap.remove i (drop_details d m)

  get-insert :
      (i j : L) (d : D) (m : HashMap L D)
      → HashMap.IsMap m
      → HashMap.get j (insert i d m) ≡ ite (left.dec i j) (some d) (without d (HashMap.get j m))
  unfolding insert HashMap.get
  get-insert i j d m h = ground (arith, get-remove i j (drop_details d m), get-drop_details d j m h)

  insert-IsMap : (i : L) (d : D) (m : HashMap L D) → HashMap.IsMap m → HashMap.IsMap (insert i d m)
  unfolding insert
  insert-IsMap i d m h = (
    ground (arith, get-remove i i (drop_details d m)),
    remove-IsMap i (drop_details d m) (drop_details-IsMap d m h),
  )

  insert-Injective :
      (i : L) (d : D) (m : HashMap L D) → HashMap.IsMap m → Injective m → Injective (insert i d m)
  unfolding Injective
  insert-Injective i d m h inj j k c e f =
      ground (arith, get-insert i j d m h, get-insert i k d m h, inj j k c, e, f)

  drop_details-Injective :
      (d : D) (m : HashMap L D) → HashMap.IsMap m → Injective m → Injective (drop_details d m)
  unfolding Injective
  drop_details-Injective d m h inj j k c e f =
      ground (arith, get-drop_details d j m h, get-drop_details d k m h, inj j k c, e, f)

  remove-Injective : (i : L) (m : HashMap L D) → Injective m → Injective (HashMap.remove i m)
  unfolding Injective
  remove-Injective i m inj j k c e f =
      ground (arith, get-remove i j m, get-remove i k m, inj j k c, e, f)

  find-get :
      (d : D) (i : L) (p : (m : HashMap L D) × IsPairs m)
      → HashMap.get i p.0 ≡ some d
      → find d p.0 ≡ some i
  unfolding IsPairs Injective
  find-get d i p e = elim (Option-cases (find d p.0)) [
    | inl n ↦ absurd (find-absent d i p.0 n e)
    | inr (j, s) ↦ s ∙ ap some (p.1.1 j i d (get-find d j p.0 p.1.0 s) e)
  ]

pub pairs : (L D : Type 0) ⦃left : Key L⦄ ⦃key : Key D⦄ → BiMap L D
unfolding IsPairs Injective HashMap.get
pairs L D = record {
  Map = (m : HashMap L D) × IsPairs m;
  new = ([], (tt, λ i j d e f. cc));
  insert =
      λ i d p. (insert i d p.0, (insert-IsMap i d p.0 p.1.0, insert-Injective i d p.0 p.1.0 p.1.1));
  get_by_left = λ i p. HashMap.get i p.0;
  get_by_right = λ d p. find d p.0;
  remove_by_left =
      λ i p. (HashMap.remove i p.0, (remove-IsMap i p.0 p.1.0, remove-Injective i p.0 p.1.1));
  remove_by_right = λ d p. (
    drop_details d p.0,
    (drop_details-IsMap d p.0 p.1.0, drop_details-Injective d p.0 p.1.0 p.1.1),
  );
  iter = λ p. p.0;
}

pub pairs-IsBiMap : (L D : Type 0) ⦃left : Key L⦄ ⦃key : Key D⦄ → IsBiMap (pairs L D)
unfolding pairs IsPairs Injective HashMap.get
pairs-IsBiMap L D = record {
  to_right = λ i d p e. find-get d i p e;
  to_left = λ i d p e. get-find d i p.0 p.1.0 e;
  left-new = λ i. refl;
  left-insert = λ i j d p. get-insert i j d p.0 p.1.0;
  left-remove_by_left = λ i j p. get-remove i j p.0;
  left-remove_by_right = λ d j p. get-drop_details d j p.0 p.1.0;
  iter-IsMap = λ p. p.1.0;
  get-iter = λ i p. refl;
}
