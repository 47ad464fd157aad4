-- ===== src/Core/InnerLoop/Queue/Dropping.antt =====
-- backend/telemetry_core/src/aggregator/inner_loop.rs: which messages the queue drops.
use substrate_telemetry.Prelude.{
  ℕ, ◌≡◌, refl, sym, ap, ◌∙◌, inl, inr, List, [], ◌∷◌, ◌++◌, ltb, length, Bool-cases, if◌then◌else◌,
}
use mathlib.Core.List.{append_assoc, append-nil}
use substrate_telemetry.Core.InnerLoop.Queue.{ToAggregator, Queue, is_update, receive}

-- The messages that are not updates.
abbrev pub essential : List ToAggregator → List ToAggregator
essential [] = []
essential (msg ∷ msgs) = let rest = essential msgs in if is_update msg then rest else msg ∷ rest

essential-append : (xs ys : List ToAggregator) → essential (xs ++ ys) ≡ essential xs ++ essential ys
essential-append [] ys = refl
essential-append (x ∷ xs) ys = elim (Bool-cases (is_update x)) [
  | inl e ↦ rw (e, essential-append xs ys) refl
  | inr e ↦ rw (e, essential-append xs ys) refl
]

-- The first messages of the queue are taken to be handled.
abbrev pub take_next : List ToAggregator → List ToAggregator × List ToAggregator
take_next [] = ([], [])
take_next (msg ∷ msgs) = (msg ∷ [], msgs)

-- A message comes in, or one is taken.
pub data Step : Type 0 where
  comes : ToAggregator → Step
  goes : Step

-- The messages that come in.
abbrev pub incoming : List Step → List ToAggregator
incoming [] = []
incoming (comes msg ∷ steps) = msg ∷ incoming steps
incoming (goes ∷ steps) = incoming steps

-- The queue afterwards, and the messages that were taken.
pub run : (max_queue_len : ℕ) → List Step → Queue → Queue × List ToAggregator
unfolding receive
run max_queue_len [] q = (q, [])
run max_queue_len (comes msg ∷ steps) q = run max_queue_len steps (receive max_queue_len msg q)
run max_queue_len (goes ∷ steps) q =
    let (taken, left) = take_next q.messages in
    let (q', more) = run max_queue_len steps (record q { messages = left }) in (q', taken ++ more)

-- A message that comes in is put at the end, or it is an update and dropped.
receive-essential :
    (max_queue_len : ℕ) (msg : ToAggregator) (q : Queue) (rest : List ToAggregator)
    → essential ((receive max_queue_len msg q).messages ++ rest)
      ≡ essential (q.messages ++ msg ∷ rest)
unfolding receive
receive-essential max_queue_len msg q rest =
    let whole = append_assoc q.messages (msg ∷ []) rest in
    elim (Bool-cases (ltb max_queue_len (length q.messages))) [
      | inr e ↦ rw e (ap essential whole)
      | inl e ↦ elim (Bool-cases (is_update msg)) [
        | inr f ↦ rw (e, f) (ap essential whole)
        | inl f ↦
            rw (e, f)
              (essential-append q.messages rest
                ∙ sym (
                    essential-append q.messages (msg ∷ rest)
                    ∙ ap
                        (λ b.
                          essential q.messages
                          ++ (if b then essential rest else msg ∷ essential rest))
                        f))
      ]
    ]

-- What is taken goes in front of what is taken and waits later.
take_next-essential :
    (msgs later rest : List ToAggregator)
    → essential later ≡ essential ((take_next msgs).1 ++ rest)
    → essential ((take_next msgs).0 ++ later) ≡ essential (msgs ++ rest)
take_next-essential [] later rest h = h
take_next-essential (msg ∷ msgs) later rest h =
    ap (λ others. if is_update msg then others else msg ∷ others) h

-- Whatever comes in, and whenever messages are taken from the queue, all messages but updates are
-- taken or still wait, each once and in the order in which they came.
pub run-essential :
    (max_queue_len : ℕ) (steps : List Step) (q : Queue)
    → essential ((run max_queue_len steps q).1 ++ (run max_queue_len steps q).0.messages)
      ≡ essential (q.messages ++ incoming steps)
unfolding run
run-essential max_queue_len [] q = ap essential (sym (append-nil q.messages))
run-essential max_queue_len (comes msg ∷ steps) q =
    run-essential max_queue_len steps (receive max_queue_len msg q)
    ∙ receive-essential max_queue_len msg q (incoming steps)
run-essential max_queue_len (goes ∷ steps) q =
    let left = record q { messages = (take_next q.messages).1 } in
    let later = run max_queue_len steps left in
    ap essential (append_assoc (take_next q.messages).0 later.1 later.0.messages)
    ∙ take_next-essential q.messages (later.1 ++ later.0.messages) (incoming steps)
        (run-essential max_queue_len steps left)
