-- ===== src/Shard/CoreConnection/Alternation.antt =====
-- backend/telemetry_shard/src/connection.rs: what the aggregator hears of the connection.
use substrate_telemetry.Prelude.{
  ◌≡◌, refl, sym, subst, Bool, true, false, is_some, arith, Option, none, some, List, [], ◌∷◌, ◌++◌,
  Text, Option-cases, inl, inr, Returns, Returns-bind, All,
}
use substrate_telemetry.Shard.CoreConnection.{
  connected, payload, Phase, pausing, connecting, forwarding, ended, Link, Event, arrives, wake,
  attempt, from_core, from_aggregator, closed, Effect, Codec, start, send_or_end, lost, attempted,
  received, passed_on, turn, run,
}
use substrate_telemetry.Shard.CoreConnection.Hearing.{
  Heard, nothing, comes_up, goes_down, delivers, sends, Heard-trans, Agree,
}

module _ {In Out : Type 0} (codec : Codec In Out) where
  -- A message of the aggregator can be encoded.
  abbrev pub Writable : In → Type 0
  Writable msg = is_some (codec.serialize msg) ≡ true

  -- A message of the core can be decoded, and one of the aggregator encoded.
  abbrev pub Readable : Event In → Type 0
  Readable (from_core (some bytes) taken) = is_some (codec.deserialize bytes) ≡ true
  Readable (arrives msg) = Writable msg
  Readable _ = Unit

  -- What was sent follows from how the connection was, and it is then as the task sees it.
  pub record Follows (up : Bool) (r : Link In × List (Effect Out)) : Type 0 where
    pub end : Bool
    pub heard : Heard up r.1 end
    pub agree : Agree r.0.phase r.0.is_connected end
    pub pending : All Writable r.0.pending

  All-last :
      (msgs : List In) (msg : In)
      → All Writable msgs
      → Writable msg
      → All Writable (msgs ++ msg ∷ [])
  All-last [] msg h w = (w, tt)
  All-last (m ∷ msgs) msg h w = (h.0, All-last msgs msg h.1 w)

  connected-Follows :
      (taken : Bool) (l : Link In)
      → All Writable l.pending
      → Follows false (send_or_end taken connected forwarding (record l { is_connected = true }))
  unfolding send_or_end
  connected-Follows true l w = record {
    end = true;
    heard = comes_up nothing;
    agree = (refl, refl);
    pending = w;
  }
  connected-Follows false l w = record { end = false; heard = nothing; agree = tt; pending = w }

  payload-Follows :
      (taken : Bool) (msg : Out) (l : Link In)
      → All Writable l.pending
      → l.is_connected ≡ true
      → Follows true (send_or_end taken (payload msg) forwarding l)
  unfolding send_or_end
  payload-Follows true msg l w h = record {
    end = true;
    heard = delivers msg nothing;
    agree = (h, refl);
    pending = w;
  }
  payload-Follows false msg l w h = record { end = true; heard = nothing; agree = tt; pending = w }

  lost-Follows :
      (c taken : Bool) (l : Link In)
      → All Writable l.pending
      → l.is_connected ≡ c
      → Follows c (lost c taken l)
  unfolding lost send_or_end
  lost-Follows true true l w e = record {
    end = false;
    heard = goes_down nothing;
    agree = (refl, refl);
    pending = w;
  }
  lost-Follows true false l w e = record { end = true; heard = nothing; agree = tt; pending = w }
  lost-Follows false taken l w e = record {
    end = false;
    heard = nothing;
    agree = (e, refl);
    pending = w;
  }

  still-Follows :
      (up : Bool) (l : Link In)
      → All Writable l.pending
      → Agree l.phase l.is_connected up
      → Follows up (l, [])
  still-Follows up l w h = record { end = up; heard = nothing; agree = h; pending = w }

  attempted-Follows :
      (succeeds taken : Bool) (l : Link In)
      → All Writable l.pending
      → l.is_connected ≡ false
      → Follows false (attempted succeeds taken l)
  unfolding attempted
  attempted-Follows true taken l w h = connected-Follows taken l w
  attempted-Follows false taken l w h =
      subst (λ c. Follows false (lost {Out = Out} c taken l)) (sym h)
        (lost-Follows false taken l w h)

  received-Follows :
      (message : Option Text) (taken : Bool) (l : Link In)
      → Readable (from_core message taken)
      → All Writable l.pending
      → l.is_connected ≡ true
      → Returns (received codec message taken l) (Follows true)
  unfolding received
  received-Follows none taken l r w h =
      subst (λ c. Follows true (lost {Out = Out} c taken l)) (sym h) (lost-Follows true taken l w h)
  received-Follows (some bytes) taken l r w h = elim (Option-cases (codec.deserialize bytes)) [
    | inl e ↦ ground (arith, e, r)
    | inr (msg, e) ↦ rw e (payload-Follows taken msg l w h)
  ]

  written : (msg : In) → Writable msg → (bytes : Text) × (codec.serialize msg ≡ some bytes)
  written msg w = elim (Option-cases (codec.serialize msg)) [
    | inl e ↦ ground (arith, e, w)
    | inr found ↦ found
  ]

  passed_on-Follows :
      (sent taken : Bool) (pending : List In) (l : Link In)
      → l.phase ≡ forwarding
      → All Writable l.pending
      → All Writable pending
      → l.is_connected ≡ true
      → Returns (passed_on codec sent taken pending l) (Follows true)
  unfolding passed_on
  passed_on-Follows sent taken [] l p v w h =
      still-Follows true l v (subst (λ q. Agree q l.is_connected true) (sym p) (h, refl))
  passed_on-Follows true taken (msg ∷ pending) l p v w h =
      let (bytes, e) = written msg w.0 in
      rw e (record {
        end = true;
        heard = sends bytes nothing;
        agree = subst (λ q. Agree q l.is_connected true) (sym p) (h, refl);
        pending = w.1;
      })
  passed_on-Follows false taken (msg ∷ pending) l p v w h =
      let (bytes, e) = written msg w.0 in
      rw e (
        subst (λ c. Follows true (lost {Out = Out} c taken (record l { pending = pending })))
          (sym h) (lost-Follows true taken (record l { pending = pending }) w.1 h))

  turn-Follows :
      (e : Event In) (phase : Phase) (l : Link In) (up : Bool)
      → Readable e
      → All Writable l.pending
      → l.phase ≡ phase
      → Agree l.phase l.is_connected up
      → Agree phase l.is_connected up
      → Returns (turn codec e phase l) (Follows up)
  unfolding turn
  turn-Follows (arrives msg) phase l up r w p a b =
      still-Follows up (record l { pending = l.pending ++ msg ∷ [] }) (All-last l.pending msg w r) a
  turn-Follows wake pausing l up r w p a b = record {
    end = up;
    heard = nothing;
    agree = b;
    pending = tt;
  }
  turn-Follows wake connecting l up r w p a b = still-Follows up l w a
  turn-Follows wake forwarding l up r w p a b = still-Follows up l w a
  turn-Follows wake ended l up r w p a b = still-Follows up l w a
  turn-Follows (attempt succeeds taken) pausing l up r w p a b = still-Follows up l w a
  turn-Follows (attempt succeeds taken) connecting l up r w p a b =
      subst (λ u. Follows u (attempted succeeds taken l)) (sym b.1)
        (attempted-Follows succeeds taken l w b.0)
  turn-Follows (attempt succeeds taken) forwarding l up r w p a b = still-Follows up l w a
  turn-Follows (attempt succeeds taken) ended l up r w p a b = still-Follows up l w a
  turn-Follows (from_core message taken) pausing l up r w p a b = still-Follows up l w a
  turn-Follows (from_core message taken) connecting l up r w p a b = still-Follows up l w a
  turn-Follows (from_core message taken) forwarding l up r w p a b =
      subst (λ u. Returns (received codec message taken l) (Follows u)) (sym b.1)
        (received-Follows message taken l r w b.0)
  turn-Follows (from_core message taken) ended l up r w p a b = still-Follows up l w a
  turn-Follows (from_aggregator sent taken) pausing l up r w p a b = still-Follows up l w a
  turn-Follows (from_aggregator sent taken) connecting l up r w p a b = still-Follows up l w a
  turn-Follows (from_aggregator sent taken) forwarding l up r w p a b =
      subst (λ u. Returns (passed_on codec sent taken l.pending l) (Follows u)) (sym b.1)
        (passed_on-Follows sent taken l.pending l p w w b.0)
  turn-Follows (from_aggregator sent taken) ended l up r w p a b = still-Follows up l w a
  turn-Follows closed pausing l up r w p a b = still-Follows up l w a
  turn-Follows closed connecting l up r w p a b = still-Follows up l w a
  turn-Follows closed forwarding l up r w p a b = record {
    end = up;
    heard = nothing;
    agree = tt;
    pending = w;
  }
  turn-Follows closed ended l up r w p a b = still-Follows up l w a

  run-Follows_from :
      (es : List (Event In)) (l : Link In) (up : Bool)
      → All Readable es
      → All Writable l.pending
      → Agree l.phase l.is_connected up
      → Returns (run codec es l) (Follows up)
  unfolding run
  run-Follows_from [] l up r w a = still-Follows up l w a
  run-Follows_from (e ∷ es) l up r w a =
      Returns-bind (turn codec e l.phase l) _ (Follows up) (Follows up)
        (turn-Follows e l.phase l up r.0 w refl a a)
        (λ x f.
          Returns-bind (run codec es x.0) _ (Follows f.end) (Follows up)
            (run-Follows_from es x.0 f.end r.1 f.pending f.agree)
            (λ y g. record {
              end = g.end;
              heard = Heard-trans f.heard g.heard;
              agree = g.agree;
              pending = g.pending;
            }))

  -- Whatever happens to the connections, as long as the messages that arrive from the core can be
  -- decoded and those from the aggregator encoded, the task does not panic. The aggregator hears in
  -- turns that there is a connection and that it is lost, beginning with a connection; messages go
  -- either way only in between; and at the end the task takes the connection to be as the aggregator
  -- has heard, unless it has returned.
  pub run-Follows :
      (es : List (Event In)) → All Readable es → Returns (run codec es start) (Follows false)
  unfolding start
  run-Follows es r = run-Follows_from es start false r tt (refl, refl)
