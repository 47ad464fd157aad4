-- ===== src/Shard/CoreConnection.antt =====
-- backend/telemetry_shard/src/connection.rs: the loop that keeps up a connection to the core. A turn is one
-- thing that the task waits for: the end of a pause, an attempt to connect, a message from the core or
-- from the aggregator. The encoding of messages is an argument. A turn that sends something also holds
-- whether the send was taken.
mod Alternation
mod Examples
mod Hearing
use substrate_telemetry.Prelude.{
  Bool, true, false, Option, none, some, List, [], ◌∷◌, ◌++◌, Text, Run, ok, ◌>>=◌, expect,
}

pub data Message (Out : Type 0) : Type 0 where
  connected : Message Out
  disconnected : Message Out
  payload : Out → Message Out

-- Where the task stands: before a new attempt, in it, in the inner loop, or returned.
pub data Phase : Type 0 where
  pausing : Phase
  connecting : Phase
  forwarding : Phase
  ended : Phase

-- The variables of the task, and the messages that wait in its incoming channel.
pub record Link (In : Type 0) : Type 0 where
  pub phase : Phase
  pub is_connected : Bool
  pub pending : List In

pub data Event (In : Type 0) : Type 0 where
  -- The aggregator puts a message into the channel.
  arrives : In → Event In
  -- The pause is over.
  wake : Event In
  -- An attempt to connect, which may fail.
  attempt : (succeeds taken : Bool) → Event In
  -- A message from the core, or the end of the connection.
  from_core : Option Text → (taken : Bool) → Event In
  -- The next message from the aggregator is passed on.
  from_aggregator : (sent taken : Bool) → Event In
  -- The aggregator has closed its channel.
  closed : Event In

pub data Effect (Out : Type 0) : Type 0 where
  to_aggregator : Message Out → Effect Out
  to_core : Text → Effect Out

pub record Codec (In Out : Type 0) : Type 0 where
  pub serialize : In → Option Text
  pub deserialize : Text → Option Out

pub start : {In : Type 0} → Link In
start = record { phase = pausing; is_connected = false; pending = [] }

module _ {In Out : Type 0} where
  -- `tx_out.send_async(message)`, and where the task goes on if it is taken.
  send_or_end :
      (taken : Bool) → Message Out → (next : Phase) → Link In → Link In × List (Effect Out)
  send_or_end true message next l = (record l { phase = next }, to_aggregator message ∷ [])
  send_or_end false message next l = (record l { phase = ended }, [])

  -- What follows the inner loop, with whether there was a connection.
  lost : (was_connected taken : Bool) → Link In → Link In × List (Effect Out)
  unfolding send_or_end
  lost true taken l = send_or_end taken disconnected pausing (record l { is_connected = false })
  lost false taken l = (record l { phase = pausing }, [])

  pub attempted : (succeeds taken : Bool) → Link In → Link In × List (Effect Out)
  unfolding send_or_end lost
  attempted true taken l = send_or_end taken connected forwarding (record l { is_connected = true })
  attempted false taken l = lost l.is_connected taken l

  module _ (codec : Codec In Out) where
    -- A message from the core, in the inner loop.
    pub received : Option Text → (taken : Bool) → Link In → Run (Link In × List (Effect Out))
    unfolding send_or_end lost
    received none taken l = ok (lost l.is_connected taken l)
    received (some bytes) taken l = do
      msg ← expect (codec.deserialize bytes)
      ok (send_or_end taken (payload msg) forwarding l)

    -- A message for the core, in the inner loop; if there is none the task waits.
    pub passed_on : (sent taken : Bool) → List In → Link In → Run (Link In × List (Effect Out))
    unfolding lost
    passed_on sent taken [] l = ok (l, [])
    passed_on true taken (msg ∷ pending) l = do
      bytes ← expect (codec.serialize msg)
      ok (record l { pending = pending }, to_core bytes ∷ [])
    passed_on false taken (msg ∷ pending) l = do
      bytes ← expect (codec.serialize msg)
      ok (lost l.is_connected taken (record l { pending = pending }))

    -- One turn; what the task does not wait for in its phase has no effect.
    pub turn : Event In → Phase → Link In → Run (Link In × List (Effect Out))
    unfolding attempted received passed_on
    turn (arrives msg) phase l = ok (record l { pending = l.pending ++ msg ∷ [] }, [])
    turn wake pausing l = ok (record l { phase = connecting; pending = [] }, [])
    turn (attempt succeeds taken) connecting l = ok (attempted succeeds taken l)
    turn (from_core message taken) forwarding l = received message taken l
    turn (from_aggregator sent taken) forwarding l = passed_on sent taken l.pending l
    turn closed forwarding l = ok (record l { phase = ended }, [])
    turn _ _ l = ok (l, [])

    pub run : List (Event In) → Link In → Run (Link In × List (Effect Out))
    unfolding turn
    run [] l = ok (l, [])
    run (e ∷ es) l = do
      (l', sent) ← turn e l.phase l
      (l'', rest) ← run es l'
      ok (l'', sent ++ rest)
