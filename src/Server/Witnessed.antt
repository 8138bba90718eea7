-- ===== src/Server/Witnessed.antt =====
-- What a successful request to witness an event says.
use validated_streams.Base.{◌≡◌, ok, arith}
use validated_streams.Primitives.{Bytes, IsH256}
use validated_streams.Server.{EventWitnesser, witness_event}

-- A request succeeds only if it is of a hash and the witnesser takes it.
pub witness_event-ok :
    {State : Type 0} (W : EventWitnesser State) (event_id : Bytes) (s : State)
    → (witness_event W event_id s).0 ≡ ok tt
    → IsH256 event_id
      × ((W.witness_event event_id s).0 ≡ ok tt)
      × ((witness_event W event_id s).1 ≡ (W.witness_event event_id s).1)
unfolding witness_event
witness_event-ok W event_id s h = (ground arith, ground arith, ground arith)

-- A request of a hash is handed on to the witnesser.
pub witness_event-served :
    {State : Type 0} (W : EventWitnesser State) (event_id : Bytes) (s : State)
    → IsH256 event_id
    → (W.witness_event event_id s).0 ≡ ok tt
    → ((witness_event W event_id s).0 ≡ ok tt)
      × ((witness_event W event_id s).1 ≡ (W.witness_event event_id s).1)
unfolding witness_event
witness_event-served W event_id s hash done = (ground (arith, hash, done), ground (arith, hash))
