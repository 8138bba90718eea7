-- ===== src/Pallet/Log.antt =====
-- The deposited events and the storage map tell the same story: each event once.
use validated_streams.Base.{
  ◌≡◌, refl, ap, true, false, List, [], ◌∷◌, contains, Distinct, ite, arith,
}
use validated_streams.Base.HashMap.{DistinctKeys, get-insert, insert-DistinctKeys}
use validated_streams.Pallet.{Event, validated_event, Storage, record_event, is_event_valid}
use validated_streams.Primitives.{Bytes-discrete, H256}

abbrev pub ids : List Event → List H256
ids [] = []
ids (validated_event id ∷ es) = id ∷ ids es

-- No event was deposited twice, and those deposited are those in the map.
pub record IsLogged {V : Type 0} (s : Storage V) : Type 0 where
  pub once : Distinct Bytes-discrete (ids s.events)
  pub same : (id : H256) → contains Bytes-discrete (ids s.events) id ≡ is_event_valid id s
  pub keyed : DistinctKeys Bytes-discrete s.streams

module _ {V : Type 0} where
  unfoldable pub empty : Storage V
  empty = record { streams = []; events = [] }

  pub empty-IsLogged : IsLogged empty
  unfolding empty is_event_valid
  empty-IsLogged = record { once = tt; same = λ id. refl; keyed = tt }

  pub is_event_valid-record_event :
      (id : H256) (v : V) (s : Storage V) (j : H256)
      → is_event_valid j (record_event id v s) ≡ ite (Bytes-discrete id j) true (is_event_valid j s)
  unfolding record_event is_event_valid
  is_event_valid-record_event id v s j = ground (arith, get-insert Bytes-discrete s.streams id v j)

  -- Recording an event that is not there yet deposits it for the first time.
  pub record_event-IsLogged :
      (id : H256) (v : V) (s : Storage V)
      → is_event_valid id s ≡ false
      → IsLogged s
      → IsLogged (record_event id v s)
  unfolding record_event
  record_event-IsLogged id v s new g = record {
    once = (rw (g.same id) new, g.once);
    same = λ j.
        rw (is_event_valid-record_event id v s j)
          (ap (λ b. ite (Bytes-discrete id j) true b) (g.same j));
    keyed = insert-DistinctKeys Bytes-discrete s.streams id v g.keyed;
  }
