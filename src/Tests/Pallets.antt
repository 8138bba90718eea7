-- ===== src/Tests/Pallets.antt =====
-- The pallet in its two builds, the runtime API and the stream of a client.
use validated_streams.Base.{
  ℕ, ◌≡◌, ◌≢◌, ◌⊎◌, refl, length, true, false, List, [], ◌∷◌, ◌++◌, none, some, ok, arith, contains,
  ite, ◌==◌, if◌then◌else◌, ℕ_discrete,
}
use validated_streams.Base.HashMap.{get}
use validated_streams.Interfaces.{Public}
use validated_streams.Pallet.{ProofsMap, record_event, is_event_valid}
use validated_streams.Pallet.Log.{IsLogged, empty, empty-IsLogged}
use validated_streams.Pallet.OffChain.{get_block_events, validate_event as validate_off_chain}
use validated_streams.Pallet.OffChain.Blocks.{
  run as run_off_chain, run-IsLogged, get_block_events-validate_event,
}
use validated_streams.Pallet.OnChain.{
  target, check_keys, count_proofs, validate_event as validate_on_chain,
}
use validated_streams.Pallet.OnChain.Decision.{IsProven, validate_event_lem}
use validated_streams.Pallet.OnChain.Justified.{
  Dispatch, IsBounded, IsRecordedIn, run as run_on_chain, run_recorded,
}
use validated_streams.Pallet.Unsigned.{local, IsTaken, IsRefused, validate_unsigned_lem}
use validated_streams.Primitives.{Bytes-discrete}
use validated_streams.Runtime.{
  Extrinsic, another_pallet, get_extrinsic_ids, create_unsigned_extrinsic,
}
use validated_streams.Runtime.Ids.{get_extrinsic_ids-create}
use validated_streams.Server.{
  EventValidator, ValidatedEventsRequest, validated_events, first_block, items, next_item,
}
use validated_streams.Server.Stream.{items_of, validated_events_lem}
use validated_streams.Tests.{event_a, event_b, scheme}

run-IsLogged_example :
    IsLogged
      (run_off_chain ((1, event_a, none) ∷ (2, event_a, none) ∷ (2, event_b, none) ∷ []) empty)
run-IsLogged_example =
    run-IsLogged ((1, event_a, none) ∷ (2, event_a, none) ∷ (2, event_b, none) ∷ []) empty
      empty-IsLogged

get_block_events-validate_event_example :
    contains Bytes-discrete (get_block_events 4 (validate_off_chain 4 event_a none empty).1) event_a
    ≡ (if is_event_valid event_a (empty {V = ℕ})
        then contains Bytes-discrete (get_block_events 4 empty) event_a
        else ite
            (Bytes-discrete event_a event_a)
            (4 == 4)
            (contains Bytes-discrete (get_block_events 4 empty) event_a))
get_block_events-validate_event_example =
    get_block_events-validate_event 4 event_a none empty 4 event_a empty-IsLogged

-- The keys of the authorities, and proofs by all of them.
abbrev keys : List Public
keys = (1 ∷ []) ∷ (2 ∷ []) ∷ (3 ∷ []) ∷ []

abbrev proofs : ProofsMap
proofs = (1 ∷ [], 1 ∷ event_a) ∷ (2 ∷ [], 2 ∷ event_a) ∷ (3 ∷ [], 3 ∷ event_a) ∷ []

validate_event_lem_example :
    (IsProven scheme keys event_a proofs empty
      × ((validate_on_chain scheme keys event_a (some proofs) empty).0 ≡ ok tt)
      × ((validate_on_chain scheme keys event_a (some proofs) empty).1
          ≡ record_event event_a proofs empty))
    ⊎ ((¬ IsProven scheme keys event_a proofs empty)
        × ((validate_on_chain scheme keys event_a (some proofs) empty).0 ≢ ok tt)
        × ((validate_on_chain scheme keys event_a (some proofs) empty).1 ≡ empty))
validate_event_lem_example = validate_event_lem scheme keys event_a proofs empty (omega arith)

abbrev dispatch : Dispatch
dispatch = record { authorities = keys; event_id = event_a; proofs = some proofs }

dispatch-IsBounded : IsBounded dispatch
unfolding Bytes-discrete ℕ_discrete
dispatch-IsBounded = record {
  map = ((refl, (refl, (refl, tt))), omega arith);
  distinct = (refl, (refl, (refl, tt)));
  few = omega arith;
}

recorded :
    get Bytes-discrete (run_on_chain scheme (dispatch ∷ []) empty).streams event_a ≡ some proofs
unfolding run_on_chain validate_on_chain target check_keys count_proofs record_event is_event_valid
    empty Bytes-discrete ℕ_discrete
recorded = refl

run_recorded_example :
    IsRecordedIn scheme (dispatch ∷ []) event_a proofs
    ⊎ (get Bytes-discrete (empty {V = ProofsMap}).streams event_a ≡ some proofs)
run_recorded_example =
    run_recorded scheme (dispatch ∷ []) empty event_a proofs (dispatch-IsBounded, tt) recorded

validate_unsigned_lem_example :
    IsTaken (λ c. []) local event_a none 1 empty ⊎ IsRefused (λ c. []) local event_a none 1 empty
validate_unsigned_lem_example = validate_unsigned_lem (λ c. []) local event_a none 1 empty

abbrev transfer : Extrinsic
transfer = record { signature = none; function = another_pallet [] }

get_extrinsic_ids-create_example :
    get_extrinsic_ids (transfer ∷ create_unsigned_extrinsic event_a none ∷ transfer ∷ [])
    ≡ event_a ∷ []
unfolding get_extrinsic_ids
get_extrinsic_ids-create_example =
    get_extrinsic_ids-create (transfer ∷ []) (transfer ∷ []) event_a none

-- A chain of which block 5 is the latest, with one event in each block.
abbrev validator : EventValidator
validator = record {
  get_finalized_block_events = λ n. some (ok (event_a ∷ []));
  get_latest_finalized_block = ok 5;
}

abbrev from_five : ValidatedEventsRequest
from_five = record { from_block = 5; from_latest = false }

received : length (validated_events validator 2 from_five) ≡ 2
unfolding validated_events items next_item first_block
received = refl

validated_events_lem_example :
    (validated_events validator 2 from_five ≡ items_of validator 2 5)
    × (validated_events validator 5 from_five
        ≡ validated_events validator 2 from_five
          ++ validated_events validator 3 (record { from_block = 7; from_latest = true }))
unfolding first_block
validated_events_lem_example =
    validated_events_lem validator 2 3 from_five true (omega arith) (omega arith) received
