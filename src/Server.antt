-- ===== src/Server.antt =====
-- consensus/src/server.rs: the gRPC service for the trusted client.
pub mod Stream
pub mod Witnessed
pub mod Finalized
use validated_streams.Base.{
  ℕ, zero, suc, ◌+◌, ◌%◌, ◌^◌, List, [], ◌∷◌, ◌&&◌, Bool, String, Option, none, some, Result, ok,
  err, map_err, length, ◌==◌, if◌then◌else◌,
}
use validated_streams.Base.Action.{Action}
use validated_streams.Errors.{Error, fmt}
use validated_streams.Primitives.{Bytes, H256}

-- `tonic::Status`, the codes that the code uses
pub data Status : Type 0 where
  invalid_argument aborted : String → Status

-- `EventWitnesserTrait` over the state that it changes, and `EventValidatorTrait`, whose wait for a
-- finalized block is `none` if it has not ended
pub record EventWitnesser (State : Type 0) : Type 0 where
  pub witness_event : H256 → Action Error State (Unit {0})

pub record EventValidator : Type 0 where
  pub get_finalized_block_events : ℕ → Option (Result Error (List H256))
  pub get_latest_finalized_block : Result Error ℕ

-- `Streams::witness_event`
pub witness_event : {State : Type 0} → EventWitnesser State → Bytes → Action Status State (Unit {0})
witness_event W event_id s =
    if length event_id == 32
    then (let (r, s') = W.witness_event event_id s in (map_err (λ e. aborted (fmt e)) r, s'))
    else (err (invalid_argument "invalid event_id length (expected 32 bytes)"), s)

pub record ValidatedEventsRequest : Type 0 where
  pub from_block : ℕ
  pub from_latest : Bool

pub record ValidatedEventsResponse : Type 0 where
  pub next_block : ℕ
  pub events : List H256

module _ (V : EventValidator) where
  -- the number of the first block
  unfoldable pub first_block : ValidatedEventsRequest → ℕ
  first_block request =
      if request.from_block == 0 && request.from_latest
      then elim (V.get_latest_finalized_block) [ ok n ↦ n | err _ ↦ 0 ]
      else request.from_block

  -- one turn of `stream::unfold`: the item, and the next state; block numbers are `u32`
  unfoldable pub next_item : ℕ → Option (Result Status ValidatedEventsResponse × ℕ)
  next_item block_num =
      let next_block = (block_num + 1) % 2 ^ 32 in
      elim (V.get_finalized_block_events block_num) [
        | none ↦ none
        | some (err e) ↦ some (err (aborted (fmt e)), next_block)
        | some (ok events) ↦
            some (ok (record { next_block = next_block; events = events }), next_block)
      ]

  -- The first items of the stream, which never ends by itself; fewer if it still waits for the next.
  unfoldable pub items : ℕ → ℕ → List (Result Status ValidatedEventsResponse)
  items zero block_num = []
  items (suc n) block_num = elim (next_item block_num) [
    | none ↦ []
    | some (item, next) ↦ item ∷ items n next
  ]

  unfoldable pub validated_events :
      ℕ → ValidatedEventsRequest → List (Result Status ValidatedEventsResponse)
  validated_events n request = items n (first_block request)
