-- ===== src/Server/Finalized.antt =====
-- The stream of consensus/src/server.rs over `EventValidator` of consensus/src/events/validate.rs.
use validated_streams.Base.{
  ℕ, zero, suc, ◌+◌, ◌^◌, ◌≤◌, ◌<◌, ◌≡◌, refl, ap, ◌∙◌, List, [], ◌∷◌, ◌++◌, All, some, Result, ok,
  unwrap_or_default, arith,
}
use validated_streams.Events.Validate.{
  get_finalized_block_events, get_latest_finalized_block, flatten_or_default,
}
use validated_streams.Events.Validate.Finalized.{
  IsPending, IsFinalizedIn, get_finalized_block_events_lem,
}
use validated_streams.Interfaces.{Client}
use validated_streams.Primitives.{H256}
use validated_streams.Server.{
  Status, EventValidator, ValidatedEventsRequest, ValidatedEventsResponse, first_block,
  validated_events,
}
use validated_streams.Server.Stream.{item_of, items_of, items_of-suc, validated_events-items_of}

-- What a call of `get_finalized_block_events` meets: its turns up to one, that one, and those after,
-- with a block, what stands in it and the events that the runtime finds there.
pub record Call (AuthorityId Extrinsic : Type 0) : Type 0 where
  pub before : List (H256 × Client AuthorityId Extrinsic)
  pub turn : H256 × Client AuthorityId Extrinsic
  pub after : List (H256 × Client AuthorityId Extrinsic)
  pub block : H256
  pub extrinsics : List Extrinsic
  pub events : List H256

module _ {AuthorityId Extrinsic : Type 0} (calls : ℕ → Call AuthorityId Extrinsic) where
  -- The block is the first to be finalized at its height, in that turn; the client then has its
  -- body, and the runtime answers.
  pub record IsFinalizing (block_num : ℕ) : Type 0 where
    pub pending : All (IsPending block_num) (calls block_num).before
    pub finalized : IsFinalizedIn block_num (calls block_num).block (calls block_num).turn
    pub body :
        (calls block_num).turn.1.block_body (calls block_num).block
        ≡ ok (some (calls block_num).extrinsics)
    pub finds :
        (calls block_num).turn.1.get_extrinsic_ids
          (calls block_num).block
          (calls block_num).extrinsics
        ≡ ok (calls block_num).events

  abbrev pub responses : ℕ → ℕ → List (Result Status ValidatedEventsResponse)
  responses zero block_num = []
  responses (suc n) block_num =
      ok (record { next_block = block_num + 1; events = (calls block_num).events })
      ∷ responses n (block_num + 1)

  -- `impl EventValidatorTrait for EventValidator`, at what each call meets and the client that is
  -- asked for the latest block
  abbrev pub event_validator : Client AuthorityId Extrinsic → EventValidator
  event_validator client = record {
    get_finalized_block_events = λ block_num.
        let c = calls block_num in
        get_finalized_block_events (c.before ++ c.turn ∷ c.after) block_num;
    get_latest_finalized_block = get_latest_finalized_block client;
  }

  found_events :
      (block_num : ℕ)
      → IsFinalizing block_num
      → unwrap_or_default (
          (calls block_num).turn.1.get_extrinsic_ids
            (calls block_num).block
            (flatten_or_default ((calls block_num).turn.1.block_body (calls block_num).block)))
        ≡ (calls block_num).events
  found_events block_num f = rw (f.body, f.finds) refl

  item_of-finalized :
      (client : Client AuthorityId Extrinsic) (block_num : ℕ)
      → IsFinalizing block_num
      → item_of (event_validator client) block_num
        ≡ some (ok (record { next_block = block_num + 1; events = (calls block_num).events }))
  item_of-finalized client block_num f =
      let c = calls block_num in
      let (_, found) =
        get_finalized_block_events_lem block_num c.before c.after c.turn c.block f.pending
          f.finalized in
      ground (arith, found, found_events block_num f)

  items_of-responses :
      (client : Client AuthorityId Extrinsic) (n b : ℕ)
      → ((k : ℕ) → b ≤ k → k < b + n → IsFinalizing k)
      → items_of (event_validator client) n b ≡ responses n b
  items_of-responses client zero b f = refl
  items_of-responses client (suc n) b f =
      items_of-suc (event_validator client) n b _
        (item_of-finalized client b (f b (omega arith) (omega arith)))
      ∙ ap (λ ys. ok (record { next_block = b + 1; events = (calls b).events }) ∷ ys)
          (items_of-responses client n (b + 1) (λ k from until. f k (omega arith) (omega arith)))

  -- Let a client ask for a stream, block numbers stay below 2^32, and each of the next `n` blocks
  -- from the first one on become finalized in some turn of the call that waits for it, and no other
  -- block at its height before; and let the client then have the body of the block, and the
  -- runtime find events in it. Then the stream gives the client `n` items, one for each of these
  -- blocks in order, with the events that the runtime found.
  pub validated_events-finalized :
      (client : Client AuthorityId Extrinsic) (request : ValidatedEventsRequest) (n : ℕ)
      → first_block (event_validator client) request + n < 2 ^ 32
      → ((k : ℕ)
          → first_block (event_validator client) request ≤ k
          → k < first_block (event_validator client) request + n
          → IsFinalizing k)
      → validated_events (event_validator client) n request
        ≡ responses n (first_block (event_validator client) request)
  validated_events-finalized client request n small f =
      validated_events-items_of (event_validator client) n request small
      ∙ items_of-responses client n (first_block (event_validator client) request) f
