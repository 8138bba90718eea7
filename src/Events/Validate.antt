-- ===== src/Events/Validate.antt =====
-- consensus/src/events/validate.rs: `EventValidator`, which returns the events of finalized blocks.
pub mod Finalized
use validated_streams.Base.{
  ℕ, ◌%◌, ◌^◌, List, [], ◌∷◌, Option, none, some, String, Result, ok, err, ite, unwrap_or_default,
}
use validated_streams.Errors.{Error}
use validated_streams.Interfaces.{Client}
use validated_streams.Primitives.{Bytes-discrete, H256}

-- `.ok().flatten().unwrap_or_default()`
abbrev pub flatten_or_default {ℓ} :
    {Extrinsic : Type ℓ} → Result String (Option (List Extrinsic)) → List Extrinsic
flatten_or_default (ok (some xs)) = xs
flatten_or_default (ok none) = []
flatten_or_default (err _) = []

module _ {AuthorityId Extrinsic : Type 0} where
  -- One turn of the loop: the block at this height, if it is an ancestor of the finalized tip.
  pub finalized_block : Client AuthorityId Extrinsic → H256 → ℕ → Option H256
  finalized_block client last_finalized block_num = elim (client.block_hash block_num) [
    | ok (some block_hash) ↦ elim (client.lowest_common_ancestor last_finalized block_hash) [
      | ok common_ancestor ↦ ite (Bytes-discrete common_ancestor block_hash) (some block_hash) none
      | err _ ↦ none
    ]
    | ok none ↦ none
    | err _ ↦ none
  ]

  -- The loop, over its turns: the finalized tip of each, and the client as it answers then. The
  -- first tip is that of `info()`, each later one that of a notification. `none` if it still waits.
  pub find_block :
      List (H256 × Client AuthorityId Extrinsic) → ℕ → Option (H256 × Client AuthorityId Extrinsic)
  find_block [] block_num = none
  find_block ((last_finalized, client) ∷ turns) block_num =
      elim (finalized_block client last_finalized block_num) [
        | none ↦ find_block turns block_num
        | some block_id ↦ some (block_id, client)
      ]

  pub get_finalized_block_events :
      List (H256 × Client AuthorityId Extrinsic) → ℕ → Option (Result Error (List H256))
  get_finalized_block_events turns block_num = elim (find_block turns block_num) [
    | none ↦ none
    | some (block_id, client) ↦
        let block_extrinsics = flatten_or_default (client.block_body block_id) in
        some (ok (unwrap_or_default (client.get_extrinsic_ids block_id block_extrinsics)))
  ]

  pub get_latest_finalized_block : Client AuthorityId Extrinsic → Result Error ℕ
  get_latest_finalized_block client = ok (client.finalized_number % 2 ^ 32)
