-- ===== src/Pallet/OffChain.antt =====
-- pallet/src/lib.rs under the feature `off-chain-proofs`: an event is recorded with the number of
-- its block.
pub mod Blocks
use validated_streams.Base.{ℕ, List, [], ◌∷◌, Option, Result, ok, err, ◌==◌, if◌then◌else◌}
use validated_streams.Base.Action.{Action}
use validated_streams.Base.HashMap.{HashMap}
use validated_streams.Pallet.{
  Error, already_validated, ProofsMap, Storage, record_event, is_event_valid,
}
use validated_streams.Primitives.{H256}

-- The origin is not looked at, and neither are the proofs.
unfoldable pub validate_event : ℕ → H256 → Option ProofsMap → Action Error (Storage ℕ) (Unit {0})
unfolding record_event is_event_valid
validate_event current_block event_id proofs s =
    if is_event_valid event_id s
    then (err already_validated, s)
    else (ok tt, record_event event_id current_block s)

pub block_events : ℕ → HashMap H256 ℕ → List H256
block_events block_number [] = []
block_events block_number ((k, bn) ∷ m) =
    if bn == block_number then k ∷ block_events block_number m else block_events block_number m

unfoldable pub get_block_events : ℕ → Storage ℕ → List H256
unfolding block_events
get_block_events block_number s = block_events block_number s.streams
