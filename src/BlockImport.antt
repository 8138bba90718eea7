-- ===== src/BlockImport.antt =====
-- consensus/src/block_import.rs: `ValidatedStreamsBlockImport`, which lets a block pass to the next
-- import only once its events are witnessed.
pub mod Imports
use validated_streams.Base.{
  List, [], ◌∷◌, Bool, true, false, Option, none, some, Result, ok, err, String, unwrap_or_default,
}
use validated_streams.Errors.{Error, fmt}
use validated_streams.Events.{AuthoritiesList, BlockStateCache, verify_events_validity}
use validated_streams.Interfaces.{Client, LruCache}
use validated_streams.Primitives.{H256, CryptoTypePublicPair}
use validated_streams.Proofs.{EventProofs}

-- `sp_consensus::Error`, the cases that the code names
pub data ConsensusError : Type 0 where
  client_import other_consensus_error : String → ConsensusError

-- What comes back if anything does: `unwrap` panics if the sync service was never made known.
pub data ImportFailure : Type 0 where
  fails : ConsensusError → ImportFailure
  panics : ImportFailure

-- `BlockImportParams`, the parts that the code reads, and the rest
pub record BlockImportParams (Extrinsic Rest : Type 0) : Type 0 where
  pub parent_hash : H256
  pub body : Option (List Extrinsic)
  pub rest : Rest

-- The next import: `check_block` and `import_block` of `parent_block_import`
pub record ParentImport (Extrinsic Rest Check Parent ImportResult : Type 0) : Type 0 where
  pub check : Check → Parent → Result ConsensusError ImportResult × Parent
  pub import :
      BlockImportParams Extrinsic Rest → Parent → Result ConsensusError ImportResult × Parent

-- What an import changes. The store of proofs is only read.
pub record Importer (Cache Parent : Type 0) : Type 0 where
  pub parent_block_import : Parent
  pub block_state : BlockStateCache Cache

module _ {AuthorityId Extrinsic Cache State Rest Check Parent ImportResult : Type 0}
    (from : AuthorityId → CryptoTypePublicPair) (client : Client AuthorityId Extrinsic)
    (L : LruCache AuthoritiesList Cache) (P : EventProofs State)
    (I : ParentImport Extrinsic Rest Check Parent ImportResult) where
  -- an answer of the next import, and what it leaves
  abbrev pub returned :
      Result ConsensusError ImportResult × Parent
      → Importer Cache Parent
      → Result ImportFailure ImportResult × Importer Cache Parent
  returned (ok a, p) n = (ok a, record n { parent_block_import = p })
  returned (err e, p) n = (err (fails e), record n { parent_block_import = p })

  pub check_block :
      Check → Importer Cache Parent → Result ImportFailure ImportResult × Importer Cache Parent
  check_block block n = returned (I.check block n.parent_block_import) n

  -- `parent_block_import.import_block(block).await`
  abbrev pub forward :
      BlockImportParams Extrinsic Rest
      → Importer Cache Parent
      → Result ImportFailure ImportResult × Importer Cache Parent
  forward block n = returned (I.import block n.parent_block_import) n

  -- The `match` on the events that are not prepared.
  after_check :
      BlockImportParams Extrinsic Rest
      → Result Error (List H256)
      → Importer Cache Parent
      → Result ImportFailure ImportResult × Importer Cache Parent
  after_check block (ok []) n = forward block n
  after_check block (ok (_ ∷ _)) n =
      (err (fails (client_import "Block contains unwitnessed events")), n)
  after_check block (err e) n = (err (fails (client_import (fmt e))), n)

  -- `if let Some(block_extrinsics) = &block.body`
  check_body :
      State
      → BlockImportParams Extrinsic Rest
      → Importer Cache Parent
      → Option (List Extrinsic)
      → Result ImportFailure ImportResult × Importer Cache Parent
  unfolding after_check
  check_body event_proofs block n none = forward block n
  check_body event_proofs block n (some block_extrinsics) =
      let extrinsic_ids =
        unwrap_or_default (client.get_extrinsic_ids block.parent_hash block_extrinsics) in
      let (unwitnessed, b) =
        verify_events_validity from client L P block.parent_hash extrinsic_ids event_proofs
          n.block_state in
      after_check block unwitnessed (record n { block_state = b })

  -- `syncing` is the answer of `is_major_syncing`, `none` if the service was never made known.
  pub import_block :
      Option Bool
      → State
      → BlockImportParams Extrinsic Rest
      → Importer Cache Parent
      → Result ImportFailure ImportResult × Importer Cache Parent
  unfolding check_body
  import_block none event_proofs block n = (err panics, n)
  import_block (some true) event_proofs block n = forward block n
  import_block (some false) event_proofs block n = check_body event_proofs block n block.body
