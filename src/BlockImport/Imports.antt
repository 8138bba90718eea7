-- ===== src/BlockImport/Imports.antt =====
-- What `ValidatedStreamsBlockImport::import_block` lets pass.
use validated_streams.Base.{
  ℕ, ◌^◌, ◌<◌, ◌≡◌, refl, ap, ◌∙◌, List, [], ◌∷◌, Bool, true, false, Option, some, String, Result,
  ok, err, length, all, All, retain, leb, ltb, if◌then◌else◌, arith,
}
use validated_streams.BlockImport.{
  ImportFailure, fails, client_import, BlockImportParams, ParentImport, Importer, forward,
  after_check, import_block, check_body,
}
use validated_streams.Errors.{fmt}
use validated_streams.Events.{
  AuthoritiesList, target, verify_events_validity, unprepared_ids, get_authorities_list,
}
use validated_streams.Events.Cache.{IsCoherent, runtime_authorities, get_authorities_list_lem}
use validated_streams.Events.Validity.{witnesses, unprepared_ids_lem}
use validated_streams.Interfaces.{Client, LruCache, IsLruCache}
use validated_streams.Primitives.{Bytes, H256, IsH256, CryptoTypePublicPair}
use validated_streams.Proofs.{EventProofs}
use validated_streams.Proofs.Contract.{IsEventProofs, DistinctValidators}

module _ {AuthorityId Extrinsic Cache State Rest Check Parent ImportResult : Type 0}
    (from : AuthorityId → CryptoTypePublicPair) (client : Client AuthorityId Extrinsic)
    (L : LruCache AuthoritiesList Cache) (P : EventProofs State)
    (I : ParentImport Extrinsic Rest Check Parent ImportResult) where
  abbrev Outcome : Type 0
  Outcome = Result ImportFailure ImportResult × Importer Cache Parent

  -- Of the events with their counts, those below the target are none exactly if all reach it.
  after_check-retain :
      (f : H256 → ℕ) (t : ℕ) (ids : List H256) (block : BlockImportParams Extrinsic Rest)
      (n : Importer Cache Parent)
      → after_check from client L P I block (ok (retain (λ id. ltb (f id) t) ids)) n ≡ (
          if all (λ id. leb t (f id)) ids
          then forward from client L P I block n
          else (err (fails (client_import "Block contains unwitnessed events")), n))
  unfolding after_check
  after_check-retain f t [] block n = refl
  after_check-retain f t (id ∷ ids) block n = ground (arith, after_check-retain f t ids block n)

  module _ (peek : Cache → H256 → Option AuthoritiesList) (lru : IsLruCache L peek)
      (block : BlockImportParams Extrinsic Rest) (n : Importer Cache Parent)
      (coherent : IsCoherent from client L peek n.block_state) (l : AuthoritiesList)
      (parent : runtime_authorities from client L peek block.parent_hash ≡ ok l) where
    abbrev pub after_lookup : Importer Cache Parent
    after_lookup = record n {
      block_state = (get_authorities_list from client L block.parent_hash n.block_state).1;
    }

    found :
        get_authorities_list from client L block.parent_hash n.block_state
        ≡ (ok l, after_lookup.block_state)
    found = ground (
      arith,
      get_authorities_list_lem from client L peek lru block.parent_hash n.block_state coherent,
      parent,
    )

    checked :
        (ids : List H256) (s : State)
        → verify_events_validity from client L P block.parent_hash ids s n.block_state
          ≡ (unprepared_ids P l.authorities (target l) ids s, after_lookup.block_state)
    unfolding verify_events_validity
    checked ids s = ground (arith, found)

    -- Let the node not be syncing, the block have a body whose event ids the runtime can tell, the
    -- cache be coherent and the store lawful, and the parent block have fewer than 2^16 distinct
    -- authorities. Then the block goes on to the next import exactly if each of its events has
    -- proofs of as many authorities of the parent block as the target; if not, the import fails
    -- and the next import is left as it was.
    pub import_block_lem :
        (IsUsable : State → Type 0) (stored : State → H256 → CryptoTypePublicPair → Option Bytes)
        → IsEventProofs P IsUsable stored
        → (s : State) → IsUsable s
        → DistinctValidators l.authorities
        → length l.authorities < 2 ^ 16
        → (xs : List Extrinsic) (ids : List H256) → block.body ≡ some xs
        → client.get_extrinsic_ids block.parent_hash xs ≡ ok ids
        → All IsH256 ids
        → import_block from client L P I (some false) s block n ≡ (
            if all (λ id. leb (target l) (witnesses stored s l.authorities id)) ids
            then forward from client L P I block after_lookup
            else (err (fails (client_import "Block contains unwitnessed events")), after_lookup))
    unfolding import_block check_body
    import_block_lem IsUsable stored lawful s u d few xs ids body known hashes =
        ap (check_body from client L P I s block n) body
        ∙ rw
            (
              known,
              checked ids s,
              unprepared_ids_lem P IsUsable stored lawful l.authorities (target l) ids s hashes d
                  few u,
            )
            (after_check-retain (witnesses stored s l.authorities) (target l) ids block
              after_lookup)

  -- Let the cache be coherent, and the runtime not be able to tell the ids of the events in the body
  -- of a block. Then the block goes on to the next import whatever events it contains, if the node
  -- is syncing, or if the authorities of the parent block can be found. If these cannot be found
  -- and the node is not syncing, the import fails with the reason, and the next import is left as
  -- it was.
  pub import_block_unchecked :
      (peek : Cache → H256 → Option AuthoritiesList) (lru : IsLruCache L peek)
      (block : BlockImportParams Extrinsic Rest) (n : Importer Cache Parent)
      → IsCoherent from client L peek n.block_state
      → (syncing : Bool) (s : State) (xs : List Extrinsic) (e : String) → block.body ≡ some xs
      → client.get_extrinsic_ids block.parent_hash xs ≡ err e
      → let looked_up : Importer Cache Parent = record n {
        block_state = (get_authorities_list from client L block.parent_hash n.block_state).1;
      } in
        import_block from client L P I (some syncing) s block n ≡ (
          if syncing
          then forward from client L P I block n
          else elim (runtime_authorities from client L peek block.parent_hash) [
            | ok _ ↦ forward from client L P I block looked_up
            | err reason ↦ (err (fails (client_import (fmt reason))), looked_up)
          ])
  unfolding import_block check_body unprepared_ids after_check verify_events_validity
  import_block_unchecked peek lru block n coherent true s xs e body unknown = refl
  import_block_unchecked peek lru block n coherent false s xs e body unknown =
      ap (check_body from client L P I s block n) body
      ∙ ground (
        arith,
        unknown,
        (get_authorities_list_lem from client L peek lru block.parent_hash n.block_state
            coherent).0,
      )
