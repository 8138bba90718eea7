-- ===== src/Events.antt =====
-- consensus/src/events/mod.rs: the authorities of a block, the quorum, and the checks of events.
pub mod Quorum
pub mod Origin
pub mod Cache
pub mod Validity
pub mod Gossip
pub mod Witness
pub mod Validate
use validated_streams.Base.{
  ℕ, ◌+◌, ◌*◌, ◌/◌, ◌%◌, ◌^◌, List, [], ◌∷◌, Bool, Option, none, some, Result, ok, err, map, length,
  contains, ltb, if◌then◌else◌,
}
use validated_streams.Base.Action.{Action, ◌>>=◌, reads}
use validated_streams.Base.Results
use validated_streams.Errors.{Error, bad_witnessed_event_signature, other, from_poison}
use validated_streams.Interfaces.{Sr25519, Client, LruCache}
use validated_streams.Primitives.{
  H256, CryptoTypePublicPair, CryptoTypePublicPair-discrete, WitnessedEvent,
}
use validated_streams.Proofs.{EventProofs}

pub record AuthoritiesList : Type 0 where
  pub authorities : List CryptoTypePublicPair

-- `(total * 2 / 3 + 1) as u16`
unfoldable pub target : AuthoritiesList → ℕ
target l = (length l.authorities * 2 / 3 + 1) % 2 ^ 16

unfoldable pub verify_witnessed_event_origin :
    Sr25519 → AuthoritiesList → WitnessedEvent → Result Error WitnessedEvent
verify_witnessed_event_origin S l e =
    if contains CryptoTypePublicPair-discrete l.authorities e.pub_key
    then elim (S.public_from_slice e.pub_key.key) [
      | none ↦ err (bad_witnessed_event_signature "Can't retrieve sr25519 keys from WitnessedEvent")
      | some pubkey ↦ elim (S.signature_from_slice e.signature) [
        | none ↦
            err
              (bad_witnessed_event_signature "Can't create sr25519 signature from witnessed event")
        | some signature ↦
            if S.verify pubkey e.event_id signature
            then ok e
            else err (bad_witnessed_event_signature "Incorrect WitnessedEvent signature")
      ]
    ]
    else err (bad_witnessed_event_signature "WitnessedEvent was signed by non-validator")

-- `BlockStateCache`: the LRU cache behind its mutex
pub record BlockStateCache (Cache : Type 0) : Type 0 where
  pub poisoned : Bool
  pub cache : Cache

module _ {AuthorityId Extrinsic Cache : Type 0} (from : AuthorityId → CryptoTypePublicPair)
    (client : Client AuthorityId Extrinsic) (L : LruCache AuthoritiesList Cache) where
  unfoldable pub get_authorities_list : H256 → Action Error (BlockStateCache Cache) AuthoritiesList
  get_authorities_list id s =
      if s.poisoned
      then (err (from_poison "poisoned lock: another task failed inside"), s)
      else (let (found, c) = L.get id s.cache in
          elim found [
            | some block_state ↦ (ok block_state, record s { cache = c })
            | none ↦ elim (client.authorities id) [
              | err e ↦ (err (other e), record s { cache = c })
              | ok ids ↦
                  let new_block_state : AuthoritiesList = record { authorities = map from ids } in
                  (ok new_block_state, record s { cache = L.put id new_block_state c })
            ]
          ])

  unfoldable pub get_latest_authorities_list : Action Error (BlockStateCache Cache) AuthoritiesList
  get_latest_authorities_list = get_authorities_list client.finalized_hash

-- The loop of `verify_events_validity`: the first failing count ends it.
unfoldable pub unprepared_ids :
    {State : Type 0}
    → EventProofs State
    → List CryptoTypePublicPair
    → ℕ
    → List H256
    → State
    → Result Error (List H256)
unprepared_ids P vs target [] s = ok []
unprepared_ids P vs target (id ∷ ids) s =
    Results.◌>>=◌ (P.get_event_proof_count id vs s) (λ current_count.
      Results.◌>>=◌ (unprepared_ids P vs target ids s)
        (λ rest. ok (if ltb current_count target then id ∷ rest else rest)))

module _ {AuthorityId Extrinsic Cache State : Type 0} (from : AuthorityId → CryptoTypePublicPair)
    (client : Client AuthorityId Extrinsic) (L : LruCache AuthoritiesList Cache)
    (P : EventProofs State) where
  -- The store is only read: its state is an argument.
  unfoldable pub verify_events_validity :
      H256 → List H256 → State → Action Error (BlockStateCache Cache) (List H256)
  verify_events_validity block_id ids event_proofs = do
    l ← get_authorities_list from client L block_id
    reads (λ _. unprepared_ids P l.authorities (target l) ids event_proofs)
