-- ===== src/Events/Gossip.antt =====
-- consensus/src/events/gossip.rs: `EventGossipHandler`, which checks each gossiped event, stores
-- its proof, and submits the event once enough authorities have witnessed it.
pub mod Steps
pub mod Quorum
pub mod Delivered
pub mod Received
pub mod Sound
use validated_streams.Base.{
  ℕ, List, [], ◌∷◌, Bool, true, false, Option, none, some, String, Result, ok, err, map_err, leb,
  if◌then◌else◌,
}
use validated_streams.Base.Action.{Action, ◌>>=◌, ◌>>◌, pure, lift}
use validated_streams.Base.HashMap.{HashMap, insert}
use validated_streams.Errors.{Error, Failure, fails, panics, other, from_api}
use validated_streams.Events.{
  AuthoritiesList, BlockStateCache, target, verify_witnessed_event_origin,
  get_latest_authorities_list,
}
use validated_streams.Interfaces.{
  Sr25519, Public, Signature, Client, LruCache, TxPool, PoolError, already_imported,
  invalid_transaction, stale,
}
use validated_streams.Primitives.{
  Bytes, Bytes-discrete, H256, CryptoTypePublicPair, WitnessedEvent, Bincode,
}
use validated_streams.Proofs.{EventProofs}

-- What the handler reaches through its `Arc`s and changes.
pub record Node (Cache State Pool : Type 0) : Type 0 where
  pub block_state : BlockStateCache Cache
  pub event_proofs : State
  pub tx_pool : Pool

module _ {Cache State Pool : Type 0} where
  abbrev pub on_block_state :
      {A : Type 0}
      → Action Error (BlockStateCache Cache) A
      → Action Failure (Node Cache State Pool) A
  on_block_state m n =
      let (r, b) = m n.block_state in (map_err fails r, record n { block_state = b })

  abbrev pub on_event_proofs :
      {A : Type 0} → Action Error State A → Action Failure (Node Cache State Pool) A
  on_event_proofs m n =
      let (r, s) = m n.event_proofs in (map_err fails r, record n { event_proofs = s })

-- The `map` over the collected proofs; `none` where an `unwrap` panics.
unfoldable pub decode_proofs :
    Sr25519 → HashMap CryptoTypePublicPair Bytes → Option (List (Public × Signature))
decode_proofs S [] = some []
decode_proofs S ((k, v) ∷ m) = elim (S.public_from_slice k.key) [
  | none ↦ none
  | some pubkey ↦ elim (S.signature_from_slice v) [
    | none ↦ none
    | some signature ↦ elim (decode_proofs S m) [
      | none ↦ none
      | some rest ↦ some ((pubkey, signature) ∷ rest)
    ]
  ]
]

-- `collect` into a map by public key: a later entry replaces an earlier one.
unfoldable pub collect :
    HashMap Public Signature → List (Public × Signature) → HashMap Public Signature
collect acc [] = acc
collect acc ((k, v) ∷ l) = collect (insert Bytes-discrete acc k v) l

unfoldable pub convert_proofs :
    Sr25519
    → Option (HashMap CryptoTypePublicPair Bytes)
    → Result Failure (Option (HashMap Public Signature))
convert_proofs S none = ok none
convert_proofs S (some m) = elim (decode_proofs S m) [
  | none ↦ err panics
  | some l ↦ ok (some (collect [] l))
]

-- The `match` on the answer of the pool: an event that is already there is no error.
unfoldable pub pool_answer :
    (PoolError → String) → Result (Result String PoolError) Bytes → Result Failure (Unit {0})
pool_answer text (ok _) = ok tt
pool_answer text (err (ok already_imported)) = ok tt
pool_answer text (err (ok (invalid_transaction stale))) = ok tt
pool_answer text (err (ok e)) = err (fails (other (text e)))
pool_answer text (err (err e)) = err (fails (other e))

module _ {AuthorityId Extrinsic Cache State Pool : Type 0}
    (from : AuthorityId → CryptoTypePublicPair) (client : Client AuthorityId Extrinsic)
    (L : LruCache AuthoritiesList Cache) (P : EventProofs State) (T : TxPool Extrinsic Pool)
    (S : Sr25519) where
  abbrev submit_local : Extrinsic → Action Failure (Node Cache State Pool) (Unit {0})
  submit_local e n =
      let (r, pool) = T.submit_local client.best_hash e n.tx_pool in
      (pool_answer T.pool_error_text r, record n { tx_pool = pool })

  unfoldable pub submit_event_extrinsic :
      H256
      → Option (HashMap CryptoTypePublicPair Bytes)
      → Action Failure (Node Cache State Pool) (Unit {0})
  unfolding convert_proofs
  submit_event_extrinsic event_id event_proofs = do
    proofs ← lift (convert_proofs S event_proofs)
    unsigned_extrinsic ← lift (
        map_err (λ e. fails (from_api e))
          (client.create_unsigned_extrinsic client.best_hash event_id proofs))
    submit_local unsigned_extrinsic

  -- `proofs`: none under the feature `off-chain-proofs`, the stored ones without it
  unfoldable pub proofs_to_submit :
      Bool
      → H256
      → List CryptoTypePublicPair
      → Action Failure (Node Cache State Pool) (Option (HashMap CryptoTypePublicPair Bytes))
  proofs_to_submit true event_id vs = pure none
  proofs_to_submit false event_id vs = do
    m ← on_event_proofs (λ s. (P.get_event_proofs event_id vs s, s))
    pure (some m)

  -- What follows once the proofs of the event are counted.
  unfoldable pub submit_if_enough :
      Bool → AuthoritiesList → H256 → ℕ → Action Failure (Node Cache State Pool) Bool
  submit_if_enough off_chain l event_id proof_count =
      if leb (target l) proof_count
      then (do
        proofs ← proofs_to_submit off_chain event_id l.authorities
        submit_event_extrinsic event_id proofs
        pure true)
      else pure true

  unfoldable pub handle_witnessed_event :
      Bool → WitnessedEvent → Action Failure (Node Cache State Pool) Bool
  handle_witnessed_event off_chain e = do
    l ← on_block_state (get_latest_authorities_list from client L)
    verified ← lift (map_err fails (verify_witnessed_event_origin S l e))
    on_event_proofs (P.add_event_proof verified)
    on_event_proofs (P.purge_event_stale_signatures verified.event_id l.authorities)
    proof_count ←
        on_event_proofs (λ s. (P.get_event_proof_count verified.event_id l.authorities s, s))
    submit_if_enough off_chain l verified.event_id proof_count

  -- `GossipHandler::handle`: errors are logged; only a panic gets out.
  pub handle : Bincode → Bool → Bytes → Action Failure (Node Cache State Pool) (Unit {0})
  handle B off_chain message n = elim (B.deserialize_event message) [
    | err _ ↦ (ok tt, n)
    | ok e ↦
        let (r, n') = handle_witnessed_event off_chain e n in
        elim r [
          | ok _ ↦ (ok tt, n')
          | err f ↦ elim f [ fails _ ↦ (ok tt, n') | panics ↦ (err panics, n') ]
        ]
  ]
