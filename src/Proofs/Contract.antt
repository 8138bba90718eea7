-- ===== src/Proofs/Contract.antt =====
-- What a storage of event proofs promises (the comments on `EventProofsTrait` in
-- consensus/src/proofs/mod.rs): a finite map from an event and a public key to a signature.
use validated_streams.Base.{
  ◌%◌, ◌^◌, List, ok, Bool, true, false, ◌≡◌, ◌≢◌, Option, none, some, ◌⊎◌, is_some, ite, contains,
  count, Distinct, if◌then◌else◌,
}
use validated_streams.Base.HashMap.{HashMap, get}
use validated_streams.Primitives.{
  Bytes, Bytes-discrete, H256, IsH256, CryptoTypePublicPair, CryptoTypePublicPair-discrete,
  WitnessedEvent,
}
use validated_streams.Proofs.{EventProofs}

-- `validators.contains(&pub_key)`
abbrev pub is_validator : List CryptoTypePublicPair → CryptoTypePublicPair → Bool
is_validator = contains CryptoTypePublicPair-discrete

-- The validators listed, each once.
abbrev pub DistinctValidators : List CryptoTypePublicPair → Type 0
DistinctValidators = Distinct CryptoTypePublicPair-discrete

-- Whether the event is the one, and the key is the signer's, of a witnessed event.
abbrev pub is_of : WitnessedEvent → H256 → CryptoTypePublicPair → Bool
is_of e id pk =
    ite (Bytes-discrete id e.event_id) (ite (CryptoTypePublicPair-discrete pk e.pub_key) true false)
      false

-- `IsUsable` are the states in which the store answers, and `stored` is the map that it holds.
pub record IsEventProofs {State : Type 0} (P : EventProofs State) (IsUsable : State → Type 0)
    (stored : State → H256 → CryptoTypePublicPair → Option Bytes) : Type 0 where
  -- Adding succeeds, and afterwards exactly one more proof can be there: the one added.
  pub add_ok :
      (e : WitnessedEvent) (s : State)
      → IsH256 e.event_id
      → IsUsable s
      → ((P.add_event_proof e s).0 ≡ ok tt) × IsUsable (P.add_event_proof e s).1
  pub add_stored :
      (e : WitnessedEvent) (s : State) (id : H256) (pk : CryptoTypePublicPair)
      → IsH256 e.event_id
      → IsH256 id
      → IsUsable s
      → is_some (stored (P.add_event_proof e s).1 id pk)
        ≡ (if is_of e id pk then true else is_some (stored s id pk))
  -- Whatever can be read afterwards is the signature added, or was there before.
  pub add_reads :
      (e : WitnessedEvent) (s : State) (id : H256) (pk : CryptoTypePublicPair) (v : Bytes)
      → IsH256 e.event_id
      → IsH256 id
      → IsUsable s
      → stored (P.add_event_proof e s).1 id pk ≡ some v
      → ((is_of e id pk ≡ true) × (v ≡ e.signature)) ⊎ (stored s id pk ≡ some v)
  -- The proofs of an event by the given validators, and how many.
  pub proofs_ok :
      (id : H256) (vs : List CryptoTypePublicPair) (s : State)
      → IsH256 id
      → IsUsable s
      → (m : HashMap CryptoTypePublicPair Bytes) × (P.get_event_proofs id vs s ≡ ok m)
        × ((pk : CryptoTypePublicPair)
            → get CryptoTypePublicPair-discrete m pk
              ≡ (if is_validator vs pk then stored s id pk else none))
  pub count_ok :
      (id : H256) (vs : List CryptoTypePublicPair) (s : State)
      → IsH256 id
      → DistinctValidators vs
      → IsUsable s
      → P.get_event_proof_count id vs s ≡ ok (count (λ pk. is_some (stored s id pk)) vs % 2 ^ 16)
  -- Purging keeps each validator's proof of every event, and drops the event's other proofs.
  pub purge_ok :
      (id : H256) (vs : List CryptoTypePublicPair) (s : State)
      → IsH256 id
      → IsUsable s
      → ((P.purge_event_stale_signatures id vs s).0 ≡ ok tt)
        × IsUsable (P.purge_event_stale_signatures id vs s).1
  pub purge_keeps :
      (id : H256) (vs : List CryptoTypePublicPair) (s : State) (j : H256)
      (pk : CryptoTypePublicPair)
      → IsH256 id
      → IsH256 j
      → IsUsable s
      → is_validator vs pk ≡ true
      → stored (P.purge_event_stale_signatures id vs s).1 j pk ≡ stored s j pk
  pub purge_drops :
      (id : H256) (vs : List CryptoTypePublicPair) (s : State) (pk : CryptoTypePublicPair)
      → IsH256 id
      → IsUsable s
      → is_validator vs pk ≡ false
      → stored (P.purge_event_stale_signatures id vs s).1 id pk ≡ none

-- Beyond that: purging an event leaves the proofs of all other events as they are, whoever signed
-- them (the comment on `purge_event_stale_signatures`).
pub record IsExact {State : Type 0} (P : EventProofs State) (IsUsable : State → Type 0)
    (stored : State → H256 → CryptoTypePublicPair → Option Bytes) : Type 0 where
  pub lawful : IsEventProofs P IsUsable stored
  pub purge_others :
      (id : H256) (vs : List CryptoTypePublicPair) (s : State) (j : H256)
      (pk : CryptoTypePublicPair)
      → IsH256 id
      → IsH256 j
      → IsUsable s
      → id ≢ j
      → stored (P.purge_event_stale_signatures id vs s).1 j pk ≡ stored s j pk
