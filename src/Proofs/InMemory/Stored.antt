-- ===== src/Proofs/InMemory/Stored.antt =====
-- What each operation of the in-memory store does to the map that it holds.
use validated_streams.Base.{
  ◌≡◌, refl, List, true, false, Option, some, is_some, ◌⊎◌, ok, ite, if_pos, if_neg, if◌then◌else◌,
  arith, Option-cases, inl, inr,
}
use validated_streams.Base.HashMap.{
  HashMap, get, insert, get-insert, DistinctKeys, insert-DistinctKeys, retain_keys,
}
use validated_streams.Primitives.{
  Bytes, Bytes-discrete, H256, CryptoTypePublicPair, CryptoTypePublicPair-discrete, WitnessedEvent,
}
use validated_streams.Proofs.Contract.{is_validator, is_of}
use validated_streams.Proofs.InMemory.{
  InMemoryEventProofs, new, witnesses_of, insert_vacant, add_event_proof,
  purge_event_stale_signatures,
}

abbrev pub stored : InMemoryEventProofs → H256 → CryptoTypePublicPair → Option Bytes
stored s id pk = get CryptoTypePublicPair-discrete (witnesses_of s.proofs id) pk

-- The lock can be taken, and no signer is listed twice for an event.
pub record IsUsable (s : InMemoryEventProofs) : Type 0 where
  pub healthy : s.poisoned ≡ false
  pub distinct : (id : H256) → DistinctKeys CryptoTypePublicPair-discrete (witnesses_of s.proofs id)

pub witnesses_of-insert :
    (m : HashMap H256 (HashMap CryptoTypePublicPair Bytes)) (id : H256)
    (w : HashMap CryptoTypePublicPair Bytes) (j : H256)
    → witnesses_of (insert Bytes-discrete m id w) j ≡ ite (Bytes-discrete id j) w (witnesses_of m j)
witnesses_of-insert m id w j = ground (arith, get-insert Bytes-discrete m id w j)

pub is_some-insert_vacant :
    (m : HashMap CryptoTypePublicPair Bytes) (k : CryptoTypePublicPair) (v : Bytes)
    (pk : CryptoTypePublicPair)
    → is_some (get CryptoTypePublicPair-discrete (insert_vacant m k v) pk)
      ≡ ite
          (CryptoTypePublicPair-discrete pk k)
          true
          (is_some (get CryptoTypePublicPair-discrete m pk))
is_some-insert_vacant m k v pk = ground (arith, get-insert CryptoTypePublicPair-discrete m k v pk)

get-insert_vacant :
    (m : HashMap CryptoTypePublicPair Bytes) (k : CryptoTypePublicPair) (v : Bytes)
    (pk : CryptoTypePublicPair) (w : Bytes)
    → get CryptoTypePublicPair-discrete (insert_vacant m k v) pk ≡ some w
    → ((pk ≡ k) × (w ≡ v)) ⊎ (get CryptoTypePublicPair-discrete m pk ≡ some w)
get-insert_vacant m k v pk w h =
    ground (arith, get-insert CryptoTypePublicPair-discrete m k v pk, h)

insert_vacant-DistinctKeys :
    (m : HashMap CryptoTypePublicPair Bytes) (k : CryptoTypePublicPair) (v : Bytes)
    → DistinctKeys CryptoTypePublicPair-discrete m
    → DistinctKeys CryptoTypePublicPair-discrete (insert_vacant m k v)
insert_vacant-DistinctKeys m k v d = elim (Option-cases (get CryptoTypePublicPair-discrete m k)) [
  | inl vacant ↦
      rw (vacant, insert_vacant) (insert-DistinctKeys CryptoTypePublicPair-discrete m k v d)
  | inr (w, occupied) ↦ rw (occupied, insert_vacant) d
]

-- Writing one event's map keeps every other, so the store stays usable.
insert-IsUsable :
    (s : InMemoryEventProofs) (id : H256) (w : HashMap CryptoTypePublicPair Bytes)
    → IsUsable s
    → DistinctKeys CryptoTypePublicPair-discrete w
    → IsUsable (record { poisoned = false; proofs = insert Bytes-discrete s.proofs id w })
insert-IsUsable s id w u d = record {
  healthy = refl;
  distinct = λ j. rw (witnesses_of-insert s.proofs id w j) (elim (Bytes-discrete id j) [
    | yes same ↦ rw (if_pos _ same) d
    | no other ↦ rw (if_neg _ other) (u.distinct j)
  ]);
}

module _ (s : InMemoryEventProofs) (u : IsUsable s) where
  pub add_event_proof-IsUsable :
      (e : WitnessedEvent) → ((add_event_proof e s).0 ≡ ok tt) × IsUsable (add_event_proof e s).1
  unfolding add_event_proof
  add_event_proof-IsUsable e = rw (u.healthy) (
    refl,
    insert-IsUsable s e.event_id _ u (
        insert_vacant-DistinctKeys (witnesses_of s.proofs e.event_id) e.pub_key e.signature
          (u.distinct e.event_id)),
  )

  witnesses_of-add :
      (e : WitnessedEvent) (id : H256)
      → witnesses_of (add_event_proof e s).1.proofs id
        ≡ ite
            (Bytes-discrete e.event_id id)
            (insert_vacant (witnesses_of s.proofs e.event_id) e.pub_key e.signature)
            (witnesses_of s.proofs id)
  unfolding add_event_proof
  witnesses_of-add e id = rw (u.healthy) (
      witnesses_of-insert s.proofs e.event_id
        (insert_vacant (witnesses_of s.proofs e.event_id) e.pub_key e.signature) id)

  pub add_event_proof-some :
      (e : WitnessedEvent) (id : H256) (pk : CryptoTypePublicPair) (v : Bytes)
      → stored (add_event_proof e s).1 id pk ≡ some v
      → ((is_of e id pk ≡ true) × (v ≡ e.signature)) ⊎ (stored s id pk ≡ some v)
  add_event_proof-some e id pk v h = elim (Bytes-discrete e.event_id id) [
    | yes same ↦
        elim (get-insert_vacant (witnesses_of s.proofs e.event_id) e.pub_key e.signature pk v
          (ground (arith, witnesses_of-add e id, same, h))) [
            | inl (signer, equal) ↦ inl (ground (arith, same, signer), equal)
            | inr old ↦ inr (ground (arith, same, old))
          ]
    | no other ↦ inr (ground (arith, witnesses_of-add e id, other, h))
  ]

  pub stored-add_event_proof :
      (e : WitnessedEvent) (id : H256) (pk : CryptoTypePublicPair)
      → is_some (stored (add_event_proof e s).1 id pk)
        ≡ (if is_of e id pk then true else is_some (stored s id pk))
  unfolding add_event_proof
  stored-add_event_proof e id pk = rw (u.healthy) (
      ground (
        arith,
        witnesses_of-insert s.proofs e.event_id
            (insert_vacant (witnesses_of s.proofs e.event_id) e.pub_key e.signature) id,
        is_some-insert_vacant (witnesses_of s.proofs e.event_id) e.pub_key e.signature pk,
      ))

  -- Purging answers, and the event's map becomes what the validators signed.
  pub purge-witnesses_of :
      (id : H256) (vs : List CryptoTypePublicPair) (j : H256)
      → witnesses_of (purge_event_stale_signatures id vs s).1.proofs j
        ≡ ite
            (Bytes-discrete id j)
            (retain_keys (is_validator vs) (witnesses_of s.proofs id))
            (witnesses_of s.proofs j)
  unfolding purge_event_stale_signatures
  purge-witnesses_of id vs j = rw (u.healthy) (
      ground (
        arith,
        witnesses_of-insert s.proofs id (retain_keys (is_validator vs) (witnesses_of s.proofs id))
            j,
      ))

-- A new store is usable, and holds nothing.
pub new-IsUsable : IsUsable new
unfolding new
new-IsUsable = record { healthy = refl; distinct = λ id. tt }
