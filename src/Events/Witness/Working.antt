-- ===== src/Events/Witness/Working.antt =====
-- A node whose keystore works sends what it is asked to witness.
use validated_streams.Base.{
  ◌≡◌, ap, ◌∙◌, inl, inr, List, [], ◌∷◌, Bool, Bool-cases, retain, true, Option, some, ok, contains,
  arith,
}
use validated_streams.Events.{AuthoritiesList}
use validated_streams.Events.Cache.{IsCoherent, runtime_authorities}
use validated_streams.Events.Witness.{Witnesser}
use validated_streams.Interfaces.{Sr25519, Client, LruCache, IsLruCache, Keystore}
use validated_streams.Primitives.{
  Bytes, H256, CryptoTypePublicPair, CryptoTypePublicPair-discrete, WitnessedEvent, Bincode,
}
use validated_streams.Events.Witness.Published.{
  IsKeystore, IsEventCodec, IsSent, witness_event_lem, witness_event_succeeds,
}

-- The keystore answers, and signs with each key that it holds, and every event serializes.
pub record IsWorking (K : Keystore) (B : Bincode) (holds : CryptoTypePublicPair → Bool)
    : Type 0 where
  pub answers : (keys : List CryptoTypePublicPair) → K.supported_keys keys ≡ ok (retain holds keys)
  pub signs_with_held :
      (k : CryptoTypePublicPair) (message : Bytes)
      → holds k ≡ true
      → (signature : Bytes) × (K.sign_with k message ≡ ok (some signature))
  pub serializes : (e : WitnessedEvent) → (m : Bytes) × (B.serialize_event e ≡ ok m)

-- Of the keys that are held there is a first one, if there is any.
retain-held :
    (holds : CryptoTypePublicPair → Bool) (keys : List CryptoTypePublicPair)
    (k : CryptoTypePublicPair)
    → contains CryptoTypePublicPair-discrete keys k ≡ true
    → holds k ≡ true
    → (j : CryptoTypePublicPair) × (js : List CryptoTypePublicPair) × (retain holds keys ≡ j ∷ js)
      × (holds j ≡ true)
retain-held holds [] k known held = absurd (cc (known))
retain-held holds (i ∷ keys) k known held = elim (Bool-cases (holds i)) [
  | inl i_held ↦ (i, retain holds keys, ground (arith, i_held), i_held)
  | inr not_held ↦
      let (j, js, first, j_held) =
        retain-held holds keys k (ground (arith, known, not_held)) held in
      (j, js, ground (arith, not_held, first), j_held)
]

module _ {AuthorityId Extrinsic Cache Multiaddr : Type 0}
    (from : AuthorityId → CryptoTypePublicPair) (client : Client AuthorityId Extrinsic)
    (L : LruCache AuthoritiesList Cache) (K : Keystore) (B : Bincode) (S : Sr25519)
    (peek : Cache → H256 → Option AuthoritiesList) (lru : IsLruCache L peek)
    (w : Witnesser Cache Multiaddr) (coherent : IsCoherent from client L peek w.block_state)
    (l : AuthoritiesList)
    (finalized : runtime_authorities from client L peek client.finalized_hash ≡ ok l)
    (id : H256) where
  -- Let the authorities of the latest finalized block be known, the keystore be lawful and the codec
  -- read back. Let the keystore also answer and sign with the keys that it holds, every event
  -- serialize, and the keystore hold a key of one of these authorities. With a coherent cache, and
  -- while the gossip service is there, the call succeeds, and one message more is to be sent, which
  -- reads back as this event signed by an authority.
  pub witness_event-IsSent :
      IsKeystore K S
      → IsEventCodec B
      → (holds : CryptoTypePublicPair → Bool) → IsWorking K B holds
      → (k : CryptoTypePublicPair) → contains CryptoTypePublicPair-discrete l.authorities k ≡ true
      → holds k ≡ true
      → w.gossip.connected ≡ true
      → IsSent from client L K B S peek lru w coherent l finalized id
  witness_event-IsSent keys codec holds works k known held there =
      let (j, js, first, j_held) = retain-held holds l.authorities k known held in
      let (signature, signed_) = works.signs_with_held j id j_held in
      let (m, written) =
        works.serializes (record { signature = signature; pub_key = j; event_id = id }) in
      let (done, _) =
        witness_event_succeeds from client L K B S peek lru w coherent l finalized id j js signature
          m (works.answers l.authorities ∙ ap ok first) signed_ written in
      elim (witness_event_lem from client L K B S peek lru w coherent l finalized id keys codec) [
        | inl sent ↦ sent
        | inr (inl lost) ↦ absurd (cc (lost.closed, there))
        | inr (inr unsent) ↦ absurd (cc (unsent.fails, done))
      ]
