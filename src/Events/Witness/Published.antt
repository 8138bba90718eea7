-- ===== src/Events/Witness/Published.antt =====
-- What `EventWitnesser::witness_event` publishes.
use validated_streams.Base.{
  ◌≡◌, refl, ap, ◌∙◌, ◌⊎◌, inl, inr, List, [], ◌∷◌, ◌++◌, Bool-cases, true, false, Option, some,
  String, ok, err, contains, arith, Result-cases, Option-cases,
}
use validated_streams.Errors.{
  Error, not_a_validator, serilization_failure, signing_failure, from_keystore,
}
use validated_streams.Events.{AuthoritiesList, get_authorities_list, get_latest_authorities_list}
use validated_streams.Events.Cache.{IsCoherent, runtime_authorities, get_authorities_list_lem}
use validated_streams.Events.Origin.{IsSignedByAuthority}
use validated_streams.Events.Witness.{Witnesser, witness_event, witnessed_events_topic}
use validated_streams.Gossip.{Channel, send_message, publish}
use validated_streams.Interfaces.{
  Sr25519, Public, Signature, Client, LruCache, IsLruCache, Keystore,
}
use validated_streams.Primitives.{
  Bytes, H256, CryptoTypePublicPair, CryptoTypePublicPair-discrete, WitnessedEvent, Bincode,
}

-- The documented behaviour of the keystore: it keeps, of the keys it is given, those it holds, and
-- its signatures verify.
pub record IsKeystore (K : Keystore) (S : Sr25519) : Type 0 where
  pub keys_are_given :
      (keys : List CryptoTypePublicPair) (k : CryptoTypePublicPair) (ks : List CryptoTypePublicPair)
      → K.supported_keys keys ≡ ok (k ∷ ks)
      → contains CryptoTypePublicPair-discrete keys k ≡ true
  pub signs :
      (k : CryptoTypePublicPair) (message signature : Bytes)
      → K.sign_with k message ≡ ok (some signature)
      → (pubkey : Public) × (s : Signature) × (S.public_from_slice k.key ≡ some pubkey)
        × (S.signature_from_slice signature ≡ some s)
        × (S.verify pubkey message s ≡ true)

-- A serialized event reads back.
abbrev pub IsEventCodec : Bincode → Type 0
IsEventCodec B =
    (e : WitnessedEvent) (m : Bytes) → B.serialize_event e ≡ ok m → B.deserialize_event m ≡ ok e

publish-connected :
    {Multiaddr : Type 0} (topic : String) (m : Bytes) (c : Channel Multiaddr)
    → c.connected ≡ true
    → (publish topic m c).orders ≡ c.orders ++ send_message topic m ∷ []
unfolding publish
publish-connected topic m c h = ground (arith, h)

publish-closed :
    {Multiaddr : Type 0} (topic : String) (m : Bytes) (c : Channel Multiaddr)
    → c.connected ≡ false
    → publish topic m c ≡ c
unfolding publish
publish-closed topic m c h = ground (arith, h)

module _ {AuthorityId Extrinsic Cache Multiaddr : Type 0}
    (from : AuthorityId → CryptoTypePublicPair) (client : Client AuthorityId Extrinsic)
    (L : LruCache AuthoritiesList Cache) (K : Keystore) (B : Bincode) (S : Sr25519)
    (peek : Cache → H256 → Option AuthoritiesList) (lru : IsLruCache L peek)
    (w : Witnesser Cache Multiaddr) (coherent : IsCoherent from client L peek w.block_state)
    (l : AuthoritiesList)
    (finalized : runtime_authorities from client L peek client.finalized_hash ≡ ok l)
    (id : H256) where
  pub after_lookup : Witnesser Cache Multiaddr
  after_lookup = record w {
    block_state = (get_authorities_list from client L client.finalized_hash w.block_state).1;
  }

  latest :
      get_latest_authorities_list from client L w.block_state ≡ (ok l, after_lookup.block_state)
  unfolding get_latest_authorities_list after_lookup
  latest = ground (
    arith,
    get_authorities_list_lem from client L peek lru client.finalized_hash w.block_state coherent,
    finalized,
  )

  -- One message is published, which every node reads as this event, signed by an authority.
  pub record IsPublished : Type 0 where
    pub message : Bytes
    pub event : WitnessedEvent
    pub reads_back : B.deserialize_event message ≡ ok event
    pub of_event : event.event_id ≡ id
    pub is_signed : IsSignedByAuthority S l event
    pub returns : (witness_event from client L K B id w).0 ≡ ok tt
    pub published :
        (witness_event from client L K B id w).1.gossip
        ≡ publish witnessed_events_topic message w.gossip

  -- An error, and no message.
  pub record IsUnsent : Type 0 where
    pub reason : Error
    pub fails : (witness_event from client L K B id w).0 ≡ err reason
    pub unsent : (witness_event from client L K B id w).1.gossip ≡ w.gossip

  -- The gossip service is there, and has one more message to send.
  pub record IsSent : Type 0 where
    pub connected : w.gossip.connected ≡ true
    pub is_published : IsPublished
    pub sends :
        (witness_event from client L K B id w).1.gossip.orders
        ≡ w.gossip.orders ++ send_message witnessed_events_topic is_published.message ∷ []

  -- The gossip service is gone: the call succeeds all the same, and nothing is sent.
  pub record IsLost : Type 0 where
    pub closed : w.gossip.connected ≡ false
    pub returns : (witness_event from client L K B id w).0 ≡ ok tt
    pub unsent : (witness_event from client L K B id w).1.gossip ≡ w.gossip

  sent_or_lost : IsPublished → IsSent ⊎ IsLost
  sent_or_lost p = elim (Bool-cases w.gossip.connected) [
    | inl there ↦ inl (record {
      connected = there;
      is_published = p;
      sends =
          ap (λ c. c.orders) p.published
          ∙ publish-connected witnessed_events_topic p.message w.gossip there;
    })
    | inr gone ↦ inr (record {
      closed = gone;
      returns = p.returns;
      unsent = p.published ∙ publish-closed witnessed_events_topic p.message w.gossip gone;
    })
  ]

  module _ (keys : IsKeystore K S) (codec : IsEventCodec B) where
    with_signature :
        (k : CryptoTypePublicPair) (ks : List CryptoTypePublicPair) (signature : Bytes)
        → K.supported_keys l.authorities ≡ ok (k ∷ ks)
        → K.sign_with k id ≡ ok (some signature)
        → IsPublished ⊎ IsUnsent
    unfolding witness_event after_lookup
    with_signature k ks signature h hs =
        let e : WitnessedEvent = record { signature = signature; pub_key = k; event_id = id } in
        let (pubkey, s, hp, hq, hv) = keys.signs k id signature hs in
        elim (Result-cases (B.serialize_event e)) [
          | inl (m, hm) ↦ inl (record {
            message = m;
            event = e;
            reads_back = codec e m hm;
            of_event = refl;
            is_signed = record {
              known = keys.keys_are_given l.authorities k ks h;
              pubkey = pubkey;
              pubkey_of = hp;
              signature = s;
              signature_of = hq;
              verifies = hv;
            };
            returns = ground (arith, latest, h, hs, hm);
            published = ground (arith, latest, h, hs, hm);
          })
          | inr (reason, he) ↦ inr (record {
            reason = serilization_failure reason;
            fails = ground (arith, latest, h, hs, he);
            unsent = ground (arith, latest, h, hs, he);
          })
        ]

    with_key :
        (k : CryptoTypePublicPair) (ks : List CryptoTypePublicPair)
        → K.supported_keys l.authorities ≡ ok (k ∷ ks)
        → IsPublished ⊎ IsUnsent
    unfolding witness_event after_lookup
    with_key k ks h = elim (Result-cases (K.sign_with k id)) [
      | inr (reason, hs) ↦ inr (record {
        reason = from_keystore reason;
        fails = ground (arith, latest, h, hs);
        unsent = ground (arith, latest, h, hs);
      })
      | inl (answer, hs) ↦ elim (Option-cases answer) [
        | inr (signature, some_) ↦ with_signature k ks signature h (hs ∙ ap ok some_)
        | inl none_ ↦
            let hn = hs ∙ ap ok none_ in
            inr (record {
              reason = signing_failure "Failed getting a signature";
              fails = ground (arith, latest, h, hn);
              unsent = ground (arith, latest, h, hn);
            })
      ]
    ]

    without_key : K.supported_keys l.authorities ≡ ok [] → IsUnsent
    unfolding witness_event after_lookup
    without_key h = record {
      reason = not_a_validator;
      fails = ground (arith, latest, h);
      unsent = ground (arith, latest, h);
    }

    without_keystore : (reason : String) → K.supported_keys l.authorities ≡ err reason → IsUnsent
    unfolding witness_event after_lookup
    without_keystore reason h = record {
      reason = from_keystore reason;
      fails = ground (arith, latest, h);
      unsent = ground (arith, latest, h);
    }

    pub published_or_unsent : IsPublished ⊎ IsUnsent
    published_or_unsent = elim (Result-cases (K.supported_keys l.authorities)) [
      | inr (reason, h) ↦ inr (without_keystore reason h)
      | inl ([], h) ↦ inr (without_key h)
      | inl (k ∷ ks, h) ↦ with_key k ks h
    ]

  -- With a coherent cache, the authorities of the latest finalized block known, a lawful keystore
  -- and a codec that reads back, there are three outcomes. Either the gossip service is there, one
  -- message more is to be sent, which reads back as this event signed by an authority, and the call
  -- succeeds; or the service is gone, the call succeeds and nothing is sent; or the call fails and
  -- nothing is sent.
  pub witness_event_lem : IsKeystore K S → IsEventCodec B → IsSent ⊎ IsLost ⊎ IsUnsent
  witness_event_lem keys codec = elim (published_or_unsent keys codec) [
    | inr failed ↦ inr (inr failed)
    | inl p ↦ elim (sent_or_lost p) [ inl sent ↦ inl sent | inr lost ↦ inr (inl lost) ]
  ]

  pub witness_event_succeeds :
      (k : CryptoTypePublicPair) (ks : List CryptoTypePublicPair) (signature m : Bytes)
      → K.supported_keys l.authorities ≡ ok (k ∷ ks)
      → K.sign_with k id ≡ ok (some signature)
      → B.serialize_event (record { signature = signature; pub_key = k; event_id = id }) ≡ ok m
      → ((witness_event from client L K B id w).0 ≡ ok tt)
        × ((witness_event from client L K B id w).1.gossip
            ≡ publish witnessed_events_topic m w.gossip)
  unfolding witness_event after_lookup
  witness_event_succeeds k ks signature m h hs hm =
      (ground (arith, latest, h, hs, hm), ground (arith, latest, h, hs, hm))
