-- ===== src/Events/Origin.antt =====
-- `AuthoritiesList::verify_witnessed_event_origin`: exactly the events that an authority signed.
use validated_streams.Base.{
  ◌≡◌, ◌↔◌, ◌⊎◌, true, some, String, ok, err, contains, arith, Option-cases, Bool-cases, inl, inr,
}
use validated_streams.Errors.{bad_witnessed_event_signature}
use validated_streams.Events.{AuthoritiesList, verify_witnessed_event_origin}
use validated_streams.Interfaces.{Sr25519, Public, Signature}
use validated_streams.Primitives.{CryptoTypePublicPair-discrete, WitnessedEvent}

module _ (S : Sr25519) (l : AuthoritiesList) (e : WitnessedEvent) where
  -- The signer is one of the authorities, and its signature of the event id verifies.
  pub record IsSignedByAuthority : Type 0 where
    pub known : contains CryptoTypePublicPair-discrete l.authorities e.pub_key ≡ true
    pub pubkey : Public
    pub pubkey_of : S.public_from_slice e.pub_key.key ≡ some pubkey
    pub signature : Signature
    pub signature_of : S.signature_from_slice e.signature ≡ some signature
    pub verifies : S.verify pubkey e.event_id signature ≡ true

  accepts : IsSignedByAuthority → verify_witnessed_event_origin S l e ≡ ok e
  unfolding verify_witnessed_event_origin
  accepts w = ground (arith, w.known, w.pubkey_of, w.signature_of, w.verifies)

  abbrev IsRefused : Type 0
  IsRefused =
      (reason : String) × (verify_witnessed_event_origin S l e
        ≡ err (bad_witnessed_event_signature reason))

  refuses_signature :
      (pubkey : Public)
      → contains CryptoTypePublicPair-discrete l.authorities e.pub_key ≡ true
      → S.public_from_slice e.pub_key.key ≡ some pubkey
      → IsSignedByAuthority ⊎ IsRefused
  unfolding verify_witnessed_event_origin
  refuses_signature pubkey k p = elim (Option-cases (S.signature_from_slice e.signature)) [
    | inl bad ↦ inr ("Can't create sr25519 signature from witnessed event", rw (k, p, bad))
    | inr (signature, good) ↦ elim (Bool-cases (S.verify pubkey e.event_id signature)) [
      | inl v ↦ inl (record {
        known = k;
        pubkey = pubkey;
        pubkey_of = p;
        signature = signature;
        signature_of = good;
        verifies = v;
      })
      | inr v ↦ inr ("Incorrect WitnessedEvent signature", rw (k, p, good, v))
    ]
  ]

  outcome : IsSignedByAuthority ⊎ IsRefused
  unfolding verify_witnessed_event_origin
  outcome = elim (Bool-cases (contains CryptoTypePublicPair-discrete l.authorities e.pub_key)) [
    | inr stranger ↦ inr ("WitnessedEvent was signed by non-validator", rw stranger)
    | inl k ↦ elim (Option-cases (S.public_from_slice e.pub_key.key)) [
      | inl bad ↦ inr ("Can't retrieve sr25519 keys from WitnessedEvent", rw (k, bad))
      | inr (pubkey, p) ↦ refuses_signature pubkey k p
    ]
  ]

  -- An event is accepted, unchanged, exactly when one of the authorities signed its id; whatever
  -- is refused is refused as a bad signature.
  pub verify_witnessed_event_origin_lem :
      ((verify_witnessed_event_origin S l e ≡ ok e) ↔ IsSignedByAuthority)
      × ((verify_witnessed_event_origin S l e ≡ ok e)
          ⊎ ((reason : String) × (verify_witnessed_event_origin S l e
                ≡ err (bad_witnessed_event_signature reason))))
  verify_witnessed_event_origin_lem = elim outcome [
    | inl w ↦ ((λ _. w, accepts), inl (accepts w))
    | inr (reason, bad) ↦ ((λ good. absurd (cc), accepts), inr (reason, bad))
  ]
