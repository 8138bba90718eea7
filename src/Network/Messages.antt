-- ===== src/Network/Messages.antt =====
-- Messages up to their order and number, and what they prove.
use validated_streams.Base.{
  ◌≡◌, sym, ◌∙◌, Bool, true, List, [], ◌∷◌, ok, contains, arith, Bool-cases, subst, refl, inl, inr,
  Result-cases,
}
use validated_streams.Events.{AuthoritiesList}
use validated_streams.Events.Gossip.Received.{proves, any_proves}
use validated_streams.Events.Origin.{IsSignedByAuthority, verify_witnessed_event_origin_lem}
use validated_streams.Interfaces.{Sr25519}
use validated_streams.Primitives.{
  Bytes, Bytes-discrete, H256, CryptoTypePublicPair, WitnessedEvent, Bincode,
}
use validated_streams.Proofs.Contract.{is_of}
use mathlib.Core.Bool.{Bool-set}
use mathlib.Core.Quot
use mathlib.Core.Quot.{Quot}

abbrev pub is_among : List Bytes → Bytes → Bool
is_among = contains Bytes-discrete

-- Gossip may deliver messages in any order, and more than once.
abbrev pub SameMessages : List Bytes → List Bytes → Type 0
SameMessages ms ns = (m : Bytes) → is_among ms m ≡ is_among ns m

abbrev pub MessageSet : Type 0
MessageSet = Quot SameMessages

abbrev pub message_set : List Bytes → MessageSet
message_set = Quot.mk

module _ (S : Sr25519) (B : Bincode) (l : AuthoritiesList) (id : H256)
    (pk : CryptoTypePublicPair) where
  -- A message that an authority signed for the event.
  pub record IsProof (m : Bytes) : Type 0 where
    pub event : WitnessedEvent
    pub reads_back : B.deserialize_event m ≡ ok event
    pub is_signed : IsSignedByAuthority S l event
    pub of_event : event.event_id ≡ id
    pub by_key : event.pub_key ≡ pk

  is_of→eq : (e : WitnessedEvent) → is_of e id pk ≡ true → (e.event_id ≡ id) × (e.pub_key ≡ pk)
  is_of→eq e h = ground arith

  proves→IsProof : (m : Bytes) → proves B S l m id pk ≡ true → IsProof m
  proves→IsProof m h = elim (Result-cases (B.deserialize_event m)) [
    | inr (reason, unread) ↦ absurd (ground (arith, unread, h))
    | inl (e, read) ↦ elim (verify_witnessed_event_origin_lem S l e).1 [
      | inr (reason, bad) ↦ absurd (ground (arith, read, bad, h))
      | inl good ↦
          let (same_id, same_key) = is_of→eq e (ground (arith, read, good, h)) in
          record {
            event = e;
            reads_back = read;
            is_signed = (verify_witnessed_event_origin_lem S l e).0.0 good;
            of_event = same_id;
            by_key = same_key;
          }
    ]
  ]

  IsProof→proves : (m : Bytes) → IsProof m → proves B S l m id pk ≡ true
  IsProof→proves m p =
      ground (arith, p.reads_back, (verify_witnessed_event_origin_lem S l p.event).0.1 p.is_signed)

  -- One of the messages is such a proof.
  abbrev pub HasProof : List Bytes → Type 0
  HasProof ms = (m : Bytes) × (is_among ms m ≡ true) × IsProof m

  pub any_proves→HasProof : (ms : List Bytes) → any_proves B S l ms id pk ≡ true → HasProof ms
  any_proves→HasProof [] h = absurd (cc)
  any_proves→HasProof (m ∷ ms) h = elim (Bool-cases (proves B S l m id pk)) [
    | inl here ↦ (m, ground arith, proves→IsProof m here)
    | inr there ↦
        let (n, among, p) = any_proves→HasProof ms (ground (arith, there, h)) in
        (n, ground (arith, among), p)
  ]

  pub HasProof→any_proves : (ms : List Bytes) → HasProof ms → any_proves B S l ms id pk ≡ true
  HasProof→any_proves [] h = absurd (cc (h.1))
  HasProof→any_proves (n ∷ ms) (m, among, p) = elim (Bytes-discrete n m) [
    | yes e ↦
        let here = subst (λ x. proves B S l x id pk ≡ true) (sym e) (IsProof→proves m p) in
        ground (arith, here)
    | no ne ↦
        let there = HasProof→any_proves ms (m, ground (arith, among, ne), p) in
        ground (arith, there)
  ]

  subset :
      (ms ns : List Bytes)
      → SameMessages ms ns
      → any_proves B S l ms id pk ≡ true
      → any_proves B S l ns id pk ≡ true
  subset ms ns same h =
      let (m, among, p) = any_proves→HasProof ms h in
      HasProof→any_proves ns (m, sym (same m) ∙ among, p)

  -- Order and repetition do not matter.
  pub any_proves-SameMessages :
      (ms ns : List Bytes)
      → SameMessages ms ns
      → any_proves B S l ms id pk ≡ any_proves B S l ns id pk
  any_proves-SameMessages ms ns same = elim (Bool-cases (any_proves B S l ms id pk)) [
    | inl one ↦ one ∙ sym (subset ms ns same one)
    | inr no_proof ↦ elim (Bool-cases (any_proves B S l ns id pk)) [
      | inl one ↦ absurd (cc (no_proof, subset ns ms (λ m. sym (same m)) one))
      | inr none_ ↦ no_proof ∙ sym none_
    ]
  ]

  -- What a set of messages proves.
  pub set_proves : MessageSet → Bool
  set_proves = Quot.lift Bool-set (λ ms. any_proves B S l ms id pk) any_proves-SameMessages

  pub set_proves_lem : (ms : List Bytes) → set_proves (message_set ms) ≡ any_proves B S l ms id pk
  unfolding set_proves
  set_proves_lem ms = refl
