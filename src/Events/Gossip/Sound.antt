-- ===== src/Events/Gossip/Sound.antt =====
-- Every proof that the handler stores is an authority's signature.
use validated_streams.Base.{
  ◌^◌, ◌<◌, ◌≡◌, sym, ap, subst, ◌∙◌, true, Option, some, ok, List, [], ◌∷◌, length, arith,
  Result-cases, inl, inr,
}
use validated_streams.Events.{AuthoritiesList}
use validated_streams.Events.Cache.{runtime_authorities}
use validated_streams.Events.Gossip.{Node, handle, handle_witnessed_event}
use validated_streams.Events.Gossip.Quorum.{event_proofs-handle}
use validated_streams.Events.Gossip.Received.{
  ReadsHashes, IsReady, event_proofs-read, handle-unread, handle-IsHandled,
}
use validated_streams.Events.Gossip.Steps.{after_add, after_purge, handle_refused}
use validated_streams.Events.Origin.{IsSignedByAuthority, verify_witnessed_event_origin_lem}
use validated_streams.Gossip.Delivery.{handle_all}
use validated_streams.Interfaces.{Sr25519, Client, LruCache, IsLruCache, TxPool}
use validated_streams.Primitives.{
  Bytes, H256, IsH256, CryptoTypePublicPair, WitnessedEvent, Bincode,
}
use validated_streams.Proofs.{EventProofs}
use validated_streams.Proofs.Contract.{IsEventProofs, DistinctValidators, is_of, is_validator}

abbrev pub of_parts : H256 → CryptoTypePublicPair → Bytes → WitnessedEvent
of_parts id k v = record { signature = v; pub_key = k; event_id = id }

-- Every proof of an event by an authority is its signature of the event.
abbrev pub IsSound :
    {State : Type 0}
    → Sr25519
    → AuthoritiesList
    → (State → H256 → CryptoTypePublicPair → Option Bytes)
    → State
    → Type 0
IsSound S l stored s =
    (id : H256) (k : CryptoTypePublicPair) (v : Bytes)
    → IsH256 id
    → is_validator l.authorities k ≡ true
    → stored s id k ≡ some v
    → IsSignedByAuthority S l (of_parts id k v)

of_parts-is_of :
    (e : WitnessedEvent) (id : H256) (k : CryptoTypePublicPair) (v : Bytes)
    → is_of e id k ≡ true
    → v ≡ e.signature
    → e ≡ of_parts id k v
of_parts-is_of e id k v h same =
    let same_id : e.event_id ≡ id = ground arith in
    let same_key : e.pub_key ≡ k = ground arith in cc (same_id, same_key, same)

module _ {State : Type 0} (S : Sr25519) (l : AuthoritiesList) (P : EventProofs State)
    (IsUsable : State → Type 0) (stored : State → H256 → CryptoTypePublicPair → Option Bytes)
    (lawful : IsEventProofs P IsUsable stored) where
  pub add-IsSound :
      (e : WitnessedEvent) (s : State)
      → IsUsable s
      → IsH256 e.event_id
      → IsSignedByAuthority S l e
      → IsSound S l stored s
      → IsSound S l stored (after_add P e s)
  add-IsSound e s u hash signed sound id k v h known there =
      elim (lawful.add_reads e s id k v hash h u there) [
        | inl (of, same) ↦ subst (IsSignedByAuthority S l) (of_parts-is_of e id k v of same) signed
        | inr old ↦ sound id k v h known old
      ]

  pub after_purge-IsSound :
      (e : WitnessedEvent) (s : State)
      → IsUsable s
      → IsH256 e.event_id
      → IsSignedByAuthority S l e
      → IsSound S l stored s
      → IsSound S l stored (after_purge P e l s)
  after_purge-IsSound e s u hash signed sound id k v h known there =
      let kept =
        lawful.purge_keeps e.event_id l.authorities (after_add P e s) id k hash h
          (lawful.add_ok e s hash u).1 known in
      add-IsSound e s u hash signed sound id k v h known (sym kept ∙ there)

module _ {AuthorityId Extrinsic Cache State Pool : Type 0}
    (from : AuthorityId → CryptoTypePublicPair) (client : Client AuthorityId Extrinsic)
    (L : LruCache AuthoritiesList Cache) (P : EventProofs State) (T : TxPool Extrinsic Pool)
    (S : Sr25519) (B : Bincode) (peek : Cache → H256 → Option AuthoritiesList)
    (lru : IsLruCache L peek) (l : AuthoritiesList)
    (finalized : runtime_authorities from client L peek client.finalized_hash ≡ ok l)
    (IsUsable : State → Type 0) (stored : State → H256 → CryptoTypePublicPair → Option Bytes)
    (lawful : IsEventProofs P IsUsable stored) (distinct : DistinctValidators l.authorities)
    (few : length l.authorities < 2 ^ 16) (hashes : ReadsHashes B) where
  abbrev Ready : Node Cache State Pool → Type 0
  Ready =
      IsReady from client L P T S B peek lru l finalized IsUsable stored lawful distinct few hashes

  abbrev after : Bytes → Node Cache State Pool → Node Cache State Pool
  after m n = (handle from client L P T S B true m n).1

  -- An event that is read, whatever comes of it.
  handle_event-IsSound :
      (m : Bytes) (e : WitnessedEvent) (n : Node Cache State Pool)
      → Ready n
      → B.deserialize_event m ≡ ok e
      → IsSound S l stored n.event_proofs
      → IsSound S l stored (handle_witnessed_event from client L P T S true e n).1.event_proofs
  handle_event-IsSound m e n r read sound = elim (verify_witnessed_event_origin_lem S l e).1 [
    | inl good ↦
        let signed = (verify_witnessed_event_origin_lem S l e).0.0 good in
        subst (IsSound S l stored)
          (sym (
            event_proofs-handle from client L P T S peek lru e n r.coherent l finalized IsUsable
              stored lawful r.usable signed (hashes m e read) distinct few true))
          (after_purge-IsSound S l P IsUsable stored lawful e n.event_proofs r.usable
            (hashes m e read) signed sound)
    | inr (reason, bad) ↦
        let (_, refused) =
          handle_refused from client L P T S peek lru true e n r.coherent l finalized
            (λ w. cc (bad, (verify_witnessed_event_origin_lem S l e).0.1 w)) in
        subst (IsSound S l stored) (sym (ap (λ x. x.1.event_proofs) refused)) sound
  ]

  handle-IsSound :
      (m : Bytes) (n : Node Cache State Pool)
      → Ready n
      → IsSound S l stored n.event_proofs
      → IsSound S l stored (after m n).event_proofs
  handle-IsSound m n r sound = elim (Result-cases (B.deserialize_event m)) [
    | inr (reason, unread) ↦
        subst (IsSound S l stored)
          (sym (ap (λ x. x.1.event_proofs) (handle-unread from client L P T S B m reason n unread)))
          sound
    | inl (e, read) ↦
        subst (IsSound S l stored) (sym (event_proofs-read from client L P T S B m e n read))
          (handle_event-IsSound m e n r read sound)
  ]

  -- A run of messages keeps the store sound.
  pub handle_all-IsSound :
      (ms : List Bytes) (n : Node Cache State Pool)
      → Ready n
      → IsSound S l stored n.event_proofs
      → IsSound S l stored (handle_all after ms n).event_proofs
  handle_all-IsSound [] n r sound = sound
  handle_all-IsSound (m ∷ ms) n r sound =
      let first =
        handle-IsHandled from client L P T S B peek lru l finalized IsUsable stored lawful distinct
          few hashes m n r in
      handle_all-IsSound ms (after m n) first.ready (handle-IsSound m n r sound)
