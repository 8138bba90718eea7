-- ===== src/Events/Gossip/Received.antt =====
-- What a run of messages leaves in the store of a node, in the build that keeps proofs off the
-- chain.
use validated_streams.Base.{
  ℕ, ◌^◌, ◌<◌, ◌≡◌, ◌≢◌, refl, sym, ap, subst, ◌∙◌, Bool, true, false, Option, is_some, String, ok,
  err, List, [], ◌∷◌, length, if◌then◌else◌, arith, Result-cases, inl, inr,
}
use validated_streams.Errors.{panics, bad_witnessed_event_signature}
use validated_streams.Events.{AuthoritiesList, verify_witnessed_event_origin, get_authorities_list}
use validated_streams.Events.Cache.{IsCoherent, runtime_authorities, get_authorities_list_lem}
use validated_streams.Events.Gossip.{
  Node, handle, handle_witnessed_event, submit_if_enough, submit_event_extrinsic, proofs_to_submit,
  convert_proofs, pool_answer,
}
use validated_streams.Events.Gossip.Steps.{
  after_purge, after_count, handle_accepted, handle_refused, purge-IsUsable, stored-after_purge,
}
use validated_streams.Events.Origin.{verify_witnessed_event_origin_lem}
use validated_streams.Events.Validity.{witnesses}
use validated_streams.Gossip.Delivery.{handle_all}
use validated_streams.Interfaces.{Sr25519, Client, LruCache, IsLruCache, TxPool}
use validated_streams.Primitives.{
  Bytes, H256, IsH256, CryptoTypePublicPair, WitnessedEvent, Bincode,
}
use validated_streams.Proofs.{EventProofs}
use validated_streams.Proofs.Contract.{IsEventProofs, DistinctValidators, is_of, is_validator}

-- Every event that is read has an id of 32 bytes, as its type has in the source.
abbrev pub ReadsHashes : Bincode → Type 0
ReadsHashes B = (m : Bytes) (e : WitnessedEvent) → B.deserialize_event m ≡ ok e → IsH256 e.event_id

-- Whether a message proves that the authority witnessed the event.
abbrev pub proves : Bincode → Sr25519 → AuthoritiesList → Bytes → H256 → CryptoTypePublicPair → Bool
proves B S l m id pk = elim (B.deserialize_event m) [
  | err _ ↦ false
  | ok e ↦ elim (verify_witnessed_event_origin S l e) [ err _ ↦ false | ok _ ↦ is_of e id pk ]
]

-- Whether one of the messages does.
abbrev pub any_proves :
    Bincode → Sr25519 → AuthoritiesList → List Bytes → H256 → CryptoTypePublicPair → Bool
any_proves B S l [] id pk = false
any_proves B S l (m ∷ ms) id pk = if proves B S l m id pk then true else any_proves B S l ms id pk

module _ {AuthorityId Extrinsic Cache State Pool : Type 0}
    (from : AuthorityId → CryptoTypePublicPair) (client : Client AuthorityId Extrinsic)
    (L : LruCache AuthoritiesList Cache) (P : EventProofs State) (T : TxPool Extrinsic Pool)
    (S : Sr25519) (B : Bincode) where
  pub submit-ne-panics :
      (l : AuthoritiesList) (id : H256) (c : ℕ) (n : Node Cache State Pool)
      → (submit_if_enough from client L P T S true l id c n).0 ≢ err panics
  unfolding submit_if_enough submit_event_extrinsic proofs_to_submit convert_proofs pool_answer
  submit-ne-panics l id c n = ground arith

  pub submit_keeps :
      (l : AuthoritiesList) (id : H256) (c : ℕ) (n : Node Cache State Pool)
      → ((submit_if_enough from client L P T S true l id c n).1.event_proofs ≡ n.event_proofs)
        × ((submit_if_enough from client L P T S true l id c n).1.block_state ≡ n.block_state)
  unfolding submit_if_enough submit_event_extrinsic proofs_to_submit
  submit_keeps l id c n = ground arith

  -- Of an event that does not make the handler panic, handling the message is handling the event.
  pub handle-read :
      (m : Bytes) (e : WitnessedEvent) (n : Node Cache State Pool)
      → B.deserialize_event m ≡ ok e
      → (handle_witnessed_event from client L P T S true e n).0 ≢ err panics
      → handle from client L P T S B true m n
        ≡ (ok tt, (handle_witnessed_event from client L P T S true e n).1)
  unfolding handle
  handle-read m e n read calm = ground (arith, read, calm)

  -- Whether it panics or not, the store is what handling the event leaves.
  pub event_proofs-read :
      (m : Bytes) (e : WitnessedEvent) (n : Node Cache State Pool)
      → B.deserialize_event m ≡ ok e
      → (handle from client L P T S B true m n).1.event_proofs
        ≡ (handle_witnessed_event from client L P T S true e n).1.event_proofs
  unfolding handle
  event_proofs-read m e n read = ground (arith, read)

  pub handle-unread :
      (m : Bytes) (reason : String) (n : Node Cache State Pool)
      → B.deserialize_event m ≡ err reason
      → handle from client L P T S B true m n ≡ (ok tt, n)
  unfolding handle
  handle-unread m reason n unread = ground (arith, unread)

  module _ (peek : Cache → H256 → Option AuthoritiesList) (lru : IsLruCache L peek)
      (l : AuthoritiesList)
      (finalized : runtime_authorities from client L peek client.finalized_hash ≡ ok l)
      (IsUsable : State → Type 0) (stored : State → H256 → CryptoTypePublicPair → Option Bytes)
      (lawful : IsEventProofs P IsUsable stored) (distinct : DistinctValidators l.authorities)
      (few : length l.authorities < 2 ^ 16) (hashes : ReadsHashes B) where
    -- The node can handle messages.
    pub record IsReady (n : Node Cache State Pool) : Type 0 where
      pub coherent : IsCoherent from client L peek n.block_state
      pub usable : IsUsable n.event_proofs

    abbrev pub handled : Bytes → Node Cache State Pool → Node Cache State Pool
    handled m n = (handle from client L P T S B true m n).1

    -- What handling a message comes to.
    pub record IsHandled (m : Bytes) (n : Node Cache State Pool) : Type 0 where
      pub returns : (handle from client L P T S B true m n).0 ≡ ok tt
      pub ready : IsReady (handled m n)
      pub stores :
          (id : H256) (pk : CryptoTypePublicPair)
          → IsH256 id
          → is_validator l.authorities pk ≡ true
          → is_some (stored (handled m n).event_proofs id pk)
            ≡ (if proves B S l m id pk then true else is_some (stored n.event_proofs id pk))

    -- The node that the handler leaves is known.
    leaves-IsHandled :
        (m : Bytes) (n n' : Node Cache State Pool)
        → handle from client L P T S B true m n ≡ (ok tt, n')
        → IsReady n'
        → ((id : H256) (pk : CryptoTypePublicPair)
            → IsH256 id
            → is_validator l.authorities pk ≡ true
            → is_some (stored n'.event_proofs id pk)
              ≡ (if proves B S l m id pk then true else is_some (stored n.event_proofs id pk)))
        → IsHandled m n
    leaves-IsHandled m n n' same r s = record {
      returns = ap (λ x. x.0) same;
      ready = subst IsReady (sym (ap (λ x. x.1) same)) r;
      stores = λ id pk h v. ap (λ x. is_some (stored x.1.event_proofs id pk)) same ∙ s id pk h v;
    }

    unread-IsHandled :
        (m : Bytes) (reason : String) (n : Node Cache State Pool)
        → IsReady n
        → B.deserialize_event m ≡ err reason
        → IsHandled m n
    unread-IsHandled m reason n r unread =
        leaves-IsHandled m n n (handle-unread m reason n unread) r
          (λ id pk h v. ground (arith, unread))

    lookup-IsCoherent :
        (n : Node Cache State Pool)
        → IsReady n
        → IsCoherent from client L peek
            (get_authorities_list from client L client.finalized_hash n.block_state).1
    lookup-IsCoherent n r =
        (get_authorities_list_lem from client L peek lru client.finalized_hash n.block_state
          r.coherent).1

    refused-IsHandled :
        (m : Bytes) (e : WitnessedEvent) (reason : String) (n : Node Cache State Pool)
        → IsReady n
        → B.deserialize_event m ≡ ok e
        → verify_witnessed_event_origin S l e ≡ err (bad_witnessed_event_signature reason)
        → IsHandled m n
    refused-IsHandled m e reason n r read bad =
        let (_, refused) =
          handle_refused from client L P T S peek lru true e n r.coherent l finalized
            (λ w. cc (bad, (verify_witnessed_event_origin_lem S l e).0.1 w)) in
        leaves-IsHandled m n _
          (handle-read m e n read (λ p. cc (p, refused)) ∙ ap (λ x. (ok tt, x.1)) refused)
          (record { coherent = lookup-IsCoherent n r; usable = r.usable })
          (λ id pk h v. ground (arith, read, bad))

    accepted-IsHandled :
        (m : Bytes) (e : WitnessedEvent) (n : Node Cache State Pool)
        → IsReady n
        → B.deserialize_event m ≡ ok e
        → verify_witnessed_event_origin S l e ≡ ok e
        → IsHandled m n
    accepted-IsHandled m e n r read good =
        let signed = (verify_witnessed_event_origin_lem S l e).0.0 good in
        let hash = hashes m e read in
        let s = after_purge P e l n.event_proofs in
        let c = witnesses stored s l.authorities e.event_id in
        let counted =
          after_count from client L P T S peek lru true e n r.coherent l finalized IsUsable stored
            lawful r.usable signed hash distinct few in
        let accepted =
          handle_accepted from client L P T S peek lru true e n r.coherent l finalized IsUsable
            stored lawful r.usable signed hash distinct few in
        let n' = (submit_if_enough from client L P T S true l e.event_id c counted).1 in
        let (kept, same) = submit_keeps l e.event_id c counted in
        leaves-IsHandled m n n'
          (handle-read m e n read
              (λ p. submit-ne-panics l e.event_id c counted (ap (λ x. x.0) (sym accepted) ∙ p))
            ∙ ap (λ x. (ok tt, x.1)) accepted)
          (record {
            coherent = subst (IsCoherent from client L peek) (sym same) (lookup-IsCoherent n r);
            usable = subst IsUsable (sym kept) (
                purge-IsUsable from client L P T S peek lru true e n r.coherent l finalized IsUsable
                  stored lawful r.usable signed hash distinct few);
          })
          (λ id pk h v.
            ap (λ x. is_some (stored x id pk)) kept
            ∙ stored-after_purge from client L P T S peek lru true e n r.coherent l finalized
                IsUsable stored lawful r.usable signed hash distinct few id pk h v
            ∙ ground (arith, read, good))

    pub handle-IsHandled : (m : Bytes) (n : Node Cache State Pool) → IsReady n → IsHandled m n
    handle-IsHandled m n r = elim (Result-cases (B.deserialize_event m)) [
      | inr (reason, unread) ↦ unread-IsHandled m reason n r unread
      | inl (e, read) ↦ elim (verify_witnessed_event_origin_lem S l e).1 [
        | inl good ↦ accepted-IsHandled m e n r read good
        | inr (reason, bad) ↦ refused-IsHandled m e reason n r read bad
      ]
    ]

    abbrev pub handled_all : List Bytes → Node Cache State Pool → Node Cache State Pool
    handled_all = handle_all handled

    -- The node stays ready, and its store has of an authority the proofs that it had and those
    -- that the messages prove.
    pub handled_all_lem :
        (ms : List Bytes) (n : Node Cache State Pool)
        → IsReady n
        → IsReady (handled_all ms n)
          × ((id : H256) (pk : CryptoTypePublicPair)
              → IsH256 id
              → is_validator l.authorities pk ≡ true
              → is_some (stored (handled_all ms n).event_proofs id pk) ≡ (
                  if any_proves B S l ms id pk
                  then true
                  else is_some (stored n.event_proofs id pk)))
    handled_all_lem [] n r = (r, λ id pk h v. refl)
    handled_all_lem (m ∷ ms) n r =
        let first = handle-IsHandled m n r in
        let (ready, rest) = handled_all_lem ms (handled m n) first.ready in
        (ready, λ id pk h v. ground (arith, rest id pk h v, first.stores id pk h v))
