-- ===== src/Events/Gossip/Steps.antt =====
-- The handler of gossiped events, branch by branch.
use validated_streams.Base.{
  ◌^◌, ◌<◌, ◌≡◌, ◌∙◌, ap, Bool, true, Option, is_some, String, ok, err, length, if◌then◌else◌,
  arith, inl, inr,
}
use validated_streams.Errors.{fails, bad_witnessed_event_signature}
use validated_streams.Events.{
  AuthoritiesList, BlockStateCache, get_authorities_list, get_latest_authorities_list,
}
use validated_streams.Events.Cache.{IsCoherent, runtime_authorities, get_authorities_list_lem}
use validated_streams.Events.Gossip.{Node, handle_witnessed_event, submit_if_enough}
use validated_streams.Events.Origin.{IsSignedByAuthority, verify_witnessed_event_origin_lem}
use validated_streams.Events.Validity.{witnesses, count-witnesses}
use validated_streams.Interfaces.{Sr25519, Client, LruCache, IsLruCache, TxPool}
use validated_streams.Primitives.{Bytes, H256, IsH256, CryptoTypePublicPair, WitnessedEvent}
use validated_streams.Proofs.{EventProofs}
use validated_streams.Proofs.Contract.{IsEventProofs, DistinctValidators, is_of, is_validator}

-- The store after the new proof is added, and after the stale ones are purged.
abbrev pub after_add : {State : Type 0} → EventProofs State → WitnessedEvent → State → State
after_add P e s = (P.add_event_proof e s).1

abbrev pub after_purge :
    {State : Type 0} → EventProofs State → WitnessedEvent → AuthoritiesList → State → State
after_purge P e l s = (P.purge_event_stale_signatures e.event_id l.authorities (after_add P e s)).1

module _ {AuthorityId Extrinsic Cache State Pool : Type 0}
    (from : AuthorityId → CryptoTypePublicPair) (client : Client AuthorityId Extrinsic)
    (L : LruCache AuthoritiesList Cache) (P : EventProofs State) (T : TxPool Extrinsic Pool)
    (S : Sr25519) (peek : Cache → H256 → Option AuthoritiesList) (lru : IsLruCache L peek)
    (off_chain : Bool) (e : WitnessedEvent) (n : Node Cache State Pool)
    (coherent : IsCoherent from client L peek n.block_state) (l : AuthoritiesList)
    (finalized : runtime_authorities from client L peek client.finalized_hash ≡ ok l) where
  abbrev after_lookup : BlockStateCache Cache
  after_lookup = (get_authorities_list from client L client.finalized_hash n.block_state).1

  latest : (get_latest_authorities_list from client L n.block_state) ≡ (ok l, after_lookup)
  unfolding get_latest_authorities_list
  latest = ground (
    arith,
    get_authorities_list_lem from client L peek lru client.finalized_hash n.block_state coherent,
    finalized,
  )

  -- With a coherent cache and the authorities of the latest finalized block known, an event that
  -- none of them signed is refused as a bad signature: no proof is stored and nothing is submitted.
  pub handle_refused :
      ¬ IsSignedByAuthority S l e
      → (reason : String) × (handle_witnessed_event from client L P T S off_chain e n ≡ (
        err (fails (bad_witnessed_event_signature reason)),
        record n { block_state = after_lookup },
      ))
  unfolding handle_witnessed_event
  handle_refused forged = elim (verify_witnessed_event_origin_lem S l e).1 [
    | inl good ↦ absurd (forged ((verify_witnessed_event_origin_lem S l e).0.0 good))
    | inr (reason, bad) ↦ (reason, ground (arith, latest, bad))
  ]

  module _ (IsUsable : State → Type 0) (stored : State → H256 → CryptoTypePublicPair → Option Bytes)
      (lawful : IsEventProofs P IsUsable stored) (usable : IsUsable n.event_proofs)
      (signed : IsSignedByAuthority S l e) (hash : IsH256 e.event_id)
      (distinct : DistinctValidators l.authorities) (few : length l.authorities < 2 ^ 16) where
    abbrev pub after_count : Node Cache State Pool
    after_count = record {
      block_state = after_lookup;
      event_proofs = after_purge P e l n.event_proofs;
      tx_pool = n.tx_pool;
    }

    add-IsUsable : IsUsable (after_add P e n.event_proofs)
    add-IsUsable = (lawful.add_ok e n.event_proofs hash usable).1

    pub purge-IsUsable : IsUsable (after_purge P e l n.event_proofs)
    purge-IsUsable =
        (lawful.purge_ok e.event_id l.authorities (after_add P e n.event_proofs) hash
          add-IsUsable).1

    -- The store after the handler: of each event the signed proof is added, the validators'
    -- proofs stay, and of this event only theirs.
    pub stored-after_purge :
        (id : H256) (pk : CryptoTypePublicPair)
        → IsH256 id
        → is_validator l.authorities pk ≡ true
        → is_some (stored (after_purge P e l n.event_proofs) id pk)
          ≡ (if is_of e id pk then true else is_some (stored n.event_proofs id pk))
    stored-after_purge id pk h v =
        ap is_some (
          lawful.purge_keeps e.event_id l.authorities (after_add P e n.event_proofs) id pk hash h
            add-IsUsable v)
        ∙ lawful.add_stored e n.event_proofs id pk hash h usable

    -- Of an event that an authority signed, the handler stores the proof, drops the stale ones,
    -- counts, and goes on to submit by that count.
    pub handle_accepted :
        handle_witnessed_event from client L P T S off_chain e n
        ≡ submit_if_enough from client L P T S off_chain l e.event_id
            (witnesses stored (after_purge P e l n.event_proofs) l.authorities e.event_id)
            after_count
    unfolding handle_witnessed_event
    handle_accepted = ground (
      arith,
      latest,
      (verify_witnessed_event_origin_lem S l e).0.1 signed,
      (lawful.add_ok e n.event_proofs hash usable).0,
      (lawful.purge_ok e.event_id l.authorities (after_add P e n.event_proofs) hash add-IsUsable).0,
      count-witnesses P IsUsable stored lawful e.event_id l.authorities
          (after_purge P e l n.event_proofs) hash distinct few purge-IsUsable,
    )
