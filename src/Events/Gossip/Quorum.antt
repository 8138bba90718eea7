-- ===== src/Events/Gossip/Quorum.antt =====
-- A gossiped event reaches the transaction pool exactly when a quorum has witnessed it.
use validated_streams.Base.{
  ℕ, ◌*◌, ◌^◌, ◌<◌, ◌≡◌, ◌≢◌, ap, Bool, true, false, Option, none, is_some, ok, length, leb, leb→le,
  if◌then◌else◌, arith, Bool-cases, inl, inr,
}
use validated_streams.Events.{AuthoritiesList, target}
use validated_streams.Events.Cache.{IsCoherent, runtime_authorities}
use validated_streams.Events.Gossip.{
  Node, handle_witnessed_event, submit_if_enough, submit_event_extrinsic, proofs_to_submit,
}
use validated_streams.Events.Gossip.Steps.{
  after_purge, after_count, handle_accepted, stored-after_purge,
}
use validated_streams.Events.Origin.{IsSignedByAuthority}
use validated_streams.Events.Quorum.{target_lem}
use validated_streams.Events.Validity.{witnesses}
use validated_streams.Interfaces.{Sr25519, Client, LruCache, IsLruCache, TxPool}
use validated_streams.Primitives.{Bytes, H256, IsH256, CryptoTypePublicPair, WitnessedEvent}
use validated_streams.Proofs.{EventProofs}
use validated_streams.Proofs.Contract.{IsEventProofs, DistinctValidators, is_of, is_validator}

module _ {AuthorityId Extrinsic Cache State Pool : Type 0}
    (from : AuthorityId → CryptoTypePublicPair) (client : Client AuthorityId Extrinsic)
    (L : LruCache AuthoritiesList Cache) (P : EventProofs State) (T : TxPool Extrinsic Pool)
    (S : Sr25519) where
  -- Below the target nothing is submitted, in either build.
  submit_waits :
      (off_chain : Bool) (l : AuthoritiesList) (id : H256) (c : ℕ) (n : Node Cache State Pool)
      → leb (target l) c ≡ false
      → submit_if_enough from client L P T S off_chain l id c n ≡ (ok true, n)
  unfolding submit_if_enough
  submit_waits off_chain l id c n h = rw h

  submit_pool :
      (l : AuthoritiesList) (id : H256) (c : ℕ) (n : Node Cache State Pool) (ext : Extrinsic)
      → client.create_unsigned_extrinsic client.best_hash id none ≡ ok ext
      → (submit_if_enough from client L P T S true l id c n).1.tx_pool ≡ (
          if leb (target l) c then (T.submit_local client.best_hash ext n.tx_pool).1 else n.tx_pool)
  unfolding submit_if_enough submit_event_extrinsic proofs_to_submit
  submit_pool l id c n ext h = ground (arith, h)

  -- Submitting reads the store and leaves it as it is.
  submit_keeps :
      (off_chain : Bool) (l : AuthoritiesList) (id : H256) (c : ℕ) (n : Node Cache State Pool)
      → (submit_if_enough from client L P T S off_chain l id c n).1.event_proofs ≡ n.event_proofs
  unfolding submit_if_enough submit_event_extrinsic proofs_to_submit
  submit_keeps true l id c n = ground arith
  submit_keeps false l id c n = ground arith

  module _ (peek : Cache → H256 → Option AuthoritiesList) (lru : IsLruCache L peek)
      (e : WitnessedEvent) (n : Node Cache State Pool)
      (coherent : IsCoherent from client L peek n.block_state) (l : AuthoritiesList)
      (finalized : runtime_authorities from client L peek client.finalized_hash ≡ ok l)
      (IsUsable : State → Type 0) (stored : State → H256 → CryptoTypePublicPair → Option Bytes)
      (lawful : IsEventProofs P IsUsable stored) (usable : IsUsable n.event_proofs)
      (signed : IsSignedByAuthority S l e) (hash : IsH256 e.event_id)
      (distinct : DistinctValidators l.authorities) (few : length l.authorities < 2 ^ 16) where
    accepted :
        (off_chain : Bool)
        → handle_witnessed_event from client L P T S off_chain e n
          ≡ submit_if_enough from client L P T S off_chain l e.event_id
              (witnesses stored (after_purge P e l n.event_proofs) l.authorities e.event_id)
              (after_count from client L P T S peek lru off_chain e n coherent l finalized IsUsable
                stored lawful usable signed hash distinct few)
    accepted off_chain =
        handle_accepted from client L P T S peek lru off_chain e n coherent l finalized IsUsable
          stored lawful usable signed hash distinct few

    pub event_proofs-handle :
        (off_chain : Bool)
        → (handle_witnessed_event from client L P T S off_chain e n).1.event_proofs
          ≡ after_purge P e l n.event_proofs
    event_proofs-handle off_chain = rw (accepted off_chain) (submit_keeps off_chain l _ _ _)

    -- Let an authority of the latest finalized block have signed the event, with a lawful store, a
    -- coherent cache, fewer than 2^16 distinct authorities, proofs kept off the chain, and a
    -- runtime that builds the extrinsic. Then of any authority the handler stores that proof and
    -- no other, and, whether or not the proof was there already, it submits the extrinsic to the
    -- pool exactly if as many authorities as the target have their proofs in the store.
    pub handle_submits_at_target :
        (ext : Extrinsic) (id : H256) (pk : CryptoTypePublicPair)
        → client.create_unsigned_extrinsic client.best_hash e.event_id none ≡ ok ext
        → IsH256 id
        → is_validator l.authorities pk ≡ true
        → let n' = (handle_witnessed_event from client L P T S true e n).1 in
          (n'.tx_pool ≡ (
            if leb (target l) (witnesses stored n'.event_proofs l.authorities e.event_id)
            then (T.submit_local client.best_hash ext n.tx_pool).1
            else n.tx_pool))
          × (is_some (stored n'.event_proofs id pk)
              ≡ (if is_of e id pk then true else is_some (stored n.event_proofs id pk)))
    handle_submits_at_target ext id pk h hash_id validator = rw (event_proofs-handle true) (
      rw (accepted true) (submit_pool l e.event_id _ _ ext h),
      stored-after_purge from client L P T S peek lru true e n coherent l finalized IsUsable stored
          lawful usable signed hash distinct few id pk hash_id validator,
    )

    -- Let an authority of the latest finalized block have signed the event, with a lawful store, a
    -- coherent cache and fewer than 2^16 distinct authorities, and whether proofs are kept on or
    -- off the chain. If the handler changes the pool, then more than two thirds of the authorities
    -- have a proof of the event in the store.
    pub handle_needs_quorum :
        (off_chain : Bool)
        → (handle_witnessed_event from client L P T S off_chain e n).1.tx_pool ≢ n.tx_pool
        → let s = (handle_witnessed_event from client L P T S off_chain e n).1.event_proofs in
          length l.authorities * 2 < 3 * witnesses stored s l.authorities e.event_id
    handle_needs_quorum off_chain changed =
        let c = witnesses stored (after_purge P e l n.event_proofs) l.authorities e.event_id in
        rw (event_proofs-handle off_chain) (elim (Bool-cases (leb (target l) c)) [
          | inl enough ↦ omega (arith, leb→le (target l) c enough, (target_lem l (omega arith)).0)
          | inr short ↦ absurd (
              changed (
                rw (accepted off_chain)
                  (ap (λ r. r.1.tx_pool) (submit_waits off_chain l _ c _ short))))
        ])
