-- ===== src/Events/Gossip/Delivered.antt =====
-- A message of a witness reaches the stores of the nodes that it is delivered to.
use validated_streams.Base.{
  ◌^◌, ◌<◌, ◌≡◌, ◌∙◌, Bool, true, Option, is_some, ok, length, if◌then◌else◌, arith,
}
use validated_streams.Events.{AuthoritiesList}
use validated_streams.Events.Cache.{IsCoherent, runtime_authorities}
use validated_streams.Events.Gossip.{Node, handle, handle_witnessed_event}
use validated_streams.Events.Gossip.Quorum.{event_proofs-handle}
use validated_streams.Events.Gossip.Steps.{stored-after_purge}
use validated_streams.Events.Origin.{IsSignedByAuthority}
use validated_streams.Interfaces.{Sr25519, Client, LruCache, IsLruCache, TxPool}
use validated_streams.Primitives.{
  Bytes, H256, IsH256, CryptoTypePublicPair, WitnessedEvent, Bincode,
}
use validated_streams.Proofs.{EventProofs}
use validated_streams.Proofs.Contract.{IsEventProofs, DistinctValidators, is_of, is_validator}

module _ {AuthorityId Extrinsic Cache State Pool : Type 0}
    (from : AuthorityId → CryptoTypePublicPair) (client : Client AuthorityId Extrinsic)
    (L : LruCache AuthoritiesList Cache) (P : EventProofs State) (T : TxPool Extrinsic Pool)
    (S : Sr25519) (B : Bincode) where
  -- Handling a message handles the event that it reads back as.
  handle-event :
      (off_chain : Bool) (m : Bytes) (e : WitnessedEvent) (n : Node Cache State Pool)
      → B.deserialize_event m ≡ ok e
      → (handle from client L P T S B off_chain m n).1
        ≡ (handle_witnessed_event from client L P T S off_chain e n).1
  unfolding handle
  handle-event off_chain m e n read = ground (arith, read)

  module _ (peek : Cache → H256 → Option AuthoritiesList) (lru : IsLruCache L peek)
      (n : Node Cache State Pool) (coherent : IsCoherent from client L peek n.block_state)
      (l : AuthoritiesList)
      (finalized : runtime_authorities from client L peek client.finalized_hash ≡ ok l)
      (IsUsable : State → Type 0) (stored : State → H256 → CryptoTypePublicPair → Option Bytes)
      (lawful : IsEventProofs P IsUsable stored) (usable : IsUsable n.event_proofs)
      (distinct : DistinctValidators l.authorities) (few : length l.authorities < 2 ^ 16) where
    -- Let a message read back as an event that an authority of the latest finalized block signed,
    -- and a node have a lawful store, a coherent cache and fewer than 2^16 distinct authorities.
    -- Once the node has handled the message its store has a proof of the event by that signer,
    -- whatever becomes of the submission, and of any authority no other proof than before.
    pub handle_stores :
        (off_chain : Bool) (m : Bytes) (e : WitnessedEvent) (id : H256) (pk : CryptoTypePublicPair)
        → B.deserialize_event m ≡ ok e
        → IsSignedByAuthority S l e
        → IsH256 e.event_id
        → IsH256 id
        → is_validator l.authorities pk ≡ true
        → let s = (handle from client L P T S B off_chain m n).1.event_proofs in
          (is_some (stored s e.event_id e.pub_key) ≡ true)
          × (is_some (stored s id pk)
              ≡ (if is_of e id pk then true else is_some (stored n.event_proofs id pk)))
    handle_stores off_chain m e id pk read signed hash hash_id valid =
        rw
          (
            handle-event off_chain m e n read,
            event_proofs-handle from client L P T S peek lru e n coherent l finalized IsUsable
                stored lawful usable signed hash distinct few off_chain,
          )
          (
            stored-after_purge from client L P T S peek lru off_chain e n coherent l finalized
                  IsUsable stored lawful usable signed hash distinct few e.event_id e.pub_key hash
                  signed.known
                ∙ ground (arith),
            stored-after_purge from client L P T S peek lru off_chain e n coherent l finalized
                IsUsable stored lawful usable signed hash distinct few id pk hash_id valid,
          )
