-- ===== src/Network/Imports.antt =====
-- Nodes that have seen the same messages decide the same about a block: the block import of
-- consensus/src/block_import.rs over the proofs that the gossip of consensus/src/events/gossip.rs
-- has stored.
use validated_streams.Base.{
  ◌^◌, ◌<◌, ◌≡◌, refl, sym, ap, ◌∙◌, true, false, Bool, some, is_some, Result, ok, err, List, [],
  ◌∷◌, length, all, All, leb, if◌then◌else◌, arith,
}
use validated_streams.BlockImport.{
  ImportFailure, fails, client_import, BlockImportParams, ParentImport, Importer, forward,
  import_block,
}
use validated_streams.BlockImport.Imports.{import_block_lem}
use validated_streams.Events.{AuthoritiesList, target, get_authorities_list}
use validated_streams.Events.Cache.{IsCoherent, runtime_authorities}
use validated_streams.Events.Gossip.Received.{ReadsHashes}
use validated_streams.Events.Validity.{witnesses}
use validated_streams.Gossip.{Input}
use validated_streams.Gossip.Delivery.{messages}
use validated_streams.Interfaces.{Sr25519}
use validated_streams.Network.{Participant, after, stored_before}
use validated_streams.Network.Converged.{witnesses-agree}
use validated_streams.Network.Messages.{message_set}
use validated_streams.Network.Stored.{after-IsUsable}
use validated_streams.Primitives.{H256, IsH256, CryptoTypePublicPair, Bincode}
use validated_streams.Proofs.Contract.{DistinctValidators, is_validator}

-- A node at the import of a block on a parent with the authorities `l`: its import, what that
-- hands the block on to, and the block as this node has it, whose events the runtime can tell.
pub record Importing {l : AuthoritiesList} (p : Participant l) (ids : List H256) : Type 1 where
  pub Rest : Type 0
  pub Check : Type 0
  pub Parent : Type 0
  pub ImportResult : Type 0
  pub next : ParentImport p.Extrinsic Rest Check Parent ImportResult
  pub importer : Importer p.Cache Parent
  pub block : BlockImportParams p.Extrinsic Rest
  pub extrinsics : List p.Extrinsic
  pub coherent : IsCoherent p.from p.client p.lru p.peek importer.block_state
  pub parent : runtime_authorities p.from p.client p.lru p.peek block.parent_hash ≡ ok l
  pub body : block.body ≡ some extrinsics
  pub known : p.client.get_extrinsic_ids block.parent_hash extrinsics ≡ ok ids

module _ {l : AuthoritiesList} (p : Participant l) {ids : List H256} (q : Importing p ids) where
  abbrev pub Outcome : Type 0
  Outcome = Result ImportFailure q.ImportResult × Importer p.Cache q.Parent

  -- What comes of a block that is accepted, or is not.
  abbrev pub decided : Bool → Outcome
  decided accepted =
      let looked_up = record q.importer {
        block_state =
            (get_authorities_list p.from p.client p.lru q.block.parent_hash
              q.importer.block_state).1;
      } in
      if accepted
      then forward p.from p.client p.lru p.event_proofs q.next q.block looked_up
      else (err (fails (client_import "Block contains unwitnessed events")), looked_up)

-- Whether as many authorities as the target have witnessed each of the events.
abbrev pub is_witnessed :
    (S : Sr25519) (B : Bincode) {l : AuthoritiesList} (p : Participant l)
    → List (Input p.Multiaddr p.PeerId)
    → List H256
    → Bool
is_witnessed S B {l} p is =
    all (λ id. leb (target l) (witnesses p.stored (after S B p is).event_proofs l.authorities id))

module _ (S : Sr25519) (B : Bincode) {l : AuthoritiesList} (p : Participant l) {ids : List H256}
    (q : Importing p ids) (is : List (Input p.Multiaddr p.PeerId)) where
  -- The import of the block with the proofs that the node has once its gossip service has taken
  -- the inputs.
  abbrev pub imported : Outcome p q
  imported =
      import_block p.from p.client p.lru p.event_proofs q.next (some false)
        (after S B p is).event_proofs q.block q.importer

  module _ (hashes : ReadsHashes B) (distinct : DistinctValidators l.authorities)
      (few : length l.authorities < 2 ^ 16) (of_hashes : All IsH256 ids) where
    pub imported_lem : imported ≡ decided p q (is_witnessed S B p is ids)
    imported_lem =
        import_block_lem p.from p.client p.lru p.event_proofs q.next p.peek p.lru_lawful q.block
          q.importer q.coherent l q.parent p.IsUsable p.stored p.lawful
          (after S B p is).event_proofs (after-IsUsable S B hashes distinct few p is) distinct few
          q.extrinsics ids q.body q.known of_hashes

module _ (S : Sr25519) (B : Bincode) (hashes : ReadsHashes B) {l : AuthoritiesList}
    (distinct : DistinctValidators l.authorities) (few : length l.authorities < 2 ^ 16)
    (a b : Participant l) (is : List (Input a.Multiaddr a.PeerId))
    (js : List (Input b.Multiaddr b.PeerId))
    (same_messages : message_set (messages is) ≡ message_set (messages js))
    (same_before : (id : H256) (pk : CryptoTypePublicPair)
      → IsH256 id
      → is_validator l.authorities pk ≡ true
      → is_some (stored_before S B a id pk) ≡ is_some (stored_before S B b id pk)) where
  is_witnessed-agree :
      (ids : List H256) → All IsH256 ids → is_witnessed S B a is ids ≡ is_witnessed S B b js ids
  is_witnessed-agree [] h = refl
  is_witnessed-agree (id ∷ ids) h =
      let rest = is_witnessed-agree ids h.1 in
      ground (
        arith,
        witnesses-agree S B hashes distinct few a b is js same_messages same_before id h.0,
        rest,
      )

  -- Let two nodes have the same authorities at their latest finalized block, distinct and fewer
  -- than 2^16, let each event that is read have an id of 32 bytes, and let both have held proofs of
  -- the same authorities for the same events before their gossip services took the same set of
  -- messages. If they then import a block on a parent with those authorities, whose event ids both
  -- runtimes tell alike, and neither is syncing, both decide by the same test, whether as many
  -- authorities as the target have witnessed each event, whether to hand the block on or to refuse
  -- it for unwitnessed events.
  pub blocks_agree :
      (ids : List H256) (qa : Importing a ids) (qb : Importing b ids)
      → All IsH256 ids
      → (imported S B a qa is ≡ decided a qa (is_witnessed S B a is ids))
        × (imported S B b qb js ≡ decided b qb (is_witnessed S B a is ids))
  blocks_agree ids qa qb h = (
    imported_lem S B a qa is hashes distinct few h,
    imported_lem S B b qb js hashes distinct few h
        ∙ ap (decided b qb) (sym (is_witnessed-agree ids h)),
  )
