-- ===== src/Events/Witness.antt =====
-- consensus/src/events/witness.rs: `EventWitnesser`, which signs an event with a key of this node
-- and publishes it.
pub mod Published
pub mod Working
use validated_streams.Base.{List, [], ◌∷◌, Option, none, some, Result, ok, err, map_err, String}
use validated_streams.Base.Action.{Action, ◌>>=◌, ◌>>◌, lift}
use validated_streams.Errors.{
  Error, signing_failure, serilization_failure, not_a_validator, from_keystore,
}
use validated_streams.Events.{AuthoritiesList, BlockStateCache, get_latest_authorities_list}
use validated_streams.Gossip.{Channel, publish}
use validated_streams.Interfaces.{Client, LruCache, Keystore}
use validated_streams.Primitives.{Bytes, H256, CryptoTypePublicPair, WitnessedEvent, Bincode}

abbrev pub witnessed_events_topic : String
witnessed_events_topic = "WitnessedEvent"

-- What the witnesser reaches through its handles and changes.
pub record Witnesser (Cache Multiaddr : Type 0) : Type 0 where
  pub block_state : BlockStateCache Cache
  pub gossip : Channel Multiaddr

-- `supported_keys.get(0).ok_or(Error::NotAValidator)`
abbrev pub first_key : List CryptoTypePublicPair → Result Error CryptoTypePublicPair
first_key [] = err not_a_validator
first_key (pub_key ∷ _) = ok pub_key

-- `ok_or_else` on the answer of `sign_with`
abbrev pub signed : Option Bytes → Result Error Bytes
signed none = err (signing_failure "Failed getting a signature")
signed (some signature) = ok signature

module _ {AuthorityId Extrinsic Cache Multiaddr : Type 0}
    (from : AuthorityId → CryptoTypePublicPair) (client : Client AuthorityId Extrinsic)
    (L : LruCache AuthoritiesList Cache) (K : Keystore) (B : Bincode) where
  abbrev on_block_state :
      {A : Type 0}
      → Action Error (BlockStateCache Cache) A
      → Action Error (Witnesser Cache Multiaddr) A
  on_block_state m w = let (r, b) = m w.block_state in (r, record w { block_state = b })

  abbrev publish_event : Bytes → Action Error (Witnesser Cache Multiaddr) (Unit {0})
  publish_event message w =
      (ok tt, record w { gossip = publish witnessed_events_topic message w.gossip })

  pub witness_event : H256 → Action Error (Witnesser Cache Multiaddr) (Unit {0})
  witness_event event_id = do
    l ← on_block_state (get_latest_authorities_list from client L)
    supported_keys ← lift (map_err from_keystore (K.supported_keys l.authorities))
    pub_key ← lift (first_key supported_keys)
    answer ← lift (map_err from_keystore (K.sign_with pub_key event_id))
    signature ← lift (signed answer)
    serilized_event ← lift (
        map_err serilization_failure (
          B.serialize_event
            (record { signature = signature; pub_key = pub_key; event_id = event_id })))
    publish_event serilized_event
