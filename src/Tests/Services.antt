-- ===== src/Tests/Services.antt =====
-- Witnessing, importing and finalizing, on the small network.
use validated_streams.Base.{
  ℕ, ◌≡◌, ◌⊎◌, refl, true, false, [], ◌∷◌, ◌++◌, none, some, ok, err, all, leb, if◌then◌else◌,
  arith, ℕ_discrete,
}
use validated_streams.BlockImport.{fails, client_import, Importer, forward, import_block}
use validated_streams.BlockImport.Imports.{import_block_lem, import_block_unchecked}
use validated_streams.Events.{target, get_authorities_list}
use validated_streams.Events.Cache.{IsCoherent}
use validated_streams.Events.Validate.Finalized.{IsPending}
use validated_streams.Server.{ValidatedEventsRequest, first_block, validated_events}
use validated_streams.Server.Finalized.{
  Call, IsFinalizing, event_validator, validated_events-finalized,
}
use validated_streams.Events.Validity.{witnesses}
use validated_streams.Events.Witness.{Witnesser}
use validated_streams.Events.Witness.Published.{IsSent, IsLost, IsUnsent, witness_event_lem}
use validated_streams.Events.Witness.Working.{IsWorking, witness_event-IsSent}
use validated_streams.Interfaces.{Client}
use validated_streams.Primitives.{CryptoTypePublicPair-discrete}
use validated_streams.Proofs.InMemory.{new, in_memory}
use validated_streams.Proofs.InMemory.Stored.{stored, IsUsable, new-IsUsable}
use validated_streams.Proofs.InMemory.Lawful.{in_memory-IsEventProofs}
use validated_streams.Runtime.{Extrinsic, get_extrinsic_ids, create_unsigned_extrinsic}
use validated_streams.Tests.{
  event_a, genesis, from, authorities, scheme, client, Cache, peek, lru, lru-IsLruCache,
  empty_cache, empty_cache-IsCoherent, authorities-DistinctValidators, keystore, holds,
  keystore-IsKeystore,
}
use validated_streams.Tests.Blocks.{counting, block_extrinsics, block, importer, known_events}
use validated_streams.Tests.Codec.{codec, codec-IsEventCodec}

abbrev witnesser : Witnesser Cache ℕ
witnesser = record {
  block_state = empty_cache;
  gossip = record { connected = true; capacity = 64; orders = [] };
}

witness_event_lem_example :
    (IsSent from client lru keystore codec scheme peek lru-IsLruCache witnesser
        empty_cache-IsCoherent authorities refl event_a
      ⊎ IsLost from client lru keystore codec scheme peek lru-IsLruCache witnesser
          empty_cache-IsCoherent authorities refl event_a
      ⊎ IsUnsent from client lru keystore codec scheme peek lru-IsLruCache witnesser
          empty_cache-IsCoherent authorities refl event_a)
witness_event_lem_example =
    witness_event_lem from client lru keystore codec scheme peek lru-IsLruCache witnesser
      empty_cache-IsCoherent authorities refl event_a keystore-IsKeystore codec-IsEventCodec

keystore-IsWorking : IsWorking keystore codec holds
keystore-IsWorking = record {
  answers = λ keys. refl;
  signs_with_held = λ k message h. (k.key ++ message, refl);
  serializes = λ e. (_, refl);
}

witness_event-IsSent_example :
    IsSent from client lru keystore codec scheme peek lru-IsLruCache witnesser
      empty_cache-IsCoherent authorities refl event_a
unfolding CryptoTypePublicPair-discrete ℕ_discrete
witness_event-IsSent_example =
    witness_event-IsSent from client lru keystore codec scheme peek lru-IsLruCache witnesser
      empty_cache-IsCoherent authorities refl event_a keystore-IsKeystore codec-IsEventCodec holds
      keystore-IsWorking (from 2) refl refl refl

abbrev looked_up : Importer Cache ℕ
looked_up = record importer {
  block_state = (get_authorities_list from client lru genesis empty_cache).1;
}

import_block_lem_example :
    import_block from client lru in_memory counting (some false) new block importer ≡ (
      if all
        (λ id. leb (target authorities) (witnesses stored new authorities.authorities id))
        (event_a ∷ [])
      then forward from client lru in_memory counting block looked_up
      else (err (fails (client_import "Block contains unwitnessed events")), looked_up))
import_block_lem_example =
    import_block_lem from client lru in_memory counting peek lru-IsLruCache block importer
      empty_cache-IsCoherent authorities refl IsUsable stored in_memory-IsEventProofs new
      new-IsUsable authorities-DistinctValidators (omega arith) block_extrinsics (event_a ∷ []) refl
      known_events (refl, tt)

-- A client whose runtime does not answer, and one whose second block is not there yet.
abbrev mute : Client ℕ Extrinsic
mute = record client { get_extrinsic_ids = λ h xs. err "no runtime" }

mute-IsCoherent : IsCoherent from mute lru peek empty_cache
mute-IsCoherent = record { healthy = refl; entries = λ id l h. cc }

abbrev mute_looked_up : Importer Cache ℕ
mute_looked_up = record importer {
  block_state = (get_authorities_list from mute lru genesis empty_cache).1;
}

import_block_unchecked_example :
    import_block from mute lru in_memory counting (some false) new block importer
    ≡ forward from mute lru in_memory counting block mute_looked_up
import_block_unchecked_example =
    import_block_unchecked from mute lru in_memory counting peek lru-IsLruCache block importer
      mute-IsCoherent false new block_extrinsics "no runtime" refl refl

abbrev behind : Client ℕ Extrinsic
behind = record client { block_hash = λ n. ok none }

behind-IsPending : (k : ℕ) → IsPending k (genesis, behind)
behind-IsPending k block f = cc

abbrev finalized : Client ℕ Extrinsic
finalized = record client {
  block_body = λ h. ok (some (create_unsigned_extrinsic event_a none ∷ []));
}

-- The call for a block waits for one turn.
abbrev calls : ℕ → Call ℕ Extrinsic
calls k = record {
  before = (genesis, behind) ∷ [];
  turn = (genesis, finalized);
  after = [];
  block = genesis;
  extrinsics = create_unsigned_extrinsic event_a none ∷ [];
  events = event_a ∷ [];
}

calls-IsFinalizing : (k : ℕ) → IsFinalizing calls k
unfolding get_extrinsic_ids create_unsigned_extrinsic
calls-IsFinalizing k = record {
  pending = (behind-IsPending k, tt);
  finalized = (refl, refl);
  body = refl;
  finds = refl;
}

abbrev from_one : ValidatedEventsRequest
from_one = record { from_block = 1; from_latest = true }

validated_events-finalized_example :
    validated_events (event_validator calls client) 2 from_one
    ≡ ok (record { next_block = 2; events = event_a ∷ [] })
      ∷ ok (record { next_block = 3; events = event_a ∷ [] })
      ∷ []
unfolding first_block
validated_events-finalized_example =
    validated_events-finalized calls client from_one 2 (omega arith)
      (λ k from until. calls-IsFinalizing k)
