-- ===== src/Tests/Networks.antt =====
-- Two nodes of the small network gossip, import a block and answer a client.
use validated_streams.Base.{
  ℕ, ◌≡◌, ◌↔◌, ◌⊎◌, refl, ap, ◌∙◌, true, [], ◌∷◌, is_some, ok, arith, ℕ_discrete,
}
use validated_streams.Events.Validity.{witnesses}
use validated_streams.Events.Witness.{Witnesser, witness_event, witnessed_events_topic}
use validated_streams.Events.Witness.Published.{witness_event_succeeds}
use validated_streams.Gossip.{publish}
use validated_streams.Gossip.Delivery.{messages}
use validated_streams.Network.{after, stored_before, stored_after}
use validated_streams.Network.Converged.{nodes_converge}
use validated_streams.Network.Requests.{event_witnesser, request_arrives}
use validated_streams.Server.{witness_event as serve}
use validated_streams.Server.Witnessed.{witness_event-served}
use validated_streams.Network.Imports.{Importing, imported, decided, is_witnessed, blocks_agree}
use validated_streams.Network.Messages.{HasProof}
use validated_streams.Events.Gossip.Sound.{IsSound}
use validated_streams.Tests.Nodes.{new-IsSound}
use validated_streams.Network.Sound.{after-IsSound}
use validated_streams.Network.Stored.{service_stores}
use validated_streams.Primitives.{
  Bytes-discrete, CryptoTypePublicPair, CryptoTypePublicPair-discrete,
}
use validated_streams.Proofs.Contract.{is_validator}
use validated_streams.Proofs.InMemory.{new}
use validated_streams.Proofs.InMemory.Stored.{stored}
use validated_streams.Tests.{
  event_a, from, authorities, scheme, client, Cache, peek, lru, lru-IsLruCache, empty_cache,
  empty_cache-IsCoherent, authorities-DistinctValidators, keystore, keystore-IsKeystore,
}
use validated_streams.Tests.Blocks.{counting, block_extrinsics, block, importer, known_events}
use mathlib.Core.Quot
use validated_streams.Tests.Participants.{
  hashing, hashing-ReadsHashes, hashing-IsEventCodec, in_memory_node, rocks_db_node, message_of,
  of_first, of_second, same_messages,
}

service_stores_example :
    (is_some (stored_after scheme hashing in_memory_node of_first event_a (from 2)) ≡ true) ↔ (
      (is_some (stored_before scheme hashing in_memory_node event_a (from 2)) ≡ true)
      ⊎ HasProof scheme hashing authorities event_a (from 2) (messages of_first))
unfolding CryptoTypePublicPair-discrete ℕ_discrete
service_stores_example =
    service_stores scheme hashing hashing-ReadsHashes authorities-DistinctValidators (omega arith)
      in_memory_node of_first event_a (from 2) refl refl

after-IsSound_example :
    IsSound scheme authorities stored (after scheme hashing in_memory_node of_first).event_proofs
after-IsSound_example =
    after-IsSound scheme hashing hashing-ReadsHashes authorities-DistinctValidators (omega arith)
      in_memory_node of_first new-IsSound

nodes_converge_example :
    (is_some (stored_after scheme hashing in_memory_node of_first event_a (from 2))
      ≡ is_some (stored_after scheme hashing rocks_db_node of_second event_a (from 2)))
    × (witnesses stored
          (after scheme hashing in_memory_node of_first).event_proofs
          authorities.authorities
          event_a
        ≡ witnesses rocks_db_node.stored
            (after scheme hashing rocks_db_node of_second).event_proofs
            authorities.authorities
            event_a)
unfolding CryptoTypePublicPair-discrete ℕ_discrete new
nodes_converge_example =
    nodes_converge scheme hashing hashing-ReadsHashes authorities-DistinctValidators (omega arith)
      in_memory_node rocks_db_node of_first of_second (Quot.sound same_messages) (λ id pk h v. refl)
      event_a refl (from 2) refl

abbrev witnesser : Witnesser Cache ℕ
witnesser = record {
  block_state = empty_cache;
  gossip = record { connected = true; capacity = 64; orders = [] };
}

published :
    ((witness_event from client lru keystore hashing event_a witnesser).0 ≡ ok tt)
    × ((witness_event from client lru keystore hashing event_a witnesser).1.gossip
        ≡ publish witnessed_events_topic (message_of 1) witnesser.gossip)
published =
    witness_event_succeeds from client lru keystore hashing scheme peek lru-IsLruCache witnesser
      empty_cache-IsCoherent authorities refl event_a (from 1) (from 2 ∷ from 3 ∷ []) (1 ∷ event_a)
      (message_of 1) refl refl refl

served :
    ((serve (event_witnesser from client lru keystore hashing) event_a witnesser).0 ≡ ok tt)
    × ((serve (event_witnesser from client lru keystore hashing) event_a witnesser).1
        ≡ (witness_event from client lru keystore hashing event_a witnesser).1)
served =
    witness_event-served (event_witnesser from client lru keystore hashing) event_a witnesser refl
      published.0

request_arrives_example :
    (pk : CryptoTypePublicPair) × (is_validator authorities.authorities pk ≡ true)
    × (is_some (stored_after scheme hashing rocks_db_node of_second event_a pk) ≡ true)
unfolding publish Bytes-discrete ℕ_discrete
request_arrives_example =
    request_arrives from client lru keystore hashing scheme hashing-ReadsHashes hashing-IsEventCodec
      authorities-DistinctValidators (omega arith) peek lru-IsLruCache witnesser
      empty_cache-IsCoherent refl keystore-IsKeystore refl event_a rocks_db_node of_second
      (message_of 1) served.0 (ap (λ v. v.gossip.orders) served.1 ∙ ap (λ c. c.orders) published.1)
      refl

abbrev at_first : Importing in_memory_node (event_a ∷ [])
at_first = record {
  Rest = Unit;
  Check = Unit;
  Parent = ℕ;
  ImportResult = ℕ;
  next = counting;
  importer = importer;
  block = block;
  extrinsics = block_extrinsics;
  coherent = empty_cache-IsCoherent;
  parent = refl;
  body = refl;
  known = known_events;
}

abbrev at_second : Importing rocks_db_node (event_a ∷ [])
at_second = record {
  Rest = Unit;
  Check = Unit;
  Parent = ℕ;
  ImportResult = ℕ;
  next = counting;
  importer = record importer { parent_block_import = 5 };
  block = block;
  extrinsics = block_extrinsics;
  coherent = empty_cache-IsCoherent;
  parent = refl;
  body = refl;
  known = known_events;
}

blocks_agree_example :
    (imported scheme hashing in_memory_node at_first of_first
      ≡ decided in_memory_node at_first
          (is_witnessed scheme hashing in_memory_node of_first (event_a ∷ [])))
    × (imported scheme hashing rocks_db_node at_second of_second
        ≡ decided rocks_db_node at_second
            (is_witnessed scheme hashing in_memory_node of_first (event_a ∷ [])))
unfolding new CryptoTypePublicPair-discrete ℕ_discrete
blocks_agree_example =
    blocks_agree scheme hashing hashing-ReadsHashes authorities-DistinctValidators (omega arith)
      in_memory_node rocks_db_node of_first of_second (Quot.sound same_messages) (λ id pk h v. refl)
      (event_a ∷ []) at_first at_second (refl, tt)
