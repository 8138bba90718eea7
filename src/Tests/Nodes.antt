-- ===== src/Tests/Nodes.antt =====
-- A node of the small network handles gossiped events, witnesses one and imports a block.
use validated_streams.Base.{
  ℕ, ◌*◌, ◌<◌, ◌≡◌, ◌≢◌, refl, Bool, true, List, [], ◌∷◌, none, is_some, String, Result, err, leb,
  if◌then◌else◌, arith, ℕ_discrete,
}
use validated_streams.Errors.{Failure, fails, bad_witnessed_event_signature}
use validated_streams.Events.{
  target, verify_witnessed_event_origin, get_authorities_list, get_latest_authorities_list,
}
use validated_streams.Events.Gossip.{
  Node, handle_witnessed_event, submit_if_enough, submit_event_extrinsic, proofs_to_submit,
  convert_proofs, pool_answer,
}
use validated_streams.Events.Gossip.Quorum.{handle_submits_at_target, handle_needs_quorum}
use validated_streams.Events.Gossip.Steps.{handle_refused}
use validated_streams.Events.Gossip.Sound.{IsSound}
use validated_streams.Events.Origin.{IsSignedByAuthority}
use validated_streams.Events.Validity.{witnesses}
use validated_streams.Primitives.{Bytes-discrete, CryptoTypePublicPair-discrete}
use validated_streams.Proofs.Contract.{is_of}
use validated_streams.Proofs.InMemory.{
  InMemoryEventProofs, new, in_memory, add_event_proof, get_event_proofs,
  purge_event_stale_signatures,
}
use validated_streams.Proofs.InMemory.Stored.{
  stored, IsUsable, new-IsUsable, add_event_proof-IsUsable,
}
use validated_streams.Proofs.InMemory.Lawful.{in_memory-IsEventProofs}
use validated_streams.Runtime.{Extrinsic, create_unsigned_extrinsic}
use validated_streams.Tests.{
  event_a, genesis, from, authorities, scheme, witnessed, client, Cache, peek, lru, lru-IsLruCache,
  empty_cache, empty_cache-IsCoherent, authorities-DistinctValidators, pool,
}

abbrev pub State : Type 0
State = Node Cache InMemoryEventProofs (List Extrinsic)

-- A store that holds nothing holds no forgery.
pub new-IsSound : IsSound scheme authorities stored new
unfolding new
new-IsSound id k v h known there = absurd (cc (there))

-- Two of the three authorities have witnessed the event.
abbrev pub two_proofs : InMemoryEventProofs
two_proofs = (add_event_proof (witnessed 2 event_a) (add_event_proof (witnessed 1 event_a) new).1).1

pub two_proofs-IsUsable : IsUsable two_proofs
two_proofs-IsUsable =
    (add_event_proof-IsUsable (add_event_proof (witnessed 1 event_a) new).1
      (add_event_proof-IsUsable new new-IsUsable (witnessed 1 event_a)).1 (witnessed 2 event_a)).1

abbrev pub node : State
node = record { block_state = empty_cache; event_proofs = two_proofs; tx_pool = [] }

pub signed_by_third : IsSignedByAuthority scheme authorities (witnessed 3 event_a)
unfolding CryptoTypePublicPair-discrete Bytes-discrete ℕ_discrete
signed_by_third = record {
  known = refl;
  pubkey = 3 ∷ [];
  pubkey_of = refl;
  signature = 3 ∷ event_a;
  signature_of = refl;
  verifies = refl;
}

-- The handler as the node runs it.
abbrev handled : Bool → ℕ → Result Failure Bool × State
handled off_chain n =
    handle_witnessed_event from client lru in_memory pool scheme off_chain (witnessed n event_a)
      node

handle_submits_at_target_example :
    ((handled true 3).1.tx_pool ≡ (
      if leb
        (target authorities)
        (witnesses stored (handled true 3).1.event_proofs authorities.authorities event_a)
      then create_unsigned_extrinsic event_a none ∷ []
      else []))
    × (is_some (stored (handled true 3).1.event_proofs event_a (from 1)) ≡ (
        if is_of (witnessed 3 event_a) event_a (from 1)
        then true
        else is_some (stored two_proofs event_a (from 1))))
unfolding CryptoTypePublicPair-discrete ℕ_discrete
handle_submits_at_target_example =
    handle_submits_at_target from client lru in_memory pool scheme peek lru-IsLruCache
      (witnessed 3 event_a) node empty_cache-IsCoherent authorities refl IsUsable stored
      in_memory-IsEventProofs two_proofs-IsUsable signed_by_third refl
      authorities-DistinctValidators (omega arith) (create_unsigned_extrinsic event_a none) event_a
      (from 1) refl refl refl

-- The third proof brings the event into the pool.
submitted : (handled true 3).1.tx_pool ≡ create_unsigned_extrinsic event_a none ∷ []
unfolding handle_witnessed_event submit_if_enough submit_event_extrinsic proofs_to_submit
    convert_proofs pool_answer verify_witnessed_event_origin get_authorities_list
    get_latest_authorities_list target in_memory new add_event_proof get_event_proofs
    purge_event_stale_signatures CryptoTypePublicPair-discrete Bytes-discrete ℕ_discrete
submitted = refl

submitted_changed : (handled true 3).1.tx_pool ≢ []
submitted_changed same = cc (submitted, same)

handle_needs_quorum_example :
    3 * 2 < 3 * witnesses stored (handled true 3).1.event_proofs authorities.authorities event_a
handle_needs_quorum_example =
    handle_needs_quorum from client lru in_memory pool scheme peek lru-IsLruCache
      (witnessed 3 event_a) node empty_cache-IsCoherent authorities refl IsUsable stored
      in_memory-IsEventProofs two_proofs-IsUsable signed_by_third refl
      authorities-DistinctValidators (omega arith) true submitted_changed

-- The fourth key is no authority's.
stranger : ¬ IsSignedByAuthority scheme authorities (witnessed 4 event_a)
unfolding CryptoTypePublicPair-discrete Bytes-discrete ℕ_discrete
stranger w = absurd (ground (arith, w.known))

handle_refused_example :
    (reason : String) × (handled true 4 ≡ (
      err (fails (bad_witnessed_event_signature reason)),
      record node { block_state = (get_authorities_list from client lru genesis empty_cache).1 },
    ))
handle_refused_example =
    handle_refused from client lru in_memory pool scheme peek lru-IsLruCache true
      (witnessed 4 event_a) node empty_cache-IsCoherent authorities refl stranger
