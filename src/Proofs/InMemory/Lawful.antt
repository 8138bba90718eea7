-- ===== src/Proofs/InMemory/Lawful.antt =====
-- The in-memory store fulfils the contract of `EventProofsTrait`.
use validated_streams.Base.{
  ◌≡◌, ◌≢◌, refl, ap, ◌%◌, ◌^◌, List, true, false, none, is_some, ok, if_pos, if_neg, if◌then◌else◌,
  arith, count,
}
use validated_streams.Base.HashMap.{
  HashMap, get, get-retain_keys, retain_keys, retain_keys-DistinctKeys,
}
use validated_streams.Primitives.{
  Bytes, Bytes-discrete, H256, CryptoTypePublicPair, CryptoTypePublicPair-discrete,
}
use validated_streams.Proofs.{default_get_event_proof_count}
use validated_streams.Proofs.Contract.{IsEventProofs, IsExact, is_validator, DistinctValidators}
use validated_streams.Proofs.InMemory.{
  InMemoryEventProofs, witnesses_of, get_event_proofs, purge_event_stale_signatures, in_memory,
}
use validated_streams.Proofs.InMemory.Count.{length-retain_keys}
use validated_streams.Proofs.InMemory.Stored.{
  stored, IsUsable, add_event_proof-IsUsable, stored-add_event_proof, add_event_proof-some,
  purge-witnesses_of,
}

module _ (id : H256) (vs : List CryptoTypePublicPair) (s : InMemoryEventProofs)
    (u : IsUsable s) where
  get_event_proofs_lem :
      (m : HashMap CryptoTypePublicPair Bytes) × (get_event_proofs id vs s ≡ ok m)
      × ((pk : CryptoTypePublicPair)
          → get CryptoTypePublicPair-discrete m pk
            ≡ (if is_validator vs pk then stored s id pk else none))
  unfolding get_event_proofs
  get_event_proofs_lem = (
    retain_keys (is_validator vs) (witnesses_of s.proofs id),
    rw (u.healthy),
    get-retain_keys CryptoTypePublicPair-discrete (is_validator vs) (witnesses_of s.proofs id),
  )

  get_event_proof_count_lem :
      DistinctValidators vs
      → default_get_event_proof_count get_event_proofs id vs s
        ≡ ok (count (λ pk. is_some (stored s id pk)) vs % 2 ^ 16)
  unfolding get_event_proofs
  get_event_proof_count_lem d = rw (u.healthy) (
      ap (λ n. ok (n % 2 ^ 16))
        (length-retain_keys CryptoTypePublicPair-discrete vs (witnesses_of s.proofs id) d
          (u.distinct id)))

  purge-ok : (purge_event_stale_signatures id vs s).0 ≡ ok tt
  unfolding purge_event_stale_signatures
  purge-ok = ground (arith, u.healthy)

  purge-healthy : (purge_event_stale_signatures id vs s).1.poisoned ≡ false
  unfolding purge_event_stale_signatures
  purge-healthy = ground (arith, u.healthy)

  purge-IsUsable : IsUsable (purge_event_stale_signatures id vs s).1
  purge-IsUsable = record {
    healthy = purge-healthy;
    distinct = λ j. rw (purge-witnesses_of s u id vs j) (elim (Bytes-discrete id j) [
      | yes same ↦ rw (if_pos _ same) (
          retain_keys-DistinctKeys CryptoTypePublicPair-discrete (is_validator vs)
            (witnesses_of s.proofs id) (u.distinct id))
      | no other ↦ rw (if_neg _ other) (u.distinct j)
    ]);
  }

  purge-keeps :
      (j : H256) (pk : CryptoTypePublicPair)
      → is_validator vs pk ≡ true
      → stored (purge_event_stale_signatures id vs s).1 j pk ≡ stored s j pk
  purge-keeps j pk v = rw (purge-witnesses_of s u id vs j) (elim (Bytes-discrete id j) [
    | yes same ↦ rw (if_pos _ same) (
        rw (
          get-retain_keys CryptoTypePublicPair-discrete (is_validator vs) (witnesses_of s.proofs id)
              pk,
          v,
          same,
        ))
    | no other ↦ rw (if_neg _ other)
  ])

  purge-drops :
      (pk : CryptoTypePublicPair)
      → is_validator vs pk ≡ false
      → stored (purge_event_stale_signatures id vs s).1 id pk ≡ none
  purge-drops pk v =
      rw (purge-witnesses_of s u id vs id, if_pos (Bytes-discrete id id) refl)
        (rw (
          get-retain_keys CryptoTypePublicPair-discrete (is_validator vs) (witnesses_of s.proofs id)
              pk,
          v,
        ))

  purge-others :
      (j : H256) (pk : CryptoTypePublicPair)
      → id ≢ j
      → stored (purge_event_stale_signatures id vs s).1 j pk ≡ stored s j pk
  purge-others j pk other =
      rw (purge-witnesses_of s u id vs j, if_neg (Bytes-discrete id j) other) refl

pub in_memory-IsEventProofs : IsEventProofs in_memory IsUsable stored
unfolding in_memory
in_memory-IsEventProofs = record {
  add_ok = λ e s h u. add_event_proof-IsUsable s u e;
  add_stored = λ e s id pk h k u. stored-add_event_proof s u e id pk;
  add_reads = λ e s id pk v h k u there. add_event_proof-some s u e id pk v there;
  proofs_ok = λ id vs s h u. get_event_proofs_lem id vs s u;
  count_ok = λ id vs s h d u. get_event_proof_count_lem id vs s u d;
  purge_ok = λ id vs s h u. (purge-ok id vs s u, purge-IsUsable id vs s u);
  purge_keeps = λ id vs s j pk h k u v. purge-keeps id vs s u j pk v;
  purge_drops = λ id vs s pk h u v. purge-drops id vs s u pk v;
}

-- Let the lock be takeable and no signer be listed twice. Then the store keeps what the trait
-- promises: proofs are added one at a time, are read back for the validators given, are counted
-- once for each distinct validator, and purging drops exactly the proofs of the event given by
-- others than the validators, and none of another event.
pub in_memory-IsExact : IsExact in_memory IsUsable stored
unfolding in_memory
in_memory-IsExact = record {
  lawful = in_memory-IsEventProofs;
  purge_others = λ id vs s j pk h k u other. purge-others id vs s u j pk other;
}
