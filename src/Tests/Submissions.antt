-- ===== src/Tests/Submissions.antt =====
-- The third proof of an event, with proofs kept on the chain.
use validated_streams.Base.{
  ℕ, ◌≤◌, ◌≡◌, ◌⊎◌, inl, inr, refl, subst, true, contains, List, [], ◌∷◌, some, ok, arith,
  ℕ_discrete,
}
use validated_streams.Base.HashMap.{HashMap, DistinctKeys}
use validated_streams.Events.{target}
use validated_streams.Events.Validity.{witnesses}
use validated_streams.Events.Gossip.Sound.{IsSound, add-IsSound}
use validated_streams.Events.Gossip.Steps.{after_purge}
use validated_streams.Events.Origin.{IsSignedByAuthority}
use validated_streams.Interfaces.{Public}
use validated_streams.Pallet.{ProofsMap, Storage, is_event_valid}
use validated_streams.Pallet.OnChain.Submitted.{IsRawKeys}
use validated_streams.Primitives.{
  Bytes, Bytes-discrete, CryptoTypePublicPair, CryptoTypePublicPair-discrete,
}
use validated_streams.Proofs.Contract.{is_validator}
use validated_streams.Proofs.InMemory.{
  InMemoryEventProofs, new, in_memory, add_event_proof, get_event_proofs,
  purge_event_stale_signatures,
}
use validated_streams.Proofs.InMemory.Lawful.{in_memory-IsEventProofs}
use validated_streams.Proofs.InMemory.Stored.{
  stored, IsUsable, new-IsUsable, add_event_proof-IsUsable,
}
use validated_streams.Submission.{IsSubmitted, handle_witnessed_event-IsSubmitted}
use validated_streams.Tests.{
  event_a, from, authorities, scheme, witnessed, client, peek, lru, lru-IsLruCache,
  empty_cache-IsCoherent, authorities-DistinctValidators, pool,
}
use validated_streams.Tests.Nodes.{
  new-IsSound, two_proofs, two_proofs-IsUsable, node, signed_by_third,
}

abbrev raw_keys : List Public
raw_keys = (1 ∷ []) ∷ (2 ∷ []) ∷ (3 ∷ []) ∷ []

one_of_three :
    (k : CryptoTypePublicPair)
    → is_validator authorities.authorities k ≡ true
    → (k ≡ from 1) ⊎ (k ≡ from 2) ⊎ (k ≡ from 3)
unfolding CryptoTypePublicPair-discrete ℕ_discrete
one_of_three k h = ground arith

known :
    (k : CryptoTypePublicPair) (pubkey : Public)
    → is_validator authorities.authorities k ≡ true
    → scheme.public_from_slice k.key ≡ some pubkey
    → contains Bytes-discrete raw_keys pubkey ≡ true
unfolding Bytes-discrete ℕ_discrete
known k pubkey h same = elim (one_of_three k h) [
  | inl e ↦ ground (arith, e, same)
  | inr (inl e) ↦ ground (arith, e, same)
  | inr (inr e) ↦ ground (arith, e, same)
]

key_of :
    (k : CryptoTypePublicPair)
    → is_validator authorities.authorities k ≡ true
    → k ≡ record { crypto_type = b's' ∷ b'r' ∷ []; key = k.key }
key_of k h = elim (one_of_three k h) [
  | inl e ↦ cc (e)
  | inr (inl e) ↦ cc (e)
  | inr (inr e) ↦ cc (e)
]

raw_keys-IsRawKeys : IsRawKeys scheme authorities raw_keys
raw_keys-IsRawKeys = record {
  as_many = refl;
  known = known;
  different = λ j k pubkey a b c d. cc (key_of j a, key_of k b, c, d);
}

abbrev counted : InMemoryEventProofs
counted = after_purge in_memory (witnessed 3 event_a) authorities two_proofs

all_stored :
    (stored counted event_a (from 1) ≡ some (1 ∷ event_a))
    × (stored counted event_a (from 2) ≡ some (2 ∷ event_a))
    × (stored counted event_a (from 3) ≡ some (3 ∷ event_a))
unfolding in_memory new add_event_proof purge_event_stale_signatures CryptoTypePublicPair-discrete
    Bytes-discrete ℕ_discrete
all_stored = (refl, refl, refl)

abbrev signatures : HashMap CryptoTypePublicPair Bytes
signatures = (from 1, 1 ∷ event_a) ∷ (from 2, 2 ∷ event_a) ∷ (from 3, 3 ∷ event_a) ∷ []

all_read : in_memory.get_event_proofs event_a authorities.authorities counted ≡ ok signatures
unfolding in_memory new add_event_proof get_event_proofs purge_event_stale_signatures
    CryptoTypePublicPair-discrete Bytes-discrete ℕ_discrete
all_read = refl

signatures-DistinctKeys : DistinctKeys CryptoTypePublicPair-discrete signatures
unfolding CryptoTypePublicPair-discrete ℕ_discrete
signatures-DistinctKeys = (refl, (refl, (refl, tt)))

reads_map :
    (m : HashMap CryptoTypePublicPair Bytes)
    → in_memory.get_event_proofs event_a authorities.authorities counted ≡ ok m
    → DistinctKeys CryptoTypePublicPair-discrete m
reads_map m h =
    let same : signatures ≡ m = cc (all_read, h) in
    subst (DistinctKeys CryptoTypePublicPair-discrete) same signatures-DistinctKeys

signed_by :
    (n : ℕ)
    → is_validator authorities.authorities (from n) ≡ true
    → IsSignedByAuthority scheme authorities (witnessed n event_a)
unfolding Bytes-discrete ℕ_discrete
signed_by n known = record {
  known = known;
  pubkey = n ∷ [];
  pubkey_of = refl;
  signature = n ∷ event_a;
  signature_of = refl;
  verifies = ground arith;
}

one_proof-IsUsable : IsUsable (add_event_proof (witnessed 1 event_a) new).1
one_proof-IsUsable = (add_event_proof-IsUsable new new-IsUsable (witnessed 1 event_a)).1

one_proof-IsSound : IsSound scheme authorities stored (add_event_proof (witnessed 1 event_a) new).1
unfolding in_memory CryptoTypePublicPair-discrete ℕ_discrete
one_proof-IsSound =
    add-IsSound scheme authorities in_memory IsUsable stored in_memory-IsEventProofs
      (witnessed 1 event_a) new new-IsUsable refl (signed_by 1 refl) new-IsSound

two_proofs-IsSound : IsSound scheme authorities stored two_proofs
unfolding in_memory CryptoTypePublicPair-discrete ℕ_discrete
two_proofs-IsSound =
    add-IsSound scheme authorities in_memory IsUsable stored in_memory-IsEventProofs
      (witnessed 2 event_a) (add_event_proof (witnessed 1 event_a) new).1 one_proof-IsUsable refl
      (signed_by 2 refl) one_proof-IsSound

enough : target authorities ≤ witnesses stored counted authorities.authorities event_a
unfolding target
enough = rw (all_stored.0, all_stored.1, all_stored.2) (omega arith)

abbrev empty : Storage ProofsMap
empty = record { streams = []; events = [] }

handle_witnessed_event-IsSubmitted_example :
    IsSubmitted from client lru in_memory pool scheme peek lru-IsLruCache
      (witnessed 3 event_a)
      node
      empty_cache-IsCoherent
      authorities
      refl
      IsUsable
      stored
      in_memory-IsEventProofs
      two_proofs-IsUsable
      signed_by_third
      refl
      authorities-DistinctValidators
      (omega arith)
      raw_keys
      empty
unfolding is_event_valid
handle_witnessed_event-IsSubmitted_example =
    handle_witnessed_event-IsSubmitted from client lru in_memory pool scheme peek lru-IsLruCache
      (witnessed 3 event_a) node empty_cache-IsCoherent authorities refl IsUsable stored
      in_memory-IsEventProofs two_proofs-IsUsable signed_by_third refl
      authorities-DistinctValidators (omega arith) raw_keys empty raw_keys-IsRawKeys reads_map
      two_proofs-IsSound (λ proofs. refl) enough refl
