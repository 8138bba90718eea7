-- ===== src/Submission.antt =====
-- From the gossip of consensus/src/events/gossip.rs to the pallet of pallet/src/lib.rs, with proofs
-- kept on the chain: the runtime of runtime/src/lib.rs makes the extrinsic that the handler submits.
use validated_streams.Base.{
  ℕ, ◌^◌, ◌≤◌, ◌<◌, ◌≡◌, refl, sym, ap, ◌∙◌, true, false, List, [], ◌∷◌, Option, count-cong,
  count-le-length, Bool-cases, le→leb, inl, inr, none, some, is_some, ok, length, leb, arith,
  if◌then◌else◌,
}
use validated_streams.Base.HashMap.{HashMap, get, DistinctKeys, retain_keys}
use validated_streams.Events.{AuthoritiesList, target}
use validated_streams.Events.Cache.{IsCoherent, runtime_authorities}
use validated_streams.Events.Gossip.{
  Node, handle_witnessed_event, submit_if_enough, submit_event_extrinsic, proofs_to_submit,
  convert_proofs,
}
use validated_streams.Events.Gossip.Sound.{IsSound, after_purge-IsSound}
use validated_streams.Events.Gossip.Steps.{
  after_purge, after_count, handle_accepted, purge-IsUsable,
}
use validated_streams.Events.Origin.{IsSignedByAuthority}
use validated_streams.Events.Validity.{witnesses}
use validated_streams.Interfaces.{Sr25519, Public, Client, LruCache, IsLruCache, TxPool}
use validated_streams.Pallet.{ProofsMap, Storage, record_event, is_event_valid}
use validated_streams.Pallet.OnChain.{validate_event}
use validated_streams.Pallet.OnChain.Submitted.{IsRawKeys, accepts-converted}
use validated_streams.Pallet.Unsigned as Unsigned
use validated_streams.Primitives.{
  Bytes, H256, IsH256, CryptoTypePublicPair, CryptoTypePublicPair-discrete, WitnessedEvent,
}
use validated_streams.Proofs.{EventProofs}
use validated_streams.Proofs.Contract.{IsEventProofs, DistinctValidators, is_validator}
use validated_streams.Proofs.InMemory.Count.{length-retain_keys}
use validated_streams.Runtime.{
  Extrinsic, validated_streams_call, create_unsigned_extrinsic, vs_max_authorities,
}

abbrev HasValidators : List CryptoTypePublicPair → HashMap CryptoTypePublicPair Bytes → Type 0
HasValidators vs m =
    (k : CryptoTypePublicPair)
    → is_some (get CryptoTypePublicPair-discrete m k) ≡ true
    → is_validator vs k ≡ true

retain_keys-validators :
    (m : HashMap CryptoTypePublicPair Bytes) (vs : List CryptoTypePublicPair)
    → HasValidators vs m
    → retain_keys (is_validator vs) m ≡ m
retain_keys-validators [] vs h = refl
retain_keys-validators ((k, v) ∷ m) vs h =
    let rest = retain_keys-validators m vs (λ j there. h j (ground (arith, there))) in
    ground (arith, h k (ground arith), rest)

-- The runtime makes a call with all of the proofs of a bounded map.
function-bounded :
    (event_id : H256) (proofs : ProofsMap)
    → length proofs ≤ vs_max_authorities
    → (create_unsigned_extrinsic event_id (some proofs)).function
      ≡ validated_streams_call (Unsigned.validate_event event_id (some proofs))
unfolding create_unsigned_extrinsic
function-bounded event_id proofs h = ground (arith, le→leb (length proofs) vs_max_authorities h)

module _ {AuthorityId Cache State Pool : Type 0} (from : AuthorityId → CryptoTypePublicPair)
    (client : Client AuthorityId Extrinsic) (L : LruCache AuthoritiesList Cache)
    (P : EventProofs State) (T : TxPool Extrinsic Pool) (S : Sr25519) where
  -- Submitting with enough proofs, all of which can be decoded.
  submit-enough :
      (l : AuthoritiesList) (id : H256) (c : ℕ) (n : Node Cache State Pool)
      (m : HashMap CryptoTypePublicPair Bytes) (proofs : ProofsMap)
      → leb (target l) c ≡ true
      → P.get_event_proofs id l.authorities n.event_proofs ≡ ok m
      → convert_proofs S (some m) ≡ ok (some proofs)
      → client.create_unsigned_extrinsic client.best_hash id (some proofs)
        ≡ ok (create_unsigned_extrinsic id (some proofs))
      → (submit_if_enough from client L P T S false l id c n).1.tx_pool
        ≡ (T.submit_local client.best_hash (create_unsigned_extrinsic id (some proofs)) n.tx_pool).1
  unfolding submit_if_enough submit_event_extrinsic proofs_to_submit
  submit-enough l id c n m proofs enough read converts runtime =
      ground (arith, enough, read, converts, runtime)

  module _ (peek : Cache → H256 → Option AuthoritiesList) (lru : IsLruCache L peek)
      (e : WitnessedEvent) (n : Node Cache State Pool)
      (coherent : IsCoherent from client L peek n.block_state) (l : AuthoritiesList)
      (finalized : runtime_authorities from client L peek client.finalized_hash ≡ ok l)
      (IsUsable : State → Type 0) (stored : State → H256 → CryptoTypePublicPair → Option Bytes)
      (lawful : IsEventProofs P IsUsable stored) (usable : IsUsable n.event_proofs)
      (signed : IsSignedByAuthority S l e) (hash : IsH256 e.event_id)
      (distinct : DistinctValidators l.authorities)
      (few : length l.authorities ≤ vs_max_authorities) where
    abbrev below : length l.authorities < 2 ^ 16
    below = omega (arith, few)

    -- the store that the handler counts, and the count
    abbrev pub counted : State
    counted = after_purge P e l n.event_proofs

    abbrev pub count_of : ℕ
    count_of = witnesses stored counted l.authorities e.event_id

    abbrev of_event : CryptoTypePublicPair → Bytes → WitnessedEvent
    of_event k v = record { signature = v; pub_key = k; event_id = e.event_id }

    -- The map of proofs that the store returns has no key twice, as its type says.
    abbrev pub ReadsMap : Type 0
    ReadsMap =
        (m : HashMap CryptoTypePublicPair Bytes)
        → P.get_event_proofs e.event_id l.authorities counted ≡ ok m
        → DistinctKeys CryptoTypePublicPair-discrete m

    -- The runtime's answer is that of `create_unsigned_extrinsic`.
    abbrev pub MakesExtrinsics : Type 0
    MakesExtrinsics =
        (proofs : ProofsMap)
        → client.create_unsigned_extrinsic client.best_hash e.event_id (some proofs)
          ≡ ok (create_unsigned_extrinsic e.event_id (some proofs))

    -- What the handler submits, and what the pallet does with it.
    pub record IsSubmitted (authorities : List Public) (s : Storage ProofsMap) : Type 0 where
      pub proofs : ProofsMap
      pub submits :
          (handle_witnessed_event from client L P T S false e n).1.tx_pool
          ≡ (T.submit_local client.best_hash
              (create_unsigned_extrinsic e.event_id (some proofs))
              n.tx_pool).1
      pub calls :
          (create_unsigned_extrinsic e.event_id (some proofs)).function
          ≡ validated_streams_call (Unsigned.validate_event e.event_id (some proofs))
      pub records :
          validate_event S authorities e.event_id (some proofs) s
          ≡ (ok tt, record_event e.event_id proofs s)

    abbrev IsRead : HashMap CryptoTypePublicPair Bytes → Type 0
    IsRead m =
        (k : CryptoTypePublicPair)
        → get CryptoTypePublicPair-discrete m k
          ≡ (if is_validator l.authorities k then stored counted e.event_id k else none)

    -- The map that the handler reads has as many proofs as it has counted.
    read :
        (m : HashMap CryptoTypePublicPair Bytes)
        → DistinctKeys CryptoTypePublicPair-discrete m
        → IsRead m
        → length m ≡ count_of
    read m d h =
        ap length
          (sym (retain_keys-validators m l.authorities (λ k there. ground (arith, h k, there))))
        ∙ length-retain_keys CryptoTypePublicPair-discrete l.authorities m distinct d
        ∙ count-cong CryptoTypePublicPair-discrete _ _ l.authorities
            (λ k among. ground (arith, h k, among))

    IsSigned-read :
        (m : HashMap CryptoTypePublicPair Bytes)
        → IsRead m
        → IsSound S l stored n.event_proofs
        → (k : CryptoTypePublicPair) (v : Bytes) → get CryptoTypePublicPair-discrete m k ≡ some v
        → IsSignedByAuthority S l (of_event k v)
    IsSigned-read m has sound k v there = elim (Bool-cases (is_validator l.authorities k)) [
      | inl known ↦
          after_purge-IsSound S l P IsUsable stored lawful e n.event_proofs usable hash signed sound
            e.event_id k v hash known (ground (arith, has k, known, there))
      | inr unknown ↦ absurd (ground (arith, has k, unknown, there))
    ]

    -- Let proofs be kept on the chain, an authority of the latest finalized block have signed the
    -- event, the store be lawful and have of authorities only their valid signatures, the cache be
    -- coherent, and the authorities be distinct and at most 32, with the pallet's being their keys.
    -- If as many as the target then have their proofs in the store, the handler submits an
    -- extrinsic that calls `validate_event` of the event, whether or not this proof was there
    -- already, and at any storage in which the event is not yet recorded the pallet accepts that
    -- call and records the event with its proofs.
    pub handle_witnessed_event-IsSubmitted :
        (authorities : List Public) (s : Storage ProofsMap)
        → IsRawKeys S l authorities
        → ReadsMap
        → IsSound S l stored n.event_proofs
        → MakesExtrinsics
        → target l ≤ count_of
        → is_event_valid e.event_id s ≡ false
        → IsSubmitted authorities s
    handle_witnessed_event-IsSubmitted authorities s raw maps sound runtime enough new =
        let (m, found, has) = lawful.proofs_ok e.event_id l.authorities counted hash (
          purge-IsUsable from client L P T S peek lru false e n coherent l finalized IsUsable stored
            lawful usable signed hash distinct below) in
        let d = maps m found in
        let many = read m d has in
        let most = count-le-length (λ k. is_some (stored counted e.event_id k)) l.authorities in
        let (proofs, good) =
          accepts-converted S l authorities raw e.event_id m s d (IsSigned-read m has sound)
            (omega (arith, many, most, few)) (omega (arith, many, enough)) new in
        record {
          proofs = proofs;
          submits =
              ap (λ r. r.1.tx_pool)
                (handle_accepted from client L P T S peek lru false e n coherent l finalized
                  IsUsable stored lawful usable signed hash distinct below)
              ∙ submit-enough l e.event_id count_of
                  (after_count from client L P T S peek lru false e n coherent l finalized IsUsable
                    stored lawful usable signed hash distinct below)
                  m proofs (le→leb (target l) count_of enough) found good.converts (runtime proofs);
          calls = function-bounded e.event_id proofs (omega (arith, good.as_many, many, most, few));
          records = good.records;
        }
