-- ===== src/Benchmarking/Signed.antt =====
-- What the signature of a benchmark's extrinsic covers.
use validated_streams.Base.{ℕ, ◌+◌, ◌^◌, ◌≤◌, ◌<◌, ◌≡◌, refl, sym, subst, true, some, ok, arith}
use validated_streams.Benchmarking.{
  next_power, checked_next_power_of_two, period, FullClient, Pair, SignedExtra, SignedPayload,
  UncheckedExtrinsic, create_benchmark_extrinsic,
}
use validated_streams.Interfaces.{Sr25519}
use validated_streams.Primitives.{Bytes, H256}
use validated_streams.Runtime.{spec_version, transaction_version}

-- `Era::birth` of `Era::mortal`: with a power of two up to 2^12 as its period, the era of a block
-- holds it and those after it, as many as the period, and starts with it.
pub record IsMortal {Era : Type 0} (mortal : ℕ → ℕ → Era) (birth : Era → ℕ → ℕ) : Type 0 where
  pub starts :
      (k current block : ℕ)
      → 2 ≤ k
      → k ≤ 12
      → current ≤ block
      → block < current + 2 ^ k
      → birth (mortal (2 ^ k) current) block ≡ current

-- What the key signs is verified by its public key.
abbrev pub IsPair : Sr25519 → Pair → Type 0
IsPair S pair = (message : Bytes) → S.verify pair.public message (pair.sign message) ≡ true

period_lem : period ≡ 2 ^ 11
unfolding period checked_next_power_of_two next_power
period_lem = refl

module _ {Era RuntimeCall : Type 0} where
  -- The payload whose hashes are those of the genesis and of the block that starts the era.
  abbrev payload_at : RuntimeCall → SignedExtra Era → (ℕ → H256) → ℕ → SignedPayload RuntimeCall Era
  payload_at call extra hash_at start = record {
    call = call;
    extra = extra;
    additional_signed = record {
      check_spec_version = spec_version;
      check_tx_version = transaction_version;
      check_genesis = hash_at 0;
      check_era = hash_at start;
    };
  }

module _ {Era RuntimeCall : Type 0} (mortal : ℕ → ℕ → Era) (birth : Era → ℕ → ℕ)
    (eras : IsMortal mortal birth) (S : Sr25519)
    (encode : SignedPayload RuntimeCall Era → Bytes) where
  -- The payload that a block of a chain with these hashes asks for.
  abbrev pub demanded :
      (ℕ → H256) → ℕ → UncheckedExtrinsic RuntimeCall Era → SignedPayload RuntimeCall Era
  demanded hash_at block x = payload_at x.function x.extra hash_at (birth x.extra.check_era block)

  -- The extrinsic of a call by a sender, whose signature holds on the chain in the 2048 blocks from
  -- `best` on.
  pub record IsAccepted (sender : Pair) (call : RuntimeCall) (nonce best : ℕ) (hash_at : ℕ → H256)
      (x : UncheckedExtrinsic RuntimeCall Era) : Type 0 where
    pub of_call : x.function ≡ call
    pub by_sender : x.signed ≡ sender.public
    pub has_nonce : x.extra.check_nonce ≡ nonce
    pub holds :
        (block : ℕ)
        → best ≤ block
        → block < best + 2048
        → S.verify x.signed (encode (demanded hash_at block x)) x.signature ≡ true

  birth-mortal :
      (best block : ℕ)
      → best ≤ block
      → block < best + 2048
      → birth (mortal period best) block ≡ best
  birth-mortal best block from until =
      subst (λ p. birth (mortal p best) block ≡ best) (sym period_lem)
        (eras.starts 11 best block (omega arith) (omega arith) from until)

  -- Let a client's calls succeed, the best block not change between the two that ask for it, and
  -- the chain have the hashes that they tell. Then `create_benchmark_extrinsic` returns an
  -- extrinsic of the call by the sender with the nonce, and its signature is that of the payload
  -- which any of the 2048 blocks from the best one on asks for.
  pub create_benchmark_extrinsic_lem :
      {Env : Type 0} (client : FullClient Env) (sender : Pair) (call : RuntimeCall) (nonce : ℕ)
      (hash_at : ℕ → H256) (best : ℕ) (s s1 s2 s3 : Env)
      → IsPair S sender
      → client.block_hash 0 s ≡ (ok (some (hash_at 0)), s1)
      → client.chain_info s1 ≡ (record { best_hash = hash_at best; best_number = best }, s2)
      → client.chain_info s2 ≡ (record { best_hash = hash_at best; best_number = best }, s3)
      → (x : UncheckedExtrinsic RuntimeCall Era) × (create_benchmark_extrinsic mortal encode client
            sender call nonce s
          ≡ (some x, s3))
        × IsAccepted sender call nonce best hash_at x
  unfolding create_benchmark_extrinsic
  create_benchmark_extrinsic_lem client sender call nonce hash_at best s s1 s2 s3 pair genesis first
        second =
      let extra : SignedExtra Era = record {
        check_era = mortal period best;
        check_nonce = nonce;
        charge_transaction_payment = 0;
      } in
      let signature = sender.sign (encode (payload_at call extra hash_at best)) in
      (
        record { function = call; signed = sender.public; signature = signature; extra = extra },
        ground (arith, genesis, first, second),
        record {
          of_call = refl;
          by_sender = refl;
          has_nonce = refl;
          holds = λ block from until.
              subst
                (λ start.
                  S.verify sender.public (encode (payload_at call extra hash_at start)) signature
                  ≡ true)
                (sym (birth-mortal best block from until))
                (pair (encode (payload_at call extra hash_at best)));
        },
      )
