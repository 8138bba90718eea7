-- ===== src/Benchmarking.antt =====
-- node/src/benchmarking.rs: the signed extrinsics that the benchmark commands send, over the client,
-- the keys, the encoding and the eras of Substrate.
pub mod Signed
use validated_streams.Base.{
  ℕ, zero, suc, ◌*◌, ◌/◌, [], Option, none, some, String, Result, ok, err, leb, if◌then◌else◌,
}
use validated_streams.Primitives.{Bytes, H256}
use validated_streams.Runtime.{block_hash_count, spec_version, transaction_version}

-- `u32::checked_next_power_of_two`: the first of the powers from `p` on that reaches `n`.
pub next_power : ℕ → ℕ → ℕ → Option ℕ
next_power zero p n = none
next_power (suc k) p n = let rest = next_power k (p * 2) n in if leb n p then some p else rest

unfoldable pub checked_next_power_of_two : ℕ → Option ℕ
checked_next_power_of_two n = next_power 32 1 n

unfoldable pub period : ℕ
period = elim (checked_next_power_of_two block_hash_count) [ some c ↦ c / 2 | none ↦ 2 ]

-- What `chain_info` tells of the best block.
pub record ChainInfo : Type 0 where
  pub best_hash : H256
  pub best_number : ℕ

-- `FullClient`, whose chain may grow from one call to the next
pub record FullClient (Env : Type 0) : Type 0 where
  pub block_hash : ℕ → Env → Result String (Option H256) × Env
  pub chain_info : Env → ChainInfo × Env

-- `sp_core::sr25519::Pair`
pub record Pair : Type 0 where
  pub public : Bytes
  pub sign : Bytes → Bytes

-- `runtime::SignedExtra`: the era, the nonce and the tip; its other five parts are empty.
pub record SignedExtra (Era : Type 0) : Type 0 where
  pub check_era : Era
  pub check_nonce : ℕ
  pub charge_transaction_payment : ℕ

-- What is signed besides, without its empty parts.
pub record AdditionalSigned : Type 0 where
  pub check_spec_version : ℕ
  pub check_tx_version : ℕ
  pub check_genesis : H256
  pub check_era : H256

-- `runtime::SignedPayload`
pub record SignedPayload (RuntimeCall Era : Type 0) : Type 0 where
  pub call : RuntimeCall
  pub extra : SignedExtra Era
  pub additional_signed : AdditionalSigned

-- `runtime::UncheckedExtrinsic` with a signature
pub record UncheckedExtrinsic (RuntimeCall Era : Type 0) : Type 0 where
  pub function : RuntimeCall
  pub signed : Bytes
  pub signature : Bytes
  pub extra : SignedExtra Era

-- `frame_benchmarking_cli::ExtrinsicBuilder`; `build` is `none` if it panics.
pub record ExtrinsicBuilder (Env Opaque : Type 0) : Type 0 where
  pub pallet : String
  pub extrinsic : String
  pub build : ℕ → Env → Option (Result String Opaque) × Env

-- `SystemCall::remark` and `BalancesCall::transfer_keep_alive`
pub data BenchmarkCall : Type 0 where
  remark : Bytes → BenchmarkCall
  transfer_keep_alive : Bytes → ℕ → BenchmarkCall

module _ {Env Era : Type 0} (mortal : ℕ → ℕ → Era) where
  -- `using_encoded` on the payload is the parameter `encode`.
  unfoldable pub create_benchmark_extrinsic :
      {RuntimeCall : Type 0}
      → (SignedPayload RuntimeCall Era → Bytes)
      → FullClient Env
      → Pair
      → RuntimeCall
      → ℕ
      → Env
      → Option (UncheckedExtrinsic RuntimeCall Era) × Env
  create_benchmark_extrinsic {RuntimeCall} encode client sender call nonce s =
      let (genesis, s1) = client.block_hash 0 s in
      elim genesis [
        | err _ ↦ (none, s1)
        | ok none ↦ (none, s1)
        | ok (some genesis_hash) ↦
            let (at_hash, s2) = client.chain_info s1 in
            let (at_number, s3) = client.chain_info s2 in
            let extra : SignedExtra Era = record {
              check_era = mortal period at_number.best_number;
              check_nonce = nonce;
              charge_transaction_payment = 0;
            } in
            let raw_payload : SignedPayload RuntimeCall Era = record {
              call = call;
              extra = extra;
              additional_signed = record {
                check_spec_version = spec_version;
                check_tx_version = transaction_version;
                check_genesis = genesis_hash;
                check_era = at_hash.best_hash;
              };
            } in
            (
              some (record {
                function = call;
                signed = sender.public;
                signature = sender.sign (encode raw_payload);
                extra = extra;
              }),
              s3,
            )
      ]

  module _ {RuntimeCall Opaque : Type 0} (encode : SignedPayload RuntimeCall Era → Bytes)
      (into : BenchmarkCall → RuntimeCall)
      (into_opaque : UncheckedExtrinsic RuntimeCall Era → Opaque) (client : FullClient Env)
      (bob : Pair) where
    unfoldable pub build_call : BenchmarkCall → ℕ → Env → Option (Result String Opaque) × Env
    build_call call nonce s =
        let (x, s') = create_benchmark_extrinsic encode client bob (into call) nonce s in
        elim x [ none ↦ (none, s') | some extrinsic ↦ (some (ok (into_opaque extrinsic)), s') ]

    -- `RemarkBuilder`
    unfoldable pub remark_builder : ExtrinsicBuilder Env Opaque
    remark_builder = record {
      pallet = "system";
      extrinsic = "remark";
      build = build_call (remark []);
    }

    -- `TransferKeepAliveBuilder`
    unfoldable pub transfer_keep_alive_builder : Bytes → ℕ → ExtrinsicBuilder Env Opaque
    transfer_keep_alive_builder dest value = record {
      pallet = "balances";
      extrinsic = "transfer_keep_alive";
      build = build_call (transfer_keep_alive dest value);
    }
