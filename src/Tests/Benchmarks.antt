-- ===== src/Tests/Benchmarks.antt =====
-- A benchmark signs an extrinsic.
use native.Mathlib.Nat.{div-eq_of_lt}
use validated_streams.Base.{
  ℕ, ◌+◌, ◌-◌, ◌*◌, ◌/◌, ◌^◌, ◌≤◌, ◌<◌, ◌≡◌, refl, [], ◌∷◌, ◌++◌, some, ok, arith, ltb,
  if◌then◌else◌,
}
use validated_streams.Benchmarking.{
  FullClient, Pair, SignedPayload, UncheckedExtrinsic, BenchmarkCall, remark,
  create_benchmark_extrinsic,
}
use validated_streams.Benchmarking.Signed.{
  IsMortal, IsPair, IsAccepted, create_benchmark_extrinsic_lem,
}
use validated_streams.Primitives.{Bytes, Bytes-discrete, H256}
use validated_streams.Tests.{scheme}

-- An era is a period and its first block.
abbrev mortal : ℕ → ℕ → ℕ × ℕ
mortal period current = (period, current)

-- The eras before it are not needed.
abbrev birth : ℕ × ℕ → ℕ → ℕ
birth (period, start) block =
    if ltb block start then 0 else start + (block - start) / period * period

within_era :
    (period current block : ℕ)
    → current ≤ block
    → block < current + period
    → birth (mortal period current) block ≡ current
within_era period current block from until =
    let first = div-eq_of_lt {n = block - current} {m = period} (omega arith) in
    ground (arith, first)

mortal-IsMortal : IsMortal mortal birth
mortal-IsMortal = record {
  starts = λ k current block low high from until. within_era (2 ^ k) current block from until;
}

abbrev hash_at : ℕ → H256
hash_at n = n ∷ []

-- The environment counts the calls.
abbrev client : FullClient ℕ
client = record {
  block_hash = λ n s. (ok (some (hash_at n)), s + 1);
  chain_info = λ s. (record { best_hash = hash_at 5000; best_number = 5000 }, s + 1);
}

abbrev bob : Pair
bob = record { public = b'b' ∷ []; sign = λ message. b'b' ∷ message }

bob-IsPair : IsPair scheme bob
unfolding Bytes-discrete
bob-IsPair message = ground arith

abbrev encode : SignedPayload BenchmarkCall (ℕ × ℕ) → Bytes
encode p = p.extra.check_nonce ∷ p.additional_signed.check_genesis ++ p.additional_signed.check_era

create_benchmark_extrinsic_lem_example :
    (x : UncheckedExtrinsic BenchmarkCall (ℕ × ℕ)) × (create_benchmark_extrinsic mortal encode
        client bob
        (remark [])
        7
        0
      ≡ (some x, 3))
    × IsAccepted mortal birth mortal-IsMortal scheme encode bob (remark []) 7 5000 hash_at x
create_benchmark_extrinsic_lem_example =
    create_benchmark_extrinsic_lem mortal birth mortal-IsMortal scheme encode client bob (remark [])
      7 hash_at 5000 0 1 2 3 bob-IsPair refl refl refl
