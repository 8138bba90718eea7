-- ===== src/ChainSpec/Genesis.antt =====
-- The genesis of a test chain (node/src/chain_spec.rs).
use validated_streams.Base.{
  ℕ, suc, sym, ◌+◌, ◌*◌, ◌^◌, ◌<◌, ◌≡◌, refl, ap, ◌∙◌, List, [], ◌∷◌, Option, some, String, length,
  map, traverse, arith, Option-cases, inl, inr,
}
use validated_streams.ChainSpec.{
  GenesisConfig, KeyDerivation, testnet_genesis, genesis_of, authority_keys_from_seed,
  get_account_id_from_seed,
}
use validated_streams.Primitives.{Bytes}

-- What all accounts together are given.
abbrev total_issuance : {A : Type 0} → List (A × ℕ) → ℕ
total_issuance [] = 0
total_issuance ((_, n) ∷ l) = n + total_issuance l

length-map : {A B : Type 0} (f : A → B) (l : List A) → length (map f l) ≡ length l
length-map f [] = refl
length-map f (x ∷ l) = ap (λ n. suc n) (length-map f l)

issuance-map :
    {A : Type 0} (l : List A) → total_issuance (map (λ k. (k, 2 ^ 60)) l) ≡ length l * 2 ^ 60
issuance-map [] = omega arith
issuance-map (k ∷ l) = omega (arith, issuance-map l)

length-traverse :
    {A B : Type 0} (f : A → Option B) (l : List A) (r : List B)
    → traverse f l ≡ some r
    → length r ≡ length l
length-traverse f [] r h = ground (arith, h)
length-traverse f (x ∷ l) r h = elim (Option-cases (f x)) [
  | inl bad ↦ absurd (ground (arith, h, bad))
  | inr (y, good) ↦ elim (Option-cases (traverse f l)) [
    | inl bad ↦ absurd (ground (arith, h, good, bad))
    | inr (ys, rest) ↦
        let same : y ∷ ys ≡ r = ground (arith, h, good, rest) in
        ap length (sym same) ∙ ap (λ n. suc n) (length-traverse f l ys rest)
  ]
]

module _ {AuraId GrandpaId AccountId : Type 0} (K : KeyDerivation AuraId GrandpaId AccountId)
    (wasm_binary : Bytes) (authorities accounts : List String) (root : String) where
  abbrev Genesis : Type 0
  Genesis = GenesisConfig AuraId GrandpaId AccountId

  -- A genesis is made of derived keys, as many as seeds.
  record IsDerived (g : Genesis) : Type 0 where
    keys : List (AuraId × GrandpaId)
    many_keys : length keys ≡ length authorities
    endowed : List AccountId
    many_endowed : length endowed ≡ length accounts
    root_key : AccountId
    made : testnet_genesis K wasm_binary keys root_key endowed ≡ g

  derived :
      (g : Genesis) → genesis_of K wasm_binary authorities root accounts ≡ some g → IsDerived g
  unfolding genesis_of
  derived g h = elim (Option-cases (traverse (authority_keys_from_seed K) authorities)) [
    | inl bad ↦ absurd (ground (arith, h, bad))
    | inr (keys, all_keys) ↦ elim (Option-cases (get_account_id_from_seed K root)) [
      | inl bad ↦ absurd (ground (arith, h, all_keys, bad))
      | inr (root_key, good) ↦
          elim (Option-cases (traverse (get_account_id_from_seed K) accounts)) [
            | inl bad ↦ absurd (ground (arith, h, all_keys, good, bad))
            | inr (endowed, all_endowed) ↦ record {
              keys = keys;
              many_keys = length-traverse (authority_keys_from_seed K) authorities keys all_keys;
              endowed = endowed;
              many_endowed =
                  length-traverse (get_account_id_from_seed K) accounts endowed all_endowed;
              root_key = root_key;
              made = ground (arith, h, all_keys, good, all_endowed);
            }
          ]
    ]
  ]

  -- A genesis from fewer than 2^68 accounts has one key of either kind for each authority, and
  -- what it gives out is a balance of 128 bits.
  genesis_of_lem :
      (g : Genesis)
      → genesis_of K wasm_binary authorities root accounts ≡ some g
      → length accounts < 2 ^ 68
      → (length g.aura_authorities ≡ length authorities)
        × (length g.grandpa_authorities ≡ length authorities)
        × (total_issuance g.balances < 2 ^ 128)
  unfolding testnet_genesis
  genesis_of_lem g h few =
      let d = derived g h in
      rw (← d.made) (
        length-map (λ x. x.0) d.keys ∙ d.many_keys,
        length-map (λ x. (x.1, 1)) d.keys ∙ d.many_keys,
        omega (arith, issuance-map d.endowed, d.many_endowed),
      )
