-- ===== src/Tests/Blocks.antt =====
-- A block on the small network, and an import for it.
use validated_streams.Base.{ℕ, ◌≡◌, refl, List, [], ◌∷◌, none, some, ok, ◌+◌}
use validated_streams.BlockImport.{BlockImportParams, ParentImport, Importer}
use validated_streams.Runtime.{Extrinsic, get_extrinsic_ids, create_unsigned_extrinsic}
use validated_streams.Tests.{event_a, genesis, client, Cache, empty_cache}

-- A next import that counts the blocks, and a block with one event in it.
abbrev pub counting : ParentImport Extrinsic Unit Unit ℕ ℕ
counting = record { check = λ c n. (ok n, n); import = λ b n. (ok n, n + 1) }

abbrev pub block_extrinsics : List Extrinsic
block_extrinsics = create_unsigned_extrinsic event_a none ∷ []

abbrev pub block : BlockImportParams Extrinsic Unit
block = record { parent_hash = genesis; body = some block_extrinsics; rest = tt }

abbrev pub importer : Importer Cache ℕ
importer = record { parent_block_import = 0; block_state = empty_cache }

pub known_events : client.get_extrinsic_ids genesis block_extrinsics ≡ ok (event_a ∷ [])
unfolding get_extrinsic_ids create_unsigned_extrinsic
known_events = refl
