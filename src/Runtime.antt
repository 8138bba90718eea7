-- ===== src/Runtime.antt =====
-- runtime/src/lib.rs: the runtime API of Validated Streams, and the constants of the chain.
pub mod Ids
use validated_streams.Base.{
  ℕ, ◌*◌, ◌/◌, ◌≤◌, List, [], ◌∷◌, Option, none, some, length, leb, if◌then◌else◌,
}
use validated_streams.Base.HashMap.{HashMap}
use validated_streams.Interfaces.{Public, Signature}
use validated_streams.Pallet.{ProofsMap}
use validated_streams.Pallet.Unsigned.{Call, validate_event, other}
use validated_streams.Primitives.{Bytes, H256}

-- `RuntimeCall`: the calls of the pallet, and those of all others.
pub data RuntimeCall : Type 0 where
  validated_streams_call : Call → RuntimeCall
  another_pallet : Bytes → RuntimeCall

-- `UncheckedExtrinsic`
pub record Extrinsic : Type 0 where
  pub signature : Option Bytes
  pub function : RuntimeCall

-- `VSMaxAuthorities`
abbrev pub vs_max_authorities : ℕ
vs_max_authorities = 32

unfoldable pub get_extrinsic_ids : List Extrinsic → List H256
get_extrinsic_ids [] = []
get_extrinsic_ids (extrinsic ∷ extrinsics) =
    let ids = get_extrinsic_ids extrinsics in
    elim (extrinsic.function) [
      | validated_streams_call (validate_event event_id _) ↦ event_id ∷ ids
      | _ ↦ ids
    ]

-- `try_into().ok()` into the bounded map
abbrev pub try_into_bounded : HashMap Public Signature → Option ProofsMap
try_into_bounded m = if leb (length m) vs_max_authorities then some m else none

unfoldable pub create_unsigned_extrinsic : H256 → Option (HashMap Public Signature) → Extrinsic
create_unsigned_extrinsic event_id event_proofs = record {
  signature = none;
  function =
      validated_streams_call
        (validate_event event_id (elim event_proofs [ none ↦ none | some m ↦ try_into_bounded m ]));
}

abbrev pub millisecs_per_block : ℕ
millisecs_per_block = 6000

abbrev pub slot_duration : ℕ
slot_duration = millisecs_per_block

abbrev pub minutes : ℕ
minutes = 60000 / millisecs_per_block

abbrev pub hours : ℕ
hours = minutes * 60

abbrev pub days : ℕ
days = hours * 24

-- `BlockHashCount`, and the versions of `VERSION`
abbrev pub block_hash_count : ℕ
block_hash_count = 2400

abbrev pub spec_version : ℕ
spec_version = 100

abbrev pub transaction_version : ℕ
transaction_version = 1
