-- ===== src/Runtime/Ids.antt =====
-- The runtime reads back the events of the extrinsics that it creates.
use validated_streams.Base.{◌≡◌, refl, List, [], ◌∷◌, ◌++◌, Option, arith}
use validated_streams.Base.HashMap.{HashMap}
use validated_streams.Interfaces.{Public, Signature}
use validated_streams.Primitives.{H256}
use validated_streams.Runtime.{Extrinsic, get_extrinsic_ids, create_unsigned_extrinsic}

-- Extrinsics that hold the given one at some place.
abbrev pub around : List Extrinsic → Extrinsic → List Extrinsic → List Extrinsic
around before x after = before ++ x ∷ after

get_extrinsic_ids-append :
    (xs ys : List Extrinsic)
    → get_extrinsic_ids (xs ++ ys) ≡ get_extrinsic_ids xs ++ get_extrinsic_ids ys
unfolding get_extrinsic_ids
get_extrinsic_ids-append [] ys = refl
get_extrinsic_ids-append (x ∷ xs) ys = ground (arith, get_extrinsic_ids-append xs ys)

-- Whatever the proofs, the event of a created extrinsic is read back at the place of the
-- extrinsic among the others of a block.
pub get_extrinsic_ids-create :
    (before after : List Extrinsic) (event_id : H256) (proofs : Option (HashMap Public Signature))
    → get_extrinsic_ids (around before (create_unsigned_extrinsic event_id proofs) after)
      ≡ get_extrinsic_ids before ++ event_id ∷ get_extrinsic_ids after
unfolding get_extrinsic_ids create_unsigned_extrinsic
get_extrinsic_ids-create before after event_id proofs =
    get_extrinsic_ids-append before (create_unsigned_extrinsic event_id proofs ∷ after)
