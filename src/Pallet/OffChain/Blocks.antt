-- ===== src/Pallet/OffChain/Blocks.antt =====
-- What is recorded, and in which block, with proofs kept off the chain.
use validated_streams.Base.{
  ℕ, ◌≡◌, refl, Bool, false, List, [], ◌∷◌, Option, none, some, contains, ite, ◌==◌, if◌then◌else◌,
  arith, Bool-cases, inl, inr,
}
use validated_streams.Base.HashMap.{
  HashMap, get, DistinctKeys, get-insert, insert, insert-DistinctKeys,
}
use validated_streams.Pallet.{ProofsMap, Storage, is_event_valid}
use validated_streams.Pallet.Log.{IsLogged, record_event-IsLogged}
use validated_streams.Pallet.OffChain.{validate_event, block_events, get_block_events}
use validated_streams.Primitives.{Bytes-discrete, H256}

-- The block that a storage map holds for an event, compared with a given one.
abbrev pub is_in_block : ℕ → Option ℕ → Bool
is_in_block bn none = false
is_in_block bn (some b) = b == bn

contains-block_events :
    (bn : ℕ) (m : HashMap H256 ℕ) (id : H256)
    → DistinctKeys Bytes-discrete m
    → contains Bytes-discrete (block_events bn m) id ≡ is_in_block bn (get Bytes-discrete m id)
unfolding block_events
contains-block_events bn [] id d = refl
contains-block_events bn ((k, b) ∷ m) id d = ground (arith, contains-block_events bn m id d.1)

-- One call to `validate_event`, in a block, of a transaction
abbrev pub Dispatch : Type 0
Dispatch = ℕ × H256 × Option ProofsMap

-- A sequence of dispatches; a failed one leaves the storage as it was.
pub run : List Dispatch → Storage ℕ → Storage ℕ
run [] s = s
run ((block, event_id, proofs) ∷ ds) s = run ds (validate_event block event_id proofs s).1

pub validate_event-IsLogged :
    (block : ℕ) (event_id : H256) (proofs : Option ProofsMap) (s : Storage ℕ)
    → IsLogged s
    → IsLogged (validate_event block event_id proofs s).1
unfolding validate_event
validate_event-IsLogged block event_id proofs s g = elim (Bool-cases (is_event_valid event_id s)) [
  | inl old ↦ rw old g
  | inr new ↦ rw new (record_event-IsLogged event_id block s new g)
]

-- Over any sequence of dispatches no event is deposited twice, and those deposited stay exactly
-- those in storage.
pub run-IsLogged : (ds : List Dispatch) (s : Storage ℕ) → IsLogged s → IsLogged (run ds s)
unfolding run
run-IsLogged [] s g = g
run-IsLogged ((block, event_id, proofs) ∷ ds) s g =
    run-IsLogged ds _ (validate_event-IsLogged block event_id proofs s g)

-- A dispatch lists its event under the current block and under no other, if it was not recorded
-- before, and changes the list of no block otherwise.
pub get_block_events-validate_event :
    (block : ℕ) (event_id : H256) (proofs : Option ProofsMap) (s : Storage ℕ) (bn : ℕ) (id : H256)
    → IsLogged s
    → contains Bytes-discrete (get_block_events bn (validate_event block event_id proofs s).1) id
      ≡ (if is_event_valid event_id s
          then contains Bytes-discrete (get_block_events bn s) id
          else ite
              (Bytes-discrete event_id id)
              (block == bn)
              (contains Bytes-discrete (get_block_events bn s) id))
unfolding validate_event get_block_events
get_block_events-validate_event block event_id proofs s bn id g = ground (
  arith,
  contains-block_events bn s.streams id g.keyed,
  contains-block_events bn (insert Bytes-discrete s.streams event_id block) id
      (insert-DistinctKeys Bytes-discrete s.streams event_id block g.keyed),
  get-insert Bytes-discrete s.streams event_id block id,
)
