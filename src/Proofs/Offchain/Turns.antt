-- ===== src/Proofs/Offchain/Turns.antt =====
-- The compare-and-set loop of `add_event_proof`, disturbed by other tasks.
use validated_streams.Base.{
  ◌≡◌, ◌≢◌, ◌⊎◌, refl, sym, subst, ap, ◌∙◌, List, [], ◌∷◌, ◌++◌, Bool, true, false, Option, none,
  some, Result, ok, All, if_pos, if_neg, arith, inl, inr,
}
use validated_streams.Base.Action.{Action}
use validated_streams.Errors.{Failure}
use validated_streams.Primitives.{
  Bytes, Bytes-discrete, H256, IsH256, CryptoTypePublicPair, WitnessedEvent, Bincode,
}
use validated_streams.Proofs.Offchain.{
  OffchainStorage, offchain_prefix, retry, signers, swap, add_turn, add_event_proof,
}
use validated_streams.Proofs.Offchain.Storage.{IsOffchainStorage, IsListCodec, apart}
use validated_streams.Proofs.RocksDb.Keys.{IsKeyCodec}

bytes_discrete : (a b : Option Bytes) → (a ≡ b) ⊎ (a ≢ b)
bytes_discrete none none = inl refl
bytes_discrete none (some b) = inr (λ e. cc)
bytes_discrete (some a) none = inr (λ e. cc)
bytes_discrete (some a) (some b) = elim (Bytes-discrete a b) [
  | yes e ↦ inl (ap some e)
  | no ne ↦ inr (λ e. ne cc)
]

module _ {Db : Type 0} (turn : (Db → Db) → Action Failure Db Bool) (f : Db → Db)
    (fs : List (Db → Db)) (db d : Db) where
  pub retry-done : turn f db ≡ (ok true, d) → retry turn (f ∷ fs) db ≡ (some (ok tt), d)
  retry-done h = ground (arith, h)

  pub retry-again : turn f db ≡ (ok false, d) → retry turn (f ∷ fs) db ≡ retry turn fs d
  retry-again h = ground (arith, h)

module _ {Db : Type 0} (O : OffchainStorage Db) (B : Bincode) (view : Db → Bytes → Option Bytes)
    (lawful : IsOffchainStorage O view) (lists : IsListCodec B) where
  -- The list of signers of an event, as stored.
  abbrev pub signers_of : H256 → Db → Result Failure (List CryptoTypePublicPair)
  signers_of id db = signers O B (view db id)

  pub signers-some : (l : List CryptoTypePublicPair) → signers O B (some (lists l).0) ≡ ok l
  unfolding signers
  signers-some l = let (b, _, read) = lists l in rw read

  -- The end of a turn: it fails if the others changed the entry, and then changes nothing itself.
  pub swap_lem :
      (id : H256) (l : List CryptoTypePublicPair) (others : Db → Db) (db now : Db)
      → ((after : Db) × (swap O B id (view db id) l others now ≡ (ok true, after))
          × (view (others now) id ≡ view db id)
          × (signers_of id after ≡ ok l)
          × ((j : Bytes) → id ≢ j → view after j ≡ view (others now) j))
        ⊎ ((view (others now) id ≢ view db id)
            × (swap O B id (view db id) l others now ≡ (ok false, others now)))
  unfolding swap
  swap_lem id l others db now =
      let (b, written, _) = lists l in
      elim (bytes_discrete (view (others now) id) (view db id)) [
        | inl same ↦ inl (
          (O.compare_and_set offchain_prefix id (view db id) b (others now)).1,
          ground (arith, written, lawful.swaps id (view db id) b (others now) same),
          same,
          ap (signers O B) (
                lawful.view-swap id (view db id) b (others now) id same
                ∙ if_pos (Bytes-discrete id id) refl _ _)
              ∙ signers-some l,
          λ j ne.
              lawful.view-swap id (view db id) b (others now) j same
              ∙ if_neg (Bytes-discrete id j) ne _ _,
        )
        | inr differ ↦
            inr
              (differ, ground (arith, written, lawful.keeps id (view db id) b (others now) differ))
      ]

  module _ (e : WitnessedEvent) where
    add_turn-swap :
        (l : List CryptoTypePublicPair) (others : Db → Db) (db : Db)
        → signers_of e.event_id db ≡ ok l
        → add_turn O B e others db
          ≡ swap O B e.event_id (view db e.event_id) (l ++ e.pub_key ∷ []) others db
    unfolding add_turn
    add_turn-swap l others db read = ground (arith, lawful.get_reads e.event_id db, read)

    -- A turn of `add_event_proof` either adds the signer to the list that is there at that moment,
    -- and changes nothing else; or the others changed the list in the meantime, and the turn
    -- leaves what they did.
    pub add_turn_lem :
        (l : List CryptoTypePublicPair) (others : Db → Db) (db : Db)
        → signers_of e.event_id db ≡ ok l
        → ((after : Db) × (add_turn O B e others db ≡ (ok true, after))
            × (view (others db) e.event_id ≡ view db e.event_id)
            × (signers_of e.event_id after ≡ ok (l ++ e.pub_key ∷ []))
            × ((j : Bytes) → e.event_id ≢ j → view after j ≡ view (others db) j))
          ⊎ ((view (others db) e.event_id ≢ view db e.event_id)
              × (add_turn O B e others db ≡ (ok false, others db)))
    add_turn_lem l others db read =
        rw (add_turn-swap l others db read) (swap_lem e.event_id (l ++ e.pub_key ∷ []) others db db)

    pub add_event_proof-retry :
        (b : Bytes) (turns : List (Db → Db)) (db : Db)
        → B.serialize_key e.pub_key ≡ ok b
        → add_event_proof O B turns e db
          ≡ retry (add_turn O B e) turns (O.set offchain_prefix (e.event_id ++ b) e.signature db)
    unfolding add_event_proof
    add_event_proof-retry b turns db h = ground (arith, h)

    -- What all of the others do in some turns, one after the other.
    abbrev pub after_turns : List (Db → Db) → Db → Db
    after_turns [] db = db
    after_turns (f ∷ fs) db = after_turns fs (f db)

    -- The proof is set, and the loop has not begun.
    abbrev pub with_proof : Db → Bytes → Db
    with_proof db b = O.set offchain_prefix (e.event_id ++ b) e.signature db

    module _ (IsGood : List CryptoTypePublicPair → Type 0) where
      -- The list of signers can be read and has the property.
      abbrev pub IsReadable : Db → Type 0
      IsReadable db = (l : List CryptoTypePublicPair) × (signers_of e.event_id db ≡ ok l) × IsGood l

      -- What other tasks do keeps it so.
      abbrev pub KeepsReadable : (Db → Db) → Type 0
      KeepsReadable others = (db : Db) → IsReadable db → IsReadable (others db)

      -- The loop, begun at `db`, has ended in one of the turns. All that the others have done up to
      -- then is there: the signer stands after the list that they left, and no other entry has
      -- changed since.
      pub record IsAdded (turns : List (Db → Db)) (db : Db)
          (r : Option (Result Failure (Unit {0})) × Db) : Type 0 where
        pub past : List (Db → Db)
        pub future : List (Db → Db)
        pub in_turns : turns ≡ past ++ future
        pub returns : r.0 ≡ some (ok tt)
        pub left : List CryptoTypePublicPair
        pub reads_left : signers_of e.event_id (after_turns past db) ≡ ok left
        pub good : IsGood left
        pub adds : signers_of e.event_id r.1 ≡ ok (left ++ e.pub_key ∷ [])
        pub keeps_others : (j : Bytes) → e.event_id ≢ j → view r.1 j ≡ view (after_turns past db) j

      -- The first turn ends the loop.
      ends :
          (l : List CryptoTypePublicPair) (f : Db → Db) (fs : List (Db → Db)) (db new : Db)
          → IsGood l
          → signers_of e.event_id db ≡ ok l
          → add_turn O B e f db ≡ (ok true, new)
          → view (f db) e.event_id ≡ view db e.event_id
          → signers_of e.event_id new ≡ ok (l ++ e.pub_key ∷ [])
          → ((j : Bytes) → e.event_id ≢ j → view new j ≡ view (f db) j)
          → IsAdded (f ∷ fs) db (retry (add_turn O B e) (f ∷ fs) db)
      ends l f fs db new good read done same added others =
          subst (IsAdded (f ∷ fs) db) (sym (retry-done (add_turn O B e) f fs db new done)) (record {
            past = f ∷ [];
            future = fs;
            in_turns = refl;
            returns = refl;
            left = l;
            reads_left = ap (signers O B) same ∙ read;
            good = good;
            adds = added;
            keeps_others = others;
          })

      later :
          (f : Db → Db) (fs : List (Db → Db)) (db : Db)
          → add_turn O B e f db ≡ (ok false, f db)
          → IsAdded fs (f db) (retry (add_turn O B e) fs (f db))
          → IsAdded (f ∷ fs) db (retry (add_turn O B e) (f ∷ fs) db)
      later f fs db failed a =
          subst (IsAdded (f ∷ fs) db) (sym (retry-again (add_turn O B e) f fs db (f db) failed))
            (record {
              past = f ∷ a.past;
              future = a.future;
              in_turns = ap (λ gs. f ∷ gs) a.in_turns;
              returns = a.returns;
              left = a.left;
              reads_left = a.reads_left;
              good = a.good;
              adds = a.adds;
              keeps_others = a.keeps_others;
            })

      retry-before :
          (before : List (Db → Db)) (others : Db → Db) (after : List (Db → Db)) (db : Db)
          → All KeepsReadable before
          → ((d : Db) → view (others d) e.event_id ≡ view d e.event_id)
          → IsReadable db
          → IsAdded
              (before ++ others ∷ after)
              db
              (retry (add_turn O B e) (before ++ others ∷ after) db)
      retry-before [] others after db h quiet (l, read, good) =
          elim (add_turn_lem l others db read) [
            | inl (new, done, same, added, kept) ↦
                ends l others after db new good read done same added kept
            | inr (disturbed, _) ↦ absurd (disturbed (quiet db))
          ]
      retry-before (f ∷ before) others after db (h, hs) quiet (l, read, good) =
          elim (add_turn_lem l f db read) [
            | inl (new, done, same, added, kept) ↦
                ends l f (before ++ others ∷ after) db new good read done same added kept
            | inr (_, failed) ↦
                later f (before ++ others ∷ after) db failed
                  (retry-before before others after (f db) hs quiet (h db (l, read, good)))
          ]

      module _ (codec : IsKeyCodec B)
          (nonempty : (pk : CryptoTypePublicPair) → (codec pk).0 ≢ []) where
        -- Let the list of the event's signers be readable and have some property, and stay so under
        -- what other tasks do. As soon as there is a turn in which they leave the list alone,
        -- `add_event_proof` has ended without an error, in this turn or an earlier one. No update is
        -- lost: the signer is added after the list that the others left at that moment, which has
        -- the property, and every other entry is as they left it, with the proof set before.
        pub add_event_proof_lem :
            (before : List (Db → Db)) (others : Db → Db) (after : List (Db → Db)) (db : Db)
            → IsH256 e.event_id
            → All KeepsReadable before
            → ((d : Db) → view (others d) e.event_id ≡ view d e.event_id)
            → IsReadable db
            → IsAdded
                (before ++ others ∷ after)
                (with_proof db (codec e.pub_key).0)
                (add_event_proof O B (before ++ others ∷ after) e db)
        unfolding add_event_proof
        add_event_proof_lem before others after db hash h quiet (l, read, good) =
            let (b, written, _) = codec e.pub_key in
            subst (IsAdded (before ++ others ∷ after) (with_proof db b))
              (sym (add_event_proof-retry b (before ++ others ∷ after) db written))
              (retry-before before others after (with_proof db b) h quiet (
                l,
                ap (signers O B) (
                      lawful.view-set (e.event_id ++ b) e.signature db e.event_id
                      ∙ if_neg (Bytes-discrete (e.event_id ++ b) e.event_id)
                          (λ same.
                            apart B codec nonempty e.event_id e.event_id e.pub_key hash hash
                              (sym same))
                          _ _)
                    ∙ read,
                good,
              ))
