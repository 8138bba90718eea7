-- ===== src/Proofs/Offchain/Lawful.antt =====
-- The off-chain store fulfils the contract of `EventProofsTrait` when no other task disturbs it.
use validated_streams.Base.{
  ◌%◌, ◌^◌, ◌≡◌, ◌≢◌, ◌⊎◌, sym, ap, ◌∙◌, List, [], ◌∷◌, ◌++◌, true, false, Option, none, some,
  is_some, ok, count, retain, if_neg, arith, Bool-cases, Option-cases, inl, inr, if◌then◌else◌,
}
use validated_streams.Base.HashMap.{HashMap, get}
use validated_streams.Primitives.{
  Bytes, Bytes-discrete, H256, IsH256, CryptoTypePublicPair, CryptoTypePublicPair-discrete,
  WitnessedEvent, Bincode,
}
use validated_streams.Proofs.{as_error}
use validated_streams.Proofs.Contract.{IsEventProofs, IsExact, is_of, is_validator}
use validated_streams.Proofs.Offchain.{
  OffchainStorage, signers, get_event_proofs, get_event_proof_count, off_chain,
}
use validated_streams.Proofs.Offchain.Calls.{
  contains-append, stored, IsListed, IsUsable, Leaves, add_run, kept_by, purge_run,
  collect_proofs_lem, proofs_of_lem, count-map,
}
use validated_streams.Proofs.Offchain.Retain.{
  contains-retain, retained-keeps, retained-none, retained-drops,
}
use validated_streams.Proofs.Offchain.Storage.{IsOffchainStorage, IsListCodec, apart}
use validated_streams.Proofs.RocksDb.Keys.{IsKeyCodec, key_of, key_of_injective, ite-key_of}

module _ {Db : Type 0} (O : OffchainStorage Db) (B : Bincode) (view : Db → Bytes → Option Bytes)
    (lawful : IsOffchainStorage O view) (lists : IsListCodec B) (codec : IsKeyCodec B)
    (nonempty : (pk : CryptoTypePublicPair) → (codec pk).0 ≢ []) where
  abbrev Usable : Db → Type 0
  Usable = IsUsable O B view lawful lists codec nonempty

  abbrev proof : Db → H256 → CryptoTypePublicPair → Option Bytes
  proof = stored O B view lawful lists codec nonempty

  module _ (e : WitnessedEvent) (db : Db) (h : IsH256 e.event_id) (u : Usable db) where
    abbrev added : Db
    added = ((off_chain O B).add_event_proof e db).1

    view-added :
        (id : H256) (pk : CryptoTypePublicPair)
        → IsH256 id
        → proof added id pk ≡ (if is_of e id pk then some e.signature else proof db id pk)
    view-added id pk k =
        (add_run O B view lawful lists codec nonempty e db h u).others (key_of B codec id pk)
          (apart B codec nonempty e.event_id id pk h k)
        ∙ ite-key_of B codec e id pk (some e.signature) (proof db id pk) h k

    added-reads :
        (id : H256) (pk : CryptoTypePublicPair) (v : Bytes)
        → IsH256 id
        → proof added id pk ≡ some v
        → ((is_of e id pk ≡ true) × (v ≡ e.signature)) ⊎ (proof db id pk ≡ some v)
    added-reads id pk v k there = elim (Bool-cases (is_of e id pk)) [
      | inl here ↦ inl (here, ground (arith, view-added id pk k, there, here))
      | inr not_here ↦ inr (ground (arith, view-added id pk k, there, not_here))
    ]

    -- The event's list has its new signer, and the lists of others are as they were.
    added-IsListed :
        (id : H256) → IsH256 id → IsListed O B view lawful lists codec nonempty id added
    added-IsListed id k =
        let run = add_run O B view lawful lists codec nonempty e db h u in
        elim (Bytes-discrete e.event_id id) [
          | yes same ↦ rw (← same) (record {
            list = (u e.event_id h).list ++ e.pub_key ∷ [];
            reads = run.new_list;
            covers = λ pk v there. ground (
              arith,
              contains-append (u e.event_id h).list e.pub_key pk,
              view-added e.event_id pk h,
              there,
              (u e.event_id h).covers pk v,
            );
          })
          | no differ ↦ record {
            list = (u id k).list;
            reads =
                ap (signers O B) (
                  run.others id differ
                  ∙ if_neg (Bytes-discrete (key_of B codec e.event_id e.pub_key) id)
                      (λ same. apart B codec nonempty id e.event_id e.pub_key k h (sym same)) _ _)
                ∙ (u id k).reads;
            covers = λ pk v there.
                (u id k).covers pk v (ground (arith, view-added id pk k, there, differ));
          }
        ]

  module _ (id : H256) (vs : List CryptoTypePublicPair) (db : Db) (h : IsH256 id)
      (u : Usable db) where
    abbrev purged : Db
    purged = ((off_chain O B).purge_event_stale_signatures id vs db).1

    abbrev run_of :
        Leaves O B view lawful lists codec nonempty id
          (retain (is_validator vs) (u id h).list)
          (view (kept_by O B view lawful lists codec nonempty id vs (u id h).list db))
          ((off_chain O B).purge_event_stale_signatures id vs db)
    run_of = purge_run O B view lawful lists codec nonempty id vs db h u

    -- A proof that is not one of this event by a stranger stays.
    purged-keeps :
        (j : H256) (pk : CryptoTypePublicPair)
        → IsH256 j
        → ((p : CryptoTypePublicPair) → is_validator vs p ≡ false → (id ≡ j) → p ≢ pk)
        → proof purged j pk ≡ proof db j pk
    purged-keeps j pk k other =
        run_of.others (key_of B codec j pk) (apart B codec nonempty id j pk h k)
        ∙ retained-keeps O B view lawful codec id vs (u id h).list db (key_of B codec j pk)
            (λ p stale same.
              let (event, signer) = key_of_injective B codec id j p pk h k same in
              other p stale event signer)

    purged-drops :
        (pk : CryptoTypePublicPair) → is_validator vs pk ≡ false → proof purged id pk ≡ none
    purged-drops pk stale =
        run_of.others (key_of B codec id pk) (apart B codec nonempty id id pk h h)
        ∙ elim (Option-cases (proof db id pk)) [
          | inl free ↦
              retained-none O B view lawful codec id vs (u id h).list db (key_of B codec id pk) free
          | inr (v, there) ↦
              retained-drops O B view lawful codec id vs (u id h).list db pk stale
                ((u id h).covers pk v there)
        ]

    stays :
        (j : H256) (pk : CryptoTypePublicPair)
        → IsH256 j
        → is_validator vs pk ≡ true
        → proof purged j pk ≡ proof db j pk
    stays j pk k valid = purged-keeps j pk k (λ p stale event signer. cc)

    purged-IsListed : (j : H256) → IsH256 j → IsListed O B view lawful lists codec nonempty j purged
    purged-IsListed j k = elim (Bytes-discrete id j) [
      | yes same ↦ rw (← same) (record {
        list = retain (is_validator vs) (u id h).list;
        reads = run_of.new_list;
        covers = λ pk v there. elim (Bool-cases (is_validator vs pk)) [
          | inr stale ↦ absurd (cc (purged-drops pk stale, there))
          | inl valid ↦
              contains-retain (is_validator vs) (u id h).list pk valid
              ∙ (u id h).covers pk v (sym (stays id pk h valid) ∙ there)
        ];
      })
      | no differ ↦ record {
        list = (u j k).list;
        reads =
            ap (signers O B) (
              run_of.others j differ
              ∙ retained-keeps O B view lawful codec id vs (u id h).list db j
                  (λ p stale same. apart B codec nonempty j id p k h (sym same)))
            ∙ (u j k).reads;
        covers = λ pk v there.
            (u j k).covers pk v
              (sym (purged-keeps j pk k (λ p stale event signer. differ event)) ∙ there);
      }
    ]

  module _ (id : H256) (vs : List CryptoTypePublicPair) (db : Db) where
    get_event_proofs_lem :
        (m : HashMap CryptoTypePublicPair Bytes) × (as_error (get_event_proofs O B id vs db) ≡ ok m)
        × ((pk : CryptoTypePublicPair)
            → get CryptoTypePublicPair-discrete m pk
              ≡ (if is_validator vs pk then proof db id pk else none))
    unfolding get_event_proofs
    get_event_proofs_lem =
        let (m, done, reads) =
          collect_proofs_lem O B view lawful lists codec nonempty id db vs [] in
        (m, rw done, λ pk. ground (arith, reads pk))

    get_event_proof_count_lem :
        as_error (get_event_proof_count O B id vs db)
        ≡ ok (count (λ pk. is_some (proof db id pk)) vs % 2 ^ 16)
    unfolding get_event_proof_count
    get_event_proof_count_lem = rw (
      proofs_of_lem O B view lawful lists codec nonempty id db vs,
      count-map O B view lawful lists codec nonempty (proof db id) vs,
    )

  pub off_chain-IsEventProofs : IsEventProofs (off_chain O B) Usable proof
  unfolding off_chain
  off_chain-IsEventProofs = record {
    add_ok = λ e db h u.
        ((add_run O B view lawful lists codec nonempty e db h u).returns, added-IsListed e db h u);
    add_stored = λ e db id pk h k u. ground (arith, view-added e db h u id pk k);
    add_reads = λ e db id pk v h k u there. added-reads e db h u id pk v k there;
    proofs_ok = λ id vs db h u. get_event_proofs_lem id vs db;
    count_ok = λ id vs db h d u. get_event_proof_count_lem id vs db;
    purge_ok = λ id vs db h u. ((run_of id vs db h u).returns, purged-IsListed id vs db h u);
    purge_keeps = λ id vs db j pk h k u v. stays id vs db h u j pk k v;
    purge_drops = λ id vs db pk h u v. purged-drops id vs db h u pk v;
  }

  -- When no other task disturbs its calls, and the list of each event's signers can be read and
  -- has all those whose proofs are stored, the off-chain store keeps what `EventProofsTrait`
  -- promises, and purging an event leaves the proofs of the others, if public keys and lists of
  -- them serialize and read back, no key as nothing.
  pub off_chain-IsExact : IsExact (off_chain O B) Usable proof
  unfolding off_chain
  off_chain-IsExact = record {
    lawful = off_chain-IsEventProofs;
    purge_others = λ id vs db j pk h k u other.
        purged-keeps id vs db h u j pk k (λ p stale event signer. other event);
  }
