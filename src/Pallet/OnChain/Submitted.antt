-- ===== src/Pallet/OnChain/Submitted.antt =====
-- The proofs that the handler of consensus/src/events/gossip.rs submits, as the pallet checks them.
use validated_streams.Base.{
  suc, ◌^◌, ◌≤◌, ◌<◌, ◌≡◌, refl, sym, subst, ap, ◌∙◌, true, false, List, [], ◌∷◌, ◌++◌, none, some,
  is_some, ok, contains, length, All, arith,
}
use validated_streams.Base.HashMap.{HashMap, get, insert, DistinctKeys}
use validated_streams.Events.{AuthoritiesList, target as node_target}
use validated_streams.Events.Gossip.{decode_proofs, collect, convert_proofs}
use validated_streams.Events.Origin.{IsSignedByAuthority}
use validated_streams.Interfaces.{Sr25519, Public, Signature}
use validated_streams.Pallet.{ProofsMap, Storage, record_event, is_event_valid}
use validated_streams.Pallet.OnChain.{target, validate_event}
use validated_streams.Pallet.OnChain.Decision.{all_known, all_verify, accepts}
use validated_streams.Primitives.{
  Bytes, Bytes-discrete, H256, CryptoTypePublicPair, CryptoTypePublicPair-discrete,
}
use validated_streams.Proofs.Contract.{is_validator}
use mathlib.Core.List.{append_assoc, append-nil}

insert-new :
    (m : HashMap Public Signature) (k : Public) (v : Signature)
    → get Bytes-discrete m k ≡ none
    → insert Bytes-discrete m k v ≡ m ++ (k, v) ∷ []
insert-new [] k v h = refl
insert-new ((j, w) ∷ m) k v h = ground (arith, insert-new m k v)

is_some-get-append :
    (m : HashMap Public Signature) (k : Public) (v : Signature) (l : HashMap Public Signature)
    → is_some (get Bytes-discrete (m ++ (k, v) ∷ l) k) ≡ true
is_some-get-append [] k v l = ground arith
is_some-get-append ((j, w) ∷ m) k v l = ground (arith, is_some-get-append m k v l)

get-append :
    (m : HashMap Public Signature) (k : Public) (v : Signature) (l : HashMap Public Signature)
    → DistinctKeys Bytes-discrete (m ++ (k, v) ∷ l)
    → get Bytes-discrete m k ≡ none
get-append [] k v l d = refl
get-append ((j, w) ∷ m) k v l d = elim (Bytes-discrete j k) [
  | yes same ↦ absurd (
      ground (
        arith,
        is_some-get-append m k v l,
        subst (λ i. get Bytes-discrete (m ++ (k, v) ∷ l) i ≡ none) same d.0,
      ))
  | no other ↦ ground (arith, get-append m k v l d.1)
]

collect-distinct :
    (acc l : HashMap Public Signature)
    → DistinctKeys Bytes-discrete (acc ++ l)
    → collect acc l ≡ acc ++ l
unfolding collect
collect-distinct acc [] d = sym (append-nil acc)
collect-distinct acc ((k, v) ∷ l) d =
    let assoc = append_assoc acc ((k, v) ∷ []) l in
    ap (λ m. collect m l) (insert-new acc k v (get-append acc k v l d))
    ∙ collect-distinct (acc ++ (k, v) ∷ []) l (subst (DistinctKeys Bytes-discrete) (sym assoc) d)
    ∙ assoc

-- The pallet's authorities are the raw keys of the node's, different ones for different
-- authorities.
pub record IsRawKeys (S : Sr25519) (l : AuthoritiesList) (authorities : List Public) : Type 0 where
  pub as_many : length authorities ≡ length l.authorities
  pub known :
      (k : CryptoTypePublicPair) (pubkey : Public)
      → is_validator l.authorities k ≡ true
      → S.public_from_slice k.key ≡ some pubkey
      → contains Bytes-discrete authorities pubkey ≡ true
  pub different :
      (j k : CryptoTypePublicPair) (pubkey : Public)
      → is_validator l.authorities j ≡ true
      → is_validator l.authorities k ≡ true
      → S.public_from_slice j.key ≡ some pubkey
      → S.public_from_slice k.key ≡ some pubkey
      → j ≡ k

module _ (S : Sr25519) (l : AuthoritiesList) (authorities : List Public)
    (raw : IsRawKeys S l authorities) (event_id : H256) where
  -- The entry is an authority's signature of the event.
  abbrev pub IsSigned : CryptoTypePublicPair × Bytes → Type 0
  IsSigned (k, v) =
      IsSignedByAuthority S l (record { signature = v; pub_key = k; event_id = event_id })

  -- What a map is decoded to.
  record IsDecoded (m : HashMap CryptoTypePublicPair Bytes) (d : ProofsMap) : Type 0 where
    decodes : decode_proofs S m ≡ some d
    as_many : length d ≡ length m
    known : all_known authorities d ≡ true
    verified : all_verify S event_id d ≡ true
    distinct : DistinctKeys Bytes-discrete d
    fresh :
        (k : CryptoTypePublicPair) (pubkey : Public)
        → is_validator l.authorities k ≡ true
        → S.public_from_slice k.key ≡ some pubkey
        → get CryptoTypePublicPair-discrete m k ≡ none
        → get Bytes-discrete d pubkey ≡ none

  decode_proofs-cons :
      (k : CryptoTypePublicPair) (v : Bytes) (m : HashMap CryptoTypePublicPair Bytes)
      (d : ProofsMap) (pubkey : Public) (signature : Signature)
      → S.public_from_slice k.key ≡ some pubkey
      → S.signature_from_slice v ≡ some signature
      → decode_proofs S m ≡ some d
      → decode_proofs S ((k, v) ∷ m) ≡ some ((pubkey, signature) ∷ d)
  unfolding decode_proofs
  decode_proofs-cons k v m d pubkey signature a b c = ground (arith, a, b, c)

  cons-fresh :
      (k : CryptoTypePublicPair) (v : Bytes) (m : HashMap CryptoTypePublicPair Bytes)
      (d : ProofsMap) (w : IsSigned (k, v)) (rest : IsDecoded m d) (j : CryptoTypePublicPair)
      (pubkey : Public)
      → is_validator l.authorities j ≡ true
      → S.public_from_slice j.key ≡ some pubkey
      → get CryptoTypePublicPair-discrete ((k, v) ∷ m) j ≡ none
      → get Bytes-discrete ((w.pubkey, w.signature) ∷ d) pubkey ≡ none
  cons-fresh k v m d w rest j pubkey a b free = elim (Bytes-discrete w.pubkey pubkey) [
    | yes same ↦
        let equal = raw.different k j pubkey w.known a (w.pubkey_of ∙ ap some same) b in
        absurd (ground (arith, equal, free))
    | no other ↦ ground (arith, rest.fresh j pubkey a b, free)
  ]

  decode-IsDecoded :
      (m : HashMap CryptoTypePublicPair Bytes)
      → DistinctKeys CryptoTypePublicPair-discrete m
      → All IsSigned m
      → (d : ProofsMap) × IsDecoded m d
  unfolding decode_proofs
  decode-IsDecoded [] distinct signed = (
    [],
    record {
      decodes = refl;
      as_many = refl;
      known = refl;
      verified = refl;
      distinct = tt;
      fresh = λ k pubkey a b c. refl;
    },
  )
  decode-IsDecoded ((k, v) ∷ m) distinct signed =
      let w = signed.0 in
      let (d, rest) = decode-IsDecoded m distinct.1 signed.1 in
      (
        (w.pubkey, w.signature) ∷ d,
        record {
          decodes =
              decode_proofs-cons k v m d w.pubkey w.signature w.pubkey_of w.signature_of
                rest.decodes;
          as_many = ap suc rest.as_many;
          known = ground (arith, raw.known k w.pubkey w.known w.pubkey_of, rest.known);
          verified = ground (arith, w.verifies, rest.verified);
          distinct = (rest.fresh k w.pubkey w.known w.pubkey_of distinct.0, rest.distinct);
          fresh = cons-fresh k v m d w rest;
        },
      )

  All-IsSigned :
      (m : HashMap CryptoTypePublicPair Bytes)
      → DistinctKeys CryptoTypePublicPair-discrete m
      → ((k : CryptoTypePublicPair) (v : Bytes)
          → get CryptoTypePublicPair-discrete m k ≡ some v
          → IsSigned (k, v))
      → All IsSigned m
  All-IsSigned [] d h = tt
  All-IsSigned ((k, v) ∷ m) d h =
      (h k v (ground arith), All-IsSigned m d.1 (λ j w found. h j w (ground (arith, d.0, found))))

  target_same : target authorities ≡ node_target l
  unfolding target node_target
  target_same = rw raw.as_many refl

  -- What the handler makes of the proofs that it reads, and the pallet of that.
  pub record IsAcceptable (m : HashMap CryptoTypePublicPair Bytes) (s : Storage ProofsMap)
      (proofs : ProofsMap) : Type 0 where
    pub converts : convert_proofs S (some m) ≡ ok (some proofs)
    pub as_many : length proofs ≡ length m
    pub records :
        validate_event S authorities event_id (some proofs) s
        ≡ (ok tt, record_event event_id proofs s)

  -- As many authorities' signatures as the target, read from a store, are proofs that the pallet
  -- accepts, if the event is new to it.
  pub accepts-converted :
      (m : HashMap CryptoTypePublicPair Bytes) (s : Storage ProofsMap)
      → DistinctKeys CryptoTypePublicPair-discrete m
      → ((k : CryptoTypePublicPair) (v : Bytes)
          → get CryptoTypePublicPair-discrete m k ≡ some v
          → IsSigned (k, v))
      → length m < 2 ^ 16
      → node_target l ≤ length m
      → is_event_valid event_id s ≡ false
      → (proofs : ProofsMap) × IsAcceptable m s proofs
  unfolding convert_proofs
  accepts-converted m s distinct signed few enough new =
      let (d, out) = decode-IsDecoded m distinct (All-IsSigned m distinct signed) in
      (
        d,
        record {
          converts = ground (arith, out.decodes, collect-distinct [] d out.distinct);
          as_many = out.as_many;
          records = accepts S authorities event_id d s (omega (arith, out.as_many, few)) (record {
            new = new;
            known = out.known;
            verified = out.verified;
            enough = omega (arith, target_same, enough, out.as_many);
          });
        },
      )
