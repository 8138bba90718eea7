-- ===== src/Pallet/OnChain/Justified.antt =====
-- Every event in storage carries valid signatures of more than two thirds of the authorities.
use validated_streams.Base.{
  ℕ, ◌*◌, ◌^◌, ◌<◌, ◌≡◌, ◌⊎◌, refl, subst, sym, ap, ◌∙◌, true, List, [], ◌∷◌, Option, none, some,
  is_some, contains, Distinct, length, count, All, arith, inl, inr,
}
use validated_streams.Base.HashMap.{get, retain_keys, DistinctKeys, get-insert}
use validated_streams.Interfaces.{Sr25519, Public}
use validated_streams.Pallet.{ProofsMap, Storage, record_event}
use validated_streams.Pallet.OnChain.{target, validate_event}
use validated_streams.Pallet.OnChain.Decision.{all_known, all_verify, IsProven, validate_event_lem}
use validated_streams.Primitives.{Bytes-discrete, H256}
use validated_streams.Proofs.InMemory.Count.{length-retain_keys}

-- One call of `validate_event`, with the authorities of the time
pub record Dispatch : Type 0 where
  pub authorities : List Public
  pub event_id : H256
  pub proofs : Option ProofsMap

-- What the types promise of a call: a map has no key twice and a bounded size, and the
-- authorities are distinct.
abbrev pub IsMap : Option ProofsMap → Type 0
IsMap none = Unit
IsMap (some proofs) = DistinctKeys Bytes-discrete proofs × (length proofs < 2 ^ 16)

pub record IsBounded (d : Dispatch) : Type 0 where
  pub map : IsMap d.proofs
  pub distinct : Distinct Bytes-discrete d.authorities
  pub few : length d.authorities < 98303

-- The authorities that signed the event, in numbers.
abbrev pub signers : List Public → ProofsMap → ℕ
signers authorities proofs = count (λ a. is_some (get Bytes-discrete proofs a)) authorities

module _ (S : Sr25519) where
  -- The proofs are valid signatures of the event, by more than two thirds of the authorities.
  pub record IsQuorum (authorities : List Public) (event_id : H256) (proofs : ProofsMap)
      : Type 0 where
    pub verified : all_verify S event_id proofs ≡ true
    pub known : all_known authorities proofs ≡ true
    pub majority : length authorities * 2 < 3 * signers authorities proofs

  -- The call was for this event with these proofs, a quorum of its authorities.
  pub record IsRecordedBy (d : Dispatch) (id : H256) (m : ProofsMap) : Type 0 where
    pub event : d.event_id ≡ id
    pub proofs : d.proofs ≡ some m
    pub quorum : IsQuorum d.authorities id m

  abbrev pub IsRecordedIn : List Dispatch → H256 → ProofsMap → Type 0
  IsRecordedIn [] id m = ⊥
  IsRecordedIn (d ∷ ds) id m = IsRecordedBy d id m ⊎ IsRecordedIn ds id m

  unfoldable pub run : List Dispatch → Storage ProofsMap → Storage ProofsMap
  run [] s = s
  run (d ∷ ds) s = run ds (validate_event S d.authorities d.event_id d.proofs s).1

  retain_keys-known :
      (authorities : List Public) (proofs : ProofsMap)
      → all_known authorities proofs ≡ true
      → retain_keys (contains Bytes-discrete authorities) proofs ≡ proofs
  retain_keys-known authorities [] h = refl
  retain_keys-known authorities ((k, v) ∷ proofs) h =
      ground (arith, retain_keys-known authorities proofs)

  target-above :
      (authorities : List Public)
      → length authorities < 98303
      → length authorities * 2 < 3 * target authorities
  unfolding target
  target-above authorities h = omega arith

  IsProven-IsQuorum :
      (authorities : List Public) (id : H256) (proofs : ProofsMap) (s : Storage ProofsMap)
      → DistinctKeys Bytes-discrete proofs
      → Distinct Bytes-discrete authorities
      → length authorities < 98303
      → IsProven S authorities id proofs s
      → IsQuorum authorities id proofs
  IsProven-IsQuorum authorities id proofs s dk da few g = record {
    verified = g.verified;
    known = g.known;
    majority =
        let same : length proofs ≡ signers authorities proofs =
          ap length (sym (retain_keys-known authorities proofs g.known))
          ∙ length-retain_keys Bytes-discrete authorities proofs da dk in
        omega (arith, g.enough, target-above authorities few, same);
  }

  get-record_event :
      (id : H256) (proofs : ProofsMap) (s : Storage ProofsMap) (k : H256) {m : ProofsMap}
      → get Bytes-discrete (record_event id proofs s).streams k ≡ some m
      → ((id ≡ k) × (proofs ≡ m)) ⊎ (get Bytes-discrete s.streams k ≡ some m)
  unfolding record_event
  get-record_event id proofs s k h = ground (arith, get-insert Bytes-discrete s.streams id proofs k)

  recorded_some :
      (authorities : List Public) (event_id : H256) (proofs : ProofsMap) (s : Storage ProofsMap)
      (id : H256) (m : ProofsMap)
      → let d : Dispatch = record {
        authorities = authorities;
        event_id = event_id;
        proofs = some proofs;
      } in
        IsBounded d
        → get Bytes-discrete (validate_event S authorities event_id (some proofs) s).1.streams id
          ≡ some m
        → IsRecordedBy d id m ⊎ (get Bytes-discrete s.streams id ≡ some m)
  recorded_some authorities event_id proofs s id m b h =
      elim (validate_event_lem S authorities event_id proofs s b.map.1) [
        | inr (unproven, bad, kept) ↦ inr (rw kept at h)
        | inl (g, good, written) ↦ elim (get-record_event event_id proofs s id (rw written at h)) [
          | inr old ↦ inr old
          | inl (same, equal) ↦ inl (record {
            event = same;
            proofs = ap some equal;
            quorum =
                subst (λ k. IsQuorum authorities k m) same
                  (subst (λ p. IsQuorum authorities event_id p) equal
                    (IsProven-IsQuorum authorities event_id proofs s b.map.0 b.distinct b.few g));
          })
        ]
      ]

  -- One call adds nothing to the storage but its own event with a quorum of proofs.
  validate_event-recorded :
      (authorities : List Public) (event_id : H256) (proofs : Option ProofsMap)
      (s : Storage ProofsMap) (id : H256) (m : ProofsMap)
      → let d : Dispatch = record {
        authorities = authorities;
        event_id = event_id;
        proofs = proofs;
      } in
        IsBounded d
        → get Bytes-discrete (validate_event S authorities event_id proofs s).1.streams id ≡ some m
        → IsRecordedBy d id m ⊎ (get Bytes-discrete s.streams id ≡ some m)
  unfolding validate_event
  validate_event-recorded authorities event_id none s id m b h = inr h
  validate_event-recorded authorities event_id (some proofs) s id m b h =
      recorded_some authorities event_id proofs s id m b h

  -- After any calls, each with a map of proofs without repeated keys and with fewer than 98303
  -- distinct authorities, every event in storage was there before or was recorded by one of the
  -- calls, with the proofs of that call, which are valid signatures of the event by more than two
  -- thirds of the authorities of that call.
  pub run_recorded :
      (ds : List Dispatch) (s : Storage ProofsMap) (id : H256) (m : ProofsMap)
      → All IsBounded ds
      → get Bytes-discrete (run ds s).streams id ≡ some m
      → IsRecordedIn ds id m ⊎ (get Bytes-discrete s.streams id ≡ some m)
  unfolding run
  run_recorded [] s id m b h = inr h
  run_recorded (d ∷ ds) s id m b h = elim (run_recorded ds _ id m b.1 h) [
    | inl later ↦ inl (inr later)
    | inr now ↦ elim (validate_event-recorded d.authorities d.event_id d.proofs s id m b.0 now) [
      | inl here ↦ inl (inl here)
      | inr before ↦ inr before
    ]
  ]
