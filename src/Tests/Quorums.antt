-- ===== src/Tests/Quorums.antt =====
-- The quorum, the store of proofs and the checks of events, on the small network.
use validated_streams.Base.{
  ◌*◌, ◌+◌, ◌-◌, ◌/◌, ◌<◌, ◌≤◌, ◌≡◌, refl, ◌↔◌, ◌⊎◌, ◌&&◌, Bool, true, [], ◌∷◌, String, ok, err,
  length, count, retain, ltb, arith,
}
use validated_streams.Errors.{bad_witnessed_event_signature}
use validated_streams.Events.{
  target, verify_witnessed_event_origin, unprepared_ids, get_authorities_list,
}
use validated_streams.Events.Cache.{IsCoherent, runtime_authorities, get_authorities_list_lem}
use validated_streams.Events.Origin.{IsSignedByAuthority, verify_witnessed_event_origin_lem}
use validated_streams.Events.Quorum.{target_lem, quorums_intersect}
use validated_streams.Events.Validity.{witnesses, unprepared_ids_lem}
use validated_streams.Primitives.{CryptoTypePublicPair}
use validated_streams.Proofs.InMemory.{new, in_memory}
use validated_streams.Proofs.InMemory.Stored.{stored, IsUsable, new-IsUsable}
use validated_streams.Proofs.InMemory.Lawful.{in_memory-IsEventProofs}
use validated_streams.Tests.{
  event_a, event_b, genesis, from, authorities, scheme, witnessed, client, peek, lru,
  lru-IsLruCache, empty_cache, empty_cache-IsCoherent, authorities-DistinctValidators,
}

-- `target` of three authorities is three.
target-three : target authorities ≡ 3
unfolding target
target-three = refl

target_lem_example :
    (3 * 2 < 3 * target authorities)
    × (3 * (target authorities - 1) ≤ 3 * 2)
    × (target authorities ≡ (3 - 3 / 3) / 2 + 1 + 3 / 3)
    × ((length authorities.authorities ≡ 0) ⊎ (target authorities ≤ 3))
target_lem_example = target_lem authorities (omega arith)

abbrev everyone : CryptoTypePublicPair → Bool
everyone pk = true

quorums_intersect_example : 3 < 3 * count (λ v. everyone v && everyone v) authorities.authorities
unfolding target
quorums_intersect_example =
    quorums_intersect authorities everyone everyone (omega arith) (omega arith) (omega arith)

verify_witnessed_event_origin_lem_example :
    ((verify_witnessed_event_origin scheme authorities (witnessed 1 event_a)
        ≡ ok (witnessed 1 event_a))
      ↔ IsSignedByAuthority scheme authorities (witnessed 1 event_a))
    × ((verify_witnessed_event_origin scheme authorities (witnessed 1 event_a)
          ≡ ok (witnessed 1 event_a))
        ⊎ ((reason : String) × (verify_witnessed_event_origin scheme authorities
                (witnessed 1 event_a)
              ≡ err (bad_witnessed_event_signature reason))))
verify_witnessed_event_origin_lem_example =
    verify_witnessed_event_origin_lem scheme authorities (witnessed 1 event_a)

get_authorities_list_lem_example :
    ((get_authorities_list from client lru genesis empty_cache).0
      ≡ runtime_authorities from client lru peek genesis)
    × IsCoherent from client lru peek (get_authorities_list from client lru genesis empty_cache).1
get_authorities_list_lem_example =
    get_authorities_list_lem from client lru peek lru-IsLruCache genesis empty_cache
      empty_cache-IsCoherent

unprepared_ids_lem_example :
    unprepared_ids in_memory authorities.authorities 3 (event_a ∷ event_b ∷ []) new
    ≡ ok (
        retain
          (λ id. ltb (witnesses stored new authorities.authorities id) 3)
          (event_a ∷ event_b ∷ []))
unprepared_ids_lem_example =
    unprepared_ids_lem in_memory IsUsable stored in_memory-IsEventProofs authorities.authorities 3
      (event_a ∷ event_b ∷ []) new (refl, (refl, tt)) authorities-DistinctValidators (omega arith)
      new-IsUsable
