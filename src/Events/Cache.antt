-- ===== src/Events/Cache.antt =====
-- `get_authorities_list`: the cache in front of the runtime API is invisible.
use validated_streams.Base.{
  ◌≡◌, refl, sym, Result-cases, false, Option, none, some, List, Result, ok, err, map, String,
  Option-cases, inl, inr,
}
use validated_streams.Errors.{Error, other}
use validated_streams.Events.{AuthoritiesList, BlockStateCache, get_authorities_list}
use validated_streams.Interfaces.{Client, LruCache, IsLruCache}
use validated_streams.Primitives.{H256, CryptoTypePublicPair}

module _ {AuthorityId Extrinsic Cache : Type 0} (from : AuthorityId → CryptoTypePublicPair)
    (client : Client AuthorityId Extrinsic) (L : LruCache AuthoritiesList Cache)
    (peek : Cache → H256 → Option AuthoritiesList) where
  -- What the runtime of a block answers, with no cache.
  abbrev pub runtime_authorities : H256 → Result Error AuthoritiesList
  runtime_authorities id = elim (client.authorities id) [
    | err e ↦ err (other e)
    | ok ids ↦ ok (record { authorities = map from ids })
  ]

  -- The lock can be taken, and each entry is what the runtime answers.
  pub record IsCoherent (s : BlockStateCache Cache) : Type 0 where
    pub healthy : s.poisoned ≡ false
    pub entries :
        (id : H256) (l : AuthoritiesList) → peek s.cache id ≡ some l → runtime_authorities id ≡ ok l

  runtime-ok :
      (id : H256) (ids : List AuthorityId)
      → client.authorities id ≡ ok ids
      → runtime_authorities id ≡ ok (record { authorities = map from ids })
  runtime-ok id ids e = rw (e, runtime_authorities)

  runtime-err :
      (id : H256) (e : String)
      → client.authorities id ≡ err e
      → runtime_authorities id ≡ err (other e)
  runtime-err id e h = rw (h, runtime_authorities)

  module _ (lru : IsLruCache L peek) (id : H256) (s : BlockStateCache Cache)
      (c : IsCoherent s) where
    -- Marking an entry as used, and storing what the runtime answers, keep the cache coherent.
    get-IsCoherent : IsCoherent (record { poisoned = false; cache = (L.get id s.cache).1 })
    get-IsCoherent = record {
      healthy = refl;
      entries = λ j l h. c.entries j l (rw (lru.get_keeps id s.cache j) at h);
    }

    put-IsCoherent :
        (new : AuthoritiesList)
        → runtime_authorities id ≡ ok new
        → IsCoherent (record { poisoned = false; cache = L.put id new (L.get id s.cache).1 })
    put-IsCoherent new fresh = record {
      healthy = refl;
      entries = λ j l h. elim (lru.put_keeps id new (L.get id s.cache).1 j l h) [
        | inl (same, value) ↦ rw (← same, ← value) fresh
        | inr old ↦ c.entries j l (rw (lru.get_keeps id s.cache j) at old)
      ];
    }

    miss-IsCoherent :
        peek s.cache id ≡ none
        → ((get_authorities_list from client L id s).0 ≡ runtime_authorities id)
          × IsCoherent (get_authorities_list from client L id s).1
    unfolding get_authorities_list
    miss-IsCoherent miss = elim (Result-cases (client.authorities id)) [
      | inl (ids, answer) ↦
          simp (c.healthy, lru.get_reads id s.cache, miss, answer)
            (
              sym (runtime-ok id ids answer),
              put-IsCoherent (record { authorities = map from ids }) (runtime-ok id ids answer),
            )
      | inr (e, failure) ↦
          simp (c.healthy, lru.get_reads id s.cache, miss, failure)
            (sym (runtime-err id e failure), get-IsCoherent)
    ]

  -- With a coherent cache a lookup returns what the runtime API answers at that block, its
  -- errors included, and leaves the cache coherent.
  pub get_authorities_list_lem :
      IsLruCache L peek
      → (id : H256) (s : BlockStateCache Cache) → IsCoherent s
      → ((get_authorities_list from client L id s).0 ≡ runtime_authorities id)
        × IsCoherent (get_authorities_list from client L id s).1
  unfolding get_authorities_list
  get_authorities_list_lem lru id s c = elim (Option-cases (peek s.cache id)) [
    | inl miss ↦ miss-IsCoherent lru id s c miss
    | inr (l, hit) ↦
        simp (c.healthy, lru.get_reads id s.cache, hit)
          (sym (c.entries id l hit), get-IsCoherent lru id s c)
  ]
