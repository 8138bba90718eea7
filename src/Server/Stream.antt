-- ===== src/Server/Stream.antt =====
-- The stream of finalized blocks that a client receives.
use validated_streams.Base.{
  ℕ, zero, suc, ◌+◌, ◌^◌, ◌<◌, ◌≡◌, refl, ap, List, [], ◌∷◌, ◌++◌, Option, none, some, Result, ok,
  err, arith, Bool, length, sym, ◌∙◌, inl, inr, Option-cases,
}
use validated_streams.Errors.{fmt}
use validated_streams.Server.{
  Status, aborted, EventValidator, ValidatedEventsRequest, ValidatedEventsResponse, first_block,
  next_item, items, validated_events,
}
use native.Mathlib.Nat.{mod-eq_of_lt, zero-add, add-zero, suc-add}

module _ (V : EventValidator) where
  -- The item for a block: its events and the next block's number, or the error in their place.
  abbrev pub item_of : ℕ → Option (Result Status ValidatedEventsResponse)
  item_of block_num = elim (V.get_finalized_block_events block_num) [
    | none ↦ none
    | some (err e) ↦ some (err (aborted (fmt e)))
    | some (ok events) ↦ some (ok (record { next_block = block_num + 1; events = events }))
  ]

  -- The items for the blocks from one on, up to the first that is waited for.
  abbrev pub items_of : ℕ → ℕ → List (Result Status ValidatedEventsResponse)
  items_of zero block_num = []
  items_of (suc n) block_num = elim (item_of block_num) [
    | none ↦ []
    | some item ↦ item ∷ items_of n (block_num + 1)
  ]

  items-items_of :
      (n block_num : ℕ) → block_num + n < 2 ^ 32 → items V n block_num ≡ items_of n block_num
  unfolding items next_item
  items-items_of zero block_num h = refl
  items-items_of (suc n) block_num h =
      let rest = items-items_of n (block_num + 1) (omega arith) in
      ground (arith, mod-eq_of_lt {n = block_num + 1} {m = 2 ^ 32} (omega arith), rest)

  pub items_of-suc :
      (n b : ℕ) (item : Result Status ValidatedEventsResponse)
      → item_of b ≡ some item
      → items_of (suc n) b ≡ item ∷ items_of n (b + 1)
  items_of-suc n b item returned =
      ap
        (λ o. elim o as (λ _. List (Result Status ValidatedEventsResponse)) [
          | none ↦ []
          | some i ↦ i ∷ items_of n (b + 1)
        ])
        returned

  pub validated_events-items_of :
      (n : ℕ) (request : ValidatedEventsRequest)
      → first_block V request + n < 2 ^ 32
      → validated_events V n request ≡ items_of n (first_block V request)
  unfolding validated_events
  validated_events-items_of n request h = items-items_of n (first_block V request) h

  items_of-append :
      (n m b : ℕ)
      → length (items_of n b) ≡ n
      → items_of (n + m) b ≡ items_of n b ++ items_of m (b + n)
  items_of-append zero m b h = rw (zero-add, add-zero)
  items_of-append (suc n) m b h = elim (Option-cases (item_of b)) [
    | inl waits ↦ absurd (ground (arith, waits, h))
    | inr (item, returned) ↦
        let rest = items_of-append n m (b + 1) (ground (arith, returned, h)) in
        let at : items_of m (b + 1 + n) ≡ items_of m (b + suc n) =
          ap (λ k. items_of m k) (omega arith) in
        rw (suc-add, items_of-suc (n + m) b item returned, items_of-suc n b item returned)
          (ap (λ ys. item ∷ ys) (rest ∙ ap (λ ys. items_of n (b + 1) ++ ys) at))
  ]

  -- A request from a block other than 0 starts there.
  first_block-pos :
      (b : ℕ) (latest : Bool)
      → 0 < b
      → first_block V (record { from_block = b; from_latest = latest }) ≡ b
  unfolding first_block
  first_block-pos b latest h = ground arith

  -- While block numbers stay below 2^32, the stream has one item for each block from the first on,
  -- in order, with none left out, up to the first block that it still waits for: a block that
  -- cannot be read gives an error in its place, and the stream goes on. A client that has received
  -- `n` items and asks again from the block after them gets exactly what follows them.
  pub validated_events_lem :
      (n m : ℕ) (request : ValidatedEventsRequest) (latest : Bool)
      → first_block V request + (n + m) < 2 ^ 32
      → 0 < n
      → length (validated_events V n request) ≡ n
      → let b = first_block V request in
        let again : ValidatedEventsRequest = record { from_block = b + n; from_latest = latest } in
        (validated_events V n request ≡ items_of n b)
        × (validated_events V (n + m) request
            ≡ validated_events V n request ++ validated_events V m again)
  unfolding validated_events
  validated_events_lem n m request latest h pos received =
      let b = first_block V request in
      let same = items-items_of n b (omega arith) in
      rw
        (
          first_block-pos (b + n) latest (omega arith),
          same,
          items-items_of (n + m) b h,
          items-items_of m (b + n) (omega arith),
        )
        (refl, items_of-append n m b (sym (ap length same) ∙ received))
