-- ===== src/Events/Validate/Finalized.antt =====
-- `EventValidator::get_finalized_block_events` waits for the block to be finalized.
use validated_streams.Base.{
  ℕ, ◌≡◌, refl, ap, ◌∙◌, List, [], ◌∷◌, ◌++◌, All, none, some, ok, unwrap_or_default, if_pos,
  if_neg, Result-cases, inl, inr,
}
use validated_streams.Events.Validate.{
  finalized_block, find_block, get_finalized_block_events, flatten_or_default,
}
use validated_streams.Interfaces.{Client}
use validated_streams.Primitives.{Bytes-discrete, H256}

module _ {AuthorityId Extrinsic : Type 0} (block_num : ℕ) where
  -- In this turn the block stands at the height, and it is an ancestor of the finalized tip.
  abbrev pub IsFinalizedIn : H256 → H256 × Client AuthorityId Extrinsic → Type 0
  IsFinalizedIn block (last_finalized, client) =
      (client.block_hash block_num ≡ ok (some block))
      × (client.lowest_common_ancestor last_finalized block ≡ ok block)

  -- In this turn no block is.
  abbrev pub IsPending : H256 × Client AuthorityId Extrinsic → Type 0
  IsPending turn = (block : H256) → ¬ IsFinalizedIn block turn

  finalized_block-found :
      (last_finalized : H256) (client : Client AuthorityId Extrinsic) (block : H256)
      → IsFinalizedIn block (last_finalized, client)
      → finalized_block client last_finalized block_num ≡ some block
  unfolding finalized_block
  finalized_block-found last_finalized client block (at, ancestor) =
      rw (at, ancestor, finalized_block)
        (if_pos (Bytes-discrete block block) refl (some block) none)

  finalized_block-pending :
      (last_finalized : H256) (client : Client AuthorityId Extrinsic)
      → IsPending (last_finalized, client)
      → finalized_block client last_finalized block_num ≡ none
  unfolding finalized_block
  finalized_block-pending last_finalized client pending =
      elim (Result-cases (client.block_hash block_num)) [
        | inr (e, h) ↦ rw (h, finalized_block)
        | inl (none, h) ↦ rw (h, finalized_block)
        | inl (some block, h) ↦
            elim (Result-cases (client.lowest_common_ancestor last_finalized block)) [
              | inr (e, g) ↦ rw (h, g, finalized_block)
              | inl (ancestor, g) ↦
                  rw (h, g, finalized_block)
                    (if_neg (Bytes-discrete ancestor block)
                      (λ same. pending block (h, g ∙ ap ok same)) (some block) none)
            ]
      ]

  find_block-pending :
      (before after : List (H256 × Client AuthorityId Extrinsic))
      → All IsPending before
      → find_block (before ++ after) block_num ≡ find_block after block_num
  unfolding find_block
  find_block-pending [] after h = refl
  find_block-pending ((last_finalized, client) ∷ before) after h =
      rw (finalized_block-pending last_finalized client h.0, find_block)
        (find_block-pending before after h.1)

  find_block-All :
      (turns : List (H256 × Client AuthorityId Extrinsic))
      → All IsPending turns
      → find_block turns block_num ≡ none
  unfolding find_block
  find_block-All [] h = refl
  find_block-All ((last_finalized, client) ∷ turns) h =
      rw (finalized_block-pending last_finalized client h.0, find_block) (find_block-All turns h.1)

  -- Let the block be finalized in one turn of the loop and no block in the turns before. Then the
  -- call still waits after those turns, and in this one it returns the events that the runtime
  -- finds in the body of the block then; later turns make no difference.
  pub get_finalized_block_events_lem :
      (before after : List (H256 × Client AuthorityId Extrinsic))
      (turn : H256 × Client AuthorityId Extrinsic) (block : H256)
      → All IsPending before
      → IsFinalizedIn block turn
      → (get_finalized_block_events before block_num ≡ none)
        × (get_finalized_block_events (before ++ turn ∷ after) block_num
            ≡ some (
                ok (
                  unwrap_or_default (
                    turn.1.get_extrinsic_ids block
                      (flatten_or_default (turn.1.block_body block))))))
  unfolding get_finalized_block_events find_block
  get_finalized_block_events_lem before after turn block h f = (
    rw (find_block-All before h, get_finalized_block_events),
    rw (
      find_block-pending before (turn ∷ after) h,
      finalized_block-found turn.0 turn.1 block f,
      find_block,
      get_finalized_block_events,
    ),
  )
