-- ===== src/Resolver/Checks.antt =====
-- The resolver refuses the blocks that the complete reducer refuses.
use coppice_names.Prelude.{ℕ, ◌≡◌, refl, Option, none, some, List, [], ◌∷◌, err, arith, map, ◌↔◌}
use coppice_names.Protocol.{NameId, Primitives}
use coppice_names.Reducer.State.{Transaction, Block, Reducer, ApplyError}
use coppice_names.Reducer.Blocks.{
  check_transactions, check_block, apply_block_detailed, collect_evidence,
}
use coppice_names.Resolver.{ExactResolver, filter_transaction, filter_block, apply_detailed}

module _ ⦃prims : Primitives⦄ where
  check_transactions-filter :
      (id : NameId) (previous : Option ℕ) (txs : List Transaction)
      → check_transactions previous (map (filter_transaction id) txs)
        ≡ check_transactions previous txs
  unfolding check_transactions filter_transaction
  check_transactions-filter id previous [] = refl
  check_transactions-filter id previous (tx ∷ txs) =
      rw (check_transactions-filter id (some tx.tx_index) txs) refl

  check_block-filter :
      (id : NameId) (r e : Reducer) (b : Block)
      → e.next_height ≡ r.next_height
      → e.previous_hash ≡ r.previous_hash
      → check_block e (filter_block id b) [] ≡ check_block r b []
  unfolding check_block filter_block collect_evidence
  check_block-filter id r e b next prev =
      rw (next, prev, check_transactions-filter id none b.transactions) refl

  -- the outcome of a block is a failure exactly when its checks fail
  apply_block-fails :
      (r : Reducer) (b : Block) (e : ApplyError)
      → (apply_block_detailed r b [] ≡ err e) ↔ (check_block r b [] ≡ err e)
  unfolding apply_block_detailed
  apply_block-fails r b e = ground arith

  apply_detailed-fails :
      (x : ExactResolver) (b : Block) (e : ApplyError)
      → (apply_detailed x b [] ≡ err e)
        ↔ (apply_block_detailed x.reducer (filter_block x.name_id b) [] ≡ err e)
  unfolding apply_detailed
  apply_detailed-fails x b e = ground arith

  -- A resolver at the same tip as a complete reducer refuses a block, given without evidence,
  -- exactly when the reducer refuses it, and with the same error.
  pub apply_detailed-refuses :
      (x : ExactResolver) (r : Reducer) (b : Block) (e : ApplyError)
      → x.reducer.next_height ≡ r.next_height
      → x.reducer.previous_hash ≡ r.previous_hash
      → (apply_detailed x b [] ≡ err e) ↔ (apply_block_detailed r b [] ≡ err e)
  apply_detailed-refuses x r b e next prev = grind (
    arith,
    apply_detailed-fails x b e,
    apply_block-fails r b e,
    apply_block-fails x.reducer (filter_block x.name_id b) e,
    check_block-filter x.name_id r x.reducer b next prev,
  )
