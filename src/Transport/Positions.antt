-- ===== src/Transport/Positions.antt =====
-- crates/coppice-names/src/transport.rs: the global Ironwood position of an action of a block.
--
-- The block contexts are those of the `coppice` crate, so their accessors are a parameter.
pub mod Located
pub mod Authenticated
use coppice_names.Prelude.{
  ℕ, List, [], ◌∷◌, Result, ok, err, ◌>>=◌, ◌>>◌, guard, ok_or, ltb, ◌==◌, if◌then◌else◌, length,
  Bool,
}
use coppice_names.Prelude.Word.{checked_add, checked_sub, u32_size}
use coppice_names.Protocol.{Bytes}

-- What the code reads of `CoreTransactionContext`, `CoreBlockContext` and
-- `CorePositionedBlockContext`.
pub record Contexts : Type 1 where
  pub Transaction : Type 0
  pub tx_index : Transaction → ℕ
  -- `ironwood_effects().nullifiers()` and `ironwood_effects().commitments()`
  pub nullifiers : Transaction → List Bytes
  pub commitments : Transaction → List Bytes
  pub CoreBlock : Type 0
  pub transactions : CoreBlock → List Transaction
  -- `ironwood_checkpoint().tree_size`
  pub tree_size : CoreBlock → ℕ
  pub PositionedBlock : Type 0
  pub positioned_transactions : PositionedBlock → List Transaction
  pub pre_ironwood_tree_size : PositionedBlock → ℕ

-- `BlockTransportError`, without the configuration errors, which these functions do not return
pub data PositionError : Type 0 where
  invalid_action_effects invalid_action_position : PositionError

-- `u32::try_from(length)`
unfoldable pub u32_of : ℕ → Result PositionError ℕ
u32_of n = if ltb n u32_size then ok n else err invalid_action_position

module _ ⦃core : Contexts⦄ where
  unfoldable pub paired : core.Transaction → Bool
  paired t = length (core.nullifiers t) == length (core.commitments t)

  -- the `try_fold` over the transactions
  unfoldable pub total_actions : ℕ → List core.Transaction → Result PositionError ℕ
  unfolding u32_of paired
  total_actions total [] = ok total
  total_actions total (t ∷ ts) = do
    guard (paired t) invalid_action_effects
    count ← u32_of (length (core.commitments t))
    next ← ok_or (checked_add total count) invalid_action_position
    total_actions next ts

  -- what both loops do at the transaction with the index that is asked for
  unfoldable pub position_within : ℕ → ℕ → ℕ → Result PositionError ℕ
  position_within position action_index count =
      if ltb action_index count
      then ok_or (checked_add position action_index) invalid_action_position
      else err invalid_action_position

  -- the second loop of `authenticated_action_position`
  unfoldable pub seek : List core.Transaction → ℕ → ℕ → ℕ → Result PositionError ℕ
  unfolding u32_of position_within
  seek [] position tx_index action_index = err invalid_action_position
  seek (t ∷ ts) position tx_index action_index = do
    count ← u32_of (length (core.commitments t))
    let rest = do
      next ← ok_or (checked_add position count) invalid_action_position
      seek ts next tx_index action_index
    if core.tx_index t == tx_index then position_within position action_index count else rest

  unfoldable pub authenticated_action_position : core.CoreBlock → ℕ → ℕ → Result PositionError ℕ
  unfolding total_actions seek
  authenticated_action_position block tx_index action_index = do
    total ← total_actions 0 (core.transactions block)
    position ← ok_or (checked_sub (core.tree_size block) total) invalid_action_position
    seek (core.transactions block) position tx_index action_index

  unfoldable pub action_position : List core.Transaction → ℕ → ℕ → ℕ → Result PositionError ℕ
  unfolding paired u32_of position_within
  action_position [] position tx_index action_index = err invalid_action_position
  action_position (t ∷ ts) position tx_index action_index = do
    guard (paired t) invalid_action_effects
    count ← u32_of (length (core.commitments t))
    let rest = do
      next ← ok_or (checked_add position count) invalid_action_position
      action_position ts next tx_index action_index
    if core.tx_index t == tx_index then position_within position action_index count else rest

  unfoldable pub positioned_action_position : core.PositionedBlock → ℕ → ℕ → Result PositionError ℕ
  unfolding action_position
  positioned_action_position block =
      action_position (core.positioned_transactions block) (core.pre_ironwood_tree_size block)
