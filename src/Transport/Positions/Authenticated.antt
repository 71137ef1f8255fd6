-- ===== src/Transport/Positions/Authenticated.antt =====
-- The positions that the functions on whole blocks find.
use coppice_names.Prelude.{ℕ, ◌+◌, ◌-◌, ◌≤◌, ◌≡◌, ◌↔◌, ok, arith, inl, inr, Result-cases}
use coppice_names.Prelude.Word.{IsU32}
use coppice_names.Transport.Positions.{
  Contexts, total_actions, authenticated_action_position, positioned_action_position,
}
use coppice_names.Transport.Positions.Located.{
  actions, ArePaired, IsAt, total_actions-eq-ok, total_actions_inversion, seek-eq-ok,
  seek_inversion, seek-injective, seek-eq-action_position,
}

module _ ⦃core : Contexts⦄ where
  authenticated_action_position_inversion :
      (block : core.CoreBlock) (tx_index action_index position : ℕ)
      → authenticated_action_position block tx_index action_index ≡ ok position
      → ArePaired (core.transactions block)
        × (actions (core.transactions block) ≤ core.tree_size block)
        × IsAt
            (core.transactions block)
            (core.tree_size block - actions (core.transactions block))
            tx_index
            action_index
            position
  unfolding authenticated_action_position
  authenticated_action_position_inversion block ti ai p h =
      let ts = core.transactions block in
      elim (Result-cases (total_actions 0 ts)) [
        | inl (total, summed) ↦
            let (pairs, counted) = total_actions_inversion 0 total ts summed in
            ground (
              arith,
              summed,
              pairs,
              counted,
              seek_inversion ts (core.tree_size block - actions ts) ti ai p,
            )
        | inr (e, failed) ↦ ground (arith, failed)
      ]

  -- From a tree size that is a `u32`, a position is found exactly if every transaction has a
  -- nullifier for each commitment, the tree is at least as large as the block's actions, and the
  -- position counts from what the tree held before them.
  pub authenticated_action_position_iff :
      (block : core.CoreBlock) (tx_index action_index position : ℕ)
      → IsU32 (core.tree_size block)
      → (authenticated_action_position block tx_index action_index ≡ ok position) ↔ (
          ArePaired (core.transactions block)
          × (actions (core.transactions block) ≤ core.tree_size block)
          × IsAt
              (core.transactions block)
              (core.tree_size block - actions (core.transactions block))
              tx_index
              action_index
              position)
  unfolding authenticated_action_position
  authenticated_action_position_iff block ti ai p fits = (
    λ h. authenticated_action_position_inversion block ti ai p h,
    λ (pairs, enough, at). ground (
      arith,
      total_actions-eq-ok 0 (core.transactions block) pairs,
      seek-eq-ok (core.transactions block)
          (core.tree_size block - actions (core.transactions block)) ti ai p,
    ),
  )

  -- In a block whose transactions have a nullifier for each commitment, the position from the
  -- tree after the block is the one from the tree before it.
  pub authenticated-eq-positioned :
      (block : core.CoreBlock) (positioned : core.PositionedBlock) (tx_index action_index : ℕ)
      → core.transactions block ≡ core.positioned_transactions positioned
      → ArePaired (core.transactions block)
      → core.tree_size block
        ≡ core.pre_ironwood_tree_size positioned + actions (core.transactions block)
      → IsU32 (core.tree_size block)
      → authenticated_action_position block tx_index action_index
        ≡ positioned_action_position positioned tx_index action_index
  unfolding authenticated_action_position positioned_action_position
  authenticated-eq-positioned block positioned ti ai same_transactions p grown fits =
      rw (← same_transactions) (
        ground (
          arith,
          total_actions-eq-ok 0 (core.transactions block) p,
          seek-eq-action_position (core.transactions block) (core.pre_ironwood_tree_size positioned)
              ti ai p,
        ))

  -- No two actions of a block have the same position.
  pub authenticated_action_position-injective :
      (block : core.CoreBlock) (tx_index action_index tx_index' action_index' p : ℕ)
      → authenticated_action_position block tx_index action_index ≡ ok p
      → authenticated_action_position block tx_index' action_index' ≡ ok p
      → (tx_index ≡ tx_index') × (action_index ≡ action_index')
  unfolding authenticated_action_position
  authenticated_action_position-injective block ti ai ti' ai' p one two =
      elim (Result-cases (total_actions 0 (core.transactions block))) [
        | inl (total, h) ↦ ground (
          arith,
          h,
          seek-injective (core.transactions block) (core.tree_size block - total) ti ai ti' ai' p,
        )
        | inr (e, h) ↦ ground (arith, h)
      ]
