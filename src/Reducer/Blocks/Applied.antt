-- ===== src/Reducer/Blocks/Applied.antt =====
-- A successful `apply_block_detailed`, taken apart.
use coppice_names.Prelude.{◌≡◌, ok, List, bind-eq-ok}
use coppice_names.Collections.OrdMap.{OrdMap}
use coppice_names.Protocol.{Commitment, CommitRef, Primitives}
use coppice_names.Reducer.State.{Block, ReferencedCommit, Reducer, BlockOutcome}
use coppice_names.Reducer.Records.{tip, delta_from_undo}
use coppice_names.Reducer.Blocks.{
  check_block, run_block, advance_tip, push_history, apply_block_detailed,
}

module _ ⦃prims : Primitives⦄ where
  abbrev pub reducer_after : Reducer → Block → OrdMap CommitRef Commitment → Reducer
  reducer_after r b supplied =
      let s = (run_block r b supplied).0 in push_history (advance_tip s.0 b) s.1

  abbrev pub outcome_of : Reducer → Block → OrdMap CommitRef Commitment → BlockOutcome
  outcome_of r b supplied =
      let (s, compacted, collected) = run_block r b supplied in
      record {
        accepted = collected.accepted;
        decisions = collected.decisions;
        compacted = compacted;
        terminated = collected.terminated;
        state_delta = delta_from_undo (advance_tip s.0 b) (tip r) (tip (advance_tip s.0 b)) s.1;
      }

  pub record IsApplied (r : Reducer) (b : Block) (referenced : List ReferencedCommit)
      (after : Reducer) (outcome : BlockOutcome) : Type 0 where
    pub supplied : OrdMap CommitRef Commitment
    pub checked : check_block r b referenced ≡ ok supplied
    pub after_eq : after ≡ reducer_after r b supplied
    pub outcome_eq : outcome ≡ outcome_of r b supplied

  pub apply_block_inversion :
      (r : Reducer) (b : Block) (referenced : List ReferencedCommit) (after : Reducer)
      (outcome : BlockOutcome)
      → apply_block_detailed r b referenced ≡ ok (after, outcome)
      → IsApplied r b referenced after outcome
  unfolding apply_block_detailed
  apply_block_inversion r b referenced after outcome h =
      let (supplied, checked, rest) = bind-eq-ok (check_block r b referenced) _ h in
      record { supplied = supplied; checked = checked; after_eq = cc; outcome_eq = cc }
