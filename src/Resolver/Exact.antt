-- ===== src/Resolver/Exact.antt =====
-- The operations of `ExactResolver`.
use coppice_names.Prelude.{ℕ, Option, List, Result, ok, ◌>>=◌, map_err}
use coppice_names.Collections.Order.{list_ord, nat_ord}
use coppice_names.Protocol.{Bytes, Name, Commitment, CommitRef, Primitives, name_id}
use coppice_names.Schedule.{Parameters}
use coppice_names.Reducer.State.{
  Block, ReferencedCommit, ProofVerifier, ReducerTip, Accepted, BlockOutcome, ApplyError,
  invalid_parameters,
}
use coppice_names.Reducer.Records.{tip}
use coppice_names.Reducer.Blocks.{new, apply_block_detailed, apply_block_with_referenced_commits}
use coppice_names.Reducer.Rollback.{
  RollbackError, FinalizationError, rollback_tip_detailed, finalize_through,
}
use coppice_names.Reducer.Resolution.{
  Resolution, ResolutionError, ProtocolIdentity, resolve_authenticated, pending_commit,
  protocol_identity,
}
use coppice_names.Resolver.Filter.{ExactResolver, filter_block}

module _ ⦃prims : Primitives⦄ where
  -- `ExactResolver::new`
  unfoldable pub start : Parameters → Bytes → Name → ProofVerifier → Result ApplyError ExactResolver
  start parameters activation_parent_hash name verifier = do
    id ← map_err (name_id name) (λ _. invalid_parameters)
    reducer ← new parameters activation_parent_hash verifier
    ok (record { name = name; name_id = id; reducer = reducer })

  -- `apply_block_with_referenced_commits`; with no evidence, `apply_block`
  unfoldable pub apply :
      ExactResolver
      → Block
      → List ReferencedCommit
      → Result ApplyError (ExactResolver × List Accepted)
  apply x block referenced = do
    (after, accepted) ←
        apply_block_with_referenced_commits x.reducer (filter_block x.name_id block) referenced
    ok (record x { reducer = after }, accepted)

  -- `apply_block_detailed`
  unfoldable pub apply_detailed :
      ExactResolver
      → Block
      → List ReferencedCommit
      → Result ApplyError (ExactResolver × BlockOutcome)
  apply_detailed x block referenced = do
    (after, outcome) ← apply_block_detailed x.reducer (filter_block x.name_id block) referenced
    ok (record x { reducer = after }, outcome)

  -- `resolve`
  unfoldable pub resolve_at : ExactResolver → ℕ → Result ResolutionError Resolution
  resolve_at x height = resolve_authenticated x.reducer x.name height

-- `tip`, `pending_commit` and `protocol_identity`
unfoldable pub tip_of : ExactResolver → Option ReducerTip
tip_of x = tip x.reducer

unfoldable pub commit_of : ExactResolver → CommitRef → Option Commitment
commit_of x reference = pending_commit x.reducer reference

unfoldable pub identity : Bytes → ExactResolver → ProtocolIdentity
identity fingerprint x = protocol_identity fingerprint x.reducer

-- `rollback_tip`
unfoldable pub rollback_tip : ExactResolver → Bytes → Result RollbackError ExactResolver
rollback_tip x expected_hash = do
  (before, delta) ← rollback_tip_detailed x.reducer expected_hash
  ok (record x { reducer = before })

-- `finalize_through`
unfoldable pub finalize : ExactResolver → ℕ → Result FinalizationError ExactResolver
finalize x height = do
  reducer ← finalize_through x.reducer height
  ok (record x { reducer = reducer })
