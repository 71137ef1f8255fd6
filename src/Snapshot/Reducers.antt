-- ===== src/Snapshot/Reducers.antt =====
-- `Reducer::save_snapshot` and `Reducer::load_snapshot`.
use coppice_names.Prelude.{
  ℕ, Bool, true, false, not, ◌&&◌, Option, none, some, List, [], ◌∷◌, Result, ok, ◌>>=◌, ◌>>◌,
  guard, ok_or, map_err, ◌==◌,
}
use coppice_names.Collections.Order.{same, nat_ord, list_ord}
use coppice_names.Collections.OrdMap.{OrdMap, contains, insert}
use coppice_names.Protocol.{
  Bytes, Network, NameId, Commitment, CommitRef, Primitives, commit_ref_ord, nonzero_from_bytes,
}
use coppice_names.Schedule.{Parameters, validate}
use coppice_names.Reducer.State.{Head, Undo, ProofVerifier, Reducer}
use coppice_names.Reducer.Rollback.{RollbackRange, rollback_range}
use coppice_names.Snapshot.Stored.{
  SnapshotError, StoredHead, StoredUndo, StoredReducer, Serde, stored_reducer,
  reducer_snapshot_format_version, encoding, unsupported_format, parameters_mismatch, invalid_state,
  invalid_history,
}
use coppice_names.Snapshot.Checks.{
  validate_tip, validate_commit, restore_head, is_head_of, restore_undo, validate_history,
}
use coppice_names.Snapshot.Rebuild.{rebuild_derived_indexes}

-- `==` on `StoredParameters`
unfoldable pub same_parameters : Parameters → Parameters → Bool
same_parameters p q =
    same p.deployment_id q.deployment_id
    && p.activation_height == q.activation_height
    && p.epoch_blocks == q.epoch_blocks
    && p.window_blocks == q.window_blocks
    && p.commit_maturity_blocks == q.commit_maturity_blocks
    && p.commit_ttl_blocks == q.commit_ttl_blocks
    && p.lease_blocks == q.lease_blocks
    && p.cooldown_blocks == q.cooldown_blocks

-- `==` on `Option<RollbackRange>`
unfoldable pub same_range : Option RollbackRange → Option RollbackRange → Bool
same_range none none = true
same_range none (some b) = false
same_range (some a) none = false
same_range (some a) (some b) = a.first_height == b.first_height && a.last_height == b.last_height

module _ ⦃prims : Primitives⦄ where
  -- the loop over the stored commits
  unfoldable pub read_commits :
      Parameters
      → Option ℕ
      → List (CommitRef × Bytes)
      → OrdMap CommitRef Commitment
      → Result SnapshotError (OrdMap CommitRef Commitment)
  read_commits p tip_height [] commits = ok commits
  read_commits p tip_height ((reference, bytes) ∷ rest) commits = do
    commitment ← map_err (nonzero_from_bytes bytes) (λ _. invalid_state)
    validate_commit p tip_height reference
    guard (not (contains reference commits)) invalid_state
    read_commits p tip_height rest (insert reference commitment commits)

  -- the loop over the stored heads
  unfoldable pub read_heads :
      Parameters
      → Network
      → Option ℕ
      → List (Bytes × StoredHead)
      → OrdMap NameId Head
      → Result SnapshotError (OrdMap NameId Head)
  read_heads p network tip_height [] heads = ok heads
  read_heads p network tip_height ((bytes, stored) ∷ rest) heads = do
    id ← map_err (nonzero_from_bytes bytes) (λ _. invalid_state)
    head ← restore_head p network tip_height stored
    guard (is_head_of id head && not (contains id heads)) invalid_state
    read_heads p network tip_height rest (insert id head heads)

  -- the loop over the stored journals
  unfoldable pub read_history :
      Parameters → Network → Option ℕ → List StoredUndo → Result SnapshotError (List Undo)
  read_history p network tip_height [] = ok []
  read_history p network tip_height (stored ∷ rest) = do
    undo ← restore_undo p network tip_height stored
    history ← read_history p network tip_height rest
    ok (undo ∷ history)

  -- the reducer before its indexes are built
  unfoldable pub restore_records :
      Bytes → Parameters → Network → ProofVerifier → StoredReducer → Result SnapshotError Reducer
  restore_records fingerprint p network verifier stored = do
    guard (stored.format_version == reducer_snapshot_format_version) unsupported_format
    guard
        (same stored.deployment_id p.deployment_id
          && same stored.ruleset_fingerprint fingerprint
          && same_parameters stored.parameters p)
        parameters_mismatch
    validate_tip p stored.next_height stored.tip_height
    commits ← read_commits p stored.tip_height stored.commits []
    heads ← read_heads p network stored.tip_height stored.heads []
    history ← read_history p network stored.tip_height stored.history
    validate_history stored.tip_height stored.previous_hash history
    guard (same_range stored.rollback_range (rollback_range history)) invalid_history
    ok (record {
      parameters = p;
      verifier = verifier;
      next_height = stored.next_height;
      tip_height = stored.tip_height;
      previous_hash = stored.previous_hash;
      commits = commits;
      heads = heads;
      commits_by_height = [];
      heads_by_future_nf = [];
      active_heads_by_expiry = [];
      terminal_heads_by_height = [];
      history = history;
    })

  module _ (serde : Serde) where
    -- `save_snapshot`
    unfoldable pub save_snapshot : Reducer → Result SnapshotError Bytes
    save_snapshot r = ok_or (serde.to_vec (stored_reducer serde.fingerprint r)) encoding

    -- `load_snapshot`
    unfoldable pub load_snapshot :
        Parameters → Network → ProofVerifier → Bytes → Result SnapshotError Reducer
    load_snapshot parameters network verifier bytes = do
      p ← map_err (validate parameters) (λ _. parameters_mismatch)
      stored ← ok_or (serde.from_slice bytes) encoding
      reducer ← restore_records serde.fingerprint p network verifier stored
      ok (rebuild_derived_indexes reducer)
