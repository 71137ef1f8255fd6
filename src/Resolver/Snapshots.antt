-- ===== src/Resolver/Snapshots.antt =====
-- `ExactResolver::save_snapshot` and `ExactResolver::load_snapshot`.
use coppice_names.Prelude.{ℕ, Option, ◌&&◌, Result, ok, ◌>>=◌, ◌>>◌, guard, ok_or, map_err, ◌==◌}
use coppice_names.Collections.Order.{same, list_ord, nat_ord}
use coppice_names.Protocol.{Bytes, Network, Name, Primitives, name_id}
use coppice_names.Schedule.{Parameters}
use coppice_names.Reducer.State.{ProofVerifier}
use coppice_names.Reducer.Rollback.{RollbackRange, rollback_range}
use coppice_names.Reducer.Resolution.{is_exact_for}
use coppice_names.Snapshot.{
  SnapshotError, Serde, save_snapshot, load_snapshot, same_range, encoding, unsupported_format,
  parameters_mismatch, name_mismatch, invalid_history,
}
use coppice_names.Resolver.Filter.{ExactResolver}

abbrev pub exact_resolver_snapshot_format_version : ℕ
exact_resolver_snapshot_format_version = 3

pub record StoredExactResolver : Type 0 where
  pub format_version : ℕ
  pub deployment_id : Bytes
  pub ruleset_fingerprint : Bytes
  pub rollback_range : Option RollbackRange
  pub name : Bytes
  pub reducer : Bytes

-- `serde_json` on this record
pub record ResolverSerde : Type 0 where
  pub to_vec : StoredExactResolver → Option Bytes
  pub from_slice : Bytes → Option StoredExactResolver

module _ ⦃prims : Primitives⦄ (serde : Serde) (outer : ResolverSerde) where
  -- `save_snapshot`
  unfoldable pub save_resolver : ExactResolver → Result SnapshotError Bytes
  save_resolver x = do
    reducer ← save_snapshot serde x.reducer
    ok_or
        (outer.to_vec (record {
          format_version = exact_resolver_snapshot_format_version;
          deployment_id = x.reducer.parameters.deployment_id;
          ruleset_fingerprint = serde.fingerprint;
          rollback_range = rollback_range x.reducer.history;
          name = x.name;
          reducer = reducer;
        }))
        encoding

  -- `load_snapshot`
  unfoldable pub load_resolver :
      Parameters → Network → Name → ProofVerifier → Bytes → Result SnapshotError ExactResolver
  load_resolver parameters network name verifier bytes = do
    stored ← ok_or (outer.from_slice bytes) encoding
    guard (stored.format_version == exact_resolver_snapshot_format_version) unsupported_format
    guard (same stored.name name) name_mismatch
    guard
        (same stored.deployment_id parameters.deployment_id
          && same stored.ruleset_fingerprint serde.fingerprint)
        parameters_mismatch
    id ← map_err (name_id name) (λ _. name_mismatch)
    reducer ← load_snapshot serde parameters network verifier stored.reducer
    guard (is_exact_for reducer id) name_mismatch
    guard (same_range (rollback_range reducer.history) stored.rollback_range) invalid_history
    ok (record { name = name; name_id = id; reducer = reducer })
