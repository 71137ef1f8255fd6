-- ===== src/Sqlite/Identity.antt =====
-- What a store is opened for, and the errors of its operations.
use coppice_names.Prelude.{ℕ, Option, none, some}
use coppice_names.Protocol.{Bytes, Network, NameId}

abbrev pub current_schema : ℕ
current_schema = 1

abbrev pub default_minimum_rollback_blocks : ℕ
default_minimum_rollback_blocks = 100

pub data Coverage : Type 0 where
  complete : Coverage
  exact : NameId → Coverage
  owned : Coverage

pub record StoreIdentity : Type 0 where
  pub deployment_id : Bytes
  pub ruleset_fingerprint : Bytes
  pub network : Network
  pub coverage : Coverage
  pub minimum_rollback_blocks : ℕ

-- `StoreIdentity::new`
unfoldable pub new_identity : Bytes → Bytes → Network → Coverage → StoreIdentity
new_identity deployment_id ruleset_fingerprint network coverage = record {
  deployment_id = deployment_id;
  ruleset_fingerprint = ruleset_fingerprint;
  network = network;
  coverage = coverage;
  minimum_rollback_blocks = default_minimum_rollback_blocks;
}

-- the two errors of `rusqlite` that a statement of the store meets in a database that works: a
-- second row for a primary key, and no row where one is wanted
pub data SqliteError : Type 0 where
  constraint_violation query_returned_no_rows : SqliteError

pub data StoreError : Type 0 where
  sqlite : SqliteError → StoreError
  encoding : StoreError
  unsupported_schema : ℕ → StoreError
  identity_mismatch coverage_mismatch coverage_violation : StoreError
  tip_mismatch non_sequential_delta authoritative_record_mismatch : StoreError
  missing_rollback_journal wrong_tip_hash : StoreError
  finalization_beyond_tip insufficient_rollback_retention : StoreError
  integrity_check_failed : Bytes → StoreError
  invalid_stored_record injected_failure : StoreError

-- `encode_coverage`
unfoldable pub encode_coverage : Coverage → ℕ × Option Bytes
encode_coverage Coverage.complete = (0, none)
encode_coverage (Coverage.exact name_id) = (1, some name_id)
encode_coverage Coverage.owned = (2, none)

-- `encode_network`
unfoldable pub encode_network : Network → ℕ
encode_network Network.main = 0
encode_network Network.test = 1
encode_network Network.regtest = 2
