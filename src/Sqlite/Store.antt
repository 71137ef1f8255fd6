-- ===== src/Sqlite/Store.antt =====
-- Opening a store, its queries, the private record of the wallet's COMMITs, and the transactions
-- and savepoints that hold the writes.
use coppice_names.Prelude.{not, ◌&&◌, Option, none, some, ◌==◌, ltb, if◌then◌else◌}
use coppice_names.Collections.Order.{same, nat_ord, list_ord, option_ord}
use coppice_names.Collections.OrdMap.{get, insert}
use coppice_names.Protocol.{Bytes, NameId, CommitRef, commit_ref_ord}
use coppice_names.Reducer.State.{ReducerTip}
use coppice_names.Sqlite.Identity.{
  Coverage, StoreIdentity, sqlite, query_returned_no_rows, unsupported_schema, identity_mismatch,
  coverage_mismatch, insufficient_rollback_retention, authoritative_record_mismatch, current_schema,
  encode_coverage, encode_network,
}
use coppice_names.Sqlite.Tables.{Metadata}
use coppice_names.Sqlite.Session.{Session, done, failed, lift, ensure, update, pure, ◌>>=◌, ◌>>◌}
use coppice_names.Sqlite.Records.{decode_32, read_tip, tip_ord, update_metadata}

-- the deployment, the ruleset and the network of the metadata are those of the identity
unfoldable pub check_deployment : StoreIdentity → Metadata → Session (Unit {0})
unfolding decode_32 encode_network
check_deployment identity m = do
  ensure (m.schema_version == current_schema) (unsupported_schema m.schema_version)
  deployment ← lift (decode_32 m.deployment_id)
  ensure (same deployment identity.deployment_id) identity_mismatch
  fingerprint ← lift (decode_32 m.ruleset_fingerprint)
  ensure
      (same fingerprint identity.ruleset_fingerprint
        && m.network == encode_network identity.network)
      identity_mismatch

-- ... and so is the coverage
unfoldable pub check_coverage : StoreIdentity → Metadata → Session (Unit {0})
unfolding encode_coverage
check_coverage identity m =
    ensure
      (m.coverage_kind == (encode_coverage identity.coverage).0
        && same m.coverage_name_id (encode_coverage identity.coverage).1)
      coverage_mismatch

-- the row that an empty database receives
unfoldable pub new_metadata : StoreIdentity → Metadata
unfolding encode_coverage encode_network
new_metadata identity = record {
  schema_version = current_schema;
  deployment_id = identity.deployment_id;
  ruleset_fingerprint = identity.ruleset_fingerprint;
  network = encode_network identity.network;
  coverage_kind = (encode_coverage identity.coverage).0;
  coverage_name_id = (encode_coverage identity.coverage).1;
  minimum_rollback_blocks = identity.minimum_rollback_blocks;
  tip_height = none;
  tip_hash = none;
  finalized_height = none;
  core_snapshot = none;
}

-- the checks on metadata that is there
unfoldable pub validate_metadata : StoreIdentity → Metadata → Session (Unit {0})
unfolding check_deployment check_coverage
validate_metadata identity m = do
  check_deployment identity m
  check_coverage identity m
  ensure (m.minimum_rollback_blocks == identity.minimum_rollback_blocks) identity_mismatch

-- `initialize_or_validate_metadata`
unfoldable pub initialize_or_validate_metadata : StoreIdentity → Session (Unit {0})
unfolding validate_metadata new_metadata
initialize_or_validate_metadata identity db = elim db.metadata [
  | none ↦ done tt (record db { metadata = some (new_metadata identity) })
  | some m ↦ validate_metadata identity m db
]

-- the checks of `WalletNamesTransaction::new`
unfoldable pub open_wallet_transaction : StoreIdentity → Session (Unit {0})
unfolding check_deployment check_coverage
open_wallet_transaction identity db = elim db.metadata [
  | none ↦ failed (sqlite query_returned_no_rows) db
  | some m ↦
      (check_deployment identity m
          >> (check_coverage identity m
              >> ensure (not (ltb m.minimum_rollback_blocks identity.minimum_rollback_blocks))
                  insufficient_rollback_retention))
        db
]

-- `put_core_snapshot`
unfoldable pub put_core_snapshot : Bytes → Session (Unit {0})
put_core_snapshot snapshot =
    update (update_metadata (λ m. record m { core_snapshot = some snapshot }))

-- `core_snapshot`
unfoldable pub core_snapshot : Session (Option Bytes)
core_snapshot db = elim db.metadata [
  | none ↦ failed (sqlite query_returned_no_rows) db
  | some m ↦ done m.core_snapshot db
]

pub data MissingAuthority : Type 0 where
  authoritative insufficient_coverage stale_tip : MissingAuthority

-- what the coverage says of a name that the store does not hold
unfoldable pub covers : Coverage → NameId → MissingAuthority
covers Coverage.complete id = authoritative
covers (Coverage.exact expected) id =
    if same expected id then authoritative else insufficient_coverage
covers Coverage.owned id = insufficient_coverage

-- `missing_authority`
unfoldable pub missing_authority : StoreIdentity → NameId → ReducerTip → Session MissingAuthority
unfolding covers
missing_authority identity id requested_tip = do
  tip ← read_tip
  pure (if same tip (some requested_tip) then covers identity.coverage id else stale_tip)

-- `wallet_commit_observation`
unfoldable pub wallet_commit_observation : Bytes → Session (Option CommitRef)
wallet_commit_observation commitment db = elim (get commitment db.wallet_commits) [
  | none ↦ done none db
  | some row ↦
      (lift (decode_32 row.txid) >>= λ txid.
      pure (some (record { height = row.height; tx_index = row.tx_index; txid = txid })))
        db
]

-- `record_wallet_commit`
unfoldable pub record_wallet_commit : Bytes → CommitRef → Session (Unit {0})
unfolding wallet_commit_observation
record_wallet_commit commitment reference db =
    (wallet_commit_observation commitment >>= λ existing.
    elim existing as (λ _. Session (Unit {0})) [
      | some value ↦ ensure (same value reference) authoritative_record_mismatch
      | none ↦ update (λ after. record after {
        wallet_commits = insert commitment reference after.wallet_commits;
      })
    ])
      db

-- `with_transaction`: an error drops the transaction, with every write in it
unfoldable pub with_transaction : {A : Type 0} → Session A → Session A
with_transaction operation db = elim (operation db) [
  | done output after ↦ done output after
  | failed error after ↦ failed error db
]

-- `with_block_savepoint`: an error takes back the writes since the savepoint
unfoldable pub with_block_savepoint : {A : Type 0} → Session A → Session A
with_block_savepoint operation db =
    let savepoint = db in
    elim (operation db) [
      | done output after ↦ done output after
      | failed error after ↦ failed error savepoint
    ]
