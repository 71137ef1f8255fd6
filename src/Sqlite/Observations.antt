-- ===== src/Sqlite/Observations.antt =====
-- The wallet's private record of where its COMMITs were seen.
use coppice_names.Prelude.{◌≡◌, refl, ◌∙◌, Bool, true, false, none, some, length, if◌then◌else◌}
use coppice_names.Collections.Order.{nat_ord, list_ord, option_ord, same, same_self}
use coppice_names.Collections.OrdMap.{get, insert}
use coppice_names.Collections.OrdMap.Lookup.{get-insert}
use coppice_names.Protocol.{Bytes, CommitRef, commit_ref_ord}
use coppice_names.Sqlite.Identity.{authoritative_record_mismatch}
use coppice_names.Sqlite.Tables.{Database}
use coppice_names.Sqlite.Session.{done, failed, run_step, ensure}
use coppice_names.Sqlite.Records.{decode_32}
use coppice_names.Sqlite.Store.{wallet_commit_observation, record_wallet_commit}

-- a stored location is read back
observation_lem :
    (commitment : Bytes) (reference : CommitRef) (db : Database)
    → get commitment db.wallet_commits ≡ some reference
    → length reference.txid ≡ 32
    → wallet_commit_observation commitment db ≡ done (some reference) db
unfolding wallet_commit_observation decode_32
observation_lem commitment reference db e size = rw (wallet_commit_observation, e, size) refl

no_observation :
    (commitment : Bytes) (db : Database)
    → get commitment db.wallet_commits ≡ none
    → wallet_commit_observation commitment db ≡ done none db
unfolding wallet_commit_observation
no_observation commitment db e = rw (wallet_commit_observation, e) refl

-- Recording the location of a COMMIT, on tables whose transaction identifiers have 32 bytes: the
-- first location is stored and read back; the same location again changes nothing; and another
-- location is refused with the database as it was.
pub record_wallet_commit_lem :
    (commitment : Bytes) (reference : CommitRef) (db : Database)
    → length reference.txid ≡ 32
    → (get commitment db.wallet_commits ≡ none
        → (after : Database) × (record_wallet_commit commitment reference db ≡ done tt after)
          × (wallet_commit_observation commitment after ≡ done (some reference) after))
      × ((stored : CommitRef)
          → length stored.txid ≡ 32
          → get commitment db.wallet_commits ≡ some stored
          → record_wallet_commit commitment reference db ≡ (
              if same stored reference
              then done tt db
              else failed authoritative_record_mismatch db))
unfolding record_wallet_commit
record_wallet_commit_lem commitment reference db size = (
  λ fresh.
      let after : Database = record db {
        wallet_commits = insert commitment reference db.wallet_commits;
      } in
      let stored : get commitment after.wallet_commits ≡ some reference =
        get-insert commitment commitment reference db.wallet_commits ∙ rw same_self refl in
      (
        after,
        run_step (wallet_commit_observation commitment) _ db (no_observation commitment db fresh),
        observation_lem commitment reference after stored size,
      ),
  λ stored stored_size held.
      run_step (wallet_commit_observation commitment) _ db
        (observation_lem commitment stored db held stored_size)
      ∙ ensured (same stored reference) db,
)
  where
    ensured :
        (test : Bool) (d : Database)
        → ensure test authoritative_record_mismatch d
          ≡ (if test then done tt d else failed authoritative_record_mismatch d)
    ensured true d = refl
    ensured false d = refl
