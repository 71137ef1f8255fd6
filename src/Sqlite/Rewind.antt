-- ===== src/Sqlite/Rewind.antt =====
-- Going back: `rollback_tip` of both transactions, `rollback_to_height`,
-- `rollback_to_height_or_reset`, `reset_for_replay` and `finalize_through`.
pub mod Undoes
pub mod Drains
pub mod Agrees
pub mod Wallet
pub mod Heights
pub mod Resets
use coppice_names.Prelude.{
  ℕ, zero, suc, Bool, true, false, not, Option, none, some, List, [], ◌∷◌, Result, ok, err, ok_or,
  ltb, leb, ◌==◌, if◌then◌else◌, is_some_and, length,
}
use coppice_names.Prelude.Word.{checked_sub}
use coppice_names.Collections.Order.{Ord, same, nat_ord, list_ord, pair_ord, option_ord}
use coppice_names.Collections.OrdMap.{OrdMap, get, remove}
use coppice_names.Protocol.{Bytes, NameId, CommitRef, Primitives, commit_ref_ord}
use coppice_names.Reducer.State.{ReducerTip}
use coppice_names.Sqlite.Identity.{
  StoreIdentity, missing_rollback_journal, wrong_tip_hash, finalization_beyond_tip,
  insufficient_rollback_retention,
}
use coppice_names.Sqlite.Tables.{
  Database, Metadata, RollbackBlock, rows_at, delete_where, delete_blocks,
}
use coppice_names.Sqlite.Session.{
  Session, Outcome, for_each, done, failed, lift, ensure, update, pure, ◌>>=◌, ◌>>◌,
}
use coppice_names.Sqlite.Records.{
  Json, decode_record, decode_32, decode_optional_32, decode_optional_tip, decode_name_id,
  validate_optional, write_head, write_commit, read_tip, write_tip, height_of, tip_ord,
  update_metadata,
}

-- a `SELECT`
abbrev pub query : {A : Type 0} → (Database → A) → Session A
query f db = done (f db) db

-- `SELECT .. FROM ext_coppice_names_rollback_blocks WHERE height = ?1 AND hash = ?2`
unfoldable pub select_block : ℕ → Bytes → Database → Option RollbackBlock
select_block height hash db = elim (get height db.rollback_blocks) [
  | none ↦ none
  | some block ↦ if same block.hash hash then some block else none
]

-- the tip before the block, from its row
unfoldable pub previous_tip_of : ℕ → Bytes → Session (Option ReducerTip)
unfolding select_block
previous_tip_of height hash = do
  row ← query (select_block height hash)
  block ← lift (ok_or row missing_rollback_journal)
  lift (decode_optional_tip block.previous_tip_height block.previous_tip_hash)

module _ ⦃prims : Primitives⦄ (json : Json) (identity : StoreIdentity) where
  -- one row of the journal of heads, written back
  unfoldable pub restore_head_row : Option ReducerTip → Bytes × Option Bytes → Session (Unit {0})
  restore_head_row previous_tip row = do
    id ← lift (decode_name_id row.0)
    previous ← lift (decode_record json row.1)
    lift (validate_optional id previous identity.network (height_of previous_tip))
    write_head id previous

  unfoldable pub restore_head_rows :
      Option ReducerTip → List (Bytes × Option Bytes) → Session (Unit {0})
  unfolding for_each restore_head_row
  restore_head_rows previous_tip rows = for_each (restore_head_row previous_tip) rows

-- one row of the journal of COMMITs, written back
unfoldable pub restore_commit_row : CommitRef × Option Bytes → Session (Unit {0})
restore_commit_row row = do
  txid ← lift (decode_32 row.0.txid)
  previous ← lift (decode_optional_32 row.1)
  write_commit (record { height = row.0.height; tx_index = row.0.tx_index; txid = txid }) previous

unfoldable pub restore_commit_rows : List (CommitRef × Option Bytes) → Session (Unit {0})
unfolding for_each restore_commit_row
restore_commit_rows rows = for_each restore_commit_row rows

module _ ⦃prims : Primitives⦄ (json : Json) (identity : StoreIdentity) where
  -- `SqliteNamesTransaction::rollback_tip`
  unfoldable pub rollback_tip : Bytes → Session (Option ReducerTip)
  unfolding restore_head_rows restore_commit_rows previous_tip_of
  rollback_tip expected_hash = do
    current ← read_tip
    tip ← lift (ok_or current missing_rollback_journal)
    ensure (same tip.hash expected_hash) wrong_tip_hash
    previous_tip ← previous_tip_of tip.height expected_hash
    heads ← query (λ db. rows_at tip.height db.rollback_heads)
    restore_head_rows json identity previous_tip heads
    commits ← query (λ db. rows_at tip.height db.rollback_commits)
    restore_commit_rows commits
    update (delete_blocks (λ height. height == tip.height))
    write_tip previous_tip
    pure previous_tip

-- A loop of `WalletNamesTransaction::rollback_tip`, `left` turns at most: the first journal row of
-- the block is written back and deleted, until there is none.
module _ {K : Type 0} ⦃o : Ord K⦄ (restore_row : K × Option Bytes → Session (Unit {0}))
    (journal : Database → OrdMap (ℕ × K) (Option Bytes))
    (set_journal : OrdMap (ℕ × K) (Option Bytes) → Database → Database) where
  -- one turn, on the rows that are left, and then the rest of the loop
  unfoldable pub drain_turn : Session (Unit {0}) → ℕ → List (K × Option Bytes) → Session (Unit {0})
  drain_turn next height [] db = done tt db
  drain_turn next height (row ∷ rest) db =
      (restore_row row
          >> (update (λ after. set_journal (remove (height, row.0) (journal after)) after) >> next))
        db

  unfoldable pub drain : ℕ → ℕ → Session (Unit {0})
  unfolding drain_turn
  drain zero height db = done tt db
  drain (suc left) height db =
      drain_turn (drain left height) height (rows_at height (journal db)) db

module _ ⦃prims : Primitives⦄ (json : Json) (identity : StoreIdentity) where
  -- the loop over the heads
  unfoldable pub drain_heads : ℕ → ℕ → Option ReducerTip → Session (Unit {0})
  unfolding drain restore_head_row
  drain_heads left height previous_tip =
      drain (restore_head_row json identity previous_tip) (λ db. db.rollback_heads)
        (λ rows db. record db { rollback_heads = rows }) left height

-- the loop over the COMMITs
unfoldable pub drain_commits : ℕ → ℕ → Session (Unit {0})
unfolding drain restore_commit_row
drain_commits left height =
    drain restore_commit_row (λ db. db.rollback_commits)
      (λ rows db. record db { rollback_commits = rows }) left height

-- the core's snapshot is of the tip before a rewind
unfoldable pub forget_snapshot : Bool → Database → Database
forget_snapshot true db = db
forget_snapshot false db = update_metadata (λ m. record m { core_snapshot = none }) db

module _ ⦃prims : Primitives⦄ (json : Json) (identity : StoreIdentity) where
  -- `WalletNamesTransaction::rollback_tip`; each loop has a turn for every row of its table
  unfoldable pub wallet_rollback_tip : Session (Option ReducerTip)
  unfolding drain_heads drain_commits previous_tip_of
  wallet_rollback_tip = do
    current ← read_tip
    tip ← lift (ok_or current missing_rollback_journal)
    previous_tip ← previous_tip_of tip.height tip.hash
    head_rows ← query (λ db. length db.rollback_heads)
    drain_heads json identity head_rows tip.height previous_tip
    commit_rows ← query (λ db. length db.rollback_commits)
    drain_commits commit_rows tip.height
    update (delete_blocks (λ height. height == tip.height))
    write_tip previous_tip
    pure previous_tip

  -- the body of the loop of `rollback_to_height`, whether the tip is above the height
  unfoldable pub rewind_turn : Session (Unit {0}) → Bool → Session (Unit {0})
  unfolding wallet_rollback_tip
  rewind_turn next false db = done tt db
  rewind_turn next true db = (wallet_rollback_tip >>= λ _. next) db

  -- the loop, `left` turns at most
  unfoldable pub rewind : ℕ → ℕ → Session (Unit {0})
  unfolding rewind_turn
  rewind zero height db = done tt db
  rewind (suc left) height db =
      (read_tip >>= λ tip.
      rewind_turn (rewind left height) (is_some_and tip (λ t. ltb height t.height)))
        db

  -- `rollback_to_height`; a turn deletes a block, so there is a turn for every block and one more
  unfoldable pub rollback_to_height : ℕ → Session (Option ReducerTip)
  unfolding rewind forget_snapshot
  rollback_to_height height = do
    original_tip ← read_tip
    blocks ← query (λ db. length db.rollback_blocks)
    rewind (suc blocks) height
    tip ← read_tip
    update (forget_snapshot (same tip original_tip))
    read_tip

-- `reset_for_replay`
unfoldable pub reset_for_replay : Session (Unit {0})
reset_for_replay = update (λ db.
    update_metadata
      (λ m. record m {
        tip_height = none;
        tip_hash = none;
        finalized_height = none;
        core_snapshot = none;
      })
      (record db {
        rollback_heads = [];
        rollback_commits = [];
        rollback_blocks = [];
        pending_commits = [];
        heads = [];
      }))

-- the arms of the match on `rollback_to_height`
unfoldable pub or_reset : Outcome (Option ReducerTip) → Outcome (Option ReducerTip)
unfolding reset_for_replay
or_reset (done tip db) = done tip db
or_reset (failed missing_rollback_journal db) = (reset_for_replay >> pure none) db
or_reset (failed e db) = failed e db

module _ ⦃prims : Primitives⦄ (json : Json) (identity : StoreIdentity) where
  -- `rollback_to_height_or_reset`
  unfoldable pub rollback_to_height_or_reset : ℕ → Session (Option ReducerTip)
  unfolding rollback_to_height or_reset
  rollback_to_height_or_reset height = do
    result ← λ db. or_reset (rollback_to_height json identity height db)
    update (λ db. record db {
      wallet_commits = delete_where (λ _ reference. ltb height reference.height) db.wallet_commits;
    })
    pure result

-- `CASE WHEN finalized_height IS NULL OR finalized_height < ?1 THEN ?1 ELSE finalized_height END`
abbrev pub set_finalized : ℕ → Metadata → Metadata
set_finalized height m = record m {
  finalized_height =
      if is_some_and m.finalized_height (λ finalized. not (ltb finalized height))
      then m.finalized_height
      else some height;
}

-- `finalize_through`
unfoldable pub finalize_through : StoreIdentity → ℕ → Session (Unit {0})
finalize_through identity height = do
  current ← read_tip
  tip ← lift (ok_or current finalization_beyond_tip)
  ensure (not (ltb tip.height height)) finalization_beyond_tip
  latest_safe ← lift (
      ok_or (checked_sub tip.height identity.minimum_rollback_blocks)
        insufficient_rollback_retention)
  ensure (not (ltb latest_safe height)) insufficient_rollback_retention
  update (delete_blocks (λ block. leb block height))
  update (update_metadata (set_finalized height))
