-- ===== src/Sqlite/Deltas.antt =====
-- `apply_delta`: a block's delta goes into the tables, and what it replaces into the journal.
pub mod Applied
pub mod Follows
pub mod Covers
pub mod Keeps
pub mod Journaled
use coppice_names.Prelude.{
  ℕ, Bool, true, false, not, ◌||◌, Option, none, some, List, [], ◌∷◌, Result, ok, err, ok_or, ◌==◌,
  if◌then◌else◌, is_some_and, all,
}
use coppice_names.Prelude.Word.{checked_add}
use coppice_names.Collections.Order.{same, nat_ord, list_ord, pair_ord, option_ord}
use coppice_names.Collections.OrdMap.{contains, insert}
use coppice_names.Protocol.{Bytes, NameId, CommitRef, Primitives, commit_ref_ord}
use coppice_names.Reducer.State.{ReducerTip, HeadChange, CommitChange, StateDelta}
use coppice_names.Sqlite.Identity.{
  Coverage, StoreIdentity, StoreError, sqlite, constraint_violation, tip_mismatch,
  non_sequential_delta, coverage_violation, authoritative_record_mismatch,
}
use coppice_names.Sqlite.Tables.{Database, RollbackBlock}
use coppice_names.Sqlite.Session.{Session, Outcome, done, failed, lift, ensure, ◌>>=◌, ◌>>◌}
use coppice_names.Sqlite.Records.{
  Json, encode_record, validate_optional, optional_record, read_head, write_head, read_commit,
  write_commit, read_tip, write_tip, height_of, hash_of, head_record_ord, tip_ord,
}

-- `INSERT INTO ext_coppice_names_rollback_blocks`
unfoldable pub insert_block : ReducerTip → Option ReducerTip → Session (Unit {0})
insert_block to_tip from_tip db =
    if contains to_tip.height db.rollback_blocks
    then failed (sqlite constraint_violation) db
    else done tt (record db {
      rollback_blocks =
          insert to_tip.height
            (record {
              hash = to_tip.hash;
              previous_tip_height = height_of from_tip;
              previous_tip_hash = hash_of from_tip;
            })
            db.rollback_blocks;
    })

-- `INSERT INTO ext_coppice_names_rollback_heads`; the block that the row refers to is there
unfoldable pub insert_rollback_head : ℕ → NameId → Option Bytes → Session (Unit {0})
insert_rollback_head height id previous db =
    if contains (height, id) db.rollback_heads
    then failed (sqlite constraint_violation) db
    else done tt (record db { rollback_heads = insert (height, id) previous db.rollback_heads })

-- `INSERT INTO ext_coppice_names_rollback_commits`, likewise
unfoldable pub insert_rollback_commit : ℕ → CommitRef → Option Bytes → Session (Unit {0})
insert_rollback_commit height reference previous db =
    if contains (height, reference) db.rollback_commits
    then failed (sqlite constraint_violation) db
    else done tt
        (record db { rollback_commits = insert (height, reference) previous db.rollback_commits })

-- the delta does not lead to the next height, or keeps the hash
abbrev pub is_out_of_sequence : Option ReducerTip → ReducerTip → Bool
is_out_of_sequence from_tip to_tip = is_some_and from_tip (λ from.
    not (same (checked_add from.height 1) (some to_tip.height)) || same from.hash to_tip.hash)

-- a store of one name is given another's head
abbrev pub is_outside : Coverage → List HeadChange → Bool
is_outside (Coverage.exact expected) heads =
    not (all (λ change. same change.name_id expected) heads)
is_outside _ heads = false

module _ ⦃prims : Primitives⦄ (json : Json) (identity : StoreIdentity) where
  -- one turn of the loop over `delta.heads`
  unfoldable pub apply_head : Option ReducerTip → ReducerTip → HeadChange → Session (Unit {0})
  unfolding insert_rollback_head
  apply_head from_tip to_tip change = do
    lift (
        validate_optional change.name_id (optional_record change.previous) identity.network
          (height_of from_tip))
    lift (
        validate_optional change.name_id (optional_record change.current) identity.network
          (some to_tip.height))
    actual ← read_head change.name_id
    ensure (same actual (optional_record change.previous)) authoritative_record_mismatch
    previous ← lift (encode_record json (optional_record change.previous))
    insert_rollback_head to_tip.height change.name_id previous
    write_head change.name_id (optional_record change.current)

  unfoldable pub apply_heads : Option ReducerTip → ReducerTip → List HeadChange → Session (Unit {0})
  unfolding apply_head
  apply_heads from_tip to_tip [] db = done tt db
  apply_heads from_tip to_tip (change ∷ rest) db =
      (apply_head from_tip to_tip change >> apply_heads from_tip to_tip rest) db

-- one turn of the loop over `delta.commits`
unfoldable pub apply_commit : ReducerTip → CommitChange → Session (Unit {0})
unfolding insert_rollback_commit
apply_commit to_tip change = do
  actual ← read_commit change.reference
  ensure (same actual change.previous) authoritative_record_mismatch
  insert_rollback_commit to_tip.height change.reference change.previous
  write_commit change.reference change.current

unfoldable pub apply_commits : ReducerTip → List CommitChange → Session (Unit {0})
unfolding apply_commit
apply_commits to_tip [] db = done tt db
apply_commits to_tip (change ∷ rest) db =
    (apply_commit to_tip change >> apply_commits to_tip rest) db

module _ ⦃prims : Primitives⦄ (json : Json) (identity : StoreIdentity) where
  -- `apply_delta`
  unfoldable pub apply_delta : StateDelta → Session (Unit {0})
  unfolding apply_heads apply_commits insert_block
  apply_delta delta = do
    tip ← read_tip
    ensure (same tip delta.from_tip) tip_mismatch
    to_tip ← lift (ok_or delta.to_tip non_sequential_delta)
    ensure (not (is_out_of_sequence delta.from_tip to_tip)) non_sequential_delta
    ensure (not (is_outside identity.coverage delta.heads)) coverage_violation
    insert_block to_tip delta.from_tip
    apply_heads json identity delta.from_tip to_tip delta.heads
    apply_commits to_tip delta.commits
    write_tip (some to_tip)

  -- `WalletNamesTransaction::apply_delta`: the same statements on the wallet's transaction
  unfoldable pub wallet_apply_delta : StateDelta → Session (Unit {0})
  unfolding apply_delta
  wallet_apply_delta delta = apply_delta delta
