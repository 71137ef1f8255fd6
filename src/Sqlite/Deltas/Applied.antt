-- ===== src/Sqlite/Deltas/Applied.antt =====
-- A successful `apply_delta`, taken apart.
use coppice_names.Prelude.{
  ℕ, ◌≡◌, refl, ap, subst, ◌∙◌, Option, none, some, ok, ok_or, ok_or-eq-ok, not-eq-true, not, false,
  length, arith,
}
use coppice_names.Collections.Order.{eq_of_same, nat_ord, list_ord, pair_ord, option_ord}
use coppice_names.Collections.OrdMap.{get, insert, contains}
use coppice_names.Protocol.{Bytes, NameId, CommitRef, Primitives, commit_ref_ord}
use coppice_names.Reducer.State.{ReducerTip, HeadChange, CommitChange, StateDelta}
use coppice_names.Sqlite.Identity.{StoreIdentity, non_sequential_delta}
use coppice_names.Sqlite.Tables.{Database, Metadata}
use coppice_names.Sqlite.Session.{done, after_step, after_lift, done_injective, after_ensure}
use coppice_names.Sqlite.Records.{
  Json, encode_record, validate_optional, optional_record, optional_row, put, write_head,
  write_commit, write_tip, stored_tip, update_metadata, height_of, hash_of, head_record_ord,
  tip_ord, decode_optional_32, decode_32, decode_optional_tip,
}
use coppice_names.Sqlite.Records.Reads.{after_read_head, after_read_commit, after_read_tip}
use coppice_names.Sqlite.Deltas.{
  insert_block, insert_rollback_head, insert_rollback_commit, apply_head, apply_heads, apply_commit,
  apply_commits, apply_delta, is_out_of_sequence, is_outside,
}

pub insert_rollback_head-eq-done :
    (height : ℕ) (id : NameId) (previous : Option Bytes) (db : Database) {after : Database}
    → insert_rollback_head height id previous db ≡ done tt after
    → (get (height, id) db.rollback_heads ≡ none)
      × (after ≡ record db { rollback_heads = insert (height, id) previous db.rollback_heads })
unfolding insert_rollback_head contains
insert_rollback_head-eq-done height id previous db h = ground arith

pub insert_rollback_commit-eq-done :
    (height : ℕ) (reference : CommitRef) (previous : Option Bytes) (db : Database)
    {after : Database}
    → insert_rollback_commit height reference previous db ≡ done tt after
    → (get (height, reference) db.rollback_commits ≡ none)
      × (after ≡ record db {
        rollback_commits = insert (height, reference) previous db.rollback_commits;
      })
unfolding insert_rollback_commit contains
insert_rollback_commit-eq-done height reference previous db h = ground arith

module _ ⦃prims : Primitives⦄ (json : Json) (identity : StoreIdentity) where
  -- a change of a head that went through
  pub record IsAppliedHead (from_tip : Option ReducerTip) (to_tip : ReducerTip)
      (change : HeadChange) (db after : Database) : Type 0 where
    pub bytes : Option Bytes
    pub checked :
        validate_optional change.name_id
          (optional_record change.previous)
          identity.network
          (height_of from_tip)
        ≡ ok tt
    pub held : get change.name_id db.heads ≡ optional_row (optional_record change.previous)
    pub encoded : encode_record json (optional_record change.previous) ≡ ok bytes
    pub fresh : get (to_tip.height, change.name_id) db.rollback_heads ≡ none
    pub after_eq : after ≡ record db {
      rollback_heads = insert (to_tip.height, change.name_id) bytes db.rollback_heads;
      heads = put change.name_id (optional_row (optional_record change.current)) db.heads;
    }

  pub apply_head_inversion :
      (from_tip : Option ReducerTip) (to_tip : ReducerTip) (change : HeadChange)
      (db after : Database)
      → apply_head json identity from_tip to_tip change db ≡ done tt after
      → IsAppliedHead from_tip to_tip change db after
  unfolding apply_head write_head
  apply_head_inversion from_tip to_tip change db after h =
      let (_, valid, h1) = after_lift (validate_optional _ _ _ _) _ db h in
      let (_, valid_now, h2) = after_lift (validate_optional _ _ _ _) _ db h1 in
      let (actual, held, h3) = after_read_head change.name_id _ db h2 in
      let (equal, h4) = after_ensure _ _ _ db h3 in
      let (bytes, encoded, h5) = after_lift _ _ db h4 in
      let (_, mid, inserted, h6) = after_step (insert_rollback_head _ _ bytes) _ db h5 in
      let (fresh, mid_eq) = insert_rollback_head-eq-done _ _ bytes db inserted in
      record {
        bytes = bytes;
        checked = valid;
        held = held ∙ ap optional_row (eq_of_same actual (optional_record change.previous) equal);
        encoded = encoded;
        fresh = fresh;
        after_eq = cc (h6, mid_eq);
      }

-- a change of a COMMIT that went through
pub record IsAppliedCommit (to_tip : ReducerTip) (change : CommitChange) (db after : Database)
    : Type 0 where
  pub held : get change.reference db.pending_commits ≡ change.previous
  pub decoded : decode_optional_32 change.previous ≡ ok change.previous
  pub fresh : get (to_tip.height, change.reference) db.rollback_commits ≡ none
  pub after_eq : after ≡ record db {
    rollback_commits = insert (to_tip.height, change.reference) change.previous db.rollback_commits;
    pending_commits = put change.reference change.current db.pending_commits;
  }

pub apply_commit_inversion :
    (to_tip : ReducerTip) (change : CommitChange) (db after : Database)
    → apply_commit to_tip change db ≡ done tt after
    → IsAppliedCommit to_tip change db after
unfolding apply_commit write_commit
apply_commit_inversion to_tip change db after h =
    let (actual, held, decoded, h1) = after_read_commit change.reference _ db h in
    let (equal, h2) = after_ensure _ _ _ db h1 in
    let (_, mid, inserted, h3) = after_step (insert_rollback_commit _ _ _) _ db h2 in
    let (fresh, mid_eq) = insert_rollback_commit-eq-done _ _ _ db inserted in
    let same_commit = eq_of_same actual change.previous equal in
    record {
      held = held ∙ same_commit;
      decoded = subst (λ c. decode_optional_32 c ≡ ok c) same_commit decoded;
      fresh = fresh;
      after_eq = cc (h3, mid_eq);
    }

pub insert_block-eq-done :
    (to_tip : ReducerTip) (from_tip : Option ReducerTip) (db : Database) {after : Database}
    → insert_block to_tip from_tip db ≡ done tt after
    → (get to_tip.height db.rollback_blocks ≡ none)
      × (after ≡ record db {
        rollback_blocks =
            insert to_tip.height
              (record {
                hash = to_tip.hash;
                previous_tip_height = height_of from_tip;
                previous_tip_hash = hash_of from_tip;
              })
              db.rollback_blocks;
      })
unfolding insert_block contains
insert_block-eq-done to_tip from_tip db h = ground arith

-- the database with the row of a block, before its changes
abbrev pub with_block : ReducerTip → Option ReducerTip → Database → Database
with_block to_tip from_tip db = record db {
  rollback_blocks =
      insert to_tip.height
        (record {
          hash = to_tip.hash;
          previous_tip_height = height_of from_tip;
          previous_tip_hash = hash_of from_tip;
        })
        db.rollback_blocks;
}

abbrev pub with_tip : Option ReducerTip → Database → Database
with_tip tip db =
    update_metadata (λ m. record m { tip_height = height_of tip; tip_hash = hash_of tip }) db

-- a tip that was just written is read back
pub stored_tip-with_tip :
    (tip : ReducerTip) (db : Database) (m : Metadata)
    → db.metadata ≡ some m
    → length tip.hash ≡ 32
    → stored_tip (with_tip (some tip) db) ≡ ok (some tip)
unfolding stored_tip decode_optional_tip decode_32
stored_tip-with_tip tip db m held size = rw (held, size) refl

module _ ⦃prims : Primitives⦄ (json : Json) (identity : StoreIdentity) where
  -- a delta that went through
  pub record IsAppliedDelta (delta : StateDelta) (db after : Database) : Type 0 where
    pub to_tip : ReducerTip
    pub of_heads : Database
    pub of_commits : Database
    pub to_eq : delta.to_tip ≡ some to_tip
    pub stored : stored_tip db ≡ ok delta.from_tip
    pub sequential : is_out_of_sequence delta.from_tip to_tip ≡ false
    pub covered : is_outside identity.coverage delta.heads ≡ false
    pub fresh : get to_tip.height db.rollback_blocks ≡ none
    pub heads_applied :
        apply_heads json identity delta.from_tip to_tip delta.heads
          (with_block to_tip delta.from_tip db)
        ≡ done tt of_heads
    pub commits_applied : apply_commits to_tip delta.commits of_heads ≡ done tt of_commits
    pub after_eq : after ≡ with_tip (some to_tip) of_commits

  pub apply_delta_inversion :
      (delta : StateDelta) (db after : Database)
      → apply_delta json identity delta db ≡ done tt after
      → IsAppliedDelta delta db after
  unfolding apply_delta write_tip
  apply_delta_inversion delta db after h =
      let (tip, stored, h1) = after_read_tip _ db h in
      let (equal, h2) = after_ensure _ _ _ db h1 in
      let (to_tip, to_eq, h3) = after_lift (ok_or delta.to_tip non_sequential_delta) _ db h2 in
      let (sequential, h4) =
        after_ensure (not (is_out_of_sequence delta.from_tip to_tip)) _ _ db h3 in
      let (covered, h5) = after_ensure (not (is_outside identity.coverage delta.heads)) _ _ db h4 in
      let (_, opened, inserted, h6) = after_step (insert_block to_tip delta.from_tip) _ db h5 in
      let (fresh, opened_eq) = insert_block-eq-done to_tip delta.from_tip db inserted in
      let (_, of_heads, heads_applied, h7) =
        after_step (apply_heads json identity delta.from_tip to_tip delta.heads) _ opened h6 in
      let (_, of_commits, commits_applied, h8) =
        after_step (apply_commits to_tip delta.commits) _ of_heads h7 in
      let tip_eq = eq_of_same tip delta.from_tip equal in
      record {
        to_tip = to_tip;
        of_heads = of_heads;
        of_commits = of_commits;
        to_eq = ok_or-eq-ok delta.to_tip non_sequential_delta to_tip to_eq;
        stored = stored ∙ ap ok tip_eq;
        sequential = not-eq-true _ sequential;
        covered = not-eq-true _ covered;
        fresh = fresh;
        heads_applied =
            subst
              (λ d.
                apply_heads json identity delta.from_tip to_tip delta.heads d ≡ done tt of_heads)
              opened_eq heads_applied;
        commits_applied = commits_applied;
        after_eq = done_injective tt tt (with_tip (some to_tip) of_commits) after h8;
      }
