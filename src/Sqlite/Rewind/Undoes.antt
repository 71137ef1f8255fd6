-- ===== src/Sqlite/Rewind/Undoes.antt =====
-- Rolling back the block whose delta was just applied gives back the database as it was.
use coppice_names.Prelude.{
  ℕ, ◌≡◌, refl, sym, ap, ◌∙◌, Option, none, some, [], ◌∷◌, ok, ◌==◌, arith, length,
}
use coppice_names.Collections.Order.{
  nat_ord, list_ord, pair_ord, same_of_eq, same, same_self, eq_of_same,
}
use coppice_names.Collections.OrdMap.{OrdMap, get, insert}
use coppice_names.Collections.OrdMap.Lookup.{get-insert}
use coppice_names.Collections.OrdMap.Ascending.{IsAscending}
use coppice_names.Protocol.{Bytes, NameId, CommitRef, Primitives, commit_ref_ord}
use coppice_names.Reducer.State.{ReducerTip, StateDelta}
use coppice_names.Sqlite.Identity.{StoreIdentity}
use coppice_names.Sqlite.Tables.{
  Database, Metadata, RollbackBlock, rows_at, delete_blocks, delete_where,
}
use coppice_names.Sqlite.Session.{done, for_each, run_step, ensure, update, pure, ◌>>◌}
use coppice_names.Sqlite.Identity.{wrong_tip_hash}
use coppice_names.Sqlite.Records.{
  Json, optional_row, put, write_head, write_commit, write_tip, read_tip, stored_tip, height_of,
  hash_of, decode_optional_tip,
}
use coppice_names.Sqlite.Journal.{restore, restore_journal, delete_journal}
use coppice_names.Sqlite.Deltas.Applied.{
  with_block, with_tip, apply_delta_inversion, stored_tip-with_tip,
}
use coppice_names.Sqlite.Deltas.{apply_delta}
use coppice_names.Sqlite.Deltas.Journaled.{
  kept_head, kept_commit, IsReadableHead, IsReadableCommit, IsJournaled, apply_delta-IsJournaled,
  IsTyped,
}
use coppice_names.Sqlite.Rewind.{
  rollback_tip, previous_tip_of, select_block, restore_head_row, restore_head_rows,
  restore_commit_row, restore_commit_rows,
}
use coppice_names.Collections.OrdMap.Ascending.{get-Above, ascending_ext, insert-IsAscending}
use coppice_names.Sqlite.Tables.Laws.{
  get-rows_at, rows_at-IsAscending, get-delete_where, delete_where-IsAscending,
}
use coppice_names.Sqlite.Sound.{IsSound}
use coppice_names.Sqlite.Records.Reads.{
  IsFaithful, decode_optional_tip-eq-ok, stored_tip-decodes, stored_tip-eq-ok,
}

module _ ⦃prims : Primitives⦄ (json : Json) (identity : StoreIdentity) where
  restore_head_row_lem :
      (from_tip : Option ReducerTip) (id : NameId) (bytes : Option Bytes) (db : Database)
      → IsReadableHead json identity from_tip id bytes
      → restore_head_row json identity from_tip (id, bytes) db
        ≡ done tt (record db { heads = put id (kept_head json bytes) db.heads })
  unfolding restore_head_row write_head
  restore_head_row_lem from_tip id bytes db (named, r, decoded, valid) =
      let kept : optional_row r ≡ kept_head json bytes = rw (kept_head, decoded) refl in
      rw (named, decoded, valid)
        (ap (λ row. done tt (record db { heads = put id row db.heads })) kept)

  -- rows of the journal that can be read are written back
  pub restore_head_rows_lem :
      (from_tip : Option ReducerTip) (rows : OrdMap NameId (Option Bytes)) (db : Database)
      → IsAscending rows
      → ((id : NameId) (bytes : Option Bytes)
          → get id rows ≡ some bytes
          → IsReadableHead json identity from_tip id bytes)
      → restore_head_rows json identity from_tip rows db
        ≡ done tt (record db { heads = restore (kept_head json) rows db.heads })
  unfolding restore_head_rows for_each restore get
  restore_head_rows_lem from_tip [] db a readable = refl
  restore_head_rows_lem from_tip ((id, bytes) ∷ rows) db a readable =
      let row_eq =
        restore_head_row_lem from_tip id bytes db (readable id bytes (rw same_self refl)) in
      run_step (restore_head_row json identity from_tip (id, bytes)) _ db row_eq
      ∙ restore_head_rows_lem from_tip rows
          (record db { heads = put id (kept_head json bytes) db.heads }) a.1
          (λ j b p. readable j b (ground (arith, eq_of_same id j, get-Above id rows a.0)))

pub restore_commit_rows_lem :
    (rows : OrdMap CommitRef (Option Bytes)) (db : Database)
    → IsAscending rows
    → ((c : CommitRef) (bytes : Option Bytes) → get c rows ≡ some bytes → IsReadableCommit c bytes)
    → restore_commit_rows rows db
      ≡ done tt (record db { pending_commits = restore kept_commit rows db.pending_commits })
unfolding restore_commit_rows for_each restore_commit_row restore write_commit get
restore_commit_rows_lem [] db a readable = refl
restore_commit_rows_lem ((c, bytes) ∷ rows) db a readable =
    let (array, decoded) = readable c bytes (rw same_self refl) in
    rw (array, decoded)
      (restore_commit_rows_lem rows (record db { pending_commits = put c bytes db.pending_commits })
        a.1 (λ j b p. readable j b (ground (arith, eq_of_same c j, get-Above c rows a.0))))

select_block_lem :
    (height : ℕ) (hash : Bytes) (db : Database) (block : RollbackBlock)
    → get height db.rollback_blocks ≡ some block
    → block.hash ≡ hash
    → select_block height hash db ≡ some block
unfolding select_block
select_block_lem height hash db block found e =
    rw (select_block, found, same_of_eq block.hash hash e) refl

previous_tip_of_lem :
    (height : ℕ) (hash : Bytes) (db : Database) (block : RollbackBlock) (tip : Option ReducerTip)
    → select_block height hash db ≡ some block
    → decode_optional_tip block.previous_tip_height block.previous_tip_hash ≡ ok tip
    → previous_tip_of height hash db ≡ done tip db
unfolding previous_tip_of
previous_tip_of_lem height hash db block tip selected decoded =
    rw (previous_tip_of, selected, decoded) refl

database_ext :
    (a b : Database)
    → a.metadata ≡ b.metadata
    → a.heads ≡ b.heads
    → a.pending_commits ≡ b.pending_commits
    → a.wallet_commits ≡ b.wallet_commits
    → a.rollback_blocks ≡ b.rollback_blocks
    → a.rollback_heads ≡ b.rollback_heads
    → a.rollback_commits ≡ b.rollback_commits
    → a ≡ b
database_ext a b p1 p2 p3 p4 p5 p6 p7 = cc (p1, p2, p3, p4, p5, p6, p7)

-- the block's row goes, and the tip is what it was
delete_inserted_block :
    (h : ℕ) (block : RollbackBlock) (blocks : OrdMap ℕ RollbackBlock)
    → IsAscending blocks
    → get h blocks ≡ none
    → delete_where (λ height _. height == h) (insert h block blocks) ≡ blocks
delete_inserted_block h block blocks a fresh =
    ascending_ext (delete_where (λ height _. height == h) (insert h block blocks)) blocks
      (delete_where-IsAscending (λ height _. height == h) (insert h block blocks)
        (insert-IsAscending h block blocks a))
      a
      (λ k.
        get-delete_where (λ height. height == h) k (insert h block blocks)
        ∙ ground (arith, get-insert h k block blocks, eq_of_same h k, same_self h))

restore_metadata :
    (m : Metadata) (tip : Option ReducerTip) (other : ReducerTip) (metadata : Option Metadata)
    → metadata ≡ some m
    → m.tip_height ≡ height_of tip
    → m.tip_hash ≡ hash_of tip
    → (db : Database) → db.metadata ≡ metadata
    → (with_tip tip (with_tip (some other) db)).metadata ≡ metadata
restore_metadata m tip other metadata held h k db e =
    let same_tip : record m { tip_height = height_of tip; tip_hash = hash_of tip } ≡ m =
      cc (h, k) in
    rw (e, held) (ap some same_tip)

module _ ⦃prims : Primitives⦄ (json : Json) (identity : StoreIdentity) where
  -- `rollback_tip`, from what its steps do
  rollback_tip_lem :
      (db of_heads of_commits : Database) (tip : ReducerTip) (previous : Option ReducerTip)
      → stored_tip db ≡ ok (some tip)
      → previous_tip_of tip.height tip.hash db ≡ done previous db
      → restore_head_rows json identity previous (rows_at tip.height db.rollback_heads) db
        ≡ done tt of_heads
      → restore_commit_rows (rows_at tip.height of_heads.rollback_commits) of_heads
        ≡ done tt of_commits
      → rollback_tip json identity tip.hash db
        ≡ done previous
            (with_tip previous (delete_blocks (λ height. height == tip.height) of_commits))
  unfolding rollback_tip read_tip write_tip
  rollback_tip_lem db of_heads of_commits tip previous stored block heads commits =
      run_step read_tip _ db {a = some tip} {mid = db} (rw stored refl)
      ∙ run_step (ensure (same tip.hash tip.hash) wrong_tip_hash) _ db {a = tt} {mid = db}
          (rw same_self refl)
      ∙ run_step (previous_tip_of tip.height tip.hash) _ db block
      ∙ run_step (restore_head_rows json identity previous _) _ db heads
      ∙ run_step (restore_commit_rows (rows_at tip.height of_heads.rollback_commits))
          (λ _.
            update (delete_blocks (λ height. height == tip.height))
            >> (write_tip previous >> pure previous))
          of_heads commits

  -- the row that `insert_block` wrote
  previous_tip_of_block :
      (from_tip : Option ReducerTip) (to_tip : ReducerTip) (base now : Database) (m : Metadata)
      → base.metadata ≡ some m
      → stored_tip base ≡ ok from_tip
      → now.rollback_blocks ≡ (with_block to_tip from_tip base).rollback_blocks
      → previous_tip_of to_tip.height to_tip.hash now ≡ done from_tip now
  previous_tip_of_block from_tip to_tip base now m held stored blocks =
      let (height_eq, hash_eq) =
        decode_optional_tip-eq-ok m.tip_height m.tip_hash from_tip
          (stored_tip-decodes base m from_tip held stored) in
      let block : RollbackBlock = record {
        hash = to_tip.hash;
        previous_tip_height = height_of from_tip;
        previous_tip_hash = hash_of from_tip;
      } in
      let found : get to_tip.height now.rollback_blocks ≡ some block =
        ap (get to_tip.height) blocks
        ∙ get-insert to_tip.height to_tip.height block base.rollback_blocks
        ∙ rw same_self refl in
      let decoded : decode_optional_tip (height_of from_tip) (hash_of from_tip) ≡ ok from_tip =
        cc (height_eq, hash_eq, stored_tip-decodes base m from_tip held stored) in
      previous_tip_of_lem to_tip.height to_tip.hash now block from_tip
        (select_block_lem to_tip.height to_tip.hash now block found refl) decoded

  -- ... and all is back
  final :
      (from_tip : Option ReducerTip) (to_tip : ReducerTip) (base now : Database) (m : Metadata)
      → IsSound base
      → stored_tip base ≡ ok from_tip
      → base.metadata ≡ some m
      → get to_tip.height base.rollback_blocks ≡ none
      → IsJournaled json identity from_tip to_tip (with_block to_tip from_tip base) now
      → with_tip from_tip (
          delete_blocks
            (λ height. height == to_tip.height)
            (record (with_tip (some to_tip) now) {
              heads = restore (kept_head json) (rows_at to_tip.height now.rollback_heads) now.heads;
              pending_commits =
                  restore kept_commit
                    (rows_at to_tip.height now.rollback_commits)
                    now.pending_commits;
            }))
        ≡ base
  unfolding delete_blocks
  final from_tip to_tip base now m sound stored held fresh x =
      let (height_eq, hash_eq) =
        decode_optional_tip-eq-ok m.tip_height m.tip_hash from_tip
          (stored_tip-decodes base m from_tip held stored) in
      database_ext _ base
        (restore_metadata m from_tip to_tip base.metadata held height_eq hash_eq now x.metadata)
        (restore_journal (kept_head json) to_tip.height (IsReadableHead json identity from_tip)
          base.heads base.rollback_heads now.rollback_heads now.heads sound.heads x.heads)
        (restore_journal kept_commit to_tip.height IsReadableCommit base.pending_commits
          base.rollback_commits now.rollback_commits now.pending_commits sound.pending_commits
          x.commits)
        x.wallet_commits
        (rw x.rollback_blocks
          (delete_inserted_block to_tip.height _ base.rollback_blocks sound.rollback_blocks fresh))
        (delete_journal (kept_head json) to_tip.height (IsReadableHead json identity from_tip)
          base.heads base.rollback_heads now.rollback_heads now.heads sound.rollback_heads
          (λ id. sound.linked_heads to_tip.height id fresh) x.heads)
        (delete_journal kept_commit to_tip.height IsReadableCommit base.pending_commits
          base.rollback_commits now.rollback_commits now.pending_commits sound.rollback_commits
          (λ c. sound.linked_commits to_tip.height c fresh) x.commits)

  -- `rollback_tip` on tables with a readable journal
  rollback_journaled :
      (from_tip : Option ReducerTip) (to_tip : ReducerTip) (base now : Database) (m : Metadata)
      → IsSound base
      → stored_tip base ≡ ok from_tip
      → base.metadata ≡ some m
      → length to_tip.hash ≡ 32
      → get to_tip.height base.rollback_blocks ≡ none
      → IsJournaled json identity from_tip to_tip (with_block to_tip from_tip base) now
      → rollback_tip json identity to_tip.hash (with_tip (some to_tip) now) ≡ done from_tip base
  unfolding delete_blocks
  rollback_journaled from_tip to_tip base now m sound stored held size fresh x =
      rollback_tip_lem (with_tip (some to_tip) now) _ _ to_tip from_tip
        (stored_tip-with_tip to_tip now m (x.metadata ∙ held) size)
        (previous_tip_of_block from_tip to_tip base (with_tip (some to_tip) now) m held stored
          x.rollback_blocks)
        (restore_head_rows_lem json identity from_tip (rows_at to_tip.height now.rollback_heads)
          (with_tip (some to_tip) now)
          (rows_at-IsAscending to_tip.height now.rollback_heads x.heads.journal_ascending)
          (λ id bytes p.
            x.heads.valid id bytes (sym (get-rows_at to_tip.height id now.rollback_heads) ∙ p)))
        (restore_commit_rows_lem (rows_at to_tip.height now.rollback_commits) _
          (rows_at-IsAscending to_tip.height now.rollback_commits x.commits.journal_ascending)
          (λ c bytes p.
            x.commits.valid c bytes (sym (get-rows_at to_tip.height c now.rollback_commits) ∙ p)))
      ∙ ap (done from_tip) (final from_tip to_tip base now m sound stored held fresh x)

  -- Rolling back the block whose delta went through gives back the database and the tip of the
  -- start, row for row, if serde_json reads back what it wrote, the database is in order, and the
  -- delta's identifiers and hashes are 32 bytes as their types say.
  pub rollback_tip-apply_delta :
      (delta : StateDelta) (to_tip : ReducerTip) (db after : Database)
      → IsFaithful json
      → IsSound db
      → IsTyped delta
      → delta.to_tip ≡ some to_tip
      → length to_tip.hash ≡ 32
      → apply_delta json identity delta db ≡ done tt after
      → rollback_tip json identity to_tip.hash after ≡ done delta.from_tip db
  rollback_tip-apply_delta delta to_tip db after faithful sound typed to_eq size h =
      let a = apply_delta_inversion json identity delta db after h in
      let same_tip : a.to_tip ≡ to_tip = cc (a.to_eq, to_eq) in
      let (m, held, _, _) = stored_tip-eq-ok db delta.from_tip a.stored in
      let undone =
        rollback_journaled delta.from_tip a.to_tip db a.of_commits m sound a.stored held
          (rw same_tip size) a.fresh
          (apply_delta-IsJournaled json identity delta db after faithful sound typed a) in
      ap (λ d. rollback_tip json identity to_tip.hash d) a.after_eq
      ∙ ap
          (λ (t : ReducerTip).
            rollback_tip json identity t.hash (with_tip (some a.to_tip) a.of_commits))
          (sym same_tip)
      ∙ undone
