-- ===== src/Sqlite/Rewind/Agrees.antt =====
-- The two rollbacks of a tip agree.
use coppice_names.Prelude.{ℕ, ◌≡◌, refl, sym, ap, ◌∙◌, Option, List, ◌==◌, length, arith, inl, inr}
use coppice_names.Collections.Order.{nat_ord, list_ord, pair_ord}
use coppice_names.Collections.OrdMap.{OrdMap}
use coppice_names.Collections.OrdMap.Ascending.{IsAscending}
use coppice_names.Protocol.{Bytes, NameId, CommitRef, Primitives, commit_ref_ord}
use coppice_names.Reducer.State.{ReducerTip}
use coppice_names.Sqlite.Identity.{StoreIdentity}
use coppice_names.Sqlite.Tables.{Database, rows_at, delete_where, delete_blocks}
use coppice_names.Sqlite.Session.{
  Session, done, for_each, update, pure, run_step, run_failure, Outcome-cases, ◌>>◌,
}
use coppice_names.Sqlite.Records.{Json, write_head, write_commit, write_tip}
use coppice_names.Sqlite.Rewind.{
  restore_head_row, restore_commit_row, drain_commits, restore_commit_rows,
}
use coppice_names.Sqlite.Rewind.Drains.{
  visible, over, drain_lem, at_height, visible-eq-ok, visible-eq-err, for_each-over, for_each-keeps,
  length-rows_at, delete_where-twice,
}

module _ ⦃prims : Primitives⦄ (json : Json) (identity : StoreIdentity) where
  pub restore_head_row-set :
      (previous_tip : Option ReducerTip) (row : NameId × Option Bytes)
      (m : OrdMap (ℕ × NameId) (Option Bytes)) (db : Database)
      → restore_head_row json identity previous_tip row (record db { rollback_heads = m })
        ≡ over
            (λ (d : Database). record d { rollback_heads = m })
            (restore_head_row json identity previous_tip row db)
  unfolding restore_head_row write_head
  restore_head_row-set previous_tip row m db = ground arith

  pub restore_head_row-set_commits :
      (previous_tip : Option ReducerTip) (row : NameId × Option Bytes)
      (m : OrdMap (ℕ × CommitRef) (Option Bytes)) (db : Database)
      → restore_head_row json identity previous_tip row (record db { rollback_commits = m })
        ≡ over
            (λ (d : Database). record d { rollback_commits = m })
            (restore_head_row json identity previous_tip row db)
  unfolding restore_head_row write_head
  restore_head_row-set_commits previous_tip row m db = ground arith

restore_commit_row-set :
    (row : CommitRef × Option Bytes) (m : OrdMap (ℕ × CommitRef) (Option Bytes)) (db : Database)
    → restore_commit_row row (record db { rollback_commits = m })
      ≡ over (λ (d : Database). record d { rollback_commits = m }) (restore_commit_row row db)
unfolding restore_commit_row write_commit
restore_commit_row-set row m db = ground arith

restore_commit_row-set_heads :
    (row : CommitRef × Option Bytes) (m : OrdMap (ℕ × NameId) (Option Bytes)) (db : Database)
    → restore_commit_row row (record db { rollback_heads = m })
      ≡ over (λ (d : Database). record d { rollback_heads = m }) (restore_commit_row row db)
unfolding restore_commit_row write_commit
restore_commit_row-set_heads row m db = ground arith

-- what both rollbacks end with
abbrev pub finish : ℕ → Option ReducerTip → Session (Option ReducerTip)
finish height previous =
    update (delete_blocks (λ h. h == height)) >> (write_tip previous >> pure previous)

abbrev pub set_heads : OrdMap (ℕ × NameId) (Option Bytes) → Database → Database
set_heads m db = record db { rollback_heads = m }

abbrev set_commits : OrdMap (ℕ × CommitRef) (Option Bytes) → Database → Database
set_commits m db = record db { rollback_commits = m }

-- the journals without the rows of a block
abbrev pub heads_gone : ℕ → Database → OrdMap (ℕ × NameId) (Option Bytes)
heads_gone h db = delete_where (at_height h) db.rollback_heads

abbrev commits_gone : ℕ → Database → OrdMap (ℕ × CommitRef) (Option Bytes)
commits_gone h db = delete_where (at_height h) db.rollback_commits

-- Rows of the block that are gone already make no difference to the end.
finish_lem :
    (h : ℕ) (previous : Option ReducerTip) (db : Database)
    → finish h previous (set_commits (commits_gone h db) (set_heads (heads_gone h db) db))
      ≡ finish h previous db
unfolding delete_blocks write_tip
finish_lem h previous db =
    rw (delete_where-twice h db.rollback_commits, delete_where-twice h db.rollback_heads) refl

abbrev pub commit_rows : ℕ → Database → List (CommitRef × Option Bytes)
commit_rows h db = rows_at h db.rollback_commits

-- the loop over the COMMITs, after the heads' rows are gone
drained_commits :
    (h : ℕ) (db : Database)
    → IsAscending db.rollback_commits
    → visible (drain_commits (length db.rollback_commits) h (set_heads (heads_gone h db) db))
      ≡ visible (
          over (set_commits (commits_gone h db)) (
            over (set_heads (heads_gone h db)) (for_each restore_commit_row (commit_rows h db) db)))
unfolding drain_commits
drained_commits h db ascending =
    drain_lem restore_commit_row (λ d. d.rollback_commits) set_commits (λ m d. refl) (λ m n d. refl)
      (λ d. refl) restore_commit_row-set (length db.rollback_commits) h
      (set_heads (heads_gone h db) db) (commit_rows h db) ascending refl
      (length-rows_at h db.rollback_commits)
    ∙ ap (λ o. visible (over (set_commits (commits_gone h db)) o))
        (for_each-over restore_commit_row (set_heads (heads_gone h db))
          (λ row d. restore_commit_row-set_heads row (heads_gone h db) d) (commit_rows h db) db)

-- writing COMMITs back leaves the journals alone
commits_keep :
    (h : ℕ) (db mid : Database)
    → for_each restore_commit_row (commit_rows h db) db ≡ done tt mid
    → (mid.rollback_heads ≡ db.rollback_heads) × (mid.rollback_commits ≡ db.rollback_commits)
commits_keep h db mid e = (
  ap (λ (d : Database). d.rollback_heads)
      (for_each-keeps restore_commit_row (set_heads db.rollback_heads)
        (λ row d. restore_commit_row-set_heads row db.rollback_heads d) (commit_rows h db) db mid
        refl e),
  ap (λ (d : Database). d.rollback_commits)
      (for_each-keeps restore_commit_row (set_commits db.rollback_commits)
        (λ row d. restore_commit_row-set row db.rollback_commits d) (commit_rows h db) db mid refl
        e),
)

-- the second half: the COMMITs, and the end
pub commits_agree :
    (h : ℕ) (previous : Option ReducerTip) (db : Database)
    → IsAscending db.rollback_commits
    → visible (
        (drain_commits (length db.rollback_commits) h >> finish h previous)
          (set_heads (heads_gone h db) db))
      ≡ visible ((restore_commit_rows (commit_rows h db) >> finish h previous) db)
unfolding restore_commit_rows
commits_agree h previous db ascending =
    elim (Outcome-cases (for_each restore_commit_row (commit_rows h db) db)) [
      | inl (_, mid, e) ↦
          let (heads_kept, commits_kept) = commits_keep h db mid e in
          let ends =
            ap
              (λ (j : OrdMap (ℕ × CommitRef) (Option Bytes)).
                finish h previous
                  (set_commits (delete_where (at_height h) j) (set_heads (heads_gone h db) mid)))
              (sym commits_kept)
            ∙ ap
                (λ (j : OrdMap (ℕ × NameId) (Option Bytes)).
                  finish h previous (
                    set_commits (commits_gone h mid)
                      (set_heads (delete_where (at_height h) j) mid)))
                (sym heads_kept)
            ∙ finish_lem h previous mid in
          let drained_eq =
            visible-eq-ok _ tt (set_commits (commits_gone h db) (set_heads (heads_gone h db) mid)) (
              drained_commits h db ascending
              ∙ ap
                  (λ o.
                    visible (
                      over (set_commits (commits_gone h db))
                        (over (set_heads (heads_gone h db)) o)))
                  e) in
          ap visible (run_step (drain_commits (length db.rollback_commits) h) _ _ drained_eq ∙ ends)
          ∙ sym (ap visible (run_step (for_each restore_commit_row (commit_rows h db)) _ db e))
      | inr (error, mid, e) ↦
          let (left, drained_eq) = visible-eq-err _ error (
            drained_commits h db ascending
            ∙ ap
                (λ o.
                  visible
                    (over (set_commits (commits_gone h db)) (over (set_heads (heads_gone h db)) o)))
                e) in
          ap visible (run_failure (drain_commits (length db.rollback_commits) h) _ _ drained_eq)
          ∙ sym (ap visible (run_failure (for_each restore_commit_row (commit_rows h db)) _ db e))
    ]
