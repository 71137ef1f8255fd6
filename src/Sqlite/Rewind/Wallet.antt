-- ===== src/Sqlite/Rewind/Wallet.antt =====
-- The wallet's rollback of a tip, which loops over single rows, against the one that lists them.
use coppice_names.Prelude.{
  ℕ, ◌≡◌, refl, sym, ap, subst, ◌∙◌, Option, some, List, ok, length, ◌⊎◌, inl, inr, Option-cases,
  Result-cases,
}
use coppice_names.Collections.Order.{nat_ord, list_ord, pair_ord, same, same_self}
use coppice_names.Collections.OrdMap.{OrdMap}
use coppice_names.Collections.OrdMap.Ascending.{IsAscending}
use coppice_names.Protocol.{Bytes, NameId, Primitives, commit_ref_ord}
use coppice_names.Reducer.State.{ReducerTip}
use coppice_names.Sqlite.Identity.{
  StoreIdentity, StoreError, wrong_tip_hash, missing_rollback_journal,
}
use coppice_names.Sqlite.Tables.{Database, rows_at, delete_where}
use coppice_names.Sqlite.Session.{
  Session, done, failed, for_each, ensure, run_step, run_failure, Outcome-cases, ◌>>=◌, ◌>>◌,
}
use coppice_names.Sqlite.Records.{Json, stored_tip, read_tip, decode_optional_tip}
use coppice_names.Sqlite.Sound.{IsSound}
use coppice_names.Sqlite.Rewind.{
  query, select_block, previous_tip_of, restore_head_row, restore_head_rows, restore_commit_rows,
  drain_heads, drain_commits, rollback_tip, wallet_rollback_tip,
}
use coppice_names.Sqlite.Rewind.Drains.{
  visible, over, at_height, drain_lem, visible-eq-ok, visible-eq-err, for_each-keeps,
  length-rows_at,
}
use coppice_names.Sqlite.Rewind.Agrees.{
  finish, set_heads, heads_gone, commit_rows, restore_head_row-set, restore_head_row-set_commits,
  commits_agree,
}

abbrev head_rows : ℕ → Database → List (NameId × Option Bytes)
head_rows h db = rows_at h db.rollback_heads

-- the second half of each rollback
abbrev drain_rest : ℕ → Option ReducerTip → Session (Option ReducerTip)
drain_rest h previous =
    query (λ d. length d.rollback_commits) >>= λ left. drain_commits left h >> finish h previous

abbrev list_rest : ℕ → Option ReducerTip → Session (Option ReducerTip)
list_rest h previous =
    query (commit_rows h) >>= λ rows. restore_commit_rows rows >> finish h previous

-- reading the row of the tip's block changes nothing
previous_tip_cases :
    (height : ℕ) (hash : Bytes) (db : Database)
    → ((tip : Option ReducerTip) × (previous_tip_of height hash db ≡ done tip db))
      ⊎ ((e : StoreError) × (previous_tip_of height hash db ≡ failed e db))
unfolding previous_tip_of
previous_tip_cases height hash db = elim (Option-cases (select_block height hash db)) [
  | inl e ↦ inr (missing_rollback_journal, rw e refl)
  | inr (block, e) ↦
      elim (Result-cases (decode_optional_tip block.previous_tip_height block.previous_tip_hash)) [
        | inl (tip, d) ↦ inl (tip, rw (e, d) refl)
        | inr (error, d) ↦ inr (error, rw (e, d) refl)
      ]
]

module _ ⦃prims : Primitives⦄ (json : Json) (identity : StoreIdentity) where
  drained_heads :
      (h : ℕ) (previous : Option ReducerTip) (db : Database)
      → IsAscending db.rollback_heads
      → visible (drain_heads json identity (length db.rollback_heads) h previous db)
        ≡ visible (
            over
              (set_heads (heads_gone h db))
              (for_each (restore_head_row json identity previous) (head_rows h db) db))
  unfolding drain_heads
  drained_heads h previous db ascending =
      drain_lem (restore_head_row json identity previous) (λ d. d.rollback_heads) set_heads
        (λ m d. refl) (λ m n d. refl) (λ d. refl) (restore_head_row-set json identity previous)
        (length db.rollback_heads) h db (head_rows h db) ascending refl
        (length-rows_at h db.rollback_heads)

  -- writing heads back leaves the journals alone
  heads_keep :
      (h : ℕ) (previous : Option ReducerTip) (db mid : Database)
      → for_each (restore_head_row json identity previous) (head_rows h db) db ≡ done tt mid
      → (mid.rollback_heads ≡ db.rollback_heads) × (mid.rollback_commits ≡ db.rollback_commits)
  heads_keep h previous db mid e = (
    ap (λ (d : Database). d.rollback_heads)
        (for_each-keeps (restore_head_row json identity previous) (set_heads db.rollback_heads)
          (λ row d. restore_head_row-set json identity previous row db.rollback_heads d)
          (head_rows h db) db mid refl e),
    ap (λ (d : Database). d.rollback_commits)
        (for_each-keeps (restore_head_row json identity previous)
          (λ d. record d { rollback_commits = db.rollback_commits })
          (λ row d. restore_head_row-set_commits json identity previous row db.rollback_commits d)
          (head_rows h db) db mid refl e),
  )

  heads_agree :
      (h : ℕ) (previous : Option ReducerTip) (db : Database)
      → IsAscending db.rollback_heads
      → IsAscending db.rollback_commits
      → visible (
          (drain_heads json identity (length db.rollback_heads) h previous >> drain_rest h previous)
            db)
        ≡ visible
            ((restore_head_rows json identity previous (head_rows h db) >> list_rest h previous) db)
  unfolding restore_head_rows
  heads_agree h previous db ascending ascending_commits =
      elim (Outcome-cases
        (for_each (restore_head_row json identity previous) (head_rows h db) db)) [
          | inl (_, mid, e) ↦
              let (heads_kept, commits_kept) = heads_keep h previous db mid e in
              let drained_eq = visible-eq-ok _ tt (set_heads (heads_gone h mid) mid) (
                drained_heads h previous db ascending
                ∙ ap (λ o. visible (over (set_heads (heads_gone h db)) o)) e
                ∙ ap
                    (λ (j : OrdMap (ℕ × NameId) (Option Bytes)).
                      ok (tt, set_heads (delete_where (at_height h) j) mid))
                    (sym heads_kept)) in
              ap visible (
                run_step (drain_heads json identity (length db.rollback_heads) h previous)
                  (λ _. drain_rest h previous) db drained_eq)
              ∙ commits_agree h previous mid
                  (subst IsAscending (sym commits_kept) ascending_commits)
              ∙ sym (
                  ap visible (
                    run_step (for_each (restore_head_row json identity previous) (head_rows h db))
                      (λ _. list_rest h previous) db e))
          | inr (error, mid, e) ↦
              let (left, drained_eq) = visible-eq-err _ error (
                drained_heads h previous db ascending
                ∙ ap (λ o. visible (over (set_heads (heads_gone h db)) o)) e) in
              ap visible (
                run_failure (drain_heads json identity (length db.rollback_heads) h previous)
                  (λ _. drain_rest h previous) db drained_eq)
              ∙ sym (
                  ap visible (
                    run_failure
                      (for_each (restore_head_row json identity previous) (head_rows h db))
                      (λ _. list_rest h previous) db e))
        ]

  -- On a database in order, the wallet's rollback of the tip, which writes back and deletes one
  -- journal row at a time, ends for its host as the rollback that lists the rows of the tip's
  -- block does: with the same error, or with the same tip and the same tables.
  pub wallet_rollback_tip-visible :
      (db : Database) (tip : ReducerTip)
      → IsSound db
      → stored_tip db ≡ ok (some tip)
      → visible (wallet_rollback_tip json identity db)
        ≡ visible (rollback_tip json identity tip.hash db)
  unfolding wallet_rollback_tip rollback_tip read_tip
  wallet_rollback_tip-visible db tip sound stored =
      elim (previous_tip_cases tip.height tip.hash db) [
        | inl (previous, e) ↦
            ap visible (
              run_step read_tip _ db {a = some tip} {mid = db} (rw stored refl)
              ∙ run_step (previous_tip_of tip.height tip.hash) _ db e)
            ∙ heads_agree tip.height previous db sound.rollback_heads sound.rollback_commits
            ∙ sym (
                ap visible (
                  run_step read_tip _ db {a = some tip} {mid = db} (rw stored refl)
                  ∙ run_step (ensure (same tip.hash tip.hash) wrong_tip_hash) _ db {a = tt}
                      {mid = db} (rw same_self refl)
                  ∙ run_step (previous_tip_of tip.height tip.hash) _ db e))
        | inr (error, e) ↦
            ap visible (
              run_step read_tip _ db {a = some tip} {mid = db} (rw stored refl)
              ∙ run_failure (previous_tip_of tip.height tip.hash) _ db e)
            ∙ sym (
                ap visible (
                  run_step read_tip _ db {a = some tip} {mid = db} (rw stored refl)
                  ∙ run_step (ensure (same tip.hash tip.hash) wrong_tip_hash) _ db {a = tt}
                      {mid = db} (rw same_self refl)
                  ∙ run_failure (previous_tip_of tip.height tip.hash) _ db e))
      ]
