-- ===== src/Sqlite/Rewind/Resets.antt =====
-- The rewind that may give the journals up, and finalization, which shortens them.
use coppice_names.Prelude.{
  ℕ, ◌+◌, ◌≤◌, ◌≡◌, ◌≢◌, refl, sym, ap, subst, ◌∙◌, Bool, false, not, Option, none, some, [], ◌∷◌,
  ok, ok_or, ok_or-eq-ok, ltb, leb, arith, if◌then◌else◌, Bool-cases, inl, inr,
}
use coppice_names.Prelude.Word.{checked_sub}
use coppice_names.Collections.Order.{Ord, nat_ord, list_ord, pair_ord, same}
use coppice_names.Collections.OrdMap.{OrdMap, get}
use coppice_names.Protocol.{Bytes, CommitRef, Primitives}
use coppice_names.Reducer.State.{ReducerTip}
use coppice_names.Sqlite.Identity.{
  StoreIdentity, missing_rollback_journal, finalization_beyond_tip, insufficient_rollback_retention,
}
use coppice_names.Sqlite.Tables.{Database, RollbackBlock, delete_where, delete_blocks}
use coppice_names.Sqlite.Tables.Laws.{get-delete_where}
use coppice_names.Sqlite.Session.{
  Outcome, done, failed, after_step, after_lift, after_ensure, done_injective, run_step,
  run_failure, Outcome-cases,
}
use coppice_names.Sqlite.Records.{Json, stored_tip}
use coppice_names.Sqlite.Records.Reads.{after_read_tip, stored_tip-update_metadata}
use coppice_names.Sqlite.Rewind.{
  rollback_to_height, or_reset, rollback_to_height_or_reset, reset_for_replay, finalize_through,
  set_finalized,
}
use coppice_names.Sqlite.Rewind.Heights.{IsAtMost, rollback_to_height-IsAtMost}

-- a row that a deletion leaves fails its test
delete_where-keeps :
    {K : Type 0} {V : Type 0} ⦃o : Ord K⦄ (test : K → V → Bool) (m : OrdMap K V) (k : K) (v : V)
    → get k (delete_where test m) ≡ some v
    → (j : K) × (test j v ≡ false)
unfolding get delete_where
delete_where-keeps test [] k v e = cc (e)
delete_where-keeps test ((j, w) ∷ m) k v e = elim (Bool-cases (test j w)) [
  | inl deleted ↦ delete_where-keeps test m k v (ground arith)
  | inr kept ↦ elim (Bool-cases (same j k)) [
    | inl here ↦ (j, ground arith)
    | inr there ↦ delete_where-keeps test m k v (ground arith)
  ]
]

or_reset-never_missing :
    (o : Outcome (Option ReducerTip)) (db : Database)
    → or_reset o ≢ failed missing_rollback_journal db
unfolding or_reset reset_for_replay
or_reset-never_missing (done tip mid) db h = cc (h)
or_reset-never_missing (failed e mid) db h = ground arith

or_reset-IsAtMost :
    (height : ℕ) (o : Outcome (Option ReducerTip)) (db : Database) (tip : Option ReducerTip)
    → ((t : Option ReducerTip) (mid : Database) → o ≡ done t mid → IsAtMost height t)
    → or_reset o ≡ done tip db
    → IsAtMost height tip
unfolding or_reset reset_for_replay
or_reset-IsAtMost height (done t mid) db tip low h =
    subst (IsAtMost height) (cc (h)) (low t mid refl)
or_reset-IsAtMost height (failed e mid) db tip low h = ground arith

module _ ⦃prims : Primitives⦄ (json : Json) (identity : StoreIdentity) where
  -- A `rollback_to_height_or_reset` never fails for want of a journal. If it succeeds, the tip that
  -- it returns is at or below the height or there is none, and no wallet COMMIT above the height
  -- is left.
  pub rollback_to_height_or_reset-clears :
      (height : ℕ) (db after : Database)
      → (rollback_to_height_or_reset json identity height db
          ≢ failed missing_rollback_journal after)
        × ((tip : Option ReducerTip)
            → rollback_to_height_or_reset json identity height db ≡ done tip after
            → IsAtMost height tip
              × ((commitment : Bytes) (reference : CommitRef)
                  → get commitment after.wallet_commits ≡ some reference
                  → reference.height ≤ height))
  unfolding rollback_to_height_or_reset
  rollback_to_height_or_reset-clears height db after = (
    λ h. elim (Outcome-cases (or_reset (rollback_to_height json identity height db))) [
      | inl (tip, mid, e) ↦
          let ends =
            sym (run_step (λ d. or_reset (rollback_to_height json identity height d)) _ db e) ∙ h in
          cc (ends)
      | inr (error, mid, e) ↦
          let ends =
            sym (run_failure (λ d. or_reset (rollback_to_height json identity height d)) _ db e)
            ∙ h in
          let missing : error ≡ missing_rollback_journal = cc (ends) in
          or_reset-never_missing _ mid (e ∙ ap (λ x. failed x mid) missing)
    ],
    λ tip h.
        let (result, mid, first, rest) =
          after_step (λ d. or_reset (rollback_to_height json identity height d)) _ db h in
        let end_eq =
          ap (λ (d : Database). d.wallet_commits) (done_injective result tip _ after rest) in
        let low =
          or_reset-IsAtMost height (rollback_to_height json identity height db) mid result
            (λ t mid2 k. (rollback_to_height-IsAtMost json identity height db mid2 t k).1) first in
        let same_tip : result ≡ tip = cc (rest) in
        (
          subst (IsAtMost height) same_tip low,
          λ commitment reference found.
              let (j, kept) =
                delete_where-keeps (λ _ (r : CommitRef). ltb height r.height) mid.wallet_commits
                  commitment reference (ap (get commitment) (sym end_eq) ∙ found) in
              ground arith,
        ),
  )

-- the blocks of the journal that finalization leaves
abbrev pub above : ℕ → ℕ → Option RollbackBlock → Option RollbackBlock
above height k block = if leb k height then none else block

stored_tip-delete_blocks :
    (test : ℕ → Bool) (db : Database) → stored_tip (delete_blocks test db) ≡ stored_tip db
unfolding stored_tip delete_blocks
stored_tip-delete_blocks test db = refl

-- A finalization that succeeds has found a tip that is at least the store's retention above the
-- height; of the journal of blocks it has deleted exactly those up to the height, and it has left
-- the records and the tip as they were.
pub finalize_through_lem :
    (identity : StoreIdentity) (height : ℕ) (db after : Database)
    → finalize_through identity height db ≡ done tt after
    → (tip : ReducerTip) × (stored_tip db ≡ ok (some tip))
      × (stored_tip after ≡ ok (some tip))
      × (height + identity.minimum_rollback_blocks ≤ tip.height)
      × ((k : ℕ) → get k after.rollback_blocks ≡ above height k (get k db.rollback_blocks))
      × (after.heads ≡ db.heads)
      × (after.pending_commits ≡ db.pending_commits)
unfolding finalize_through delete_blocks
finalize_through_lem identity height db after h =
    let (current, stored, h1) = after_read_tip _ db h in
    let (tip, is_tip, h2) = after_lift (ok_or current finalization_beyond_tip) _ db h1 in
    let (below, h3) = after_ensure (not (ltb tip.height height)) _ _ db h2 in
    let (safe, is_safe, h4) =
      after_lift
        (ok_or (checked_sub tip.height identity.minimum_rollback_blocks)
          insufficient_rollback_retention)
        _ db h3 in
    let (retained, h5) = after_ensure (not (ltb safe height)) _ _ db h4 in
    let of_safe =
      ok_or-eq-ok (checked_sub tip.height identity.minimum_rollback_blocks)
        insufficient_rollback_retention safe is_safe in
    let after_eq = done_injective tt tt _ after h5 in
    let some_tip = ok_or-eq-ok current finalization_beyond_tip tip is_tip in
    (
      tip,
      stored ∙ ap ok some_tip,
      ap stored_tip after_eq
          ∙ stored_tip-update_metadata (set_finalized height)
              (delete_blocks (λ block. leb block height) db) (λ m. (refl, refl))
          ∙ stored_tip-delete_blocks (λ block. leb block height) db
          ∙ stored
          ∙ ap ok some_tip,
      ground arith,
      λ k.
          ap (λ (d : Database). get k d.rollback_blocks) after_eq
          ∙ get-delete_where (λ block. leb block height) k db.rollback_blocks,
      ap (λ (d : Database). d.heads) after_eq,
      ap (λ (d : Database). d.pending_commits) after_eq,
    )
