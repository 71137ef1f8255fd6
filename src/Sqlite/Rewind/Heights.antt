-- ===== src/Sqlite/Rewind/Heights.antt =====
-- The rewind to a height ends, and at or below that height.
use coppice_names.Prelude.{
  ℕ, zero, suc, ◌≤◌, ◌<◌, ◌≡◌, refl, sym, ap, ◌∙◌, subst, Bool, true, false, Option, none, some,
  List, [], ◌∷◌, ok, ok_or, ok_or-eq-ok, ltb, ◌==◌, length, is_some_and, arith,
}
use coppice_names.Collections.Order.{Ord, nat_ord, list_ord, pair_ord, same}
use coppice_names.Collections.OrdMap.{OrdMap, get}
use coppice_names.Protocol.{Bytes, NameId, CommitRef, Primitives, commit_ref_ord}
use coppice_names.Reducer.State.{ReducerTip}
use coppice_names.Sqlite.Identity.{StoreIdentity, missing_rollback_journal}
use coppice_names.Sqlite.Tables.{Database, RollbackBlock, rows_at, delete_where, delete_blocks}
use coppice_names.Sqlite.Session.{
  Session, done, after_step, after_lift, lift-eq-done, done_injective, ◌>>=◌,
}
use coppice_names.Sqlite.Records.{
  Json, stored_tip, read_tip, write_tip, write_head, write_commit, decode_name_id, decode_record,
  validate_optional, decode_32, decode_optional_32, decode_optional_tip, height_of, tip_ord,
}
use coppice_names.Sqlite.Records.Reads.{after_read_tip, stored_tip-update_metadata}
use coppice_names.Sqlite.Rewind.{
  select_block, previous_tip_of, restore_head_row, restore_commit_row, drain, drain_turn,
  drain_heads, drain_commits, wallet_rollback_tip, rewind, rewind_turn, rollback_to_height,
  forget_snapshot,
}

-- Deleting a row that is there makes the table shorter.
module _ {V : Type 0} where
  length-delete_where :
      (h : ℕ) (m : OrdMap ℕ V) → length (delete_where (λ k _. k == h) m) ≤ length m
  unfolding delete_where
  length-delete_where h [] = ground arith
  length-delete_where h ((k, v) ∷ m) = ground (arith, length-delete_where h m)

  length-delete_there :
      (h : ℕ) (v : V) (m : OrdMap ℕ V)
      → get h m ≡ some v
      → length (delete_where (λ k _. k == h) m) < length m
  unfolding delete_where get same nat_ord
  length-delete_there h v [] e = ground arith
  length-delete_there h v ((k, w) ∷ m) e =
      ground (arith, length-delete_there h v m, length-delete_where h m)

-- a loop over journal rows leaves the blocks alone, if each of its turns does
module _ {K : Type 0} ⦃o : Ord K⦄ (restore_row : K × Option Bytes → Session (Unit {0}))
    (journal : Database → OrdMap (ℕ × K) (Option Bytes))
    (set_journal : OrdMap (ℕ × K) (Option Bytes) → Database → Database)
    (row_keeps : (row : K × Option Bytes) (db mid : Database)
      → restore_row row db ≡ done tt mid
      → mid.rollback_blocks ≡ db.rollback_blocks)
    (set_keeps : (m : OrdMap (ℕ × K) (Option Bytes)) (db : Database)
      → (set_journal m db).rollback_blocks ≡ db.rollback_blocks) where
  drain_turn_keeps :
      (next : Session (Unit {0})) (h : ℕ) (rows : List (K × Option Bytes)) (db after : Database)
      → ((mid : Database) → next mid ≡ done tt after → after.rollback_blocks ≡ mid.rollback_blocks)
      → drain_turn restore_row journal set_journal next h rows db ≡ done tt after
      → after.rollback_blocks ≡ db.rollback_blocks
  unfolding drain_turn
  drain_turn_keeps next h [] db after keeps e = cc (e)
  drain_turn_keeps next h (row ∷ rows) db after keeps e =
      let (_, mid, first, rest) = after_step (restore_row row) _ db e in
      keeps _ rest ∙ set_keeps _ mid ∙ row_keeps row db mid first

  drain_keeps :
      (left h : ℕ) (db after : Database)
      → drain restore_row journal set_journal left h db ≡ done tt after
      → after.rollback_blocks ≡ db.rollback_blocks
  unfolding drain
  drain_keeps zero h db after e = cc (e)
  drain_keeps (suc left) h db after e =
      drain_turn_keeps (drain restore_row journal set_journal left h) h (rows_at h (journal db)) db
        after (λ mid k. drain_keeps left h mid after k) e

restore_commit_row_keeps :
    (row : CommitRef × Option Bytes) (db mid : Database)
    → restore_commit_row row db ≡ done tt mid
    → mid.rollback_blocks ≡ db.rollback_blocks
unfolding restore_commit_row write_commit
restore_commit_row_keeps row db mid e =
    let (txid, _, h1) = after_lift (decode_32 row.0.txid) _ db e in
    let (previous, _, h2) = after_lift (decode_optional_32 row.1) _ db h1 in
    ap (λ (d : Database). d.rollback_blocks) (done_injective tt tt _ mid h2)

select_block-eq-some :
    (height : ℕ) (hash : Bytes) (db : Database) (block : RollbackBlock)
    → select_block height hash db ≡ some block
    → get height db.rollback_blocks ≡ some block
unfolding select_block
select_block-eq-some height hash db block e = ground arith

-- the row of the tip's block is there
after_previous_tip :
    {B : Type 0} (height : ℕ) (hash : Bytes) (f : Option ReducerTip → Session B) (db : Database)
    {b : B} {after : Database}
    → (previous_tip_of height hash >>= f) db ≡ done b after
    → (block : RollbackBlock) × (get height db.rollback_blocks ≡ some block)
      × (tip : Option ReducerTip) × (f tip db ≡ done b after)
unfolding previous_tip_of
after_previous_tip height hash f db h =
    let (tip, mid, first, rest) = after_step (previous_tip_of height hash) f db h in
    let (block, selected, decoding) =
      after_lift (ok_or (select_block height hash db) missing_rollback_journal) _ db first in
    let (_, same_db) = lift-eq-done (decode_optional_tip block.previous_tip_height _) db decoding in
    (
      block,
      select_block-eq-some height hash db block
          (ok_or-eq-ok (select_block height hash db) missing_rollback_journal block selected),
      tip,
      ap (f tip) (sym same_db) ∙ rest,
    )

module _ ⦃prims : Primitives⦄ (json : Json) (identity : StoreIdentity) where
  restore_head_row_keeps :
      (previous : Option ReducerTip) (row : NameId × Option Bytes) (db mid : Database)
      → restore_head_row json identity previous row db ≡ done tt mid
      → mid.rollback_blocks ≡ db.rollback_blocks
  unfolding restore_head_row write_head
  restore_head_row_keeps previous row db mid e =
      let (id, _, h1) = after_lift (decode_name_id row.0) _ db e in
      let (r, _, h2) = after_lift (decode_record json row.1) _ db h1 in
      let (_, _, h3) =
        after_lift (validate_optional id r identity.network (height_of previous)) _ db h2 in
      ap (λ (d : Database). d.rollback_blocks) (done_injective tt tt _ mid h3)

  -- A rollback of the tip deletes the row of its block.
  wallet_rollback_tip-shortens :
      (db after : Database) (tip : Option ReducerTip)
      → wallet_rollback_tip json identity db ≡ done tip after
      → length after.rollback_blocks < length db.rollback_blocks
  unfolding wallet_rollback_tip drain_heads drain_commits delete_blocks write_tip
  wallet_rollback_tip-shortens db after out h =
      let (current, _, h1) = after_read_tip _ db h in
      let (tip, _, h2) = after_lift (ok_or current missing_rollback_journal) _ db h1 in
      let (block, found, previous, h3) = after_previous_tip tip.height tip.hash _ db h2 in
      let (_, mid, heads, h4) =
        after_step (drain_heads json identity (length db.rollback_heads) tip.height previous) _ db
          h3 in
      let (_, mid2, commits, h5) =
        after_step (drain_commits (length mid.rollback_commits) tip.height) _ mid h4 in
      let kept1 =
        drain_keeps (restore_head_row json identity previous) (λ d. d.rollback_heads)
          (λ m d. record d { rollback_heads = m }) (restore_head_row_keeps previous) (λ m d. refl)
          (length db.rollback_heads) tip.height db mid heads in
      let kept2 =
        drain_keeps restore_commit_row (λ d. d.rollback_commits)
          (λ m d. record d { rollback_commits = m }) restore_commit_row_keeps (λ m d. refl)
          (length mid.rollback_commits) tip.height mid mid2 commits in
      let after_eq =
        ap (λ (d : Database). d.rollback_blocks) (done_injective previous out _ after h5) in
      let shorter = length-delete_there tip.height block db.rollback_blocks found in
      subst (λ m. length m < length db.rollback_blocks)
        (sym (after_eq ∙ ap (delete_where (λ k _. k == tip.height)) (kept2 ∙ kept1))) shorter

stored_tip-forget_snapshot :
    (unchanged : Bool) (db : Database) → stored_tip (forget_snapshot unchanged db) ≡ stored_tip db
unfolding forget_snapshot
stored_tip-forget_snapshot true db = refl
stored_tip-forget_snapshot false db =
    stored_tip-update_metadata (λ m. record m { core_snapshot = none }) db (λ m. (refl, refl))

-- a tip at or below a height, or none
abbrev pub IsAtMost : ℕ → Option ReducerTip → Type 0
IsAtMost height none = Unit
IsAtMost height (some tip) = tip.height ≤ height

module _ ⦃prims : Primitives⦄ (json : Json) (identity : StoreIdentity) where
  rewind_turn_lem :
      (next : Session (Unit {0})) (height : ℕ) (db after : Database) (tip : Option ReducerTip)
      (test : Bool)
      → ((mid : Database)
          → length mid.rollback_blocks < length db.rollback_blocks
          → next mid ≡ done tt after
          → (t : Option ReducerTip) × (stored_tip after ≡ ok t) × IsAtMost height t)
      → stored_tip db ≡ ok tip
      → is_some_and tip (λ t. ltb height t.height) ≡ test
      → rewind_turn json identity next test db ≡ done tt after
      → (t : Option ReducerTip) × (stored_tip after ≡ ok t) × IsAtMost height t
  unfolding rewind_turn
  rewind_turn_lem next height db after tip false continue stored e h =
      (tip, ap stored_tip (done_injective tt tt db after h) ∙ stored, at_most tip e)
    where
      at_most :
          (t : Option ReducerTip)
          → is_some_and t (λ t. ltb height t.height) ≡ false
          → IsAtMost height t
      at_most none e = tt
      at_most (some t) e = ground arith
  rewind_turn_lem next height db after tip true continue stored e h =
      let (_, mid, first, rest) = after_step (wallet_rollback_tip json identity) _ db h in
      continue mid (wallet_rollback_tip-shortens json identity db mid _ first) rest

  -- with a turn for every block and one more, the loop stops by its own test
  rewind_lem :
      (left height : ℕ) (db after : Database)
      → length db.rollback_blocks < left
      → rewind json identity left height db ≡ done tt after
      → (tip : Option ReducerTip) × (stored_tip after ≡ ok tip) × IsAtMost height tip
  unfolding rewind
  rewind_lem zero height db after enough h = ground arith
  rewind_lem (suc left) height db after enough h =
      let (tip, stored, h1) = after_read_tip _ db h in
      rewind_turn_lem (rewind json identity left height) height db after tip _
        (λ mid shorter rest. rewind_lem left height mid after (omega arith) rest) stored refl h1

  -- A `rollback_to_height` that succeeds, whatever the tables held, ended its loop by its own test:
  -- it returns the tip that is then stored, and that tip is at or below the height or there is none.
  pub rollback_to_height-IsAtMost :
      (height : ℕ) (db after : Database) (tip : Option ReducerTip)
      → rollback_to_height json identity height db ≡ done tip after
      → (stored_tip after ≡ ok tip) × IsAtMost height tip
  unfolding rollback_to_height read_tip
  rollback_to_height-IsAtMost height db after out h =
      let (original, _, h1) = after_read_tip _ db h in
      let (_, mid, rewound, h2) =
        after_step (rewind json identity (suc (length db.rollback_blocks)) height) _ db h1 in
      let (low, stored, at_most) =
        rewind_lem (suc (length db.rollback_blocks)) height db mid (omega arith) rewound in
      let (now, stored_now, h3) = after_read_tip _ mid h2 in
      let (end_stored, end_eq) = lift-eq-done (stored_tip (forget_snapshot _ mid)) _ h3 in
      let agrees : ok low ≡ ok out =
        sym stored ∙ sym (stored_tip-forget_snapshot _ mid) ∙ end_stored in
      (ap stored_tip end_eq ∙ end_stored, subst (IsAtMost height) (cc (agrees)) at_most)
