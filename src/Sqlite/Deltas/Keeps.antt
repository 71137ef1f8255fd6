-- ===== src/Sqlite/Deltas/Keeps.antt =====
-- A delta that goes through leaves the database in order.
use coppice_names.Prelude.{ℕ, ◌≡◌, sym, ap, subst, ◌∙◌, false, none, arith, ◌==◌}
use coppice_names.Collections.Order.{nat_ord, list_ord, pair_ord, same}
use coppice_names.Collections.OrdMap.{OrdMap, get, insert}
use coppice_names.Collections.OrdMap.Lookup.{get-insert}
use coppice_names.Collections.OrdMap.Ascending.{insert-IsAscending}
use coppice_names.Protocol.{Primitives, commit_ref_ord}
use coppice_names.Reducer.State.{StateDelta}
use coppice_names.Sqlite.Identity.{StoreIdentity}
use coppice_names.Sqlite.Tables.{Database}
use coppice_names.Sqlite.Session.{done}
use coppice_names.Sqlite.Records.{Json}
use coppice_names.Sqlite.Records.Reads.{IsFaithful}
use coppice_names.Sqlite.Sound.{IsSound}
use coppice_names.Sqlite.Deltas.{apply_delta}
use coppice_names.Sqlite.Deltas.Applied.{apply_delta_inversion}
use coppice_names.Sqlite.Deltas.Journaled.{IsTyped, apply_delta-IsJournaled}

-- no row under a key: it is another key than the new one, and there was none before
other_key :
    {V : Type 0} (h k : ℕ) (v : V) (m : OrdMap ℕ V)
    → get h (insert k v m) ≡ none
    → ((h == k) ≡ false) × (get h m ≡ none)
unfolding same nat_ord
other_key h k v m e = ground (arith, get-insert k h v m)

module _ ⦃prims : Primitives⦄ (json : Json) (identity : StoreIdentity) where
  -- A delta that goes through keeps the tables in ascending order and every journal row beside the
  -- row of its block, if serde_json reads back what it wrote and the delta's identifiers and
  -- hashes are 32 bytes as their types say.
  pub apply_delta-IsSound :
      (delta : StateDelta) (db after : Database)
      → IsFaithful json
      → IsTyped delta
      → IsSound db
      → apply_delta json identity delta db ≡ done tt after
      → IsSound after
  apply_delta-IsSound delta db after faithful typed sound h =
      let a = apply_delta_inversion json identity delta db after h in
      let x = apply_delta-IsJournaled json identity delta db after faithful sound typed a in
      subst IsSound (sym a.after_eq) (record {
        heads = x.heads.table_ascending;
        pending_commits = x.commits.table_ascending;
        rollback_blocks =
            rw x.rollback_blocks
              (insert-IsAscending a.to_tip.height _ db.rollback_blocks sound.rollback_blocks);
        rollback_heads = x.heads.journal_ascending;
        rollback_commits = x.commits.journal_ascending;
        linked_heads = λ k id e.
            let (other, none_before) =
              other_key k a.to_tip.height _ db.rollback_blocks
                (ap (get k) (sym x.rollback_blocks) ∙ e) in
            x.heads.keeps_others k id other ∙ sound.linked_heads k id none_before;
        linked_commits = λ k c e.
            let (other, none_before) =
              other_key k a.to_tip.height _ db.rollback_blocks
                (ap (get k) (sym x.rollback_blocks) ∙ e) in
            x.commits.keeps_others k c other ∙ sound.linked_commits k c none_before;
      })
