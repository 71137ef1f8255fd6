-- ===== src/Sqlite/Sound.antt =====
-- A database in order: ascending tables, and no journal row without the row of its block, which
-- is what the primary keys and the foreign keys of the schema say.
use coppice_names.Prelude.{ℕ, ◌≡◌, none}
use coppice_names.Collections.Order.{nat_ord, list_ord, pair_ord}
use coppice_names.Collections.OrdMap.{get}
use coppice_names.Collections.OrdMap.Ascending.{IsAscending}
use coppice_names.Protocol.{NameId, CommitRef, commit_ref_ord}
use coppice_names.Sqlite.Tables.{Database}

pub record IsSound (db : Database) : Type 0 where
  pub heads : IsAscending db.heads
  pub pending_commits : IsAscending db.pending_commits
  pub rollback_blocks : IsAscending db.rollback_blocks
  pub rollback_heads : IsAscending db.rollback_heads
  pub rollback_commits : IsAscending db.rollback_commits
  pub linked_heads :
      (h : ℕ) (id : NameId) → get h db.rollback_blocks ≡ none → get (h, id) db.rollback_heads ≡ none
  pub linked_commits :
      (h : ℕ) (c : CommitRef)
      → get h db.rollback_blocks ≡ none
      → get (h, c) db.rollback_commits ≡ none
