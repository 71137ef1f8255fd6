-- ===== src/Sqlite/Tables.antt =====
-- The tables of the schema, each an ordered map from its primary key to its other columns, and
-- what `SELECT` and `DELETE` do to a table. A blob is a byte string of any length.
pub mod Laws
use coppice_names.Prelude.{ℕ, Bool, not, Option, List, [], ◌∷◌, ◌==◌, if◌then◌else◌}
use coppice_names.Collections.OrdMap.{OrdMap}
use coppice_names.Protocol.{Bytes, NameId, CommitRef}

-- the row of `ext_coppice_names_metadata`
pub record Metadata : Type 0 where
  pub schema_version : ℕ
  pub deployment_id : Bytes
  pub ruleset_fingerprint : Bytes
  pub network : ℕ
  pub coverage_kind : ℕ
  pub coverage_name_id : Option Bytes
  pub minimum_rollback_blocks : ℕ
  pub tip_height : Option ℕ
  pub tip_hash : Option Bytes
  pub finalized_height : Option ℕ
  pub core_snapshot : Option Bytes

-- a row of `ext_coppice_names_heads`
pub record HeadRow : Type 0 where
  pub name : Bytes
  pub ua : Bytes
  pub producer_height : ℕ
  pub producer_tx_index : ℕ
  pub producer_txid : Bytes
  pub producer_action_index : ℕ
  pub commitment : Bytes
  pub future_nf : Bytes
  pub producer_epoch : ℕ
  pub expiry_height : ℕ
  pub terminal_height : Option ℕ

-- a row of `ext_coppice_names_rollback_blocks`
pub record RollbackBlock : Type 0 where
  pub hash : Bytes
  pub previous_tip_height : Option ℕ
  pub previous_tip_hash : Option Bytes

-- The tables. A key of `pending_commits` is the columns height, tx_index and txid.
pub record Database : Type 0 where
  pub metadata : Option Metadata
  pub heads : OrdMap NameId HeadRow
  pub pending_commits : OrdMap CommitRef Bytes
  pub wallet_commits : OrdMap Bytes CommitRef
  pub rollback_blocks : OrdMap ℕ RollbackBlock
  pub rollback_heads : OrdMap (ℕ × NameId) (Option Bytes)
  pub rollback_commits : OrdMap (ℕ × CommitRef) (Option Bytes)

module _ {ℓ κ} {K : Type ℓ} {V : Type κ} where
  -- `SELECT .. WHERE block_height = ?1 ORDER BY` the rest of the key
  unfoldable pub rows_at : ℕ → OrdMap (ℕ × K) V → List (K × V)
  rows_at h [] = []
  rows_at h ((key, v) ∷ m) =
      let rest = rows_at h m in if key.0 == h then (key.1, v) ∷ rest else rest

  -- `DELETE .. WHERE` a test of the key and the row holds
  unfoldable pub delete_where : (K → V → Bool) → OrdMap K V → OrdMap K V
  delete_where test [] = []
  delete_where test ((k, v) ∷ m) =
      let rest = delete_where test m in if test k v then rest else (k, v) ∷ rest

-- `DELETE FROM ext_coppice_names_rollback_blocks WHERE` a test of the height holds; the journal
-- rows of these blocks go with them, by `ON DELETE CASCADE`
unfoldable pub delete_blocks : (ℕ → Bool) → Database → Database
unfolding delete_where
delete_blocks test db = record db {
  rollback_blocks = delete_where (λ height _. test height) db.rollback_blocks;
  rollback_heads = delete_where (λ key _. test key.0) db.rollback_heads;
  rollback_commits = delete_where (λ key _. test key.0) db.rollback_commits;
}
