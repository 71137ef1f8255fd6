-- ===== src/Snapshot/Rebuild.antt =====
-- `rebuild_derived_indexes`.
pub mod Agrees
use coppice_names.Prelude.{ℕ, Option, none, some, List, [], ◌∷◌}
use coppice_names.Collections.Order.{nat_ord, list_ord}
use coppice_names.Collections.OrdMap.{OrdMap}
use coppice_names.Collections.Index.{Index, add_index_entry}
use coppice_names.Protocol.{Bytes, NameId, Commitment, CommitRef, commit_ref_ord}
use coppice_names.Reducer.State.{Head, Reducer}
use coppice_names.Reducer.Records.{index_terminal, index_active}

-- the loop over the commits
unfoldable pub index_commits : OrdMap CommitRef Commitment → Index ℕ CommitRef → Index ℕ CommitRef
index_commits [] index = index
index_commits ((reference, commitment) ∷ rest) index =
    index_commits rest (add_index_entry index reference.height reference)

-- one round of the loop over the heads
unfoldable pub index_head : Reducer → NameId → Head → Reducer
index_head r id head = record r {
  heads_by_future_nf = add_index_entry r.heads_by_future_nf head.future_nf id;
  terminal_heads_by_height = index_terminal r.terminal_heads_by_height head.terminal_height id;
  active_heads_by_expiry =
      index_active r.active_heads_by_expiry head.terminal_height head.expiry_height id;
}

-- the loop over the heads
unfoldable pub index_heads : OrdMap NameId Head → Reducer → Reducer
unfolding index_head
index_heads [] r = r
index_heads ((id, head) ∷ rest) r = index_heads rest (index_head r id head)

-- `rebuild_derived_indexes`
unfoldable pub rebuild_derived_indexes : Reducer → Reducer
unfolding index_commits index_heads
rebuild_derived_indexes r = index_heads r.heads (record r {
  commits_by_height = index_commits r.commits [];
  heads_by_future_nf = [];
  active_heads_by_expiry = [];
  terminal_heads_by_height = [];
})
