-- ===== src/Reducer/Records.antt =====
-- Reading and replacing the reducer's records: `replace_commit`, `replace_head`, and the journal.
pub mod Reads
use coppice_names.Prelude.{
  ℕ, Bool, Option, none, some, List, [], ◌∷◌, Result, ok, err, if◌then◌else◌, map,
}
use coppice_names.Collections.Order.{nat_ord, list_ord}
use coppice_names.Collections.OrdMap.{OrdMap, get, insert, remove, contains}
use coppice_names.Collections.Index.{Index, add_index_entry, remove_index_entry}
use coppice_names.Protocol.{Bytes, NameId, Commitment, CommitRef, commit_ref_ord}
use coppice_names.Reducer.State.{
  Head, Undo, Reducer, ReducerTip, StateDelta, HeadChange, CommitChange,
}

-- the two passes of `replace_commit`: the record that is there goes, with its index entry
unfoldable pub drop_commit : Reducer → CommitRef → Reducer
drop_commit r reference = elim (get reference r.commits) [
  | none ↦ r
  | some _ ↦ record r {
    commits = remove reference r.commits;
    commits_by_height = remove_index_entry r.commits_by_height reference.height reference;
  }
]

-- ... and the new record is stored
unfoldable pub store_commit : Reducer → CommitRef → Option Commitment → Reducer
store_commit r reference none = r
store_commit r reference (some commitment) = record r {
  commits = insert reference commitment r.commits;
  commits_by_height = add_index_entry r.commits_by_height reference.height reference;
}

-- `replace_commit`
unfoldable pub replace_commit : Reducer → CommitRef → Option Commitment → Reducer
unfolding drop_commit store_commit
replace_commit r reference commitment = store_commit (drop_commit r reference) reference commitment

-- the index of terminal heads, without and with the entry of a head
abbrev pub unindex_terminal : Index ℕ NameId → Option ℕ → NameId → Index ℕ NameId
unindex_terminal index none name_id = index
unindex_terminal index (some height) name_id = remove_index_entry index height name_id

abbrev pub index_terminal : Index ℕ NameId → Option ℕ → NameId → Index ℕ NameId
index_terminal index none name_id = index
index_terminal index (some height) name_id = add_index_entry index height name_id

-- the index of active heads, without and with the entry of a head
abbrev pub unindex_active : Index ℕ NameId → Option ℕ → ℕ → NameId → Index ℕ NameId
unindex_active index none expiry name_id = remove_index_entry index expiry name_id
unindex_active index (some _) expiry name_id = index

abbrev pub index_active : Index ℕ NameId → Option ℕ → ℕ → NameId → Index ℕ NameId
index_active index none expiry name_id = add_index_entry index expiry name_id
index_active index (some _) expiry name_id = index

-- the two passes of `replace_head`
unfoldable pub drop_head : Reducer → NameId → Reducer
drop_head r name_id = elim (get name_id r.heads) [
  | none ↦ r
  | some old ↦ record r {
    heads = remove name_id r.heads;
    heads_by_future_nf = remove_index_entry r.heads_by_future_nf old.future_nf name_id;
    terminal_heads_by_height =
        unindex_terminal r.terminal_heads_by_height old.terminal_height name_id;
    active_heads_by_expiry =
        unindex_active r.active_heads_by_expiry old.terminal_height old.expiry_height name_id;
  }
]

unfoldable pub store_head : Reducer → NameId → Option Head → Reducer
store_head r name_id none = r
store_head r name_id (some head) = record r {
  heads = insert name_id head r.heads;
  heads_by_future_nf = add_index_entry r.heads_by_future_nf head.future_nf name_id;
  terminal_heads_by_height = index_terminal r.terminal_heads_by_height head.terminal_height name_id;
  active_heads_by_expiry =
      index_active r.active_heads_by_expiry head.terminal_height head.expiry_height name_id;
}

-- `replace_head`
unfoldable pub replace_head : Reducer → NameId → Option Head → Reducer
unfolding drop_head store_head
replace_head r name_id head = store_head (drop_head r name_id) name_id head

-- `tip`
unfoldable pub tip : Reducer → Option ReducerTip
tip r = elim r.tip_height [
  | none ↦ none
  | some height ↦ some (record { height = height; hash = r.previous_hash })
]

-- `new_undo`
unfoldable pub new_undo : Reducer → ℕ → Bytes → Undo
new_undo r height hash = record {
  height = height;
  hash = hash;
  previous_hash = r.previous_hash;
  previous_next_height = r.next_height;
  previous_tip_height = r.tip_height;
  commits = [];
  heads = [];
}

-- `remember_commit`: `entry(..).or_insert_with(..)`
unfoldable pub remember_commit : Reducer → Undo → CommitRef → Undo
remember_commit r undo reference =
    if contains reference undo.commits
    then undo
    else record undo { commits = insert reference (get reference r.commits) undo.commits }

-- `remember_head`
unfoldable pub remember_head : Reducer → Undo → NameId → Undo
remember_head r undo name_id =
    if contains name_id undo.heads
    then undo
    else record undo { heads = insert name_id (get name_id r.heads) undo.heads }

-- `delta_from_undo`
unfoldable pub delta_from_undo : Reducer → Option ReducerTip → Option ReducerTip → Undo → StateDelta
delta_from_undo r from_tip to_tip undo = record {
  from_tip = from_tip;
  to_tip = to_tip;
  heads = map (λ e. record { name_id = e.0; previous = e.1; current = get e.0 r.heads }) undo.heads;
  commits =
      map (λ e. record { reference = e.0; previous = e.1; current = get e.0 r.commits })
        undo.commits;
}
