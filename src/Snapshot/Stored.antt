-- ===== src/Snapshot/Stored.antt =====
-- The serialized forms. Strings and byte arrays are the lists of their bytes, as in the values
-- that they are made from.
use coppice_names.Prelude.{ℕ, Option, none, some, List, map}
use coppice_names.Protocol.{Bytes, CommitRef, StateRef}
use coppice_names.Schedule.{Parameters}
use coppice_names.Reducer.State.{Head, Undo, Reducer}
use coppice_names.Reducer.Rollback.{RollbackRange, rollback_range}

pub data SnapshotError : Type 0 where
  encoding unsupported_format parameters_mismatch : SnapshotError
  name_mismatch invalid_state invalid_history : SnapshotError

pub record StoredHead : Type 0 where
  pub name : Bytes
  pub ua : Bytes
  pub producer : StateRef
  pub commitment : Bytes
  pub future_nf : Bytes
  pub producer_epoch : ℕ
  pub expiry_height : ℕ
  pub terminal_height : Option ℕ

pub record StoredUndo : Type 0 where
  pub height : ℕ
  pub hash : Bytes
  pub previous_hash : Bytes
  pub previous_next_height : Option ℕ
  pub previous_tip_height : Option ℕ
  pub commits : List (CommitRef × Option Bytes)
  pub heads : List (Bytes × Option StoredHead)

-- `StoredParameters` has the fields of `Parameters`.
pub record StoredReducer : Type 0 where
  pub format_version : ℕ
  pub deployment_id : Bytes
  pub ruleset_fingerprint : Bytes
  pub rollback_range : Option RollbackRange
  pub parameters : Parameters
  pub next_height : Option ℕ
  pub tip_height : Option ℕ
  pub previous_hash : Bytes
  pub commits : List (CommitRef × Bytes)
  pub heads : List (Bytes × StoredHead)
  pub history : List StoredUndo

-- What the program takes from `serde_json`, and the fingerprint that ruleset.rs computes from the
-- embedded document.
pub record Serde : Type 0 where
  pub to_vec : StoredReducer → Option Bytes
  pub from_slice : Bytes → Option StoredReducer
  pub fingerprint : Bytes

abbrev pub reducer_snapshot_format_version : ℕ
reducer_snapshot_format_version = 3

-- `From<&Head> for StoredHead`
abbrev pub stored_head : Head → StoredHead
stored_head head = record {
  name = head.name;
  ua = head.ua;
  producer = head.producer;
  commitment = head.commitment;
  future_nf = head.future_nf;
  producer_epoch = head.producer_epoch;
  expiry_height = head.expiry_height;
  terminal_height = head.terminal_height;
}

-- `Option::map`, for a previous head
abbrev pub stored_previous : Option Head → Option StoredHead
stored_previous none = none
stored_previous (some head) = some (stored_head head)

-- `From<&Undo> for StoredUndo`
unfoldable pub stored_undo : Undo → StoredUndo
stored_undo undo = record {
  height = undo.height;
  hash = undo.hash;
  previous_hash = undo.previous_hash;
  previous_next_height = undo.previous_next_height;
  previous_tip_height = undo.previous_tip_height;
  commits = undo.commits;
  heads = map (λ e. (e.0, stored_previous e.1)) undo.heads;
}

-- the value that `save_snapshot` serializes
unfoldable pub stored_reducer : Bytes → Reducer → StoredReducer
unfolding stored_undo
stored_reducer fingerprint r = record {
  format_version = reducer_snapshot_format_version;
  deployment_id = r.parameters.deployment_id;
  ruleset_fingerprint = fingerprint;
  rollback_range = rollback_range r.history;
  parameters = r.parameters;
  next_height = r.next_height;
  tip_height = r.tip_height;
  previous_hash = r.previous_hash;
  commits = r.commits;
  heads = map (λ e. (e.0, stored_head e.1)) r.heads;
  history = map stored_undo r.history;
}
