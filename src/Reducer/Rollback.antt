-- ===== src/Reducer/Rollback.antt =====
-- `rollback_tip_detailed`, `finalize_through` and `rollback_range`.
pub mod Restore
pub mod Delta
pub mod Undoes
use coppice_names.Prelude.{
  ℕ, Bool, true, false, not, ◌||◌, ◌&&◌, Option, none, some, List, [], ◌∷◌, Result, ok, err, ◌>>=◌,
  ◌>>◌, guard, ok_or, ltb, leb, if◌then◌else◌, is_some_and, is_some, last?, head?, map,
}
use coppice_names.Collections.Order.{same, nat_ord, list_ord}
use coppice_names.Collections.OrdMap.{OrdMap, get}
use coppice_names.Protocol.{Bytes, NameId, Commitment, CommitRef, commit_ref_ord}
use coppice_names.Reducer.State.{Head, Undo, Reducer, StateDelta}
use coppice_names.Reducer.Records.{replace_commit, replace_head, tip}

pub data RollbackError : Type 0 where
  no_applied_block beyond_retention wrong_tip_hash : RollbackError

pub data FinalizationError : Type 0 where
  beyond_tip : FinalizationError

pub record RollbackRange : Type 0 where
  pub first_height : ℕ
  pub last_height : ℕ

-- `pop_back` without the value
unfoldable pub drop_last : List Undo → List Undo
drop_last [] = []
drop_last (u ∷ []) = []
drop_last (u ∷ v ∷ rest) = u ∷ drop_last (v ∷ rest)

unfoldable pub restore_commits : OrdMap CommitRef (Option Commitment) → Reducer → Reducer
restore_commits [] r = r
restore_commits ((reference, previous) ∷ rest) r =
    restore_commits rest (replace_commit r reference previous)

unfoldable pub restore_heads : OrdMap NameId (Option Head) → Reducer → Reducer
restore_heads [] r = r
restore_heads ((name_id, previous) ∷ rest) r = restore_heads rest (replace_head r name_id previous)

-- the state before the block of a journal
unfoldable pub revert : Reducer → Undo → Reducer
revert r undo = record restored {
  previous_hash = undo.previous_hash;
  next_height = undo.previous_next_height;
  tip_height = undo.previous_tip_height;
}
  where
    restored : Reducer
    restored =
        restore_heads undo.heads
          (restore_commits undo.commits (record r { history = drop_last r.history }))

-- the inverse delta: the entries of the journal, each from what was current to what is now
abbrev pub inverse_delta : Reducer → Reducer → Undo → StateDelta
inverse_delta before after undo = record {
  from_tip = tip before;
  to_tip = tip after;
  commits =
      map
        (λ e. record {
          reference = e.0;
          previous = get e.0 before.commits;
          current = get e.0 after.commits;
        })
        undo.commits;
  heads =
      map
        (λ e. record {
          name_id = e.0;
          previous = get e.0 before.heads;
          current = get e.0 after.heads;
        })
        undo.heads;
}

-- `rollback_tip_detailed`
unfoldable pub rollback_tip_detailed : Reducer → Bytes → Result RollbackError (Reducer × StateDelta)
unfolding revert
rollback_tip_detailed r expected_hash = do
  undo ←
      ok_or (last? r.history) (if is_some r.tip_height then beyond_retention else no_applied_block)
  guard (same undo.hash expected_hash && same r.previous_hash expected_hash) wrong_tip_hash
  ok (revert r undo, inverse_delta r (revert r undo) undo)

-- the journals at the front up to a height go
unfoldable pub drop_through : ℕ → List Undo → List Undo
drop_through height [] = []
drop_through height (u ∷ rest) =
    let later = drop_through height rest in if leb u.height height then later else u ∷ rest

-- `finalize_through`
unfoldable pub finalize_through : Reducer → ℕ → Result FinalizationError Reducer
unfolding drop_through
finalize_through r height = do
  guard (is_some_and r.tip_height (λ tip. leb height tip)) beyond_tip
  ok (record r { history = drop_through height r.history })

-- `rollback_range`
unfoldable pub rollback_range : List Undo → Option RollbackRange
rollback_range history = elim (head? history) [
  | none ↦ none
  | some first ↦ elim (last? history) [
    | none ↦ none
    | some last ↦ some (record { first_height = first.height; last_height = last.height })
  ]
]
