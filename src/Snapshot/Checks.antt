-- ===== src/Snapshot/Checks.antt =====
-- The checks on a stored record: `validate_tip`, `validate_commit`, `restore_head`,
-- `restore_undo` and `validate_history`.
use coppice_names.Prelude.{
  ℕ, ◌-◌, Bool, true, false, not, ◌&&◌, ◌||◌, Option, none, some, List, [], ◌∷◌, Result, ok, err,
  ◌>>=◌, ◌>>◌, guard, ok_or, map_err, is_ok_and, is_some_and, is_some, ltb, leb, ◌==◌,
  if◌then◌else◌, last?,
}
use coppice_names.Prelude.Word.{checked_add, checked_sub}
use coppice_names.Collections.Order.{same, nat_ord, list_ord}
use coppice_names.Collections.OrdMap.{OrdMap, contains, insert}
use coppice_names.Protocol.{
  Bytes, Network, NameId, Commitment, CommitRef, Primitives, commit_ref_ord, name_id,
  nonzero_from_bytes, field_from_bytes, parse_name, parse_ua,
}
use coppice_names.Schedule.{Parameters, epoch, expiry}
use coppice_names.Reducer.State.{Head, Undo, is_claimable}
use coppice_names.Snapshot.Stored.{
  SnapshotError, StoredHead, StoredUndo, invalid_state, invalid_history,
}

-- `==` on `Option<u32>`
unfoldable pub same_height : Option ℕ → Option ℕ → Bool
same_height none none = true
same_height none (some b) = false
same_height (some a) none = false
same_height (some a) (some b) = a == b

-- the condition of `validate_tip`
unfoldable pub is_tip : Parameters → Option ℕ → Option ℕ → Bool
unfolding same_height
is_tip p next_height none = same_height next_height (some p.activation_height)
is_tip p next_height (some tip) =
    leb p.activation_height tip && same_height next_height (checked_add tip 1)

-- `validate_tip`
unfoldable pub validate_tip : Parameters → Option ℕ → Option ℕ → Result SnapshotError (Unit {0})
unfolding is_tip
validate_tip p next_height tip_height = guard (is_tip p next_height tip_height) invalid_state

-- `validate_commit`
unfoldable pub validate_commit : Parameters → Option ℕ → CommitRef → Result SnapshotError (Unit {0})
validate_commit p tip_height reference = do
  tip ← ok_or tip_height invalid_state
  guard
      (not (
        ltb reference.height p.activation_height
        || ltb tip reference.height
        || leb p.commit_ttl_blocks (tip - reference.height)))
      invalid_state

module _ ⦃prims : Primitives⦄ where
  -- `restore_head`
  unfoldable pub restore_head :
      Parameters → Network → Option ℕ → StoredHead → Result SnapshotError Head
  restore_head p network tip_height stored = do
    tip ← ok_or tip_height invalid_state
    name ← map_err (parse_name stored.name) (λ _. invalid_state)
    ua ← map_err (parse_ua network stored.ua) (λ _. invalid_state)
    commitment ← map_err (field_from_bytes stored.commitment) (λ _. invalid_state)
    future_nf ← map_err (field_from_bytes stored.future_nf) (λ _. invalid_state)
    expected_epoch ← map_err (epoch p stored.producer.height) (λ _. invalid_state)
    expected_expiry ← map_err (expiry p stored.producer.height) (λ _. invalid_state)
    guard
        (not (
          ltb tip stored.producer.height
          || not (stored.producer_epoch == expected_epoch)
          || not (stored.expiry_height == expected_expiry)
          || is_some_and stored.terminal_height
              (λ height. ltb height stored.producer.height || ltb tip height)))
        invalid_state
    let head : Head = record {
      name = name;
      ua = ua;
      producer = stored.producer;
      commitment = commitment;
      future_nf = future_nf;
      producer_epoch = stored.producer_epoch;
      expiry_height = stored.expiry_height;
      terminal_height = stored.terminal_height;
    }
    guard
        (not (
          not (is_some head.terminal_height) && leb head.expiry_height tip
          || is_claimable head tip p))
        invalid_state
    ok head

  -- `head.name.id() != Ok(name_id)`, negated
  abbrev pub is_head_of : NameId → Head → Bool
  is_head_of id head = is_ok_and (name_id head.name) (λ n. same n id)

  -- the commits of a journal
  unfoldable pub restore_undo_commits :
      Parameters
      → StoredUndo
      → List (CommitRef × Option Bytes)
      → OrdMap CommitRef (Option Commitment)
      → Result SnapshotError (OrdMap CommitRef (Option Commitment))
  restore_undo_commits p stored [] commits = ok commits
  restore_undo_commits p stored ((reference, bytes) ∷ rest) commits = do
    previous ← elim bytes as (λ _. Result SnapshotError (Option Commitment)) [
      | none ↦ ok none
      | some b ↦ elim (nonzero_from_bytes b) [ ok c ↦ ok (some c) | err _ ↦ err invalid_history ]
    ]
    guard
        (not (
          ltb stored.height reference.height
          || is_some previous
            && not (is_ok_and (validate_commit p stored.previous_tip_height reference) (λ _. true))
          || contains reference commits))
        invalid_history
    restore_undo_commits p stored rest (insert reference previous commits)

  -- the heads of a journal
  unfoldable pub restore_undo_heads :
      Parameters
      → Network
      → StoredUndo
      → List (Bytes × Option StoredHead)
      → OrdMap NameId (Option Head)
      → Result SnapshotError (OrdMap NameId (Option Head))
  restore_undo_heads p network stored [] heads = ok heads
  restore_undo_heads p network stored ((bytes, stored_head) ∷ rest) heads = do
    id ← map_err (nonzero_from_bytes bytes) (λ _. invalid_history)
    previous ← elim stored_head as (λ _. Result SnapshotError (Option Head)) [
      | none ↦ ok none
      | some h ↦ elim (restore_head p network stored.previous_tip_height h) [
        | ok head ↦ ok (some head)
        | err _ ↦ err invalid_history
      ]
    ]
    guard (not (is_some_and previous (λ head. not (is_head_of id head)) || contains id heads))
        invalid_history
    restore_undo_heads p network stored rest (insert id previous heads)

  -- `restore_undo`
  unfoldable pub restore_undo :
      Parameters → Network → Option ℕ → StoredUndo → Result SnapshotError Undo
  restore_undo p network tip_height stored = do
    guard
        (is_some_and tip_height (λ tip. leb stored.height tip)
          && same_height stored.previous_next_height (some stored.height)
          && same_height stored.previous_tip_height
              (if stored.height == p.activation_height then none else checked_sub stored.height 1))
        invalid_history
    commits ← restore_undo_commits p stored stored.commits []
    heads ← restore_undo_heads p network stored stored.heads []
    ok (record {
      height = stored.height;
      hash = stored.hash;
      previous_hash = stored.previous_hash;
      previous_next_height = stored.previous_next_height;
      previous_tip_height = stored.previous_tip_height;
      commits = commits;
      heads = heads;
    })

-- each journal is of the block after the one before it
unfoldable pub is_chain : List Undo → Bool
unfolding same_height
is_chain [] = true
is_chain (a ∷ []) = true
is_chain (a ∷ b ∷ rest) =
    same_height (checked_add a.height 1) (some b.height)
    && same b.previous_hash a.hash
    && is_chain (b ∷ rest)

-- `validate_history`
unfoldable pub validate_history : Option ℕ → Bytes → List Undo → Result SnapshotError (Unit {0})
unfolding is_chain
validate_history tip_height previous_hash history = elim (last? history) [
  | none ↦ ok tt
  | some last ↦
      guard
        (same_height (some last.height) tip_height
          && same last.hash previous_hash
          && is_chain history)
        invalid_history
]
