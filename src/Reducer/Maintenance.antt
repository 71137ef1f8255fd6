-- ===== src/Reducer/Maintenance.antt =====
-- The work at the start of a block: `mark_expired`, `compact_claimable` and `prune_commits`.
pub mod Expiry
pub mod Removal
pub mod Start
use coppice_names.Prelude.{ℕ, none, some, List, [], ◌∷◌, map}
use coppice_names.Prelude.Word.{checked_sub}
use coppice_names.Collections.Order.{nat_ord, list_ord}
use coppice_names.Collections.OrdMap.{get, range_to}
use coppice_names.Collections.Index.{members}
use coppice_names.Protocol.{NameId, CommitRef, StateRef}
use coppice_names.Reducer.State.{Undo, Reducer, Compaction}
use coppice_names.Reducer.Records.{replace_commit, replace_head, remember_commit, remember_head}

abbrev pub Journaled : Type 0
Journaled = Reducer × Undo

-- one round of the loop of `mark_expired`
unfoldable pub expire_head : Reducer → NameId → Reducer
expire_head r name_id = elim (get name_id r.heads) [
  | none ↦ r
  | some head ↦
      replace_head r name_id (some (record head { terminal_height = some head.expiry_height }))
]

unfoldable pub expire_heads : List NameId → Reducer → Undo → Journaled
expire_heads [] r undo = (r, undo)
expire_heads (name_id ∷ ids) r undo =
    expire_heads ids (expire_head r name_id) (remember_head r undo name_id)

-- `mark_expired`
unfoldable pub mark_expired : Reducer → ℕ → Undo → Journaled
mark_expired r height undo =
    expire_heads (members (range_to height r.active_heads_by_expiry)) r undo

-- `(name_id, self.heads[&name_id].producer)` for each of the identifiers. The source panics where
-- one has no head; here such a one is passed over.
unfoldable pub with_producers : Reducer → List NameId → List (NameId × StateRef)
with_producers r [] = []
with_producers r (name_id ∷ ids) =
    let rest = with_producers r ids in
    elim (get name_id r.heads) [ none ↦ rest | some head ↦ (name_id, head.producer) ∷ rest ]

unfoldable pub delete_heads : List (NameId × StateRef) → Reducer → Undo → Journaled
delete_heads [] r undo = (r, undo)
delete_heads ((name_id, producer) ∷ rest) r undo =
    delete_heads rest (replace_head r name_id none) (remember_head r undo name_id)

-- what `compact_claimable` deletes when it goes ahead
abbrev pub claimable_up_to : Reducer → ℕ → List (NameId × StateRef)
claimable_up_to r last_claimable_terminal =
    with_producers r (members (range_to last_claimable_terminal r.terminal_heads_by_height))

-- `compact_claimable`
unfoldable pub compact_claimable : Reducer → ℕ → Undo → Journaled × List Compaction
compact_claimable r height undo = elim (checked_sub height r.parameters.cooldown_blocks) [
  | none ↦ ((r, undo), [])
  | some last ↦ (
    delete_heads (claimable_up_to r last) r undo,
    map (λ e. record { name_id = e.0; previous_head = e.1; height = height })
        (claimable_up_to r last),
  )
]

unfoldable pub delete_commits : List CommitRef → Reducer → Undo → Journaled
delete_commits [] r undo = (r, undo)
delete_commits (reference ∷ rest) r undo =
    delete_commits rest (replace_commit r reference none) (remember_commit r undo reference)

-- `prune_commits`
unfoldable pub prune_commits : Reducer → ℕ → Undo → Journaled
prune_commits r height undo = elim (checked_sub height r.parameters.commit_ttl_blocks) [
  | none ↦ (r, undo)
  | some last ↦ delete_commits (members (range_to last r.commits_by_height)) r undo
]
