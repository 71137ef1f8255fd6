-- ===== src/Reducer/Maintenance/Removal.antt =====
-- `compact_claimable` and `prune_commits` by what they do to each record.
use coppice_names.Prelude.{
  ℕ, ◌∙◌, ◌+◌, ◌-◌, ◌≡◌, refl, true, false, ◌&&◌, Bool, Option, none, some, is_some, List, [], ◌∷◌,
  arith, if◌then◌else◌, leb, is_some_and, inl, inr, Option-cases,
}
use coppice_names.Collections.Order.{nat_ord, list_ord, eq_of_same}
use coppice_names.Collections.OrdMap.{get, range_to, contains}
use coppice_names.Collections.OrdMap.Lookup.{mem}
use coppice_names.Collections.Index.{members}
use coppice_names.Collections.Index.Range.{range_of_key}
use coppice_names.Protocol.{NameId, StateRef, CommitRef, commit_ref_ord}
use coppice_names.Schedule.{Parameters}
use coppice_names.Reducer.State.{Head, Undo, Reducer}
use coppice_names.Reducer.Records.{replace_head, remember_head, replace_commit, remember_commit}
use coppice_names.Reducer.Records.Reads.{get-replace_head, get-replace_commit}
use coppice_names.Reducer.Indexes.{HeadsIndexed, CommitsIndexed}
use coppice_names.Reducer.Maintenance.{
  with_producers, delete_heads, claimable_up_to, compact_claimable, delete_commits, prune_commits,
}

ids_of : List (NameId × StateRef) → List NameId
ids_of [] = []
ids_of ((id, producer) ∷ rest) = id ∷ ids_of rest

get-delete_heads :
    (gone : List (NameId × StateRef)) (r : Reducer) (u : Undo) (j : NameId)
    → get j (delete_heads gone r u).0.heads ≡ (if mem j (ids_of gone) then none else get j r.heads)
unfolding delete_heads mem ids_of
get-delete_heads [] r u j = refl
get-delete_heads ((id, producer) ∷ gone) r u j = ground (
  arith,
  get-delete_heads gone (replace_head r id none) (remember_head r u id) j,
  get-replace_head r id j none,
)

mem-with_producers :
    (r : Reducer) (ids : List NameId) (j : NameId)
    → mem j (ids_of (with_producers r ids)) ≡ (mem j ids && is_some (get j r.heads))
unfolding with_producers mem ids_of
mem-with_producers r [] j = refl
mem-with_producers r (id ∷ ids) j = elim (Option-cases (get id r.heads)) [
  | inl e ↦ ground (arith, mem-with_producers r ids j, eq_of_same id j)
  | inr (head, e) ↦ ground (arith, mem-with_producers r ids j, eq_of_same id j)
]

-- whether a head ended at or before a height
abbrev pub ended_by : ℕ → Head → Bool
ended_by h head = is_some_and head.terminal_height (λ t. leb t h)

due-terminal :
    (r : Reducer) (h : ℕ) (j : NameId)
    → HeadsIndexed r
    → mem j (members (range_to h r.terminal_heads_by_height))
      ≡ is_some_and (get j r.heads) (ended_by h)
due-terminal r h j x = elim (Option-cases (get j r.heads)) [
  | inl e ↦ ground (
    arith,
    range_of_key h 0 false j r.terminal_heads_by_height x.terminal_tidy.ascending
        (λ t. ground (arith, x.terminal_agrees t j)),
  )
  | inr (head, e) ↦ elim (Option-cases head.terminal_height) [
    | inl active ↦ ground (
      arith,
      range_of_key h 0 false j r.terminal_heads_by_height x.terminal_tidy.ascending
          (λ t. ground (arith, x.terminal_agrees t j)),
    )
    | inr (end, over) ↦ ground (
      arith,
      range_of_key h end true j r.terminal_heads_by_height x.terminal_tidy.ascending
          (λ t. ground (arith, x.terminal_agrees t j)),
    )
  ]
]

-- the head that `compact_claimable` leaves of a head
abbrev pub unless_claimable : Parameters → ℕ → Option Head → Option Head
unless_claimable p h none = none
unless_claimable p h (some head) =
    if is_some_and head.terminal_height (λ t. leb (t + p.cooldown_blocks) h)
    then none
    else some head

pub get-compact_claimable :
    (r : Reducer) (h : ℕ) (u : Undo) (j : NameId)
    → HeadsIndexed r
    → get j (compact_claimable r h u).0.0.heads ≡ unless_claimable r.parameters h (get j r.heads)
unfolding compact_claimable
get-compact_claimable r h u j x = ground (
  arith,
  get-delete_heads (claimable_up_to r (h - r.parameters.cooldown_blocks)) r u j,
  mem-with_producers r
      (members (range_to (h - r.parameters.cooldown_blocks) r.terminal_heads_by_height)) j,
  due-terminal r (h - r.parameters.cooldown_blocks) j x,
)

get-delete_commits :
    (gone : List CommitRef) (r : Reducer) (u : Undo) (c : CommitRef)
    → get c (delete_commits gone r u).0.commits ≡ (if mem c gone then none else get c r.commits)
unfolding delete_commits mem
get-delete_commits [] r u c = refl
get-delete_commits (d ∷ gone) r u c = ground (
  arith,
  get-delete_commits gone (replace_commit r d none) (remember_commit r u d) c,
  get-replace_commit r d c none,
)

due-commits :
    (r : Reducer) (h : ℕ) (c : CommitRef)
    → CommitsIndexed r
    → mem c (members (range_to h r.commits_by_height)) ≡ (leb c.height h && contains c r.commits)
due-commits r h c x =
    range_of_key h c.height (contains c r.commits) c r.commits_by_height x.height_tidy.ascending
      (λ t. ground (arith, x.height_agrees t c))
    ∙ ground arith

pub get-prune_commits :
    (r : Reducer) (h : ℕ) (u : Undo) (c : CommitRef)
    → CommitsIndexed r
    → get c (prune_commits r h u).0.commits
      ≡ (if leb (c.height + r.parameters.commit_ttl_blocks) h then none else get c r.commits)
unfolding prune_commits contains
get-prune_commits r h u c x = ground (
  arith,
  get-delete_commits (members (range_to (h - r.parameters.commit_ttl_blocks) r.commits_by_height)) r
      u c,
  due-commits r (h - r.parameters.commit_ttl_blocks) c x,
)
