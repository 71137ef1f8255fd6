-- ===== src/Reducer/Maintenance/Start.antt =====
-- The start of a block, from the records alone: what the index-driven passes do together.
use coppice_names.Prelude.{
  ℕ, ◌+◌, ◌-◌, List, [], ◌∷◌, Option-cases, inl, inr, ◌≡◌, ◌∙◌, ap, refl, Option, none, some, arith,
  if◌then◌else◌, leb,
}
use coppice_names.Collections.Order.{nat_ord, list_ord}
use coppice_names.Collections.OrdMap.{get, range_to}
use coppice_names.Collections.Index.{members}
use coppice_names.Protocol.{NameId, StateRef, Commitment, CommitRef, commit_ref_ord}
use coppice_names.Schedule.{Parameters}
use coppice_names.Reducer.State.{Head, Undo, Reducer, terminal_at, is_claimable}
use coppice_names.Reducer.Indexes.{IsIndexed}
use coppice_names.Reducer.Edits.Block.{mark_expired-Edits, compact_claimable-Edits}
use coppice_names.Reducer.Edits.Keeps.{Edits-IsIndexed}
use coppice_names.Reducer.Edits.{
  Edit, Edits, Edits-keep, replaces_head, keeps_head, replaces_commit,
}
use coppice_names.Reducer.Records.{replace_head, replace_commit, remember_head, remember_commit}
use coppice_names.Reducer.Records.Reads.{
  replace_head-SameFrame, replace_commit-SameFrame, commits-replace_head, heads-replace_commit,
}
use coppice_names.Reducer.Maintenance.{
  Journaled, expire_head, expire_heads, mark_expired, delete_heads, claimable_up_to,
  compact_claimable, delete_commits, prune_commits,
}
use coppice_names.Reducer.Maintenance.Expiry.{expired_at, get-mark_expired}
use coppice_names.Reducer.Maintenance.Removal.{
  unless_claimable, get-compact_claimable, get-prune_commits,
}

-- the three passes as `apply_block_detailed` runs them
abbrev pub start_block : Reducer → ℕ → Undo → Journaled
start_block r h u =
    let s1 = mark_expired r h u in
    let s2 = (compact_claimable s1.0 h s1.1).0 in prune_commits s2.0 h s2.1

-- a head at the start of a block: gone if it is claimable, with its terminal height otherwise
abbrev pub head_at_start : Parameters → ℕ → Option Head → Option Head
head_at_start p h none = none
head_at_start p h (some head) =
    if is_claimable head h p
    then none
    else some (record head { terminal_height = terminal_at head h })

-- a pending COMMIT at the start of a block
abbrev pub commit_at_start : Parameters → ℕ → CommitRef → Option Commitment → Option Commitment
commit_at_start p h c stored = if leb (c.height + p.commit_ttl_blocks) h then none else stored

two_passes :
    (p : Parameters) (h : ℕ) (o : Option Head)
    → unless_claimable p h (expired_at h o) ≡ head_at_start p h o
unfolding is_claimable terminal_at
two_passes p h none = refl
two_passes p h (some head) = ground arith

-- edits leave the parameters
Edits-parameters :
    (p : Parameters) {s t : Journaled} → Edits s t → s.0.parameters ≡ p → t.0.parameters ≡ p
Edits-parameters p = Edits-keep (λ s. s.0.parameters ≡ p) step
  where
    step : (s t : Journaled) → Edit s t → s.0.parameters ≡ p → t.0.parameters ≡ p
    step _ _ (replaces_head r u id v) e = (replace_head-SameFrame r id v).parameters ∙ e
    step _ _ (keeps_head r u id) e = e
    step _ _ (replaces_commit r u c v) e = (replace_commit-SameFrame r c v).parameters ∙ e

commits-expire_head : (r : Reducer) (id : NameId) → (expire_head r id).commits ≡ r.commits
unfolding expire_head
commits-expire_head r id = elim (Option-cases (get id r.heads)) [
  | inl e ↦ rw (e, expire_head) refl
  | inr (head, e) ↦ rw (e, expire_head) (commits-replace_head r id _)
]

commits-expire_heads :
    (ids : List NameId) (r : Reducer) (u : Undo) → (expire_heads ids r u).0.commits ≡ r.commits
unfolding expire_heads
commits-expire_heads [] r u = refl
commits-expire_heads (id ∷ ids) r u =
    commits-expire_heads ids (expire_head r id) (remember_head r u id) ∙ commits-expire_head r id

commits-delete_heads :
    (gone : List (NameId × StateRef)) (r : Reducer) (u : Undo)
    → (delete_heads gone r u).0.commits ≡ r.commits
unfolding delete_heads
commits-delete_heads [] r u = refl
commits-delete_heads ((id, producer) ∷ gone) r u =
    commits-delete_heads gone (replace_head r id none) (remember_head r u id)
    ∙ commits-replace_head r id none

heads-delete_commits :
    (gone : List CommitRef) (r : Reducer) (u : Undo) → (delete_commits gone r u).0.heads ≡ r.heads
unfolding delete_commits
heads-delete_commits [] r u = refl
heads-delete_commits (c ∷ gone) r u =
    heads-delete_commits gone (replace_commit r c none) (remember_commit r u c)
    ∙ heads-replace_commit r c none

commits-mark_expired : (r : Reducer) (h : ℕ) (u : Undo) → (mark_expired r h u).0.commits ≡ r.commits
unfolding mark_expired
commits-mark_expired r h u = commits-expire_heads _ r u

commits-compact_claimable :
    (r : Reducer) (h : ℕ) (u : Undo) → (compact_claimable r h u).0.0.commits ≡ r.commits
unfolding compact_claimable
commits-compact_claimable r h u =
    ground (arith, commits-delete_heads (claimable_up_to r (h - r.parameters.cooldown_blocks)) r u)

heads-prune_commits : (r : Reducer) (h : ℕ) (u : Undo) → (prune_commits r h u).0.heads ≡ r.heads
unfolding prune_commits
heads-prune_commits r h u = ground (
  arith,
  heads-delete_commits (members (range_to (h - r.parameters.commit_ttl_blocks) r.commits_by_height))
      r u,
)

module _ (r : Reducer) (h : ℕ) (u : Undo) (x : IsIndexed r) where
  abbrev s1 : Journaled
  s1 = mark_expired r h u

  abbrev s2 : Journaled
  s2 = (compact_claimable s1.0 h s1.1).0

  x1 : IsIndexed s1.0
  x1 = Edits-IsIndexed (mark_expired-Edits r h u) x

  x2 : IsIndexed s2.0
  x2 = Edits-IsIndexed (compact_claimable-Edits s1.0 h s1.1) x1

  p1 : s1.0.parameters ≡ r.parameters
  p1 = Edits-parameters r.parameters (mark_expired-Edits r h u) refl

  p2 : s2.0.parameters ≡ r.parameters
  p2 = Edits-parameters r.parameters (compact_claimable-Edits s1.0 h s1.1) p1

  -- At the start of a block on a consistent reducer, every head and every COMMIT is what the rules
  -- on that record alone say, although the passes find the records through the indexes.
  pub start_block-reads :
      ((id : NameId)
        → get id (start_block r h u).0.heads ≡ head_at_start r.parameters h (get id r.heads))
      × ((c : CommitRef)
          → get c (start_block r h u).0.commits
            ≡ commit_at_start r.parameters h c (get c r.commits))
  start_block-reads = (
    (λ id.
        ap (get id) (heads-prune_commits s2.0 h s2.1)
        ∙ get-compact_claimable s1.0 h s1.1 id x1.of_heads
        ∙ rw (p1, get-mark_expired r h u id x.of_heads)
            (two_passes r.parameters h (get id r.heads))),
    (λ c.
        get-prune_commits s2.0 h s2.1 c x2.of_commits
        ∙ rw (p2, commits-compact_claimable s1.0 h s1.1, commits-mark_expired r h u) refl),
  )
