-- ===== src/Reducer/Rollback/Delta.antt =====
-- The delta of a rollback is the inverse of the delta of the block.
use coppice_names.Prelude.{◌≡◌, sym, ◌∙◌, Option, map, arith}
use coppice_names.Collections.Order.{nat_ord, list_ord}
use mathlib.Core.List.{map-map}
use coppice_names.Collections.OrdMap.{get}
use coppice_names.Collections.OrdMap.Ascending.{map_entries}
use coppice_names.Protocol.{NameId, Commitment, CommitRef, commit_ref_ord}
use coppice_names.Reducer.State.{Head, Undo, Reducer, Block, StateDelta, HeadChange, CommitChange}
use coppice_names.Reducer.Records.{new_undo, tip, delta_from_undo}
use coppice_names.Reducer.Maintenance.{Journaled}
use coppice_names.Reducer.Edits.Keeps.{IsJournal}
use coppice_names.Reducer.Blocks.{advance_tip, push_history}
use coppice_names.Reducer.Rollback.{inverse_delta}

abbrev pub invert_head : HeadChange → HeadChange
invert_head c = record { name_id = c.name_id; previous = c.current; current = c.previous }

abbrev pub invert_commit : CommitChange → CommitChange
invert_commit c = record { reference = c.reference; previous = c.current; current = c.previous }

-- the delta that leads back
abbrev pub invert_delta : StateDelta → StateDelta
invert_delta d = record {
  from_tip = d.to_tip;
  to_tip = d.from_tip;
  heads = map invert_head d.heads;
  commits = map invert_commit d.commits;
}

abbrev pub head_change : Reducer → NameId × Option Head → HeadChange
head_change r e = record { name_id = e.0; previous = e.1; current = get e.0 r.heads }

abbrev pub commit_change : Reducer → CommitRef × Option Commitment → CommitChange
commit_change r e = record { reference = e.0; previous = e.1; current = get e.0 r.commits }

-- A true journal's entries, read back from the reducer they restore, are the inverse changes.
module _ (r : Reducer) (first : Undo) (s : Journaled) (j : IsJournal r first s) where
  heads_inverted :
      map (λ e. invert_head (head_change s.0 (e.0, get e.0 r.heads))) s.1.heads
      ≡ map invert_head (map (head_change s.0) s.1.heads)
  heads_inverted =
      map_entries (λ e. invert_head (head_change s.0 (e.0, get e.0 r.heads)))
        (λ e. invert_head (head_change s.0 e)) s.1.heads j.heads_ascending
        (λ id v e. ground (arith, j.heads_before id))
      ∙ sym (map-map invert_head (head_change s.0) s.1.heads)

  commits_inverted :
      map (λ e. invert_commit (commit_change s.0 (e.0, get e.0 r.commits))) s.1.commits
      ≡ map invert_commit (map (commit_change s.0) s.1.commits)
  commits_inverted =
      map_entries (λ e. invert_commit (commit_change s.0 (e.0, get e.0 r.commits)))
        (λ e. invert_commit (commit_change s.0 e)) s.1.commits j.commits_ascending
        (λ c v e. ground (arith, j.commits_before c))
      ∙ sym (map-map invert_commit (commit_change s.0) s.1.commits)

pub inverse_delta_lem :
    (r : Reducer) (b : Block) (s : Journaled)
    → IsJournal r (new_undo r b.height b.hash) s
    → inverse_delta (push_history (advance_tip s.0 b) s.1) r s.1
      ≡ invert_delta (delta_from_undo (advance_tip s.0 b) (tip r) (tip (advance_tip s.0 b)) s.1)
unfolding push_history advance_tip delta_from_undo tip
inverse_delta_lem r b s j =
    let hs = heads_inverted r _ s j in
    let cs = commits_inverted r _ s j in
    λ i. record { from_tip = tip (advance_tip s.0 b); to_tip = tip r; heads = hs i; commits = cs i }
