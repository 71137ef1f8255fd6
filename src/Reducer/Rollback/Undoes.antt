-- ===== src/Reducer/Rollback/Undoes.antt =====
-- Rolling back the block that was just applied gives back the reducer as it was.
use coppice_names.Prelude.{
  ℕ, ◌≡◌, refl, sym, ap, ◌∙◌, Option, some, List, [], ok, arith, last?, subst,
}
use coppice_names.Collections.Order.{nat_ord, list_ord, same_of_eq}
use coppice_names.Collections.OrdMap.{OrdMap, get, contains}
use coppice_names.Protocol.{Bytes, NameId, Commitment, CommitRef, Primitives, commit_ref_ord}
use coppice_names.Reducer.State.{Undo, Reducer, Block, ReferencedCommit, BlockOutcome}
use coppice_names.Schedule.{Parameters, validate}
use coppice_names.Collections.Index.{holds}
use coppice_names.Collections.Index.Laws.{nil-IsTidy}
use coppice_names.Reducer.State.{ProofVerifier}
use coppice_names.Reducer.Records.{new_undo, tip, delta_from_undo}
use coppice_names.Reducer.Records.Reads.{SameFrame, SameFrame-trans}
use coppice_names.Reducer.Maintenance.{Journaled}
use coppice_names.Reducer.Indexes.{IsIndexed}
use coppice_names.Reducer.Indexes.Determined.{reducer_ext}
use coppice_names.Reducer.Edits.Keeps.{
  IsJournal, Edits-IsIndexed, Edits-IsJournal, new_undo-IsJournal,
}
use coppice_names.Reducer.Edits.Block.{run_block-Edits}
use coppice_names.Reducer.Blocks.{new, run_block, advance_tip, push_history, apply_block_detailed}
use coppice_names.Reducer.Blocks.Applied.{apply_block_inversion}
use coppice_names.Reducer.Rollback.{
  restore_heads, restore_commits, revert, rollback_tip_detailed, inverse_delta, drop_last,
}
use coppice_names.Reducer.Rollback.Delta.{invert_delta, inverse_delta_lem}
use coppice_names.Reducer.Rollback.Restore.{
  get-restore_heads, get-restore_commits, commits-restore_heads, heads-restore_commits,
  restore_heads-SameFrame, restore_commits-SameFrame, restore_heads-IsIndexed,
  restore_commits-IsIndexed, last?-push, drop_last-push,
}

-- the indexes say nothing of the position in the chain or of the history
pub reframe-IsIndexed :
    (r : Reducer) (next tip_height : Option ℕ) (hash : Bytes) (history : List Undo)
    → IsIndexed r
    → IsIndexed (record r {
      next_height = next;
      tip_height = tip_height;
      previous_hash = hash;
      history = history;
    })
reframe-IsIndexed r next tip_height hash history x = record {
  of_heads = record {
    heads_ascending = x.of_heads.heads_ascending;
    future_nf_tidy = x.of_heads.future_nf_tidy;
    active_tidy = x.of_heads.active_tidy;
    terminal_tidy = x.of_heads.terminal_tidy;
    future_nf_agrees = x.of_heads.future_nf_agrees;
    active_agrees = x.of_heads.active_agrees;
    terminal_agrees = x.of_heads.terminal_agrees;
  };
  of_commits = record {
    commits_ascending = x.of_commits.commits_ascending;
    height_tidy = x.of_commits.height_tidy;
    height_agrees = x.of_commits.height_agrees;
  };
}

-- A true journal, pushed with the new tip, leads back to the reducer that the block met.
module _ (r : Reducer) (b : Block) (s : Journaled) where
  abbrev popped : Reducer
  popped = record (push_history (advance_tip s.0 b) s.1) {
    history = drop_last (push_history (advance_tip s.0 b) s.1).history;
  }

  abbrev restored : Reducer
  restored = restore_heads s.1.heads (restore_commits s.1.commits popped)

  popped-IsIndexed : IsIndexed s.0 → IsIndexed popped
  unfolding push_history advance_tip
  popped-IsIndexed x = reframe-IsIndexed s.0 _ _ _ _ x

  restored-IsIndexed : IsIndexed s.0 → IsIndexed restored
  restored-IsIndexed x =
      restore_heads-IsIndexed s.1.heads _
        (restore_commits-IsIndexed s.1.commits popped (popped-IsIndexed x))

  restored-SameFrame : SameFrame popped restored
  restored-SameFrame =
      SameFrame-trans (restore_commits-SameFrame s.1.commits popped)
        (restore_heads-SameFrame s.1.heads (restore_commits s.1.commits popped))

  heads_restored :
      IsJournal r (new_undo r b.height b.hash) s
      → (id : NameId) → get id restored.heads ≡ get id r.heads
  unfolding push_history advance_tip
  heads_restored j id =
      get-restore_heads s.1.heads (restore_commits s.1.commits popped) id j.heads_ascending
      ∙ rw heads-restore_commits (j.heads_before id)

  commits_restored :
      IsJournal r (new_undo r b.height b.hash) s
      → (c : CommitRef) → get c restored.commits ≡ get c r.commits
  unfolding push_history advance_tip
  commits_restored j c =
      rw commits-restore_heads
        (get-restore_commits s.1.commits popped c j.commits_ascending ∙ j.commits_before c)

  revert_journal :
      IsIndexed r
      → IsIndexed s.0
      → IsJournal r (new_undo r b.height b.hash) s
      → revert (push_history (advance_tip s.0 b) s.1) s.1 ≡ r
  unfolding revert push_history advance_tip new_undo
  revert_journal x y j =
      let f = restored-SameFrame in
      reducer_ext (revert (push_history (advance_tip s.0 b) s.1) s.1) r
        (reframe-IsIndexed restored _ _ _ _ (restored-IsIndexed y)) x
        (record {
          parameters = f.parameters ∙ j.frame.parameters;
          verifier = f.verifier ∙ j.frame.verifier;
          next_height = j.origin.previous_next_height;
          tip_height = j.origin.previous_tip_height;
          previous_hash = j.origin.previous_hash;
          history = f.history ∙ (drop_last-push s.0.history s.1 ∙ j.frame.history);
        })
        (heads_restored j) (commits_restored j)

-- The newest journal and the tip must both carry the expected hash.
rollback_accepts :
    (q : Reducer) (u : Undo) (hash : Bytes)
    → last? q.history ≡ some u
    → u.hash ≡ hash
    → q.previous_hash ≡ hash
    → rollback_tip_detailed q hash ≡ ok (revert q u, inverse_delta q (revert q u) u)
unfolding rollback_tip_detailed
rollback_accepts q u hash newest e f =
    rw (newest, same_of_eq u.hash hash e, same_of_eq q.previous_hash hash f) refl

-- Rolling back a pushed journal that is true.
rollback_pushed :
    (r : Reducer) (b : Block) (s : Journaled)
    → IsIndexed r
    → IsIndexed s.0
    → IsJournal r (new_undo r b.height b.hash) s
    → rollback_tip_detailed (push_history (advance_tip s.0 b) s.1) b.hash
      ≡ ok (
        r,
        invert_delta (delta_from_undo (advance_tip s.0 b) (tip r) (tip (advance_tip s.0 b)) s.1),
      )
unfolding push_history advance_tip new_undo
rollback_pushed r b s x y j =
    accepted
    ∙ ap (λ q. ok (q, inverse_delta (push_history (advance_tip s.0 b) s.1) q s.1))
        (revert_journal r b s x y j)
    ∙ ap (λ d. ok (r, d)) (inverse_delta_lem r b s j)
  where
    accepted :
        rollback_tip_detailed (push_history (advance_tip s.0 b) s.1) b.hash
        ≡ ok (
          revert (push_history (advance_tip s.0 b) s.1) s.1,
          inverse_delta
              (push_history (advance_tip s.0 b) s.1)
              (revert (push_history (advance_tip s.0 b) s.1) s.1)
              s.1,
        )
    accepted =
        rollback_accepts (push_history (advance_tip s.0 b) s.1) s.1 b.hash
          (last?-push s.0.history s.1) j.origin.hash refl

module _ ⦃prims : Primitives⦄ where
  -- the state that a block leaves, before the tip advances
  abbrev pub changed : Reducer → Block → OrdMap CommitRef Commitment → Journaled
  changed r b supplied = (run_block r b supplied).0

  run_block-IsIndexed :
      (r : Reducer) (b : Block) (supplied : OrdMap CommitRef Commitment)
      → IsIndexed r
      → IsIndexed (changed r b supplied).0
  run_block-IsIndexed r b supplied x = Edits-IsIndexed (run_block-Edits r b supplied) x

  pub run_block-IsJournal :
      (r : Reducer) (b : Block) (supplied : OrdMap CommitRef Commitment)
      → IsJournal r (new_undo r b.height b.hash) (changed r b supplied)
  run_block-IsJournal r b supplied =
      Edits-IsJournal r (new_undo r b.height b.hash) (run_block-Edits r b supplied)
        (new_undo-IsJournal r b.height b.hash)

  -- Rolling back the block that was applied last gives back the reducer as it was.
  pub rollback-apply_block :
      (r : Reducer) (b : Block) (referenced : List ReferencedCommit) (after : Reducer)
      (outcome : BlockOutcome)
      → IsIndexed r
      → apply_block_detailed r b referenced ≡ ok (after, outcome)
      → rollback_tip_detailed after b.hash ≡ ok (r, invert_delta outcome.state_delta)
  rollback-apply_block r b referenced after outcome x h =
      let a = apply_block_inversion r b referenced after outcome h in
      let s = changed r b a.supplied in
      let undone =
        rollback_pushed r b s x (run_block-IsIndexed r b a.supplied x)
          (run_block-IsJournal r b a.supplied) in
      ap (λ q. rollback_tip_detailed q b.hash) a.after_eq
      ∙ undone
      ∙ ap (λ (o : BlockOutcome). ok (r, invert_delta o.state_delta)) (sym a.outcome_eq)

  -- A block keeps the indexes in agreement with the records.
  pub apply_block-IsIndexed :
      (r : Reducer) (b : Block) (referenced : List ReferencedCommit) (after : Reducer)
      (outcome : BlockOutcome)
      → IsIndexed r
      → apply_block_detailed r b referenced ≡ ok (after, outcome)
      → IsIndexed after
  unfolding push_history advance_tip
  apply_block-IsIndexed r b referenced after outcome x h =
      let a = apply_block_inversion r b referenced after outcome h in
      subst IsIndexed (sym a.after_eq) (
        reframe-IsIndexed (changed r b a.supplied).0 _ _ _ _ (run_block-IsIndexed r b a.supplied x))

nil-IsIndexed :
    (r : Reducer)
    → (r.commits ≡ []) × (r.heads ≡ [])
    → (r.commits_by_height ≡ [])
      × (r.heads_by_future_nf ≡ [])
      × (r.active_heads_by_expiry ≡ [])
      × (r.terminal_heads_by_height ≡ [])
    → IsIndexed r
unfolding get contains holds
nil-IsIndexed r (c, h) (i, f, a, t) = record {
  of_heads = record {
    heads_ascending = rw h tt;
    future_nf_tidy = rw f nil-IsTidy;
    active_tidy = rw a nil-IsTidy;
    terminal_tidy = rw t nil-IsTidy;
    future_nf_agrees = λ nf id. rw (f, h) refl;
    active_agrees = λ e id. rw (a, h) refl;
    terminal_agrees = λ e id. rw (t, h) refl;
  };
  of_commits = record {
    commits_ascending = rw c tt;
    height_tidy = rw i nil-IsTidy;
    height_agrees = λ e id. rw (i, c) (ground arith);
  };
}

-- A new reducer is consistent.
pub new-IsIndexed :
    (p : Parameters) (hash : Bytes) (v : ProofVerifier) (r : Reducer)
    → new p hash v ≡ ok r
    → IsIndexed r
unfolding new validate
new-IsIndexed p hash v r h =
    nil-IsIndexed r (ground arith, ground arith)
      (ground arith, ground arith, ground arith, ground arith)
