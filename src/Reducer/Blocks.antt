-- ===== src/Reducer/Blocks.antt =====
-- One block: `Reducer::new` and `apply_block_detailed`.
pub mod Applied
use coppice_names.Prelude.{
  ℕ, zero, suc, ◌+◌, ◌-◌, min, Bool, true, false, not, ◌||◌, Option, none, some, List, [], ◌∷◌,
  ◌++◌, Result, ok, err, ◌>>=◌, ◌>>◌, guard, map_err, ltb, leb, ◌==◌, if◌then◌else◌, is_some_and,
}
use coppice_names.Prelude.Word.{checked_add, u32_size}
use coppice_names.Collections.Order.{same, nat_ord, list_ord}
use coppice_names.Collections.OrdMap.{OrdMap, OrdSet, get, contains, insert, set_of}
use coppice_names.Protocol.{Bytes, Commitment, CommitRef, Primitives, commit_ref_ord}
use coppice_names.Schedule.{Parameters, validate}
use coppice_names.Operation.{Operation, Reveal}
use coppice_names.Reducer.State.{
  Action, Transaction, Block, ReferencedCommit, ProofVerifier, Undo, Reducer, Accepted, Termination,
  Compaction, BlockOutcome, OperationDecision, ApplyError, invalid_parameters, wrong_height,
  wrong_previous_hash, non_canonical_transaction_index, non_canonical_action_index,
  invalid_referenced_commit, conflicting_referenced_commit,
}
use coppice_names.Reducer.Records.{replace_commit, remember_commit, new_undo, tip, delta_from_undo}
use coppice_names.Reducer.Maintenance.{Journaled, mark_expired, compact_claimable, prune_commits}
use coppice_names.Reducer.Transactions.{apply_transaction_detailed}

-- `Reducer::new`
unfoldable pub new : Parameters → Bytes → ProofVerifier → Result ApplyError Reducer
new parameters activation_parent_hash verifier = do
  p ← map_err (validate parameters) (λ _. invalid_parameters)
  ok (record {
    parameters = p;
    verifier = verifier;
    next_height = some p.activation_height;
    tip_height = none;
    previous_hash = activation_parent_hash;
    commits = [];
    heads = [];
    commits_by_height = [];
    heads_by_future_nf = [];
    active_heads_by_expiry = [];
    terminal_heads_by_height = [];
    history = [];
  })

-- the actions of a transaction are numbered from 0; `u32::try_from(index).unwrap_or(u32::MAX)`
unfoldable pub check_actions : ℕ → List Action → Result ApplyError (Unit {0})
check_actions index [] = ok tt
check_actions index (action ∷ rest) = do
  guard (action.action_index == min index (u32_size - 1)) non_canonical_action_index
  check_actions (index + 1) rest

-- transaction indexes ascend
unfoldable pub check_transactions : Option ℕ → List Transaction → Result ApplyError (Unit {0})
unfolding check_actions
check_transactions previous [] = ok tt
check_transactions previous (tx ∷ rest) = do
  guard (not (is_some_and previous (λ p. leb tx.tx_index p))) non_canonical_transaction_index
  check_actions 0 tx.actions
  check_transactions (some tx.tx_index) rest

-- the COMMITs that the block's REVEALs name
unfoldable pub reveal_references : List Transaction → List CommitRef
reveal_references [] = []
reveal_references (tx ∷ rest) = elim tx.operation [
  | some (Operation.reveal op) ↦ op.commit ∷ reveal_references rest
  | _ ↦ reveal_references rest
]

-- evidence that no REVEAL of the block asked for, or that is not of an age to be used
abbrev pub is_invalid_evidence : Reducer → ℕ → OrdSet CommitRef → CommitRef → Bool
is_invalid_evidence r height references reference =
    not (contains reference references)
    || ltb reference.height r.parameters.activation_height
    || leb height reference.height
    || leb r.parameters.commit_ttl_blocks (height - reference.height)

abbrev pub conflicts : Commitment → Option Commitment → Bool
conflicts commitment prior = is_some_and prior (λ c. not (same c commitment))

-- the loop over `referenced_commits`, from what is supplied so far
unfoldable pub collect_evidence :
    Reducer
    → ℕ
    → OrdSet CommitRef
    → OrdMap CommitRef Commitment
    → List ReferencedCommit
    → Result ApplyError (OrdMap CommitRef Commitment)
collect_evidence r height references supplied [] = ok supplied
collect_evidence r height references supplied (evidence ∷ rest) = do
  guard (not (is_invalid_evidence r height references evidence.reference)) invalid_referenced_commit
  guard
      (not (
        conflicts evidence.commitment (get evidence.reference supplied)
        || conflicts evidence.commitment (get evidence.reference r.commits)))
      conflicting_referenced_commit
  collect_evidence r height references (insert evidence.reference evidence.commitment supplied) rest

-- the checks before the block changes anything; returns the evidence to admit
unfoldable pub check_block :
    Reducer → Block → List ReferencedCommit → Result ApplyError (OrdMap CommitRef Commitment)
unfolding check_transactions collect_evidence reveal_references
check_block r block referenced = do
  guard (is_some_and r.next_height (λ next. next == block.height)) wrong_height
  guard (same block.prev_hash r.previous_hash) wrong_previous_hash
  check_transactions none block.transactions
  collect_evidence r block.height (set_of (reveal_references block.transactions)) [] referenced

-- admitting the evidence
unfoldable pub admit_evidence : List (CommitRef × Commitment) → Reducer → Undo → Journaled
admit_evidence [] r undo = (r, undo)
admit_evidence ((reference, commitment) ∷ rest) r undo =
    admit_evidence rest (replace_commit r reference (some commitment))
      (remember_commit r undo reference)

-- what the loop over the transactions has collected
pub record Collected : Type 0 where
  pub accepted : List Accepted
  pub decisions : List OperationDecision
  pub terminated : List Termination

unfoldable pub collect : OperationDecision → List Termination → Collected → Collected
collect decision terminated rest = record {
  accepted = elim decision.accepted [ none ↦ rest.accepted | some a ↦ a ∷ rest.accepted ];
  decisions = decision ∷ rest.decisions;
  terminated = terminated ++ rest.terminated;
}

module _ ⦃prims : Primitives⦄ where
  unfoldable pub apply_transactions : ℕ → List Transaction → Reducer → Undo → Journaled × Collected
  unfolding collect
  apply_transactions height [] r undo =
      ((r, undo), record { accepted = []; decisions = []; terminated = [] })
  apply_transactions height (tx ∷ rest) r undo =
      let ((r', undo'), decision, terminated) = apply_transaction_detailed r height tx undo in
      let (state, others) = apply_transactions height rest r' undo' in
      (state, collect decision terminated others)

  -- the state changes of a block that passed its checks, up to the new tip
  unfoldable pub run_block :
      Reducer → Block → OrdMap CommitRef Commitment → Journaled × List Compaction × Collected
  run_block r block supplied =
      let (r1, undo1) = mark_expired r block.height (new_undo r block.height block.hash) in
      let ((r2, undo2), compacted) = compact_claimable r1 block.height undo1 in
      let (r3, undo3) = prune_commits r2 block.height undo2 in
      let (r4, undo4) = admit_evidence supplied r3 undo3 in
      let (state, collected) = apply_transactions block.height block.transactions r4 undo4 in
      (state, compacted, collected)

-- the block becomes the tip
unfoldable pub advance_tip : Reducer → Block → Reducer
advance_tip r block = record r {
  next_height = checked_add block.height 1;
  tip_height = some block.height;
  previous_hash = block.hash;
}

unfoldable pub push_history : Reducer → Undo → Reducer
push_history r undo = record r { history = r.history ++ undo ∷ [] }

module _ ⦃prims : Primitives⦄ where
  -- `apply_block_detailed`
  unfoldable pub apply_block_detailed :
      Reducer → Block → List ReferencedCommit → Result ApplyError (Reducer × BlockOutcome)
  unfolding advance_tip push_history
  apply_block_detailed r block referenced = do
    supplied ← check_block r block referenced
    let ((changed, undo), compacted, collected) = run_block r block supplied
    let advanced = advance_tip changed block
    ok (
      push_history advanced undo,
      record {
        accepted = collected.accepted;
        decisions = collected.decisions;
        compacted = compacted;
        terminated = collected.terminated;
        state_delta = delta_from_undo advanced (tip r) (tip advanced) undo;
      },
    )

  -- `apply_block_with_referenced_commits`; with no evidence, `apply_block`
  unfoldable pub apply_block_with_referenced_commits :
      Reducer → Block → List ReferencedCommit → Result ApplyError (Reducer × List Accepted)
  unfolding apply_block_detailed
  apply_block_with_referenced_commits r block referenced = do
    (after, outcome) ← apply_block_detailed r block referenced
    ok (after, outcome.accepted)
