-- ===== src/Reducer/Transactions.antt =====
-- One transaction: `apply_reveal`, `apply_refresh` and `apply_transaction_detailed`.
pub mod Spends
use coppice_names.Prelude.{
  ℕ, Bool, true, false, not, Option, none, some, List, [], ◌∷◌, ◌++◌, Result, ok, err, ◌>>=◌, ◌>>◌,
  guard, ok_or, map_err, ltb, ◌==◌, if◌then◌else◌, get_elem?,
}
use coppice_names.Collections.Order.{same, nat_ord, list_ord}
use coppice_names.Collections.OrdMap.{get, contains, keys, set_of}
use coppice_names.Collections.Index.{bucket}
use coppice_names.Protocol.{
  Bytes, Name, NameId, Commitment, CommitRef, StateRef, Primitives, commit_ref_ord, state_ref_ord,
  name_id,
}
use coppice_names.Schedule.{epoch, expiry, accepts_operation, accepts_commit}
use coppice_names.Statement.{RevealStatement, RefreshStatement}
use coppice_names.Operation.{Operation, Reveal, Refresh}
use coppice_names.Reducer.State.{
  Action, Transaction, Head, Lifecycle, Undo, Reducer, Termination, ClauseId, OperationDecision,
  Accepted, lifecycle, commit_accept, reveal_accept, refresh_accept, block_order, reveal_missing,
  reveal_schedule, reveal_commit, reveal_action, reveal_proof, refresh_current, refresh_schedule,
  refresh_epoch, refresh_action, refresh_proof,
}
use coppice_names.Reducer.Records.{replace_commit, replace_head, remember_commit, remember_head}
use coppice_names.Reducer.Maintenance.{Journaled, with_producers}

-- the head that an accepted operation writes
abbrev pub new_head : ℕ → Transaction → Name → Bytes → ℕ → Bytes → Bytes → ℕ → ℕ → Head
new_head height tx name ua action_index commitment future_nf epoch expiry_height = record {
  name = name;
  ua = ua;
  producer = record {
    height = height;
    tx_index = tx.tx_index;
    txid = tx.txid;
    action_index = action_index;
  };
  commitment = commitment;
  future_nf = future_nf;
  producer_epoch = epoch;
  expiry_height = expiry_height;
  terminal_height = none;
}

abbrev is_active : Lifecycle → Bool
is_active Lifecycle.active = true
is_active _ = false

module _ ⦃prims : Primitives⦄ where
  -- `apply_reveal` up to the write: the checks in their order, and the head to write
  unfoldable pub check_reveal : Reducer → ℕ → Transaction → Reveal → Result ClauseId (NameId × Head)
  check_reveal r height tx op = do
    id ← map_err (name_id op.name) (λ _. reveal_missing)
    guard (not (contains id r.heads)) reveal_missing
    guard (accepts_operation r.parameters id height) reveal_schedule
    guard (accepts_commit r.parameters op.commit.height height) reveal_commit
    commitment ← ok_or (get op.commit r.commits) reveal_commit
    action ← ok_or (get_elem? tx.actions op.action_index) reveal_action
    guard (action.action_index == op.action_index) reveal_action
    epoch ← map_err (epoch r.parameters height) (λ _. reveal_schedule)
    guard (r.verifier.verify_reveal (statement id commitment action epoch) op.proof) reveal_proof
    expiry_height ← map_err (expiry r.parameters height) (λ _. reveal_schedule)
    ok (
      id,
      new_head height tx op.name op.ua op.action_index action.commitment op.successor_future_nf
          epoch expiry_height,
    )
    where
      statement : NameId → Commitment → Action → ℕ → RevealStatement
      statement id commitment action epoch = record {
        deployment_id = r.parameters.deployment_id;
        name_id = id;
        inclusion_epoch = epoch;
        commitment = commitment;
        commit_ref = op.commit;
        ua = op.ua;
        action_index = op.action_index;
        action_nullifier = action.nullifier;
        action_commitment = action.commitment;
        successor_future_nf = op.successor_future_nf;
      }

  -- `apply_refresh` up to the write
  unfoldable pub check_refresh :
      Reducer → ℕ → Transaction → Refresh → Result ClauseId (NameId × Head)
  check_refresh r height tx op = do
    id ← map_err (name_id op.name) (λ _. refresh_current)
    predecessor_head ← ok_or (get id r.heads) refresh_current
    epoch ← map_err (epoch r.parameters height) (λ _. refresh_schedule)
    guard (is_active (lifecycle predecessor_head height r.parameters)) refresh_current
    guard (same predecessor_head.producer op.predecessor) refresh_current
    guard (ltb predecessor_head.producer_epoch epoch) refresh_epoch
    guard (accepts_operation r.parameters id height) refresh_schedule
    action ← ok_or (get_elem? tx.actions op.action_index) refresh_action
    guard (action.action_index == op.action_index) refresh_action
    guard (same action.nullifier predecessor_head.future_nf) refresh_action
    guard (r.verifier.verify_refresh (statement id predecessor_head action epoch) op.proof)
        refresh_proof
    expiry_height ← map_err (expiry r.parameters height) (λ _. refresh_schedule)
    ok (
      id,
      new_head height tx op.name op.ua op.action_index action.commitment op.successor_future_nf
          epoch expiry_height,
    )
    where
      statement : NameId → Head → Action → ℕ → RefreshStatement
      statement id head action epoch = record {
        deployment_id = r.parameters.deployment_id;
        name_id = id;
        predecessor_ref = op.predecessor;
        predecessor_commitment = head.commitment;
        predecessor_future_nf = head.future_nf;
        predecessor_epoch = head.producer_epoch;
        inclusion_epoch = epoch;
        ua = op.ua;
        action_index = op.action_index;
        action_nullifier = action.nullifier;
        action_commitment = action.commitment;
        successor_future_nf = op.successor_future_nf;
      }

-- the write that ends `apply_reveal` and `apply_refresh`
unfoldable pub write_head : Reducer → Undo → NameId → Head → Journaled
write_head r undo id head = (replace_head r id (some head), remember_head r undo id)

-- the decision on a checked operation, with the write if it passed
unfoldable pub settle :
    Accepted
    → ClauseId
    → Reducer
    → Undo
    → Result ClauseId (NameId × Head)
    → Journaled × OperationDecision
unfolding write_head
settle kind clause r undo (ok (id, head)) =
    (write_head r undo id head, record { accepted = some kind; clause_id = clause })
settle kind clause r undo (err refusal) =
    ((r, undo), record { accepted = none; clause_id = refusal })

module _ ⦃prims : Primitives⦄ where
  -- the `match` on the transaction's operation
  unfoldable pub apply_operation :
      Reducer → ℕ → Transaction → Undo → Option Operation → Journaled × OperationDecision
  unfolding settle
  apply_operation r height tx undo none =
      ((r, undo), record { accepted = none; clause_id = block_order })
  apply_operation r height tx undo (some (Operation.commit commitment)) =
      let reference : CommitRef = record {
        height = height;
        tx_index = tx.tx_index;
        txid = tx.txid;
      } in
      (
        (replace_commit r reference (some commitment), remember_commit r undo reference),
        record { accepted = some Accepted.commit; clause_id = commit_accept },
      )
  apply_operation r height tx undo (some (Operation.reveal op)) =
      settle Accepted.reveal reveal_accept r undo (check_reveal r height tx op)
  apply_operation r height tx undo (some (Operation.refresh op)) =
      settle Accepted.refresh refresh_accept r undo (check_refresh r height tx op)

-- the identifiers whose heads the actions spend, in the order of the actions
unfoldable pub spent_ids : Reducer → List Action → List NameId
spent_ids r [] = []
spent_ids r (action ∷ rest) =
    keys (bucket action.nullifier r.heads_by_future_nf) ++ spent_ids r rest

-- the heads spent by a transaction, each once, in ascending order
unfoldable pub spent_heads : Reducer → Transaction → List (NameId × StateRef)
unfolding spent_ids
spent_heads r tx = with_producers r (keys (set_of (spent_ids r tx.actions)))

-- a spent head that is still in place becomes terminal, unless it is terminal
unfoldable pub terminate_head :
    ℕ → NameId → StateRef → Head → Reducer → Undo → Journaled × List Termination
terminate_head height id producer head r undo =
    if same head.producer producer
    then (elim head.terminal_height [
      | some _ ↦ ((r, remember_head r undo id), [])
      | none ↦ (
        (
          replace_head r id (some (record head { terminal_height = some height })),
          remember_head r undo id,
        ),
        record { name_id = id; previous_head = producer; height = height } ∷ [],
      )
    ])
    else ((r, undo), [])

-- the loop over the spent heads
unfoldable pub terminate_heads :
    ℕ → List (NameId × StateRef) → Reducer → Undo → Journaled × List Termination
unfolding terminate_head
terminate_heads height [] r undo = ((r, undo), [])
terminate_heads height ((id, producer) ∷ rest) r undo = elim (get id r.heads) [
  | none ↦ terminate_heads height rest r undo
  | some head ↦
      let ((r', undo'), first) = terminate_head height id producer head r undo in
      let (state, more) = terminate_heads height rest r' undo' in (state, first ++ more)
]

module _ ⦃prims : Primitives⦄ where
  -- `apply_transaction_detailed`; the terminations are those that it appends
  unfoldable pub apply_transaction_detailed :
      Reducer → ℕ → Transaction → Undo → Journaled × OperationDecision × List Termination
  apply_transaction_detailed r height tx undo =
      let spent = spent_heads r tx in
      let ((r1, undo1), decision) = apply_operation r height tx undo tx.operation in
      let (state, terminated) = terminate_heads height spent r1 undo1 in
      (state, decision, terminated)
