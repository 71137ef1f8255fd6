-- ===== src/Examples/Chain.antt =====
-- A chain of five blocks in which the name "a" is committed to and revealed.
use coppice_names.Prelude.{
  ℕ, suc, ◌≡◌, refl, true, Option, none, some, List, [], ◌∷◌, Result, ok, err,
}
use coppice_names.Collections.Order.{nat_ord, list_ord, pair_ord, same}
use coppice_names.Collections.OrdMap.{get, contains, insert, remove, range_to, keys, set_of}
use coppice_names.Collections.Index.{bucket, add_index_entry, remove_index_entry, members}
use coppice_names.Protocol.{
  Bytes, Primitives, name_id, name_id_from, wide_field, commit_ref_ord, state_ref_ord,
}
use coppice_names.Schedule.{
  Parameters, validate, epoch, window, offset, from_le_bytes, accepts_operation, accepts_commit,
  expiry,
}
use coppice_names.Operation.{Operation, Reveal}
use coppice_names.Reducer.State.{
  Action, Transaction, Block, ProofVerifier, Reducer, BlockOutcome, Accepted, ApplyError,
}
use coppice_names.Reducer.Records.{
  replace_commit, replace_head, tip, new_undo, remember_commit, remember_head, delta_from_undo,
}
use coppice_names.Reducer.Maintenance.{
  mark_expired, expire_heads, expire_head, compact_claimable, delete_heads, with_producers,
  prune_commits, delete_commits,
}
use coppice_names.Reducer.Transactions.{
  check_reveal, check_refresh, apply_operation, spent_heads, terminate_heads,
  apply_transaction_detailed,
}
use coppice_names.Reducer.Blocks.{
  new, check_block, admit_evidence, apply_transactions, run_block, apply_block_detailed,
}

instance abbrev pub toy : Primitives
toy = record {
  blake2b = λ n personal input. input;
  from_uniform_bytes = λ wide. wide;
  is_canonical_repr = λ bytes. true;
  reencode_address = λ value. some value;
}

-- windows of four blocks, two blocks into each epoch of six
abbrev pub parameters : Parameters
parameters = record {
  deployment_id = 2 ∷ 0 ∷ 0 ∷ 0 ∷ 0 ∷ 0 ∷ 0 ∷ 0 ∷ [];
  activation_height = 0;
  epoch_blocks = 6;
  window_blocks = 4;
  commit_maturity_blocks = 4;
  commit_ttl_blocks = 5;
  lease_blocks = 7;
  cooldown_blocks = 6;
}

abbrev pub trusting : ProofVerifier
trusting = record { verify_reveal = λ s p. true; verify_refresh = λ s p. true }

abbrev pub tx_of : Bytes → List Action → Option Operation → Transaction
tx_of txid actions operation = record {
  tx_index = 0;
  txid = txid;
  actions = actions;
  operation = operation;
}

abbrev pub block_of : ℕ → List Transaction → Block
block_of height transactions = record {
  height = height;
  hash = suc height ∷ [];
  prev_hash = height ∷ [];
  transactions = transactions;
}

abbrev pub committing : Block
committing = block_of 0 (tx_of (7 ∷ []) [] (some (Operation.commit (9 ∷ []))) ∷ [])

abbrev pub reveal_a : Reveal
reveal_a = record {
  name = b'a' ∷ [];
  commit = record { height = 0; tx_index = 0; txid = 7 ∷ [] };
  ua = b'u' ∷ b'1' ∷ b'a' ∷ [];
  action_index = 0;
  successor_future_nf = 5 ∷ [];
  proof = [];
}

abbrev pub revealing : Block
revealing = block_of 4 (
    tx_of (8 ∷ []) (record { action_index = 0; nullifier = 3 ∷ []; commitment = 4 ∷ [] } ∷ [])
      (some (Operation.reveal reveal_a))
    ∷ [])

-- the reducer that a successful application leaves; the first one otherwise
abbrev pub reducer_or : Reducer → Result {0, 0} ApplyError (Reducer × BlockOutcome) → Reducer
reducer_or r (ok (after, outcome)) = after
reducer_or r (err e) = r

abbrev pub no_outcome : BlockOutcome
no_outcome = record {
  accepted = [];
  decisions = [];
  compacted = [];
  terminated = [];
  state_delta = record { from_tip = none; to_tip = none; heads = []; commits = [] };
}

abbrev pub outcome_or : Result {0, 0} ApplyError (Reducer × BlockOutcome) → BlockOutcome
outcome_or (ok (after, outcome)) = outcome
outcome_or (err e) = no_outcome

abbrev pub empty_reducer : Reducer
empty_reducer = record {
  parameters = parameters;
  verifier = trusting;
  next_height = some 0;
  tip_height = none;
  previous_hash = 0 ∷ [];
  commits = [];
  heads = [];
  commits_by_height = [];
  heads_by_future_nf = [];
  active_heads_by_expiry = [];
  terminal_heads_by_height = [];
  history = [];
}

pub new_empty : new parameters (0 ∷ []) trusting ≡ ok empty_reducer
unfolding new validate
new_empty = refl

unfoldable pub run : List Block → Reducer → Reducer
run [] r = r
run (b ∷ bs) r = run bs (reducer_or r (apply_block_detailed r b []))

-- opens what a run of the chain computes with
unfoldable pub before_reveal : Reducer
unfolding run apply_block_detailed check_block run_block mark_expired expire_heads expire_head
    compact_claimable delete_heads with_producers prune_commits delete_commits admit_evidence
    apply_transactions apply_transaction_detailed check_reveal check_refresh apply_operation
    spent_heads terminate_heads replace_commit replace_head tip new_undo remember_commit
    remember_head delta_from_undo name_id name_id_from wide_field validate epoch window offset
    from_le_bytes accepts_operation accepts_commit expiry bucket add_index_entry remove_index_entry
    members get contains insert remove range_to keys set_of same nat_ord list_ord pair_ord
    commit_ref_ord state_ref_ord
before_reveal = run (committing ∷ block_of 1 [] ∷ block_of 2 [] ∷ block_of 3 [] ∷ []) empty_reducer

unfoldable pub after_reveal : Reducer
unfolding before_reveal
after_reveal = run (revealing ∷ []) before_reveal

unfoldable pub reveal_outcome : BlockOutcome
unfolding before_reveal
reveal_outcome = outcome_or (apply_block_detailed before_reveal revealing [])

revealed :
    (keys after_reveal.heads ≡ (1 ∷ b'a' ∷ 0 ∷ []) ∷ [])
    × (reveal_outcome.accepted ≡ Accepted.reveal ∷ [])
unfolding after_reveal reveal_outcome
revealed = (refl, refl)

pub reveal_applies :
    apply_block_detailed before_reveal revealing [] ≡ ok (after_reveal, reveal_outcome)
unfolding after_reveal reveal_outcome
reveal_applies = refl
