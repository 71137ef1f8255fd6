-- ===== src/Examples/Stores.antt =====
-- Instances of the theorems on rewinds, finalization, opening, the wallet's COMMITs, and the store
-- beside its reducer.
use coppice_names.Prelude.{
  ℕ, ◌+◌, ◌≤◌, ◌≡◌, ◌≢◌, ◌↔◌, refl, Option, none, some, [], ◌∷◌, ok, arith, length, if◌then◌else◌,
}
use coppice_names.Collections.Order.{nat_ord, list_ord, pair_ord, option_ord, same}
use coppice_names.Collections.OrdMap.{get, contains, insert, remove, set_of, keys, range_to}
use coppice_names.Collections.Index.{bucket, add_index_entry, remove_index_entry, members}
use coppice_names.Protocol.{Bytes, Network, CommitRef, commit_ref_ord, state_ref_ord}
use coppice_names.Operation.{Operation}
use coppice_names.Reducer.State.{Block, Reducer, BlockOutcome, ReducerTip}
use coppice_names.Reducer.Records.{tip, replace_commit, new_undo, remember_commit, delta_from_undo}
use coppice_names.Reducer.Maintenance.{
  mark_expired, expire_heads, compact_claimable, delete_heads, with_producers, prune_commits,
  delete_commits,
}
use coppice_names.Reducer.Transactions.{
  apply_operation, spent_heads, terminate_heads, apply_transaction_detailed,
}
use coppice_names.Reducer.Blocks.{
  check_block, admit_evidence, apply_transactions, run_block, apply_block_detailed,
}
use coppice_names.Sqlite.Identity.{
  Coverage, StoreIdentity, new_identity, encode_coverage, encode_network, missing_rollback_journal,
  authoritative_record_mismatch,
}
use coppice_names.Sqlite.Tables.{Database, rows_at, delete_where, delete_blocks}
use coppice_names.Sqlite.Session.{done, failed}
use coppice_names.Sqlite.Records.{
  decode_32, decode_optional_32, decode_optional_tip, decode_name_id, decode_record,
  validate_optional, put, read_tip, stored_tip, read_commit, write_head, write_commit, write_tip,
  tip_ord, head_record_ord,
}
use coppice_names.Sqlite.Deltas.{
  apply_delta, apply_heads, apply_commits, apply_commit, insert_block, insert_rollback_commit,
}
use coppice_names.Sqlite.Deltas.Follows.{IsHolding, apply_delta-IsHolding}
use coppice_names.Sqlite.Store.{
  initialize_or_validate_metadata, validate_metadata, check_deployment, check_coverage,
  new_metadata, wallet_commit_observation, record_wallet_commit, missing_authority, authoritative,
}
use coppice_names.Sqlite.Opening.{initialize-identity}
use coppice_names.Sqlite.Observations.{record_wallet_commit_lem}
use coppice_names.Sqlite.Authority.{IsCovering, missing_authority_iff}
use coppice_names.Sqlite.Rewind.{
  rollback_to_height, rollback_to_height_or_reset, rewind, rewind_turn, forget_snapshot,
  wallet_rollback_tip, drain, drain_turn, drain_heads, drain_commits, restore_head_row,
  restore_commit_row, previous_tip_of, select_block, finalize_through,
}
use coppice_names.Sqlite.Rewind.Heights.{IsAtMost, rollback_to_height-IsAtMost}
use coppice_names.Sqlite.Rewind.Resets.{
  rollback_to_height_or_reset-clears, above, finalize_through_lem,
}
use coppice_names.Examples.Chain.{empty_reducer, tx_of, reducer_or, outcome_or}
use coppice_names.Examples.Database.{
  array, constant, tip_at, head_at, reference, json, identity, stored, refreshed, database_or,
}

-- back to the tip before the refresh
unfoldable rewound : Database
unfolding refreshed rollback_to_height rewind rewind_turn forget_snapshot wallet_rollback_tip drain
    drain_turn drain_heads drain_commits restore_head_row restore_commit_row previous_tip_of
    select_block read_tip stored_tip write_head write_commit write_tip put decode_32
    decode_optional_32 decode_optional_tip decode_name_id decode_record validate_optional rows_at
    delete_where delete_blocks get remove insert same nat_ord list_ord pair_ord option_ord
    commit_ref_ord tip_ord
rewound = database_or stored (rollback_to_height json identity 5 refreshed)

rewinds : rollback_to_height json identity 5 refreshed ≡ done (some (tip_at 5)) rewound
unfolding rewound
rewinds = refl

rollback_to_height-IsAtMost_example :
    (stored_tip rewound ≡ ok (some (tip_at 5))) × IsAtMost 5 (some (tip_at 5))
rollback_to_height-IsAtMost_example =
    rollback_to_height-IsAtMost json identity 5 refreshed rewound (some (tip_at 5)) rewinds

rollback_to_height_or_reset-clears_example :
    (rollback_to_height_or_reset json identity 2 refreshed ≢ failed missing_rollback_journal stored)
    × ((t : Option ReducerTip)
        → rollback_to_height_or_reset json identity 2 refreshed ≡ done t stored
        → IsAtMost 2 t
          × ((commitment : Bytes) (r : CommitRef)
              → get commitment stored.wallet_commits ≡ some r
              → r.height ≤ 2))
rollback_to_height_or_reset-clears_example =
    rollback_to_height_or_reset-clears json identity 2 refreshed stored

-- a store that keeps one block
abbrev short : StoreIdentity
short = record identity { minimum_rollback_blocks = 1 }

unfoldable finalized : Database
unfolding refreshed finalize_through read_tip stored_tip delete_blocks delete_where
    decode_optional_tip decode_32
finalized = database_or stored (finalize_through short 4 refreshed)

finalizes : finalize_through short 4 refreshed ≡ done tt finalized
unfolding finalized
finalizes = refl

finalize_through_lem_example :
    (t : ReducerTip) × (stored_tip refreshed ≡ ok (some t))
    × (stored_tip finalized ≡ ok (some t))
    × (4 + short.minimum_rollback_blocks ≤ t.height)
    × ((k : ℕ) → get k finalized.rollback_blocks ≡ above 4 k (get k refreshed.rollback_blocks))
    × (finalized.heads ≡ refreshed.heads)
    × (finalized.pending_commits ≡ refreshed.pending_commits)
finalize_through_lem_example = finalize_through_lem short 4 refreshed finalized finalizes

-- a new file
abbrev blank : Database
blank = record stored { metadata = none; heads = []; pending_commits = [] }

unfoldable opened : Database
unfolding initialize_or_validate_metadata validate_metadata check_deployment check_coverage
    new_metadata encode_coverage encode_network decode_32 same nat_ord list_ord option_ord
    new_identity
opened = database_or stored (initialize_or_validate_metadata identity blank)

opens : initialize_or_validate_metadata identity blank ≡ done tt opened
unfolding opened
opens = refl

reopens : initialize_or_validate_metadata identity opened ≡ done tt opened
unfolding opened
reopens = refl

initialize-identity_example : (identity ≡ identity) × (opened ≡ opened)
initialize-identity_example =
    initialize-identity identity identity blank opened opened opens reopens

record_wallet_commit_lem_example :
    (get (array 4) stored.wallet_commits ≡ none
      → (after : Database) × (record_wallet_commit (array 4) reference stored ≡ done tt after)
        × (wallet_commit_observation (array 4) after ≡ done (some reference) after))
    × ((before : CommitRef)
        → length before.txid ≡ 32
        → get (array 4) stored.wallet_commits ≡ some before
        → record_wallet_commit (array 4) reference stored ≡ (
            if same before reference
            then done tt stored
            else failed authoritative_record_mismatch stored))
record_wallet_commit_lem_example = record_wallet_commit_lem (array 4) reference stored refl

-- the reducer that the store follows
abbrev followed : Reducer
followed = record empty_reducer {
  tip_height = some 5;
  previous_hash = array 5;
  commits = (reference, array 4) ∷ [];
  heads = (array 1, head_at 4) ∷ [];
}

holding : IsHolding stored followed
unfolding tip stored_tip decode_optional_tip decode_32 get
holding = record { heads = λ id. ground arith; commits = λ c. refl; tip_stored = refl }

missing_authority_iff_example :
    ((missing_authority identity (array 1) (tip_at 5) stored ≡ done authoritative stored)
      ↔ ((tip followed ≡ some (tip_at 5)) × IsCovering identity.coverage (array 1)))
    × (get (array 1) stored.heads ≡ none → get (array 1) followed.heads ≡ none)
missing_authority_iff_example =
    missing_authority_iff identity (array 1) (tip_at 5) stored followed holding

-- a complete store, and the first block
abbrev complete : StoreIdentity
complete = new_identity (array 2) (array 3) Network.main Coverage.complete

abbrev first : Database
first = record blank { metadata = some (new_metadata complete) }

abbrev first_block : Block
first_block = record {
  height = 0;
  hash = array 1;
  prev_hash = 0 ∷ [];
  transactions = tx_of (array 7) [] (some (Operation.commit (array 9))) ∷ [];
}

unfoldable after_first : Reducer
unfolding apply_block_detailed run_block apply_transactions apply_transaction_detailed
    apply_operation spent_heads terminate_heads check_block mark_expired expire_heads
    compact_claimable delete_heads with_producers prune_commits delete_commits admit_evidence
    replace_commit new_undo remember_commit delta_from_undo tip get contains insert remove set_of
    keys range_to bucket add_index_entry remove_index_entry members same nat_ord list_ord pair_ord
    commit_ref_ord state_ref_ord
after_first = reducer_or empty_reducer (apply_block_detailed empty_reducer first_block [])

unfoldable first_outcome : BlockOutcome
unfolding after_first
first_outcome = outcome_or (apply_block_detailed empty_reducer first_block [])

first_applies : apply_block_detailed empty_reducer first_block [] ≡ ok (after_first, first_outcome)
unfolding after_first first_outcome
first_applies = refl

unfoldable second : Database
unfolding first_outcome apply_delta apply_heads apply_commits apply_commit insert_block
    insert_rollback_commit read_tip stored_tip read_commit write_commit write_tip put decode_32
    decode_optional_32 decode_optional_tip new_metadata new_identity encode_coverage encode_network
    option_ord tip_ord
second = database_or first (apply_delta json complete first_outcome.state_delta first)

delta_applies : apply_delta json complete first_outcome.state_delta first ≡ done tt second
unfolding second
delta_applies = refl

IsHolding-empty : IsHolding first empty_reducer
unfolding tip stored_tip decode_optional_tip get new_metadata
IsHolding-empty = record { heads = λ id. refl; commits = λ c. refl; tip_stored = refl }

apply_delta-IsHolding_example : IsHolding second after_first
apply_delta-IsHolding_example =
    apply_delta-IsHolding json complete empty_reducer after_first first_block [] first_outcome first
      second first_applies refl IsHolding-empty delta_applies
