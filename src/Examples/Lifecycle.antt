-- ===== src/Examples/Lifecycle.antt =====
-- The head of the chain's name after its lease, after its cooldown, and after spends of its bond.
use coppice_names.Prelude.{ℕ, Bool, true, is_some_and, ◌==◌, refl, ◌≡◌, none, [], ◌∷◌}
use coppice_names.Collections.Order.{nat_ord, list_ord}
use coppice_names.Collections.OrdMap.{get}
use coppice_names.Protocol.{NameId, CommitRef, commit_ref_ord}
use coppice_names.Reducer.Transactions.{apply_transaction_detailed, apply_operation}
use coppice_names.Reducer.Transactions.Spends.{get-apply_transaction, after_spends}
use coppice_names.Reducer.State.{Head, Transaction, Undo, lifecycle}
use coppice_names.Reducer.Records.{new_undo}
use coppice_names.Reducer.Resolution.{resolve}
use coppice_names.Reducer.Maintenance.{Journaled}
use coppice_names.Reducer.Indexes.{IsIndexed}
use coppice_names.Reducer.Maintenance.Start.{
  start_block, start_block-reads, head_at_start, commit_at_start,
}
use coppice_names.Examples.Chain.{toy, tx_of, revealing, after_reveal}
use coppice_names.Examples.Reorganization.{before_reveal-IsIndexed, run-IsIndexed}
use coppice_names.Examples.Chain.{before_reveal}

after_reveal-IsIndexed : IsIndexed after_reveal
unfolding after_reveal
after_reveal-IsIndexed = run-IsIndexed (revealing ∷ []) before_reveal before_reveal-IsIndexed

-- whether a head's terminal height is the given one
abbrev ended_at : Head → ℕ → Bool
ended_at head height = is_some_and head.terminal_height (λ t. t == height)

-- a transaction that spends the bond of the name
abbrev spending : Transaction
spending =
    tx_of (9 ∷ []) (record { action_index = 0; nullifier = 5 ∷ []; commitment = 6 ∷ [] } ∷ []) none

abbrev journal : Undo
journal = new_undo after_reveal 5 (6 ∷ [])

start_block-reads_example :
    ((id : NameId)
      → get id (start_block after_reveal 17 (new_undo after_reveal 17 (9 ∷ []))).0.heads
        ≡ head_at_start after_reveal.parameters 17 (get id after_reveal.heads))
    × ((c : CommitRef)
        → get c (start_block after_reveal 17 (new_undo after_reveal 17 (9 ∷ []))).0.commits
          ≡ commit_at_start after_reveal.parameters 17 c (get c after_reveal.commits))
start_block-reads_example =
    start_block-reads after_reveal 17 (new_undo after_reveal 17 (9 ∷ [])) after_reveal-IsIndexed

get-apply_transaction_example :
    get (1 ∷ b'a' ∷ 0 ∷ []) (apply_transaction_detailed after_reveal 5 spending journal).0.0.heads
    ≡ after_spends 5 spending.actions
        (get (1 ∷ b'a' ∷ 0 ∷ []) after_reveal.heads)
        (get (1 ∷ b'a' ∷ 0 ∷ []) (apply_operation after_reveal 5 spending journal none).0.0.heads)
get-apply_transaction_example =
    get-apply_transaction after_reveal 5 spending journal (1 ∷ b'a' ∷ 0 ∷ [])
      after_reveal-IsIndexed.of_heads

-- the reducer and its journal after a spend of the bond at height 5
abbrev spent : Journaled
spent = (apply_transaction_detailed after_reveal 5 spending journal).0

-- a second spend, in cooldown, leaves the terminal height of the first
second_spend :
    (is_some_and (get (1 ∷ b'a' ∷ 0 ∷ []) spent.0.heads) (λ head. ended_at head 5) ≡ true)
    × (is_some_and
          (get
            (1 ∷ b'a' ∷ 0 ∷ [])
            (apply_transaction_detailed spent.0 9 spending spent.1).0.0.heads)
          (λ head. ended_at head 5)
        ≡ true)
unfolding apply_transaction_detailed after_reveal
second_spend = (refl, refl)

-- below the terminal height that it recorded, no address is given
below_the_end : (resolve spent.0 (b'a' ∷ []) 4).ua ≡ none
unfolding apply_transaction_detailed after_reveal resolve lifecycle
below_the_end = refl
