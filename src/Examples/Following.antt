-- ===== src/Examples/Following.antt =====
-- A resolver for the chain's name beside a complete reducer, over the block with the COMMIT.
use coppice_names.Prelude.{◌≡◌, refl, [], ◌∷◌, ok}
use coppice_names.Collections.Order.{nat_ord, list_ord, pair_ord, same}
use coppice_names.Protocol.{commit_ref_ord, state_ref_ord, name_id, name_id_from, wide_field}
use coppice_names.Reducer.Resolution.{resolve_authenticated}
use coppice_names.Reducer.Blocks.{new, apply_block_detailed}
use coppice_names.Schedule.{validate}
use coppice_names.Resolver.{
  ExactResolver, start, resolve_at, apply_detailed, filter_block, filter_transaction, is_relevant,
}
use coppice_names.Resolver.Agrees.{Replay, started, applied, resolve_at-Replay}
use coppice_names.Examples.Chain.{
  toy, parameters, trusting, empty_reducer, new_empty, before_reveal, run, committing, outcome_or,
}
use coppice_names.Reducer.State.{Reducer, BlockOutcome}

abbrev follower_at_start : ExactResolver
follower_at_start = record {
  name = b'a' ∷ [];
  name_id = 1 ∷ b'a' ∷ 0 ∷ [];
  reducer = empty_reducer;
}

starts : start parameters (0 ∷ []) (b'a' ∷ []) trusting ≡ ok follower_at_start
unfolding start new validate name_id name_id_from wide_field same nat_ord list_ord
starts = refl

unfoldable committed : Reducer
unfolding before_reveal apply_detailed filter_block filter_transaction is_relevant
committed = run (committing ∷ []) empty_reducer

unfoldable commit_outcome : BlockOutcome
unfolding before_reveal
commit_outcome = outcome_or (apply_block_detailed empty_reducer committing [])

abbrev follower_after : ExactResolver
follower_after = record { name = b'a' ∷ []; name_id = 1 ∷ b'a' ∷ 0 ∷ []; reducer = committed }

reducer_applies : apply_block_detailed empty_reducer committing [] ≡ ok (committed, commit_outcome)
unfolding committed commit_outcome
reducer_applies = refl

resolver_applies :
    apply_detailed follower_at_start committing [] ≡ ok (follower_after, commit_outcome)
unfolding committed commit_outcome
resolver_applies = refl

replay : Replay parameters (0 ∷ []) trusting (b'a' ∷ []) follower_after committed
replay =
    applied follower_at_start follower_after empty_reducer committed committing commit_outcome
      commit_outcome (started follower_at_start empty_reducer starts new_empty) resolver_applies
      reducer_applies

resolve_at-Replay_example :
    resolve_at follower_after 0 ≡ resolve_authenticated committed (b'a' ∷ []) 0
resolve_at-Replay_example =
    resolve_at-Replay parameters (0 ∷ []) trusting (b'a' ∷ []) follower_after committed 0 replay
