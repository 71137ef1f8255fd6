-- ===== src/Examples/Reorganization.antt =====
-- Instances of the rollback theorems at the block that reveals the name.
use coppice_names.Prelude.{◌≡◌, refl, List, [], ◌∷◌, ok, err, Result}
use coppice_names.Reducer.State.{BlockOutcome, Reducer, Block, ApplyError}
use coppice_names.Reducer.Blocks.{apply_block_detailed}
use coppice_names.Reducer.Indexes.{IsIndexed}
use coppice_names.Reducer.Rollback.{rollback_tip_detailed}
use coppice_names.Reducer.Rollback.Delta.{invert_delta}
use coppice_names.Reducer.Rollback.Undoes.{
  rollback-apply_block, apply_block-IsIndexed, new-IsIndexed,
}
use coppice_names.Examples.Chain.{
  toy, parameters, trusting, empty_reducer, new_empty, committing, revealing, block_of, run,
  before_reveal, after_reveal, reveal_outcome, reveal_applies, reducer_or,
}

empty-IsIndexed : IsIndexed empty_reducer
empty-IsIndexed = new-IsIndexed parameters (0 ∷ []) trusting empty_reducer new_empty

step-IsIndexed :
    (r : Reducer) (b : Block) (result : Result ApplyError (Reducer × BlockOutcome))
    → IsIndexed r
    → apply_block_detailed r b [] ≡ result
    → IsIndexed (reducer_or r result)
step-IsIndexed r b (ok (after, outcome)) x h = apply_block-IsIndexed r b [] after outcome x h
step-IsIndexed r b (err e) x h = x

pub run-IsIndexed : (bs : List Block) (r : Reducer) → IsIndexed r → IsIndexed (run bs r)
unfolding run
run-IsIndexed [] r x = x
run-IsIndexed (b ∷ bs) r x =
    run-IsIndexed bs (reducer_or r (apply_block_detailed r b []))
      (step-IsIndexed r b (apply_block_detailed r b []) x refl)

pub before_reveal-IsIndexed : IsIndexed before_reveal
unfolding before_reveal
before_reveal-IsIndexed =
    run-IsIndexed (committing ∷ block_of 1 [] ∷ block_of 2 [] ∷ block_of 3 [] ∷ []) empty_reducer
      empty-IsIndexed

apply_block-IsIndexed_example : IsIndexed after_reveal
apply_block-IsIndexed_example =
    apply_block-IsIndexed before_reveal revealing [] after_reveal reveal_outcome
      before_reveal-IsIndexed reveal_applies

rollback-apply_block_example :
    rollback_tip_detailed after_reveal (5 ∷ [])
    ≡ ok (before_reveal, invert_delta reveal_outcome.state_delta)
rollback-apply_block_example =
    rollback-apply_block before_reveal revealing [] after_reveal reveal_outcome
      before_reveal-IsIndexed reveal_applies
