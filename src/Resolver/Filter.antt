-- ===== src/Resolver/Filter.antt =====
-- The resolver's state, and what it lets through of a block.
use coppice_names.Prelude.{Bool, true, false, Option, none, some, is_ok_and, map, if◌then◌else◌}
use coppice_names.Collections.Order.{same, list_ord, nat_ord}
use coppice_names.Protocol.{Name, NameId, Primitives, name_id}
use coppice_names.Operation.{Operation}
use coppice_names.Reducer.State.{Transaction, Block, Reducer}

pub record ExactResolver : Type 0 where
  pub name : Name
  pub name_id : NameId
  pub reducer : Reducer

module _ ⦃prims : Primitives⦄ where
  -- the `match` on a transaction's operation
  unfoldable pub is_relevant : NameId → Option Operation → Bool
  is_relevant id none = false
  is_relevant id (some (Operation.commit c)) = true
  is_relevant id (some (Operation.reveal op)) = is_ok_and (name_id op.name) (λ n. same n id)
  is_relevant id (some (Operation.refresh op)) = is_ok_and (name_id op.name) (λ n. same n id)

  -- one round of the filtering loop
  unfoldable pub filter_transaction : NameId → Transaction → Transaction
  unfolding is_relevant
  filter_transaction id tx = record tx {
    operation = if is_relevant id tx.operation then tx.operation else none;
  }

  unfoldable pub filter_block : NameId → Block → Block
  unfolding filter_transaction
  filter_block id block = record block {
    transactions = map (filter_transaction id) block.transactions;
  }
