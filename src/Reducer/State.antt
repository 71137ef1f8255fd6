-- ===== src/Reducer/State.antt =====
-- The data of reducer.rs: blocks, heads, the reducer's state and its rollback journals.
use coppice_names.Prelude.{ℕ, ◌+◌, Bool, Option, none, some, List, leb, if◌then◌else◌, is_some_and}
use coppice_names.Collections.OrdMap.{OrdMap}
use coppice_names.Collections.Index.{Index}
use coppice_names.Protocol.{
  Bytes, Name, NameId, Commitment, FieldElement, CanonicalUa, CommitRef, StateRef,
}
use coppice_names.Schedule.{Parameters}
use coppice_names.Statement.{RevealStatement, RefreshStatement}
use coppice_names.Operation.{Operation}

pub record Action : Type 0 where
  pub action_index : ℕ
  pub nullifier : FieldElement
  pub commitment : FieldElement

pub record Transaction : Type 0 where
  pub tx_index : ℕ
  pub txid : Bytes
  pub actions : List Action
  pub operation : Option Operation

pub record Block : Type 0 where
  pub height : ℕ
  pub hash : Bytes
  pub prev_hash : Bytes
  pub transactions : List Transaction

pub record ReferencedCommit : Type 0 where
  pub reference : CommitRef
  pub commitment : Commitment

-- `trait ProofVerifier`
pub record ProofVerifier : Type 0 where
  pub verify_reveal : RevealStatement → Bytes → Bool
  pub verify_refresh : RefreshStatement → Bytes → Bool

pub record Head : Type 0 where
  pub name : Name
  pub ua : CanonicalUa
  pub producer : StateRef
  pub commitment : FieldElement
  pub future_nf : FieldElement
  pub producer_epoch : ℕ
  pub expiry_height : ℕ
  pub terminal_height : Option ℕ

pub data Lifecycle : Type 0 where
  active cooldown missing : Lifecycle

-- `Head::terminal_at`
unfoldable pub terminal_at : Head → ℕ → Option ℕ
terminal_at head height = elim head.terminal_height [
  | some t ↦ some t
  | none ↦ if leb head.expiry_height height then some head.expiry_height else none
]

-- `Head::is_claimable`; the sum is taken in `u64` and cannot overflow
unfoldable pub is_claimable : Head → ℕ → Parameters → Bool
unfolding terminal_at
is_claimable head height p =
    is_some_and (terminal_at head height) (λ t. leb (t + p.cooldown_blocks) height)

-- `Head::lifecycle`
unfoldable pub lifecycle : Head → ℕ → Parameters → Lifecycle
unfolding terminal_at is_claimable
lifecycle head height p = elim (terminal_at head height) [
  | none ↦ active
  | some _ ↦ if is_claimable head height p then missing else cooldown
]

pub record ReducerTip : Type 0 where
  pub height : ℕ
  pub hash : Bytes

pub data Accepted : Type 0 where
  commit reveal refresh : Accepted

pub record Compaction : Type 0 where
  pub name_id : NameId
  pub previous_head : StateRef
  pub height : ℕ

pub record Termination : Type 0 where
  pub name_id : NameId
  pub previous_head : StateRef
  pub height : ℕ

pub record HeadChange : Type 0 where
  pub name_id : NameId
  pub previous : Option Head
  pub current : Option Head

pub record CommitChange : Type 0 where
  pub reference : CommitRef
  pub previous : Option Commitment
  pub current : Option Commitment

pub record StateDelta : Type 0 where
  pub from_tip : Option ReducerTip
  pub to_tip : Option ReducerTip
  pub heads : List HeadChange
  pub commits : List CommitChange

-- The clause identifiers that reducer.rs writes as string literals, "NAMES.REVEAL.MISSING" and so
-- on.
pub data ClauseId : Type 0 where
  commit_accept reveal_accept refresh_accept block_order : ClauseId
  reveal_missing reveal_schedule reveal_commit reveal_action reveal_proof : ClauseId
  refresh_current refresh_schedule refresh_epoch refresh_action refresh_proof : ClauseId

pub record OperationDecision : Type 0 where
  pub accepted : Option Accepted
  pub clause_id : ClauseId

pub record BlockOutcome : Type 0 where
  pub accepted : List Accepted
  pub decisions : List OperationDecision
  pub compacted : List Compaction
  pub terminated : List Termination
  pub state_delta : StateDelta

pub data ApplyError : Type 0 where
  invalid_parameters wrong_height wrong_previous_hash : ApplyError
  non_canonical_transaction_index non_canonical_action_index : ApplyError
  invalid_referenced_commit conflicting_referenced_commit : ApplyError

pub record Undo : Type 0 where
  pub height : ℕ
  pub hash : Bytes
  pub previous_hash : Bytes
  pub previous_next_height : Option ℕ
  pub previous_tip_height : Option ℕ
  pub commits : OrdMap CommitRef (Option Commitment)
  pub heads : OrdMap NameId (Option Head)

-- `history` runs from the front of the deque to its back, the newest journal last.
pub record Reducer : Type 0 where
  pub parameters : Parameters
  pub verifier : ProofVerifier
  pub next_height : Option ℕ
  pub tip_height : Option ℕ
  pub previous_hash : Bytes
  pub commits : OrdMap CommitRef Commitment
  pub heads : OrdMap NameId Head
  pub commits_by_height : Index ℕ CommitRef
  pub heads_by_future_nf : Index Bytes NameId
  pub active_heads_by_expiry : Index ℕ NameId
  pub terminal_heads_by_height : Index ℕ NameId
  pub history : List Undo
