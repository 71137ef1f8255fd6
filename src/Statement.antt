-- ===== src/Statement.antt =====
-- crates/coppice-names/src/statement.rs: the public facts that a proof binds.
use coppice_names.Prelude.{ℕ}
use coppice_names.Protocol.{
  Bytes, NameId, Commitment, FieldElement, CanonicalUa, CommitRef, StateRef,
}

pub record RevealStatement : Type 0 where
  pub deployment_id : Bytes
  pub name_id : NameId
  pub inclusion_epoch : ℕ
  pub commitment : Commitment
  pub commit_ref : CommitRef
  pub ua : CanonicalUa
  pub action_index : ℕ
  pub action_nullifier : FieldElement
  pub action_commitment : FieldElement
  pub successor_future_nf : FieldElement

pub record RefreshStatement : Type 0 where
  pub deployment_id : Bytes
  pub name_id : NameId
  pub predecessor_ref : StateRef
  pub predecessor_commitment : FieldElement
  pub predecessor_future_nf : FieldElement
  pub predecessor_epoch : ℕ
  pub inclusion_epoch : ℕ
  pub ua : CanonicalUa
  pub action_index : ℕ
  pub action_nullifier : FieldElement
  pub action_commitment : FieldElement
  pub successor_future_nf : FieldElement
