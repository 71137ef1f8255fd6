-- ===== src/Operation.antt =====
-- `enum Operation` of crates/coppice-names/src/codec.rs. Each variant's fields are a record.
use coppice_names.Prelude.{ℕ}
use coppice_names.Protocol.{Bytes, Name, Commitment, FieldElement, CanonicalUa, CommitRef, StateRef}

pub record Reveal : Type 0 where
  pub name : Name
  pub commit : CommitRef
  pub ua : CanonicalUa
  pub action_index : ℕ
  pub successor_future_nf : FieldElement
  pub proof : Bytes

pub record Refresh : Type 0 where
  pub name : Name
  pub predecessor : StateRef
  pub ua : CanonicalUa
  pub action_index : ℕ
  pub successor_future_nf : FieldElement
  pub proof : Bytes

pub data Operation : Type 0 where
  commit : Commitment → Operation
  reveal : Reveal → Operation
  refresh : Refresh → Operation
