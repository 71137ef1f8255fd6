-- ===== src/Transport/Inspection.antt =====
-- crates/coppice-names/src/transport.rs: what an inspection of a transaction at a rendezvous
-- yields, and which of two inspections gives the transaction its operation.
--
-- What the crate `coppice` finds at a rendezvous is an argument.
pub mod Accepted
use coppice_names.Prelude.{
  ℕ, Bool, true, false, not, Option, none, some, List, [], ◌∷◌, ◌++◌, Result, ok, err, all, ◌==◌,
  if◌then◌else◌,
}
use coppice_names.Collections.Order.{same, nat_ord, list_ord}
use coppice_names.Protocol.{Bytes, Name, Network, Primitives}
use coppice_names.Operation.{Operation, Reveal, Refresh}
use coppice_names.Codec.Bytewise.{CodecError, CodecParameters}
use coppice_names.Codec.Decode.{decode}
use coppice_names.Deployment.{DeploymentParameters, Identities, deployment_id}

-- `coppice::application::derive_application_id` on input that is not empty, and the carrier's errors
pub record Application : Type 1 where
  pub CarrierError : Type 0
  pub derive_application_id : Bytes → Bytes

-- `ApplicationEnvelope`; its key is the application's identity
pub record Envelope : Type 0 where
  pub key : Bytes
  pub payload : Bytes

-- b"coppice.names"
abbrev pub names_identity : Bytes
names_identity =
    b'c' ∷ b'o' ∷ b'p' ∷ b'p' ∷ b'i' ∷ b'c' ∷ b'e' ∷ b'.' ∷ b'n' ∷ b'a' ∷ b'm' ∷ b'e' ∷ b's' ∷ []

pub data ExpectedRoute : Type 0 where
  commit : ExpectedRoute
  name : Name → ExpectedRoute

-- the last test of `classify_inspection`
unfoldable pub is_on_route : Operation → ExpectedRoute → Bool
is_on_route (Operation.commit c) ExpectedRoute.commit = true
is_on_route (Operation.reveal r) (ExpectedRoute.name expected) = same r.name expected
is_on_route (Operation.refresh r) (ExpectedRoute.name expected) = same r.name expected
is_on_route _ _ = false

module _ ⦃application : Application⦄ where
  pub data TransportRejection : Type 0 where
    unauthenticated_full_transaction non_zero_carrier_value : TransportRejection
    malformed_carrier : application.CarrierError → TransportRejection
    malformed_envelope wrong_application : TransportRejection
    invalid_operation : CodecError → TransportRejection
    wrong_route : TransportRejection

  pub data NamesTransportStatus : Type 0 where
    no_operation : NamesTransportStatus
    rejected : TransportRejection → NamesTransportStatus
    operation : Operation → NamesTransportStatus

  -- `ApplicationMessageStatus` of the crate `coppice`
  pub data ApplicationMessageStatus : Type 0 where
    not_candidate no_message : ApplicationMessageStatus
    malformed_transport : application.CarrierError → ApplicationMessageStatus
    malformed_message : ApplicationMessageStatus
    message : Envelope → ApplicationMessageStatus

  unfoldable pub names_application_id : Bytes → Bytes
  names_application_id id = application.derive_application_id (names_identity ++ 0 ∷ id)

  unfoldable pub select_single_operation :
      NamesTransportStatus → NamesTransportStatus → Option Operation
  select_single_operation (operation op) no_operation = some op
  select_single_operation no_operation (operation op) = some op
  select_single_operation (operation op) (rejected wrong_application) = some op
  select_single_operation (rejected wrong_application) (operation op) = some op
  select_single_operation _ _ = none

  module _ ⦃prims : Primitives⦄ ⦃names : Identities⦄ where
    -- the part of `classify_inspection` that reads an envelope
    unfoldable pub classify_envelope :
        Envelope → DeploymentParameters → Network → ExpectedRoute → NamesTransportStatus
    unfolding names_application_id is_on_route
    classify_envelope envelope deployment network expected = elim (deployment_id deployment) [
      | err e ↦ rejected wrong_application
      | ok id ↦
          let parameters : CodecParameters = record {
            reveal_proof_bytes = deployment.proof.reveal_proof_bytes;
            refresh_proof_bytes = deployment.proof.refresh_proof_bytes;
          } in
          if not (same envelope.key (names_application_id id))
          then rejected wrong_application
          else elim (decode network parameters envelope.payload) [
            | err e ↦ rejected (invalid_operation e)
            | ok op ↦ if not (is_on_route op expected) then rejected wrong_route else operation op
          ]
    ]

    -- the frames are given by their values
    unfoldable pub classify_inspection :
        List ℕ
        → ApplicationMessageStatus
        → DeploymentParameters
        → Network
        → ExpectedRoute
        → NamesTransportStatus
    unfolding classify_envelope
    classify_inspection values status deployment network expected =
        if not (all (λ value. value == 0) values)
        then rejected non_zero_carrier_value
        else elim status [
          | not_candidate ↦ no_operation
          | no_message ↦ no_operation
          | malformed_transport e ↦ rejected (malformed_carrier e)
          | malformed_message ↦ rejected malformed_envelope
          | message envelope ↦ classify_envelope envelope deployment network expected
        ]
