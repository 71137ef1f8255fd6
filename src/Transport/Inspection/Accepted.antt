-- ===== src/Transport/Inspection/Accepted.antt =====
-- Which operations an inspection lets through.
use coppice_names.Prelude.{
  ℕ, ◌≡◌, ◌↔◌, ◌⊎◌, refl, inl, inr, true, some, List, ok, all, ◌==◌, arith, Result-cases,
}
use coppice_names.Collections.Order.{nat_ord, list_ord, eq_of_same, same_self}
use coppice_names.Protocol.{Bytes, Network, Primitives}
use coppice_names.Operation.{Operation}
use coppice_names.Codec.Bytewise.{CodecParameters}
use coppice_names.Codec.Encode.{encode}
use coppice_names.Codec.Decode.{decode}
use coppice_names.Codec.RoundTrip.{decode-encode, IsWellFormed}
use coppice_names.Deployment.{DeploymentParameters, Identities, deployment_id}
use coppice_names.Transport.Inspection.{
  Application, Envelope, ExpectedRoute, NamesTransportStatus, no_operation, rejected, operation,
  wrong_application, ApplicationMessageStatus, not_candidate, no_message, malformed_transport,
  malformed_message, message, is_on_route, names_application_id, select_single_operation,
  classify_envelope, classify_inspection,
}

-- the lengths of proofs that the codec takes from a deployment
abbrev pub parameters_of : DeploymentParameters → CodecParameters
parameters_of d = record {
  reveal_proof_bytes = d.proof.reveal_proof_bytes;
  refresh_proof_bytes = d.proof.refresh_proof_bytes;
}

module _ ⦃application : Application⦄ where
  -- nothing for the Names application was found
  unfoldable pub IsSilent : NamesTransportStatus → Type 0
  IsSilent status = (status ≡ no_operation) ⊎ (status ≡ rejected wrong_application)

  -- A transaction has an operation exactly if one of the two inspections yields it and the other
  -- has found nothing or a message of another application.
  pub select_single_operation_iff :
      (at_commit at_name : NamesTransportStatus) (op : Operation)
      → (select_single_operation at_commit at_name ≡ some op) ↔ (
          ((at_commit ≡ operation op) × IsSilent at_name)
          ⊎ ((at_name ≡ operation op) × IsSilent at_commit))
  unfolding select_single_operation IsSilent
  select_single_operation_iff at_commit at_name op = ground arith

  module _ ⦃prims : Primitives⦄ ⦃names : Identities⦄ where
    -- the envelope is the application's, and holds the operation on its route
    unfoldable pub IsCarried :
        Envelope → DeploymentParameters → Network → ExpectedRoute → Operation → Type 0
    IsCarried envelope d network expected op =
        (id : Bytes) × (deployment_id d ≡ ok id)
        × (envelope.key ≡ names_application_id id)
        × (decode network (parameters_of d) envelope.payload ≡ ok op)
        × (is_on_route op expected ≡ true)

    classify_envelope_iff :
        (envelope : Envelope) (d : DeploymentParameters) (network : Network)
        (expected : ExpectedRoute) (op : Operation)
        → (classify_envelope envelope d network expected ≡ operation op)
          ↔ IsCarried envelope d network expected op
    unfolding classify_envelope IsCarried
    classify_envelope_iff envelope d network expected op = (
      λ h. elim (Result-cases (deployment_id d)) [
        | inl (id, found) ↦
            let (keyed, decoded, routed) : (envelope.key ≡ names_application_id id)
                × (decode network (parameters_of d) envelope.payload ≡ ok op)
                × (is_on_route op expected ≡ true) =
              ground (arith, h, found, eq_of_same envelope.key (names_application_id id)) in
            (id, found, keyed, decoded, routed)
        | inr (e, failed) ↦ ground (arith, h, failed)
      ],
      λ (id, found, keyed, decoded, routed).
          ground (arith, found, keyed, same_self (names_application_id id), decoded, routed),
    )

    classify_inspection_inversion :
        (values : List ℕ) (status : ApplicationMessageStatus) (d : DeploymentParameters)
        (network : Network) (expected : ExpectedRoute) (op : Operation)
        → classify_inspection values status d network expected ≡ operation op
        → (all (λ value. value == 0) values ≡ true)
          × (envelope : Envelope) × (status ≡ message envelope)
          × IsCarried envelope d network expected op
    unfolding classify_inspection
    classify_inspection_inversion values not_candidate d network expected op h = ground arith
    classify_inspection_inversion values no_message d network expected op h = ground arith
    classify_inspection_inversion values (malformed_transport e) d network expected op h =
        ground arith
    classify_inspection_inversion values malformed_message d network expected op h = ground arith
    classify_inspection_inversion values (message envelope) d network expected op h =
        let (quiet, passed) : (all (λ value. value == 0) values ≡ true)
            × (classify_envelope envelope d network expected ≡ operation op) =
          ground (arith, h) in
        (quiet, envelope, refl, (classify_envelope_iff envelope d network expected op).0 passed)

    -- An inspection yields an operation exactly if no frame carries value and the message is an
    -- envelope of this deployment's application whose payload is the operation, on its route.
    pub classify_inspection_iff :
        (values : List ℕ) (status : ApplicationMessageStatus) (d : DeploymentParameters)
        (network : Network) (expected : ExpectedRoute) (op : Operation)
        → (classify_inspection values status d network expected ≡ operation op) ↔ (
            (all (λ value. value == 0) values ≡ true)
            × (envelope : Envelope) × (status ≡ message envelope)
            × IsCarried envelope d network expected op)
    unfolding classify_inspection
    classify_inspection_iff values status d network expected op = (
      classify_inspection_inversion values status d network expected op,
      λ (quiet, envelope, found, carried).
          let passed = (classify_envelope_iff envelope d network expected op).1 carried in
          rw found (ground (arith, quiet, passed)),
    )

    -- An operation that the codec has encoded, well formed and on its route, is what the inspection
    -- yields of an envelope of this deployment's application that carries its bytes without value.
    pub classify_inspection-encode :
        (max_payload : ℕ) (values : List ℕ) (d : DeploymentParameters) (network : Network)
        (expected : ExpectedRoute) (op : Operation) (bytes id : Bytes)
        → all (λ value. value == 0) values ≡ true
        → deployment_id d ≡ ok id
        → encode max_payload (parameters_of d) op ≡ ok bytes
        → IsWellFormed network op
        → is_on_route op expected ≡ true
        → classify_inspection values
            (message (record { key = names_application_id id; payload = bytes }))
            d
            network
            expected
          ≡ operation op
    unfolding IsCarried
    classify_inspection-encode max values d network expected op bytes id quiet found encoded w
          routed =
        let envelope : Envelope = record { key = names_application_id id; payload = bytes } in
        (classify_inspection_iff values (message envelope) d network expected op).1 (
          quiet,
          envelope,
          refl,
          (id, found, refl, decode-encode max network (parameters_of d) op bytes encoded w, routed),
        )
