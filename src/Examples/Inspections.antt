-- ===== src/Examples/Inspections.antt =====
-- Instances of the theorems on what an inspection lets through: a COMMIT in an envelope.
use coppice_names.Prelude.{ℕ, ◌≡◌, ◌↔◌, ◌⊎◌, refl, true, some, [], ◌∷◌, ok, all, ◌==◌}
use coppice_names.Collections.Order.{nat_ord, list_ord, same}
use coppice_names.Protocol.{Bytes, Network, nonzero_from_bytes, canonical_field}
use coppice_names.Operation.{Operation}
use coppice_names.Codec.Bytewise.{validate_codec}
use coppice_names.Codec.Encode.{encode, encode_body}
use coppice_names.Codec.RoundTrip.{IsWellFormed}
use coppice_names.Deployment.{fill, concat, segments, deployment_id}
use coppice_names.Transport.Inspection.{
  Application, Envelope, ExpectedRoute, NamesTransportStatus, ApplicationMessageStatus,
  no_operation, operation, message, is_on_route, names_application_id, select_single_operation,
  classify_inspection,
}
use coppice_names.Transport.Inspection.Accepted.{
  IsSilent, IsCarried, parameters_of, select_single_operation_iff, classify_inspection_iff,
  classify_inspection-encode,
}
use coppice_names.Examples.Chain.{toy}
use coppice_names.Examples.Deployments.{toy_identities, production, has_preimage}

instance abbrev toy_application : Application
toy_application = record { CarrierError = ℕ; derive_application_id = λ identity. identity }

abbrev sent : Operation
sent = Operation.commit (fill 32 8)

abbrev wire : Bytes
wire = 0 ∷ fill 32 8

abbrev id : Bytes
id = concat (segments production)

abbrev envelope : Envelope
envelope = record { key = names_application_id id; payload = wire }

identified : deployment_id production ≡ ok id
unfolding deployment_id
identified = rw has_preimage refl

encodes : encode 580 (parameters_of production) sent ≡ ok wire
unfolding encode encode_body validate_codec
encodes = refl

well_formed : IsWellFormed Network.main sent
unfolding nonzero_from_bytes canonical_field same list_ord nat_ord
well_formed = (refl, refl)

routed : is_on_route sent ExpectedRoute.commit ≡ true
unfolding is_on_route
routed = refl

select_single_operation_iff_example :
    (select_single_operation (operation sent) no_operation ≡ some sent) ↔ (
      ((◌≡◌ {A = NamesTransportStatus} (operation sent) (operation sent)) × IsSilent no_operation)
      ⊎ ((◌≡◌ {A = NamesTransportStatus} no_operation (operation sent))
          × IsSilent (operation sent)))
select_single_operation_iff_example = select_single_operation_iff (operation sent) no_operation sent

classify_inspection_iff_example :
    (classify_inspection
        (0 ∷ 0 ∷ [])
        (message envelope)
        production
        Network.main
        ExpectedRoute.commit
      ≡ operation sent)
    ↔ ((all (λ value. value == 0) (0 ∷ 0 ∷ []) ≡ true)
        × (e : Envelope) × (◌≡◌ {A = ApplicationMessageStatus} (message envelope) (message e))
        × IsCarried e production Network.main ExpectedRoute.commit sent)
classify_inspection_iff_example =
    classify_inspection_iff (0 ∷ 0 ∷ []) (message envelope) production Network.main
      ExpectedRoute.commit sent

classify_inspection-encode_example :
    classify_inspection (0 ∷ 0 ∷ []) (message envelope) production Network.main ExpectedRoute.commit
    ≡ operation sent
classify_inspection-encode_example =
    classify_inspection-encode 580 (0 ∷ 0 ∷ []) production Network.main ExpectedRoute.commit sent
      wire id refl identified encodes well_formed routed
