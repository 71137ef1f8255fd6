-- ===== src/Examples/Deployments.antt =====
-- Instances of the theorems on the preimage of a deployment's identity and on its timing.
use coppice_names.Prelude.{ℕ, true, ◌<◌, ◌≡◌, ◌≢◌, refl, ok, arith, length}
use coppice_names.Collections.Order.{nat_ord, list_ord, same}
use coppice_names.Protocol.{NameId}
use coppice_names.Schedule as Schedule
use coppice_names.Deployment.{
  Identities, ProofIdentity, DeploymentParameters, fill, schedule, concat, segments,
  validate_deployment, canonical_preimage, candidate_deployment, regtest_deployment,
}
use coppice_names.Deployment.Renewal.{validate_deployment-renewal}
use coppice_names.Examples.Chain.{toy}
use coppice_names.Schedule.{
  epoch, window, offset, from_le_bytes, accepts_operation, accepts_commit, expiry,
}
use coppice_names.Deployment.Preimage.{
  IsDeployment, HasSameIdentity, canonical_preimage-injective, length-canonical_preimage,
  candidate-ne-regtest,
}

instance abbrev pub toy_identities : Identities
toy_identities = record { names_family_id = fill 32 4; rules = fill 32 5 }

abbrev proof_of : ℕ → ProofIdentity
proof_of k = record {
  reveal = fill 32 6;
  refresh = fill 32 7;
  reveal_key_fingerprint = fill 32 1;
  refresh_key_fingerprint = fill 32 2;
  circuit_k = k;
  reveal_proof_bytes = 4_704;
  refresh_proof_bytes = 4_704;
}

abbrev pub production : DeploymentParameters
production = candidate_deployment (fill 32 3) 100_000 (proof_of 11)

abbrev local : DeploymentParameters
local = regtest_deployment (fill 32 3) 100_000 (proof_of 11)

production-IsDeployment : IsDeployment production
production-IsDeployment = record {
  runtime = refl;
  fingerprint = refl;
  reveal = refl;
  refresh = refl;
  activation = omega arith;
  epoch = omega arith;
  window = omega arith;
  maturity = omega arith;
  ttl = omega arith;
  lease = omega arith;
  cooldown = omega arith;
}

local-IsDeployment : IsDeployment local
local-IsDeployment = record {
  runtime = refl;
  fingerprint = refl;
  reveal = refl;
  refresh = refl;
  activation = omega arith;
  epoch = omega arith;
  window = omega arith;
  maturity = omega arith;
  ttl = omega arith;
  lease = omega arith;
  cooldown = omega arith;
}

pub has_preimage : canonical_preimage production ≡ ok (concat (segments production))
unfolding canonical_preimage validate_deployment Schedule.validate same list_ord nat_ord
has_preimage = refl

local_preimage : canonical_preimage local ≡ ok (concat (segments local))
unfolding canonical_preimage validate_deployment Schedule.validate same list_ord nat_ord
local_preimage = refl

canonical_preimage-injective_example : HasSameIdentity production production
canonical_preimage-injective_example =
    canonical_preimage-injective production production (concat (segments production))
      production-IsDeployment production-IsDeployment has_preimage has_preimage

length-canonical_preimage_example : length (concat (segments production)) ≡ 203
length-canonical_preimage_example =
    length-canonical_preimage production (concat (segments production)) refl production-IsDeployment
      has_preimage

production-valid : validate_deployment production ≡ ok production
unfolding validate_deployment Schedule.validate same list_ord nat_ord
production-valid = refl

-- the windows of a name that begin with the epochs
abbrev early : NameId
early = fill 32 0

early_accepted : accepts_operation (schedule production (fill 32 0)) early 100_000 ≡ true
unfolding accepts_operation epoch window offset from_le_bytes
early_accepted = refl

early_lease : expiry (schedule production (fill 32 0)) 100_000 ≡ ok 350_000
unfolding expiry
early_lease = refl

validate_deployment-renewal_example :
    (later commit e f : ℕ) × (accepts_operation (schedule production (fill 32 0)) early later
      ≡ true)
    × (epoch (schedule production (fill 32 0)) 100_000 ≡ ok e)
    × (epoch (schedule production (fill 32 0)) later ≡ ok f)
    × (e < f)
    × (later < 350_000)
    × (100_000 < commit)
    × (accepts_commit (schedule production (fill 32 0)) commit later ≡ true)
validate_deployment-renewal_example =
    validate_deployment-renewal production (fill 32 0) early 100_000 350_000 production-valid
      early_accepted early_lease (omega arith)

candidate-ne-regtest_example : concat (segments production) ≢ concat (segments local)
candidate-ne-regtest_example =
    candidate-ne-regtest (fill 32 3) 100_000 100_000 (proof_of 11) (proof_of 11)
      (concat (segments production)) (concat (segments local)) production-IsDeployment
      local-IsDeployment has_preimage local_preimage
