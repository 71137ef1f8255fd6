-- ===== src/Deployment.antt =====
-- crates/coppice-names/src/deployment.rs: the parameters of a deployment and the bytes that
-- identify it.
--
-- The identities of the crate `coppice` are their 32 bytes; the one of the Names family and the
-- fingerprint of the ruleset are parameters.
pub mod Preimage
pub mod Renewal
use coppice_names.Prelude.{
  ℕ, zero, suc, ◌/◌, ◌%◌, ◌^◌, Bool, ◌||◌, List, [], ◌∷◌, ◌++◌, Result, ok, err, ◌>>=◌, ◌>>◌, guard,
  map_err, ltb, not,
}
use coppice_names.Collections.Order.{same, nat_ord, list_ord}
use coppice_names.Protocol.{Bytes, Primitives, max_name_bytes, max_ua_bytes, bond_zatoshis}
use coppice_names.Schedule as Schedule
use coppice_names.Schedule.{Parameters}
use coppice_names.Codec.Bytewise.{be16, be32, max_reveal_proof_bytes, max_refresh_proof_bytes}

pub record ProofIdentity : Type 0 where
  pub reveal : Bytes
  pub refresh : Bytes
  pub reveal_key_fingerprint : Bytes
  pub refresh_key_fingerprint : Bytes
  pub circuit_k : ℕ
  pub reveal_proof_bytes : ℕ
  pub refresh_proof_bytes : ℕ

pub record DeploymentParameters : Type 0 where
  pub core_runtime_id : Bytes
  pub activation_height : ℕ
  pub epoch_blocks : ℕ
  pub window_blocks : ℕ
  pub commit_maturity_blocks : ℕ
  pub commit_ttl_blocks : ℕ
  pub lease_blocks : ℕ
  pub cooldown_blocks : ℕ
  pub ruleset_fingerprint : Bytes
  pub proof : ProofIdentity

pub data DeploymentError : Type 0 where
  invalid_schedule invalid_proof_size ruleset_mismatch : DeploymentError

-- `names_family_id()` and `ruleset_fingerprint()`
pub record Identities : Type 0 where
  pub names_family_id : Bytes
  pub rules : Bytes

-- the bytes of "CNDP", "CNVERIFY" and "CoppiceNmDep"
abbrev pub preimage_magic : Bytes
preimage_magic = b'C' ∷ b'N' ∷ b'D' ∷ b'P' ∷ []

abbrev pub verifier_magic : Bytes
verifier_magic = b'C' ∷ b'N' ∷ b'V' ∷ b'E' ∷ b'R' ∷ b'I' ∷ b'F' ∷ b'Y' ∷ []

abbrev pub deployment_personal : Bytes
deployment_personal =
    b'C' ∷ b'o' ∷ b'p' ∷ b'p' ∷ b'i' ∷ b'c' ∷ b'e' ∷ b'N' ∷ b'm' ∷ b'D' ∷ b'e' ∷ b'p' ∷ []

-- the bytes of "CoppiceNmReVr" and "CoppiceNmRfVr"
abbrev pub reveal_personal : Bytes
reveal_personal =
    b'C' ∷ b'o' ∷ b'p' ∷ b'p' ∷ b'i' ∷ b'c' ∷ b'e' ∷ b'N' ∷ b'm' ∷ b'R' ∷ b'e' ∷ b'V' ∷ b'r' ∷ []

abbrev pub refresh_personal : Bytes
refresh_personal =
    b'C' ∷ b'o' ∷ b'p' ∷ b'p' ∷ b'i' ∷ b'c' ∷ b'e' ∷ b'N' ∷ b'm' ∷ b'R' ∷ b'f' ∷ b'V' ∷ b'r' ∷ []

-- `[byte; n]`
abbrev pub fill : ℕ → ℕ → Bytes
fill zero byte = []
fill (suc n) byte = byte ∷ fill n byte

-- `u64::to_be_bytes`
unfoldable pub be64 : ℕ → Bytes
unfolding be32
be64 n = be32 (n / 2 ^ 32) ++ be32 (n % 2 ^ 32)

-- `DeploymentParameters::schedule`
abbrev pub schedule : DeploymentParameters → Bytes → Parameters
schedule d deployment_id = record {
  deployment_id = deployment_id;
  activation_height = d.activation_height;
  epoch_blocks = d.epoch_blocks;
  window_blocks = d.window_blocks;
  commit_maturity_blocks = d.commit_maturity_blocks;
  commit_ttl_blocks = d.commit_ttl_blocks;
  lease_blocks = d.lease_blocks;
  cooldown_blocks = d.cooldown_blocks;
}

-- `extend_from_slice`, piece by piece
unfoldable pub concat : List Bytes → Bytes
concat [] = []
concat (piece ∷ pieces) = piece ++ concat pieces

module _ ⦃prims : Primitives⦄ where
  unfoldable pub verifier_id : Bytes → ℕ → Bytes → ℕ → ℕ → Bytes → Bytes
  verifier_id personalization operation_tag suite_id circuit_k proof_bytes key_fingerprint =
      prims.blake2b 32 personalization (
        verifier_magic
        ++ operation_tag ∷ (suite_id ++ circuit_k ∷ (be16 proof_bytes ++ key_fingerprint)))

  -- `ProofIdentity::derive`; the suite's identity, the hash of a fixed text, is its first argument
  unfoldable pub derive : Bytes → ℕ → ℕ → ℕ → Bytes → Bytes → ProofIdentity
  unfolding verifier_id
  derive suite circuit_k reveal_proof_bytes refresh_proof_bytes reveal_key refresh_key = record {
    reveal = verifier_id reveal_personal 1 suite circuit_k reveal_proof_bytes reveal_key;
    refresh = verifier_id refresh_personal 2 suite circuit_k refresh_proof_bytes refresh_key;
    reveal_key_fingerprint = reveal_key;
    refresh_key_fingerprint = refresh_key;
    circuit_k = circuit_k;
    reveal_proof_bytes = reveal_proof_bytes;
    refresh_proof_bytes = refresh_proof_bytes;
  }

module _ ⦃names : Identities⦄ where
  -- `DeploymentParameters::with_timing`
  abbrev pub with_timing : Bytes → Parameters → ProofIdentity → DeploymentParameters
  with_timing core_runtime_id timing proof = record {
    core_runtime_id = core_runtime_id;
    activation_height = timing.activation_height;
    epoch_blocks = timing.epoch_blocks;
    window_blocks = timing.window_blocks;
    commit_maturity_blocks = timing.commit_maturity_blocks;
    commit_ttl_blocks = timing.commit_ttl_blocks;
    lease_blocks = timing.lease_blocks;
    cooldown_blocks = timing.cooldown_blocks;
    ruleset_fingerprint = names.rules;
    proof = proof;
  }

  -- `DeploymentParameters::candidate` and `DeploymentParameters::regtest`
  abbrev pub candidate_deployment : Bytes → ℕ → ProofIdentity → DeploymentParameters
  candidate_deployment core_runtime_id activation_height proof =
      with_timing core_runtime_id (Schedule.candidate (fill 32 0) activation_height) proof

  abbrev pub regtest_deployment : Bytes → ℕ → ProofIdentity → DeploymentParameters
  regtest_deployment core_runtime_id activation_height proof =
      with_timing core_runtime_id (Schedule.regtest (fill 32 0) activation_height) proof

  -- `DeploymentParameters::validate`
  unfoldable pub validate_deployment :
      DeploymentParameters → Result DeploymentError DeploymentParameters
  unfolding Schedule.validate
  validate_deployment d = do
    guard
        (not (
          ltb max_reveal_proof_bytes d.proof.reveal_proof_bytes
          || ltb max_refresh_proof_bytes d.proof.refresh_proof_bytes))
        invalid_proof_size
    guard (same d.ruleset_fingerprint names.rules) ruleset_mismatch
    map_err (Schedule.validate (schedule d (fill 32 1))) (λ e. invalid_schedule)
    ok d

  -- the pieces that `canonical_preimage` appends to its output
  unfoldable pub segments : DeploymentParameters → List Bytes
  unfolding be64
  segments d =
      preimage_magic
      ∷ d.core_runtime_id
      ∷ names.names_family_id
      ∷ d.ruleset_fingerprint
      ∷ be32 d.activation_height
      ∷ be32 d.epoch_blocks
      ∷ be32 d.window_blocks
      ∷ be32 d.commit_maturity_blocks
      ∷ be32 d.commit_ttl_blocks
      ∷ be32 d.lease_blocks
      ∷ be32 d.cooldown_blocks
      ∷ be64 bond_zatoshis
      ∷ (max_name_bytes % 256 ∷ [])
      ∷ be16 (max_ua_bytes % 2 ^ 16)
      ∷ d.proof.reveal
      ∷ d.proof.refresh
      ∷ []

  unfoldable pub canonical_preimage : DeploymentParameters → Result DeploymentError Bytes
  unfolding validate_deployment segments concat
  canonical_preimage d = do validated ← validate_deployment d; ok (concat (segments validated))

  unfoldable pub deployment_id :
      ⦃prims : Primitives⦄ → DeploymentParameters → Result DeploymentError Bytes
  unfolding canonical_preimage
  deployment_id ⦃prims⦄ d = do
    preimage ← canonical_preimage d
    ok (prims.blake2b 32 deployment_personal preimage)
