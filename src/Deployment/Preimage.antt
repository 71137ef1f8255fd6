-- ===== src/Deployment/Preimage.antt =====
-- What the preimage of a deployment's identity tells apart.
use coppice_names.Prelude.{
  ℕ, ◌+◌, ◌≡◌, ◌≢◌, refl, sym, ap, ◌∙◌, List, [], ◌∷◌, map, ok, arith, length, length-append,
  Result-cases, inl, inr, bind-eq-ok,
}
use coppice_names.Prelude.Word.{IsU32}
use coppice_names.Protocol.{Bytes}
use coppice_names.Schedule as Schedule
use coppice_names.Schedule.{Parameters}
use coppice_names.Codec.Bytewise.{be16, be32, from_be}
use coppice_names.Collections.Order.{list_ord, nat_ord}
use coppice_names.Wallet.Checkpoint.Slices.{from_be-be32, take-append, drop-append}
use coppice_names.Deployment.{
  Identities, ProofIdentity, DeploymentParameters, concat, segments, be64, schedule,
  validate_deployment, canonical_preimage, candidate_deployment, regtest_deployment, fill,
}

concat-injective :
    (xss yss : List Bytes) → map length xss ≡ map length yss → concat xss ≡ concat yss → xss ≡ yss
unfolding concat
concat-injective [] [] sizes h = refl
concat-injective [] (ys ∷ yss) sizes h = ground arith
concat-injective (xs ∷ xss) [] sizes h = ground arith
concat-injective (xs ∷ xss) (ys ∷ yss) sizes h = ground (
  arith,
  take-append (length xs) xs (concat xss) refl,
  take-append (length xs) ys (concat yss),
  drop-append (length xs) xs (concat xss) refl,
  drop-append (length xs) ys (concat yss),
  concat-injective xss yss,
)

-- The identities have 32 bytes and the numbers are `u32`, as their types say.
pub record IsDeployment (d : DeploymentParameters) : Type 0 where
  pub runtime : length d.core_runtime_id ≡ 32
  pub fingerprint : length d.ruleset_fingerprint ≡ 32
  pub reveal : length d.proof.reveal ≡ 32
  pub refresh : length d.proof.refresh ≡ 32
  pub activation : IsU32 d.activation_height
  pub epoch : IsU32 d.epoch_blocks
  pub window : IsU32 d.window_blocks
  pub maturity : IsU32 d.commit_maturity_blocks
  pub ttl : IsU32 d.commit_ttl_blocks
  pub lease : IsU32 d.lease_blocks
  pub cooldown : IsU32 d.cooldown_blocks

-- the sum of the lengths
unfoldable sum : List ℕ → ℕ
sum [] = 0
sum (n ∷ ns) = n + sum ns

be32-injective : (m n : ℕ) → IsU32 m → IsU32 n → be32 m ≡ be32 n → m ≡ n
be32-injective m n hm hn h = sym (from_be-be32 m hm) ∙ ap (λ bs. from_be bs 0) h ∙ from_be-be32 n hn

module _ ⦃names : Identities⦄ where
  validate_deployment_inversion :
      (d v : DeploymentParameters) → validate_deployment d ≡ ok v → v ≡ d
  unfolding validate_deployment
  validate_deployment_inversion d v h =
      elim (Result-cases (Schedule.validate (schedule d (fill 32 1)))) [
        | inl (p, valid) ↦ ground (arith, valid)
        | inr (e, invalid) ↦ ground (arith, invalid)
      ]

  canonical_preimage_inversion :
      (d : DeploymentParameters) (out : Bytes)
      → canonical_preimage d ≡ ok out
      → out ≡ concat (segments d)
  unfolding canonical_preimage
  canonical_preimage_inversion d out h =
      let (v, valid, written) = bind-eq-ok (validate_deployment d) _ h in
      ground
        (arith, written, ap (λ x. concat (segments x)) (validate_deployment_inversion d v valid))

  length-segments :
      (d : DeploymentParameters)
      → IsDeployment d
      → map length (segments d)
        ≡ 4
          ∷ 32
          ∷ length names.names_family_id
          ∷ 32
          ∷ 4
          ∷ 4
          ∷ 4
          ∷ 4
          ∷ 4
          ∷ 4
          ∷ 4
          ∷ 8
          ∷ 1
          ∷ 2
          ∷ 32
          ∷ 32
          ∷ []
  unfolding segments be16 be32 be64
  length-segments d w = rw (w.runtime, w.fingerprint, w.reveal, w.refresh) refl

  -- what the preimage says of a deployment
  unfoldable pub HasSameIdentity : DeploymentParameters → DeploymentParameters → Type 0
  HasSameIdentity d e =
      (d.core_runtime_id ≡ e.core_runtime_id)
      × (d.ruleset_fingerprint ≡ e.ruleset_fingerprint)
      × (schedule d [] ≡ schedule e [])
      × (d.proof.reveal ≡ e.proof.reveal)
      × (d.proof.refresh ≡ e.proof.refresh)

  -- Two deployments with the same preimage, each of the widths that its type asks for, have the
  -- same runtime, ruleset and schedule and the same proof verifiers.
  pub canonical_preimage-injective :
      (d e : DeploymentParameters) (out : Bytes)
      → IsDeployment d
      → IsDeployment e
      → canonical_preimage d ≡ ok out
      → canonical_preimage e ≡ ok out
      → HasSameIdentity d e
  unfolding HasSameIdentity segments
  canonical_preimage-injective d e out wd we hd he =
      let pieces : segments d ≡ segments e =
        concat-injective (segments d) (segments e)
          (length-segments d wd ∙ sym (length-segments e we))
          (sym (canonical_preimage_inversion d out hd) ∙ canonical_preimage_inversion e out he) in
      ground (
        arith,
        pieces,
        be32-injective d.activation_height e.activation_height wd.activation we.activation,
        be32-injective d.epoch_blocks e.epoch_blocks wd.epoch we.epoch,
        be32-injective d.window_blocks e.window_blocks wd.window we.window,
        be32-injective d.commit_maturity_blocks e.commit_maturity_blocks wd.maturity we.maturity,
        be32-injective d.commit_ttl_blocks e.commit_ttl_blocks wd.ttl we.ttl,
        be32-injective d.lease_blocks e.lease_blocks wd.lease we.lease,
        be32-injective d.cooldown_blocks e.cooldown_blocks wd.cooldown we.cooldown,
      )

  length-concat : (pieces : List Bytes) → length (concat pieces) ≡ sum (map length pieces)
  unfolding concat sum
  length-concat [] = refl
  length-concat (piece ∷ pieces) =
      ground (arith, length-append piece (concat pieces), length-concat pieces)

  -- The preimage of a deployment of the widths that its type asks for has 203 bytes, if the
  -- family's identity has 32: the assertion in `canonical_preimage` never fails.
  pub length-canonical_preimage :
      (d : DeploymentParameters) (out : Bytes)
      → length names.names_family_id ≡ 32
      → IsDeployment d
      → canonical_preimage d ≡ ok out
      → length out ≡ 203
  unfolding sum
  length-canonical_preimage d out family w h = ground (
    arith,
    canonical_preimage_inversion d out h,
    length-concat (segments d),
    ap sum (length-segments d w),
    family,
  )

  -- The preimage of a candidate deployment is never that of a regtest deployment of the same
  -- runtime, both of the widths that their type asks for, whatever their heights and proofs are.
  pub candidate-ne-regtest :
      (runtime : Bytes) (height height' : ℕ) (proof proof' : ProofIdentity) (out out' : Bytes)
      → IsDeployment (candidate_deployment runtime height proof)
      → IsDeployment (regtest_deployment runtime height' proof')
      → canonical_preimage (candidate_deployment runtime height proof) ≡ ok out
      → canonical_preimage (regtest_deployment runtime height' proof') ≡ ok out'
      → out ≢ out'
  unfolding HasSameIdentity
  candidate-ne-regtest runtime height height' proof proof' out out' w w' h h' e =
      let (_, _, timing, _, _) =
        canonical_preimage-injective (candidate_deployment runtime height proof)
          (regtest_deployment runtime height' proof') out w w' h (h' ∙ ap ok (sym e)) in
      ground (arith, ap (λ (p : Parameters). p.epoch_blocks) timing)
