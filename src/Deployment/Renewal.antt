-- ===== src/Deployment/Renewal.antt =====
-- What the timing of a valid deployment leaves an owner time for.
use coppice_names.Prelude.{ℕ, suc, ◌+◌, ◌-◌, ◌<◌, ◌≡◌, ok, true, arith}
use coppice_names.Prelude.Word.{IsU32}
use coppice_names.Protocol.{Bytes, NameId, Primitives}
use coppice_names.Schedule as Schedule
use coppice_names.Schedule.{
  Parameters, Window, epoch, window, accepts_operation, accepts_commit, expiry, contains_height,
}
use coppice_names.Schedule.Arithmetic.{
  IsValid, epoch_start, epoch_bounds, window_of, window-eq-ok, window_succeeds,
}
use coppice_names.Schedule.Windows.{accepts_operation_iff, accepts_commit_iff, epoch_of_window}
use coppice_names.Deployment.{Identities, DeploymentParameters, schedule, validate_deployment}

-- an epoch lasts `epoch_blocks`
epoch_start-suc :
    (p : Parameters) (e : ℕ) → epoch_start p (suc e) ≡ epoch_start p e + p.epoch_blocks
epoch_start-suc p e = grind arith

module _ ⦃prims : Primitives⦄ where
  -- the height one epoch later stands in the next window of the name
  accepts_operation-next :
      (p : Parameters) (n : NameId) (e h : ℕ) (w : Window)
      → IsValid p
      → window p n e ≡ ok w
      → contains_height w h ≡ true
      → IsU32 (h + p.epoch_blocks + p.window_blocks)
      → (window p n (suc e) ≡ ok (window_of p n (suc e)))
        × (contains_height (window_of p n (suc e)) (h + p.epoch_blocks) ≡ true)
  accepts_operation-next p n e h w v found inside fits = (
    window_succeeds p n (suc e) v
        (ground (arith, window-eq-ok p n e found, inside, epoch_start-suc p e)),
    ground (arith, window-eq-ok p n e found, inside, epoch_start-suc p e),
  )

module _ ⦃names : Identities⦄ where
  validate_deployment-IsValid :
      (d : DeploymentParameters) (id : Bytes)
      → validate_deployment d ≡ ok d
      → IsValid (schedule d id)
  unfolding validate_deployment Schedule.validate
  validate_deployment-IsValid d id h = ground arith

module _ ⦃prims : Primitives⦄ ⦃names : Identities⦄ where
  -- In a deployment that `validate` accepts, a height that accepts an operation for a name is
  -- followed, as long as heights fit in a `u32`, by one of a later epoch that accepts an operation
  -- for the name again: before a lease from the first height expires, so that its owner can
  -- refresh, and late enough for a COMMIT made after the first height to be accepted.
  pub validate_deployment-renewal :
      (d : DeploymentParameters) (id : Bytes) (n : NameId) (h end : ℕ)
      → validate_deployment d ≡ ok d
      → accepts_operation (schedule d id) n h ≡ true
      → expiry (schedule d id) h ≡ ok end
      → IsU32 (h + d.epoch_blocks + d.window_blocks)
      → (later commit e f : ℕ) × (accepts_operation (schedule d id) n later ≡ true)
        × (epoch (schedule d id) h ≡ ok e)
        × (epoch (schedule d id) later ≡ ok f)
        × (e < f)
        × (later < end)
        × (h < commit)
        × (accepts_commit (schedule d id) commit later ≡ true)
  unfolding expiry
  validate_deployment-renewal d id n h end valid accepted lease fits =
      let p = schedule d id in
      let v = validate_deployment-IsValid d id valid in
      let later = h + d.epoch_blocks in
      let commit = later - d.commit_maturity_blocks in
      let (e, w, found, inside) = (accepts_operation_iff p n h v).0 accepted in
      let (found', inside') = accepts_operation-next p n e h w v found inside fits in
      let now : epoch p h ≡ ok e = epoch_of_window p n e h w v found inside in
      (
        later,
        commit,
        e,
        suc e,
        (accepts_operation_iff p n later v).1 (suc e, window_of p n (suc e), found', inside'),
        now,
        epoch_of_window p n (suc e) later (window_of p n (suc e)) v found' inside',
        omega arith,
        ground (arith, lease, v.epoch_lt_lease),
        ground (arith, v.maturity_lt_ttl, v.ttl_lt_epoch),
        (accepts_commit_iff p commit later).1 (
          ground (arith, epoch_bounds p h e v now, v.maturity_lt_ttl, v.ttl_lt_epoch),
          ground (arith, v.maturity_lt_ttl, v.ttl_lt_epoch),
          ground (arith, v.maturity_lt_ttl, v.ttl_lt_epoch),
        ),
      )
