-- ===== src/Schedule/Windows.antt =====
-- Which heights accept an operation, and which COMMITs a REVEAL may use.
use coppice_names.Prelude.{
  ℕ, suc, ◌+◌, ◌≤◌, ◌<◌, ◌≡◌, ◌↔◌, refl, true, ok, err, Result, ◌>>=◌, arith, is_ok_and,
}
use coppice_names.Prelude.Word.{u32_size}
use coppice_names.Protocol.{NameId, Primitives}
use coppice_names.Schedule.{
  Parameters, Window, ScheduleError, epoch, window, accepts_operation, accepts_commit,
  contains_height,
}
use coppice_names.Schedule.Arithmetic.{
  IsValid, epoch_start, epoch_of_bounds, offset_bound, window-eq-ok,
}

module _ ⦃prims : Primitives⦄ where
  -- The window of an epoch lies inside the epoch, has the window's length, and does not overflow.
  pub window_within_epoch :
      (p : Parameters) (n : NameId) (e : ℕ) (w : Window)
      → IsValid p
      → window p n e ≡ ok w
      → (epoch_start p e ≤ w.start)
        × (w.start + p.window_blocks ≡ w.end)
        × (w.end ≤ epoch_start p (suc e))
        × (w.end < u32_size)
  window_within_epoch p n e w v h = ground (arith, window-eq-ok p n e h, offset_bound p n v)

  -- A height in the window of an epoch belongs to that epoch.
  pub epoch_of_window :
      (p : Parameters) (n : NameId) (e h : ℕ) (w : Window)
      → IsValid p
      → window p n e ≡ ok w
      → contains_height w h ≡ true
      → epoch p h ≡ ok e
  epoch_of_window p n e h w v r c =
      let inside = window_within_epoch p n e w v r in
      epoch_of_bounds p h e (ground (arith, inside)) (ground (arith, inside))

  -- An operation for a name is accepted exactly at the heights of the name's windows.
  pub accepts_operation_iff :
      (p : Parameters) (n : NameId) (h : ℕ)
      → IsValid p
      → (accepts_operation p n h ≡ true)
        ↔ ((e : ℕ) × (w : Window) × (window p n e ≡ ok w) × (contains_height w h ≡ true))
  unfolding accepts_operation
  accepts_operation_iff p n h v =
      (accepted (epoch p h) refl, λ (e, w, r, c). rw (epoch_of_window p n e h w v r c, r) c)
    where
      in_window :
          (e : ℕ) (r : Result ScheduleError Window)
          → window p n e ≡ r
          → is_ok_and r (λ w. contains_height w h) ≡ true
          → (e : ℕ) × (w : Window) × (window p n e ≡ ok w) × (contains_height w h ≡ true)
      in_window e (ok w) r c = (e, w, r, c)
      in_window e (err x) r c = cc

      accepted :
          (r : Result ScheduleError ℕ)
          → epoch p h ≡ r
          → is_ok_and (r >>= λ e. window p n e) (λ w. contains_height w h) ≡ true
          → (e : ℕ) × (w : Window) × (window p n e ≡ ok w) × (contains_height w h ≡ true)
      accepted (ok e) r c = in_window e (window p n e) refl c
      accepted (err x) r c = cc

-- A REVEAL may use a COMMIT exactly when the COMMIT is not before activation and its age is at
-- least the maturity and below the time to live.
pub accepts_commit_iff :
    (p : Parameters) (c r : ℕ)
    → (accepts_commit p c r ≡ true) ↔ (
        (p.activation_height ≤ c)
        × (c + p.commit_maturity_blocks ≤ r)
        × (r < c + p.commit_ttl_blocks))
unfolding accepts_commit
accepts_commit_iff p c r = (λ h. ground arith, λ h. ground arith)
