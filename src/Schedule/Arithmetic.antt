-- ===== src/Schedule/Arithmetic.antt =====
-- The arithmetic of valid parameters: what `validate` ensures, and where epochs and windows lie.
use coppice_names.Prelude.{ℕ, suc, ◌+◌, ◌-◌, ◌*◌, ◌/◌, ◌≤◌, ◌<◌, ◌≡◌, ◌↔◌, ok, arith}
use coppice_names.Prelude.Word.{u32_size}
use coppice_names.Protocol.{Bytes, NameId, Primitives}
use coppice_names.Schedule.{Parameters, Window, candidate, regtest, validate, epoch, offset, window}

-- what `validate` checks, as inequalities
pub record IsValid (p : Parameters) : Type 0 where
  pub window_pos : 0 < p.window_blocks
  pub window_le_maturity : p.window_blocks ≤ p.commit_maturity_blocks
  pub maturity_lt_ttl : p.commit_maturity_blocks < p.commit_ttl_blocks
  pub ttl_lt_epoch : p.commit_ttl_blocks < p.epoch_blocks
  pub epoch_lt_lease : p.epoch_blocks < p.lease_blocks
  pub cooldown_eq_epoch : p.cooldown_blocks ≡ p.epoch_blocks

-- `validate` returns the parameters exactly when they are valid
pub validate_iff : (p : Parameters) → (validate p ≡ ok p) ↔ IsValid p
unfolding validate
validate_iff p = (λ h. ground arith, λ v. ground arith)

pub candidate-IsValid : (d : Bytes) (a : ℕ) → IsValid (candidate d a)
candidate-IsValid d a = omega arith

pub regtest-IsValid : (d : Bytes) (a : ℕ) → IsValid (regtest d a)
regtest-IsValid d a = omega arith

-- where the epoch of a height begins
abbrev pub epoch_start : Parameters → ℕ → ℕ
epoch_start p e = p.activation_height + e * p.epoch_blocks

quotient_bounds : (n d : ℕ) → 0 < d → (n / d * d ≤ n) × (n < suc (n / d) * d)
quotient_bounds n d h = grind arith

quotient_unique : (n d q : ℕ) → q * d ≤ n → n < suc q * d → n / d ≡ q
quotient_unique n d q h k = grind arith

div_mono : (a b d : ℕ) → a ≤ b → a / d ≤ b / d
div_mono a b d h = grind arith

-- a later height lies in the same epoch or a later one
pub epoch_mono :
    (p : Parameters) (a b e f : ℕ) → epoch p a ≡ ok e → epoch p b ≡ ok f → a ≤ b → e ≤ f
unfolding epoch
epoch_mono p a b e f he hf h =
    ground (arith, div_mono (a - p.activation_height) (b - p.activation_height) p.epoch_blocks)

pub epoch_bounds :
    (p : Parameters) (h e : ℕ)
    → IsValid p
    → epoch p h ≡ ok e
    → (epoch_start p e ≤ h) × (h < epoch_start p (suc e))
unfolding epoch
epoch_bounds p h e v r = ground (arith, quotient_bounds (h - p.activation_height) p.epoch_blocks)

-- a height between the starts of an epoch and of the next belongs to it
pub epoch_of_bounds :
    (p : Parameters) (h e : ℕ) → epoch_start p e ≤ h → h < epoch_start p (suc e) → epoch p h ≡ ok e
unfolding epoch
epoch_of_bounds p h e low high =
    ground (arith, quotient_unique (h - p.activation_height) p.epoch_blocks e)

module _ ⦃prims : Primitives⦄ where
  -- the offset of a window leaves room for the whole window in its epoch
  pub offset_bound :
      (p : Parameters) (n : NameId) → IsValid p → offset p n + p.window_blocks ≤ p.epoch_blocks
  unfolding offset
  offset_bound p n v = omega arith

  -- the window of an epoch, without the checks
  abbrev pub window_of : Parameters → NameId → ℕ → Window
  window_of p n e = record {
    start = epoch_start p e + offset p n;
    end = epoch_start p e + offset p n + p.window_blocks;
  }

  -- `window` succeeds exactly when its end is a `u32`, and then returns the epoch's window
  pub window-eq-ok :
      (p : Parameters) (n : NameId) (e : ℕ) {w : Window}
      → window p n e ≡ ok w
      → (w ≡ window_of p n e) × (w.end < u32_size)
  unfolding window
  window-eq-ok p n e h = ground arith

  pub window_succeeds :
      (p : Parameters) (n : NameId) (e : ℕ)
      → IsValid p
      → (window_of p n e).end < u32_size
      → window p n e ≡ ok (window_of p n e)
  unfolding window
  window_succeeds p n e v h = ground arith
