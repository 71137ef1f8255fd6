-- ===== src/Schedule.antt =====
-- crates/coppice-names/src/schedule.rs: the height-only schedule and lifecycle arithmetic.
--
-- Heights are numbers below 2 ^ 32. Where the source subtracts or adds without a check, the values
-- are in range by the tests above it or by `validate`.
pub mod Arithmetic
pub mod Windows
pub mod Descending
use coppice_names.Prelude.{
  ℕ, zero, suc, ◌+◌, ◌-◌, ◌*◌, ◌/◌, ◌%◌, min, max, Bool, true, false, not, ◌&&◌, ◌||◌, List, [],
  ◌∷◌, ◌++◌, Result, ok, err, ◌>>=◌, ◌>>◌, guard, ok_or, is_ok_and, ltb, leb, ◌==◌, if◌then◌else◌,
  take,
}
use coppice_names.Prelude.Word.{checked_add, checked_mul}
use coppice_names.Protocol.{Bytes, NameId, Primitives}

pub record Parameters : Type 0 where
  pub deployment_id : Bytes
  pub activation_height : ℕ
  pub epoch_blocks : ℕ
  pub window_blocks : ℕ
  pub commit_maturity_blocks : ℕ
  pub commit_ttl_blocks : ℕ
  pub lease_blocks : ℕ
  pub cooldown_blocks : ℕ

pub record Window : Type 0 where
  pub start : ℕ
  pub end : ℕ

pub data ScheduleError : Type 0 where
  invalid_parameters invalid_range before_activation overflow : ScheduleError

-- `Parameters::candidate`
abbrev pub candidate : Bytes → ℕ → Parameters
candidate deployment_id activation_height = record {
  deployment_id = deployment_id;
  activation_height = activation_height;
  epoch_blocks = 1_152;
  window_blocks = 24;
  commit_maturity_blocks = 24;
  commit_ttl_blocks = 192;
  lease_blocks = 250_000;
  cooldown_blocks = 1_152;
}

-- `Parameters::regtest`
abbrev pub regtest : Bytes → ℕ → Parameters
regtest deployment_id activation_height = record {
  deployment_id = deployment_id;
  activation_height = activation_height;
  epoch_blocks = 32;
  window_blocks = 4;
  commit_maturity_blocks = 4;
  commit_ttl_blocks = 24;
  lease_blocks = 128;
  cooldown_blocks = 32;
}

-- `Parameters::validate`
unfoldable pub validate : Parameters → Result ScheduleError Parameters
validate p =
    if p.window_blocks == 0
      || ltb p.commit_maturity_blocks p.window_blocks
      || leb p.commit_ttl_blocks p.commit_maturity_blocks
      || leb p.epoch_blocks p.commit_ttl_blocks
      || leb p.lease_blocks p.epoch_blocks
      || not (p.cooldown_blocks == p.epoch_blocks)
    then err invalid_parameters
    else ok p

-- `Parameters::epoch`
unfoldable pub epoch : Parameters → ℕ → Result ScheduleError ℕ
epoch p height =
    if ltb height p.activation_height
    then err before_activation
    else ok ((height - p.activation_height) / p.epoch_blocks)

-- b"CoppiceNmOff"
abbrev pub offset_personal : Bytes
offset_personal =
    b'C' ∷ b'o' ∷ b'p' ∷ b'p' ∷ b'i' ∷ b'c' ∷ b'e' ∷ b'N' ∷ b'm' ∷ b'O' ∷ b'f' ∷ b'f' ∷ []

-- `u64::from_le_bytes`
unfoldable pub from_le_bytes : Bytes → ℕ
from_le_bytes [] = 0
from_le_bytes (b ∷ bs) = b + 256 * from_le_bytes bs

-- `Window::contains`
abbrev pub contains_height : Window → ℕ → Bool
contains_height w height = leb w.start height && ltb height w.end

-- `Window { start: window.start.max(effective_start), end: window.end.min(end) }`
abbrev pub clip : ℕ → ℕ → Window → Window
clip start end w = record { start = max w.start start; end = min w.end end }

-- a clipped window goes first, unless it is empty
abbrev pub push_window : Window → List Window → List Window
push_window clipped rest = if ltb clipped.start clipped.end then clipped ∷ rest else rest

module _ ⦃prims : Primitives⦄ where
  -- `Parameters::offset`
  unfoldable pub offset : Parameters → NameId → ℕ
  offset p name_id =
      from_le_bytes (take 8 (prims.blake2b 32 offset_personal (p.deployment_id ++ name_id)))
      % (p.epoch_blocks - p.window_blocks + 1)

  -- `Parameters::window`
  unfoldable pub window : Parameters → NameId → ℕ → Result ScheduleError Window
  unfolding validate
  window p name_id index = do
    validate p
    length_of_epochs ← ok_or (checked_mul index p.epoch_blocks) overflow
    epoch_start ← ok_or (checked_add p.activation_height length_of_epochs) overflow
    start ← ok_or (checked_add epoch_start (offset p name_id)) overflow
    end ← ok_or (checked_add start p.window_blocks) overflow
    ok (record { start = start; end = end })

  -- `Parameters::accepts_operation`
  unfoldable pub accepts_operation : Parameters → NameId → ℕ → Bool
  accepts_operation p name_id height =
      is_ok_and (epoch p height >>= λ e. window p name_id e) (λ w. contains_height w height)

  -- the loop over `(first_epoch..first_epoch + count).rev()`
  unfoldable pub windows_loop :
      Parameters → NameId → ℕ → ℕ → ℕ → ℕ → Result ScheduleError (List Window)
  windows_loop p name_id start end first zero = ok []
  windows_loop p name_id start end first (suc count) = do
    w ← window p name_id (first + count)
    rest ← windows_loop p name_id start end first count
    ok (push_window (clip start end w) rest)

  -- `Parameters::operation_windows_descending`
  unfoldable pub operation_windows_descending :
      Parameters → NameId → ℕ → ℕ → Result ScheduleError (List Window)
  unfolding validate epoch windows_loop
  operation_windows_descending p name_id start end = do
    validate p
    guard (ltb start end) invalid_range
    let effective_start = max start p.activation_height
    if leb end effective_start then ok [] else do
      first_epoch ← epoch p effective_start
      last_epoch ← epoch p (end - 1)
      windows_loop p name_id effective_start end first_epoch (last_epoch + 1 - first_epoch)

-- `Parameters::accepts_commit`
unfoldable pub accepts_commit : Parameters → ℕ → ℕ → Bool
accepts_commit p commit_height reveal_height =
    if ltb commit_height p.activation_height || ltb reveal_height commit_height
    then false
    else (let age = reveal_height - commit_height in
        leb p.commit_maturity_blocks age && ltb age p.commit_ttl_blocks)

-- `Parameters::expiry`
unfoldable pub expiry : Parameters → ℕ → Result ScheduleError ℕ
expiry p producer_height = ok_or (checked_add producer_height p.lease_blocks) overflow

-- `Parameters::claimable`
unfoldable pub claimable : Parameters → ℕ → Result ScheduleError ℕ
claimable p terminal_height = ok_or (checked_add terminal_height p.cooldown_blocks) overflow
