-- ===== src/Examples/Timing.antt =====
-- Instances of the schedule's theorems, at the toy parameters: windows [2, 6), [8, 12), ...
use coppice_names.Prelude.{ℕ, ◌+◌, ◌≤◌, ◌<◌, ◌≡◌, ◌↔◌, refl, true, [], ◌∷◌, ok, arith}
use coppice_names.Prelude.Word.{u32_size}
use coppice_names.Protocol.{NameId}
use coppice_names.Schedule.{
  Window, epoch, window, offset, from_le_bytes, accepts_operation, contains_height, accepts_commit,
  operation_windows_descending,
}
use coppice_names.Schedule.Arithmetic.{IsValid, epoch_start}
use coppice_names.Schedule.Windows.{
  window_within_epoch, epoch_of_window, accepts_operation_iff, accepts_commit_iff,
}
use coppice_names.Schedule.Descending.{
  in_any, Descends, operation_windows_exact, operation_windows_descend,
}
use coppice_names.Examples.Chain.{toy, parameters}

abbrev alice : NameId
alice = 1 ∷ b'a' ∷ 0 ∷ []

valid : IsValid parameters
valid = omega arith

window_one : window parameters alice 1 ≡ ok (record { start = 8; end = 12 })
unfolding window offset from_le_bytes
window_one = refl

window_within_epoch_example :
    (epoch_start parameters 1 ≤ 8)
    × (8 + 4 ≡ 12)
    × (12 ≤ epoch_start parameters 2)
    × (12 < u32_size)
window_within_epoch_example =
    window_within_epoch parameters alice 1 (record { start = 8; end = 12 }) valid window_one

epoch_of_window_example : epoch parameters 11 ≡ ok 1
epoch_of_window_example =
    epoch_of_window parameters alice 1 11 (record { start = 8; end = 12 }) valid window_one refl

accepts_operation_iff_example :
    (accepts_operation parameters alice 9 ≡ true)
    ↔ ((e : ℕ) × (w : Window) × (window parameters alice e ≡ ok w) × (contains_height w 9 ≡ true))
accepts_operation_iff_example = accepts_operation_iff parameters alice 9 valid

windows_from_three :
    operation_windows_descending parameters alice 3 10
    ≡ ok (record { start = 8; end = 10 } ∷ record { start = 3; end = 6 } ∷ [])
unfolding operation_windows_descending window offset from_le_bytes
windows_from_three = refl

operation_windows_exact_example :
    (in_any (record { start = 8; end = 10 } ∷ record { start = 3; end = 6 } ∷ []) 9 ≡ true)
    ↔ ((accepts_operation parameters alice 9 ≡ true) × (3 ≤ 9) × (9 < 10))
operation_windows_exact_example =
    operation_windows_exact parameters alice 3 10 9 _ valid windows_from_three

operation_windows_descend_example :
    Descends 3 10 (record { start = 8; end = 10 } ∷ record { start = 3; end = 6 } ∷ [])
operation_windows_descend_example =
    operation_windows_descend parameters alice 3 10 _ valid windows_from_three

accepts_commit_iff_example :
    (accepts_commit parameters 0 4 ≡ true) ↔ ((0 ≤ 0) × (0 + 4 ≤ 4) × (4 < 0 + 5))
accepts_commit_iff_example = accepts_commit_iff parameters 0 4
