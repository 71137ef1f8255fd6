-- ===== src/Prelude/Word.antt =====
-- `u32` arithmetic: a value is a number below 2 ^ 32, and the checked operations answer `none`
-- where the result leaves that range.
use Prim.Native.Nat.{ℕ, ◌+◌, ◌-◌, ◌*◌, ◌^◌, ◌<◌}
use mathlib.Core.Option.{Option, none, some}
use coppice_names.Prelude.Tests.{ltb, leb, if◌then◌else◌}

abbrev pub u32_size : ℕ
u32_size = 2 ^ 32

abbrev pub IsU32 : ℕ → Type 0
IsU32 n = n < u32_size

abbrev pub checked_add : ℕ → ℕ → Option ℕ
checked_add a b = if ltb (a + b) u32_size then some (a + b) else none

abbrev pub checked_mul : ℕ → ℕ → Option ℕ
checked_mul a b = if ltb (a * b) u32_size then some (a * b) else none

abbrev pub checked_sub : ℕ → ℕ → Option ℕ
checked_sub a b = if leb b a then some (a - b) else none
