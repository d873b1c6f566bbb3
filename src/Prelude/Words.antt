-- ===== src/Prelude/Words.antt =====
-- Machine words: unsigned arithmetic wraps, `int` arithmetic that leaves the range is undefined
-- behaviour and shows as `none`.
use Prim.Native.Nat.{ℕ, ◌+◌, ◌-◌, ◌%◌, ◌^◌}
use mathlib.Core.Bool.{◌&&◌}
use mathlib.Core.Option.{Option, none, some}
use nyet.Prelude.Int.{ℤ, pos, negsuc, pos_part, neg_part}
use nyet.Prelude.Tests.{ltb, leb, if◌then◌else◌}

abbrev pub u32_mod : ℕ
u32_mod = 2 ^ 32

abbrev pub u64_mod : ℕ
u64_mod = 2 ^ 64

-- uint32_t a - b
abbrev pub sub32 : ℕ → ℕ → ℕ
sub32 a b = (a + u32_mod - b) % u32_mod

-- InterlockedIncrement64, InterlockedDecrement64
abbrev pub inc64 : ℕ → ℕ
inc64 a = (a + 1) % u64_mod

abbrev pub dec64 : ℕ → ℕ
dec64 a = (a + u64_mod - 1) % u64_mod

-- (int)x of a uint32_t
abbrev pub as_int : ℕ → ℤ
as_int x = if ltb x (2 ^ 31) then pos x else negsuc (u32_mod - x - 1)

-- The result of an `int` operation whose exact value is `z`.
abbrev pub checked_int : ℤ → Option ℤ
checked_int z = if leb (pos_part z) (2 ^ 31 - 1) && leb (neg_part z) (2 ^ 31) then some z else none
