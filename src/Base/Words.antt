-- ===== src/Base/Words.antt =====
-- Machine words as native numbers: every operation wraps as the C type does.
use Prim.Native.Nat.{ℕ, ◌+◌, ◌-◌, ◌/◌, ◌%◌, ◌^◌, ◌<◌, ◌≤◌}
use mathlib.Core.Path.{◌≡◌}
use native.Mathlib.Omega.{arith}

abbrev pub u8 : ℕ → ℕ
u8 n = n % 0x100

abbrev pub u16 : ℕ → ℕ
u16 n = n % 0x10000

abbrev pub u32 : ℕ → ℕ
u32 n = n % 0x100000000

abbrev pub u64 : ℕ → ℕ
u64 n = n % 0x10000000000000000

-- `a - b` on `uint64_t` and on `uint32_t`, where `b` is in range.
abbrev pub sub64 : ℕ → ℕ → ℕ
sub64 a b = u64 (a + 0x10000000000000000 - b)

abbrev pub sub32 : ℕ → ℕ → ℕ
sub32 a b = u32 (a + 0x100000000 - b)

abbrev pub shr : ℕ → ℕ → ℕ
shr x k = x / 2 ^ k

pub sub64-eq-sub : (a b : ℕ) → a < 2 ^ 64 → b ≤ a → sub64 a b ≡ a - b
sub64-eq-sub a b ha hb = omega arith
