-- ===== src/Base/Words.antt =====
-- The fixed widths of C: casts, shifts, rotations.
use Prim.Native.Nat.{ℕ, ◌*◌, ◌-◌, ◌/◌, ◌%◌, ◌^◌}
use node2x6x2b.Base.Tests.{ltb, if◌then◌else◌}

abbrev pub u32 : ℕ → ℕ
u32 n = n % 2 ^ 32

abbrev pub u64 : ℕ → ℕ
u64 n = n % 2 ^ 64

infixl 75 ◌<<<◌ ◌>>>◌
abbrev pub ◌<<<◌ : ℕ → ℕ → ℕ
x <<< k = x * 2 ^ k

abbrev pub ◌>>>◌ : ℕ → ℕ → ℕ
x >>> k = x / 2 ^ k

-- The remainder of two's complement numbers of `w` bits by a positive number, as C defines it: it has the
-- sign of the dividend.
abbrev pub srem : ℕ → ℕ → ℕ → ℕ
srem w x m = if ltb x (2 ^ (w - 1)) then x % m else (2 ^ w - (2 ^ w - x) % m) % 2 ^ w
