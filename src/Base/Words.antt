-- ===== src/Base/Words.antt =====
-- Unsigned machine integers: a value is a number, and each operation keeps it below its width.
use Prim.Native.Nat.{ℕ, ◌+◌, ◌-◌, ◌*◌, ◌%◌, ◌≤◌, min}
use mathlib.Core.Path.{◌≡◌}
use mathlib.Core.Option.{Option, none, some}
use native.Mathlib.Omega.{arith}
use free_llama.Base.Tests.{leb, if◌then◌else◌}

abbrev pub u8_max : ℕ
u8_max = 255

abbrev pub u32_max : ℕ
u32_max = 4294967295

-- Also the largest `usize`, on the 64-bit hosts that the program is built for.
abbrev pub u64_max : ℕ
u64_max = 18446744073709551615

-- `u64::saturating_add`.
abbrev pub add_u64 : ℕ → ℕ → ℕ
add_u64 a b = min (a + b) u64_max

-- `a.saturating_add(b)` at the width whose largest value is `top`.
unfoldable pub saturating_add : ℕ → ℕ → ℕ → ℕ
saturating_add top a b = min (a + b) top

unfoldable pub saturating_mul : ℕ → ℕ → ℕ → ℕ
saturating_mul top a b = min (a * b) top

unfoldable pub wrapping_add : ℕ → ℕ → ℕ → ℕ
wrapping_add top a b = (a + b) % (top + 1)

unfoldable pub wrapping_sub : ℕ → ℕ → ℕ → ℕ
wrapping_sub top a b = if leb b a then a - b else a + (top + 1) - b

unfoldable pub checked_add : ℕ → ℕ → ℕ → Option ℕ
checked_add top a b = if leb (a + b) top then some (a + b) else none

pub saturating_add_exact : (top a b : ℕ) → a + b ≤ top → saturating_add top a b ≡ a + b
unfolding saturating_add
saturating_add_exact top a b h = omega arith

pub saturating_add_bounds :
    (top a b : ℕ) → (saturating_add top a b ≤ top) × (saturating_add top a b ≤ a + b)
unfolding saturating_add
saturating_add_bounds top a b = omega arith

pub wrapping_add_exact : (top a b : ℕ) → a + b ≤ top → wrapping_add top a b ≡ a + b
unfolding wrapping_add
wrapping_add_exact top a b h = grind arith
