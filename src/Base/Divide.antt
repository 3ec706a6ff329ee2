-- ===== src/Base/Divide.antt =====
-- Division by a number that is not known.
use Prim.Native.Nat.{ℕ, ◌+◌, ◌*◌, ◌/◌, ◌%◌, ◌≤◌, ◌<◌}
use mathlib.Core.Path.{◌≡◌}
use native.Mathlib.Omega.{arith}

-- Division by a divider of at least 1, without the division.
pub quotient-cases :
    (x d : ℕ) → 0 < d → d ≤ x → (0 < x / d) × (x / d * d ≤ x) × (x < (x / d + 1) * d)
quotient-cases x d pos fits =
    let parts : x ≡ x % d + x / d * d = ground arith in
    let rest : x % d < d = ground arith in grind arith
