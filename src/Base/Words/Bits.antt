-- ===== src/Base/Words/Bits.antt =====
-- Packing bytes into words with `|`, and masking with a power of two less one: both are arithmetic.
-- The lemmas are by the number of digits still to read, which the native operations count down.
use Prim.Native.Nat.{ℕ, zero, suc, ◌+◌, ◌-◌, ◌*◌, ◌/◌, ◌%◌, ◌^◌, ◌≤◌, ◌<◌, max, min}
use Prim.Native.Nat.{bit_and, bit_or, digits, bit_and-bitwise, bit_or-bitwise}
use mathlib.Core.Path.{◌≡◌, ap}
use native.Mathlib.Nat.{le_refl, pow-suc, one-le-pow}
use native.Mathlib.Omega.{arith}

-- A value shifted by one place more is even, and halves to the value shifted by one less.
shifted_even : (q k : ℕ) → (q * 2 ^ suc k) ≡ q * 2 ^ k + q * 2 ^ k
shifted_even q k = omega (arith, ap (λ (t : ℕ). q * t) (pow-suc 2 k))

joined_digits :
    (count width low high : ℕ)
    → low ≤ count
    → low < 2 ^ width
    → digits (λ rest. rest) max count low (high * 2 ^ width) ≡ low + high * 2 ^ width
joined_digits zero width low high enough fits = omega arith
joined_digits (suc count) width zero high enough fits = omega arith
joined_digits (suc count) zero (suc low) high enough fits = absurd (omega arith)
joined_digits (suc count) (suc width) (suc low) high enough fits =
    let even = shifted_even high width in
    let half : high * 2 ^ suc width / 2 ≡ high * 2 ^ width = omega arith in
    let rest =
      joined_digits count width (suc low / 2) high (omega arith) (omega (arith, pow-suc 2 width)) in
    rw (half, rest) (omega arith)

-- A value `|` another that is shifted above its bits is their sum.
pub bit_or_above : (k r q : ℕ) → r < 2 ^ k → bit_or r (q * 2 ^ k) ≡ r + q * 2 ^ k
bit_or_above k r q fits =
    omega (arith, bit_or-bitwise r (q * 2 ^ k), joined_digits r k r q (le_refl _) fits)

-- `2 ^ width - 1`, by its lowest digit.
mask_half : (width : ℕ) → (2 ^ suc width - 1) / 2 ≡ 2 ^ width - 1
mask_half width = omega (arith, pow-suc 2 width, one-le-pow width 2)

masked_digits :
    (count width a high low : ℕ)
    → a ≤ count
    → a ≡ low + high * 2 ^ width
    → low < 2 ^ width
    → digits (λ rest. 0) min count a (2 ^ width - 1) ≡ low
masked_digits zero width a high low enough parts fits = omega arith
masked_digits (suc count) width zero high low enough parts fits = omega arith
masked_digits (suc count) zero (suc a) high low enough parts fits =
    let rest =
      masked_digits count zero (suc a / 2) (suc a / 2) 0 (omega arith) (omega arith)
        (omega arith) in
    omega (arith, rest)
masked_digits (suc count) (suc width) (suc a) high low enough parts fits =
    let even = shifted_even high width in
    let power = pow-suc 2 width in
    let some_bit = one-le-pow width 2 in
    let rest =
      masked_digits count width (suc a / 2) high (low / 2) (omega arith) (omega arith)
        (omega arith) in
    rw (mask_half width, rest) (omega arith)

-- A mask of `k` low bits takes the remainder.
pub bit_and_mask : (k a : ℕ) → bit_and a (2 ^ k - 1) ≡ a % 2 ^ k
bit_and_mask k a =
    let some_value = one-le-pow k 2 in
    let parts : a ≡ a % 2 ^ k + a / 2 ^ k * 2 ^ k = ground arith in
    let fits : a % 2 ^ k < 2 ^ k = ground arith in
    omega (
      arith,
      bit_and-bitwise a (2 ^ k - 1),
      masked_digits a k a (a / 2 ^ k) (a % 2 ^ k) (le_refl _) parts fits,
    )
