-- ===== src/Base/Words.antt =====
-- Casts to the fixed widths, and the little-endian words of the wire and of the flash.
mod Bits
use Bits.{bit_or_above}
pub use Bits.{bit_and_mask}
use Prim.Native.Nat.{ℕ, ◌+◌, ◌*◌, ◌/◌, ◌%◌, ◌^◌, ◌<◌, bit_or}
use mathlib.Core.Path.{◌≡◌}
use mathlib.Core.List.{List, [], ◌∷◌}
use native.Mathlib.Omega.{arith}
use bootloader_ota.Base.Lists.{get_or}

abbrev pub u8 : ℕ → ℕ
u8 n = n % 2 ^ 8

abbrev pub u16 : ℕ → ℕ
u16 n = n % 2 ^ 16

abbrev pub u32 : ℕ → ℕ
u32 n = n % 2 ^ 32

-- `(uint8_t)v, (uint8_t)(v >> 8)`, and so on.
abbrev pub le16 : ℕ → List ℕ
le16 v = u8 v ∷ u8 (v / 2 ^ 8) ∷ []

abbrev pub le32 : ℕ → List ℕ
le32 v = u8 v ∷ u8 (v / 2 ^ 8) ∷ u8 (v / 2 ^ 16) ∷ u8 (v / 2 ^ 24) ∷ []

-- `b0 | b1 << 8` and `b0 | b1 << 8 | b2 << 16 | b3 << 24`.
pub word16 : ℕ → ℕ → ℕ
word16 b0 b1 = bit_or b0 (b1 * 2 ^ 8)

pub word32 : ℕ → ℕ → ℕ → ℕ → ℕ
word32 b0 b1 b2 b3 = bit_or (bit_or (bit_or b0 (b1 * 2 ^ 8)) (b2 * 2 ^ 16)) (b3 * 2 ^ 24)

-- The words that stand at an offset of a byte array.
abbrev pub byte_at : List ℕ → ℕ → ℕ
byte_at xs i = get_or xs i 0

unfoldable pub word16_at : List ℕ → ℕ → ℕ
unfolding word16
word16_at xs i = word16 (byte_at xs i) (byte_at xs (i + 1))

unfoldable pub word32_at : List ℕ → ℕ → ℕ
unfolding word32
word32_at xs i =
    word32 (byte_at xs i) (byte_at xs (i + 1)) (byte_at xs (i + 2)) (byte_at xs (i + 3))

pub word16_sum : (b0 b1 : ℕ) → b0 < 256 → word16 b0 b1 ≡ b0 + b1 * 2 ^ 8
unfolding word16
word16_sum b0 b1 h = bit_or_above 8 b0 b1 h

pub word32_sum :
    (b0 b1 b2 b3 : ℕ)
    → b0 < 256
    → b1 < 256
    → b2 < 256
    → word32 b0 b1 b2 b3 ≡ b0 + b1 * 2 ^ 8 + b2 * 2 ^ 16 + b3 * 2 ^ 24
unfolding word32
word32_sum b0 b1 b2 b3 h0 h1 h2 = rw (
  bit_or_above 8 b0 b1 h0,
  bit_or_above 16 (b0 + b1 * 2 ^ 8) b2 (omega arith),
  bit_or_above 24 (b0 + b1 * 2 ^ 8 + b2 * 2 ^ 16) b3 (omega arith),
)

pub word16-le16 : (v : ℕ) → v < 2 ^ 16 → word16 (u8 v) (u8 (v / 2 ^ 8)) ≡ v
word16-le16 v h = omega (arith, word16_sum (u8 v) (u8 (v / 2 ^ 8)) (omega arith))

pub word32-le32 :
    (v : ℕ) → v < 2 ^ 32 → word32 (u8 v) (u8 (v / 2 ^ 8)) (u8 (v / 2 ^ 16)) (u8 (v / 2 ^ 24)) ≡ v
word32-le32 v h = omega (
  arith,
  word32_sum (u8 v) (u8 (v / 2 ^ 8)) (u8 (v / 2 ^ 16)) (u8 (v / 2 ^ 24)) (omega arith) (omega arith)
      (omega arith),
)
