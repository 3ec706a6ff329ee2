-- ===== src/Base/Ranges.antt =====
-- Memory as a function of the address, and the byte ranges that the program reads from it.
use Prim.Native.Nat.{ℕ, zero, suc, ◌+◌, ◌≤◌, ◌<◌}
use mathlib.Core.Path.{◌≡◌, refl, ap, ap₂}
use mathlib.Core.List.{List, [], ◌∷◌, ◌++◌}
use native.Mathlib.Omega.{arith}
use bootloader_ota.Base.Lists.{length}
use bootloader_ota.Base.Words.{byte_at}

abbrev pub Memory : Type 0
Memory = ℕ → ℕ

-- The `len` bytes from an address on: `for (i = 0; i < len; i++) d[i] = s[i]`.
unfoldable pub bytes_at : Memory → ℕ → ℕ → List ℕ
bytes_at mem a zero = []
bytes_at mem a (suc n) = mem a ∷ bytes_at mem (a + 1) n

-- Two memories hold the same bytes in `[lo, hi)`.
abbrev pub Agree : ℕ → ℕ → Memory → Memory → Type 0
Agree lo hi m n = (a : ℕ) → lo ≤ a → a < hi → n a ≡ m a

pub length-bytes_at : (mem : Memory) (a n : ℕ) → length (bytes_at mem a n) ≡ n
unfolding bytes_at
length-bytes_at mem a zero = refl
length-bytes_at mem a (suc n) = ap suc (length-bytes_at mem (a + 1) n)

-- A range that two memories agree on reads the same in both.
pub bytes_at-Agree :
    (m n : Memory) (a len : ℕ) → Agree a (a + len) m n → bytes_at n a len ≡ bytes_at m a len
unfolding bytes_at
bytes_at-Agree m n a zero h = refl
bytes_at-Agree m n a (suc len) h =
    ap₂ ◌∷◌ (h a (omega arith) (omega arith))
      (bytes_at-Agree m n (a + 1) len (λ b p q. h b (omega arith) (omega arith)))

pub bytes_at-append :
    (mem : Memory) (a m n : ℕ) → bytes_at mem a (m + n) ≡ bytes_at mem a m ++ bytes_at mem (a + m) n
unfolding bytes_at
bytes_at-append mem a zero n =
    let e : zero + n ≡ n = omega arith in let f : a + zero ≡ a = omega arith in rw (e, f)
bytes_at-append mem a (suc m) n =
    let e : suc m + n ≡ suc (m + n) = omega arith in
    let f : a + suc m ≡ a + 1 + m = omega arith in
    rw (e, f) (ap (λ t. mem a ∷ t) (bytes_at-append mem (a + 1) m n))

-- A memory of bytes, and the reads from it.
abbrev pub IsBytes : Memory → Type 0
IsBytes mem = (a : ℕ) → mem a < 256

pub byte_at-bytes_at : (mem : Memory) (a n i : ℕ) → IsBytes mem → byte_at (bytes_at mem a n) i < 256
unfolding bytes_at
byte_at-bytes_at mem a zero i h = omega arith
byte_at-bytes_at mem a (suc n) zero h = h a
byte_at-bytes_at mem a (suc n) (suc i) h = byte_at-bytes_at mem (a + 1) n i h
