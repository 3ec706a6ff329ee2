-- ===== src/Uart/Registers.antt =====
-- Registers as functions from the number of a bit to the bit, and masks on them.
use bootloader_ota.Base.{
  ℕ, zero, suc, ◌/◌, ◌%◌, ◌^◌, ◌<◌, ◌≡◌, ◌==◌, arith, if◌then◌else◌, Bool, true, false, ◌&&◌, ◌||◌,
  not,
}

abbrev pub Bits : Type 0
Bits = ℕ → Bool

-- A bit of a constant, `r |= mask` and `r &= ~mask`.
abbrev pub bit_of : ℕ → ℕ → Bool
bit_of mask i = mask / 2 ^ i % 2 == 1

unfoldable pub or_mask : Bits → ℕ → Bits
or_mask r mask i = if bit_of mask i then true else r i

unfoldable pub and_not_mask : Bits → ℕ → Bits
and_not_mask r mask i = if bit_of mask i then false else r i

-- A test holds of each of the low bits of a register.
unfoldable pub each_bit : (ℕ → Bool) → ℕ → Bool
each_bit test zero = true
each_bit test (suc width) = let lower = each_bit test width in if test width then lower else false

each_bit_at :
    (width i : ℕ) (test : ℕ → Bool) → i < width → each_bit test width ≡ true → test i ≡ true
unfolding each_bit
each_bit_at zero i test inside all = absurd (omega arith)
each_bit_at (suc width) i test inside all = ground (arith, each_bit_at width i test)

-- What two masks do to a register, against a table of the bits that are owned and their values.
unfoldable pub masks_fit : ℕ → ℕ → ℕ → ℕ → (ℕ → Bool) → (ℕ → Bool) → ℕ → Bool
masks_fit clear1 set1 clear2 set2 owned wanted i =
    if bit_of set2 i
    then owned i && wanted i
    else if bit_of clear2 i
    then owned i && not (wanted i)
    else if bit_of set1 i
    then owned i && wanted i
    else if bit_of clear1 i
    then owned i && not (wanted i)
    else not (owned i)

masked-owned :
    (r : Bits) (clear1 set1 clear2 set2 : ℕ) (owned wanted : ℕ → Bool) (i : ℕ)
    → masks_fit clear1 set1 clear2 set2 owned wanted i ≡ true
    → or_mask (and_not_mask (or_mask (and_not_mask r clear1) set1) clear2) set2 i
      ≡ (if owned i then wanted i else r i)
unfolding masks_fit or_mask and_not_mask
masked-owned r clear1 set1 clear2 set2 owned wanted i h = ground arith

unfoldable pub masks_fit_once : ℕ → ℕ → (ℕ → Bool) → (ℕ → Bool) → ℕ → Bool
masks_fit_once clear set owned wanted i =
    if bit_of set i
    then owned i && wanted i
    else if bit_of clear i
    then owned i && not (wanted i)
    else not (owned i)

module _ (r : Bits) (owned wanted : ℕ → Bool) (i : ℕ) where
  pub twice_masked :
      (clear1 set1 clear2 set2 : ℕ)
      → each_bit (masks_fit clear1 set1 clear2 set2 owned wanted) 32 ≡ true
      → i < 32
      → or_mask (and_not_mask (or_mask (and_not_mask r clear1) set1) clear2) set2 i
        ≡ (if owned i then wanted i else r i)
  twice_masked clear1 set1 clear2 set2 table small =
      masked-owned r clear1 set1 clear2 set2 owned wanted i
        (each_bit_at 32 i (masks_fit clear1 set1 clear2 set2 owned wanted) small table)

  once_masked-owned :
      (clear set : ℕ)
      → masks_fit_once clear set owned wanted i ≡ true
      → or_mask (and_not_mask r clear) set i ≡ (if owned i then wanted i else r i)
  unfolding masks_fit_once or_mask and_not_mask
  once_masked-owned clear set h = ground arith

  pub once_masked :
      (clear set : ℕ)
      → each_bit (masks_fit_once clear set owned wanted) 32 ≡ true
      → i < 32
      → or_mask (and_not_mask r clear) set i ≡ (if owned i then wanted i else r i)
  once_masked clear set table small =
      once_masked-owned clear set
        (each_bit_at 32 i (masks_fit_once clear set owned wanted) small table)

-- What one or two masks set.
unfoldable pub sets_fit : ℕ → ℕ → (ℕ → Bool) → ℕ → Bool
sets_fit first second owned i = if bit_of second i || bit_of first i then owned i else not (owned i)

module _ (r : Bits) (owned : ℕ → Bool) (i : ℕ) where
  set-owned :
      (first second : ℕ)
      → sets_fit first second owned i ≡ true
      → or_mask (or_mask r first) second i ≡ (if owned i then true else r i)
  unfolding sets_fit or_mask
  set-owned first second h = ground arith

  set_once-owned :
      (set : ℕ)
      → sets_fit set set owned i ≡ true
      → or_mask r set i ≡ (if owned i then true else r i)
  unfolding sets_fit or_mask
  set_once-owned set h = ground arith

  pub twice_set :
      (first second : ℕ)
      → each_bit (sets_fit first second owned) 32 ≡ true
      → i < 32
      → or_mask (or_mask r first) second i ≡ (if owned i then true else r i)
  twice_set first second table small =
      set-owned first second (each_bit_at 32 i (sets_fit first second owned) small table)

  pub once_set :
      (set : ℕ)
      → each_bit (sets_fit set set owned) 32 ≡ true
      → i < 32
      → or_mask r set i ≡ (if owned i then true else r i)
  once_set set table small =
      set_once-owned set (each_bit_at 32 i (sets_fit set set owned) small table)
