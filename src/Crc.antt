-- ===== src/Crc.antt =====
-- drivers/crc.c over the CRC unit, which is hardware: what a byte written to its data register
-- does to the register is a parameter. The unit of tests/host/fake_hw.c is one value of it.
use bootloader_ota.Base.{ℕ, ◌^◌, ◌<◌, List, [], ◌∷◌, ◌++◌, ◌≡◌, refl, sym, arith}

-- The data register after a byte; the register has 32 bits.
pub record CrcUnit : Type 0 where
  pub absorb : ℕ → ℕ → ℕ
  pub absorb-lt : (r b : ℕ) → absorb r b < 2 ^ 32

abbrev pub crc_init_value : ℕ
crc_init_value = 0xffffffff

module _ (unit : CrcUnit) where
  -- The reset bit of CRC_CR reloads the data register with CRC_INIT.
  unfoldable pub crc32_reset : ℕ → ℕ
  crc32_reset dr = crc_init_value

  -- `while (len--) CRC_DR_BYTE = *data++;`
  unfoldable pub crc32_update : ℕ → List ℕ → ℕ
  crc32_update dr [] = dr
  crc32_update dr (b ∷ bs) = crc32_update (unit.absorb dr b) bs

  unfoldable pub crc32_get : ℕ → ℕ
  crc32_get dr = dr

  -- One-shot: the reset makes the register's earlier value irrelevant, so none is passed.
  unfoldable pub crc32_compute : List ℕ → ℕ
  unfolding crc32_reset crc32_update crc32_get
  crc32_compute bs = crc32_get (crc32_update (crc32_reset 0) bs)

  update-append :
      (dr : ℕ) (xs ys : List ℕ) → crc32_update dr (xs ++ ys) ≡ crc32_update (crc32_update dr xs) ys
  unfolding crc32_update
  update-append dr [] ys = refl
  update-append dr (x ∷ xs) ys = update-append (unit.absorb dr x) xs ys

  -- Feeding the unit piece by piece, from whatever it held, is one computation over the whole.
  pub get-update_pieces :
      (dr : ℕ) (xs ys : List ℕ)
      → crc32_get (crc32_update (crc32_update (crc32_reset dr) xs) ys) ≡ crc32_compute (xs ++ ys)
  unfolding crc32_compute
  get-update_pieces dr xs ys = sym (update-append crc_init_value xs ys)

  update-lt : (dr : ℕ) (xs : List ℕ) → dr < 2 ^ 32 → crc32_update dr xs < 2 ^ 32
  unfolding crc32_update
  update-lt dr [] h = h
  update-lt dr (x ∷ xs) h = update-lt (unit.absorb dr x) xs (unit.absorb-lt dr x)

  pub compute-lt : (xs : List ℕ) → crc32_compute xs < 2 ^ 32
  unfolding crc32_compute
  compute-lt xs = update-lt crc_init_value xs (omega arith)
