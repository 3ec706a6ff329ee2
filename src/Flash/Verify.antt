-- ===== src/Flash/Verify.antt =====
-- What a status of success means. The driver reads back what it did, so nothing is assumed of the
-- controller here.
use bootloader_ota.Base.{
  ℕ, zero, suc, ◌+◌, ◌≤◌, ◌<◌, ◌≡◌, refl, arith, true, List, [], ◌∷◌, length, Memory, bytes_at,
}
use native.Mathlib.Decide.{dec_lt}
use bootloader_ota.Layout.{flash_page_size}
use bootloader_ota.Flash.{
  Flash, Controller, flash_ok, flash_is_erased, reads_back, flash_erase_page, flash_write,
}

flash_is_erased_sound :
    (mem : Memory) (a n b : ℕ) → flash_is_erased mem a n ≡ true → a ≤ b → b < a + n → mem b ≡ 0xff
unfolding flash_is_erased
flash_is_erased_sound mem a zero b h p q = absurd (omega arith)
flash_is_erased_sound mem a (suc n) b h p q = elim (dec_lt a b) [
  | yes later ↦ flash_is_erased_sound mem (a + 1) n b (ground arith) (omega arith) (omega arith)
  | no here ↦ let e : b ≡ a = omega arith in rw e (ground arith)
]

reads_back_sound :
    (mem : Memory) (a : ℕ) (bs : List ℕ)
    → reads_back mem a bs ≡ true
    → bytes_at mem a (length bs) ≡ bs
unfolding reads_back bytes_at
reads_back_sound mem a [] h = refl
reads_back_sound mem a (b ∷ bs) h = ground (arith, reads_back_sound mem (a + 1) bs)

module _ (hw : Controller) where
  -- A successful erase leaves 0xff in each byte of the page.
  pub erase_page-erased :
      (a : ℕ) (s : Flash)
      → (flash_erase_page hw a s).0 ≡ flash_ok
      → (b : ℕ) → a ≤ b
      → b < a + flash_page_size
      → (flash_erase_page hw a s).1.mem b ≡ 0xff
  unfolding flash_erase_page
  erase_page-erased a s h b p q =
      ground (arith, flash_is_erased_sound (flash_erase_page hw a s).1.mem a flash_page_size b)

  -- A successful write leaves the bytes that it was given.
  pub write-bytes_at :
      (a : ℕ) (bs : List ℕ) (s : Flash)
      → (flash_write hw a bs s).0 ≡ flash_ok
      → bytes_at ((flash_write hw a bs s).1.mem) a (length bs) ≡ bs
  unfolding flash_write
  write-bytes_at a bs s h = ground (arith, reads_back_sound (flash_write hw a bs s).1.mem a bs)
