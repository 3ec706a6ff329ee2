-- ===== src/Flash/Guard.antt =====
-- The refusal of the bootloader's own pages, in the driver that both images link.
use bootloader_ota.Base.{
  ℕ, ◌+◌, ◌≤◌, ◌<◌, ◌^◌, ◌≡◌, inl, inr, arith, true, List, length, Bool-cases,
}
use native.Mathlib.Decide.{dec_lt}
use bootloader_ota.Layout.{
  flash_base_addr, flash_total_size, flash_page_size, bootloader_addr, bootloader_size,
}
use bootloader_ota.Flash.{
  Flash, Controller, address_in_flash, address_is_bootloader, flash_erase_page, flash_write,
}
use bootloader_ota.Flash.Frame.{IsController, erase_page-mem, write-mem}

-- A range that the check accepts lies behind the bootloader and inside the part.
pub address_in_flash-bounds :
    (p len : ℕ)
    → p < 2 ^ 32
    → 0 < len
    → len < 2 ^ 32
    → address_in_flash p len ≡ true
    → (bootloader_addr + bootloader_size ≤ p) × (p + len ≤ flash_base_addr + flash_total_size)
unfolding address_in_flash address_is_bootloader
address_in_flash-bounds p len hp pos hl ok = ground arith

abbrev pub InBootloader : ℕ → Type 0
InBootloader a = (bootloader_addr ≤ a) × (a < bootloader_addr + bootloader_size)

module _ (hw : Controller) (laws : IsController hw) where
  erase_page-bootloader :
      (p : ℕ) (s : Flash) (a : ℕ)
      → p < 2 ^ 32
      → InBootloader a
      → (flash_erase_page hw p s).1.mem a ≡ s.mem a
  erase_page-bootloader p s a small h = elim (Bool-cases (address_in_flash p flash_page_size)) [
    | inl fits ↦
        let b = address_in_flash-bounds p flash_page_size small (omega arith) (omega arith) fits in
        erase_page-mem hw laws p s a (omega arith)
    | inr refused ↦ unfold flash_erase_page in rw refused
  ]

  write-bootloader :
      (p : ℕ) (bs : List ℕ) (s : Flash) (a : ℕ)
      → p < 2 ^ 32
      → length bs < 2 ^ 32
      → InBootloader a
      → (flash_write hw p bs s).1.mem a ≡ s.mem a
  write-bootloader p bs s a small short h = elim (Bool-cases (address_in_flash p (length bs))) [
    | inl fits ↦ elim (dec_lt 0 (length bs)) [
      | yes pos ↦
          let b = address_in_flash-bounds p (length bs) small pos short fits in
          write-mem hw laws p bs s a (omega arith)
      | no empty ↦ unfold flash_write in ground arith
    ]
    | inr refused ↦ unfold flash_write in ground arith
  ]

  -- Whatever address an erase is called with, and whatever address and bytes a write, each fitting a
  -- uint32_t, under a controller that obeys its laws no byte of the bootloader changes.
  pub driver_spares_bootloader :
      (p : ℕ) (bs : List ℕ) (s : Flash) (a : ℕ)
      → p < 2 ^ 32
      → length bs < 2 ^ 32
      → InBootloader a
      → ((flash_erase_page hw p s).1.mem a ≡ s.mem a) × ((flash_write hw p bs s).1.mem a ≡ s.mem a)
  driver_spares_bootloader p bs s a small short h =
      (erase_page-bootloader p s a small h, write-bootloader p bs s a small short h)
