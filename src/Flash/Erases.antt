-- ===== src/Flash/Erases.antt =====
-- Under a working controller an erase of a page that the driver accepts succeeds.
use bootloader_ota.Base.{
  ℕ, zero, suc, ◌+◌, ◌-◌, ◌/◌, ◌%◌, ◌^◌, ◌≤◌, ◌<◌, ◌≡◌, refl, arith, true, false, Memory, ap,
}
use bootloader_ota.Layout.{flash_base_addr, flash_page_size}
use bootloader_ota.Flash.{
  Flash, Controller, flash_ok, erase_cr, flash_is_erased, flash_erase_page, address_in_flash,
}
use bootloader_ota.Flash.Frame.{selected}
use bootloader_ota.Flash.Guard.{address_in_flash-bounds}
use bootloader_ota.Flash.Working.{
  IsReady, IsWorking, erased_at, flash_unlock-eq, erase_sequence-eq, after_erase,
}

pub flash_is_erased_complete :
    (mem : Memory) (a n : ℕ)
    → ((b : ℕ) → a ≤ b → b < a + n → mem b ≡ 0xff)
    → flash_is_erased mem a n ≡ true
unfolding flash_is_erased
flash_is_erased_complete mem a zero h = refl
flash_is_erased_complete mem a (suc n) h = ground (
  arith,
  h a (omega arith) (omega arith),
  flash_is_erased_complete mem (a + 1) n (λ b p q. h b (omega arith) (omega arith)),
)

-- BKER and PNB select the page of an accepted address.
selected-erase_cr :
    (a : ℕ)
    → a < 2 ^ 32
    → address_in_flash a flash_page_size ≡ true
    → a % flash_page_size ≡ 0
    → selected (erase_cr ((a - flash_base_addr) / flash_page_size) true) ≡ a
selected-erase_cr a small fits aligned =
    let b = address_in_flash-bounds a flash_page_size small (omega arith) (omega arith) fits in
    ground arith

module _ (hw : Controller) (works : IsWorking hw) where
  erase_page-eq :
      (a : ℕ) (s : Flash)
      → a < 2 ^ 32
      → IsReady s
      → address_in_flash a flash_page_size ≡ true
      → a % flash_page_size ≡ 0
      → let page = (a - flash_base_addr) / flash_page_size in
        flash_erase_page hw a s
        ≡ (flash_ok, after_erase hw works page (record s { cr = record (s.cr) { lock = false } }))
  unfolding flash_erase_page
  erase_page-eq a s small ready fits aligned =
      let page = (a - flash_base_addr) / flash_page_size in
      let unlocked = record s { cr = record (s.cr) { lock = false } } in
      let here = selected-erase_cr a small fits aligned in
      let whole : flash_is_erased (erased_at (selected (erase_cr page true)) s.mem) a
            flash_page_size
          ≡ true =
        flash_is_erased_complete _ a flash_page_size (λ b p q. ground arith) in
      ground (
        arith,
        flash_unlock-eq hw works s,
        erase_sequence-eq hw works page unlocked refl ready.busy,
        whole,
      )

  -- With a working controller at rest, the erase of an aligned page that lies in flash and outside
  -- the bootloader succeeds: its bytes are 0xff, all others are unchanged, and the controller is at
  -- rest again.
  pub erase_page-succeeds :
      (a : ℕ) (s : Flash)
      → a < 2 ^ 32
      → IsReady s
      → address_in_flash a flash_page_size ≡ true
      → a % flash_page_size ≡ 0
      → let (status, after) = flash_erase_page hw a s in
        (status ≡ flash_ok) × IsReady after × (after.mem ≡ erased_at a s.mem)
  erase_page-succeeds a s small ready fits aligned =
      rw (erase_page-eq a s small ready fits aligned)
        (refl, ground arith, ap (λ lo. erased_at lo s.mem) (selected-erase_cr a small fits aligned))
