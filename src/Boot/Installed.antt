-- ===== src/Boot/Installed.antt =====
-- What the boot after a completed update finds: an intact image.
use Prim.Native.Nat.{bit_and}
use bootloader_ota.Base.{
  ℕ, Memory, ◌+◌, ◌-◌, ◌≤◌, ◌<◌, ◌≡◌, ◌≢◌, ◌∙◌, refl, sym, ap, arith, true, List, length, bytes_at,
  word32_at, bytes_at-append,
}
use bootloader_ota.Layout.{slot_addr, slot_size, flash_base_addr, flash_total_size}
use bootloader_ota.Crc.{CrcUnit, crc32_compute}
use bootloader_ota.Flash.{Flash, Controller}
use bootloader_ota.Flash.Frame.{IsController}
use bootloader_ota.Metadata.{SlotInfo, slot}
use bootloader_ota.Store.Valid.{read-IsUsable}
use bootloader_ota.Protocol.Session.Ends.{IsInstalled}
use bootloader_ota.Boot.{slot_looks_bootable, image_is_intact}

-- The image begins with a stack pointer in RAM and the address of a Thumb handler in flash.
pub record HasVectors (image : List ℕ) : Type 0 where
  pub long : 8 ≤ length image
  pub stack : bit_and (word32_at image 0) 0xfff00000 ≡ 0x20000000
  pub low : flash_base_addr ≤ word32_at image 4
  pub high : word32_at image 4 < flash_base_addr + flash_total_size
  pub thumb : bit_and (word32_at image 4) 1 ≢ 0

first_words :
    (mem : Memory) (a n : ℕ)
    → let bs = bytes_at mem a (8 + n) in
      let vectors = bytes_at mem a 8 in
      (word32_at bs 0 ≡ word32_at vectors 0) × (word32_at bs 4 ≡ word32_at vectors 4)
unfolding bytes_at word32_at
first_words mem a n = rw (bytes_at-append mem a 8 n) (refl, refl)

pub stored_bootable :
    (mem : Memory) (a : ℕ) (image : List ℕ)
    → HasVectors image
    → bytes_at mem a (length image) ≡ image
    → slot_looks_bootable mem a ≡ true
unfolding slot_looks_bootable
stored_bootable mem a image v holds =
    let n = length image - 8 in
    let size : 8 + n ≡ length image = omega (arith, v.long) in
    let here : bytes_at mem a (8 + n) ≡ image = ap (bytes_at mem a) size ∙ holds in
    let (sp, reset) = first_words mem a n in
    let stack : word32_at (bytes_at mem a 8) 0 ≡ word32_at image 0 =
      sym sp ∙ ap (λ bs. word32_at bs 0) here in
    let handler : word32_at (bytes_at mem a 8) 4 ≡ word32_at image 4 =
      sym reset ∙ ap (λ bs. word32_at bs 4) here in
    rw (stack, handler) (ground (arith, v.stack, v.low, v.high, v.thumb))

module _ (unit : CrcUnit) (hw : Controller) (laws : IsController hw) where
  pub installed-intact :
      (target : ℕ) (image : List ℕ) (other : SlotInfo) (flash : Flash)
      → (done : IsInstalled unit target image other flash.mem) → 0 < length image
      → slot_looks_bootable flash.mem (slot_addr target) ≡ true
      → image_is_intact unit flash.mem done.new target ≡ true
  unfolding image_is_intact
  installed-intact target image other flash done pos bootable =
      let usable = read-IsUsable unit flash.mem done.new done.read in
      let fits : (slot done.new target).size ≤ slot_size =
        ground (arith, usable.first_size, usable.second_size) in
      let crc : crc32_compute unit
            (bytes_at flash.mem (slot_addr target) (slot done.new target).size)
          ≡ (slot done.new target).crc32 =
        ap (λ k. crc32_compute unit (bytes_at flash.mem (slot_addr target) k)) done.size
        ∙ ap (crc32_compute unit) done.holds
        ∙ sym done.crc in
      ground (arith, done.size, fits, bootable, crc)
