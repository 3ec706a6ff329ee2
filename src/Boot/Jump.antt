-- ===== src/Boot/Jump.antt =====
-- `jump_to_application`: what it does to the core and to the peripherals, in order. The console
-- output before it is left out.
use Prim.Native.Nat.{bit_and}
use bootloader_ota.Base.{
  ℕ, ◌+◌, ◌≤◌, ◌<◌, ◌≡◌, ◌≢◌, refl, arith, Bool, true, false, ◌&&◌, not, if◌then◌else◌, ◌==◌, ◌!=◌,
  Option, some, List, [], ◌∷◌, Memory, bytes_at, word32_at,
}
use bootloader_ota.Layout.{flash_base_addr, flash_total_size, slot_addr}
use bootloader_ota.Crc.{CrcUnit}
use bootloader_ota.Metadata.{Metadata}
use bootloader_ota.Boot.{slot_looks_bootable, image_is_intact}

-- The registers that are modified by clearing one bit.
pub data Enable : Type 0 where
  rcc_apb1enr1 rcc_apb2enr rcc_ahb1enr : Enable

-- The accesses, the barriers, and the branch.
pub data Access : Type 0 where
  feed_watchdog mask_interrupts unmask_interrupts stop_systick dsb isb : Access
  write_icer write_icpr : ℕ → ℕ → Access
  clear_bit : Enable → ℕ → Access
  write_vtor write_msp branch : ℕ → Access

unfoldable pub jump_to_application : Memory → ℕ → List Access
jump_to_application mem base =
    let vectors = bytes_at mem base 8 in
    feed_watchdog
    ∷ mask_interrupts
    ∷ stop_systick
    ∷ write_icer 0 0xffffffff
    ∷ write_icer 1 0xffffffff
    ∷ write_icpr 0 0xffffffff
    ∷ write_icpr 1 0xffffffff
    ∷ clear_bit rcc_apb1enr1 17
    ∷ clear_bit rcc_apb2enr 14
    ∷ clear_bit rcc_ahb1enr 12
    ∷ write_vtor base
    ∷ dsb
    ∷ isb
    ∷ write_msp (word32_at vectors 0)
    ∷ unmask_interrupts
    ∷ branch (word32_at vectors 4)
    ∷ []

-- The core as the accesses leave it. An access that needs interrupts masked and finds them on makes it unsafe.
pub record Core : Type 0 where
  pub masked : Bool
  pub low_irqs_off : Bool
  pub high_irqs_off : Bool
  pub systick_on : Bool
  pub vtor : ℕ
  pub msp : ℕ
  pub pc : Option ℕ
  pub safe : Bool

-- What an access does to the core. VTOR and the stack pointer may change only where no interrupt
-- can be taken in between, and the branch must not leave an interrupt of the bootloader armed.
abbrev pub access : Access → Core → Core
access mask_interrupts c = record c { masked = true }
access unmask_interrupts c = record c {
  masked = false;
  safe = c.safe && c.low_irqs_off && c.high_irqs_off && not c.systick_on;
}
access stop_systick c = record c { systick_on = false }
access (write_icer index w) c =
    if w != 0xffffffff
    then c
    else if index == 0
    then record c { low_irqs_off = true }
    else record c { high_irqs_off = true }
access (write_vtor base) c = record c { vtor = base; safe = c.safe && c.masked }
access (write_msp sp) c = record c { msp = sp; safe = c.safe && c.masked }
access (branch target) c = record c { pc = some target; safe = c.safe && not c.masked }
access _ c = c

abbrev pub run : List Access → Core → Core
run [] c = c
run (a ∷ rest) c = run rest (access a c)

-- Where an intact image is run, and how.
pub record IsHandedOver (base : ℕ) (c : Core) : Type 0 where
  pub vtor : c.vtor ≡ base
  pub stack : bit_and c.msp 0xfff00000 ≡ 0x20000000
  pub target : ℕ
  pub reset : c.pc ≡ some target
  pub low : flash_base_addr ≤ target
  pub high : target < flash_base_addr + flash_total_size
  pub thumb : bit_and target 1 ≢ 0
  pub safe : c.safe ≡ true

-- From any state of the core, the jump to an image that is intact ends at a Thumb address in flash, with a stack
-- pointer in the megabyte from 0x20000000 on, which RAM does not fill, and with the image's own vector table, and
-- neither of these changes while an interrupt could be taken.
pub jump-IsHandedOver :
    (unit : CrcUnit) (mem : Memory) (meta : Metadata) (s : ℕ) (c : Core)
    → c.safe ≡ true
    → image_is_intact unit mem meta s ≡ true
    → IsHandedOver (slot_addr s) (run (jump_to_application mem (slot_addr s)) c)
unfolding jump_to_application image_is_intact slot_looks_bootable
jump-IsHandedOver unit mem meta s c fresh intact =
    let vectors = bytes_at mem (slot_addr s) 8 in
    record {
      vtor = refl;
      stack = ground arith;
      target = word32_at vectors 4;
      reset = refl;
      low = ground arith;
      high = ground arith;
      thumb = ground arith;
      safe = ground arith;
    }
