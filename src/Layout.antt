-- ===== src/Layout.antt =====
-- The flash layout and the fixed numbers of `shared/metadata.h`.
use bootloader_ota.Base.{ℕ, ◌*◌, ◌==◌, if◌then◌else◌}

abbrev pub flash_base_addr : ℕ
flash_base_addr = 0x08000000

abbrev pub flash_total_size : ℕ
flash_total_size = 1024 * 1024

abbrev pub flash_page_size : ℕ
flash_page_size = 2048

abbrev pub bootloader_addr : ℕ
bootloader_addr = 0x08000000

abbrev pub bootloader_size : ℕ
bootloader_size = 32 * 1024

abbrev pub slot_a_addr : ℕ
slot_a_addr = 0x08008000

abbrev pub slot_b_addr : ℕ
slot_b_addr = 0x08080000

abbrev pub slot_size : ℕ
slot_size = 480 * 1024

abbrev pub meta_page_a_addr : ℕ
meta_page_a_addr = 0x080ff000

abbrev pub meta_page_b_addr : ℕ
meta_page_b_addr = 0x080ff800

abbrev pub slot_a : ℕ
slot_a = 0

abbrev pub slot_b : ℕ
slot_b = 1

-- `SLOT_ADDR(s)` and `OTHER_SLOT(s)`.
abbrev pub slot_addr : ℕ → ℕ
slot_addr s = if s == slot_a then slot_a_addr else slot_b_addr

abbrev pub other_slot : ℕ → ℕ
other_slot s = if s == slot_a then slot_b else slot_a

abbrev pub max_boot_failures : ℕ
max_boot_failures = 3

abbrev pub bootloader_version : ℕ
bootloader_version = 0x00000200
