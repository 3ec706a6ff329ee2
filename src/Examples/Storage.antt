-- ===== src/Examples/Storage.antt =====
-- The theorems on the flash and on the record, at concrete states.
use bootloader_ota.Base.{ℕ, ◌+◌, ◌<◌, ◌≡◌, ◌⊎◌, refl, arith, true, some, bytes_at, word32_at}
use bootloader_ota.Layout.{slot_a_addr, bootloader_addr}
use bootloader_ota.Crc.{crc32_compute}
use bootloader_ota.Flash.{
  flash_ok, flash_is_erased, flash_erase_page, flash_write, flash_unlock, flash_lock,
  flash_clear_errors, flash_check_errors, flash_wait_busy, wait_busy, set_pg, clear_per,
  erase_sequence, program, program_dword, reads_back, address_in_flash, address_is_bootloader,
}
use bootloader_ota.Flash.Guard.{driver_spares_bootloader}
use bootloader_ota.Metadata.{encode, encode_covered, encode_slot, decode, decode_slot}
use bootloader_ota.Metadata.Codec.{IsMetadata}
use bootloader_ota.Store.{
  meta_ok, load_page, metadata_read, metadata_write, metadata_is_valid, select_target, sealed,
  unsealed,
}
use bootloader_ota.Store.Valid.{IsUsable, read-IsUsable}
use bootloader_ota.Store.Atomic.{write-keeps_record}
use bootloader_ota.Store.Committed.{CounterBelow, read-write}
use bootloader_ota.Examples.Board.{
  crc_unit, controller, controller-IsController, fits, idle_flash, blank,
}
use bootloader_ota.Examples.Boards.{
  image, trial, memory_of, memory_of-IsBytes, first_page-CounterBelow,
}

pub reads_trial : metadata_read crc_unit (memory_of 3) ≡ some (trial 3)
unfolding metadata_read load_page sealed unsealed crc32_compute encode encode_covered decode
    metadata_is_valid bytes_at encode_slot decode_slot word32_at
reads_trial = refl

pub trial-IsMetadata : IsMetadata (trial 3)
unfolding sealed unsealed crc32_compute encode_covered encode_slot
trial-IsMetadata = omega arith

pub trial-IsBytes : (a : ℕ) → memory_of 3 a < 256
unfolding fits sealed unsealed crc32_compute encode encode_covered encode_slot
trial-IsBytes = memory_of-IsBytes 3 refl

pub trial-CounterBelow : CounterBelow crc_unit (memory_of 3)
unfolding load_page sealed unsealed crc32_compute encode encode_covered decode metadata_is_valid
    bytes_at encode_slot decode_slot word32_at
trial-CounterBelow = first_page-CounterBelow (memory_of 3) (omega arith) refl

writes_trial : (metadata_write crc_unit controller (trial 3) (idle_flash (memory_of 3))).0 ≡ meta_ok
unfolding metadata_write select_target metadata_read load_page sealed unsealed crc32_compute encode
    encode_covered decode metadata_is_valid bytes_at encode_slot decode_slot word32_at
    flash_is_erased flash_erase_page flash_write flash_unlock flash_lock flash_clear_errors
    flash_check_errors flash_wait_busy wait_busy set_pg clear_per erase_sequence program
    program_dword reads_back address_in_flash address_is_bootloader
writes_trial = refl

write-keeps_record_example :
    let after = (metadata_write crc_unit controller (trial 3) (idle_flash (memory_of 3))).1.mem in
    let page = load_page crc_unit (select_target crc_unit (memory_of 3)).0 after in
    (metadata_read crc_unit after ≡ some (trial 3))
    ⊎ ((page.0 ≡ true) × (metadata_read crc_unit after ≡ some (page.1)))
write-keeps_record_example =
    write-keeps_record crc_unit controller controller-IsController (trial 3)
      (idle_flash (memory_of 3)) (trial 3) reads_trial

read-write_example :
    metadata_read crc_unit
      (metadata_write crc_unit controller (trial 3) (idle_flash (memory_of 3))).1.mem
    ≡ some (sealed crc_unit (select_target crc_unit (memory_of 3)).1 (trial 3))
read-write_example =
    read-write crc_unit controller controller-IsController (trial 3) (idle_flash (memory_of 3))
      trial-IsMetadata trial-CounterBelow writes_trial

read-IsUsable_example : IsUsable crc_unit (trial 3)
read-IsUsable_example = read-IsUsable crc_unit (memory_of 3) (trial 3) reads_trial

driver_spares_bootloader_example :
    let s = idle_flash blank in
    ((flash_erase_page controller bootloader_addr s).1.mem (bootloader_addr + 4) ≡ 0xff)
    × ((flash_write controller bootloader_addr (image slot_a_addr) s).1.mem (bootloader_addr + 4)
        ≡ 0xff)
driver_spares_bootloader_example =
    driver_spares_bootloader controller controller-IsController bootloader_addr (image slot_a_addr)
      (idle_flash blank) (bootloader_addr + 4) (omega arith) (omega arith) (omega arith)

erases_slot : (flash_erase_page controller slot_a_addr (idle_flash (memory_of 3))).0 ≡ flash_ok
unfolding flash_is_erased flash_erase_page flash_unlock flash_lock flash_clear_errors
    flash_check_errors flash_wait_busy wait_busy clear_per erase_sequence address_in_flash
    address_is_bootloader
erases_slot = refl

writes_slot :
    (flash_write controller slot_a_addr (image slot_a_addr) (idle_flash blank)).0 ≡ flash_ok
unfolding flash_write flash_unlock flash_lock flash_clear_errors flash_check_errors flash_wait_busy
    wait_busy set_pg program program_dword reads_back address_in_flash address_is_bootloader
    word32_at
writes_slot = refl
