-- ===== src/Examples/Boots.antt =====
-- The theorems on the boot decision and on the listen window, at concrete states.
use bootloader_ota.Base.{
  ℕ, ◌<◌, ◌≡◌, ◌≢◌, refl, arith, inl, true, false, some, none, [], ◌∷◌, bytes_at, word32_at,
}
use bootloader_ota.Layout.{slot_a_addr, slot_b_addr, slot_addr}
use bootloader_ota.Crc.{crc32_compute}
use bootloader_ota.Flash.{
  Flash, flash_is_erased, flash_erase_page, flash_write, flash_unlock, flash_lock,
  flash_clear_errors, flash_check_errors, flash_wait_busy, wait_busy, set_pg, clear_per,
  erase_sequence, program, program_dword, reads_back, address_in_flash, address_is_bootloader,
}
use bootloader_ota.Metadata.{
  Metadata, slot, state_empty, encode, encode_covered, encode_slot, decode, decode_slot,
}
use bootloader_ota.Store.{
  meta_ok, carried_slot, load_page, metadata_read, metadata_write, metadata_is_valid, select_target,
  sealed, unsealed,
}
use bootloader_ota.Store.Committed.{CounterBelow}
use bootloader_ota.Uart.{uart_getc}
use bootloader_ota.Boot.{
  Turn, listens, returns, listen_then_jump, jump_now, slot_looks_bootable, image_is_intact, decide,
  try_image, rolled_back, update_loop,
}
use bootloader_ota.Boot.Decision.{decide_runs_intact}
use bootloader_ota.Boot.Trial.{rollback_switches}
use bootloader_ota.Boot.Window.{silent_returns}
use bootloader_ota.Examples.Board.{crc_unit, controller, controller-IsController, fits, idle_flash}
use bootloader_ota.Examples.Boards.{
  trial, images, memory_of, memory_of-IsBytes, first_page-CounterBelow, listening,
}
use bootloader_ota.Examples.Storage.{reads_trial, trial-IsBytes, trial-CounterBelow}

abbrev flash_of : ℕ → Flash
flash_of n = idle_flash (memory_of n)

pub fallback_intact : image_is_intact crc_unit (memory_of 3) (trial 3) 0 ≡ true
unfolding image_is_intact slot_looks_bootable bytes_at word32_at crc32_compute sealed unsealed
    encode encode_covered encode_slot
fallback_intact = refl

writes_rollback :
    (metadata_write crc_unit controller (rolled_back (trial 3)) (flash_of 3)).0 ≡ meta_ok
unfolding metadata_write select_target metadata_read load_page sealed unsealed crc32_compute encode
    encode_covered decode metadata_is_valid bytes_at encode_slot decode_slot word32_at
    flash_is_erased flash_erase_page flash_write flash_unlock flash_lock flash_clear_errors
    flash_check_errors flash_wait_busy wait_busy set_pg clear_per erase_sequence program
    program_dword reads_back address_in_flash address_is_bootloader
writes_rollback = refl

rollback_switches_example :
    let (plan, after) = decide crc_unit controller (some (trial 3)) (flash_of 3) in
    (new : Metadata) × (plan ≡ jump_now slot_a_addr)
    × (metadata_read crc_unit after.mem ≡ some new)
    × (new.active_slot ≡ 0)
    × (new.boot_fail_count ≡ 0)
    × (slot new 0 ≡ carried_slot (slot (trial 3) 0))
    × (slot new 1 ≡ record (carried_slot (slot (trial 3) 1)) { state = state_empty })
unfolding sealed unsealed
rollback_switches_example =
    rollback_switches crc_unit controller controller-IsController (trial 3) (flash_of 3)
      trial-IsBytes trial-CounterBelow reads_trial refl (omega arith) (omega arith) fallback_intact
      writes_rollback

pub reads_retry : metadata_read crc_unit (memory_of 1) ≡ some (trial 1)
unfolding metadata_read load_page sealed unsealed crc32_compute encode encode_covered decode
    metadata_is_valid bytes_at encode_slot decode_slot word32_at
reads_retry = refl

pub retry-IsBytes : (a : ℕ) → memory_of 1 a < 256
unfolding fits sealed unsealed crc32_compute encode encode_covered encode_slot
retry-IsBytes = memory_of-IsBytes 1 refl

retry-CounterBelow : CounterBelow crc_unit (memory_of 1)
unfolding load_page sealed unsealed crc32_compute encode encode_covered decode metadata_is_valid
    bytes_at encode_slot decode_slot word32_at
retry-CounterBelow = first_page-CounterBelow (memory_of 1) (omega arith) refl

pub trial_intact : image_is_intact crc_unit (memory_of 1) (trial 1) 1 ≡ true
unfolding image_is_intact slot_looks_bootable bytes_at word32_at crc32_compute sealed unsealed
    encode encode_covered encode_slot
trial_intact = refl

runs_trial :
    (decide crc_unit controller (some (trial 1)) (flash_of 1)).0 ≡ listen_then_jump slot_b_addr
unfolding decide try_image image_is_intact slot_looks_bootable bytes_at word32_at crc32_compute
    sealed unsealed encode encode_covered encode_slot
runs_trial = refl

decide_runs_intact_example :
    (s : ℕ) × (slot_b_addr ≡ slot_addr s)
    × (image_is_intact crc_unit
          (decide crc_unit controller (some (trial 1)) (flash_of 1)).1.mem
          (trial 1)
          s
        ≡ true)
    × ((slot (trial 1) s).state ≢ state_empty)
decide_runs_intact_example =
    decide_runs_intact crc_unit controller controller-IsController (trial 1) (flash_of 1)
      slot_b_addr (inl runs_trial)

-- The fallback's bytes are gone.
blank_refused : image_is_intact crc_unit (λ a. 0xff) (trial 3) 0 ≡ false
unfolding image_is_intact slot_looks_bootable bytes_at word32_at sealed unsealed
blank_refused = refl

abbrev silence : ℕ → Turn
silence t = record { interrupts = []; now = t }

nothing_received : uart_getc (listening images).uart ≡ (none, (listening images).uart)
unfolding uart_getc
nothing_received = refl

silent_returns_example :
    (update_loop crc_unit controller 2000 0 (silence 1000 ∷ []) (listening images)
      ≡ (listens, listening images))
    × (update_loop crc_unit controller 2000 0 (silence 1000 ∷ silence 2001 ∷ []) (listening images)
        ≡ (returns, listening images))
silent_returns_example =
    silent_returns crc_unit controller 2000 0 (silence 1000 ∷ []) (silence 2001) []
      (listening images) (omega arith) nothing_received refl (refl, tt) (omega arith, tt) refl
      (omega arith)
