-- ===== src/Examples/Apps.antt =====
-- The theorems on the application and on the watchdog, at concrete states.
use bootloader_ota.Base.{
  ℕ, ◌+◌, ◌*◌, ◌<◌, ◌≤◌, ◌≡◌, ◌≢◌, refl, arith, true, false, some, List, [], ◌∷◌, bytes_at,
  word32_at,
}
use bootloader_ota.Layout.{slot_b_addr}
use bootloader_ota.Crc.{crc32_compute}
use bootloader_ota.Flash.{
  flash_is_erased, flash_erase_page, flash_write, flash_unlock, flash_lock, flash_clear_errors,
  flash_check_errors, flash_wait_busy, wait_busy, set_pg, clear_per, erase_sequence, program,
  program_dword, reads_back, address_in_flash, address_is_bootloader,
}
use bootloader_ota.Metadata.{
  Metadata, slot, state_valid, encode, encode_covered, encode_slot, decode, decode_slot,
}
use bootloader_ota.Store.{
  carried_slot, load_page, metadata_read, metadata_write, metadata_is_valid, select_target, sealed,
  unsealed,
}
use bootloader_ota.App.{
  Pass, AppState, confirmed, continues, current_slot, confirm_startup, ota_trigger_poll,
  trigger_drain, report_left, work_of, app_pass,
}
use bootloader_ota.App.Confirm.{confirm_startup-read}
use bootloader_ota.App.Trigger.{polled, asked, trigger_needs_four}
use bootloader_ota.App.Cycle.{refresh_has_evidence}
use bootloader_ota.Iwdg.{prescaler_value, search_prescaler, search-timeout}
use bootloader_ota.Examples.Board.{crc_unit, controller, controller-IsController, idle_flash}
use bootloader_ota.Examples.Boards.{trial, memory_of}
use bootloader_ota.Examples.Storage.{reads_trial, trial-IsBytes, trial-CounterBelow}

confirms :
    (confirm_startup crc_unit controller slot_b_addr (idle_flash (memory_of 3))).0 ≡ confirmed
unfolding confirm_startup current_slot metadata_write select_target metadata_read load_page sealed
    unsealed crc32_compute encode encode_covered decode metadata_is_valid bytes_at encode_slot
    decode_slot word32_at flash_is_erased flash_erase_page flash_write flash_unlock flash_lock
    flash_clear_errors flash_check_errors flash_wait_busy wait_busy set_pg clear_per erase_sequence
    program program_dword reads_back address_in_flash address_is_bootloader
confirms = refl

confirm_startup-read_example :
    (new : Metadata) × (metadata_read crc_unit
        (confirm_startup crc_unit controller slot_b_addr (idle_flash (memory_of 3))).1.mem
      ≡ some new)
    × (new.active_slot ≡ 1)
    × (new.boot_fail_count ≡ 0)
    × (slot new 1 ≡ record (carried_slot (slot (trial 3) 1)) { state = state_valid })
    × (slot new 0 ≡ carried_slot (slot (trial 3) 0))
unfolding current_slot sealed unsealed
confirm_startup-read_example =
    confirm_startup-read crc_unit controller controller-IsController slot_b_addr
      (idle_flash (memory_of 3)) (trial 3) trial-IsBytes trial-CounterBelow reads_trial confirms

-- The line is held down for four polls, after one that saw nothing.
abbrev held : List (List ℕ)
held = (85 ∷ []) ∷ (85 ∷ 85 ∷ []) ∷ (85 ∷ []) ∷ (85 ∷ []) ∷ [] ∷ []

held_fires : (polled held).0 ≡ true
unfolding polled ota_trigger_poll trigger_drain
held_fires = refl

trigger_needs_four_example : asked 4 held ≡ true
trigger_needs_four_example = trigger_needs_four held held_fires

abbrev healthy : Pass
healthy = record {
  led_before = 0;
  led_after = 1;
  tc_samples = false ∷ true ∷ [];
  received = [];
  link_enabled = true;
}

abbrev fresh : AppState
fresh = record { cycle = 0; is_confirmed = false; streak = 0; flash = idle_flash (memory_of 3) }

refreshes : (app_pass crc_unit controller slot_b_addr healthy fresh).0 ≡ continues true
unfolding app_pass work_of report_left ota_trigger_poll trigger_drain
refreshes = refl

refresh_has_evidence_example :
    (healthy.led_after ≢ healthy.led_before)
    × (report_left 50000 healthy.tc_samples ≡ true)
    × (healthy.link_enabled ≡ true)
    × ((ota_trigger_poll healthy.received fresh.streak).0 ≡ false)
refresh_has_evidence_example =
    refresh_has_evidence crc_unit controller slot_b_addr healthy fresh refreshes

search-timeout_example :
    (((search_prescaler 7 0 3000).1 + 1) * prescaler_value (search_prescaler 7 0 3000).0
      ≤ 3000 * 32)
    × (3000 * 32
        < ((search_prescaler 7 0 3000).1 + 2) * prescaler_value (search_prescaler 7 0 3000).0)
search-timeout_example = search-timeout 3000 (omega arith) (omega arith)
