-- ===== src/Boot/Console.antt =====
-- What bootloader/main.c writes to its console up to its decision, as the codes of the characters, oldest
-- first. What it writes while it listens and jumps is in `update_banner` and `jump_banner`.
use bootloader_ota.Base.{
  ℕ, suc, ◌+◌, ◌/◌, ◌%◌, ◌^◌, ◌<◌, ◌≡◌, ◌==◌, ◌∙◌, sym, refl, arith, leb, ltb, ap, if◌then◌else◌,
  Bool, true, false, ◌&&◌, ◌||◌, not, Option, none, some, List, [], ◌∷◌, ◌++◌, u8,
}
use bootloader_ota.Layout.{slot_addr, other_slot, max_boot_failures, bootloader_version}
use bootloader_ota.Crc.{CrcUnit}
use bootloader_ota.Flash.{Flash, Controller}
use bootloader_ota.Flash.Frame.{IsController}
use bootloader_ota.Flash.Working.{IsWorking}
use bootloader_ota.Metadata.{
  Metadata, slot, state_empty, state_in_progress, state_testing, state_valid,
}
use bootloader_ota.Store.{is_meta_ok, metadata_read, metadata_write}
use bootloader_ota.Fault.{codes}
use bootloader_ota.Uart.Format.{uart_hex32, uart_hex8, uart_dec}
use bootloader_ota.Boot.{
  decide, image_is_intact, slot_looks_bootable, rolled_back, attempted, ota_wait_ms,
}
use bootloader_ota.Boot.Strikes.{IsOnTrial, strike}

unfoldable pub log_state : ℕ → List ℕ
log_state s =
    if s == state_empty
    then codes "EMPTY"
    else if s == state_in_progress
    then codes "IN_PROGRESS"
    else if s == state_testing
    then codes "TESTING"
    else if s == state_valid
    then codes "VALID"
    else uart_hex8 s

abbrev pub slot_letter : ℕ → ℕ
slot_letter s = b'A' + s

unfoldable pub start_banner : Bool → Bool → List ℕ
start_banner by_watchdog ota_request =
    codes "\r\n\r\n========================================\r\n  BOOTLOADER v"
    ++ uart_dec (bootloader_version / 2 ^ 16 % 256)
    ++ codes "."
    ++ uart_dec (bootloader_version / 2 ^ 8 % 256)
    ++ codes "."
    ++ uart_dec (bootloader_version % 256)
    ++ codes "\r\n========================================\r\n"
    ++ (if by_watchdog then codes "Reset caused by the watchdog\r\n" else [])
    ++ (if ota_request
        then codes "OTA request accepted, listening for "
          ++ uart_dec (ota_wait_ms / 1000)
          ++ codes " s\r\n"
        else [])

-- The record, and its other slot.
unfoldable pub log_record : Metadata → List ℕ
log_record meta =
    let active = meta.active_slot in
    let other = other_slot active in
    codes "Active slot : "
    ++ slot_letter active ∷ codes "\r\nState       : "
    ++ log_state (slot meta active).state
    ++ codes "\r\nSize        : "
    ++ uart_dec (slot meta active).size
    ++ codes " bytes\r\nVersion     : "
    ++ uart_hex32 (slot meta active).version
    ++ codes "\r\nBoot fails  : "
    ++ uart_dec meta.boot_fail_count
    ++ codes "\r\nFallback    : slot "
    ++ slot_letter other ∷ codes ", "
    ++ log_state (slot meta other).state
    ++ codes ", "
    ++ uart_dec (slot meta other).size
    ++ codes " bytes\r\n\r\n"

unfoldable pub update_banner : ℕ → List ℕ
update_banner limit_ms =
    codes "Update mode"
    ++ (if ltb 0 limit_ms then codes " (" ++ uart_dec limit_ms ++ codes " ms)" else [])
    ++ codes "\r\n"

unfoldable pub jump_banner : ℕ → List ℕ
jump_banner base = codes "\r\nJumping to " ++ uart_hex32 base ++ codes "\r\n\r\n"

module _ (unit : CrcUnit) (hw : Controller) where
  unfoldable pub log_roll_back : Metadata → Flash → List ℕ
  log_roll_back meta flash =
      let other = other_slot meta.active_slot in
      let written = metadata_write unit hw (rolled_back meta) flash in
      codes "Failure threshold reached, rolling back\r\n"
      ++ (if (slot meta other).state == state_empty
            || not (image_is_intact unit flash.mem meta other)
          then codes "No usable fallback image\r\n"
          else if is_meta_ok (written.0) && slot_looks_bootable (written.1.mem) (slot_addr other)
          then codes "Falling back to slot " ++ slot_letter other ∷ codes "\r\n"
          else codes "No usable fallback image\r\n")

  -- What the `switch` writes before it listens or jumps; the record that it announces is not read back.
  unfoldable pub log_decision : Metadata → Flash → List ℕ
  log_decision meta flash =
      let active = meta.active_slot in
      let st = (slot meta active).state in
      let intact = image_is_intact unit flash.mem meta active in
      if st == state_valid
      then (if intact then [] else codes "Image invalid despite VALID state\r\n")
      else if st == state_testing
      then (if leb max_boot_failures meta.boot_fail_count
          then log_roll_back meta flash
          else if intact
          then codes "Attempt "
            ++ uart_dec (attempted meta).boot_fail_count
            ++ codes "/"
            ++ uart_dec max_boot_failures
            ++ codes "\r\n"
          else codes "Image under test is invalid\r\n")
      else if st == state_in_progress
      then codes "Interrupted transfer detected\r\n"
      else codes "No firmware installed\r\n"

  unfoldable pub log_boot : Option Metadata → Flash → List ℕ
  log_boot none flash = codes "No valid metadata\r\n"
  log_boot (some meta) flash = log_record meta ++ log_decision meta flash

  log_decision-attempt :
      (meta : Metadata) (flash : Flash)
      → (slot meta meta.active_slot).state ≡ state_testing
      → meta.boot_fail_count < max_boot_failures
      → image_is_intact unit flash.mem meta meta.active_slot ≡ true
      → log_decision meta flash
        ≡ codes "Attempt "
          ++ uart_dec (meta.boot_fail_count + 1)
          ++ codes "/"
          ++ uart_dec max_boot_failures
          ++ codes "\r\n"
  unfolding log_decision
  log_decision-attempt meta flash testing few intact =
      let low : leb max_boot_failures meta.boot_fail_count ≡ false = ground arith in
      let next : u8 (meta.boot_fail_count + 1) ≡ meta.boot_fail_count + 1 = omega (arith, few) in
      rw (testing, low, intact, next) refl

  -- With a working controller, the boot of an image on trial announces the attempt by its number out of the threshold, and
  -- the record that the next boot reads counts just this number of boots without a confirmation.
  pub attempt_announced :
      IsController hw
      → IsWorking hw
      → (n : ℕ) (meta : Metadata) (flash : Flash) → IsOnTrial unit (suc n) meta flash
      → let after = (decide unit hw (metadata_read unit flash.mem) flash).1 in
        (new : Metadata) × (metadata_read unit after.mem ≡ some new)
        × (new.boot_fail_count ≡ meta.boot_fail_count + 1)
        × (log_decision meta flash
            ≡ codes "Attempt "
              ++ uart_dec new.boot_fail_count
              ++ codes "/"
              ++ uart_dec max_boot_failures
              ++ codes "\r\n")
  attempt_announced laws works n meta flash t =
      let (new, plan, same, trial) = strike unit hw laws works n meta flash t in
      let counted : new.boot_fail_count ≡ meta.boot_fail_count + 1 =
        omega (arith, t.left, trial.left) in
      let text = log_decision-attempt meta flash t.testing (omega (arith, t.left)) t.intact in
      (
        new,
        trial.read,
        counted,
        text
            ∙ ap
                (λ k.
                  codes "Attempt "
                  ++ uart_dec k
                  ++ codes "/"
                  ++ uart_dec max_boot_failures
                  ++ codes "\r\n")
                (sym counted),
      )
