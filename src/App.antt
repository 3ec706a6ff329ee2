-- ===== src/App.antt =====
-- app/main.c: the application's confirmation of itself, the trigger that it takes an update request
-- from, and one pass of its main loop. A pass is given what it reads from its peripherals; App/Link
-- and App/Loop say where the trigger's bytes come from. The console output of the loop is left out,
-- except that the message of a confirmation is its result.
pub mod Confirm
pub mod Trigger
pub mod Link
pub mod Loop
pub mod Cycle
pub mod Setup
pub mod Report
use Prim.Native.Nat.{bit_or}
use bootloader_ota.Base.{
  ℕ, zero, suc, ◌+◌, ◌^◌, ◌==◌, ◌!=◌, leb, if◌then◌else◌, Bool, true, false, ◌&&◌, not, Option,
  none, some, List, [], ◌∷◌, u32,
}
use bootloader_ota.Layout.{slot_a, slot_b, slot_b_addr}
use bootloader_ota.Crc.{CrcUnit}
use bootloader_ota.Flash.{Flash, Controller}
use bootloader_ota.Metadata.{Metadata, state_valid, slot, set_slot}
use bootloader_ota.Store.{is_meta_ok, metadata_read, metadata_write}

abbrev pub cycles_before_confirmation : ℕ
cycles_before_confirmation = 3

-- 'U'
abbrev pub ota_trigger_byte : ℕ
ota_trigger_byte = 85

abbrev pub ota_confirm_polls : ℕ
ota_confirm_polls = 4

abbrev pub work_blink : ℕ
work_blink = 1

abbrev pub work_report : ℕ
work_report = 2

abbrev pub work_link : ℕ
work_link = 4

abbrev pub work_all : ℕ
work_all = bit_or (bit_or work_blink work_report) work_link

-- The slot by the vector table's address.
unfoldable pub current_slot : ℕ → ℕ
current_slot vtor = if leb slot_b_addr vtor then slot_b else slot_a

-- The message of `confirm_startup`.
pub data Confirmation : Type 0 where
  unreadable already confirmed write_failed : Confirmation

-- The record that confirms the image of slot `s`.
abbrev pub confirmed_record : ℕ → Metadata → Metadata
confirmed_record s meta = record (set_slot meta s (record (slot meta s) { state = state_valid })) {
  boot_fail_count = 0;
}

-- The loop of `ota_trigger_poll`: whether a byte was seen, and whether none was another.
unfoldable pub trigger_drain : ℕ → List ℕ → Bool → Bool → Bool × Bool
trigger_drain zero bytes seen clean = (seen, clean)
trigger_drain (suc budget) [] seen clean = (seen, clean)
trigger_drain (suc budget) (c ∷ bytes) seen clean =
    trigger_drain budget bytes true (if c != ota_trigger_byte then false else clean)

-- A poll over the bytes that can be read during it; the number is the static `streak`.
unfoldable pub ota_trigger_poll : List ℕ → ℕ → Bool × ℕ
ota_trigger_poll bytes streak =
    let drained = trigger_drain 16 bytes false true in
    let longer = if drained.0 && drained.1 then streak + 1 else 0 in
    if leb ota_confirm_polls longer then (true, 0) else (false, longer)

-- `while (tc_budget-- > 0U)`: whether TC is set at one of the samples within the budget.
unfoldable pub report_left : ℕ → List Bool → Bool
report_left zero samples = false
report_left (suc budget) [] = false
report_left (suc budget) (tc ∷ samples) =
    let rest = report_left budget samples in if tc then true else rest

-- What one pass observes: the LED's output bit before and after it is toggled, the samples of TC,
-- the bytes of the trigger poll, and UE of the protocol link.
pub record Pass : Type 0 where
  pub led_before : ℕ
  pub led_after : ℕ
  pub tc_samples : List Bool
  pub received : List ℕ
  pub link_enabled : Bool

pub record AppState : Type 0 where
  pub cycle : ℕ
  pub is_confirmed : Bool
  pub streak : ℕ
  pub flash : Flash

-- A pass ends in a reset into the bootloader, or with the watchdog refreshed or not.
pub data PassEnd : Type 0 where
  resets : PassEnd
  continues : Bool → PassEnd

-- The evidence that a pass has gathered.
unfoldable pub work_of : Pass → ℕ
work_of p =
    let blinked = if p.led_after != p.led_before then work_blink else 0 in
    let reported = if report_left 50000 p.tc_samples then bit_or blinked work_report else blinked in
    if p.link_enabled then bit_or reported work_link else reported

module _ (unit : CrcUnit) (hw : Controller) where
  unfoldable pub confirm_startup : ℕ → Flash → Confirmation × Flash
  confirm_startup vtor flash =
      let self = current_slot vtor in
      elim (metadata_read unit flash.mem) [
        | none ↦ (unreadable, flash)
        | some meta ↦
            (let written = metadata_write unit hw (confirmed_record self meta) flash in
              if ((slot meta self).state == state_valid) && (meta.boot_fail_count == 0)
              then (already, flash)
              else if is_meta_ok (written.0)
              then (confirmed, written.1)
              else (write_failed, written.1))
      ]

  unfoldable pub app_pass : ℕ → Pass → AppState → PassEnd × AppState
  app_pass vtor p a =
      let cycle = u32 (a.cycle + 1) in
      let polled = ota_trigger_poll p.received a.streak in
      let counted = record a { cycle = cycle; streak = polled.1 } in
      let due = not a.is_confirmed && leb cycles_before_confirmation cycle in
      let confirmed_now = record counted {
        is_confirmed = true;
        flash = (confirm_startup vtor a.flash).1;
      } in
      if polled.0
      then (resets, counted)
      else (continues (work_of p == work_all), if due then confirmed_now else counted)
