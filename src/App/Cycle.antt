-- ===== src/App/Cycle.antt =====
-- What a pass of the main loop owes the watchdog and the record.
use bootloader_ota.Base.{ℕ, ◌+◌, ◌<◌, ◌≡◌, ◌≢◌, arith, true, false}
use bootloader_ota.Crc.{CrcUnit}
use bootloader_ota.Flash.{Controller}
use bootloader_ota.App.{
  Pass, AppState, continues, work_of, report_left, ota_trigger_poll, app_pass,
  cycles_before_confirmation,
}

module _ (unit : CrcUnit) (hw : Controller) where
  -- A pass that refreshes the watchdog has seen the LED change, the report leave the UART within the
  -- budget, and the link's UART enabled, and no request was confirmed in it.
  pub refresh_has_evidence :
      (vtor : ℕ) (p : Pass) (a : AppState)
      → (app_pass unit hw vtor p a).0 ≡ continues true
      → (p.led_after ≢ p.led_before)
        × (report_left 50000 p.tc_samples ≡ true)
        × (p.link_enabled ≡ true)
        × ((ota_trigger_poll p.received a.streak).0 ≡ false)
  unfolding app_pass work_of
  refresh_has_evidence vtor p a fed = ground arith

  -- Before its third cycle the application leaves the flash, and so the record, alone.
  pub no_early_confirmation :
      (vtor : ℕ) (p : Pass) (a : AppState)
      → a.cycle + 1 < cycles_before_confirmation
      → (app_pass unit hw vtor p a).1.flash ≡ a.flash
  unfolding app_pass
  no_early_confirmation vtor p a early = ground arith
