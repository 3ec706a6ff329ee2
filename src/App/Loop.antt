-- ===== src/App/Loop.antt =====
-- The main loop of app/main.c over its receiver, up to the reset that asks the bootloader for an
-- update, and the boot that finds the request.
use bootloader_ota.Base.{
  ℕ, suc, ◌<◌, ◌≡◌, refl, ap, arith, ◌==◌, if◌then◌else◌, Bool, true, false, some, List, [], ◌∷◌,
  length,
}
use bootloader_ota.Layout.{slot_addr}
use bootloader_ota.Crc.{CrcUnit}
use bootloader_ota.Flash.{Controller}
use bootloader_ota.Metadata.{Metadata, state_valid, slot}
use bootloader_ota.Store.{metadata_read}
use bootloader_ota.App.{
  Pass, AppState, resets, continues, app_pass, work_of, work_all, ota_trigger_poll,
  ota_confirm_polls,
}
use bootloader_ota.App.Link.{
  Receiver, IsReceiving, link_drain, poll_link, line_held, request_taken, held_line_taken,
}
use bootloader_ota.Protocol.State.{Machine}
use bootloader_ota.Boot.Served.{ready_of, boot-valid}
use bootloader_ota.Boot.{
  Turn, boot, update_loop, after_window, ota_wait_ms, boot_request_set, boot_request_pending,
  boot_request_magic, image_is_intact,
}

-- A pass of the loop: what it observes, its received bytes left open, and the line before it.
pub record Round (Port : Type 0) : Type 0 where
  pub seen : Pass
  pub line : Port → Port

-- What the loop leaves to the bootloader: the flash in its state, and the flag word in RAM.
pub record AppEnd : Type 0 where
  pub has_reset : Bool
  pub state : AppState
  pub request : ℕ

-- Passes with one trigger byte, and as many more as are given, on the line before each.
abbrev pub held_rounds : {Port : Type 0} → Receiver Port → List (Pass × ℕ) → List (Round Port)
held_rounds usart [] = []
held_rounds usart (r ∷ rs) =
    record { seen = r.0; line = line_held usart (suc (r.1)) } ∷ held_rounds usart rs

counts : List (Pass × ℕ) → List ℕ
counts [] = []
counts (r ∷ rs) = r.1 ∷ counts rs

counts-length : (rounds : List (Pass × ℕ)) → length (counts rounds) ≡ length rounds
unfolding counts
counts-length [] = refl
counts-length (r ∷ rounds) = ap suc (counts-length rounds)

module _ (unit : CrcUnit) (hw : Controller) {Port : Type 0} (usart : Receiver Port) where
  unfoldable pub app_loop : ℕ → List (Round Port) → AppState → Port → ℕ → AppEnd
  app_loop vtor [] a p word = record { has_reset = false; state = a; request = word }
  app_loop vtor (round ∷ rounds) a p word =
      let heard = link_drain usart 16 (round.line p) in
      let passed = app_pass unit hw vtor (record round.seen { received = heard.0 }) a in
      let later = app_loop vtor rounds (passed.1) (heard.1) word in
      elim (passed.0) [
        | resets ↦ record { has_reset = true; state = passed.1; request = boot_request_set word }
        | continues fed ↦ later
      ]

  pass-fires :
      (vtor : ℕ) (p : Pass) (a : AppState)
      → (ota_trigger_poll p.received a.streak).0 ≡ true
      → (app_pass unit hw vtor p a).0 ≡ resets
  unfolding app_pass
  pass-fires vtor p a fires = ground arith

  pass-waits :
      (vtor : ℕ) (p : Pass) (a : AppState)
      → (ota_trigger_poll p.received a.streak).0 ≡ false
      → ((app_pass unit hw vtor p a).0 ≡ continues (work_of p == work_all))
        × ((app_pass unit hw vtor p a).1.streak ≡ (ota_trigger_poll p.received a.streak).1)
  unfolding app_pass
  pass-waits vtor p a waits = ground arith

  taken_later :
      (fires later : Bool) → fires ≡ false → (if fires then true else later) ≡ true → later ≡ true
  taken_later fires later waits taken = ground arith

  loop-taken :
      (vtor : ℕ) (rounds : List (Pass × ℕ)) (a : AppState) (p : Port) (word : ℕ)
      → request_taken usart (counts rounds) a.streak p ≡ true
      → (app_loop vtor (held_rounds usart rounds) a p word).has_reset ≡ true
        × (app_loop vtor (held_rounds usart rounds) a p word).request ≡ boot_request_magic
  unfolding request_taken poll_link boot_request_set counts app_loop
  loop-taken vtor [] a p word taken = absurd (ground arith)
  loop-taken vtor (r ∷ rounds) a p word taken =
      let heard = link_drain usart 16 (line_held usart (suc (r.1)) p) in
      let seen = record (r.0) { received = heard.0 } in
      elim ((ota_trigger_poll (heard.0) a.streak).0)
          as (λ fires.
            (ota_trigger_poll (heard.0) a.streak).0 ≡ fires
            → (app_loop vtor (held_rounds usart (r ∷ rounds)) a p word).has_reset ≡ true
              × (app_loop vtor (held_rounds usart (r ∷ rounds)) a p word).request
                ≡ boot_request_magic) [
                  | true ↦ (λ fires. rw (app_loop, pass-fires vtor seen a fires) (refl, refl))
                  | false ↦ (λ waits.
                      let (goes_on, streak) = pass-waits vtor seen a waits in
                      let next = (app_pass unit hw vtor seen a).1 in
                      let polled = ota_trigger_poll (heard.0) a.streak in
                      let still =
                        taken_later (polled.0)
                          (request_taken usart (counts rounds) (polled.1) (heard.1)) waits taken in
                      rw (app_loop, goes_on)
                        (loop-taken vtor rounds next (heard.1) word (rw streak still)))
                ]
        refl

module _ (unit : CrcUnit) (hw : Controller) where
  -- On a receiver with the documented flags, a host that puts at least one trigger byte on the line before
  -- each of more than four passes of the application's loop makes it reset with the boot request set, whatever
  -- the receiver and the streak held and however many more of these bytes are lost. The next boot of a board
  -- whose active image is VALID and intact listens under the long limit before it jumps, and leaves no
  -- request pending.
  pub held_line_opens_window :
      {Port : Type 0} (usart : Receiver Port) (vtor : ℕ) (rounds : List (Pass × ℕ)) (a : AppState)
      (p : Port) (word start : ℕ) (turns : List Turn) (m : Machine) (meta : Metadata)
      → IsReceiving usart
      → ota_confirm_polls < length rounds
      → metadata_read unit m.flash.mem ≡ some meta
      → (slot meta meta.active_slot).state ≡ state_valid
      → image_is_intact unit m.flash.mem meta meta.active_slot ≡ true
      → let ended = app_loop unit hw usart vtor (held_rounds usart rounds) a p word in
        let (end, after) = update_loop unit hw ota_wait_ms start turns (ready_of m) in
        let booted = boot unit hw ended.request start turns m in
        (ended.has_reset ≡ true)
        × (booted.outcome ≡ after_window (slot_addr meta.active_slot) end)
        × (booted.machine ≡ after)
        × (boot_request_pending booted.request ≡ false)
  unfolding boot_request_pending
  held_line_opens_window usart vtor rounds a p word start turns m meta laws many e valid intact =
      let taken =
        held_line_taken usart laws (counts rounds) a.streak p (rw (counts-length rounds) many) in
      let (resets_now, request) = loop-taken unit hw usart vtor rounds a p word taken in
      let (outcome, machine, left) =
        boot-valid unit hw boot_request_magic start turns m meta e valid intact in
      (resets_now, rw request outcome, rw request machine, rw (request, left) refl)
