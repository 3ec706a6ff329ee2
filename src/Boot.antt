-- ===== src/Boot.antt =====
-- bootloader/main.c: the image checks, the update mode and the boot decision. Console output, the
-- clocks and the register clean-up before a jump are left out: they decide nothing.
pub mod Decision
pub mod Trial
pub mod Strikes
pub mod Jump
pub mod Installed
pub mod Console
pub mod Deliver
pub mod Pieces
pub mod Served
pub mod Updated
pub mod Rejected
pub mod Confirms
pub mod Accepted
pub mod Window
use Prim.Native.Nat.{bit_and}
use bootloader_ota.Base.{
  ℕ, ◌+◌, ◌-◌, ◌^◌, ◌==◌, ◌!=◌, ltb, leb, if◌then◌else◌, Bool, true, false, ◌&&◌, ◌||◌, not, Option,
  none, some, List, [], ◌∷◌, Memory, bytes_at, word32_at, u8, u32,
}
use bootloader_ota.Layout.{
  flash_base_addr, flash_total_size, slot_addr, other_slot, slot_size, max_boot_failures,
}
use bootloader_ota.Crc.{CrcUnit, crc32_compute}
use bootloader_ota.Flash.{Flash, Controller}
use bootloader_ota.Metadata.{
  SlotInfo, Metadata, state_empty, state_in_progress, state_testing, state_valid, slot, set_slot,
}
use bootloader_ota.Store.{MetaStatus, is_meta_ok, metadata_read, metadata_write}
use bootloader_ota.Uart.{Isr, uart_isr}
use bootloader_ota.Protocol.State.{
  Machine, is_idle, protocol_init, protocol_get_state, protocol_update_complete,
}
use bootloader_ota.Protocol.Receive.{protocol_poll}

abbrev pub boot_wait_ms : ℕ
boot_wait_ms = 2000

abbrev pub ota_wait_ms : ℕ
ota_wait_ms = 30000

-- shared/boot_request.h: the flag word in RAM.
abbrev pub boot_request_magic : ℕ
boot_request_magic = 0xdeadbeef

unfoldable pub boot_request_set : ℕ → ℕ
boot_request_set word = boot_request_magic

unfoldable pub boot_request_pending : ℕ → Bool
boot_request_pending word = word == boot_request_magic

unfoldable pub boot_request_clear : ℕ → ℕ
boot_request_clear word = 0

-- The stack pointer in RAM, the reset handler in flash with the Thumb bit.
unfoldable pub slot_looks_bootable : Memory → ℕ → Bool
slot_looks_bootable mem base =
    let vectors = bytes_at mem base 8 in
    let sp = word32_at vectors 0 in
    let reset = word32_at vectors 4 in
    if bit_and sp 0xfff00000 != 0x20000000
    then false
    else if ltb reset flash_base_addr || leb (flash_base_addr + flash_total_size) reset
    then false
    else if bit_and reset 1 == 0
    then false
    else true

unfoldable pub image_is_intact : CrcUnit → Memory → Metadata → ℕ → Bool
image_is_intact unit mem meta s =
    let info = slot meta s in
    if (info.size == 0) || ltb slot_size info.size
    then false
    else if not (slot_looks_bootable mem (slot_addr s))
    then false
    else crc32_compute unit (bytes_at mem (slot_addr s) info.size) == info.crc32

-- One turn of the update loop: the interrupts since the last, and the time that it reads.
pub record Turn : Type 0 where
  pub interrupts : List (Isr × ℕ)
  pub now : ℕ

-- How `update_mode` ends: by a reset, by a return, or not within the turns that are given.
pub data UpdateEnd : Type 0 where
  restarts returns listens : UpdateEnd

unfoldable pub serve_interrupts : List (Isr × ℕ) → Machine → Machine
serve_interrupts [] m = m
serve_interrupts ((status, rdr) ∷ rest) m =
    serve_interrupts rest (record m { uart = (uart_isr status rdr m.uart).0 })

-- The record of a rollback: the rejected slot's state, the active slot and the count change.
abbrev pub rolled_back : Metadata → Metadata
rolled_back meta =
    let rejected =
      set_slot meta meta.active_slot
        (record (slot meta meta.active_slot) { state = state_empty }) in
    record rejected { active_slot = other_slot meta.active_slot; boot_fail_count = 0 }

-- The record of one more boot without confirmation.
abbrev pub attempted : Metadata → Metadata
attempted meta = record meta { boot_fail_count = u8 (meta.boot_fail_count + 1) }

-- What main has settled before it listens: where a jump goes, and whether it listens first.
-- `wait_forever` is `update_mode(0)`.
pub data Plan : Type 0 where
  listen_then_jump jump_now : ℕ → Plan
  wait_forever : Plan

module _ (unit : CrcUnit) (hw : Controller) where
  -- The loop of `update_mode`, entered at `start`. A limit of 0 is none.
  unfoldable pub update_loop : ℕ → ℕ → List Turn → Machine → UpdateEnd × Machine
  update_loop limit_ms start [] m = (listens, m)
  update_loop limit_ms start (turn ∷ turns) m =
      let polled = protocol_poll unit hw turn.now (serve_interrupts turn.interrupts m) in
      let rest = update_loop limit_ms start turns polled in
      if protocol_update_complete polled
      then (restarts, polled)
      else if ltb 0 limit_ms
          && is_idle (protocol_get_state polled)
          && ltb limit_ms (u32 (turn.now + 2 ^ 32 - start))
      then (returns, polled)
      else rest

  -- The branch past the failure threshold.
  unfoldable pub roll_back : Metadata → Flash → Plan × Flash
  roll_back meta flash =
      let active = meta.active_slot in
      let other = other_slot active in
      if (slot meta other).state == state_empty || not (image_is_intact unit flash.mem meta other)
      then (wait_forever, flash)
      else (let written = metadata_write unit hw (rolled_back meta) flash in
          if is_meta_ok (written.0) && slot_looks_bootable (written.1.mem) (slot_addr other)
          then (jump_now (slot_addr other), written.1)
          else (wait_forever, written.1))

  -- The image under test below the threshold. The write's status is not looked at.
  unfoldable pub try_image : Metadata → Flash → Plan × Flash
  try_image meta flash =
      let active = meta.active_slot in
      if image_is_intact unit flash.mem meta active
      then (let written = metadata_write unit hw (attempted meta) flash in
          (listen_then_jump (slot_addr active), written.1))
      else (wait_forever, flash)

  -- From `metadata_read` to the end of the `switch`.
  unfoldable pub decide : Option Metadata → Flash → Plan × Flash
  decide none flash = (wait_forever, flash)
  decide (some meta) flash =
      let active = meta.active_slot in
      let st = (slot meta active).state in
      if st == state_valid
      then (if image_is_intact unit flash.mem meta active
          then (listen_then_jump (slot_addr active), flash)
          else (wait_forever, flash))
      else if st == state_testing
      then (if leb max_boot_failures meta.boot_fail_count
          then roll_back meta flash
          else try_image meta flash)
      else (wait_forever, flash)

-- What a boot comes to.
pub data Outcome : Type 0 where
  jumped : ℕ → Outcome
  restarted : Outcome
  listening : Outcome

pub record Booted : Type 0 where
  pub outcome : Outcome
  pub machine : Machine
  pub request : ℕ

abbrev pub after_window : ℕ → UpdateEnd → Outcome
after_window base restarts = restarted
after_window base returns = jumped base
after_window base listens = listening

abbrev forever : UpdateEnd → Outcome
forever restarts = restarted
forever _ = listening

module _ (unit : CrcUnit) (hw : Controller) where
  -- The rest of `main`, behind its decision.
  unfoldable pub carry_out : ℕ → ℕ → List Turn → Machine → Plan × Flash → Booted
  carry_out request start turns m (plan, flash) =
      let initial = protocol_init m in
      let pending = boot_request_pending request in
      let listen_ms = if pending then ota_wait_ms else boot_wait_ms in
      let left = if pending then boot_request_clear request else request in
      let ready = record initial { flash = flash } in
      elim plan [
        | listen_then_jump base ↦
            (let heard = update_loop unit hw listen_ms start turns ready in
              record { outcome = after_window base (heard.0); machine = heard.1; request = left })
        | jump_now base ↦ record { outcome = jumped base; machine = ready; request = left }
        | wait_forever ↦
            (let heard = update_loop unit hw 0 start turns ready in
              record { outcome = forever (heard.0); machine = heard.1; request = left })
      ]

  -- `main`, given the flag word, the time at which listening starts and the turns to come.
  unfoldable pub boot : ℕ → ℕ → List Turn → Machine → Booted
  unfolding carry_out
  boot request start turns m =
      carry_out request start turns m (decide unit hw (metadata_read unit m.flash.mem) m.flash)
