-- ===== src/Boot/Served.antt =====
-- The bootloader's main with a host that sends an update in its listen window.
use mathlib.Core.Path.{subst, ap₂}
use mathlib.Core.List.{append_assoc}
use bootloader_ota.Base.{
  ℕ, ◌+◌, u16, ◌^◌, ◌≤◌, ◌<◌, ◌≡◌, ◌∙◌, refl, sym, ap, arith, true, false, if◌then◌else◌, some,
  List, [], ◌∷◌, ◌++◌, length,
}
use bootloader_ota.Layout.{slot_addr, slot_size, other_slot}
use bootloader_ota.Crc.{CrcUnit}
use bootloader_ota.Flash.{Controller}
use bootloader_ota.Flash.Frame.{IsController}
use bootloader_ota.Flash.Working.{IsReady, IsWorking}
use bootloader_ota.Metadata.{Metadata, state_valid, slot}
use bootloader_ota.Metadata.Codec.{IsMetadata}
use bootloader_ota.Store.{carried_slot, metadata_read}
use bootloader_ota.Store.Room.{CounterRoom}
use bootloader_ota.Uart.Ring.{IsRing, waiting}
use bootloader_ota.Protocol.State.{
  Machine, proto_idle, proto_receiving, rx_frame_size, protocol_init, rx_reset,
}
use bootloader_ota.Protocol.Receive.{feed_all}
use bootloader_ota.Protocol.Transfer.{IsTransfer}
use bootloader_ota.Protocol.Session.Line.{Event}
use bootloader_ota.Protocol.Session.Quiet.{AreHarmless, events_bytes, feed_all-append}
use bootloader_ota.Protocol.Session.Sending.{Sending, AreBlocks, joined, data_frames, update_frames}
use bootloader_ota.Protocol.Session.Stream.{IsListening}
use bootloader_ota.Protocol.Session.Ends.{IsInstalled}
use bootloader_ota.Protocol.Session.Complete.{update_installs}
use bootloader_ota.Protocol.Session.Messages.{start_bytes, data_bytes, end_bytes, update-AllBut}
use bootloader_ota.Protocol.Steady.{AllIn, AllBut-part}
use bootloader_ota.Boot.{
  Turn, Booted, decide, carry_out, listen_then_jump, Booted, decide, carry_out, listen_then_jump,
  restarts, restarted, boot_wait_ms, ota_wait_ms, update_loop, boot, image_is_intact, after_window,
  boot_request_pending, boot_request_clear,
}
use bootloader_ota.Boot.Pieces.{AreTurns, AllInTime, bytes_in, brought, loop_restarts}
use bootloader_ota.Boot.Window.{AllWithin}
use bootloader_ota.Boot.Confirms.{decide-valid}

-- The state in which main listens when the active image is VALID and intact.
abbrev pub ready_of : Machine → Machine
ready_of m = record (protocol_init m) { flash = m.flash }

module _ (unit : CrcUnit) (hw : Controller) where
  pub boot-valid :
      (request start : ℕ) (turns : List Turn) (m : Machine) (meta : Metadata)
      → metadata_read unit m.flash.mem ≡ some meta
      → (slot meta meta.active_slot).state ≡ state_valid
      → image_is_intact unit m.flash.mem meta meta.active_slot ≡ true
      → let limit = if boot_request_pending request then ota_wait_ms else boot_wait_ms in
        let (end, after) = update_loop unit hw limit start turns (ready_of m) in
        let booted = boot unit hw request start turns m in
        (booted.outcome ≡ after_window (slot_addr meta.active_slot) end)
        × (booted.machine ≡ after)
        × (booted.request ≡ (if boot_request_pending request then 0 else request))
  unfolding boot carry_out boot_request_clear
  boot-valid request start turns m meta e valid intact =
      let decided : decide unit hw (metadata_read unit m.flash.mem) m.flash
          ≡ (listen_then_jump (slot_addr meta.active_slot), m.flash) =
        ap (λ r. decide unit hw r m.flash) e ∙ decide-valid unit hw meta m.flash valid intact in
      let run = ap (carry_out unit hw request start turns m) decided in
      (
        ap (λ b. Booted.outcome b) run,
        ap (λ b. Booted.machine b) run,
        ap (λ b. Booted.request b) run,
      )

frames-split :
    (unit : CrcUnit) (seq version target : ℕ) (opening : List Event) (blocks : List Sending)
    → start_bytes unit seq version target blocks
        ++ (data_bytes unit seq opening blocks ++ end_bytes unit seq blocks)
      ≡ update_frames unit seq version target opening blocks
frames-split unit seq version target opening blocks =
    let start = start_bytes unit seq version target blocks in
    let events = events_bytes unit seq opening in
    let frames = data_frames unit (u16 (seq + 1)) blocks in
    sym (append_assoc start (events ++ frames) (end_bytes unit seq blocks))
    ∙ ap (λ t. t ++ end_bytes unit seq blocks) (sym (append_assoc start events frames))

module _ (unit : CrcUnit) (hw : Controller) (laws : IsController hw) (works : IsWorking hw) where
  -- The update loop, with whatever limit.
  loop_installs :
      (limit start seq version : ℕ) (opening : List Event) (blocks : List Sending) (m : Machine)
      (old : Metadata) (buf : List ℕ) (before : List Turn) (opens : Turn) (during : List Turn)
      (ends : Turn) (more : List Turn)
      → seq < 2 ^ 16
      → version < 2 ^ 32
      → AreHarmless unit opening
      → AreBlocks unit 0 blocks
      → 0 < length (joined blocks)
      → length (joined blocks) ≤ slot_size
      → IsListening m
      → m.state ≡ proto_idle
      → IsTransfer m
      → IsReady m.flash
      → IsMetadata old
      → metadata_read unit m.flash.mem ≡ some old
      → CounterRoom unit 2 m.flash.mem
      → IsRing buf m.uart
      → waiting buf m.uart ≡ []
      → AreTurns (before ++ (opens ∷ (during ++ (ends ∷ []))))
      → 0 < length (bytes_in opens.interrupts)
      → 0 < length (bytes_in ends.interrupts)
      → AllWithin limit start before
      → AllInTime opens.now during
      → let target = other_slot old.active_slot in
        brought before ++ bytes_in opens.interrupts ≡ start_bytes unit seq version target blocks
        → brought during ++ bytes_in ends.interrupts
          ≡ data_bytes unit seq opening blocks ++ end_bytes unit seq blocks
        → let (end, after) =
            update_loop unit hw limit start (before ++ (opens ∷ (during ++ (ends ∷ more)))) m in
          (end ≡ restarts)
          × IsInstalled unit target
              (joined blocks)
              (carried_slot (slot old old.active_slot))
              after.flash.mem
  loop_installs limit start seq version opening blocks m old buf before opens during ends more small
        ver quiet good pos fits listens resting h rests v e room ring empty turns some_bytes
        some_more within timely sent sent2 =
      let target = other_slot old.active_slot in
      let first = start_bytes unit seq version target blocks in
      let last = data_bytes unit seq opening blocks ++ end_bytes unit seq blocks in
      let (complete, again, installed) =
        update_installs unit hw laws works seq version opening blocks m old small ver quiet good pos
          fits listens h rests v e room in
      let (is_open, idle, receiving) =
        update-AllBut unit hw laws works seq version opening blocks m old small ver quiet good pos
          fits listens resting h rests v e room in
      let opened = feed_all unit hw first m in
      let same = ap (λ bs. feed_all unit hw bs m) sent in
      let ran : feed_all unit hw last opened
          ≡ feed_all unit hw (update_frames unit seq version target opening blocks) m =
        sym (feed_all-append unit hw first last m)
        ∙ ap (λ bs. feed_all unit hw bs m) (frames-split unit seq version target opening blocks) in
      let fed : feed_all unit hw (brought during ++ bytes_in ends.interrupts)
            (feed_all unit hw (brought before ++ bytes_in opens.interrupts) m)
          ≡ feed_all unit hw (update_frames unit seq version target opening blocks) m =
        ap₂ (λ bs n. feed_all unit hw bs n) sent2 same ∙ ran in
      let (u, run) =
        loop_restarts unit hw limit start before opens during ends more buf m ring empty turns
          some_bytes some_more within timely resting
          (AllBut-part unit hw proto_idle (brought before) (bytes_in opens.interrupts) first m sent
            some_bytes idle)
          (ap (λ n. Machine.state n) same ∙ is_open)
          (subst (AllIn unit hw proto_receiving (brought during)) (sym same) (
            AllBut-part unit hw proto_receiving (brought during) (bytes_in ends.interrupts) last
              opened sent2 some_more receiving))
          (ap (λ n. Machine.state n) fed ∙ complete) in
      rw (run, fed) (refl, installed)

  ready-IsListening : (m : Machine) → length m.rx_frame ≡ rx_frame_size → IsListening (ready_of m)
  unfolding protocol_init rx_reset
  ready-IsListening m room = record {
    idle = refl;
    receiver = record { room = room; header = λ e. cc; payload = λ e. cc; trailer = λ e. cc };
  }

  ready-IsTransfer : (m : Machine) → IsTransfer (ready_of m)
  unfolding protocol_init rx_reset
  ready-IsTransfer m = omega arith

  ready-idle : (m : Machine) → (ready_of m).state ≡ proto_idle
  unfolding protocol_init rx_reset
  ready-idle m = refl

  ready-uart : (m : Machine) → (ready_of m).uart ≡ m.uart
  unfolding protocol_init rx_reset
  ready-uart m = refl

  -- On a working controller at rest, a board whose active image is VALID and intact, with room for two
  -- more records and an empty ring, starts, and a host sends an update of an image that fits a slot:
  -- START_UPDATE, DATA frames of good blocks and harmless events, and END_UPDATE. The turns of the listen
  -- window bring these bytes by one interrupt each, in pieces of fewer than 512 bytes of which one ends with
  -- START_UPDATE and one with END_UPDATE, with any number of turns that bring none: the turns before the end of
  -- START_UPDATE are within the limit of the window, and a later turn without a byte is at most the 5 seconds
  -- of the timeout behind the last turn with one. Then main resets the
  -- board, the image lies in the slot that was not active, the next boot reads a record that makes this slot
  -- active and TESTING and keeps the description of the image that ran, and no boot request is pending.
  pub boot_installs :
      (request start seq version : ℕ) (opening : List Event) (blocks : List Sending) (m : Machine)
      (old : Metadata) (buf : List ℕ) (before : List Turn) (opens : Turn) (during : List Turn)
      (ends : Turn) (more : List Turn)
      → seq < 2 ^ 16
      → version < 2 ^ 32
      → AreHarmless unit opening
      → AreBlocks unit 0 blocks
      → 0 < length (joined blocks)
      → length (joined blocks) ≤ slot_size
      → length m.rx_frame ≡ rx_frame_size
      → IsReady m.flash
      → IsMetadata old
      → metadata_read unit m.flash.mem ≡ some old
      → (slot old old.active_slot).state ≡ state_valid
      → image_is_intact unit m.flash.mem old old.active_slot ≡ true
      → CounterRoom unit 2 m.flash.mem
      → IsRing buf m.uart
      → waiting buf m.uart ≡ []
      → AreTurns (before ++ (opens ∷ (during ++ (ends ∷ []))))
      → 0 < length (bytes_in opens.interrupts)
      → 0 < length (bytes_in ends.interrupts)
      → AllWithin (if boot_request_pending request then ota_wait_ms else boot_wait_ms) start before
      → AllInTime opens.now during
      → let target = other_slot old.active_slot in
        brought before ++ bytes_in opens.interrupts ≡ start_bytes unit seq version target blocks
        → brought during ++ bytes_in ends.interrupts
          ≡ data_bytes unit seq opening blocks ++ end_bytes unit seq blocks
        → let booted =
            boot unit hw request start (before ++ (opens ∷ (during ++ (ends ∷ more)))) m in
          (booted.outcome ≡ restarted)
          × IsInstalled unit target
              (joined blocks)
              (carried_slot (slot old old.active_slot))
              booted.machine.flash.mem
          × (boot_request_pending booted.request ≡ false)
  unfolding boot_request_pending
  boot_installs request start seq version opening blocks m old buf before opens during ends more
        small ver quiet good pos fits frame_room rests v e valid intact room ring empty turns
        some_bytes some_more within timely sent sent2 =
      let limit = if boot_request_pending request then ota_wait_ms else boot_wait_ms in
      let ready = ready_of m in
      let same = sym (ready-uart m) in
      let (end, installed) =
        loop_installs limit start seq version opening blocks ready old buf before opens during ends
          more small ver quiet good pos fits (ready-IsListening m frame_room) (ready-idle m)
          (ready-IsTransfer m) rests v e room (subst (IsRing buf) same ring)
          (ap (waiting buf) (ready-uart m) ∙ empty) turns some_bytes some_more within timely sent
          sent2 in
      let (outcome, machine, left) =
        boot-valid unit hw request start (before ++ (opens ∷ (during ++ (ends ∷ more)))) m old e
          valid intact in
      rw (outcome, machine, left)
        (ap (after_window (slot_addr old.active_slot)) end, installed, ground arith)
