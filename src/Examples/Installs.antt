-- ===== src/Examples/Installs.antt =====
-- A whole update and a whole trial on a board that works, at concrete states.
use bootloader_ota.Base.{
  some, replicate, ◌++◌, ◌≡◌, refl, arith, true, [], ◌∷◌, bytes_at, word32_at,
}
use bootloader_ota.Layout.{slot_a_addr, slot_b_addr}
use bootloader_ota.Crc.{crc32_compute}
use bootloader_ota.Metadata.{encode, encode_covered, encode_slot, decode, decode_slot}
use bootloader_ota.Store.{carried_slot, load_page, metadata_is_valid, sealed, unsealed}
use bootloader_ota.Store.Room.{CounterRoom}
use bootloader_ota.Protocol.State.{proto_complete}
use bootloader_ota.Protocol.Receive.{feed_all}
use bootloader_ota.Protocol.Session.Ends.{IsInstalled}
use bootloader_ota.Protocol.Session.Stream.{IsListening}
use bootloader_ota.Protocol.Session.Sending.{update_frames}
use bootloader_ota.Protocol.Session.Complete.{update_installs}
use bootloader_ota.App.{confirmed, confirm_startup}
use bootloader_ota.Fault.{codes}
use bootloader_ota.Uart.Format.{uart_dec}
use bootloader_ota.Boot.{decide}
use bootloader_ota.Boot.Console.{log_decision, attempt_announced}
use bootloader_ota.Metadata.{Metadata}
use bootloader_ota.Layout.{max_boot_failures}
use bootloader_ota.Store.{metadata_read}
use bootloader_ota.Boot.Rejected.{unconfirmed_update}
use bootloader_ota.Boot.Accepted.{confirmed_update}
use bootloader_ota.Boot.{listen_then_jump, jump_now, image_is_intact, slot_looks_bootable}
use bootloader_ota.Boot.Strikes.{IsOnTrial, SwitchedFrom, unconfirmed_boots}
use bootloader_ota.Examples.Board.{crc_unit, idle_flash}
use bootloader_ota.Examples.Boards.{trial, memory_of, listening}
use bootloader_ota.Examples.Lines.{
  block, opening, opening-AreHarmless, sent, block-AreBlocks, bootable, bootable-HasVectors,
  bootable-AreBlocks, first_page-CounterRoom,
}
use bootloader_ota.Examples.Worker.{
  worker, worker-IsController, worker-IsWorking, idle_flash-IsReady,
}
use bootloader_ota.Examples.Storage.{reads_trial, trial-IsMetadata}
use bootloader_ota.Examples.Boots.{reads_retry}
use bootloader_ota.Examples.Updates.{listening-IsReceiver, listening-IsTransfer}

retry-IsOnTrial : IsOnTrial crc_unit 2 (trial 1) (idle_flash (memory_of 1))
unfolding sealed unsealed load_page image_is_intact slot_looks_bootable bytes_at word32_at
    crc32_compute encode encode_covered encode_slot decode decode_slot metadata_is_valid
retry-IsOnTrial = record {
  read = reads_retry;
  fits = omega arith;
  testing = refl;
  left = refl;
  intact = refl;
  filled = omega arith;
  fallback = refl;
  room = first_page-CounterRoom 3 (memory_of 1) (omega arith) refl;
  ready = idle_flash-IsReady (memory_of 1);
}

listening-IsListening : IsListening (listening (memory_of 3))
listening-IsListening = record { idle = refl; receiver = listening-IsReceiver }

trial-CounterRoom : CounterRoom crc_unit 2 (memory_of 3)
unfolding load_page sealed unsealed crc32_compute encode encode_covered decode metadata_is_valid
    bytes_at encode_slot decode_slot word32_at
trial-CounterRoom = first_page-CounterRoom 2 (memory_of 3) (omega arith) refl

update_installs_example :
    let m = listening (memory_of 3) in
    let after =
      feed_all crc_unit worker (update_frames crc_unit 0 5 0 opening (sent block ∷ [])) m in
    (after.state ≡ proto_complete)
    × IsListening after
    × IsInstalled crc_unit 0 block (carried_slot (trial 3).second) after.flash.mem
unfolding sealed unsealed
update_installs_example =
    update_installs crc_unit worker worker-IsController worker-IsWorking 0 5 opening
      (sent block ∷ []) (listening (memory_of 3)) (trial 3) (omega arith) (omega arith)
      opening-AreHarmless block-AreBlocks (omega arith) (omega arith) listening-IsListening
      listening-IsTransfer (idle_flash-IsReady (memory_of 3)) trial-IsMetadata reads_trial
      trial-CounterRoom

roomy : CounterRoom crc_unit 6 (memory_of 3)
unfolding load_page sealed unsealed crc32_compute encode encode_covered decode metadata_is_valid
    bytes_at encode_slot decode_slot word32_at
roomy = first_page-CounterRoom 6 (memory_of 3) (omega arith) refl

old_intact : image_is_intact crc_unit (memory_of 3) (trial 3) 1 ≡ true
unfolding sealed unsealed load_page image_is_intact slot_looks_bootable bytes_at word32_at
    crc32_compute encode encode_covered encode_slot decode decode_slot metadata_is_valid
old_intact = refl

unconfirmed_update_example :
    let m = listening (memory_of 3) in
    let after =
      (feed_all crc_unit worker
        (update_frames crc_unit 0 5 0 opening (sent bootable ∷ []))
        m).flash in
    let (plans, last) = unconfirmed_boots crc_unit worker 4 after in
    (plans ≡ replicate 3 (listen_then_jump slot_a_addr) ++ (jump_now slot_b_addr ∷ []))
    × SwitchedFrom crc_unit worker worker-IsController worker-IsWorking 0 last
unfolding sealed unsealed
unconfirmed_update_example =
    unconfirmed_update crc_unit worker worker-IsController worker-IsWorking 0 5 opening
      (sent bootable ∷ []) (listening (memory_of 3)) (trial 3) (omega arith) (omega arith)
      opening-AreHarmless bootable-AreBlocks bootable-HasVectors (omega arith) listening-IsListening
      listening-IsTransfer (idle_flash-IsReady (memory_of 3)) trial-IsMetadata reads_trial roomy
      (omega arith) old_intact

confirmed_update_example :
    let m = listening (memory_of 3) in
    let frames = update_frames crc_unit 0 5 0 opening (sent bootable ∷ []) in
    let (plans, run) =
      unconfirmed_boots crc_unit worker 2 (feed_all crc_unit worker frames m).flash in
    let (said, kept) = confirm_startup crc_unit worker slot_a_addr run in
    (plans ≡ replicate 2 (listen_then_jump slot_a_addr))
    × (said ≡ confirmed)
    × (unconfirmed_boots crc_unit worker 9 kept
        ≡ (replicate 9 (listen_then_jump slot_a_addr), kept))
unfolding sealed unsealed
confirmed_update_example =
    confirmed_update crc_unit worker worker-IsController worker-IsWorking 2 9 (omega arith) 0 5
      opening (sent bootable ∷ []) (listening (memory_of 3)) (trial 3) (omega arith) (omega arith)
      opening-AreHarmless bootable-AreBlocks bootable-HasVectors (omega arith) listening-IsListening
      listening-IsTransfer (idle_flash-IsReady (memory_of 3)) trial-IsMetadata reads_trial roomy
      (omega arith) old_intact

attempt_announced_example :
    let after =
      (decide crc_unit worker
        (metadata_read crc_unit (memory_of 1))
        (idle_flash (memory_of 1))).1 in
    (new : Metadata) × (metadata_read crc_unit after.mem ≡ some new)
    × (new.boot_fail_count ≡ 2)
    × (log_decision crc_unit worker (trial 1) (idle_flash (memory_of 1))
        ≡ codes "Attempt "
          ++ uart_dec new.boot_fail_count
          ++ codes "/"
          ++ uart_dec max_boot_failures
          ++ codes "\r\n")
unfolding sealed unsealed
attempt_announced_example =
    attempt_announced crc_unit worker worker-IsController worker-IsWorking 1 (trial 1)
      (idle_flash (memory_of 1)) retry-IsOnTrial
