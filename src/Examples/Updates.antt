-- ===== src/Examples/Updates.antt =====
-- The theorems on the update protocol, at concrete states.
use bootloader_ota.Base.{
  ℕ, ◌<◌, ◌%◌, ◌≡◌, ◌≢◌, refl, arith, inl, some, List, [], ◌∷◌, ◌++◌, bytes_at, word16_at,
  word32_at, byte_at, le32,
}
use bootloader_ota.Layout.{bootloader_addr, slot_addr}
use bootloader_ota.Crc.{crc32_reset, crc32_update, crc32_get, crc32_compute}
use bootloader_ota.Flash.{
  flash_is_erased, flash_erase_page, flash_write, flash_unlock, flash_lock, flash_clear_errors,
  flash_check_errors, flash_wait_busy, wait_busy, set_pg, clear_per, erase_sequence, program,
  program_dword, reads_back, address_in_flash, address_is_bootloader,
}
use bootloader_ota.Metadata.{
  Metadata, slot, state_testing, state_in_progress, encode, encode_covered, encode_slot, decode,
  decode_slot,
}
use bootloader_ota.Store.{
  meta_ok, carried_slot, load_page, metadata_read, metadata_write, metadata_is_valid, select_target,
  sealed, unsealed,
}
use bootloader_ota.Protocol.State.{
  Machine, rx_crc, proto_receiving, proto_idle, proto_complete, rsp_nack, err_length, rx_reset,
  cmd_end_update, abort_transfer,
}
use bootloader_ota.Protocol.Send.{
  frame, send_frame, send_ack, send_nack, uart_write, send_frame-frame,
}
use bootloader_ota.Protocol.Handlers.{
  on_start_update, on_data, on_end_update, dispatch, refuse, store_block, started_record,
  finished_record,
}
use bootloader_ota.Protocol.Receive.{
  feed, feed_all, feed_magic0, feed_magic1, feed_header, header_done, feed_crc, frame_done,
  push_byte,
}
use bootloader_ota.Protocol.Transfer.{IsTransfer, dispatch-IsTransfer}
use bootloader_ota.Protocol.Data.{on_data-stored}
use bootloader_ota.Protocol.Start.{IsRejected, started_of, start_rejected, start_accepted}
use bootloader_ota.Protocol.Finish.{end_refused, end_completed}
use bootloader_ota.Protocol.Sizes.{feed_all-IsEven}
use bootloader_ota.Protocol.Bounds.{IsReceiver, feed-IsReceiver}
use bootloader_ota.Protocol.Contain.{feed_all_contained}
use bootloader_ota.Protocol.Recognise.{at_state, feed_all-frame}
use bootloader_ota.Examples.Board.{crc_unit, controller, controller-IsController, fits, get_or-fits}
use bootloader_ota.Examples.Boards.{trial, memory_of, listening, receiving}
use bootloader_ota.Examples.Storage.{reads_trial, trial-IsBytes, trial-CounterBelow}

-- START_UPDATE for slot A: size, CRC, version, slot, protocol version.
abbrev start_payload : List ℕ
start_payload = le32 16 ++ le32 0x12345678 ++ le32 5 ++ 0 ∷ 1 ∷ 0 ∷ 0 ∷ []

abbrev block : List ℕ
block = 9 ∷ 8 ∷ 7 ∷ 6 ∷ 5 ∷ 4 ∷ 3 ∷ 2 ∷ []

pub listening-IsReceiver : IsReceiver (listening (memory_of 3))
listening-IsReceiver = record {
  room = refl;
  header = λ e. cc;
  payload = λ e. cc;
  trailer = λ e. cc;
}

pub listening-IsTransfer : IsTransfer (listening (memory_of 3))
listening-IsTransfer = omega arith

receiving-IsTransfer : IsTransfer (receiving 16)
receiving-IsTransfer = omega arith

opening-IsTransfer : IsTransfer (receiving 0)
opening-IsTransfer = omega arith

feed_all_contained_example :
    let m = listening (memory_of 3) in
    let after = feed_all crc_unit controller (frame crc_unit 2 0 start_payload) m in
    IsReceiver after
    × IsTransfer after
    × (after.flash.mem bootloader_addr ≡ m.flash.mem bootloader_addr)
feed_all_contained_example =
    feed_all_contained crc_unit controller controller-IsController
      (frame crc_unit 2 0 start_payload) (listening (memory_of 3)) bootloader_addr
      listening-IsReceiver listening-IsTransfer
      (inl (omega arith), inl (omega arith), inl (omega arith))

completes : (on_end_update crc_unit controller 4 (receiving 16)).state ≡ proto_complete
unfolding on_end_update refuse abort_transfer finished_record send_ack send_nack send_frame
    uart_write metadata_write select_target metadata_read load_page sealed unsealed crc32_compute
    crc32_reset crc32_update crc32_get encode encode_covered decode metadata_is_valid bytes_at
    encode_slot decode_slot word32_at flash_is_erased flash_erase_page flash_write flash_unlock
    flash_lock flash_clear_errors flash_check_errors flash_wait_busy wait_busy set_pg clear_per
    erase_sequence program program_dword reads_back address_in_flash address_is_bootloader
completes = refl

end_completed_example :
    let after = (on_end_update crc_unit controller 4 (receiving 16)).flash.mem in
    ((receiving 16).bytes_written ≡ (receiving 16).fw_size)
    × (new : Metadata) × (metadata_read crc_unit after ≡ some new)
    × (new.active_slot ≡ 0)
    × (new.boot_fail_count ≡ 0)
    × ((slot new 0).state ≡ state_testing)
    × ((slot new 0).size ≡ 16)
    × ((slot new 0).crc32 ≡ crc32_compute crc_unit (bytes_at after (slot_addr 0) (slot new 0).size))
    × (slot new 1 ≡ carried_slot (slot (trial 3) 1))
end_completed_example =
    end_completed crc_unit controller controller-IsController 4 (receiving 16) (trial 3)
      receiving-IsTransfer trial-IsBytes trial-CounterBelow (omega arith) reads_trial refl completes

end_refused_example :
    ((on_end_update crc_unit controller 4 (receiving 8)).flash ≡ (receiving 8).flash)
    × ((on_end_update crc_unit controller 4 (receiving 8)).state ≡ proto_idle)
    × ((on_end_update crc_unit controller 4 (receiving 8)).bytes_written ≡ 0)
end_refused_example = end_refused crc_unit controller 4 (receiving 8) refl (inl (omega arith))

ends :
    (feed_all crc_unit controller (frame crc_unit cmd_end_update 4 []) (receiving 16)).state
    ≡ proto_complete
unfolding on_end_update refuse abort_transfer finished_record send_ack send_nack send_frame
    uart_write metadata_write select_target metadata_read load_page sealed unsealed crc32_compute
    crc32_reset crc32_update crc32_get encode encode_covered decode metadata_is_valid bytes_at
    encode_slot decode_slot word32_at flash_is_erased flash_erase_page flash_write flash_unlock
    flash_lock flash_clear_errors flash_check_errors flash_wait_busy wait_busy set_pg clear_per
    erase_sequence program program_dword reads_back address_in_flash address_is_bootloader feed_all
    feed feed_magic0 feed_magic1 feed_header header_done feed_crc frame_done push_byte dispatch
    rx_reset frame word16_at
ends = refl

feed_all-IsEven_example :
    (feed_all crc_unit controller (frame crc_unit cmd_end_update 4 []) (receiving 16)).fw_size % 8
    ≡ 0
feed_all-IsEven_example =
    feed_all-IsEven crc_unit controller (frame crc_unit cmd_end_update 4 []) (receiving 16)
      receiving-IsTransfer (λ e. cc) ends

stores_block : (on_data crc_unit controller 4 block (receiving 0)).bytes_written ≡ 8
unfolding on_data store_block refuse abort_transfer send_ack send_nack send_frame uart_write
    crc32_compute crc32_reset crc32_update crc32_get word32_at flash_is_erased flash_erase_page
    flash_write flash_unlock flash_lock flash_clear_errors flash_check_errors flash_wait_busy
    wait_busy set_pg clear_per erase_sequence program program_dword reads_back address_in_flash
    address_is_bootloader
stores_block = refl

on_data-stored_example :
    bytes_at (on_data crc_unit controller 4 block (receiving 0)).flash.mem (slot_addr 0) 8
    ≡ bytes_at (memory_of 3) (slot_addr 0) 0 ++ block
on_data-stored_example =
    on_data-stored crc_unit controller controller-IsController 4 block (receiving 0)
      opening-IsTransfer (omega arith) (omega arith) stores_block

abbrev idle : Machine
idle = listening (memory_of 3)

starts :
    (metadata_write crc_unit controller (started_of (trial 3) start_payload) idle.flash).0 ≡ meta_ok
unfolding started_record metadata_write select_target metadata_read load_page sealed unsealed
    crc32_compute encode encode_covered decode metadata_is_valid bytes_at encode_slot decode_slot
    word32_at flash_is_erased flash_erase_page flash_write flash_unlock flash_lock
    flash_clear_errors flash_check_errors flash_wait_busy wait_busy set_pg clear_per erase_sequence
    program program_dword reads_back address_in_flash address_is_bootloader
starts = refl

start_payload-bytes : (i : ℕ) → byte_at start_payload i < 256
unfolding fits
start_payload-bytes i = get_or-fits start_payload i refl

start_payload-fine : ¬ (IsRejected (some (trial 3)) start_payload)
unfolding word32_at sealed unsealed
start_payload-fine h = ground arith

start_accepted_example :
    let after = on_start_update crc_unit controller 0 start_payload idle in
    (new : Metadata) × (metadata_read crc_unit after.flash.mem ≡ some new)
    × (after.state ≡ proto_receiving)
    × (after.bytes_written ≡ 0)
    × (after.target_slot ≢ (trial 3).active_slot)
    × (new.active_slot ≡ (trial 3).active_slot)
    × (new.boot_fail_count ≡ (trial 3).boot_fail_count)
    × (slot new (trial 3).active_slot ≡ carried_slot (slot (trial 3) (trial 3).active_slot))
    × ((slot new after.target_slot).state ≡ state_in_progress)
    × ((slot new after.target_slot).size ≡ after.fw_size)
start_accepted_example =
    start_accepted crc_unit controller controller-IsController 0 start_payload idle (trial 3)
      trial-IsBytes start_payload-bytes trial-CounterBelow reads_trial start_payload-fine starts

start_rejected_example :
    on_start_update crc_unit controller 7 block (receiving 8)
    ≡ record (receiving 8) { tx = frame crc_unit rsp_nack 7 (err_length ∷ []) }
start_rejected_example =
    start_rejected crc_unit controller 7 block (receiving 8) (inl (omega arith))

dispatch-IsTransfer_example : IsTransfer (dispatch crc_unit controller 3 4 block (receiving 0))
dispatch-IsTransfer_example =
    dispatch-IsTransfer crc_unit controller 3 4 block (receiving 0) opening-IsTransfer

feed-IsReceiver_example : IsReceiver (feed crc_unit controller 0xaa idle)
feed-IsReceiver_example = feed-IsReceiver crc_unit controller 0xaa idle listening-IsReceiver

-- The last byte of a CRC is awaited.
abbrev awaiting : Machine
awaiting = record idle { rx_state = rx_crc; rx_index = 10; rx_expected = 1 }

awaiting-IsReceiver : IsReceiver awaiting
unfolding word16_at
awaiting-IsReceiver = record {
  room = refl;
  header = λ e. cc;
  payload = λ e. cc;
  trailer = λ e. (refl, omega arith, omega arith, omega arith);
}

feed_all-frame_example :
    (f : List ℕ) × (feed_all crc_unit controller (frame crc_unit 3 4 block) (receiving 0)
      ≡ rx_reset (dispatch crc_unit controller 3 4 block (at_state (receiving 0) rx_crc f 19 0)))
feed_all-frame_example =
    feed_all-frame crc_unit controller 3 4 block (receiving 0) refl refl (omega arith) (omega arith)

send_frame-frame_example :
    send_frame crc_unit rsp_nack 4 (1 ∷ []) idle
    ≡ record idle { tx = frame crc_unit rsp_nack 4 (1 ∷ []) }
send_frame-frame_example = send_frame-frame crc_unit rsp_nack 4 (1 ∷ []) idle
