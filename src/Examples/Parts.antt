-- ===== src/Examples/Parts.antt =====
-- The theorems on the time base, the console, the gateway and the poll, at concrete states.
use bootloader_ota.Base.{
  ℕ, ◌≤◌, ◌≡◌, refl, arith, true, none, some, false, List, [], ◌∷◌, set, replicate,
}
use bootloader_ota.Layout.{slot_a_addr}
use bootloader_ota.Flash.{
  flash_is_erased, flash_erase_page, flash_unlock, flash_lock, flash_clear_errors,
  flash_check_errors, flash_wait_busy, wait_busy, clear_per, erase_sequence, address_in_flash,
  address_is_bootloader,
}
use bootloader_ota.Store.{meta_ok, metadata_read, metadata_erase_all}
use bootloader_ota.Store.Erased.{erase_all-forgets}
use bootloader_ota.Uart.{uart_proto}
use bootloader_ota.Uart.Ring.{IsRing, waiting, queued}
use bootloader_ota.Systick.{Systick, delay_ms, elapsed, delay_ms-returns}
use bootloader_ota.Gateway.Pipe.{quiet, session-delivers}
use bootloader_ota.Gateway.{
  Bridge, Answers, session, loop, accept, socket_to_serial, serial_to_socket,
}
use bootloader_ota.Protocol.State.{Machine, proto_idle}
use bootloader_ota.Protocol.Receive.{protocol_poll}
use bootloader_ota.Protocol.Poll.{poll_silence}
use bootloader_ota.Boot.Jump.{Core, IsHandedOver, run, jump_to_application, jump-IsHandedOver}
use bootloader_ota.Examples.Board.{crc_unit, controller, controller-IsController, idle_flash}
use bootloader_ota.Examples.Boards.{trial, memory_of, listening, receiving}
use bootloader_ota.Examples.Boots.{fallback_intact}

-- Across the rollover of the count.
abbrev late : Systick
late = record { tick_count = 0xfffffffe; rvr = 3999; cvr = 0; csr = 7 }

delay_ms-returns_example :
    let (returned, after) = delay_ms 3 (1 ∷ 0 ∷ 2 ∷ 1 ∷ []) late in
    (returned ≡ true) × (3 ≤ elapsed late.tick_count after) × (elapsed late.tick_count after ≤ 4)
delay_ms-returns_example =
    delay_ms-returns 3 (1 ∷ 0 ∷ 2 ∷ 1 ∷ []) late (omega arith) (omega arith) (omega arith)

-- A client that is connected, with three bytes for the board; the board has one to answer.
abbrev bridge : Bridge
bridge = record {
  client = record { exists = true; connected = true; waits = 0xaa ∷ 0x55 ∷ 1 ∷ []; sent = [] };
  serial_waits = 0x81 ∷ [];
  serial_sent = [];
}

abbrev turn : Answers
turn = record { incoming = none; client_got = 2; serial_got = 1 }

session-delivers_example :
    let after =
      session ((7 ∷ [], [], turn) ∷ ([], 8 ∷ [], turn) ∷ quiet (turn ∷ turn ∷ [])) bridge in
    (after.serial_sent ≡ 0xaa ∷ 0x55 ∷ 1 ∷ 7 ∷ []) × (after.client.sent ≡ 0x81 ∷ 8 ∷ [])
unfolding session loop accept socket_to_serial serial_to_socket
session-delivers_example =
    session-delivers ((7 ∷ [], [], turn) ∷ ([], 8 ∷ [], turn) ∷ []) (turn ∷ turn ∷ []) bridge refl
      (omega arith, omega arith, (omega arith, omega arith, tt)) (omega arith) (omega arith)

-- A ring in which one byte waits.
abbrev buffer : List ℕ
buffer = set (replicate 512 0) 0 0xaa

abbrev one_waits : Machine
one_waits = record (listening (memory_of 3)) {
  uart = record uart_proto { rx_buf = some buffer; rx_head = 1 };
}

one_waits-IsRing : IsRing buffer one_waits.uart
one_waits-IsRing = record {
  buffer = refl;
  room = refl;
  mask = refl;
  head = omega arith;
  tail = omega arith;
}

one_waits-waiting : waiting buffer one_waits.uart ≡ 0xaa ∷ []
unfolding waiting queued
one_waits-waiting = refl

silent-IsRing : IsRing (replicate 512 0) (receiving 8).uart
silent-IsRing = record {
  buffer = refl;
  room = refl;
  mask = refl;
  head = omega arith;
  tail = omega arith;
}

silent-waiting : waiting (replicate 512 0) (receiving 8).uart ≡ []
unfolding waiting queued
silent-waiting = refl

poll_silence_example : protocol_poll crc_unit controller 9000 (receiving 8) ≡ record (receiving 8) {
  state = proto_idle;
  bytes_written = 0;
  expected_seq = 0;
  last_seq = 0xffff;
  last_activity_ms = 9000;
}
poll_silence_example =
    poll_silence crc_unit controller 9000 (replicate 512 0) (receiving 8) silent-IsRing
      silent-waiting

abbrev core : Core
core = record {
  masked = false;
  low_irqs_off = false;
  high_irqs_off = false;
  systick_on = true;
  vtor = 0x08000000;
  msp = 0x20018000;
  pc = none;
  safe = true;
}

jump-IsHandedOver_example :
    IsHandedOver slot_a_addr (run (jump_to_application (memory_of 3) slot_a_addr) core)
jump-IsHandedOver_example =
    jump-IsHandedOver crc_unit (memory_of 3) (trial 3) 0 core refl fallback_intact

erases_all : (metadata_erase_all crc_unit controller (idle_flash (memory_of 3))).0 ≡ meta_ok
unfolding metadata_erase_all flash_is_erased flash_erase_page flash_unlock flash_lock
    flash_clear_errors flash_check_errors flash_wait_busy wait_busy clear_per erase_sequence
    address_in_flash address_is_bootloader
erases_all = refl

erase_all-forgets_example :
    metadata_read crc_unit (metadata_erase_all crc_unit controller (idle_flash (memory_of 3))).1.mem
    ≡ none
erase_all-forgets_example =
    erase_all-forgets crc_unit controller controller-IsController (idle_flash (memory_of 3))
      erases_all
