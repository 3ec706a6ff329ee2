-- ===== src/Examples/Setups.antt =====
-- The links of both images, and what the images report, at concrete states.
use bootloader_ota.Base.{ℕ, ◌≤◌, ◌≡◌, ◌≢◌, refl, arith, true, false, List, [], ◌∷◌, length, drop}
use bootloader_ota.Crc.{crc32_compute}
use bootloader_ota.Protocol.State.{rx_crc, rx_reset, cmd_data, err_crc, rsp_nack}
use bootloader_ota.Protocol.Send.{frame, frame_body, checked_frame}
use bootloader_ota.Protocol.Receive.{feed_all}
use bootloader_ota.Protocol.Recognise.{at_state}
use bootloader_ota.Protocol.Damaged.{feed_all-damaged}
use bootloader_ota.Uart.{uart_debug, uart_proto}
use bootloader_ota.Uart.Configure.{
  Usart, run_usart, write_usart, uart_configure, usart_brr_over16, uart_baud,
}
use bootloader_ota.Uart.Format as Console
use bootloader_ota.Uart.Format.{dec_value, hex_value, dec_room}
use bootloader_ota.Uart.Pins.{Pins, uart_debug_init, uart_proto_init, links_configured}
use bootloader_ota.App.Setup.{run_links, uart_init, uart_init-agrees}
use bootloader_ota.App.Report.{uart_hex32, uart_dec, formats_read_back}
use bootloader_ota.Examples.Board.{crc_unit, controller}
use bootloader_ota.Examples.Boards.{memory_of, listening}
use bootloader_ota.Examples.Lines.{block}

-- All bits set, as a board may leave them.
abbrev all_set : Pins
all_set = record {
  ahb2enr = λ i. true;
  apb1enr1 = λ i. true;
  apb2enr = λ i. true;
  moder = λ i. true;
  ospeedr = λ i. true;
  pupdr = λ i. true;
  afrl = λ i. true;
  afrh = λ i. true;
  iser1 = λ i. true;
}

-- PA2's mode loses its low bit.
links_configured_example :
    let after =
      (uart_proto_init 115200 (uart_debug_init 115200 all_set uart_debug).0 uart_proto).0 in
    (after.moder 4 ≡ false)
    × (after.afrl 4 ≡ true)
    × (after.afrh 4 ≡ true)
    × (after.pupdr 4 ≡ true)
    × (after.ospeedr 4 ≡ true)
    × (after.ahb2enr 4 ≡ true)
    × (after.apb1enr1 4 ≡ true)
    × (after.apb2enr 4 ≡ true)
    × (after.iser1 4 ≡ true)
links_configured_example =
    links_configured 115200 115200 4 all_set uart_debug uart_proto (omega arith)

-- Both links run at another rate when the application starts.
abbrev running : Usart
running = record { control = 0x2d; divider = 417 }

uart_init-agrees_example :
    let (pins, accesses) = uart_init all_set in
    let after = run_links accesses (record { first = running; second = running }) in
    let boot =
      (uart_proto_init uart_baud (uart_debug_init uart_baud all_set uart_debug).0 uart_proto).0 in
    (after.first ≡ record { control = 0x0d; divider = 35 })
    × (after.second ≡ record { control = 0x0d; divider = 35 })
    × (pins.moder 21 ≡ boot.moder 21)
    × (pins.afrl 21 ≡ boot.afrl 21)
    × (pins.afrh 21 ≡ boot.afrh 21)
    × (pins.ahb2enr 21 ≡ boot.ahb2enr 21)
    × (pins.apb1enr1 21 ≡ boot.apb1enr1 21)
    × (pins.apb2enr 21 ≡ boot.apb2enr 21)
unfolding usart_brr_over16 run_usart write_usart uart_configure
uart_init-agrees_example =
    uart_init-agrees 21 all_set uart_debug uart_proto uart_proto
      (record { first = running; second = running }) running (omega arith)

formats_read_back_example :
    (uart_dec 2000 ≡ Console.uart_dec 2000)
    × (uart_hex32 2000 ≡ Console.uart_hex32 2000)
    × (dec_value 0 (uart_dec 2000) ≡ 2000)
    × (length (uart_dec 2000) ≤ dec_room)
    × (hex_value 0 (drop 2 (uart_hex32 2000)) ≡ 2000)
    × (length (uart_hex32 2000) ≡ 10)
formats_read_back_example = formats_read_back 2000 (omega arith)

block_crc : 0 ≢ crc32_compute crc_unit (frame_body crc_unit cmd_data 2 block)
unfolding crc32_compute
block_crc = omega arith

feed_all-damaged_example :
    let m = listening (memory_of 3) in
    (f : List ℕ) × (feed_all crc_unit controller (checked_frame crc_unit cmd_data 2 block 0) m
      ≡ rx_reset (record (at_state m rx_crc f 19 0) {
        cnt_frames_ko = 1;
        tx = frame crc_unit rsp_nack 2 (err_crc ∷ []);
      }))
feed_all-damaged_example =
    feed_all-damaged crc_unit controller cmd_data 2 0 block (listening (memory_of 3)) refl refl
      (omega arith) (omega arith) (omega arith) block_crc
