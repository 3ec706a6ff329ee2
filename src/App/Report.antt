-- ===== src/App/Report.antt =====
-- What app/main.c writes to its console before its loop: its formats, the record of its own slot, and
-- the check of its own image. Text is the list of the characters' codes, oldest first.
use bootloader_ota.Base.{
  ℕ, ◌<◌, ◌≤◌, length, drop, zero, suc, ◌+◌, ◌*◌, ◌/◌, ◌%◌, ◌^◌, ◌≤◌, ◌≡◌, refl, ap, arith, ◌==◌,
  ltb, ◌||◌, if◌then◌else◌, true, false, Option, none, some, List, [], ◌∷◌, ◌++◌, length, drop,
  Memory, bytes_at,
}
use bootloader_ota.Layout.{slot_addr, slot_size}
use bootloader_ota.Crc.{CrcUnit, crc32_compute}
use bootloader_ota.Metadata.{
  Metadata, slot, state_empty, state_in_progress, state_testing, state_valid,
}
use bootloader_ota.Store.{metadata_read}
use bootloader_ota.Fault.{codes}
use bootloader_ota.Uart.Format.{
  dec_value, hex_value, uart_dec-value, uart_hex32-value, hex_digit, hex_loop, dec_loop, dec_room,
}
use bootloader_ota.Uart.Format as Console
use bootloader_ota.App.{current_slot, cycles_before_confirmation}
use bootloader_ota.Boot.{image_is_intact}

-- `for (int i = 28; i >= 0; i -= 4)`, with the digits left.
unfoldable pub hex_digits : ℕ → ℕ → List ℕ
unfolding hex_digit
hex_digits zero v = []
hex_digits (suc n) v = hex_digit (v / 2 ^ (4 * n) % 16) ∷ hex_digits n v

unfoldable pub uart_hex32 : ℕ → List ℕ
uart_hex32 v = codes "0x" ++ hex_digits 8 v

-- The loop that fills `tmp`, kept with its last digit first, as it is written out.
unfoldable pub dec_digits : ℕ → ℕ → List ℕ → List ℕ
dec_digits zero v tmp = tmp
dec_digits (suc n) v tmp =
    let rest = dec_digits n (v / 10) ((b'0' + v % 10) ∷ tmp) in if v == 0 then tmp else rest

unfoldable pub uart_dec : ℕ → List ℕ
uart_dec v = if v == 0 then codes "0" else dec_digits 10 v []

unfoldable pub verify_image : CrcUnit → ℕ → Memory → Metadata → List ℕ
verify_image unit vtor mem meta =
    let self = current_slot vtor in
    let info = slot meta self in
    let computed = crc32_compute unit (bytes_at mem (slot_addr self) info.size) in
    if (info.size == 0) || ltb slot_size info.size
    then codes "  invalid size, check skipped\r\n"
    else codes "  computed CRC : "
      ++ uart_hex32 computed
      ++ codes "\r\n  expected CRC : "
      ++ uart_hex32 info.crc32
      ++ (if computed == info.crc32 then codes "   match\r\n" else codes "   MISMATCH\r\n")

unfoldable pub state_name : ℕ → List ℕ
state_name s =
    if s == state_empty
    then codes "EMPTY"
    else if s == state_in_progress
    then codes "IN_PROGRESS"
    else if s == state_testing
    then codes "TESTING"
    else if s == state_valid
    then codes "VALID"
    else uart_dec s

-- What is written of the record, and of the image.
unfoldable pub describe : CrcUnit → ℕ → Memory → Option Metadata → List ℕ
describe unit vtor mem none = codes "No readable metadata\r\n"
describe unit vtor mem (some meta) =
    let info = slot meta (current_slot vtor) in
    codes "State       : "
    ++ state_name info.state
    ++ codes "\r\nVersion     : "
    ++ uart_hex32 info.version
    ++ codes "\r\nBoot fails  : "
    ++ uart_dec meta.boot_fail_count
    ++ codes "\r\n\r\nImage verification:\r\n"
    ++ verify_image unit vtor mem meta

unfoldable pub announce : CrcUnit → ℕ → Memory → List ℕ
announce unit vtor mem =
    codes "\r\n########################################\r\n  APPLICATION -- slot "
    ++ (b'A' + current_slot vtor)
      ∷ codes "\r\n########################################\r\nVTOR        : "
    ++ uart_hex32 vtor
    ++ codes "\r\n"
    ++ describe unit vtor mem (metadata_read unit mem)
    ++ codes "\r\nApplication cycles before confirming: "
    ++ uart_dec cycles_before_confirmation
    ++ codes "\r\n\r\n"

hex_digits-loop : (n v : ℕ) → hex_digits n v ≡ hex_loop n v
unfolding hex_digits hex_loop
hex_digits-loop zero v = refl
hex_digits-loop (suc n) v = ap (λ t. hex_digit (v / 2 ^ (4 * n) % 16) ∷ t) (hex_digits-loop n v)

dec_digits-loop : (n v : ℕ) (tmp : List ℕ) → dec_digits n v tmp ≡ dec_loop n v tmp
unfolding dec_digits dec_loop
dec_digits-loop zero v tmp = refl
dec_digits-loop (suc n) v tmp =
    ap (λ rest. if v == 0 then tmp else rest) (dec_digits-loop n (v / 10) ((48 + v % 10) ∷ tmp))

formats_agree : (v : ℕ) → (uart_hex32 v ≡ Console.uart_hex32 v) × (uart_dec v ≡ Console.uart_dec v)
unfolding uart_hex32 uart_dec Console.uart_hex32 Console.uart_dec
formats_agree v = (
  ap (λ t. 48 ∷ 120 ∷ t) (hex_digits-loop 8 v),
  ap (λ t. if v == 0 then 48 ∷ [] else t) (dec_digits-loop 10 v []),
)

-- The application writes each uint32_t as the bootloader does, in both formats: in decimal it reads back as the
-- number and takes at most the ten places of the buffer, in hexadecimal it is 0x and eight digits that read back.
pub formats_read_back :
    (v : ℕ)
    → v < 2 ^ 32
    → (uart_dec v ≡ Console.uart_dec v)
      × (uart_hex32 v ≡ Console.uart_hex32 v)
      × (dec_value 0 (uart_dec v) ≡ v)
      × (length (uart_dec v) ≤ dec_room)
      × (hex_value 0 (drop 2 (uart_hex32 v)) ≡ v)
      × (length (uart_hex32 v) ≡ 10)
formats_read_back v small =
    let (hex, dec) = formats_agree v in
    let (dec_back, dec_short) = uart_dec-value v small in
    let (hex_back, hex_size) = uart_hex32-value v small in
    (dec, hex, rw dec dec_back, rw dec dec_short, rw hex hex_back, rw hex hex_size)

current_slot_self : (s : ℕ) → s ≤ 1 → current_slot (slot_addr s) ≡ s
unfolding current_slot
current_slot_self s low = ground (arith, low)

-- What the bootloader's check has found out.
intact-checked :
    (unit : CrcUnit) (s : ℕ) (mem : Memory) (meta : Metadata)
    → image_is_intact unit mem meta s ≡ true
    → let info = slot meta s in
      let computed = crc32_compute unit (bytes_at mem (slot_addr s) info.size) in
      (((info.size == 0) || ltb slot_size info.size) ≡ false)
      × ((computed == info.crc32) ≡ true)
      × (computed ≡ info.crc32)
unfolding image_is_intact
intact-checked unit s mem meta h = ground arith

-- An image that the bootloader finds intact and jumps to reports its own CRC as the expected one, and a match.
pub intact_reported :
    (unit : CrcUnit) (s : ℕ) (mem : Memory) (meta : Metadata)
    → s ≤ 1
    → image_is_intact unit mem meta s ≡ true
    → let crc = uart_hex32 (slot meta s).crc32 in
      verify_image unit (slot_addr s) mem meta
      ≡ codes "  computed CRC : "
        ++ crc
        ++ codes "\r\n  expected CRC : "
        ++ crc
        ++ codes "   match\r\n"
unfolding verify_image
intact_reported unit s mem meta low intact =
    let (sized, same, crc) = intact-checked unit s mem meta intact in
    rw (current_slot_self s low, sized, same, crc) refl
