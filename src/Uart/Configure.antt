-- ===== src/Uart/Configure.antt =====
-- `uart_configure` of bootloader/src/uart.c, with the divider of shared/board.h. The clocks and the
-- pins that the two `_init` functions select are left out.
use bootloader_ota.Base.{
  ℕ, ◌+◌, ◌*◌, ◌/◌, ◌^◌, ◌≤◌, ◌<◌, ◌≡◌, refl, arith, leb, quotient-cases, Bool, true, false, ◌&&◌,
  ◌==◌, ◌%◌, if◌then◌else◌, Option, none, some, List, [], ◌∷◌, u32,
}
use bootloader_ota.Uart.{Uart}
use bootloader_ota.Uart.Ring.{IsRing, waiting, queued}

abbrev pub system_clock_hz : ℕ
system_clock_hz = 4000000

abbrev pub uart_baud : ℕ
uart_baud = 115200

-- USART_BRR_OVER16, on unsigned 32-bit numbers.
unfoldable pub usart_brr_over16 : ℕ → ℕ → ℕ
usart_brr_over16 fck baud = u32 (fck + baud / 2) / baud

unfoldable pub usart_brr_is_valid : ℕ → ℕ → Bool
usart_brr_is_valid fck baud = leb 16 (usart_brr_over16 fck baud)

-- The registers that are written, in order.
pub data UsartWrite : Type 0 where
  cr1 cr3 brr icr : ℕ → UsartWrite

abbrev has_buffer : Option (List ℕ) → Bool
has_buffer none = false
has_buffer (some buf) = true

-- UE, RE, TE and RXNEIE are the bits 0, 2, 3 and 5.
unfoldable pub uart_configure : ℕ → Bool → Uart → List UsartWrite × Uart
uart_configure baudrate with_rx u = (
  cr1 0
      ∷ cr3 0
      ∷ brr (usart_brr_over16 system_clock_hz baudrate)
      ∷ icr 0x0f
      ∷ cr1 (if with_rx && has_buffer u.rx_buf then 0x2d else 0x09)
      ∷ [],
  record u { rx_head = 0; rx_tail = 0 },
)

-- A USART as the reference manual describes it: BRR can be written only while UE is clear.
pub record Usart : Type 0 where
  pub control : ℕ
  pub divider : ℕ

unfoldable pub write_usart : UsartWrite → Usart → Usart
write_usart (cr1 v) s = record s { control = v }
write_usart (brr v) s = if s.control % 2 == 0 then record s { divider = v } else s
write_usart (cr3 v) s = s
write_usart (icr v) s = s

unfoldable pub run_usart : List UsartWrite → Usart → Usart
run_usart [] s = s
run_usart (w ∷ ws) s = run_usart ws (write_usart w s)

-- The divider is the nearest one: the clock differs from the divider times the rate by at most half the rate.
pub brr-nearest :
    (fck baud : ℕ)
    → 0 < baud
    → baud ≤ fck
    → fck + baud / 2 < 2 ^ 32
    → let divider = usart_brr_over16 fck baud in
      (2 * (divider * baud) ≤ 2 * fck + baud) × (2 * fck ≤ 2 * (divider * baud) + baud)
unfolding usart_brr_over16
brr-nearest fck baud pos slow small =
    let same : u32 (fck + baud / 2) ≡ fck + baud / 2 = omega arith in
    let (some_div, low, high) = quotient-cases (fck + baud / 2) baud pos (omega arith) in
    let next : ((fck + baud / 2) / baud + 1) * baud ≡ (fck + baud / 2) / baud * baud + baud =
      grind arith in
    rw same (omega arith, omega (arith, next, high))

-- Configuring a receiving instance leaves its ring empty and well formed, and its receiver armed.
pub configure-empties :
    (baudrate : ℕ) (buf : List ℕ) (u : Uart)
    → IsRing buf u
    → let (writes, after) = uart_configure baudrate true u in
      IsRing buf after × (waiting buf after ≡ [])
unfolding uart_configure waiting queued
configure-empties baudrate buf u h = (
  record {
    buffer = h.buffer;
    room = h.room;
    mask = h.mask;
    head = omega arith;
    tail = omega arith;
  },
  refl,
)
