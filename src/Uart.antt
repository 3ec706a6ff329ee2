-- ===== src/Uart.antt =====
-- bootloader/src/uart.c: the receive ring between the interrupt and the main context. The
-- registers are hardware: an interrupt is given the status that it reads and the received byte.
-- Transmission and formatting go to the debug console or, in `Protocol`, to a list of bytes.
pub mod Ring
pub mod Format
pub mod Configure
pub mod Registers
pub mod Pins
use Prim.Native.Nat.{bit_and}
use bootloader_ota.Base.{
  ℕ, zero, suc, ◌+◌, ◌-◌, ◌^◌, ◌==◌, if◌then◌else◌, Bool, true, false, ◌||◌, Option, none, some,
  List, [], ◌∷◌, ◌++◌, u8, u32, get_or, set, replicate,
}

-- UART_RX_BUFFER_SIZE
abbrev pub uart_rx_buffer_size : ℕ
uart_rx_buffer_size = 512

-- `uart_t`; `none` is the NULL buffer of a transmit-only instance.
pub record Uart : Type 0 where
  pub rx_buf : Option (List ℕ)
  pub rx_mask : ℕ
  pub rx_head : ℕ
  pub rx_tail : ℕ
  pub cnt_overrun_sw : ℕ
  pub cnt_overrun_hw : ℕ
  pub cnt_framing : ℕ
  pub cnt_noise : ℕ

-- The flags of the interrupt status register that the handler looks at.
pub record Isr : Type 0 where
  pub ore : Bool
  pub fe : Bool
  pub ne : Bool
  pub pe : Bool
  pub rxne : Bool

-- The flags that the handler clears through ICR.
pub data Icr : Type 0 where
  orecf fecf necf pecf : Icr

-- The static instances, as the linker leaves them.
abbrev pub uart_debug : Uart
uart_debug = record {
  rx_buf = none;
  rx_mask = 0;
  rx_head = 0;
  rx_tail = 0;
  cnt_overrun_sw = 0;
  cnt_overrun_hw = 0;
  cnt_framing = 0;
  cnt_noise = 0;
}

abbrev pub uart_proto : Uart
uart_proto = record uart_debug {
  rx_buf = some (replicate uart_rx_buffer_size 0);
  rx_mask = uart_rx_buffer_size - 1;
}

abbrev flag : Bool → Icr → List Icr
flag b c = if b then c ∷ [] else []

-- The error flags of `uart_isr`: what is counted, and what is cleared.
unfoldable pub isr_errors : Isr → Uart → Uart × List Icr
isr_errors status u = (
  record u {
    cnt_overrun_hw = if status.ore then u32 (u.cnt_overrun_hw + 1) else u.cnt_overrun_hw;
    cnt_framing = if status.fe then u32 (u.cnt_framing + 1) else u.cnt_framing;
    cnt_noise = if status.ne then u32 (u.cnt_noise + 1) else u.cnt_noise;
  },
  flag status.ore orecf ++ flag status.fe fecf ++ flag status.ne necf ++ flag status.pe pecf,
)

-- The byte: dropped and counted when the ring is full.
unfoldable pub isr_receive : ℕ → Uart → Uart
isr_receive rdr u = elim u.rx_buf [
  | none ↦ u
  | some buf ↦
      (let next = bit_and (u32 (u.rx_head + 1)) u.rx_mask in
        if next == u.rx_tail
        then record u { cnt_overrun_sw = u32 (u.cnt_overrun_sw + 1) }
        else record u { rx_buf = some (set buf u.rx_head (u8 rdr)); rx_head = next })
]

unfoldable pub uart_isr : Isr → ℕ → Uart → Uart × List Icr
uart_isr status rdr u =
    let handled = isr_errors status u in
    (if status.rxne then isr_receive rdr (handled.0) else handled.0, handled.1)

unfoldable pub uart_available : Uart → ℕ
uart_available u = elim u.rx_buf [
  | none ↦ 0
  | some buf ↦ bit_and (u32 (u.rx_head + 2 ^ 32 - u.rx_tail)) u.rx_mask
]

-- The byte that goes through `out`, if any.
unfoldable pub uart_getc : Uart → Option ℕ × Uart
uart_getc u = elim u.rx_buf [
  | none ↦ (none, u)
  | some buf ↦
      (if u.rx_head == u.rx_tail then (none, u) else (
        some (get_or buf u.rx_tail 0),
        record u { rx_tail = bit_and (u32 (u.rx_tail + 1)) u.rx_mask },
      ))
]

-- At most `max` bytes, oldest first.
unfoldable pub uart_read : ℕ → Uart → List ℕ × Uart
uart_read zero u = ([], u)
uart_read (suc max) u =
    let got = uart_getc u in
    let rest = uart_read max (got.1) in
    elim (got.0) [ none ↦ ([], got.1) | some b ↦ (b ∷ rest.0, rest.1) ]

unfoldable pub uart_rx_flush : Uart → Uart
uart_rx_flush u = elim u.rx_buf [ none ↦ u | some buf ↦ record u { rx_tail = u.rx_head } ]

unfoldable pub uart_reset_counters : Uart → Uart
uart_reset_counters u = record u {
  cnt_overrun_sw = 0;
  cnt_overrun_hw = 0;
  cnt_framing = 0;
  cnt_noise = 0;
}
