-- ===== src/Examples/Links.antt =====
-- The theorems on the receive ring, at concrete states.
use bootloader_ota.Base.{ℕ, ◌≡◌, refl, arith, some, List, [], ◌∷◌, replicate, set}
use bootloader_ota.Uart.{Uart, uart_proto, isr_receive}
use bootloader_ota.Uart.Ring.{IsRing, waiting, queued, isr_receive-waiting}

abbrev cells : List ℕ
cells = set (replicate 512 0) 511 77

-- One byte waits, at the last place of the buffer.
abbrev one_waits : Uart
one_waits = record uart_proto { rx_buf = some cells; rx_head = 0; rx_tail = 511 }

one_waits-IsRing : IsRing cells one_waits
one_waits-IsRing = record {
  buffer = refl;
  room = refl;
  mask = refl;
  head = omega arith;
  tail = omega arith;
}

isr_receive-waiting_example :
    let after = isr_receive 300 one_waits in
    (next : List ℕ) × IsRing next after
    × (waiting next after ≡ 77 ∷ 44 ∷ [])
    × (after.cnt_overrun_sw ≡ 0)
unfolding waiting queued
isr_receive-waiting_example = isr_receive-waiting cells 300 one_waits one_waits-IsRing
