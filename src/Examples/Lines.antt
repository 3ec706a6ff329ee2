-- ===== src/Examples/Lines.antt =====
-- Two images in one block each, as a host sends them over a bad line.
use bootloader_ota.Base.{
  ℕ, ◌≢◌, ◌≤◌, length, zero, suc, ◌+◌, ◌^◌, ◌<◌, ◌≡◌, refl, arith, false, List, [], ◌∷◌, Memory,
  word32_at,
}
use bootloader_ota.Layout.{slot_a_addr}
use bootloader_ota.Crc.{crc32_compute}
use bootloader_ota.Flash.Bytes.{AllBytes}
use bootloader_ota.Store.{load_page}
use bootloader_ota.Store.Room.{CounterRoom}
use bootloader_ota.Protocol.State.{cmd_data, max_payload_size}
use bootloader_ota.Protocol.Send.{frame_body}
use bootloader_ota.Protocol.Session.Line.{Event, noise, damaged, repeated, asked}
use bootloader_ota.Protocol.Session.Quiet.{AreHarmless}
use bootloader_ota.Protocol.Session.Sending.{Sending, AreBlocks}
use bootloader_ota.Boot.Installed.{HasVectors}
use bootloader_ota.Examples.Board.{crc_unit, fits, get_or-fits}
use bootloader_ota.Examples.Boards.{image, load_page-suc}

pub first_page-CounterRoom :
    (n : ℕ) (mem : Memory)
    → (load_page crc_unit 0 mem).1.counter + n < 2 ^ 32
    → (load_page crc_unit 1 mem).0 ≡ false
    → CounterRoom crc_unit n mem
first_page-CounterRoom n mem a b zero usable = a
first_page-CounterRoom n mem a b (suc i) usable = ground (arith, load_page-suc i mem)

abbrev pub block : List ℕ
block = 9 ∷ 8 ∷ 7 ∷ 6 ∷ 5 ∷ 4 ∷ 3 ∷ 2 ∷ []

pub block-AllBytes : AllBytes block
unfolding fits
block-AllBytes = record { each = λ i. get_or-fits block i refl }

-- A question behind START_UPDATE; behind the block noise, a damaged frame and the block again.
abbrev pub opening : List Event
opening = asked 7 ∷ []

pub opening-AreHarmless : AreHarmless crc_unit opening
opening-AreHarmless = omega arith

abbrev pub sent : List ℕ → Sending
sent bs = record {
  block = bs;
  trouble = noise 0x55 ∷ damaged cmd_data 2 block 0 ∷ repeated bs ∷ [];
}

damaged_wrong : 0 ≢ crc32_compute crc_unit (frame_body crc_unit cmd_data 2 block)
unfolding crc32_compute
damaged_wrong = omega arith

sent-AreHarmless :
    (bs : List ℕ) → length bs ≤ max_payload_size → AreHarmless crc_unit (sent bs).trouble
sent-AreHarmless bs short =
    (omega arith, ((omega arith, omega arith, omega arith, damaged_wrong), (short, _)))

pub block-AreBlocks : AreBlocks crc_unit 0 (sent block ∷ [])
block-AreBlocks = (
  record { filled = omega arith; whole = refl; in_page = omega arith; bytes = block-AllBytes },
  omega arith,
  sent-AreHarmless block (omega arith),
  _,
)

abbrev pub bootable : List ℕ
bootable = image slot_a_addr

bootable-AllBytes : AllBytes bootable
unfolding fits
bootable-AllBytes = record { each = λ i. get_or-fits bootable i refl }

pub bootable-HasVectors : HasVectors bootable
unfolding word32_at
bootable-HasVectors = record {
  long = omega arith;
  stack = refl;
  low = omega arith;
  high = omega arith;
  thumb = omega arith;
}

pub bootable-AreBlocks : AreBlocks crc_unit 0 (sent bootable ∷ [])
bootable-AreBlocks = (
  record { filled = omega arith; whole = refl; in_page = omega arith; bytes = bootable-AllBytes },
  omega arith,
  sent-AreHarmless bootable (omega arith),
  _,
)
