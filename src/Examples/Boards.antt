-- ===== src/Examples/Boards.antt =====
-- States of that board: two images, a record of an update under test, and a machine that listens.
use bootloader_ota.Base.{
  ℕ, zero, suc, ◌+◌, ◌^◌, ◌<◌, ◌≡◌, refl, arith, true, false, List, [], ◌∷◌, ◌++◌, replicate,
  Memory, IsBytes, le32,
}
use bootloader_ota.Layout.{slot_a_addr, slot_b_addr, meta_page_a_addr}
use bootloader_ota.Crc.{crc32_compute}
use bootloader_ota.Metadata.{
  SlotInfo, Metadata, zero_slot, zero_metadata, encode, state_valid, state_testing,
}
use bootloader_ota.Store.{meta_page, load_page, sealed}
use bootloader_ota.Store.Committed.{CounterBelow}
use bootloader_ota.Uart.{uart_proto}
use bootloader_ota.Protocol.State.{
  Machine, rx_magic0, proto_idle, proto_receiving, rx_frame_size, timeout_start_ms,
}
use bootloader_ota.Examples.Board.{crc_unit, place, place-IsBytes, fits, blank, idle_flash}

-- A stack pointer, a reset handler, and eight bytes of code.
abbrev pub image : ℕ → List ℕ
image base = le32 0x20010000 ++ le32 (base + 0x101) ++ 1 ∷ 2 ∷ 3 ∷ 4 ∷ 5 ∷ 6 ∷ 7 ∷ 8 ∷ []

abbrev pub image_info : ℕ → ℕ → SlotInfo
image_info base st = record zero_slot {
  size = 16;
  crc32 = crc32_compute crc_unit (image base);
  version = 1;
  state = st;
}

-- Slot B runs for the `fails`-th time without a confirmation; slot A holds the fallback.
abbrev pub trial : ℕ → Metadata
trial fails = sealed crc_unit 7 (record zero_metadata {
  first = image_info slot_a_addr state_valid;
  second = image_info slot_b_addr state_testing;
  active_slot = 1;
  boot_fail_count = fails;
})

abbrev pub images : Memory
images = place slot_a_addr (image slot_a_addr) (place slot_b_addr (image slot_b_addr) blank)

abbrev pub memory_of : ℕ → Memory
memory_of fails = place meta_page_a_addr (encode (trial fails)) images

pub memory_of-IsBytes : (n : ℕ) → fits (encode (trial n)) ≡ true → IsBytes (memory_of n)
unfolding fits
memory_of-IsBytes n fit = place-IsBytes meta_page_a_addr (encode (trial n)) images fit (
    place-IsBytes slot_a_addr (image slot_a_addr) _ refl
      (place-IsBytes slot_b_addr (image slot_b_addr) blank refl (λ a. omega arith)))

-- There are two pages; here the second holds no record.
pub load_page-suc :
    (i : ℕ) (mem : Memory) → load_page crc_unit (suc i) mem ≡ load_page crc_unit 1 mem
unfolding load_page
load_page-suc i mem = let e : meta_page (suc i) ≡ meta_page 1 = ground arith in rw e

pub first_page-CounterBelow :
    (mem : Memory)
    → (load_page crc_unit 0 mem).1.counter + 1 < 2 ^ 32
    → (load_page crc_unit 1 mem).0 ≡ false
    → CounterBelow crc_unit mem
first_page-CounterBelow mem a b zero usable = a
first_page-CounterBelow mem a b (suc i) usable = ground (arith, load_page-suc i mem)

-- As protocol_init leaves the module.
abbrev pub listening : Memory → Machine
listening mem = record {
  rx_state = rx_magic0;
  rx_frame = replicate rx_frame_size 0;
  rx_index = 0;
  rx_expected = 0;
  state = proto_idle;
  expected_seq = 0;
  last_seq = 0xffff;
  target_slot = 0;
  fw_size = 0;
  fw_crc32 = 0;
  fw_version = 0;
  bytes_written = 0;
  last_activity_ms = 0;
  timeout_ms = timeout_start_ms;
  cnt_frames_ok = 0;
  cnt_frames_ko = 0;
  flash = idle_flash mem;
  uart = uart_proto;
  tx = [];
}

-- A transfer of image A that has come as far as `n` bytes.
abbrev pub receiving : ℕ → Machine
receiving n = record (listening (memory_of 3)) {
  state = proto_receiving;
  expected_seq = 4;
  last_seq = 3;
  fw_size = 16;
  fw_crc32 = crc32_compute crc_unit (image slot_a_addr);
  fw_version = 5;
  bytes_written = n;
}
