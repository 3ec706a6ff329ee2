-- ===== src/Examples/Served.antt =====
-- A board that runs, and a host that updates it in the listen window.
use mathlib.Core.List.{map}
use bootloader_ota.Base.{
  ℕ, ◌<◌, ap, take, drop, Bool, ltb, ◌&&◌, ◌≡◌, refl, arith, true, false, some, List, [], ◌∷◌, ◌++◌,
  Memory, bytes_at, word32_at, length, replicate,
}
use bootloader_ota.Layout.{slot_a_addr, slot_b_addr, meta_page_a_addr}
use bootloader_ota.Crc.{crc32_compute}
use bootloader_ota.Metadata.{
  Metadata, zero_metadata, encode, encode_covered, encode_slot, decode, decode_slot, state_valid,
}
use bootloader_ota.Metadata.Codec.{IsMetadata}
use bootloader_ota.Store.{
  carried_slot, load_page, metadata_read, metadata_is_valid, sealed, unsealed,
}
use bootloader_ota.Store.Room.{CounterRoom}
use bootloader_ota.Uart.{Isr, uart_proto, uart_rx_buffer_size}
use bootloader_ota.Uart.Ring.{IsRing, waiting, queued}
use bootloader_ota.Protocol.Send.{frame}
use bootloader_ota.Protocol.Session.Ends.{IsInstalled}
use bootloader_ota.Protocol.Session.Messages.{start_bytes, data_bytes, end_bytes}
use bootloader_ota.Boot.Window.{AllWithin}
use bootloader_ota.Boot.{
  Turn, restarted, boot, boot_request_magic, boot_request_pending, image_is_intact,
  slot_looks_bootable,
}
use bootloader_ota.Boot.Pieces.{AreBytes, AreTurns, AllInTime, bytes_in, brought}
use bootloader_ota.Boot.Served.{boot_installs}
use bootloader_ota.Examples.Board.{crc_unit, place, fits}
use bootloader_ota.Examples.Boards.{image_info, images, listening}
use bootloader_ota.Examples.Lines.{
  opening, opening-AreHarmless, sent, bootable, bootable-AreBlocks, first_page-CounterRoom,
}
use bootloader_ota.Examples.Worker.{
  worker, worker-IsController, worker-IsWorking, idle_flash-IsReady,
}

-- Slot B runs, confirmed.
abbrev pub settled : Metadata
settled = sealed crc_unit 7 (record zero_metadata {
  first = image_info slot_a_addr state_valid;
  second = image_info slot_b_addr state_valid;
  active_slot = 1;
})

abbrev pub settled_memory : Memory
settled_memory = place meta_page_a_addr (encode settled) images

pub reads_settled : metadata_read crc_unit settled_memory ≡ some settled
unfolding metadata_read load_page sealed unsealed crc32_compute encode encode_covered decode
    metadata_is_valid bytes_at encode_slot decode_slot word32_at
reads_settled = refl

settled-IsMetadata : IsMetadata settled
unfolding sealed unsealed crc32_compute encode_covered encode_slot
settled-IsMetadata = omega arith

pub settled_intact : image_is_intact crc_unit settled_memory settled 1 ≡ true
unfolding sealed unsealed load_page image_is_intact slot_looks_bootable bytes_at word32_at
    crc32_compute encode encode_covered encode_slot decode decode_slot metadata_is_valid
settled_intact = refl

settled-CounterRoom : CounterRoom crc_unit 2 settled_memory
unfolding load_page sealed unsealed crc32_compute encode encode_covered decode metadata_is_valid
    bytes_at encode_slot decode_slot word32_at
settled-CounterRoom = first_page-CounterRoom 2 settled_memory (omega arith) refl

-- A byte, one interrupt; a message, one turn.
abbrev byte_in : ℕ → Isr × ℕ
byte_in b = (record { ore = false; fe = false; ne = false; pe = false; rxne = true }, b)

abbrev turn_of : ℕ × List ℕ → Turn
turn_of (now, x) = record { interrupts = map byte_in x; now = now }

bytes_back : (x : List ℕ) → bytes_in (map byte_in x) ≡ x
bytes_back [] = refl
bytes_back (b ∷ bs) = ap (λ t. b ∷ t) (bytes_back bs)

fits-AreBytes : (x : List ℕ) → fits x ≡ true → AreBytes (map byte_in x)
unfolding fits
fits-AreBytes [] h = _
fits-AreBytes (b ∷ bs) h = (refl, ground arith, fits-AreBytes bs (ground arith))

can_come : List (ℕ × List ℕ) → Bool
can_come [] = true
can_come ((now, x) ∷ xs) = fits x && ltb (length x) uart_rx_buffer_size && can_come xs

can_come-AreTurns : (xs : List (ℕ × List ℕ)) → can_come xs ≡ true → AreTurns (map turn_of xs)
unfolding can_come
can_come-AreTurns [] h = _
can_come-AreTurns ((now, x) ∷ xs) h = (
  fits-AreBytes x (ground arith),
  rw (bytes_back x) (ground arith),
  can_come-AreTurns xs (ground arith),
)

-- The bytes come in pieces, with turns between them that bring none.
abbrev first : List ℕ
first = start_bytes crc_unit 0 5 0 (sent bootable ∷ [])

abbrev others : List ℕ
others =
    data_bytes crc_unit 0 opening (sent bootable ∷ []) ++ end_bytes crc_unit 0 (sent bootable ∷ [])

abbrev before : List (ℕ × List ℕ)
before = (4000, []) ∷ (29000, take 5 first) ∷ (29001, []) ∷ []

abbrev opens : ℕ × List ℕ
opens = (90000, drop 5 first)

abbrev during : List (ℕ × List ℕ)
during =
    (94000, [])
    ∷ (95001, take 9 others)
    ∷ (99000, [])
    ∷ (100000, [])
    ∷ (100001, take 20 (drop 9 others))
    ∷ (100002, drop 29 (take 40 others))
    ∷ []

abbrev ends : ℕ × List ℕ
ends = (100003, drop 40 others)

pieces-AreTurns :
    AreTurns (map turn_of before ++ (turn_of opens ∷ (map turn_of during ++ (turn_of ends ∷ []))))
unfolding frame crc32_compute fits can_come
pieces-AreTurns = can_come-AreTurns (before ++ (opens ∷ (during ++ (ends ∷ [])))) refl

brings_first : brought (map turn_of before) ++ bytes_in (turn_of opens).interrupts ≡ first
unfolding frame crc32_compute
brings_first = refl

brings_others : brought (map turn_of during) ++ bytes_in (turn_of ends).interrupts ≡ others
unfolding frame crc32_compute
brings_others = refl

some_open : 0 < length (bytes_in (turn_of opens).interrupts)
unfolding frame crc32_compute
some_open = omega arith

some_end : 0 < length (bytes_in (turn_of ends).interrupts)
unfolding frame crc32_compute
some_end = omega arith

before-AllWithin : AllWithin 30000 0 (map turn_of before)
before-AllWithin = (omega arith, (omega arith, (omega arith, tt)))

during-AllInTime : AllInTime 90000 (map turn_of during)
unfolding frame crc32_compute
during-AllInTime = omega arith

abbrev cells : List ℕ
cells = replicate uart_rx_buffer_size 0

proto-IsRing : IsRing cells uart_proto
proto-IsRing = record {
  buffer = refl;
  room = refl;
  mask = refl;
  head = omega arith;
  tail = omega arith;
}

proto_empty : waiting cells uart_proto ≡ []
unfolding waiting queued
proto_empty = refl

boot_installs_example :
    let booted =
      boot crc_unit worker boot_request_magic 0
        (map turn_of before ++ (turn_of opens ∷ (map turn_of during ++ (turn_of ends ∷ []))))
        (listening settled_memory) in
    (booted.outcome ≡ restarted)
    × IsInstalled crc_unit 0 bootable (carried_slot settled.second) booted.machine.flash.mem
    × (boot_request_pending booted.request ≡ false)
unfolding sealed unsealed boot_request_pending
boot_installs_example =
    boot_installs crc_unit worker worker-IsController worker-IsWorking boot_request_magic 0 0 5
      opening (sent bootable ∷ []) (listening settled_memory) settled cells (map turn_of before)
      (turn_of opens) (map turn_of during) (turn_of ends) [] (omega arith) (omega arith)
      opening-AreHarmless bootable-AreBlocks (omega arith) (omega arith) refl
      (idle_flash-IsReady settled_memory) settled-IsMetadata reads_settled refl settled_intact
      settled-CounterRoom proto-IsRing proto_empty pieces-AreTurns some_open some_end
      before-AllWithin during-AllInTime brings_first brings_others
