-- ===== src/Protocol/Data.antt =====
-- What DATA does to the flash.
use mathlib.Core.Path.{ap₂}
use bootloader_ota.Base.{
  ℕ, ◌+◌, ◌%◌, ◌^◌, ◌≤◌, ◌<◌, ◌≡◌, ◌∙◌, inl, inr, arith, ◌==◌, if◌then◌else◌, Bool-cases, List, [],
  ◌++◌, length, Agree, bytes_at, bytes_at-Agree, bytes_at-append,
}
use bootloader_ota.Layout.{slot_addr, slot_size, flash_page_size}
use bootloader_ota.Crc.{CrcUnit}
use bootloader_ota.Flash.{Flash, Controller, flash_ok, flash_erase_page, flash_write}
use bootloader_ota.Flash.Frame.{IsController, Outside, erase_page-mem, write-mem}
use bootloader_ota.Flash.Verify.{write-bytes_at}
use bootloader_ota.Protocol.State.{Machine, proto_receiving, rsp_ack, abort_transfer}
use bootloader_ota.Protocol.Send.{frame, sends}
use bootloader_ota.Protocol.Handlers.{refuse, store_block, on_data}
use bootloader_ota.Protocol.Transfer.{IsTransfer}

module _ (unit : CrcUnit) (hw : Controller) where
  -- While a transfer is open, a DATA frame with the number that was taken last is acknowledged
  -- again: an ACK is sent, and nothing else changes, the flash included.
  pub data_retransmission :
      (bs : List ℕ) (m : Machine)
      → m.state ≡ proto_receiving
      → on_data unit hw m.last_seq bs m ≡ record m { tx = m.tx ++ frame unit rsp_ack m.last_seq [] }
  unfolding on_data
  data_retransmission bs m h = simp sends (ground arith)

  -- The controller's state when the block is written.
  abbrev pub ready : Machine → Flash
  ready m =
      if m.bytes_written % flash_page_size == 0
      then (flash_erase_page hw (slot_addr m.target_slot + m.bytes_written) m.flash).1
      else m.flash

  module _ (laws : IsController hw) where
    pub ready-mem :
        (m : Machine) (a : ℕ)
        → (m.bytes_written % flash_page_size ≡ 0
            → Outside (slot_addr m.target_slot + m.bytes_written) flash_page_size a)
        → (ready m).mem a ≡ m.flash.mem a
    ready-mem m a out = elim (Bool-cases (m.bytes_written % flash_page_size == 0)) [
      | inl e ↦ rw e (erase_page-mem hw laws _ m.flash a (out (ground arith)))
      | inr e ↦ rw e
    ]

    store_block-mem :
        (seq : ℕ) (bs : List ℕ) (m : Machine) (a : ℕ)
        → IsTransfer m
        → 0 < length bs
        → m.bytes_written + length bs ≤ m.fw_size
        → Outside (slot_addr m.target_slot) slot_size a
        → (store_block unit hw seq bs m).flash.mem a ≡ m.flash.mem a
    unfolding store_block refuse abort_transfer
    store_block-mem seq bs m a h pos fits out =
        let address = slot_addr m.target_slot + m.bytes_written in
        simp sends (
          ground (
            arith,
            erase_page-mem hw laws address m.flash a,
            write-mem hw laws address bs (flash_erase_page hw address m.flash).1 a,
            write-mem hw laws address bs m.flash a,
          ))

    -- Under the transfer invariant, and with the controller held to its laws, no DATA frame changes
    -- a byte outside the target slot, whatever becomes of it.
    pub on_data-mem :
        (seq : ℕ) (bs : List ℕ) (m : Machine) (a : ℕ)
        → IsTransfer m
        → length bs < 2 ^ 16
        → Outside (slot_addr m.target_slot) slot_size a
        → (on_data unit hw seq bs m).flash.mem a ≡ m.flash.mem a
    unfolding on_data refuse abort_transfer
    on_data-mem seq bs m a h short out = simp sends (ground (arith, store_block-mem seq bs m a h))

    counted_write :
        (seq : ℕ) (bs : List ℕ) (m : Machine)
        → IsTransfer m
        → 0 < length bs
        → (on_data unit hw seq bs m).bytes_written ≡ m.bytes_written + length bs
        → let written = flash_write hw (slot_addr m.target_slot + m.bytes_written) bs (ready m) in
          (written.0 ≡ flash_ok) × ((on_data unit hw seq bs m).flash ≡ written.1)
    unfolding on_data store_block refuse abort_transfer
    counted_write seq bs m h pos = simp sends (ground arith)

    -- Under the transfer invariant, a nonempty block that DATA adds to the count of bytes written lies
    -- in the target slot, behind the bytes counted before, which are unchanged.
    pub on_data-stored :
        (seq : ℕ) (bs : List ℕ) (m : Machine)
        → IsTransfer m
        → length bs < 2 ^ 16
        → 0 < length bs
        → (on_data unit hw seq bs m).bytes_written ≡ m.bytes_written + length bs
        → let after = (on_data unit hw seq bs m).flash.mem in
          bytes_at after (slot_addr m.target_slot) (m.bytes_written + length bs)
          ≡ bytes_at m.flash.mem (slot_addr m.target_slot) m.bytes_written ++ bs
    on_data-stored seq bs m h short pos counted =
        let base = slot_addr m.target_slot in
        let (ok, same) = counted_write seq bs m h pos counted in
        let kept : Agree base (base + m.bytes_written) m.flash.mem
            (flash_write hw (base + m.bytes_written) bs (ready m)).1.mem =
          λ a p q.
            write-mem hw laws _ bs (ready m) a (omega arith) ∙ ready-mem m a (λ e. omega arith) in
        rw (same, bytes_at-append)
          (ap₂ ◌++◌ (bytes_at-Agree m.flash.mem _ base m.bytes_written kept)
            (write-bytes_at hw (base + m.bytes_written) bs (ready m) ok))
