-- ===== src/Protocol/Finish.antt =====
-- What END_UPDATE promises: it completes only over a whole image whose CRC is the announced one,
-- and then the stored record describes exactly the image that lies in flash.
use bootloader_ota.Base.{
  ℕ, ◌^◌, ◌≤◌, ◌<◌, ◌≡◌, ◌≢◌, ◌⊎◌, ◌∙◌, sym, arith, some, IsBytes, bytes_at, bytes_at-Agree,
}
use bootloader_ota.Layout.{slot_addr, other_slot}
use bootloader_ota.Crc.{CrcUnit, crc32_compute, compute-lt}
use bootloader_ota.Flash.{Controller}
use bootloader_ota.Flash.Frame.{IsController}
use bootloader_ota.Metadata.{Metadata, state_testing, slot}
use bootloader_ota.Metadata.Codec.{IsMetadata}
use bootloader_ota.Store.{
  meta_ok, carried_slot, metadata_read, metadata_write, select_target, sealed, unsealed,
}
use bootloader_ota.Store.Valid.{read-IsMetadata}
use bootloader_ota.Store.Atomic.{target-cases, metadata_write-mem}
use bootloader_ota.Store.Committed.{CounterBelow, read-write}
use bootloader_ota.Protocol.State.{
  Machine, proto_receiving, proto_idle, proto_complete, abort_transfer,
}
use bootloader_ota.Protocol.Send.{sends}
use bootloader_ota.Protocol.Handlers.{stored_image, finished_record, refuse, on_end_update}
use bootloader_ota.Protocol.Transfer.{IsTransfer}

module _ (unit : CrcUnit) (hw : Controller) where
  -- An open transfer that is short of its size, or whose stored bytes have another CRC than announced, is
  -- refused and aborted: no byte of flash changes, so neither does the record.
  pub end_refused :
      (seq : ℕ) (m : Machine)
      → m.state ≡ proto_receiving
      → (m.bytes_written ≢ m.fw_size) ⊎ (crc32_compute unit (stored_image m) ≢ m.fw_crc32)
      → ((on_end_update unit hw seq m).flash ≡ m.flash)
        × ((on_end_update unit hw seq m).state ≡ proto_idle)
        × ((on_end_update unit hw seq m).bytes_written ≡ 0)
  unfolding on_end_update refuse abort_transfer
  end_refused seq m receiving bad = simp sends (ground arith)

  -- What a completion implies of the state before it and of the metadata write.
  completion :
      (seq : ℕ) (m : Machine) (old : Metadata)
      → metadata_read unit m.flash.mem ≡ some old
      → m.state ≡ proto_receiving
      → (on_end_update unit hw seq m).state ≡ proto_complete
      → let written = metadata_write unit hw (finished_record (some old) m) m.flash in
        (m.bytes_written ≡ m.fw_size)
        × (crc32_compute unit (stored_image m) ≡ m.fw_crc32)
        × (written.0 ≡ meta_ok)
        × ((on_end_update unit hw seq m).flash ≡ written.1)
  unfolding on_end_update refuse abort_transfer
  completion seq m old e receiving done = simp (sends, e) (ground arith)

  pub finished-IsMetadata :
      (old : Metadata) (m : Machine)
      → IsTransfer m
      → IsMetadata old
      → m.fw_crc32 < 2 ^ 32
      → m.fw_version < 2 ^ 32
      → IsMetadata (finished_record (some old) m)
  unfolding finished_record
  finished-IsMetadata old m h v crc ver = ground arith

  pub sealed-finished :
      (c : ℕ) (old : Metadata) (m : Machine)
      → m.target_slot ≤ 1
      → let new = sealed unit c (finished_record (some old) m) in
        let other = other_slot m.target_slot in
        (new.active_slot ≡ m.target_slot)
        × (new.boot_fail_count ≡ 0)
        × ((slot new m.target_slot).state ≡ state_testing)
        × ((slot new m.target_slot).size ≡ m.fw_size)
        × ((slot new m.target_slot).crc32 ≡ m.fw_crc32)
        × (slot new other ≡ carried_slot (slot old other))
  unfolding sealed unsealed finished_record
  sealed-finished c old m h = ground arith

  module _ (laws : IsController hw) where
    -- A metadata write does not reach into a slot.
    pub image_kept :
        (src : Metadata) (m : Machine)
        → IsTransfer m
        → bytes_at (metadata_write unit hw src m.flash).1.mem (slot_addr m.target_slot) m.fw_size
          ≡ stored_image m
    image_kept src m h = bytes_at-Agree m.flash.mem _ (slot_addr m.target_slot) m.fw_size (λ a p q.
        metadata_write-mem unit hw laws src m.flash a
          (ground (arith, target-cases unit m.flash.mem)))

    -- When END_UPDATE completes a transfer, the whole image had been written, and the record that
    -- the next boot reads makes the target slot active and TESTING with no failed boot, gives it
    -- the image's size and the CRC of the bytes that lie in the slot, and keeps the description of
    -- the other slot.
    pub end_completed :
        (seq : ℕ) (m : Machine) (old : Metadata)
        → IsTransfer m
        → IsBytes m.flash.mem
        → CounterBelow unit m.flash.mem
        → m.fw_version < 2 ^ 32
        → metadata_read unit m.flash.mem ≡ some old
        → m.state ≡ proto_receiving
        → (on_end_update unit hw seq m).state ≡ proto_complete
        → let after = (on_end_update unit hw seq m).flash.mem in
          let target = m.target_slot in
          (m.bytes_written ≡ m.fw_size)
          × (new : Metadata) × (metadata_read unit after ≡ some new)
          × (new.active_slot ≡ target)
          × (new.boot_fail_count ≡ 0)
          × ((slot new target).state ≡ state_testing)
          × ((slot new target).size ≡ m.fw_size)
          × ((slot new target).crc32
              ≡ crc32_compute unit (bytes_at after (slot_addr target) (slot new target).size))
          × (slot new (other_slot target) ≡ carried_slot (slot old (other_slot target)))
    end_completed seq m old h bytes below ver e receiving done =
        let src = finished_record (some old) m in
        let c = (select_target unit m.flash.mem).1 in
        let (whole, verified, ok, same) = completion seq m old e receiving done in
        let crc_fits : m.fw_crc32 < 2 ^ 32 = rw (← verified) (compute-lt unit (stored_image m)) in
        let fits =
          finished-IsMetadata old m h (read-IsMetadata unit m.flash.mem old bytes e) crc_fits ver in
        let (active, fails, testing, size, crc, kept) = sealed-finished c old m h.target in
        rw same (
          whole,
          sealed unit c src,
          read-write unit hw laws src m.flash fits below ok,
          active,
          fails,
          testing,
          size,
          rw (size, image_kept src m h) (crc ∙ sym verified),
          kept,
        )
