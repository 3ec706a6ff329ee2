-- ===== src/Protocol/Session/Ends.antt =====
-- END_UPDATE over a whole image on a working controller.
use bootloader_ota.Base.{
  ℕ, ◌^◌, ◌<◌, ◌≡◌, ◌∙◌, sym, ap, refl, arith, some, List, [], ◌++◌, length, Memory, bytes_at,
}
use bootloader_ota.Layout.{slot_addr, other_slot}
use bootloader_ota.Crc.{CrcUnit, crc32_compute, compute-lt}
use bootloader_ota.Flash.{Controller}
use bootloader_ota.Flash.Frame.{IsController}
use bootloader_ota.Flash.Working.{IsWorking}
use bootloader_ota.Metadata.{Metadata, SlotInfo, state_testing, slot}
use bootloader_ota.Metadata.Codec.{IsMetadata}
use bootloader_ota.Store.{
  meta_ok, carried_slot, metadata_read, metadata_write, select_target, sealed,
}
use bootloader_ota.Store.Valid.{IsUsable, read-IsUsable}
use bootloader_ota.Flash.Working.{IsReady}
use bootloader_ota.Store.Committed.{read-write, sealed-IsMetadata, target-lt}
use bootloader_ota.Store.Works.{IsSane, metadata_write-succeeds}
use bootloader_ota.Store.Room.{CounterRoom-below, RoomKept, write-room}
use bootloader_ota.Protocol.State.{Machine, proto_complete, rsp_ack, abort_transfer}
use bootloader_ota.Protocol.Send.{frame, sends}
use bootloader_ota.Protocol.Handlers.{finished_record, stored_image, refuse, on_end_update}
use bootloader_ota.Protocol.Transfer.{IsTransfer}
use bootloader_ota.Protocol.Finish.{finished-IsMetadata, sealed-finished, image_kept}
use bootloader_ota.Protocol.Session.{IsOpen}

-- The record that the next boot reads describes `image`, whole in slot `target`, as under test.
pub record IsInstalled (unit : CrcUnit) (target : ℕ) (image : List ℕ) (other : SlotInfo)
    (mem : Memory) : Type 0 where
  pub new : Metadata
  pub read : metadata_read unit mem ≡ some new
  pub fits : IsMetadata new
  pub active : new.active_slot ≡ target
  pub fails : new.boot_fail_count ≡ 0
  pub testing : (slot new target).state ≡ state_testing
  pub size : (slot new target).size ≡ length image
  pub crc : (slot new target).crc32 ≡ crc32_compute unit image
  pub other_kept : slot new (other_slot target) ≡ other
  pub holds : bytes_at mem (slot_addr target) (length image) ≡ image

module _ (unit : CrcUnit) where
  finished_record-IsSane :
      (old : Metadata) (m : Machine)
      → IsUsable unit old
      → IsTransfer m
      → IsSane (finished_record (some old) m)
  unfolding finished_record
  finished_record-IsSane old m u h =
      ground (arith, u.first_state, u.second_state, u.first_size, u.second_size)

  module _ (hw : Controller) (laws : IsController hw) (works : IsWorking hw) where
    -- The state after the completion.
    abbrev pub completed : ℕ → Metadata → Machine → Machine
    completed seq old m = record m {
      flash = (metadata_write unit hw (finished_record (some old) m) m.flash).1;
      state = proto_complete;
      tx = m.tx ++ frame unit rsp_ack seq [];
    }

    pub end-completed :
        (seq : ℕ) (m : Machine) (old : Metadata)
        → (metadata_write unit hw (finished_record (some old) m) m.flash).0 ≡ meta_ok
        → {next : ℕ} {stored : List ℕ} → IsOpen unit old next stored m
        → m.fw_size ≡ length stored
        → m.fw_crc32 ≡ crc32_compute unit stored
        → on_end_update unit hw seq m ≡ completed seq old m
    unfolding on_end_update refuse abort_transfer
    end-completed seq m old ok {next} {stored} o size crc =
        let image : stored_image m ≡ stored = rw size o.holds in
        simp (sends, o.read) (ground (arith, o.receiving, o.written, size, crc, image, ok))

    -- With a working controller, END_UPDATE over an open transfer that stored everything announced, with the CRC announced, completes: the image is installed.
    pub end-IsInstalled :
        (seq : ℕ) (m : Machine) (old : Metadata)
        → {next : ℕ} {stored : List ℕ} → IsOpen unit old next stored m
        → IsMetadata old
        → m.fw_version < 2 ^ 32
        → m.fw_size ≡ length stored
        → m.fw_crc32 ≡ crc32_compute unit stored
        → ((on_end_update unit hw seq m).state ≡ proto_complete)
          × IsInstalled unit m.target_slot stored
              (carried_slot (slot old (other_slot m.target_slot)))
              (on_end_update unit hw seq m).flash.mem
          × ((on_end_update unit hw seq m).flash
              ≡ (metadata_write unit hw (finished_record (some old) m) m.flash).1)
          × IsReady (on_end_update unit hw seq m).flash
          × RoomKept unit m.flash.mem (on_end_update unit hw seq m).flash.mem
    end-IsInstalled seq m old {next} {stored} o v ver size crc =
        let src = finished_record (some old) m in
        let c = (select_target unit m.flash.mem).1 in
        let base = slot_addr m.target_slot in
        let after = (metadata_write unit hw src m.flash).1 in
        let crc_fits : m.fw_crc32 < 2 ^ 32 = omega (arith, crc, compute-lt unit stored) in
        let fits = finished-IsMetadata unit hw old m o.transfer v crc_fits ver in
        let sane =
          finished_record-IsSane old m (read-IsUsable unit m.flash.mem old o.read) o.transfer in
        let (ok, rests) = metadata_write-succeeds unit hw works src m.flash fits sane o.ready in
        let (active, fails, testing, sized, crc_of, kept) =
          sealed-finished unit hw c old m o.transfer.target in
        rw (end-completed seq m old ok o size crc) (
          refl,
          record {
            new = sealed unit c src;
            read =
                read-write unit hw laws src m.flash fits
                  (CounterRoom-below unit 0 m.flash.mem o.room) ok;
            active = active;
            fails = fails;
            testing = testing;
            size = sized ∙ size;
            crc = crc_of ∙ crc;
            other_kept = kept;
            holds =
                ap (bytes_at after.mem base) (sym size)
                ∙ image_kept unit hw laws src m o.transfer
                ∙ ap (bytes_at m.flash.mem base) size
                ∙ o.holds;
            fits = sealed-IsMetadata unit c src (target-lt unit m.flash.mem) fits;
          },
          refl,
          rests,
          λ k small left. write-room unit hw laws k src m.flash small fits left ok,
        )
