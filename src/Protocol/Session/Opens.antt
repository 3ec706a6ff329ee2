-- ===== src/Protocol/Session/Opens.antt =====
-- START_UPDATE opens a transfer on a working controller.
use bootloader_ota.Base.{
  ℕ, ◌+◌, ◌^◌, ◌≤◌, ◌<◌, ◌≡◌, refl, arith, some, List, [], bytes_at, byte_at, word32_at, u16,
}
use bootloader_ota.Layout.{slot_size}
use bootloader_ota.Crc.{CrcUnit}
use bootloader_ota.Flash.{Controller}
use bootloader_ota.Flash.Frame.{IsController}
use bootloader_ota.Flash.Working.{IsReady, IsWorking}
use bootloader_ota.Metadata.{Metadata}
use bootloader_ota.Metadata.Codec.{IsMetadata}
use bootloader_ota.Store.{meta_ok, metadata_read, metadata_write, select_target, sealed}
use bootloader_ota.Store.Valid.{IsUsable, read-IsUsable}
use bootloader_ota.Store.Committed.{read-write}
use bootloader_ota.Store.Works.{IsSane, metadata_write-succeeds}
use bootloader_ota.Store.Room.{CounterRoom, CounterRoom-below, write-room}
use bootloader_ota.Protocol.State.{Machine}
use bootloader_ota.Protocol.Handlers.{started_record}
use bootloader_ota.Protocol.Start.{
  IsRejected, started_of, started_of-IsMetadata, start_free, opened,
}
use bootloader_ota.Protocol.Session.{IsOpen}

module _ (unit : CrcUnit) where
  started_of-IsSane :
      (old : Metadata) (bs : List ℕ)
      → IsUsable unit old
      → ¬ (IsRejected (some old) bs)
      → IsSane (started_of old bs)
  unfolding started_record
  started_of-IsSane old bs u fine =
      ground (arith, u.active, u.first_state, u.second_state, u.first_size, u.second_size)

  module _ (hw : Controller) (laws : IsController hw) (works : IsWorking hw) where
    -- The write of the started record.
    pub start-written :
        (bs : List ℕ) (m : Machine) (old : Metadata)
        → ((i : ℕ) → byte_at bs i < 256)
        → IsMetadata old
        → IsReady m.flash
        → metadata_read unit m.flash.mem ≡ some old
        → ¬ (IsRejected (some old) bs)
        → let (status, after) = metadata_write unit hw (started_of old bs) m.flash in
          IsMetadata (started_of old bs) × (status ≡ meta_ok) × IsReady after
    start-written bs m old bytes v ready e fine =
        let u = read-IsUsable unit m.flash.mem old e in
        let free = start_free unit hw old bs fine in
        let fits = started_of-IsMetadata old bs bytes v (omega (arith, free, u.active)) in
        let sane = started_of-IsSane old bs u fine in
        let (ok, rests) =
          metadata_write-succeeds unit hw works (started_of old bs) m.flash fits sane ready in
        (fits, ok, rests)

    -- With a working controller at rest and room for the record, an accepted START_UPDATE opens a transfer with nothing stored.
    pub start-IsOpen :
        (seq : ℕ) (bs : List ℕ) (m : Machine) (old : Metadata)
        → seq < 2 ^ 16
        → ((i : ℕ) → byte_at bs i < 256)
        → IsMetadata old
        → CounterRoom unit 2 m.flash.mem
        → IsReady m.flash
        → metadata_read unit m.flash.mem ≡ some old
        → ¬ (IsRejected (some old) bs)
        → let c = (select_target unit m.flash.mem).1 in
          let src = started_of old bs in
          IsOpen unit
            (sealed unit c src)
            (u16 (seq + 1))
            []
            (opened unit hw seq bs m (metadata_write unit hw src m.flash).1)
    start-IsOpen seq bs m old small bytes v room ready e fine =
        let src = started_of old bs in
        let (fits, ok, rests) = start-written bs m old bytes v ready e fine in
        let free = start_free unit hw old bs fine in
        let active = (read-IsUsable unit m.flash.mem old e).active in
        let size : word32_at bs 0 ≤ slot_size = ground arith in
        record {
          transfer = omega (arith, free, active, size);
          receiving = refl;
          written = refl;
          next = refl;
          last = omega arith;
          holds = unfold bytes_at in refl;
          blank = λ a l h. absurd (omega arith);
          ready = rests;
          read =
              read-write unit hw laws src m.flash fits (CounterRoom-below unit 1 m.flash.mem room)
                ok;
          room = write-room unit hw laws 1 src m.flash (omega arith) fits room ok;
        }
