-- ===== src/App/Confirm.antt =====
-- What a confirmation writes.
use bootloader_ota.Base.{ℕ, ◌≤◌, ◌≡◌, arith, some, IsBytes}
use bootloader_ota.Layout.{other_slot}
use bootloader_ota.Crc.{CrcUnit}
use bootloader_ota.Flash.{Flash, Controller}
use bootloader_ota.Flash.Frame.{IsController}
use bootloader_ota.Metadata.{Metadata, state_valid, slot}
use bootloader_ota.Metadata.Codec.{IsMetadata}
use bootloader_ota.Store.{
  meta_ok, carried_slot, metadata_read, metadata_write, select_target, sealed, unsealed,
}
use bootloader_ota.Store.Valid.{read-IsMetadata}
use bootloader_ota.Store.Committed.{CounterBelow, read-write}
use bootloader_ota.App.{confirmed, current_slot, confirmed_record, confirm_startup}

pub current_slot-le : (vtor : ℕ) → current_slot vtor ≤ 1
unfolding current_slot
current_slot-le vtor = ground arith

pub confirmed_record-IsMetadata :
    (s : ℕ) (meta : Metadata) → IsMetadata meta → IsMetadata (confirmed_record s meta)
confirmed_record-IsMetadata s meta h = ground arith

module _ (unit : CrcUnit) (hw : Controller) where
  pub sealed-confirmed_record :
      (c s : ℕ) (meta : Metadata)
      → s ≤ 1
      → let new = sealed unit c (confirmed_record s meta) in
        (new.active_slot ≡ meta.active_slot)
        × (new.boot_fail_count ≡ 0)
        × (slot new s ≡ record (carried_slot (slot meta s)) { state = state_valid })
        × (slot new (other_slot s) ≡ carried_slot (slot meta (other_slot s)))
  unfolding sealed unsealed
  sealed-confirmed_record c s meta small = ground arith

  pub confirmation-write :
      (vtor : ℕ) (flash : Flash) (meta : Metadata)
      → metadata_read unit flash.mem ≡ some meta
      → (confirm_startup unit hw vtor flash).0 ≡ confirmed
      → let written = metadata_write unit hw (confirmed_record (current_slot vtor) meta) flash in
        (written.0 ≡ meta_ok) × ((confirm_startup unit hw vtor flash).1 ≡ written.1)
  unfolding confirm_startup
  confirmation-write vtor flash meta e done = ground arith

  module _ (laws : IsController hw) where
    -- Where the application reports its start-up confirmed, the record that is read next has its own
    -- slot VALID and no failed boot; the slot's size, CRC and version, what describes the other
    -- slot, and the active slot are those from before.
    pub confirm_startup-read :
        (vtor : ℕ) (flash : Flash) (meta : Metadata)
        → IsBytes flash.mem
        → CounterBelow unit flash.mem
        → metadata_read unit flash.mem ≡ some meta
        → (confirm_startup unit hw vtor flash).0 ≡ confirmed
        → let self = current_slot vtor in
          (new : Metadata) × (metadata_read unit (confirm_startup unit hw vtor flash).1.mem
            ≡ some new)
          × (new.active_slot ≡ meta.active_slot)
          × (new.boot_fail_count ≡ 0)
          × (slot new self ≡ record (carried_slot (slot meta self)) { state = state_valid })
          × (slot new (other_slot self) ≡ carried_slot (slot meta (other_slot self)))
    confirm_startup-read vtor flash meta bytes below e done =
        let self = current_slot vtor in
        let c = (select_target unit flash.mem).1 in
        let (ok, same) = confirmation-write vtor flash meta e done in
        let fits =
          confirmed_record-IsMetadata self meta (read-IsMetadata unit flash.mem meta bytes e) in
        let (active, count, own, other) =
          sealed-confirmed_record c self meta (current_slot-le vtor) in
        rw same (
          sealed unit c (confirmed_record self meta),
          read-write unit hw laws (confirmed_record self meta) flash fits below ok,
          active,
          count,
          own,
          other,
        )
