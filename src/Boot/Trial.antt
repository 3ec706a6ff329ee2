-- ===== src/Boot/Trial.antt =====
-- What the decision records of an image under test: one more attempt below the threshold, and
-- past it the switch to the fallback.
use bootloader_ota.Base.{ℕ, ◌+◌, ◌≤◌, ◌<◌, ◌≡◌, ◌≢◌, refl, arith, true, some, IsBytes, Memory}
use bootloader_ota.Layout.{slot_addr, other_slot, max_boot_failures}
use bootloader_ota.Crc.{CrcUnit}
use bootloader_ota.Flash.{Flash, Controller}
use bootloader_ota.Flash.Frame.{IsController}
use bootloader_ota.Metadata.{Metadata, state_empty, state_testing, slot}
use bootloader_ota.Metadata.Codec.{IsMetadata}
use bootloader_ota.Store.{
  meta_ok, carried_slot, metadata_read, metadata_write, select_target, sealed, unsealed,
}
use bootloader_ota.Store.Valid.{read-IsMetadata, read-IsUsable}
use bootloader_ota.Store.Committed.{CounterBelow, read-write}
use bootloader_ota.Boot.{
  listen_then_jump, jump_now, slot_looks_bootable, image_is_intact, roll_back, try_image, decide,
  rolled_back, attempted,
}
use bootloader_ota.Boot.Decision.{image_is_intact-Agree, slot_kept}

module _ (unit : CrcUnit) where
  intact-looks_bootable :
      (mem : Memory) (meta : Metadata) (s : ℕ)
      → image_is_intact unit mem meta s ≡ true
      → slot_looks_bootable mem (slot_addr s) ≡ true
  unfolding image_is_intact
  intact-looks_bootable mem meta s h = ground arith

  pub decide-roll_back :
      (hw : Controller) (meta : Metadata) (flash : Flash)
      → (slot meta meta.active_slot).state ≡ state_testing
      → max_boot_failures ≤ meta.boot_fail_count
      → decide unit hw (some meta) flash ≡ roll_back unit hw meta flash
  unfolding decide
  decide-roll_back hw meta flash testing many = ground arith

  module _ (hw : Controller) (laws : IsController hw) where
    pub sealed-rolled_back :
        (c : ℕ) (meta : Metadata)
        → meta.active_slot ≤ 1
        → let new = sealed unit c (rolled_back meta) in
          let active = meta.active_slot in
          let other = other_slot active in
          (new.active_slot ≡ other)
          × (new.boot_fail_count ≡ 0)
          × (slot new other ≡ carried_slot (slot meta other))
          × (slot new active ≡ record (carried_slot (slot meta active)) { state = state_empty })
    unfolding sealed unsealed
    sealed-rolled_back c meta h = ground arith

    pub rolled_back-IsMetadata : (meta : Metadata) → IsMetadata meta → IsMetadata (rolled_back meta)
    rolled_back-IsMetadata meta h = ground arith

    pub roll_back-result :
        (meta : Metadata) (flash : Flash)
        → (slot meta (other_slot meta.active_slot)).state ≢ state_empty
        → image_is_intact unit flash.mem meta (other_slot meta.active_slot) ≡ true
        → (metadata_write unit hw (rolled_back meta) flash).0 ≡ meta_ok
        → roll_back unit hw meta flash ≡ (
          jump_now (slot_addr (other_slot meta.active_slot)),
          (metadata_write unit hw (rolled_back meta) flash).1,
        )
    unfolding roll_back
    roll_back-result meta flash usable intact ok = ground (
      arith,
      intact-looks_bootable (metadata_write unit hw (rolled_back meta) flash).1.mem meta
          (other_slot meta.active_slot),
      image_is_intact-Agree unit flash.mem (metadata_write unit hw (rolled_back meta) flash).1.mem
          meta (other_slot meta.active_slot)
          (slot_kept unit hw laws (rolled_back meta) flash (other_slot meta.active_slot)),
    )

    -- Past the threshold, with a usable fallback and a record write that succeeds, the bootloader
    -- hands over to the other slot at once. The record then read makes that slot active with no
    -- failed boot, keeps what describes both images, and marks the rejected one empty.
    pub rollback_switches :
        (meta : Metadata) (flash : Flash)
        → IsBytes flash.mem
        → CounterBelow unit flash.mem
        → metadata_read unit flash.mem ≡ some meta
        → (slot meta meta.active_slot).state ≡ state_testing
        → max_boot_failures ≤ meta.boot_fail_count
        → (slot meta (other_slot meta.active_slot)).state ≢ state_empty
        → image_is_intact unit flash.mem meta (other_slot meta.active_slot) ≡ true
        → (metadata_write unit hw (rolled_back meta) flash).0 ≡ meta_ok
        → let (plan, after) = decide unit hw (some meta) flash in
          let active = meta.active_slot in
          let other = other_slot active in
          (new : Metadata) × (plan ≡ jump_now (slot_addr other))
          × (metadata_read unit after.mem ≡ some new)
          × (new.active_slot ≡ other)
          × (new.boot_fail_count ≡ 0)
          × (slot new other ≡ carried_slot (slot meta other))
          × (slot new active ≡ record (carried_slot (slot meta active)) { state = state_empty })
    rollback_switches meta flash bytes below e testing many usable intact ok =
        let c = (select_target unit flash.mem).1 in
        let fits = rolled_back-IsMetadata meta (read-IsMetadata unit flash.mem meta bytes e) in
        let (active, fails, other, rejected) =
          sealed-rolled_back c meta (read-IsUsable unit flash.mem meta e).active in
        rw
          (
            decide-roll_back hw meta flash testing many,
            roll_back-result meta flash usable intact ok,
          )
          (
            sealed unit c (rolled_back meta),
            refl,
            read-write unit hw laws (rolled_back meta) flash fits below ok,
            active,
            fails,
            other,
            rejected,
          )

    pub sealed-attempted :
        (c : ℕ) (meta : Metadata)
        → meta.boot_fail_count < 3
        → let new = sealed unit c (attempted meta) in
          (new.active_slot ≡ meta.active_slot)
          × (new.boot_fail_count ≡ meta.boot_fail_count + 1)
          × (new.first ≡ carried_slot meta.first)
          × (new.second ≡ carried_slot meta.second)
    unfolding sealed unsealed
    sealed-attempted c meta h = ground arith

    pub attempted-IsMetadata : (meta : Metadata) → IsMetadata meta → IsMetadata (attempted meta)
    attempted-IsMetadata meta h = ground arith

    pub decide-attempt :
        (meta : Metadata) (flash : Flash)
        → (slot meta meta.active_slot).state ≡ state_testing
        → meta.boot_fail_count < max_boot_failures
        → image_is_intact unit flash.mem meta meta.active_slot ≡ true
        → decide unit hw (some meta) flash ≡ (
          listen_then_jump (slot_addr meta.active_slot),
          (metadata_write unit hw (attempted meta) flash).1,
        )
    unfolding decide try_image
    decide-attempt meta flash testing few intact = ground arith

    -- Below the threshold an intact image under test is run, and if the record write succeeds, the
    -- record that a reset would read counts one attempt more and is otherwise the same.
    pub attempt_is_counted :
        (meta : Metadata) (flash : Flash)
        → IsBytes flash.mem
        → CounterBelow unit flash.mem
        → metadata_read unit flash.mem ≡ some meta
        → (slot meta meta.active_slot).state ≡ state_testing
        → meta.boot_fail_count < max_boot_failures
        → image_is_intact unit flash.mem meta meta.active_slot ≡ true
        → (metadata_write unit hw (attempted meta) flash).0 ≡ meta_ok
        → let (plan, after) = decide unit hw (some meta) flash in
          (new : Metadata) × (plan ≡ listen_then_jump (slot_addr meta.active_slot))
          × (metadata_read unit after.mem ≡ some new)
          × (new.active_slot ≡ meta.active_slot)
          × (new.boot_fail_count ≡ meta.boot_fail_count + 1)
          × (new.first ≡ carried_slot meta.first)
          × (new.second ≡ carried_slot meta.second)
    attempt_is_counted meta flash bytes below e testing few intact ok =
        let c = (select_target unit flash.mem).1 in
        let fits = attempted-IsMetadata meta (read-IsMetadata unit flash.mem meta bytes e) in
        let (active, count, first, second) = sealed-attempted c meta few in
        rw (decide-attempt meta flash testing few intact) (
          sealed unit c (attempted meta),
          refl,
          read-write unit hw laws (attempted meta) flash fits below ok,
          active,
          count,
          first,
          second,
        )
