-- ===== src/Boot/Updated.antt =====
-- A whole update puts its image on trial.
use mathlib.Core.Path.{subst}
use bootloader_ota.Base.{ℕ, some, ◌^◌, ◌≤◌, ◌<◌, ◌≡◌, ◌≢◌, ◌∙◌, sym, ap, arith, true, List, length}
use bootloader_ota.Layout.{slot_addr, other_slot, slot_size}
use bootloader_ota.Crc.{CrcUnit}
use bootloader_ota.Flash.{Flash, Controller}
use bootloader_ota.Flash.Frame.{IsController}
use bootloader_ota.Flash.Working.{IsReady, IsWorking}
use bootloader_ota.Metadata.{Metadata, SlotInfo, state_empty, slot}
use bootloader_ota.Metadata.Codec.{IsMetadata}
use bootloader_ota.Store.{carried_slot, metadata_read}
use bootloader_ota.Store.Valid.{read-IsUsable}
use bootloader_ota.Store.Room.{CounterRoom}
use bootloader_ota.Protocol.State.{Machine}
use bootloader_ota.Protocol.Receive.{feed_all}
use bootloader_ota.Protocol.Transfer.{IsTransfer}
use bootloader_ota.Protocol.Session.Ends.{IsInstalled}
use bootloader_ota.Protocol.Session.Stream.{IsListening}
use bootloader_ota.Protocol.Session.Line.{Event}
use bootloader_ota.Protocol.Session.Quiet.{AreHarmless}
use bootloader_ota.Protocol.Session.Sending.{Sending, AreBlocks, joined, update_frames}
use bootloader_ota.Protocol.Session.Complete.{update_run}
use bootloader_ota.Boot.{image_is_intact}
use bootloader_ota.Boot.Decision.{image_is_intact-Agree}
use bootloader_ota.Boot.Strikes.{IsOnTrial, image_is_intact-carried}
use bootloader_ota.Boot.Installed.{HasVectors, stored_bootable, installed-intact}

pub other_back : (a : ℕ) → a ≤ 1 → other_slot (other_slot a) ≡ a
other_back a low = ground (arith, low)

module _ (unit : CrcUnit) (hw : Controller) (laws : IsController hw) where
  -- An installed image is on trial when the image that ran before is intact.
  installed-IsOnTrial :
      (old : Metadata) (image : List ℕ) (flash : Flash)
      → (done : IsInstalled unit
          (other_slot old.active_slot)
          image
          (carried_slot (slot old old.active_slot))
          flash.mem)
      → old.active_slot ≤ 1
      → HasVectors image
      → (slot old old.active_slot).state ≢ state_empty
      → image_is_intact unit flash.mem old old.active_slot ≡ true
      → CounterRoom unit 4 flash.mem
      → IsReady flash
      → IsOnTrial unit 3 done.new flash
  installed-IsOnTrial old image flash done low v filled intact room ready =
      let new = done.new in
      let mine = old.active_slot in
      let target = other_slot mine in
      let back : other_slot new.active_slot ≡ mine =
        ap other_slot done.active ∙ other_back mine low in
      let kept : slot new mine ≡ carried_slot (slot old mine) =
        ap (slot new) (sym (other_back mine low)) ∙ done.other_kept in
      record {
        read = done.read;
        fits = done.fits;
        testing = ap (λ k. SlotInfo.state (slot new k)) done.active ∙ done.testing;
        left = omega (arith, done.fails);
        intact =
            subst (λ k. image_is_intact unit flash.mem new k ≡ true) (sym done.active)
              (installed-intact unit hw laws target image (carried_slot (slot old mine)) flash done
                (omega (arith, v.long))
                (stored_bootable flash.mem (slot_addr target) image v done.holds));
        filled = rw (back, kept) filled;
        fallback =
            subst (λ k. image_is_intact unit flash.mem new k ≡ true) (sym back)
              (image_is_intact-carried unit flash.mem old new mine kept intact);
        room = room;
        ready = ready;
      }

  module _ (works : IsWorking hw) where
    -- After an update the new image is on trial, with all its boots left.
    pub update-IsOnTrial :
        (seq version : ℕ) (opening : List Event) (blocks : List Sending) (m : Machine)
        (old : Metadata)
        → seq < 2 ^ 16
        → version < 2 ^ 32
        → AreHarmless unit opening
        → AreBlocks unit 0 blocks
        → HasVectors (joined blocks)
        → length (joined blocks) ≤ slot_size
        → IsListening m
        → IsTransfer m
        → IsReady m.flash
        → IsMetadata old
        → metadata_read unit m.flash.mem ≡ some old
        → CounterRoom unit 6 m.flash.mem
        → (slot old old.active_slot).state ≢ state_empty
        → image_is_intact unit m.flash.mem old old.active_slot ≡ true
        → let target = other_slot old.active_slot in
          let after =
            (feed_all unit hw (update_frames unit seq version target opening blocks) m).flash in
          (new : Metadata) × (new.active_slot ≡ target) × IsOnTrial unit 3 new after
    update-IsOnTrial seq version opening blocks m old small ver quiet good v fits listens h rests e
          read room filled intact =
        let mine = old.active_slot in
        let target = other_slot mine in
        let image = joined blocks in
        let low = (read-IsUsable unit m.flash.mem old read).active in
        let after =
          (feed_all unit hw (update_frames unit seq version target opening blocks) m).flash in
        let (complete, again, done, rested, kept, left) =
          update_run unit hw laws works seq version opening blocks m old small ver quiet good
            (omega (arith, v.long)) fits listens h rests e read
            (λ i usable. omega (arith, room i usable)) in
        let still = image_is_intact-Agree unit m.flash.mem after.mem old mine kept intact in
        (
          done.new,
          done.active,
          installed-IsOnTrial old image after done low v filled still (left 4 (omega arith) room)
              rested,
        )
