-- ===== src/Boot/Accepted.antt =====
-- From an update over the boots of its trial and the application's confirmation to every later boot.
use mathlib.Core.Path.{subst}
use bootloader_ota.Base.{
  ℕ, ◌+◌, ◌-◌, some, ◌^◌, ◌≤◌, ◌<◌, ◌≡◌, ◌≢◌, sym, arith, true, List, replicate, length,
}
use bootloader_ota.Layout.{slot_addr, other_slot, slot_size}
use bootloader_ota.Crc.{CrcUnit}
use bootloader_ota.Flash.{Controller}
use bootloader_ota.Flash.Frame.{IsController}
use bootloader_ota.Flash.Working.{IsReady, IsWorking}
use bootloader_ota.Metadata.{Metadata, state_empty, slot}
use bootloader_ota.Metadata.Codec.{IsMetadata}
use bootloader_ota.Store.{metadata_read}
use bootloader_ota.Store.Room.{CounterRoom}
use bootloader_ota.Protocol.State.{Machine}
use bootloader_ota.Protocol.Receive.{feed_all}
use bootloader_ota.Protocol.Transfer.{IsTransfer}
use bootloader_ota.Protocol.Session.Stream.{IsListening}
use bootloader_ota.Protocol.Session.Line.{Event}
use bootloader_ota.Protocol.Session.Quiet.{AreHarmless}
use bootloader_ota.Protocol.Session.Sending.{Sending, AreBlocks, joined, update_frames}
use bootloader_ota.Boot.{listen_then_jump, image_is_intact}
use bootloader_ota.Boot.Strikes.{IsOnTrial, unconfirmed_boots}
use bootloader_ota.App.{confirmed, confirm_startup}
use bootloader_ota.Boot.Confirms.{trial_confirmed}
use bootloader_ota.Boot.Updated.{update-IsOnTrial}
use bootloader_ota.Boot.Installed.{HasVectors}

module _ (unit : CrcUnit) (hw : Controller) (laws : IsController hw) (works : IsWorking hw) where
  -- On a working controller at rest, with a record in store, room for six more, the running image
  -- intact and its slot not empty, and the receiver between frames: when a host sends an image that
  -- fits the slot and begins with sane vectors, as START_UPDATE, DATA and END_UPDATE frames of good
  -- blocks with nothing but harmless events between them, then up to three boots listen and jump to
  -- the new image. When it confirms itself after the last of these, it reports so, and every later
  -- boot listens and jumps to it and writes nothing.
  pub confirmed_update :
      (tries boots : ℕ)
      → tries ≤ 3
      → (seq version : ℕ) (opening : List Event) (blocks : List Sending) (m : Machine)
        (old : Metadata)
      → seq < 2 ^ 16
      → version < 2 ^ 32
      → AreHarmless unit opening
      → AreBlocks unit 0 blocks
      → HasVectors (joined blocks)
      → length (joined blocks) ≤ slot_size
      → IsListening m
      → IsTransfer m
      → IsReady m.flash
      → IsMetadata old
      → metadata_read unit m.flash.mem ≡ some old
      → CounterRoom unit 6 m.flash.mem
      → (slot old old.active_slot).state ≢ state_empty
      → image_is_intact unit m.flash.mem old old.active_slot ≡ true
      → let target = other_slot old.active_slot in
        let app = slot_addr target in
        let after =
          (feed_all unit hw (update_frames unit seq version target opening blocks) m).flash in
        let (plans, run) = unconfirmed_boots unit hw tries after in
        let (said, kept) = confirm_startup unit hw app run in
        (plans ≡ replicate tries (listen_then_jump app))
        × (said ≡ confirmed)
        × (unconfirmed_boots unit hw boots kept ≡ (replicate boots (listen_then_jump app), kept))
  confirmed_update tries boots few seq version opening blocks m old small ver quiet good v fits
        listens h rests e read room filled intact =
      let target = other_slot old.active_slot in
      let after =
        (feed_all unit hw (update_frames unit seq version target opening blocks) m).flash in
      let (new, chosen, trial) =
        update-IsOnTrial unit hw laws works seq version opening blocks m old small ver quiet good v
          fits listens h rests e read room filled intact in
      let parts : tries + (3 - tries) ≡ 3 = omega (arith, few) in
      let start : IsOnTrial unit (tries + (3 - tries)) new after =
        subst (λ k. IsOnTrial unit k new after) (sym parts) trial in
      subst
        (λ k.
          let app = slot_addr k in
          let (plans, run) = unconfirmed_boots unit hw tries after in
          let (said, kept) = confirm_startup unit hw app run in
          (plans ≡ replicate tries (listen_then_jump app))
          × (said ≡ confirmed)
          × (unconfirmed_boots unit hw boots kept ≡ (replicate boots (listen_then_jump app), kept)))
        chosen (trial_confirmed unit hw laws works tries (3 - tries) boots new after start)
