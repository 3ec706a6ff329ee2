-- ===== src/Boot/Rejected.antt =====
-- From an update whose image never confirms, over its trial, back to the image that ran before.
use mathlib.Core.Path.{subst}
use bootloader_ota.Base.{
  ℕ, some, ◌^◌, ◌≤◌, ◌<◌, ◌≡◌, ◌≢◌, ◌∙◌, ap, true, List, [], ◌∷◌, ◌++◌, replicate, length,
}
use bootloader_ota.Layout.{slot_addr, other_slot, slot_size}
use bootloader_ota.Crc.{CrcUnit}
use bootloader_ota.Flash.{Controller}
use bootloader_ota.Flash.Frame.{IsController}
use bootloader_ota.Flash.Working.{IsReady, IsWorking}
use bootloader_ota.Metadata.{Metadata, state_empty, slot}
use bootloader_ota.Metadata.Codec.{IsMetadata}
use bootloader_ota.Store.{metadata_read}
use bootloader_ota.Store.Valid.{read-IsUsable}
use bootloader_ota.Store.Room.{CounterRoom}
use bootloader_ota.Protocol.State.{Machine}
use bootloader_ota.Protocol.Receive.{feed_all}
use bootloader_ota.Protocol.Transfer.{IsTransfer}
use bootloader_ota.Protocol.Session.Stream.{IsListening}
use bootloader_ota.Protocol.Session.Line.{Event}
use bootloader_ota.Protocol.Session.Quiet.{AreHarmless}
use bootloader_ota.Protocol.Session.Sending.{Sending, AreBlocks, joined, update_frames}
use bootloader_ota.Boot.{listen_then_jump, jump_now, image_is_intact}
use bootloader_ota.Boot.Strikes.{SwitchedFrom, unconfirmed_boots, boots_then_fallback}
use bootloader_ota.Boot.Updated.{update-IsOnTrial, other_back}
use bootloader_ota.Boot.Installed.{HasVectors}

module _ (unit : CrcUnit) (hw : Controller) (laws : IsController hw) (works : IsWorking hw) where
  -- On a working controller at rest, with a record in store, room for six more, the running image
  -- intact and its slot not empty, and the receiver between frames: when a host sends an image that
  -- fits the slot and begins with sane vectors, as START_UPDATE, DATA and END_UPDATE frames of good
  -- blocks with nothing but harmless events between them, and the image then never confirms, the next three boots listen and jump to the new
  -- image. The fourth jumps to the image that ran before the update; the record then read has that
  -- image active, no failed boot, and the slot of the new image empty.
  pub unconfirmed_update :
      (seq version : ℕ) (opening : List Event) (blocks : List Sending) (m : Machine)
      (old : Metadata)
      → seq < 2 ^ 16
      → version < 2 ^ 32
      → AreHarmless unit opening
      → AreBlocks unit 0 blocks
      → HasVectors (joined blocks)
      → length (joined blocks) ≤ slot_size
      → IsListening m
      → IsTransfer m
      → IsReady m.flash
      → IsMetadata old
      → metadata_read unit m.flash.mem ≡ some old
      → CounterRoom unit 6 m.flash.mem
      → (slot old old.active_slot).state ≢ state_empty
      → image_is_intact unit m.flash.mem old old.active_slot ≡ true
      → let target = other_slot old.active_slot in
        let after =
          (feed_all unit hw (update_frames unit seq version target opening blocks) m).flash in
        let (plans, last) = unconfirmed_boots unit hw 4 after in
        (plans
          ≡ replicate 3 (listen_then_jump (slot_addr target))
            ++ (jump_now (slot_addr old.active_slot) ∷ []))
        × SwitchedFrom unit hw laws works target last
  unconfirmed_update seq version opening blocks m old small ver quiet good v fits listens h rests e
        read room filled intact =
      let target = other_slot old.active_slot in
      let low = (read-IsUsable unit m.flash.mem old read).active in
      let after =
        (feed_all unit hw (update_frames unit seq version target opening blocks) m).flash in
      let (new, chosen, trial) =
        update-IsOnTrial unit hw laws works seq version opening blocks m old small ver quiet good v
          fits listens h rests e read room filled intact in
      let (plans, switched) = boots_then_fallback unit hw laws works 3 new after trial in
      (
        plans
            ∙ ap
                (λ k.
                  replicate 3 (listen_then_jump (slot_addr k))
                  ++ (jump_now (slot_addr (other_slot k)) ∷ []))
                chosen
            ∙ ap
                (λ k.
                  replicate 3 (listen_then_jump (slot_addr target))
                  ++ (jump_now (slot_addr k) ∷ []))
                (other_back old.active_slot low),
        subst (λ k. SwitchedFrom unit hw laws works k (unconfirmed_boots unit hw 4 after).1) chosen
            switched,
      )
