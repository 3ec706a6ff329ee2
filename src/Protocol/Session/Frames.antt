-- ===== src/Protocol/Session/Frames.antt =====
-- The first and the last frame of an update, on a working controller.
use bootloader_ota.Base.{
  ℕ, ◌+◌, ◌^◌, ◌≤◌, ◌<◌, ◌≡◌, ◌∙◌, refl, ap, arith, some, List, [], length, u16, u32, byte_at,
  word32_at, word32-le32,
}
use bootloader_ota.Layout.{slot_size, other_slot}
use bootloader_ota.Crc.{CrcUnit, crc32_compute}
use bootloader_ota.Flash.{Controller}
use bootloader_ota.Flash.Frame.{IsController}
use bootloader_ota.Flash.Working.{IsReady, IsWorking}
use bootloader_ota.Metadata.{Metadata, slot}
use bootloader_ota.Metadata.Codec.{IsMetadata}
use bootloader_ota.Store.{carried_slot, metadata_read, metadata_write, select_target, sealed}
use bootloader_ota.Store.Room.{CounterRoom, RoomKept}
use bootloader_ota.Protocol.State.{
  Machine, proto_complete, rx_magic0, rx_crc, max_payload_size, cmd_start_update, cmd_end_update,
  rx_reset,
}
use bootloader_ota.Protocol.Send.{frame}
use bootloader_ota.Protocol.Handlers.{finished_record, dispatch, on_start_update, on_end_update}
use bootloader_ota.Protocol.Receive.{feed_all}
use bootloader_ota.Protocol.Contain.{feed_all_contained}
use bootloader_ota.Protocol.Recognise.{feed_all-frame}
use bootloader_ota.Protocol.Start.{IsRejected, started_of, start_opens, opened}
use bootloader_ota.Protocol.Transfer.{IsTransfer}
use bootloader_ota.Protocol.Session.{IsOpen}
use bootloader_ota.Protocol.Session.Opens.{start-written, start-IsOpen}
use bootloader_ota.Protocol.Session.Ends.{IsInstalled, end-IsInstalled}
use bootloader_ota.Protocol.Session.Stream.{reframed-IsOpen, IsListening, reframed, rx_reset-IsOpen}
use bootloader_ota.Protocol.Session.Sending.{start_payload}

module _ (unit : CrcUnit) where
  pub payload-fields :
      (size crc version target : ℕ)
      → size < 2 ^ 32
      → crc < 2 ^ 32
      → version < 2 ^ 32
      → let bs = start_payload size crc version target in
        (word32_at bs 0 ≡ size)
        × (word32_at bs 4 ≡ crc)
        × (word32_at bs 8 ≡ version)
        × (byte_at bs 12 ≡ target)
  unfolding word32_at
  payload-fields size crc version target hs hc hv =
      (word32-le32 size hs, word32-le32 crc hc, word32-le32 version hv, refl)

  pub payload-accepted :
      (old : Metadata) (size crc version : ℕ)
      → 0 < size
      → size ≤ slot_size
      → crc < 2 ^ 32
      → version < 2 ^ 32
      → old.active_slot ≤ 1
      → ¬ (IsRejected (some old) (start_payload size crc version (other_slot old.active_slot)))
  payload-accepted old size crc version pos fits hc hv low =
      let (s, c, v, t) =
        payload-fields size crc version (other_slot old.active_slot) (omega arith) hc hv in
      ground (arith, s)

  module _ (hw : Controller) where
    dispatch-start :
        (seq : ℕ) (bs : List ℕ) (m : Machine)
        → dispatch unit hw cmd_start_update seq bs m
          ≡ on_start_update unit hw seq bs (record m { cnt_frames_ok = u32 (m.cnt_frames_ok + 1) })
    unfolding dispatch
    dispatch-start seq bs m = refl

    dispatch-end :
        (seq : ℕ) (bs : List ℕ) (m : Machine)
        → dispatch unit hw cmd_end_update seq bs m
          ≡ on_end_update unit hw seq (record m { cnt_frames_ok = u32 (m.cnt_frames_ok + 1) })
    unfolding dispatch
    dispatch-end seq bs m = refl

    module _ (laws : IsController hw) (works : IsWorking hw) where
      pub start_frame :
          (seq : ℕ) (bs : List ℕ) (m : Machine) (old : Metadata)
          → seq < 2 ^ 16
          → length bs ≤ max_payload_size
          → ((i : ℕ) → byte_at bs i < 256)
          → IsListening m
          → IsTransfer m
          → IsMetadata old
          → CounterRoom unit 2 m.flash.mem
          → IsReady m.flash
          → metadata_read unit m.flash.mem ≡ some old
          → ¬ (IsRejected (some old) bs)
          → let after = feed_all unit hw (frame unit cmd_start_update seq bs) m in
            let c = (select_target unit m.flash.mem).1 in
            IsListening after
            × IsOpen unit (sealed unit c (started_of old bs)) (u16 (seq + 1)) [] after
            × (after.target_slot ≡ byte_at bs 12)
            × (after.fw_size ≡ word32_at bs 0)
            × (after.fw_crc32 ≡ word32_at bs 4)
            × (after.fw_version ≡ word32_at bs 8)
            × (after.flash ≡ (metadata_write unit hw (started_of old bs) m.flash).1)
            × (after.last_seq ≡ seq)
      start_frame seq bs m old small short bytes listens h v room rests e fine =
          let (f, run) =
            feed_all-frame unit hw cmd_start_update seq bs m listens.idle listens.receiver.room
              small short in
          let n = reframed m rx_crc f (7 + length bs + 4) 0 (u32 (m.cnt_frames_ok + 1)) in
          let (fits, ok, rests2) = start-written unit hw laws works bs m old bytes v rests e fine in
          let o = start-IsOpen unit hw laws works seq bs n old small bytes v room rests e fine in
          let last =
            opened unit hw seq bs n (metadata_write unit hw (started_of old bs) n.flash).1 in
          let done : feed_all unit hw (frame unit cmd_start_update seq bs) m ≡ rx_reset last =
            run
            ∙ ap rx_reset (dispatch-start seq bs _ ∙ start_opens unit hw seq bs n old e fine ok) in
          let (receiver, transfer, same) =
            feed_all_contained unit hw laws (frame unit cmd_start_update seq bs) m 0
              listens.receiver h (omega arith) in
          let idle : (rx_reset last).rx_state ≡ rx_magic0 = unfold rx_reset in refl in
          (
            record { idle = ap (λ k. Machine.rx_state k) done ∙ idle; receiver = receiver },
            rw done (rx_reset-IsOpen unit last o),
            rw done (unfold rx_reset in refl),
            rw done (unfold rx_reset in refl),
            rw done (unfold rx_reset in refl),
            rw done (unfold rx_reset in refl),
            rw done (unfold rx_reset in refl),
            rw done (unfold rx_reset in refl),
          )

      pub end_frame :
          (old : Metadata) (seq : ℕ) (stored : List ℕ) (m : Machine)
          → seq < 2 ^ 16
          → IsListening m
          → IsOpen unit old seq stored m
          → IsMetadata old
          → m.fw_version < 2 ^ 32
          → m.fw_size ≡ length stored
          → m.fw_crc32 ≡ crc32_compute unit stored
          → let after = feed_all unit hw (frame unit cmd_end_update seq []) m in
            (after.state ≡ proto_complete)
            × IsListening after
            × IsInstalled unit m.target_slot stored
                (carried_slot (slot old (other_slot m.target_slot)))
                after.flash.mem
            × (after.flash ≡ (metadata_write unit hw (finished_record (some old) m) m.flash).1)
            × IsReady after.flash
            × RoomKept unit m.flash.mem after.flash.mem
      end_frame old seq stored m small listens o v ver size crc =
          let (f, run) =
            feed_all-frame unit hw cmd_end_update seq [] m listens.idle listens.receiver.room small
              (omega arith) in
          let n = reframed m rx_crc f (7 + 0 + 4) 0 (u32 (m.cnt_frames_ok + 1)) in
          let p = reframed-IsOpen unit m rx_crc f (7 + 0 + 4) 0 (u32 (m.cnt_frames_ok + 1)) o in
          let (complete, installed, flash, rests, left) =
            end-IsInstalled unit hw laws works seq n old p v ver size crc in
          let done : feed_all unit hw (frame unit cmd_end_update seq []) m
              ≡ rx_reset (on_end_update unit hw seq n) =
            run ∙ ap rx_reset (dispatch-end seq [] _) in
          let (receiver, transfer, same) =
            feed_all_contained unit hw laws (frame unit cmd_end_update seq []) m 0 listens.receiver
              o.transfer (omega arith) in
          let idle : (rx_reset (on_end_update unit hw seq n)).rx_state ≡ rx_magic0 =
            unfold rx_reset in refl in
          (
            rw done (unfold rx_reset in complete),
            record { idle = ap (λ k. Machine.rx_state k) done ∙ idle; receiver = receiver },
            rw done (unfold rx_reset in installed),
            rw done (unfold rx_reset in flash ∙ (unfold finished_record in refl)),
            rw done (unfold rx_reset in rests),
            rw done (unfold rx_reset in left),
          )
