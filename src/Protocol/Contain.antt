-- ===== src/Protocol/Contain.antt =====
-- What no byte stream can do: leave the slots and the metadata pages, so the bootloader survives
-- whatever a host sends.
use bootloader_ota.Base.{
  ℕ, ◌+◌, ◌*◌, ◌<◌, ◌^◌, ◌≡◌, ◌∙◌, refl, arith, List, [], ◌∷◌, length, length-set, length-take,
  length-drop, take, drop, byte_at, word16_at, word32_at, u32,
}
use bootloader_ota.Layout.{slot_a_addr, slot_b_addr, slot_size, meta_page_a_addr, flash_page_size}
use bootloader_ota.Crc.{CrcUnit}
use bootloader_ota.Flash.{Controller}
use bootloader_ota.Flash.Frame.{IsController, Outside}
use bootloader_ota.Store.{metadata_read}
use bootloader_ota.Store.Atomic.{target-cases, metadata_write-mem}
use bootloader_ota.Protocol.State.{Machine, rx_frame_size, rx_reset, abort_transfer}
use bootloader_ota.Protocol.Send.{sends}
use bootloader_ota.Protocol.Handlers.{
  started_record, finished_record, on_get_info, on_start_update, on_end_update, dispatch, refuse,
}
use bootloader_ota.Protocol.Receive.{
  push_byte, feed_magic0, feed_magic1, header_done, feed_header, feed_data, frame_done, feed_crc,
  feed, feed_all,
}
use bootloader_ota.Protocol.Transfer.{IsTransfer, dispatch-IsTransfer}
use bootloader_ota.Protocol.Bounds.{IsReceiver, frame_len, feed-IsReceiver}
use bootloader_ota.Protocol.Data.{on_data-mem}

-- An address in neither slot and in neither metadata page.
abbrev pub IsFixed : ℕ → Type 0
IsFixed a =
    Outside slot_a_addr slot_size a
    × Outside slot_b_addr slot_size a
    × Outside meta_page_a_addr (2 * flash_page_size) a

push_byte-mem : (b : ℕ) (m : Machine) → (push_byte b m).flash ≡ m.flash
unfolding push_byte
push_byte-mem b m = refl

push_byte-room :
    (b : ℕ) (m : Machine) → IsReceiver m → length (push_byte b m).rx_frame ≡ rx_frame_size
unfolding push_byte
push_byte-room b m h = omega (arith, length-set m.rx_frame m.rx_index b)

pub push_byte-IsTransfer : (b : ℕ) (m : Machine) → IsTransfer m → IsTransfer (push_byte b m)
unfolding push_byte
push_byte-IsTransfer b m h = omega arith

module _ (unit : CrcUnit) (hw : Controller) where
  frame_done-IsTransfer : (m : Machine) → IsTransfer m → IsTransfer (frame_done unit hw m)
  unfolding frame_done rx_reset
  frame_done-IsTransfer m h =
      let bytes = take (frame_len m) (drop 7 m.rx_frame) in
      simp sends (
        ground (
          arith,
          dispatch-IsTransfer unit hw (byte_at m.rx_frame 2) (word16_at m.rx_frame 5) bytes m h,
        ))

  pub feed-IsTransfer : (b : ℕ) (m : Machine) → IsTransfer m → IsTransfer (feed unit hw b m)
  unfolding feed feed_magic0 feed_magic1 header_done feed_header feed_data feed_crc rx_reset
  feed-IsTransfer b m h = ground (
    arith,
    push_byte-IsTransfer b m h,
    frame_done-IsTransfer (push_byte b m) (push_byte-IsTransfer b m h),
  )

module _ (unit : CrcUnit) (hw : Controller) (laws : IsController hw) where
  start-mem :
      (seq : ℕ) (bs : List ℕ) (m : Machine) (a : ℕ)
      → IsFixed a
      → (on_start_update unit hw seq bs m).flash.mem a ≡ m.flash.mem a
  unfolding on_start_update
  start-mem seq bs m a fixed =
      let src =
        started_record (metadata_read unit m.flash.mem) (word32_at bs 0) (word32_at bs 4)
          (word32_at bs 8) (byte_at bs 12) in
      simp sends (
        ground
          (arith, target-cases unit m.flash.mem, metadata_write-mem unit hw laws src m.flash a))

  end-mem :
      (seq : ℕ) (m : Machine) (a : ℕ)
      → IsFixed a
      → (on_end_update unit hw seq m).flash.mem a ≡ m.flash.mem a
  unfolding on_end_update refuse abort_transfer
  end-mem seq m a fixed =
      let src = finished_record (metadata_read unit m.flash.mem) m in
      simp sends (
        ground
          (arith, target-cases unit m.flash.mem, metadata_write-mem unit hw laws src m.flash a))

  dispatch-mem :
      (cmd seq : ℕ) (bs : List ℕ) (m : Machine) (a : ℕ)
      → IsTransfer m
      → length bs < 2 ^ 16
      → IsFixed a
      → (dispatch unit hw cmd seq bs m).flash.mem a ≡ m.flash.mem a
  unfolding dispatch on_get_info abort_transfer
  dispatch-mem cmd seq bs m a h short fixed =
      let counted = record m { cnt_frames_ok = u32 (m.cnt_frames_ok + 1) } in
      let c : IsTransfer counted = omega arith in
      simp sends (
        ground (
          arith,
          start-mem seq bs counted a fixed,
          end-mem seq counted a fixed,
          on_data-mem unit hw laws seq bs counted a c,
        ))

  frame_done-mem :
      (m : Machine) (a : ℕ)
      → length m.rx_frame ≡ rx_frame_size
      → IsTransfer m
      → IsFixed a
      → (frame_done unit hw m).flash.mem a ≡ m.flash.mem a
  unfolding frame_done rx_reset
  frame_done-mem m a full h fixed =
      let bytes = take (frame_len m) (drop 7 m.rx_frame) in
      let short : length bytes < 2 ^ 16 =
        omega (arith, length-take (frame_len m) (drop 7 m.rx_frame), length-drop 7 m.rx_frame) in
      simp sends (
        ground (
          arith,
          dispatch-mem (byte_at m.rx_frame 2) (word16_at m.rx_frame 5) bytes m a h short fixed,
        ))

  feed-mem :
      (b : ℕ) (m : Machine) (a : ℕ)
      → IsReceiver m
      → IsTransfer m
      → IsFixed a
      → (feed unit hw b m).flash.mem a ≡ m.flash.mem a
  unfolding feed feed_magic0 feed_magic1 header_done feed_header feed_data feed_crc rx_reset
  feed-mem b m a r h fixed = ground (
    arith,
    push_byte-mem b m,
    frame_done-mem (push_byte b m) a (push_byte-room b m r) (push_byte-IsTransfer b m h) fixed,
  )

  -- From a state with the receiver and transfer invariants, whatever bytes arrive, and whether or not
  -- the controller does what it is told, a byte outside the two slots and the metadata pages stays
  -- what it was, and both invariants hold again.
  pub feed_all_contained :
      (bs : List ℕ) (m : Machine) (a : ℕ)
      → IsReceiver m
      → IsTransfer m
      → IsFixed a
      → let after = feed_all unit hw bs m in
        IsReceiver after × IsTransfer after × (after.flash.mem a ≡ m.flash.mem a)
  unfolding feed_all
  feed_all_contained [] m a r h fixed = (r, h, refl)
  feed_all_contained (b ∷ bs) m a r h fixed =
      let (r', h', same) =
        feed_all_contained bs (feed unit hw b m) a (feed-IsReceiver unit hw b m r)
          (feed-IsTransfer unit hw b m h) fixed in
      (r', h', same ∙ feed-mem b m a r h fixed)
