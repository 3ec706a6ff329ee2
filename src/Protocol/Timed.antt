-- ===== src/Protocol/Timed.antt =====
-- The timeout that an open transfer has.
use bootloader_ota.Base.{ℕ, ◌+◌, ◌≡◌, arith, List, [], ◌∷◌, take, drop, byte_at, word16_at, u32}
use bootloader_ota.Crc.{CrcUnit}
use bootloader_ota.Flash.{Controller}
use bootloader_ota.Protocol.State.{
  Machine, proto_receiving, timeout_data_ms, rx_reset, abort_transfer,
}
use bootloader_ota.Protocol.Send.{sends}
use bootloader_ota.Protocol.Handlers.{
  on_get_info, on_start_update, store_block, on_data, on_end_update, dispatch, refuse,
}
use bootloader_ota.Protocol.Receive.{
  push_byte, feed_magic0, feed_magic1, header_done, feed_header, feed_data, frame_done, feed_crc,
  feed, feed_all,
}
use bootloader_ota.Protocol.Bounds.{frame_len}

-- If a transfer is open, its timeout is that of DATA.
abbrev pub IsTimed : Machine → Type 0
IsTimed m = m.state ≡ proto_receiving → m.timeout_ms ≡ timeout_data_ms

module _ (unit : CrcUnit) (hw : Controller) where
  start-IsTimed :
      (seq : ℕ) (bs : List ℕ) (m : Machine) → IsTimed m → IsTimed (on_start_update unit hw seq bs m)
  unfolding on_start_update
  start-IsTimed seq bs m e = simp sends (ground (arith, e))

  data-IsTimed :
      (seq : ℕ) (bs : List ℕ) (m : Machine) → IsTimed m → IsTimed (on_data unit hw seq bs m)
  unfolding on_data store_block refuse abort_transfer
  data-IsTimed seq bs m e = simp sends (ground (arith, e))

  end-IsTimed : (seq : ℕ) (m : Machine) → IsTimed m → IsTimed (on_end_update unit hw seq m)
  unfolding on_end_update refuse abort_transfer
  end-IsTimed seq m e = simp sends (ground (arith, e))

  dispatch-IsTimed :
      (cmd seq : ℕ) (bs : List ℕ) (m : Machine)
      → IsTimed m
      → IsTimed (dispatch unit hw cmd seq bs m)
  unfolding dispatch on_get_info abort_transfer
  dispatch-IsTimed cmd seq bs m e =
      let counted = record m { cnt_frames_ok = u32 (m.cnt_frames_ok + 1) } in
      simp sends (
        ground (
          arith,
          e,
          start-IsTimed seq bs counted e,
          data-IsTimed seq bs counted e,
          end-IsTimed seq counted e,
        ))

  frame_done-IsTimed : (m : Machine) → IsTimed m → IsTimed (frame_done unit hw m)
  unfolding frame_done rx_reset
  frame_done-IsTimed m e =
      let bytes = take (frame_len m) (drop 7 m.rx_frame) in
      simp sends (
        ground
          (arith, e, dispatch-IsTimed (byte_at m.rx_frame 2) (word16_at m.rx_frame 5) bytes m e))

  push_byte-IsTimed : (b : ℕ) (m : Machine) → IsTimed m → IsTimed (push_byte b m)
  unfolding push_byte
  push_byte-IsTimed b m e = e

  feed-IsTimed : (b : ℕ) (m : Machine) → IsTimed m → IsTimed (feed unit hw b m)
  unfolding feed feed_magic0 feed_magic1 header_done feed_header feed_data feed_crc rx_reset
  feed-IsTimed b m e = ground (
    arith,
    e,
    push_byte-IsTimed b m e,
    frame_done-IsTimed (push_byte b m) (push_byte-IsTimed b m e),
  )

  pub feed_all-IsTimed : (bs : List ℕ) (m : Machine) → IsTimed m → IsTimed (feed_all unit hw bs m)
  unfolding feed_all
  feed_all-IsTimed [] m e = e
  feed_all-IsTimed (b ∷ bs) m e = feed_all-IsTimed bs (feed unit hw b m) (feed-IsTimed b m e)
