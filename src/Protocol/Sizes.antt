-- ===== src/Protocol/Sizes.antt =====
-- Which sizes a completed transfer can have.
use bootloader_ota.Base.{
  ℕ, ◌+◌, ◌%◌, ◌≡◌, ◌≢◌, arith, List, [], ◌∷◌, take, drop, byte_at, word16_at, u32,
}
use bootloader_ota.Crc.{CrcUnit}
use bootloader_ota.Flash.{Controller}
use bootloader_ota.Protocol.State.{Machine, proto_complete, rx_reset, abort_transfer}
use bootloader_ota.Protocol.Send.{sends}
use bootloader_ota.Protocol.Handlers.{
  on_get_info, on_start_update, store_block, on_data, on_end_update, dispatch, refuse,
}
use bootloader_ota.Protocol.Receive.{
  push_byte, feed_magic0, feed_magic1, header_done, feed_header, feed_data, frame_done, feed_crc,
  feed, feed_all,
}
use bootloader_ota.Protocol.Transfer.{IsTransfer}
use bootloader_ota.Protocol.Contain.{feed-IsTransfer, push_byte-IsTransfer}
use bootloader_ota.Protocol.Bounds.{frame_len}

-- If the transfer is complete, its size is a multiple of 8.
abbrev pub IsEven : Machine → Type 0
IsEven m = m.state ≡ proto_complete → m.fw_size % 8 ≡ 0

module _ (unit : CrcUnit) (hw : Controller) where
  start-IsEven :
      (seq : ℕ) (bs : List ℕ) (m : Machine) → IsEven m → IsEven (on_start_update unit hw seq bs m)
  unfolding on_start_update
  start-IsEven seq bs m e = simp sends (ground (arith, e))

  data-IsEven : (seq : ℕ) (bs : List ℕ) (m : Machine) → IsEven m → IsEven (on_data unit hw seq bs m)
  unfolding on_data store_block refuse abort_transfer
  data-IsEven seq bs m e = simp sends (ground (arith, e))

  end-IsEven :
      (seq : ℕ) (m : Machine) → IsTransfer m → IsEven m → IsEven (on_end_update unit hw seq m)
  unfolding on_end_update refuse abort_transfer
  end-IsEven seq m h e = simp sends (ground (arith, e))

  dispatch-IsEven :
      (cmd seq : ℕ) (bs : List ℕ) (m : Machine)
      → IsTransfer m
      → IsEven m
      → IsEven (dispatch unit hw cmd seq bs m)
  unfolding dispatch on_get_info abort_transfer
  dispatch-IsEven cmd seq bs m h e =
      let counted = record m { cnt_frames_ok = u32 (m.cnt_frames_ok + 1) } in
      let c : IsTransfer counted = omega arith in
      simp sends (
        ground (
          arith,
          e,
          start-IsEven seq bs counted e,
          data-IsEven seq bs counted e,
          end-IsEven seq counted c e,
        ))

  frame_done-IsEven : (m : Machine) → IsTransfer m → IsEven m → IsEven (frame_done unit hw m)
  unfolding frame_done rx_reset
  frame_done-IsEven m h e =
      let bytes = take (frame_len m) (drop 7 m.rx_frame) in
      simp sends (
        ground
          (arith, e, dispatch-IsEven (byte_at m.rx_frame 2) (word16_at m.rx_frame 5) bytes m h e))

  push_byte-IsEven : (b : ℕ) (m : Machine) → IsEven m → IsEven (push_byte b m)
  unfolding push_byte
  push_byte-IsEven b m e = e

  feed-IsEven : (b : ℕ) (m : Machine) → IsTransfer m → IsEven m → IsEven (feed unit hw b m)
  unfolding feed feed_magic0 feed_magic1 header_done feed_header feed_data feed_crc rx_reset
  feed-IsEven b m h e = ground (
    arith,
    e,
    push_byte-IsEven b m e,
    frame_done-IsEven (push_byte b m) (push_byte-IsTransfer b m h) (push_byte-IsEven b m e),
  )

  bytes-IsEven :
      (bs : List ℕ) (m : Machine) → IsTransfer m → IsEven m → IsEven (feed_all unit hw bs m)
  unfolding feed_all
  bytes-IsEven [] m h e = e
  bytes-IsEven (b ∷ bs) m h e =
      bytes-IsEven bs (feed unit hw b m) (feed-IsTransfer unit hw b m h) (feed-IsEven b m h e)

  -- From a state with the transfer invariant in which no transfer has completed, whatever bytes arrive: if a
  -- transfer is complete after them, its announced size is a multiple of 8.
  pub feed_all-IsEven :
      (bs : List ℕ) (m : Machine)
      → IsTransfer m
      → m.state ≢ proto_complete
      → (feed_all unit hw bs m).state ≡ proto_complete
      → (feed_all unit hw bs m).fw_size % 8 ≡ 0
  feed_all-IsEven bs m h fresh done = bytes-IsEven bs m h (λ e. absurd (fresh e)) done
