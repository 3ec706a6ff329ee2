-- ===== src/Protocol/Bounds.antt =====
-- The frame buffer is never written or read out of bounds, whatever bytes arrive.
use bootloader_ota.Base.{
  ℕ, ◌+◌, ◌≤◌, ◌<◌, ◌≡◌, ◌≢◌, ◌⊎◌, arith, List, length, set, length-set, get_or-set_ne, word16_at,
  byte_at, u32, take, drop,
}
use bootloader_ota.Crc.{CrcUnit}
use bootloader_ota.Flash.{Controller}
use bootloader_ota.Protocol.State.{
  Machine, rx_magic0, rx_magic1, rx_header, rx_data, rx_crc, rx_frame_size, frame_header_size,
  frame_crc_size, max_payload_size, rx_reset, abort_transfer,
}
use bootloader_ota.Protocol.Send.{sends}
use bootloader_ota.Protocol.Handlers.{
  on_get_info, on_start_update, on_data, on_end_update, dispatch, refuse, store_block,
}
use bootloader_ota.Protocol.Receive.{
  push_byte, feed_magic0, feed_magic1, header_done, feed_header, feed_data, frame_done, feed_crc,
  feed,
}

-- LENGTH, as it stands in the buffer.
abbrev pub frame_len : Machine → ℕ
frame_len m = word16_at m.rx_frame 3

-- Where the next byte goes, and how many the state still expects.
pub record IsReceiver (m : Machine) : Type 0 where
  pub room : length m.rx_frame ≡ rx_frame_size
  pub header :
      m.rx_state ≡ rx_header
      → (m.rx_index + m.rx_expected ≡ frame_header_size) × (0 < m.rx_expected)
  pub payload :
      m.rx_state ≡ rx_data
      → (m.rx_index + m.rx_expected ≡ frame_header_size + frame_len m)
        × (0 < m.rx_expected)
        × (frame_header_size ≤ m.rx_index)
        × (frame_len m ≤ max_payload_size)
  pub trailer :
      m.rx_state ≡ rx_crc
      → (m.rx_index + m.rx_expected ≡ frame_header_size + frame_len m + frame_crc_size)
        × (0 < m.rx_expected)
        × (frame_header_size ≤ m.rx_index)
        × (frame_len m ≤ max_payload_size)

-- Under the receiver invariant, in the three states that buffer a byte at `rx_index`, that index
-- lies in the buffer, and so do all bytes that the state still expects.
pub rx_in_bounds :
    (m : Machine)
    → IsReceiver m
    → (m.rx_state ≡ rx_header) ⊎ ((m.rx_state ≡ rx_data) ⊎ (m.rx_state ≡ rx_crc))
    → (m.rx_index < length m.rx_frame) × (m.rx_index + m.rx_expected ≤ length m.rx_frame)
rx_in_bounds m h s = ground arith

frame_len-set : (xs : List ℕ) (i v : ℕ) → 5 ≤ i → word16_at (set xs i v) 3 ≡ word16_at xs 3
unfolding word16_at
frame_len-set xs i v h =
    rw (get_or-set_ne xs i 3 v 0 (omega arith), get_or-set_ne xs i 4 v 0 (omega arith))

feed_magic0-IsReceiver :
    (b : ℕ) (m : Machine) → IsReceiver m → m.rx_state ≡ rx_magic0 → IsReceiver (feed_magic0 b m)
unfolding feed_magic0
feed_magic0-IsReceiver b m h s = ground (arith, length-set m.rx_frame 0 b)

feed_magic1-IsReceiver :
    (b : ℕ) (m : Machine) → IsReceiver m → m.rx_state ≡ rx_magic1 → IsReceiver (feed_magic1 b m)
unfolding feed_magic1
feed_magic1-IsReceiver b m h s =
    ground (arith, length-set m.rx_frame 0 b, length-set m.rx_frame 1 b)

feed_header-IsReceiver :
    (b : ℕ) (m : Machine) → IsReceiver m → m.rx_state ≡ rx_header → IsReceiver (feed_header b m)
unfolding feed_header push_byte header_done rx_reset
feed_header-IsReceiver b m h s = ground (arith, length-set m.rx_frame m.rx_index b)

feed_data-IsReceiver :
    (b : ℕ) (m : Machine) → IsReceiver m → m.rx_state ≡ rx_data → IsReceiver (feed_data b m)
unfolding feed_data push_byte
feed_data-IsReceiver b m h s =
    ground (arith, length-set m.rx_frame m.rx_index b, frame_len-set m.rx_frame m.rx_index b)

module _ (unit : CrcUnit) (hw : Controller) where
  start-rx_frame :
      (seq : ℕ) (bs : List ℕ) (m : Machine)
      → (on_start_update unit hw seq bs m).rx_frame ≡ m.rx_frame
  unfolding on_start_update
  start-rx_frame seq bs m = simp sends (ground arith)

  data-rx_frame :
      (seq : ℕ) (bs : List ℕ) (m : Machine) → (on_data unit hw seq bs m).rx_frame ≡ m.rx_frame
  unfolding on_data store_block refuse abort_transfer
  data-rx_frame seq bs m = simp sends (ground arith)

  end-rx_frame : (seq : ℕ) (m : Machine) → (on_end_update unit hw seq m).rx_frame ≡ m.rx_frame
  unfolding on_end_update refuse abort_transfer
  end-rx_frame seq m = simp sends (ground arith)

  -- No handler touches the frame that it was called with.
  pub dispatch-rx_frame :
      (cmd seq : ℕ) (bs : List ℕ) (m : Machine)
      → (dispatch unit hw cmd seq bs m).rx_frame ≡ m.rx_frame
  unfolding dispatch on_get_info abort_transfer
  dispatch-rx_frame cmd seq bs m =
      let counted = record m { cnt_frames_ok = u32 (m.cnt_frames_ok + 1) } in
      simp sends (
        ground (
          arith,
          start-rx_frame seq bs counted,
          data-rx_frame seq bs counted,
          end-rx_frame seq counted,
        ))

  rx_reset-IsReceiver : (m : Machine) → length m.rx_frame ≡ rx_frame_size → IsReceiver (rx_reset m)
  unfolding rx_reset
  rx_reset-IsReceiver m h = ground arith

  frame_done-IsReceiver :
      (m : Machine) → length m.rx_frame ≡ rx_frame_size → IsReceiver (frame_done unit hw m)
  unfolding frame_done
  frame_done-IsReceiver m h = rx_reset-IsReceiver _ (
      simp sends (
        ground (
          arith,
          dispatch-rx_frame (byte_at m.rx_frame 2) (word16_at m.rx_frame 5)
              (take (frame_len m) (drop 7 m.rx_frame)) m,
        )))

  pushed-trailer :
      (b : ℕ) (m : Machine)
      → IsReceiver m
      → m.rx_state ≡ rx_crc
      → (length (push_byte b m).rx_frame ≡ rx_frame_size)
        × ((push_byte b m).rx_expected ≢ 0 → IsReceiver (push_byte b m))
  unfolding push_byte
  pushed-trailer b m h s =
      ground (arith, length-set m.rx_frame m.rx_index b, frame_len-set m.rx_frame m.rx_index b)

  feed_crc-IsReceiver :
      (b : ℕ) (m : Machine) → IsReceiver m → m.rx_state ≡ rx_crc → IsReceiver (feed_crc unit hw b m)
  unfolding feed_crc
  feed_crc-IsReceiver b m h s =
      ground (arith, pushed-trailer b m h s, frame_done-IsReceiver (push_byte b m))

  -- Every byte keeps the receiver invariant, whichever state it arrives in: the buffer keeps its
  -- size, and index and count of each state add up to an end within it.
  pub feed-IsReceiver : (b : ℕ) (m : Machine) → IsReceiver m → IsReceiver (feed unit hw b m)
  unfolding feed
  feed-IsReceiver b m h = ground (
    arith,
    feed_magic0-IsReceiver b m h,
    feed_magic1-IsReceiver b m h,
    feed_header-IsReceiver b m h,
    feed_data-IsReceiver b m h,
    feed_crc-IsReceiver b m h,
  )
