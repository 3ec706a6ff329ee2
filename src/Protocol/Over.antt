-- ===== src/Protocol/Over.antt =====
-- The handlers and the receiver look neither at the ring nor at the time of the last byte.
use bootloader_ota.Base.{
  ℕ, ◌+◌, ◌≡◌, ◌∙◌, refl, ap, arith, Option, sym, List, [], ◌∷◌, u32, take, drop, byte_at,
  word16_at,
}
use bootloader_ota.Crc.{CrcUnit}
use bootloader_ota.Flash.{Controller}
use bootloader_ota.Metadata.{Metadata}
use bootloader_ota.Store.{metadata_read}
use bootloader_ota.Uart.{Uart}
use bootloader_ota.Protocol.State.{Machine, rx_reset, abort_transfer}
use bootloader_ota.Protocol.Send.{sends}
use bootloader_ota.Protocol.Handlers.{
  refuse, on_get_info, on_start_update, store_block, on_data, on_end_update, dispatch,
  finished_record,
}
use bootloader_ota.Protocol.Receive.{
  push_byte, feed_magic0, feed_magic1, header_done, feed_header, feed_data, frame_done, feed_crc,
  feed, feed_all,
}
use bootloader_ota.Protocol.Bounds.{frame_len}

-- The machine over another ring, at another time of the last byte. No handler looks at these.
abbrev pub over : Uart → ℕ → Machine → Machine
over u t m = record m { uart = u; last_activity_ms = t }

-- The same for the ring alone.
abbrev pub alone : Uart → Machine → Machine
alone u m = record m { uart = u }

module _ (unit : CrcUnit) (hw : Controller) where
  start-over :
      (seq : ℕ) (bs : List ℕ) (m : Machine) (u : Uart) (t : ℕ)
      → on_start_update unit hw seq bs (over u t m) ≡ over u t (on_start_update unit hw seq bs m)
  unfolding on_start_update
  start-over seq bs m u t = simp sends (ground arith)

  store_block-over :
      (seq : ℕ) (bs : List ℕ) (m : Machine) (u : Uart) (t : ℕ)
      → store_block unit hw seq bs (over u t m) ≡ over u t (store_block unit hw seq bs m)
  unfolding store_block refuse abort_transfer
  store_block-over seq bs m u t = simp sends (ground arith)

  data-over :
      (seq : ℕ) (bs : List ℕ) (m : Machine) (u : Uart) (t : ℕ)
      → on_data unit hw seq bs (over u t m) ≡ over u t (on_data unit hw seq bs m)
  unfolding on_data refuse abort_transfer
  data-over seq bs m u t = simp sends (ground (arith, store_block-over seq bs m u t))

  finished-over :
      (current : Option Metadata) (m : Machine) (u : Uart) (t : ℕ)
      → finished_record current (over u t m) ≡ finished_record current m
  unfolding finished_record
  finished-over current m u t = refl

  end-over :
      (seq : ℕ) (m : Machine) (u : Uart) (t : ℕ)
      → on_end_update unit hw seq (over u t m) ≡ over u t (on_end_update unit hw seq m)
  unfolding on_end_update refuse abort_transfer
  end-over seq m u t =
      simp sends (ground (arith, finished-over (metadata_read unit m.flash.mem) m u t))

  dispatch-over :
      (cmd seq : ℕ) (bs : List ℕ) (m : Machine) (u : Uart) (t : ℕ)
      → dispatch unit hw cmd seq bs (over u t m) ≡ over u t (dispatch unit hw cmd seq bs m)
  unfolding dispatch on_get_info abort_transfer
  dispatch-over cmd seq bs m u t =
      let counted = record m { cnt_frames_ok = u32 (m.cnt_frames_ok + 1) } in
      simp sends (
        ground (
          arith,
          start-over seq bs counted u t,
          data-over seq bs counted u t,
          end-over seq counted u t,
        ))

  frame_done-over :
      (m : Machine) (u : Uart) (t : ℕ)
      → frame_done unit hw (over u t m) ≡ over u t (frame_done unit hw m)
  unfolding frame_done rx_reset
  frame_done-over m u t =
      let bytes = take (frame_len m) (drop 7 m.rx_frame) in
      simp sends
        (ground (arith, dispatch-over (byte_at m.rx_frame 2) (word16_at m.rx_frame 5) bytes m u t))

  feed-over :
      (b : ℕ) (m : Machine) (u : Uart) (t : ℕ)
      → feed unit hw b (over u t m) ≡ over u t (feed unit hw b m)
  unfolding feed feed_magic0 feed_magic1 header_done feed_header feed_data feed_crc push_byte
      rx_reset
  feed-over b m u t = ground (arith, frame_done-over (push_byte b m) u t)

  pub feed_all-over :
      (bs : List ℕ) (m : Machine) (u : Uart) (t : ℕ)
      → feed_all unit hw bs (over u t m) ≡ over u t (feed_all unit hw bs m)
  unfolding feed_all
  feed_all-over [] m u t = refl
  feed_all-over (b ∷ bs) m u t =
      ap (feed_all unit hw bs) (feed-over b m u t) ∙ feed_all-over bs (feed unit hw b m) u t

  pub feed_all-alone :
      (bs : List ℕ) (m : Machine) (u : Uart)
      → feed_all unit hw bs (alone u m) ≡ alone u (feed_all unit hw bs m)
  feed_all-alone bs m u =
      feed_all-over bs m u m.last_activity_ms
      ∙ sym (ap (alone u) (feed_all-over bs m m.uart m.last_activity_ms))
