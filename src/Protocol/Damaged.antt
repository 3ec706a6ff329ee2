-- ===== src/Protocol/Damaged.antt =====
-- The receiver against a frame whose CRC does not fit.
use bootloader_ota.Base.{
  ℕ, ◌+◌, ◌≤◌, ◌<◌, ◌^◌, ◌≡◌, ◌≢◌, ap, ◌∙◌, arith, List, [], ◌∷◌, ◌++◌, length, u32,
}
use bootloader_ota.Crc.{CrcUnit, crc32_compute}
use bootloader_ota.Flash.{Controller}
use bootloader_ota.Protocol.State.{
  Machine, rx_magic0, rx_crc, rx_frame_size, rx_reset, max_payload_size, err_crc, rsp_nack,
}
use bootloader_ota.Protocol.Send.{frame, frame_body, checked_frame, send_nack, send_nack-frame}
use bootloader_ota.Protocol.Receive.{feed_all, frame_done}
use bootloader_ota.Protocol.Wire.{IsHolding}
use bootloader_ota.Protocol.Recognise.{at_state, frame_bytes}

module _ (unit : CrcUnit) (hw : Controller) where
  frame_done-refused :
      (cmd seq c : ℕ) (bs : List ℕ) (m : Machine)
      → IsHolding unit cmd seq c bs m.rx_frame
      → c ≢ crc32_compute unit (frame_body unit cmd seq bs)
      → frame_done unit hw m
        ≡ rx_reset
            (send_nack unit seq err_crc (record m { cnt_frames_ko = u32 (m.cnt_frames_ko + 1) }))
  unfolding frame_done
  frame_done-refused cmd seq c bs m h wrong = rw (h.len, h.number, h.covered, h.crc) (ground arith)

  -- A frame that arrives from rest with another value in the place of its CRC is not dispatched: it
  -- is counted as bad and answered by one NACK with its sequence number and the CRC error, and the
  -- receiver is at rest again; besides the receiver's variables nothing else changes.
  pub feed_all-damaged :
      (cmd seq c : ℕ) (bs : List ℕ) (m : Machine)
      → m.rx_state ≡ rx_magic0
      → length m.rx_frame ≡ rx_frame_size
      → seq < 2 ^ 16
      → c < 2 ^ 32
      → length bs ≤ max_payload_size
      → c ≢ crc32_compute unit (frame_body unit cmd seq bs)
      → (f : List ℕ) × (feed_all unit hw (checked_frame unit cmd seq bs c) m
          ≡ rx_reset (record (at_state m rx_crc f (7 + length bs + 4) 0) {
            cnt_frames_ko = u32 (m.cnt_frames_ko + 1);
            tx = m.tx ++ frame unit rsp_nack seq (err_crc ∷ []);
          }))
  feed_all-damaged cmd seq c bs m idle room small check fits wrong =
      let (f, held, run) = frame_bytes unit hw cmd seq c bs m idle room small check fits in
      let held_m = at_state m rx_crc f (7 + length bs + 4) 0 in
      (
        f,
        run
            ∙ frame_done-refused cmd seq c bs held_m held wrong
            ∙ ap rx_reset (
                send_nack-frame unit seq err_crc
                  (record held_m { cnt_frames_ko = u32 (m.cnt_frames_ko + 1) })),
      )
