-- ===== src/Protocol/Session/Line.antt =====
-- What else may come over the line while a transfer is open: noise between frames, frames that
-- arrive damaged, the last frame again, and questions.
use bootloader_ota.Base.{
  ℕ, ◌+◌, ◌^◌, ◌≤◌, ◌<◌, ◌≡◌, ◌≢◌, ◌∙◌, ap, arith, List, [], ◌∷◌, ◌++◌, length, u32,
}
use bootloader_ota.Crc.{CrcUnit, crc32_compute}
use bootloader_ota.Flash.{Controller}
use bootloader_ota.Store.{metadata_read}
use bootloader_ota.Protocol.State.{
  Machine, rx_magic0, rx_reset, rx_crc, proto_receiving, max_payload_size, frame_magic_0, cmd_data,
  cmd_get_info, rsp_ack, rsp_info,
}
use bootloader_ota.Protocol.Send.{frame, frame_body, checked_frame, sends}
use bootloader_ota.Protocol.Handlers.{dispatch, on_data, on_get_info, info_of, info_payload}
use bootloader_ota.Protocol.Receive.{feed_all, feed, feed_magic0}
use bootloader_ota.Protocol.Recognise.{at_state, feed_all-frame}
use bootloader_ota.Protocol.Damaged.{feed_all-damaged}
use bootloader_ota.Protocol.Session.Stream.{IsListening}

-- A byte of noise, a frame with another value in the place of its CRC, the last frame of the
-- transfer again, or GET_INFO.
pub data Event : Type 0 where
  noise : ℕ → Event
  damaged : ℕ → ℕ → List ℕ → ℕ → Event
  repeated : List ℕ → Event
  asked : ℕ → Event

-- Only the receiver's variables, the counts and what has been sent differ.
abbrev pub aside : Machine → List ℕ → ℕ → ℕ → ℕ → ℕ → List ℕ → Machine
aside m f index expected ok ko tx = record m {
  rx_state = rx_magic0;
  rx_frame = f;
  rx_index = index;
  rx_expected = expected;
  cnt_frames_ok = ok;
  cnt_frames_ko = ko;
  tx = tx;
}

abbrev pub IsAside : Machine → Machine → Type 0
IsAside m n =
    (f : List ℕ) × (index : ℕ) × (expected : ℕ) × (ok : ℕ) × (ko : ℕ) × (tx : List ℕ) × (n
      ≡ aside m f index expected ok ko tx)

module _ (unit : CrcUnit) where
  -- The bytes of an event; `last` is the number of the last frame.
  abbrev pub event_bytes : ℕ → Event → List ℕ
  event_bytes last (noise b) = b ∷ []
  event_bytes last (damaged cmd seq bs c) = checked_frame unit cmd seq bs c
  event_bytes last (repeated bs) = frame unit cmd_data last bs
  event_bytes last (asked seq) = frame unit cmd_get_info seq []

  abbrev pub IsHarmless : Event → Type 0
  IsHarmless (noise b) = b ≢ frame_magic_0
  IsHarmless (damaged cmd seq bs c) =
      (seq < 2 ^ 16)
      × (c < 2 ^ 32)
      × (length bs ≤ max_payload_size)
      × (c ≢ crc32_compute unit (frame_body unit cmd seq bs))
  IsHarmless (repeated bs) = length bs ≤ max_payload_size
  IsHarmless (asked seq) = seq < 2 ^ 16

  module _ (hw : Controller) where
    noise-ignored :
        (b : ℕ) (m : Machine)
        → m.rx_state ≡ rx_magic0
        → b ≢ frame_magic_0
        → feed_all unit hw (b ∷ []) m ≡ m
    unfolding feed_all feed feed_magic0
    noise-ignored b m idle other = ground arith

    repeated-acked :
        (seq : ℕ) (bs : List ℕ) (m : Machine)
        → m.state ≡ proto_receiving
        → m.last_seq ≡ seq
        → dispatch unit hw cmd_data seq bs m ≡ record m {
          cnt_frames_ok = u32 (m.cnt_frames_ok + 1);
          tx = m.tx ++ frame unit rsp_ack seq [];
        }
    unfolding dispatch on_data
    repeated-acked seq bs m receiving last = simp sends (ground (arith, receiving, last))

    asked-told :
        (seq : ℕ) (m : Machine)
        → let (active, st, ver) = info_of (metadata_read unit m.flash.mem) in
          dispatch unit hw cmd_get_info seq [] m ≡ record m {
            cnt_frames_ok = u32 (m.cnt_frames_ok + 1);
            tx = m.tx ++ frame unit rsp_info seq (info_payload active st ver);
          }
    unfolding dispatch on_get_info
    asked-told seq m = simp sends

    pub event-IsAside :
        (last : ℕ) (e : Event) (m : Machine)
        → last < 2 ^ 16
        → IsListening m
        → m.state ≡ proto_receiving
        → m.last_seq ≡ last
        → IsHarmless e
        → IsAside m (feed_all unit hw (event_bytes last e) m)
    unfolding rx_reset
    event-IsAside last (noise b) m small l receiving same other = (
      m.rx_frame,
      m.rx_index,
      m.rx_expected,
      m.cnt_frames_ok,
      m.cnt_frames_ko,
      m.tx,
      noise-ignored b m l.idle other ∙ ap (λ s. record m { rx_state = s }) l.idle,
    )
    event-IsAside last (damaged cmd seq bs c) m small l receiving same h =
        let (f, run) =
          feed_all-damaged unit hw cmd seq c bs m l.idle l.receiver.room h.0 h.1 h.2 h.3 in
        (f, 0, 0, m.cnt_frames_ok, _, _, run)
    event-IsAside last (repeated bs) m small l receiving same fits =
        let (f, run) =
          feed_all-frame unit hw cmd_data last bs m l.idle l.receiver.room small fits in
        (
          f,
          0,
          0,
          _,
          m.cnt_frames_ko,
          _,
          run
              ∙ ap rx_reset (
                  repeated-acked last bs (at_state m rx_crc f (7 + length bs + 4) 0) receiving
                    same),
        )
    event-IsAside last (asked seq) m small l receiving same h =
        let (f, run) =
          feed_all-frame unit hw cmd_get_info seq [] m l.idle l.receiver.room h (omega arith) in
        (
          f,
          0,
          0,
          _,
          m.cnt_frames_ko,
          _,
          run ∙ ap rx_reset (asked-told seq (at_state m rx_crc f (7 + 0 + 4) 0)),
        )
