-- ===== src/Protocol/Receive.antt =====
-- The receiver of protocol_mgr.c: bytes into frames, and the poll that drains the ring.
use bootloader_ota.Base.{
  ℕ, zero, suc, ◌+◌, ◌-◌, ◌^◌, ◌==◌, ltb, if◌then◌else◌, Bool, true, false, none, some, List, [],
  ◌∷◌, take, drop, set, byte_at, word16_at, word32_at, u32,
}
use bootloader_ota.Crc.{CrcUnit, crc32_compute}
use bootloader_ota.Flash.{Controller}
use bootloader_ota.Uart.{uart_rx_buffer_size, uart_getc}
use bootloader_ota.Protocol.State.{
  Machine, RxState, rx_magic0, rx_magic1, rx_header, rx_data, rx_crc, frame_magic_0, frame_magic_1,
  frame_header_size, frame_crc_size, frame_off_cmd, frame_off_length, frame_off_seq, frame_off_data,
  max_payload_size, err_crc, is_receiving, rx_reset, abort_transfer,
}
use bootloader_ota.Protocol.Send.{send_nack}
use bootloader_ota.Protocol.Handlers.{dispatch}

-- `rx_frame[rx_index++] = byte; --rx_expected`
unfoldable pub push_byte : ℕ → Machine → Machine
push_byte byte m = record m {
  rx_frame = set m.rx_frame m.rx_index byte;
  rx_index = u32 (m.rx_index + 1);
  rx_expected = u32 (m.rx_expected + 2 ^ 32 - 1);
}

unfoldable pub feed_magic0 : ℕ → Machine → Machine
feed_magic0 byte m =
    if byte == frame_magic_0
    then record m { rx_frame = set m.rx_frame 0 byte; rx_state = rx_magic1 }
    else m

unfoldable pub feed_magic1 : ℕ → Machine → Machine
feed_magic1 byte m =
    if byte == frame_magic_1
    then record m {
      rx_frame = set m.rx_frame 1 byte;
      rx_index = 2;
      rx_expected = frame_header_size - 2;
      rx_state = rx_header;
    }
    else if byte == frame_magic_0
    then record m { rx_frame = set m.rx_frame 0 byte }
    else record m { rx_state = rx_magic0 }

-- The end of the header: LENGTH is checked before anything is buffered by it.
unfoldable pub header_done : Machine → Machine
header_done m =
    let len = word16_at m.rx_frame frame_off_length in
    if ltb max_payload_size len
    then rx_reset (record m { cnt_frames_ko = u32 (m.cnt_frames_ko + 1) })
    else if len == 0
    then record m { rx_expected = frame_crc_size; rx_state = rx_crc }
    else record m { rx_expected = len; rx_state = rx_data }

unfoldable pub feed_header : ℕ → Machine → Machine
feed_header byte m =
    let pushed = push_byte byte m in if pushed.rx_expected == 0 then header_done pushed else pushed

unfoldable pub feed_data : ℕ → Machine → Machine
feed_data byte m =
    let pushed = push_byte byte m in
    if pushed.rx_expected == 0
    then record pushed { rx_expected = frame_crc_size; rx_state = rx_crc }
    else pushed

module _ (unit : CrcUnit) (hw : Controller) where
  -- The end of a frame: the CRC decides between the command and a NACK.
  unfoldable pub frame_done : Machine → Machine
  frame_done m =
      let len = word16_at m.rx_frame frame_off_length in
      let seq = word16_at m.rx_frame frame_off_seq in
      let received = word32_at m.rx_frame (frame_header_size + len) in
      let computed =
        crc32_compute unit
          (take (frame_header_size - frame_off_cmd + len) (drop frame_off_cmd m.rx_frame)) in
      rx_reset (
        if computed == received
        then dispatch unit hw (byte_at m.rx_frame frame_off_cmd) seq
            (take len (drop frame_off_data m.rx_frame)) m
        else send_nack unit seq err_crc (record m { cnt_frames_ko = u32 (m.cnt_frames_ko + 1) }))

  unfoldable pub feed_crc : ℕ → Machine → Machine
  feed_crc byte m =
      let pushed = push_byte byte m in if pushed.rx_expected == 0 then frame_done pushed else pushed

  abbrev feed_state : RxState → ℕ → Machine → Machine
  feed_state rx_magic0 = feed_magic0
  feed_state rx_magic1 = feed_magic1
  feed_state rx_header = feed_header
  feed_state rx_data = feed_data
  feed_state rx_crc = feed_crc

  unfoldable pub feed : ℕ → Machine → Machine
  feed byte m = feed_state m.rx_state byte m

  -- A run of bytes, oldest first.
  unfoldable pub feed_all : List ℕ → Machine → Machine
  feed_all [] m = m
  feed_all (b ∷ bs) m = feed_all bs (feed b m)

  -- `while (budget-- > 0U && uart_getc(&uart_proto, &byte)) feed(byte);` The flag is `received`.
  unfoldable pub drain : ℕ → Machine → Bool → Machine × Bool
  drain zero m received = (m, received)
  drain (suc budget) m received =
      let got = uart_getc m.uart in
      elim (got.0) [
        | none ↦ (m, received)
        | some byte ↦ drain budget (feed byte (record m { uart = got.1 })) true
      ]

  -- The silence of a sender, once nothing was received.
  unfoldable pub check_timeout : ℕ → Machine → Machine
  check_timeout now_ms m =
      if is_receiving m.state
      then (if ltb m.timeout_ms (u32 (now_ms + 2 ^ 32 - m.last_activity_ms))
          then record (abort_transfer m) { last_activity_ms = now_ms }
          else m)
      else m

  unfoldable pub protocol_poll : ℕ → Machine → Machine
  protocol_poll now_ms m =
      let (drained, received) = drain uart_rx_buffer_size m false in
      if received
      then record drained { last_activity_ms = now_ms }
      else check_timeout now_ms drained
