-- ===== src/Protocol/Send.antt =====
-- `send_frame` and its two short forms, against the frame format that shared/protocol.h documents.
use mathlib.Core.List.{append_assoc}
use bootloader_ota.Base.{
  suc, lt→ltb, ℕ, ◌/◌, ◌^◌, ◌≡◌, refl, ap, ltb, if◌then◌else◌, arith, List, [], ◌∷◌, ◌++◌, length,
  drop, u8, le16, le32,
}
use bootloader_ota.Crc.{
  CrcUnit, crc32_reset, crc32_update, crc32_get, crc32_compute, get-update_pieces,
}
use bootloader_ota.Protocol.State.{
  Machine, frame_magic_0, frame_magic_1, frame_off_cmd, rsp_ack, rsp_nack,
}

-- `uart_write(&uart_proto, …)`: the bytes go out in order.
unfoldable pub uart_write : List ℕ → Machine → Machine
uart_write bs m = record m { tx = m.tx ++ bs }

abbrev pub frame_header : ℕ → ℕ → ℕ → List ℕ
frame_header cmd seq len =
    frame_magic_0 ∷ frame_magic_1 ∷ cmd ∷ u8 len ∷ u8 (len / 2 ^ 8) ∷ u8 seq ∷ u8 (seq / 2 ^ 8) ∷ []

module _ (unit : CrcUnit) where
  -- A NULL `data` is the empty list here, and `len` the list's length.
  unfoldable pub send_frame : ℕ → ℕ → List ℕ → Machine → Machine
  send_frame cmd seq bytes m =
      let len = length bytes in
      let header = frame_header cmd seq len in
      let fed = crc32_update unit (crc32_reset unit 0) (drop frame_off_cmd header) in
      let crc = crc32_get unit (if ltb 0 len then crc32_update unit fed bytes else fed) in
      let headed = uart_write header m in
      let filled = if ltb 0 len then uart_write bytes headed else headed in
      uart_write (le32 crc) filled

  unfoldable pub send_ack : ℕ → Machine → Machine
  send_ack seq m = send_frame rsp_ack seq [] m

  unfoldable pub send_nack : ℕ → ℕ → Machine → Machine
  send_nack seq err m = send_frame rsp_nack seq (err ∷ []) m

  -- The documented format: MAGIC, CMD, LENGTH, SEQ, DATA and the CRC of all but the MAGIC.
  abbrev pub frame_body : ℕ → ℕ → List ℕ → List ℕ
  frame_body cmd seq bytes = cmd ∷ le16 (length bytes) ++ le16 seq ++ bytes

  unfoldable pub frame : ℕ → ℕ → List ℕ → List ℕ
  frame cmd seq bytes =
      frame_magic_0 ∷ frame_magic_1 ∷ frame_body cmd seq bytes
      ++ le32 (crc32_compute unit (frame_body cmd seq bytes))

  -- The same, with another value in the place of the CRC.
  abbrev pub checked_frame : ℕ → ℕ → List ℕ → ℕ → List ℕ
  checked_frame cmd seq bytes c = frame_magic_0 ∷ frame_magic_1 ∷ frame_body cmd seq bytes ++ le32 c

  -- `send_frame` puts exactly the documented frame on the link and changes nothing else.
  pub send_frame-frame :
      (cmd seq : ℕ) (bytes : List ℕ) (m : Machine)
      → send_frame cmd seq bytes m ≡ record m { tx = m.tx ++ frame cmd seq bytes }
  unfolding send_frame frame uart_write
  send_frame-frame cmd seq [] m = simp append_assoc (unfold crc32_compute in refl)
  send_frame-frame cmd seq (b ∷ bs) m =
      rw (lt→ltb 0 (suc (length bs)) (omega arith), get-update_pieces)
        (ap (λ (t : List ℕ). record m { tx = t }) (simp append_assoc))

  pub send_ack-frame :
      (seq : ℕ) (m : Machine) → send_ack seq m ≡ record m { tx = m.tx ++ frame rsp_ack seq [] }
  unfolding send_ack
  send_ack-frame seq m = send_frame-frame rsp_ack seq [] m

  pub send_nack-frame :
      (seq err : ℕ) (m : Machine)
      → send_nack seq err m ≡ record m { tx = m.tx ++ frame rsp_nack seq (err ∷ []) }
  unfolding send_nack
  send_nack-frame seq err m = send_frame-frame rsp_nack seq (err ∷ []) m

pub ruleset sends = (send_frame-frame, send_ack-frame, send_nack-frame)
