-- ===== src/Protocol/Session/Sending.antt =====
-- The bytes that a host sends for a whole update, over a line that may damage or repeat frames.
use bootloader_ota.Base.{ℕ, ◌+◌, ◌^◌, ◌≤◌, ◌<◌, arith, List, [], ◌∷◌, ◌++◌, length, u16, le32}
use bootloader_ota.Crc.{CrcUnit, crc32_compute}
use bootloader_ota.Protocol.State.{
  max_payload_size, proto_version, cmd_start_update, cmd_data, cmd_end_update,
}
use bootloader_ota.Flash.Bytes.{AllBytes, AllBytes-cons, AllBytes-nil, AllBytes-le32}
use bootloader_ota.Protocol.Send.{frame}
use bootloader_ota.Protocol.Session.{IsBlock}
use bootloader_ota.Protocol.Session.Line.{Event}
use bootloader_ota.Protocol.Session.Quiet.{events_bytes, AreHarmless}

-- A block of the image, and what comes over the line after its frame.
pub record Sending : Type 0 where
  pub block : List ℕ
  pub trouble : List Event

-- The number of the frame after the blocks, and the frames of the blocks.
abbrev pub seq_after : ℕ → List Sending → ℕ
seq_after seq [] = seq
seq_after seq (b ∷ bs) = seq_after (u16 (seq + 1)) bs

abbrev pub data_frames : CrcUnit → ℕ → List Sending → List ℕ
data_frames unit seq [] = []
data_frames unit seq (b ∷ bs) =
    frame unit cmd_data seq b.block
    ++ events_bytes unit seq b.trouble
    ++ data_frames unit (u16 (seq + 1)) bs

-- The image that the blocks make up.
abbrev pub joined : List Sending → List ℕ
joined [] = []
joined (b ∷ bs) = b.block ++ joined bs

-- Each block is one that a host may send where it comes and fits a frame, and what comes after it
-- is harmless.
abbrev pub AreBlocks : CrcUnit → ℕ → List Sending → Type 0
AreBlocks unit w [] = Unit
AreBlocks unit w (b ∷ bs) =
    IsBlock w b.block
    × (length b.block ≤ max_payload_size)
    × AreHarmless unit b.trouble
    × AreBlocks unit (w + length b.block) bs

-- The payload of START_UPDATE, and the frames of a whole update.
abbrev pub start_payload : ℕ → ℕ → ℕ → ℕ → List ℕ
start_payload size crc version target =
    le32 size ++ le32 crc ++ le32 version ++ target ∷ proto_version ∷ 0 ∷ 0 ∷ []

abbrev pub update_frames : CrcUnit → ℕ → ℕ → ℕ → List Event → List Sending → List ℕ
update_frames unit seq version target opening blocks =
    let image = joined blocks in
    let first = u16 (seq + 1) in
    frame unit cmd_start_update seq
      (start_payload (length image) (crc32_compute unit image) version target)
    ++ events_bytes unit seq opening
    ++ data_frames unit first blocks
    ++ frame unit cmd_end_update (seq_after first blocks) []

pub AllBytes-start_payload :
    (size crc version target : ℕ) → target < 256 → AllBytes (start_payload size crc version target)
AllBytes-start_payload size crc version target h = AllBytes-le32 size _ (
    AllBytes-le32 crc _ (
      AllBytes-le32 version _ (
        AllBytes-cons target _ h (
          AllBytes-cons proto_version _ (omega arith)
            (AllBytes-cons 0 _ (omega arith) (AllBytes-cons 0 _ (omega arith) AllBytes-nil))))))

pub seq_after-lt : (seq : ℕ) (blocks : List Sending) → seq < 2 ^ 16 → seq_after seq blocks < 2 ^ 16
seq_after-lt seq [] h = h
seq_after-lt seq (b ∷ bs) h = seq_after-lt (u16 (seq + 1)) bs (omega arith)
