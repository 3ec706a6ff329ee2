-- ===== src/Protocol/Session.antt =====
-- A transfer under way on a working controller, and what the next block does to it.
pub mod Block
pub mod Opens
pub mod Ends
pub mod Stream
pub mod Line
pub mod Quiet
pub mod Sending
pub mod Update
pub mod Frames
pub mod Complete
pub mod Messages
use bootloader_ota.Base.{ℕ, ◌+◌, ◌-◌, ◌%◌, ◌≤◌, ◌<◌, ◌≡◌, ◌≢◌, some, List, length, bytes_at}
use bootloader_ota.Layout.{slot_addr, flash_page_size}
use bootloader_ota.Crc.{CrcUnit}
use bootloader_ota.Flash.Working.{IsReady}
use bootloader_ota.Flash.Bytes.{AllBytes, IsErased}
use bootloader_ota.Metadata.{Metadata}
use bootloader_ota.Store.{metadata_read}
use bootloader_ota.Store.Room.{CounterRoom}
use bootloader_ota.Protocol.State.{Machine, proto_receiving}
use bootloader_ota.Protocol.Transfer.{IsTransfer}

-- What is left of the page that an offset stands in, when the offset is inside.
abbrev pub page_rest : ℕ → ℕ
page_rest w = (flash_page_size - w % flash_page_size) % flash_page_size

-- The transfer is open, `stored` lies in the slot, the page that is begun is blank behind it, and
-- the block numbered `seq` comes next; a reset would read `old`.
pub record IsOpen (unit : CrcUnit) (old : Metadata) (seq : ℕ) (stored : List ℕ) (m : Machine)
    : Type 0 where
  pub transfer : IsTransfer m
  pub receiving : m.state ≡ proto_receiving
  pub written : m.bytes_written ≡ length stored
  pub next : m.expected_seq ≡ seq
  pub last : m.last_seq ≢ seq
  pub holds : bytes_at m.flash.mem (slot_addr m.target_slot) (length stored) ≡ stored
  pub blank :
      IsErased m.flash.mem (slot_addr m.target_slot + m.bytes_written) (page_rest m.bytes_written)
  pub ready : IsReady m.flash
  pub read : metadata_read unit m.flash.mem ≡ some old
  pub room : CounterRoom unit 1 m.flash.mem

-- What a host may send behind the first `w` bytes: whole double-words that stay in one page.
pub record IsBlock (w : ℕ) (bs : List ℕ) : Type 0 where
  pub filled : 0 < length bs
  pub whole : length bs % 8 ≡ 0
  pub in_page : w % flash_page_size + length bs ≤ flash_page_size
  pub bytes : AllBytes bs
