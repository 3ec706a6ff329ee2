-- ===== src/Store/Valid.antt =====
-- What a record that was read is good for: its fields serve as array indices and addresses.
use bootloader_ota.Base.{
  ℕ, ◌≤◌, ◌≡◌, ◌⊎◌, inl, inr, arith, true, some, Memory, IsBytes, byte_at-bytes_at,
}
use mathlib.Core.Path.{subst}
use bootloader_ota.Metadata.Codec.{IsMetadata, decode-IsMetadata}
use bootloader_ota.Layout.{slot_size}
use bootloader_ota.Crc.{CrcUnit, crc32_compute}
use bootloader_ota.Metadata.{Metadata, metadata_magic, encode_covered}
use bootloader_ota.Store.{meta_page, metadata_bytes, metadata_is_valid, load_page, metadata_read}

-- The record is the one that was written, and its slot index, states and sizes are in range.
pub record IsUsable (unit : CrcUnit) (m : Metadata) : Type 0 where
  pub magic : m.magic ≡ metadata_magic
  pub crc : crc32_compute unit (encode_covered m) ≡ m.meta_crc32
  pub active : m.active_slot ≤ 1
  pub first_state : m.first.state ≤ 3
  pub second_state : m.second.state ≤ 3
  pub first_size : m.first.size ≤ slot_size
  pub second_size : m.second.size ≤ slot_size

module _ (unit : CrcUnit) where
  is_valid-IsUsable : (m : Metadata) → metadata_is_valid unit m ≡ true → IsUsable unit m
  unfolding metadata_is_valid
  is_valid-IsUsable m h = ground arith

  pub IsUsable-is_valid : (m : Metadata) → IsUsable unit m → metadata_is_valid unit m ≡ true
  unfolding metadata_is_valid
  IsUsable-is_valid m h = ground arith

  pub load_page-IsUsable :
      (i : ℕ) (mem : Memory)
      → (load_page unit i mem).0 ≡ true
      → IsUsable unit (load_page unit i mem).1
  unfolding load_page
  load_page-IsUsable i mem h = is_valid-IsUsable _ h

  -- Whatever the flash holds, a record that metadata_read returns has the magic number, the CRC of
  -- its own bytes, a slot index of 0 or 1, known states, and sizes that fit a slot.
  pub read-IsUsable :
      (mem : Memory) (m : Metadata) → metadata_read unit mem ≡ some m → IsUsable unit m
  unfolding metadata_read
  read-IsUsable mem m h = ground (arith, load_page-IsUsable 0 mem, load_page-IsUsable 1 mem)

  load_page-IsMetadata : (i : ℕ) (mem : Memory) → IsBytes mem → IsMetadata (load_page unit i mem).1
  unfolding load_page
  load_page-IsMetadata i mem h =
      decode-IsMetadata _ (λ j. byte_at-bytes_at mem (meta_page i) metadata_bytes j h)

  read_cases :
      (mem : Memory) (m : Metadata)
      → metadata_read unit mem ≡ some m
      → ((load_page unit 0 mem).1 ≡ m) ⊎ ((load_page unit 1 mem).1 ≡ m)
  unfolding metadata_read
  read_cases mem m e = ground arith

  -- A record that was read fits the C types.
  pub read-IsMetadata :
      (mem : Memory) (m : Metadata) → IsBytes mem → metadata_read unit mem ≡ some m → IsMetadata m
  unfolding metadata_read
  read-IsMetadata mem m h e = elim (read_cases mem m e) [
    | inl p ↦ subst (λ n. IsMetadata n) p (load_page-IsMetadata 0 mem h)
    | inr p ↦ subst (λ n. IsMetadata n) p (load_page-IsMetadata 1 mem h)
  ]
