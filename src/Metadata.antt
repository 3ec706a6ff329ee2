-- ===== src/Metadata.antt =====
-- The persistent record of shared/metadata.h: `metadata_t` as a record, and its 48 bytes.
-- A reserved byte is a field of its own.
pub mod Codec
use bootloader_ota.Base.{
  ℕ, ◌+◌, ◌/◌, ◌^◌, ◌==◌, if◌then◌else◌, List, [], ◌∷◌, ◌++◌, u8, le32, byte_at, word32_at,
}
use bootloader_ota.Layout.{slot_a}

-- `fw_state_t`, as the byte that is stored.
abbrev pub state_empty : ℕ
state_empty = 0

abbrev pub state_in_progress : ℕ
state_in_progress = 1

abbrev pub state_testing : ℕ
state_testing = 2

abbrev pub state_valid : ℕ
state_valid = 3

abbrev pub metadata_magic : ℕ
metadata_magic = 0x424c4d44

-- `slot_info_t`
pub record SlotInfo : Type 0 where
  pub size : ℕ
  pub crc32 : ℕ
  pub version : ℕ
  pub state : ℕ
  pub reserved0 : ℕ
  pub reserved1 : ℕ
  pub reserved2 : ℕ

-- `metadata_t`; `first` is slot[SLOT_A] and `second` slot[SLOT_B].
pub record Metadata : Type 0 where
  pub magic : ℕ
  pub counter : ℕ
  pub first : SlotInfo
  pub second : SlotInfo
  pub active_slot : ℕ
  pub boot_fail_count : ℕ
  pub reserved0 : ℕ
  pub reserved1 : ℕ
  pub meta_crc32 : ℕ

-- `meta.slot[s]`. The index is 0 or 1 wherever the program uses it (`Store.Valid`).
abbrev pub slot : Metadata → ℕ → SlotInfo
slot m s = if s == slot_a then m.first else m.second

abbrev pub set_slot : Metadata → ℕ → SlotInfo → Metadata
set_slot m s info = if s == slot_a then record m { first = info } else record m { second = info }

-- What the loops that zero `raw[i]` leave.
abbrev pub zero_slot : SlotInfo
zero_slot = record {
  size = 0;
  crc32 = 0;
  version = 0;
  state = 0;
  reserved0 = 0;
  reserved1 = 0;
  reserved2 = 0;
}

abbrev pub zero_metadata : Metadata
zero_metadata = record {
  magic = 0;
  counter = 0;
  first = zero_slot;
  second = zero_slot;
  active_slot = 0;
  boot_fail_count = 0;
  reserved0 = 0;
  reserved1 = 0;
  meta_crc32 = 0;
}

-- The object's bytes: little-endian, in field order, with no padding.
unfoldable pub encode_slot : SlotInfo → List ℕ
encode_slot i =
    le32 i.size
    ++ le32 i.crc32
    ++ le32 i.version
    ++ u8 i.state ∷ u8 i.reserved0 ∷ u8 i.reserved1 ∷ u8 i.reserved2 ∷ []

-- The 44 bytes that the record's CRC covers.
unfoldable pub encode_covered : Metadata → List ℕ
unfolding encode_slot
encode_covered m =
    le32 m.magic
    ++ le32 m.counter
    ++ encode_slot m.first
    ++ encode_slot m.second
    ++ u8 m.active_slot ∷ u8 m.boot_fail_count ∷ u8 m.reserved0 ∷ u8 m.reserved1 ∷ []

unfoldable pub encode : Metadata → List ℕ
unfolding encode_covered
encode m = encode_covered m ++ le32 m.meta_crc32

-- The bytes read back as the record, from an offset.
unfoldable pub decode_slot : List ℕ → ℕ → SlotInfo
decode_slot bs o = record {
  size = word32_at bs o;
  crc32 = word32_at bs (o + 4);
  version = word32_at bs (o + 8);
  state = byte_at bs (o + 12);
  reserved0 = byte_at bs (o + 13);
  reserved1 = byte_at bs (o + 14);
  reserved2 = byte_at bs (o + 15);
}

unfoldable pub decode : List ℕ → Metadata
unfolding decode_slot
decode bs = record {
  magic = word32_at bs 0;
  counter = word32_at bs 4;
  first = decode_slot bs 8;
  second = decode_slot bs 24;
  active_slot = byte_at bs 40;
  boot_fail_count = byte_at bs 41;
  reserved0 = byte_at bs 42;
  reserved1 = byte_at bs 43;
  meta_crc32 = word32_at bs 44;
}
