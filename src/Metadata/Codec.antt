-- ===== src/Metadata/Codec.antt =====
-- The bytes of a record give it back.
use bootloader_ota.Base.{
  ℕ, ◌^◌, ◌<◌, ◌≡◌, refl, arith, length, u8, word32-le32, word32_at, ◌+◌, List, byte_at, word32,
  word32_sum,
}
use bootloader_ota.Metadata.{SlotInfo, Metadata, encode, decode, decode_slot}

-- Each field fits its C type.
pub record IsSlotInfo (i : SlotInfo) : Type 0 where
  pub size : i.size < 2 ^ 32
  pub crc32 : i.crc32 < 2 ^ 32
  pub version : i.version < 2 ^ 32
  pub state : i.state < 256
  pub reserved0 : i.reserved0 < 256
  pub reserved1 : i.reserved1 < 256
  pub reserved2 : i.reserved2 < 256

pub record IsMetadata (m : Metadata) : Type 0 where
  pub magic : m.magic < 2 ^ 32
  pub counter : m.counter < 2 ^ 32
  pub first : IsSlotInfo m.first
  pub second : IsSlotInfo m.second
  pub active_slot : m.active_slot < 256
  pub boot_fail_count : m.boot_fail_count < 256
  pub reserved0 : m.reserved0 < 256
  pub reserved1 : m.reserved1 < 256
  pub meta_crc32 : m.meta_crc32 < 2 ^ 32

pub length-encode : (m : Metadata) → length (encode m) ≡ 48
unfolding encode
length-encode m = refl

byte_fits : (n : ℕ) → n < 256 → u8 n ≡ n
byte_fits n h = omega arith

decode-first : (m : Metadata) → IsSlotInfo m.first → decode_slot (encode m) 8 ≡ m.first
unfolding encode decode_slot word32_at
decode-first m h = λ i. record {
  size = word32-le32 m.first.size h.size i;
  crc32 = word32-le32 m.first.crc32 h.crc32 i;
  version = word32-le32 m.first.version h.version i;
  state = byte_fits m.first.state h.state i;
  reserved0 = byte_fits m.first.reserved0 h.reserved0 i;
  reserved1 = byte_fits m.first.reserved1 h.reserved1 i;
  reserved2 = byte_fits m.first.reserved2 h.reserved2 i;
}

decode-second : (m : Metadata) → IsSlotInfo m.second → decode_slot (encode m) 24 ≡ m.second
unfolding encode decode_slot word32_at
decode-second m h = λ i. record {
  size = word32-le32 m.second.size h.size i;
  crc32 = word32-le32 m.second.crc32 h.crc32 i;
  version = word32-le32 m.second.version h.version i;
  state = byte_fits m.second.state h.state i;
  reserved0 = byte_fits m.second.reserved0 h.reserved0 i;
  reserved1 = byte_fits m.second.reserved1 h.reserved1 i;
  reserved2 = byte_fits m.second.reserved2 h.reserved2 i;
}

-- The 48 bytes of a record whose fields fit their types read back as that record.
pub decode-encode : (m : Metadata) → IsMetadata m → decode (encode m) ≡ m
unfolding encode decode word32_at
decode-encode m h = λ i. record {
  magic = word32-le32 m.magic h.magic i;
  counter = word32-le32 m.counter h.counter i;
  first = decode-first m h.first i;
  second = decode-second m h.second i;
  active_slot = byte_fits m.active_slot h.active_slot i;
  boot_fail_count = byte_fits m.boot_fail_count h.boot_fail_count i;
  reserved0 = byte_fits m.reserved0 h.reserved0 i;
  reserved1 = byte_fits m.reserved1 h.reserved1 i;
  meta_crc32 = word32-le32 m.meta_crc32 h.meta_crc32 i;
}

word32-lt :
    (b0 b1 b2 b3 : ℕ) → b0 < 256 → b1 < 256 → b2 < 256 → b3 < 256 → word32 b0 b1 b2 b3 < 2 ^ 32
word32-lt b0 b1 b2 b3 h0 h1 h2 h3 = omega (arith, word32_sum b0 b1 b2 b3 h0 h1 h2)

pub word32_at-lt : (bs : List ℕ) (o : ℕ) → ((i : ℕ) → byte_at bs i < 256) → word32_at bs o < 2 ^ 32
unfolding word32_at
word32_at-lt bs o h = word32-lt _ _ _ _ (h o) (h (o + 1)) (h (o + 2)) (h (o + 3))

-- What is decoded from bytes fits its types.
pub decode-IsMetadata : (bs : List ℕ) → ((i : ℕ) → byte_at bs i < 256) → IsMetadata (decode bs)
unfolding decode word32_at
decode-IsMetadata bs h = record {
  magic = word 0;
  counter = word 4;
  first = info 8;
  second = info 24;
  active_slot = h 40;
  boot_fail_count = h 41;
  reserved0 = h 42;
  reserved1 = h 43;
  meta_crc32 = word 44;
}
  where
    word : (o : ℕ) → word32_at bs o < 2 ^ 32
    word o = word32_at-lt bs o h

    info : (o : ℕ) → IsSlotInfo (decode_slot bs o)
    info o = record {
      size = word o;
      crc32 = word (o + 4);
      version = word (o + 8);
      state = h (o + 12);
      reserved0 = h (o + 13);
      reserved1 = h (o + 14);
      reserved2 = h (o + 15);
    }
