-- ===== src/Store/Works.antt =====
-- Under a working controller a write of a sane record succeeds.
use bootloader_ota.Base.{
  ℕ, ◌%◌, ◌^◌, ◌≤◌, ◌<◌, ◌≡◌, ◌∙◌, sym, refl, ap, arith, true, Memory, bytes_at, length, List, [],
  ◌++◌,
}
use bootloader_ota.Layout.{slot_size, flash_page_size}
use bootloader_ota.Crc.{CrcUnit}
use bootloader_ota.Flash.{
  Flash, Controller, flash_erase_page, flash_write, address_in_flash, address_is_bootloader,
}
use bootloader_ota.Flash.Working.{IsReady, IsWorking}
use bootloader_ota.Flash.Erases.{erase_page-succeeds}
use bootloader_ota.Flash.Verify.{erase_page-erased}
use bootloader_ota.Flash.Bytes.{AllBytes, AllBytes-u8, AllBytes-nil, AllBytes-le32, IsErased}
use bootloader_ota.Flash.Writes.{flash_write-succeeds}
use bootloader_ota.Metadata.{Metadata, SlotInfo, encode, encode_covered, encode_slot, decode}
use bootloader_ota.Metadata.Codec.{IsMetadata, decode-encode, length-encode}
use bootloader_ota.Store.{
  meta_ok, meta_page, metadata_bytes, metadata_is_valid, load_page, select_target, sealed, unsealed,
  metadata_write,
}
use bootloader_ota.Store.Valid.{IsUsable, IsUsable-is_valid}
use bootloader_ota.Store.Committed.{sealed-IsMetadata, sealed-counter, target-lt}

-- What metadata_is_valid asks of a record apart from its magic number and CRC.
pub record IsSane (m : Metadata) : Type 0 where
  pub active : m.active_slot ≤ 1
  pub first_state : m.first.state ≤ 3
  pub second_state : m.second.state ≤ 3
  pub first_size : m.first.size ≤ slot_size
  pub second_size : m.second.size ≤ slot_size

AllBytes-encode_slot : (i : SlotInfo) (bs : List ℕ) → AllBytes bs → AllBytes (encode_slot i ++ bs)
unfolding encode_slot
AllBytes-encode_slot i bs t = AllBytes-le32 i.size _ (
    AllBytes-le32 i.crc32 _ (
      AllBytes-le32 i.version _
        (AllBytes-u8 _ _ (AllBytes-u8 _ _ (AllBytes-u8 _ _ (AllBytes-u8 _ _ t))))))

AllBytes-encode : (m : Metadata) → AllBytes (encode m)
unfolding encode encode_covered
AllBytes-encode m = AllBytes-le32 m.magic _ (
    AllBytes-le32 m.counter _ (
      AllBytes-encode_slot m.first _ (
        AllBytes-encode_slot m.second _ (
          AllBytes-u8 _ _ (
            AllBytes-u8 _ _
              (AllBytes-u8 _ _ (AllBytes-u8 _ _ (AllBytes-le32 m.meta_crc32 [] AllBytes-nil))))))))

meta_page-fits :
    (i len : ℕ)
    → len ≤ flash_page_size
    → (address_in_flash (meta_page i) len ≡ true)
      × (meta_page i % flash_page_size ≡ 0)
      × (meta_page i < 2 ^ 32)
unfolding address_in_flash address_is_bootloader
meta_page-fits i len h = ground arith

module _ (unit : CrcUnit) where
  sealed-IsUsable : (c : ℕ) (src : Metadata) → IsSane src → IsUsable unit (sealed unit c src)
  unfolding sealed unsealed encode_covered
  sealed-IsUsable c src sane = record {
    magic = refl;
    crc = refl;
    active = sane.active;
    first_state = sane.first_state;
    second_state = sane.second_state;
    first_size = sane.first_size;
    second_size = sane.second_size;
  }

  written-load :
      (i : ℕ) (m : Metadata) (mem : Memory)
      → IsMetadata m
      → IsUsable unit m
      → bytes_at mem (meta_page i) metadata_bytes ≡ encode m
      → load_page unit i mem ≡ (true, m)
  unfolding load_page
  written-load i m mem fields usable e =
      let copy = ap decode e ∙ decode-encode m fields in
      let valid = ap (metadata_is_valid unit) copy ∙ IsUsable-is_valid unit m usable in
      λ j. (valid j, copy j)

  module _ (hw : Controller) (works : IsWorking hw) where
    -- With a working controller at rest, the write of a record whose fields fit their types, with a
    -- slot index of 0 or 1, known states and sizes that fit a slot, is META_OK, and the controller
    -- is at rest again.
    pub metadata_write-succeeds :
        (src : Metadata) (s : Flash)
        → IsMetadata src
        → IsSane src
        → IsReady s
        → let (status, after) = metadata_write unit hw src s in (status ≡ meta_ok) × IsReady after
    unfolding metadata_write
    metadata_write-succeeds src s v sane ready =
        let target = select_target unit s.mem in
        let out = sealed unit (target.1) src in
        let address = meta_page (target.0) in
        let size = length-encode out in
        let fields = sealed-IsMetadata unit (target.1) src (target-lt unit s.mem) v in
        let usable = sealed-IsUsable (target.1) src sane in
        let (fits, aligned, small) = meta_page-fits (target.0) flash_page_size (omega arith) in
        let erasing = erase_page-succeeds hw works address s small ready fits aligned in
        let bare = (flash_erase_page hw address s).1 in
        let blank : IsErased bare.mem address (length (encode out)) =
          λ a l h. erase_page-erased hw address s (erasing.0) a l (omega arith) in
        let room = (meta_page-fits (target.0) (length (encode out)) (omega arith)).0 in
        let writing =
          flash_write-succeeds hw works address (encode out) bare (erasing.1) (omega arith)
            (omega arith) (omega arith) room (AllBytes-encode out) blank in
        let after = (flash_write hw address (encode out) bare).1 in
        let reread =
          written-load (target.0) out after.mem fields usable
            (ap (bytes_at after.mem address) (sym size) ∙ writing.2) in
        ground (arith, erasing.0, writing.0, reread, writing.1, sealed-counter unit (target.1) src)
