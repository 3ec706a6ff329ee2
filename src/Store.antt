-- ===== src/Store.antt =====
-- drivers/metadata_mgr.c: the record in duplicate on two pages. Pointer arguments are values here,
-- so the tests for NULL have no counterpart and META_ERR_ARG is never returned.
pub mod Valid
pub mod Atomic
pub mod Committed
pub mod Works
pub mod Room
pub mod Erased
use bootloader_ota.Base.{
  ℕ, ◌+◌, ◌==◌, ◌!=◌, ltb, if◌then◌else◌, Bool, true, false, ◌&&◌, ◌||◌, not, Option, none, some,
  Memory, bytes_at, u32,
}
use bootloader_ota.Layout.{slot_b, slot_size, meta_page_a_addr, meta_page_b_addr}
use bootloader_ota.Crc.{CrcUnit, crc32_compute}
use bootloader_ota.Flash.{Flash, Controller, is_flash_ok, flash_erase_page, flash_write}
use bootloader_ota.Metadata.{
  SlotInfo, Metadata, metadata_magic, state_valid, zero_slot, zero_metadata, encode, encode_covered,
  decode,
}

-- `metadata_status_t`
pub data MetaStatus : Type 0 where
  meta_ok meta_err_erase meta_err_write meta_err_verify meta_err_arg : MetaStatus

abbrev pub is_meta_ok : MetaStatus → Bool
is_meta_ok meta_ok = true
is_meta_ok _ = false

-- `meta_pages[index]`
abbrev pub meta_page : ℕ → ℕ
meta_page index = if index == 0 then meta_page_a_addr else meta_page_b_addr

abbrev pub metadata_bytes : ℕ
metadata_bytes = 48

-- The fields that metadata_write carries over, on a zeroed slot descriptor.
abbrev pub carried_slot : SlotInfo → SlotInfo
carried_slot i = record zero_slot {
  size = i.size;
  crc32 = i.crc32;
  version = i.version;
  state = i.state;
}

-- One turn of the loop over the slots in `metadata_is_valid`.
abbrev pub slot_is_sane : SlotInfo → Bool
slot_is_sane i =
    if ltb state_valid i.state then false else if ltb slot_size i.size then false else true

-- The record that metadata_write builds before it is sealed with its CRC,
unfoldable pub unsealed : ℕ → Metadata → Metadata
unsealed counter src = record zero_metadata {
  magic = metadata_magic;
  counter = counter;
  active_slot = src.active_slot;
  boot_fail_count = src.boot_fail_count;
  first = carried_slot src.first;
  second = carried_slot src.second;
}

module _ (unit : CrcUnit) where
  unfoldable pub metadata_is_valid : Metadata → Bool
  metadata_is_valid m =
      if m.magic != metadata_magic
      then false
      else if crc32_compute unit (encode_covered m) != m.meta_crc32
      then false
      else if ltb slot_b m.active_slot
      then false
      else if not (slot_is_sane m.first)
      then false
      else if not (slot_is_sane m.second)
      then false
      else true

  -- Whether the page is usable, with the copy that was loaded.
  unfoldable pub load_page : ℕ → Memory → Bool × Metadata
  load_page index mem =
      let m = decode (bytes_at mem (meta_page index) metadata_bytes) in (metadata_is_valid m, m)

  -- `none` is the return of 0, which leaves `*dest` alone.
  unfoldable pub metadata_read : Memory → Option Metadata
  metadata_read mem =
      let a = load_page 0 mem in
      let b = load_page 1 mem in
      if not (a.0) && not (b.0)
      then none
      else if a.0 && b.0
      then some (if ltb (a.1.counter) (b.1.counter) then b.1 else a.1)
      else some (if a.0 then a.1 else b.1)

  -- The page to write and the counter to use.
  unfoldable pub select_target : Memory → ℕ × ℕ
  select_target mem =
      let a = load_page 0 mem in
      let b = load_page 1 mem in
      if not (a.0) && not (b.0)
      then (0, 1)
      else if a.0 && b.0
      then (if ltb (a.1.counter) (b.1.counter)
          then (0, u32 (b.1.counter + 1))
          else (1, u32 (a.1.counter + 1)))
      else if a.0
      then (1, u32 (a.1.counter + 1))
      else (0, u32 (b.1.counter + 1))

  -- and sealed.
  unfoldable pub sealed : ℕ → Metadata → Metadata
  sealed counter src =
      let out = unsealed counter src in
      record out { meta_crc32 = crc32_compute unit (encode_covered out) }

  module _ (hw : Controller) where
    unfoldable pub metadata_write : Metadata → Flash → MetaStatus × Flash
    metadata_write src s =
        let target = select_target s.mem in
        let out = sealed (target.1) src in
        let address = meta_page (target.0) in
        let erased = flash_erase_page hw address s in
        if not (is_flash_ok (erased.0))
        then (meta_err_erase, erased.1)
        else (let written = flash_write hw address (encode out) (erased.1) in
            if not (is_flash_ok (written.0))
            then (meta_err_write, written.1)
            else (let reread = load_page (target.0) (written.1.mem) in
                if not (reread.0)
                then (meta_err_verify, written.1)
                else if (reread.1).counter != target.1
                then (meta_err_verify, written.1)
                else (meta_ok, written.1)))

    -- One page after the other; the first failure ends it.
    unfoldable pub metadata_erase_all : Flash → MetaStatus × Flash
    metadata_erase_all s =
        let one = flash_erase_page hw (meta_page 0) s in
        let two = flash_erase_page hw (meta_page 1) (one.1) in
        if not (is_flash_ok (one.0))
        then (meta_err_erase, one.1)
        else if not (is_flash_ok (two.0))
        then (meta_err_erase, two.1)
        else (meta_ok, two.1)
