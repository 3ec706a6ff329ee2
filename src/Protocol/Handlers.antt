-- ===== src/Protocol/Handlers.antt =====
-- The command handlers of protocol_mgr.c and their dispatch. Each takes the whole module state and
-- returns it; `bytes` is DATA, and its length is LENGTH.
use bootloader_ota.Base.{
  ℕ, ◌+◌, ◌-◌, ◌%◌, ◌^◌, ◌==◌, ◌!=◌, ltb, if◌then◌else◌, ◌&&◌, ◌||◌, not, Option, none, some, List,
  [], ◌∷◌, ◌++◌, length, u8, u16, u32, le32, byte_at, word32_at, bytes_at,
}
use bootloader_ota.Layout.{slot_a, slot_addr, slot_size, flash_page_size, bootloader_version}
use bootloader_ota.Crc.{CrcUnit, crc32_compute}
use bootloader_ota.Flash.{Controller, is_flash_ok, flash_erase_page, flash_write}
use bootloader_ota.Metadata.{
  Metadata, state_empty, state_in_progress, state_testing, slot, set_slot, zero_metadata,
}
use bootloader_ota.Store.{is_meta_ok, metadata_read, metadata_write}
use bootloader_ota.Protocol.State.{
  Machine, proto_version, cmd_get_info, cmd_start_update, cmd_data, cmd_end_update, cmd_abort,
  rsp_info, err_seq, err_length, err_flash, err_size, err_slot, err_state, err_global_crc,
  err_proto_ver, timeout_data_ms, proto_receiving, proto_complete, is_receiving, abort_transfer,
}
use bootloader_ota.Protocol.Send.{send_frame, send_ack, send_nack}

-- `metadata_read(&meta) ? meta.active_slot : SLOT_A`
abbrev pub active_of : Option Metadata → ℕ
active_of none = slot_a
active_of (some meta) = meta.active_slot

-- `1U - active`, cut to a byte.
abbrev pub free_slot : ℕ → ℕ
free_slot active = u8 (1 + 2 ^ 32 - active)

-- The record that a handler starts from: the stored one, or zeroes.
abbrev pub stored_or_zero : Option Metadata → Metadata
stored_or_zero none = zero_metadata
stored_or_zero (some meta) = meta

-- `meta.slot[s].size = …; .crc32 = …; .version = …; .state = …`
abbrev pub describe_slot : ℕ → ℕ → ℕ → ℕ → ℕ → Metadata → Metadata
describe_slot s size crc ver st meta =
    set_slot meta s (record (slot meta s) { size = size; crc32 = crc; version = ver; state = st })

-- What GET_INFO reports: the version and the state of the active slot.
abbrev pub info_of : Option Metadata → ℕ × ℕ × ℕ
info_of none = (slot_a, state_empty, 0)
info_of (some meta) =
    (meta.active_slot, (slot meta meta.active_slot).state, (slot meta meta.active_slot).version)

abbrev pub info_payload : ℕ → ℕ → ℕ → List ℕ
info_payload active st ver =
    le32 ver ++ le32 bootloader_version ++ u8 proto_version ∷ active ∷ free_slot active ∷ st ∷ []

-- The record that START_UPDATE stores before anything is erased.
unfoldable pub started_record : Option Metadata → ℕ → ℕ → ℕ → ℕ → Metadata
started_record current size crc ver target =
    describe_slot target size crc ver state_in_progress
      (record (stored_or_zero current) { active_slot = active_of current })

-- The record that END_UPDATE stores.
unfoldable pub finished_record : Option Metadata → Machine → Metadata
finished_record current m =
    describe_slot m.target_slot m.fw_size m.fw_crc32 m.fw_version state_testing
      (record (stored_or_zero current) { active_slot = m.target_slot; boot_fail_count = 0 })

-- The image as it lies in flash.
abbrev pub stored_image : Machine → List ℕ
stored_image m = bytes_at m.flash.mem (slot_addr m.target_slot) m.fw_size

module _ (unit : CrcUnit) where
  unfoldable pub on_get_info : ℕ → Machine → Machine
  on_get_info seq m =
      let (active, st, ver) = info_of (metadata_read unit m.flash.mem) in
      send_frame unit rsp_info seq (info_payload active st ver) m

  -- `send_nack(seq, err); abort_transfer();`
  unfoldable pub refuse : ℕ → ℕ → Machine → Machine
  refuse seq err m = abort_transfer (send_nack unit seq err m)

  module _ (hw : Controller) where
    unfoldable pub on_start_update : ℕ → List ℕ → Machine → Machine
    on_start_update seq bytes m =
        let size = word32_at bytes 0 in
        let crc = word32_at bytes 4 in
        let ver = word32_at bytes 8 in
        let target = byte_at bytes 12 in
        let proto = byte_at bytes 13 in
        let current = metadata_read unit m.flash.mem in
        if length bytes != 16
        then send_nack unit seq err_length m
        else if proto != proto_version
        then send_nack unit seq err_proto_ver m
        else if (size == 0) || ltb slot_size size
        then send_nack unit seq err_size m
        else if target != free_slot (active_of current)
        then send_nack unit seq err_slot m
        else (let written =
              metadata_write unit hw (started_record current size crc ver target) m.flash in
            let stored = record m { flash = written.1 } in
            if not (is_meta_ok (written.0))
            then send_nack unit seq err_flash stored
            else send_ack unit seq (record stored {
              target_slot = target;
              fw_size = size;
              fw_crc32 = crc;
              fw_version = ver;
              bytes_written = 0;
              expected_seq = u16 (seq + 1);
              last_seq = seq;
              state = proto_receiving;
              timeout_ms = timeout_data_ms;
            }))

    -- The writing half of `on_data`, from the address on.
    unfoldable pub store_block : ℕ → List ℕ → Machine → Machine
    store_block seq bytes m =
        let address = slot_addr m.target_slot + m.bytes_written in
        let erased = flash_erase_page hw address m.flash in
        let at_page = m.bytes_written % flash_page_size == 0 in
        let ready = if at_page then record m { flash = erased.1 } else m in
        let written = flash_write hw address bytes ready.flash in
        let stored = record ready { flash = written.1 } in
        if at_page && not (is_flash_ok (erased.0))
        then refuse seq err_flash ready
        else if not (is_flash_ok (written.0))
        then refuse seq err_flash stored
        else send_ack unit seq (record stored {
          bytes_written = u32 (m.bytes_written + length bytes);
          last_seq = seq;
          expected_seq = u16 (seq + 1);
        })

    unfoldable pub on_data : ℕ → List ℕ → Machine → Machine
    on_data seq bytes m =
        let len = length bytes in
        if not (is_receiving m.state)
        then send_nack unit seq err_state m
        else if seq == m.last_seq
        then send_ack unit seq m
        else if seq != m.expected_seq
        then refuse seq err_seq m
        else if (len == 0) || (len % 8 != 0)
        then send_nack unit seq err_length m
        else if ltb m.fw_size (u32 (m.bytes_written + len))
        then refuse seq err_size m
        else store_block seq bytes m

    unfoldable pub on_end_update : ℕ → Machine → Machine
    on_end_update seq m =
        if not (is_receiving m.state)
        then send_nack unit seq err_state m
        else if m.bytes_written != m.fw_size
        then refuse seq err_size m
        else if crc32_compute unit (stored_image m) != m.fw_crc32
        then refuse seq err_global_crc m
        else (let current = metadata_read unit m.flash.mem in
            let written = metadata_write unit hw (finished_record current m) m.flash in
            let stored = record m { flash = written.1 } in
            if not (is_meta_ok (written.0))
            then refuse seq err_flash stored
            else record (send_ack unit seq stored) { state = proto_complete })

    unfoldable pub dispatch : ℕ → ℕ → List ℕ → Machine → Machine
    dispatch cmd seq bytes m =
        let counted = record m { cnt_frames_ok = u32 (m.cnt_frames_ok + 1) } in
        if cmd == cmd_get_info
        then on_get_info seq counted
        else if cmd == cmd_start_update
        then on_start_update seq bytes counted
        else if cmd == cmd_data
        then on_data seq bytes counted
        else if cmd == cmd_end_update
        then on_end_update seq counted
        else if cmd == cmd_abort
        then send_ack unit seq (abort_transfer counted)
        else send_nack unit seq err_state counted
