-- ===== src/Protocol/Transfer.antt =====
-- The invariant of the transfer context, which every handler keeps.
use bootloader_ota.Base.{ℕ, ◌+◌, ◌%◌, ◌≤◌, ◌≡◌, inl, inr, Option-cases, arith, List, u32}
use bootloader_ota.Layout.{slot_size}
use bootloader_ota.Crc.{CrcUnit}
use bootloader_ota.Flash.{Controller}
use bootloader_ota.Store.{metadata_read}
use bootloader_ota.Store.Valid.{read-IsUsable}
use bootloader_ota.Protocol.State.{Machine, abort_transfer}
use bootloader_ota.Protocol.Send.{sends}
use bootloader_ota.Protocol.Handlers.{
  active_of, free_slot, refuse, on_get_info, on_start_update, store_block, on_data, on_end_update,
  dispatch,
}

-- What is written fits the announced image, which fits the slot, and stands in whole double-words.
pub record IsTransfer (m : Machine) : Type 0 where
  pub target : m.target_slot ≤ 1
  pub size_fits : m.fw_size ≤ slot_size
  pub written_fits : m.bytes_written ≤ m.fw_size
  pub whole : m.bytes_written % 8 ≡ 0

module _ (unit : CrcUnit) where
  -- The slot that a transfer may target is one of the two.
  pub free_slot-le : (mem : ℕ → ℕ) → free_slot (active_of (metadata_read unit mem)) ≤ 1
  free_slot-le mem = elim (Option-cases (metadata_read unit mem)) [
    | inl e ↦ rw e (omega arith)
    | inr (meta, e) ↦ rw e (omega (arith, read-IsUsable unit mem meta e))
  ]

  module _ (hw : Controller) where
    on_start_update-IsTransfer :
        (seq : ℕ) (bs : List ℕ) (m : Machine)
        → IsTransfer m
        → IsTransfer (on_start_update unit hw seq bs m)
    unfolding on_start_update
    on_start_update-IsTransfer seq bs m h = simp sends (ground (arith, free_slot-le m.flash.mem))

    on_data-IsTransfer :
        (seq : ℕ) (bs : List ℕ) (m : Machine) → IsTransfer m → IsTransfer (on_data unit hw seq bs m)
    unfolding on_data store_block refuse abort_transfer
    on_data-IsTransfer seq bs m h = simp sends (ground arith)

    on_end_update-IsTransfer :
        (seq : ℕ) (m : Machine) → IsTransfer m → IsTransfer (on_end_update unit hw seq m)
    unfolding on_end_update refuse abort_transfer
    on_end_update-IsTransfer seq m h = simp sends (ground arith)

    -- Every command, known or not, accepted or refused, keeps the transfer invariant: the target is
    -- one of the two slots, the announced size fits it, and what is written is a multiple of 8 and at
    -- most that size.
    pub dispatch-IsTransfer :
        (cmd seq : ℕ) (bs : List ℕ) (m : Machine)
        → IsTransfer m
        → IsTransfer (dispatch unit hw cmd seq bs m)
    unfolding dispatch on_get_info abort_transfer
    dispatch-IsTransfer cmd seq bs m h =
        let counted = record m { cnt_frames_ok = u32 (m.cnt_frames_ok + 1) } in
        let c : IsTransfer counted = omega arith in
        simp sends (
          ground (
            arith,
            on_start_update-IsTransfer seq bs counted c,
            on_data-IsTransfer seq bs counted c,
            on_end_update-IsTransfer seq counted c,
          ))
