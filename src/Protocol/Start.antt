-- ===== src/Protocol/Start.antt =====
-- What START_UPDATE promises: a rejection destroys nothing, and an acceptance records the target
-- slot as in progress while the description of the running image survives.
use bootloader_ota.Base.{
  ℕ, ◌+◌, ◌≤◌, ◌<◌, ◌≡◌, ◌≢◌, ◌⊎◌, ◌==◌, ◌!=◌, ◌||◌, ltb, if◌then◌else◌, refl, arith, some, List,
  [], ◌∷◌, ◌++◌, length, Option, IsBytes, byte_at, word32_at, u16,
}
use bootloader_ota.Layout.{slot_size}
use bootloader_ota.Crc.{CrcUnit}
use bootloader_ota.Flash.{Flash, Controller}
use bootloader_ota.Flash.Frame.{IsController}
use bootloader_ota.Metadata.{Metadata, state_in_progress, slot}
use bootloader_ota.Metadata.Codec.{IsMetadata, word32_at-lt}
use bootloader_ota.Store.{
  meta_ok, carried_slot, metadata_read, metadata_write, select_target, sealed, unsealed,
}
use bootloader_ota.Store.Valid.{read-IsMetadata, read-IsUsable}
use bootloader_ota.Store.Committed.{CounterBelow, read-write}
use bootloader_ota.Protocol.State.{
  Machine, proto_version, proto_receiving, timeout_data_ms, rsp_ack, rsp_nack, err_length,
  err_proto_ver, err_size, err_slot,
}
use bootloader_ota.Protocol.Send.{frame, sends}
use bootloader_ota.Protocol.Handlers.{active_of, free_slot, started_record, on_start_update}

-- A payload of another length or protocol version, a size that is 0 or above the slot's, or a
-- target that is not the free slot.
abbrev pub IsRejected : Option Metadata → List ℕ → Type 0
IsRejected current bs =
    (length bs ≢ 16)
    ⊎ (byte_at bs 13 ≢ proto_version)
    ⊎ (word32_at bs 0 ≡ 0)
    ⊎ (slot_size < word32_at bs 0)
    ⊎ (byte_at bs 12 ≢ free_slot (active_of current))

-- The error that is reported, by the order of the checks.
abbrev pub start_error : Option Metadata → List ℕ → ℕ
start_error current bs =
    if length bs != 16
    then err_length
    else if byte_at bs 13 != proto_version
    then err_proto_ver
    else if (word32_at bs 0 == 0) || ltb slot_size (word32_at bs 0)
    then err_size
    else err_slot

-- The record that an accepted START_UPDATE stores over `old`.
abbrev pub started_of : Metadata → List ℕ → Metadata
started_of old bs =
    started_record (some old) (word32_at bs 0) (word32_at bs 4) (word32_at bs 8) (byte_at bs 12)

pub started_of-IsMetadata :
    (old : Metadata) (bs : List ℕ)
    → ((i : ℕ) → byte_at bs i < 256)
    → IsMetadata old
    → byte_at bs 12 ≤ 1
    → IsMetadata (started_of old bs)
unfolding started_record
started_of-IsMetadata old bs h v t =
    ground (arith, word32_at-lt bs 0 h, word32_at-lt bs 4 h, word32_at-lt bs 8 h)

module _ (unit : CrcUnit) (hw : Controller) where
  -- A START_UPDATE that fails a check is answered by a NACK with the error of the first check that
  -- fails, and changes nothing else: neither the flash nor the transfer under way.
  pub start_rejected :
      (seq : ℕ) (bs : List ℕ) (m : Machine)
      → IsRejected (metadata_read unit m.flash.mem) bs
      → let err = start_error (metadata_read unit m.flash.mem) bs in
        on_start_update unit hw seq bs m
        ≡ record m { tx = m.tx ++ frame unit rsp_nack seq (err ∷ []) }
  unfolding on_start_update
  start_rejected seq bs m h = simp sends (ground arith)

  -- The module's state once a transfer is open.
  abbrev pub opened : ℕ → List ℕ → Machine → Flash → Machine
  opened seq bs m flash = record m {
    flash = flash;
    target_slot = byte_at bs 12;
    fw_size = word32_at bs 0;
    fw_crc32 = word32_at bs 4;
    fw_version = word32_at bs 8;
    bytes_written = 0;
    expected_seq = u16 (seq + 1);
    last_seq = seq;
    state = proto_receiving;
    timeout_ms = timeout_data_ms;
    tx = m.tx ++ frame unit rsp_ack seq [];
  }

  pub start_free :
      (old : Metadata) (bs : List ℕ)
      → ¬ (IsRejected (some old) bs)
      → byte_at bs 12 ≡ free_slot old.active_slot
  start_free old bs fine = ground arith

  pub start_opens :
      (seq : ℕ) (bs : List ℕ) (m : Machine) (old : Metadata)
      → metadata_read unit m.flash.mem ≡ some old
      → ¬ (IsRejected (some old) bs)
      → (metadata_write unit hw (started_of old bs) m.flash).0 ≡ meta_ok
      → on_start_update unit hw seq bs m
        ≡ opened seq bs m (metadata_write unit hw (started_of old bs) m.flash).1
  unfolding on_start_update
  start_opens seq bs m old e fine ok = simp (sends, e) (ground arith)

  pub sealed-started :
      (c : ℕ) (old : Metadata) (bs : List ℕ)
      → old.active_slot ≤ 1
      → byte_at bs 12 ≡ free_slot old.active_slot
      → let new = sealed unit c (started_of old bs) in
        (new.active_slot ≡ old.active_slot)
        × (new.boot_fail_count ≡ old.boot_fail_count)
        × (slot new old.active_slot ≡ carried_slot (slot old old.active_slot))
        × ((slot new (byte_at bs 12)).state ≡ state_in_progress)
        × ((slot new (byte_at bs 12)).size ≡ word32_at bs 0)
  unfolding sealed unsealed started_record
  sealed-started c old bs small free = ground arith

  module _ (laws : IsController hw) where
    -- With a record stored, checks that pass and a metadata write that succeeds, START_UPDATE
    -- leaves the transfer open on the slot that is not active, nothing written yet. The record that
    -- a reboot would read keeps the active slot, its description and the failure count, and has
    -- the target slot in progress with the announced size.
    pub start_accepted :
        (seq : ℕ) (bs : List ℕ) (m : Machine) (old : Metadata)
        → IsBytes m.flash.mem
        → ((i : ℕ) → byte_at bs i < 256)
        → CounterBelow unit m.flash.mem
        → metadata_read unit m.flash.mem ≡ some old
        → ¬ (IsRejected (some old) bs)
        → (metadata_write unit hw (started_of old bs) m.flash).0 ≡ meta_ok
        → let after = on_start_update unit hw seq bs m in
          (new : Metadata) × (metadata_read unit after.flash.mem ≡ some new)
          × (after.state ≡ proto_receiving)
          × (after.bytes_written ≡ 0)
          × (after.target_slot ≢ old.active_slot)
          × (new.active_slot ≡ old.active_slot)
          × (new.boot_fail_count ≡ old.boot_fail_count)
          × (slot new old.active_slot ≡ carried_slot (slot old old.active_slot))
          × ((slot new after.target_slot).state ≡ state_in_progress)
          × ((slot new after.target_slot).size ≡ after.fw_size)
    start_accepted seq bs m old bytes payload below e fine ok =
        let active = (read-IsUsable unit m.flash.mem old e).active in
        let free : byte_at bs 12 ≡ free_slot old.active_slot = start_free old bs fine in
        let src = started_of old bs in
        let c = (select_target unit m.flash.mem).1 in
        let old_fits = read-IsMetadata unit m.flash.mem old bytes e in
        let fits = started_of-IsMetadata old bs payload old_fits (omega arith) in
        let (same_active, same_count, kept, marked, sized) = sealed-started c old bs active free in
        rw (start_opens seq bs m old e fine ok) (
          sealed unit c src,
          read-write unit hw laws src m.flash fits below ok,
          refl,
          refl,
          omega arith,
          same_active,
          same_count,
          kept,
          marked,
          sized,
        )
