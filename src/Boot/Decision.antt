-- ===== src/Boot/Decision.antt =====
-- What the boot decision may run, and what it records before it runs it.
use bootloader_ota.Base.{
  ℕ, ◌+◌, ◌≡◌, ◌≢◌, ◌⊎◌, ◌==◌, ◌&&◌, leb, if◌then◌else◌, arith, true, some, Agree, Memory,
  bytes_at-Agree,
}
use bootloader_ota.Layout.{slot_addr, other_slot, slot_size, max_boot_failures}
use bootloader_ota.Crc.{CrcUnit}
use bootloader_ota.Flash.{Flash, Controller}
use bootloader_ota.Flash.Frame.{IsController}
use bootloader_ota.Metadata.{Metadata, state_empty, state_testing, slot}
use bootloader_ota.Store.{metadata_write}
use bootloader_ota.Store.Atomic.{target-cases, metadata_write-mem}
use bootloader_ota.Boot.{
  Plan, listen_then_jump, jump_now, slot_looks_bootable, image_is_intact, roll_back, try_image,
  decide, rolled_back, attempted,
}

-- The plan hands over to the image at an address, at once or after the window.
abbrev pub RunsAt : ℕ → Plan → Type 0
RunsAt base plan = (plan ≡ listen_then_jump base) ⊎ (plan ≡ jump_now base)

module _ (unit : CrcUnit) where
  pub looks_bootable-Agree :
      (m n : Memory) (base : ℕ)
      → Agree base (base + 8) m n
      → slot_looks_bootable n base ≡ slot_looks_bootable m base
  unfolding slot_looks_bootable
  looks_bootable-Agree m n base h = rw (bytes_at-Agree m n base 8 h)

  -- Whether an image is intact depends on its slot's bytes alone.
  pub image_is_intact-Agree :
      (m n : Memory) (meta : Metadata) (s : ℕ)
      → Agree (slot_addr s) (slot_addr s + slot_size) m n
      → image_is_intact unit m meta s ≡ true
      → image_is_intact unit n meta s ≡ true
  unfolding image_is_intact
  image_is_intact-Agree m n meta s h intact = ground (
    arith,
    looks_bootable-Agree m n (slot_addr s) (λ a p q. h a p (omega arith)),
    bytes_at-Agree m n (slot_addr s) (slot meta s).size,
  )

  module _ (hw : Controller) (laws : IsController hw) where
    pub slot_kept :
        (src : Metadata) (flash : Flash) (s : ℕ)
        → Agree
            (slot_addr s)
            (slot_addr s + slot_size)
            flash.mem
            (metadata_write unit hw src flash).1.mem
    slot_kept src flash s a p q =
        metadata_write-mem unit hw laws src flash a (ground (arith, target-cases unit flash.mem))

    roll_back-runs :
        (meta : Metadata) (flash : Flash) (base : ℕ)
        → RunsAt base (roll_back unit hw meta flash).0
        → (base ≡ slot_addr (other_slot meta.active_slot))
          × ((slot meta (other_slot meta.active_slot)).state ≢ state_empty)
          × (image_is_intact unit
                (roll_back unit hw meta flash).1.mem
                meta
                (other_slot meta.active_slot)
              ≡ true)
    unfolding roll_back
    roll_back-runs meta flash base runs = ground (
      arith,
      image_is_intact-Agree flash.mem (metadata_write unit hw (rolled_back meta) flash).1.mem meta
          (other_slot meta.active_slot)
          (slot_kept (rolled_back meta) flash (other_slot meta.active_slot)),
    )

    try_image-runs :
        (meta : Metadata) (flash : Flash) (base : ℕ)
        → RunsAt base (try_image unit hw meta flash).0
        → (base ≡ slot_addr meta.active_slot)
          × (image_is_intact unit (try_image unit hw meta flash).1.mem meta meta.active_slot ≡ true)
    unfolding try_image
    try_image-runs meta flash base runs = ground (
      arith,
      image_is_intact-Agree flash.mem (metadata_write unit hw (attempted meta) flash).1.mem meta
          meta.active_slot (slot_kept (attempted meta) flash meta.active_slot),
    )

    -- The slot that a plan can hand over to.
    abbrev chosen : Metadata → ℕ
    chosen meta =
        if ((slot meta meta.active_slot).state == state_testing)
          && leb max_boot_failures meta.boot_fail_count
        then other_slot meta.active_slot
        else meta.active_slot

    decide-chosen :
        (meta : Metadata) (flash : Flash) (base : ℕ)
        → RunsAt base (decide unit hw (some meta) flash).0
        → (base ≡ slot_addr (chosen meta))
          × (image_is_intact unit (decide unit hw (some meta) flash).1.mem meta (chosen meta)
              ≡ true)
          × ((slot meta (chosen meta)).state ≢ state_empty)
    unfolding decide
    decide-chosen meta flash base runs =
        ground (arith, roll_back-runs meta flash base, try_image-runs meta flash base)

    -- With a record read, the bootloader hands over only to an image whose size is in range, whose vectors are sane
    -- and whose CRC is the recorded one in the flash as the decision leaves it, and never to a slot
    -- that is recorded as empty.
    pub decide_runs_intact :
        (meta : Metadata) (flash : Flash) (base : ℕ)
        → RunsAt base (decide unit hw (some meta) flash).0
        → (s : ℕ) × (base ≡ slot_addr s)
          × (image_is_intact unit (decide unit hw (some meta) flash).1.mem meta s ≡ true)
          × ((slot meta s).state ≢ state_empty)
    decide_runs_intact meta flash base runs =
        let (at, intact, filled) = decide-chosen meta flash base runs in
        (chosen meta, at, intact, filled)
