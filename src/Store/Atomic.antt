-- ===== src/Store/Atomic.antt =====
-- A write that fails, or that a power cut stops, never costs the record that was there.
use bootloader_ota.Base.{
  ℕ, ◌+◌, ◌≤◌, ◌≡◌, ◌≢◌, ◌⊎◌, inl, inr, arith, true, some, Memory, Agree, bytes_at-Agree,
}
use bootloader_ota.Layout.{flash_page_size}
use bootloader_ota.Crc.{CrcUnit}
use bootloader_ota.Flash.{Flash, Controller, flash_erase_page}
use bootloader_ota.Flash.Frame.{IsController, Outside, erase_page-mem, write-mem}
use bootloader_ota.Metadata.{Metadata, encode}
use bootloader_ota.Metadata.Codec.{length-encode}
use bootloader_ota.Store.{
  meta_page, metadata_bytes, load_page, metadata_read, select_target, sealed, metadata_write,
}

module _ (unit : CrcUnit) where
  pub load_page-Agree :
      (i : ℕ) (m n : Memory)
      → Agree (meta_page i) (meta_page i + metadata_bytes) m n
      → load_page unit i n ≡ load_page unit i m
  unfolding load_page
  load_page-Agree i m n h = rw (bytes_at-Agree m n (meta_page i) metadata_bytes h)

  pub target-cases :
      (mem : Memory) → ((select_target unit mem).0 ≡ 0) ⊎ ((select_target unit mem).0 ≡ 1)
  unfolding select_target
  target-cases mem = ground arith

  module _ (hw : Controller) (laws : IsController hw) where
    -- Whatever its status, metadata_write changes at most the page that it selects.
    pub metadata_write-mem :
        (src : Metadata) (s : Flash) (a : ℕ)
        → Outside (meta_page (select_target unit s.mem).0) flash_page_size a
        → (metadata_write unit hw src s).1.mem a ≡ s.mem a
    unfolding metadata_write
    metadata_write-mem src s a out =
        let target = select_target unit s.mem in
        let record_out = sealed unit (target.1) src in
        let erased = flash_erase_page hw (meta_page (target.0)) s in
        ground (
          arith,
          length-encode record_out,
          erase_page-mem hw laws (meta_page (target.0)) s a,
          write-mem hw laws (meta_page (target.0)) (encode record_out) (erased.1) a,
        )

    -- The page that holds the current record is not touched.
    pub other_page-load :
        (src : Metadata) (s : Flash) (i : ℕ)
        → i ≤ 1
        → i ≢ (select_target unit s.mem).0
        → load_page unit i (metadata_write unit hw src s).1.mem ≡ load_page unit i s.mem
    other_page-load src s i small other =
        load_page-Agree i s.mem (metadata_write unit hw src s).1.mem
          λ a p q. metadata_write-mem src s a (ground (arith, target-cases s.mem))

    -- Before a write a record can be read. After it, at whatever status and under any controller
    -- that keeps to the pages it is told, a record can still be read: that same one, or one that
    -- the page being written holds with a correct magic, CRC and ranges.
    pub write-keeps_record :
        (src : Metadata) (s : Flash) (m : Metadata)
        → metadata_read unit s.mem ≡ some m
        → let after = (metadata_write unit hw src s).1.mem in
          let page = load_page unit (select_target unit s.mem).0 after in
          (metadata_read unit after ≡ some m)
          ⊎ ((page.0 ≡ true) × (metadata_read unit after ≡ some (page.1)))
    write-keeps_record src s m h = elim (target-cases s.mem) [
      | inl t ↦
          rw t (unfold metadata_read select_target in ground (arith, h, t, other_page-load src s 1))
      | inr t ↦
          rw t (unfold metadata_read select_target in ground (arith, h, t, other_page-load src s 0))
    ]
