-- ===== src/Store/Erased.antt =====
-- What metadata_erase_all leaves: no record.
use bootloader_ota.Base.{
  ℕ, ◌+◌, ◌≡◌, ◌≢◌, ◌∙◌, inl, arith, false, none, Memory, bytes_at, word32, word32_at, word32_sum,
}
use bootloader_ota.Layout.{meta_page_a_addr, meta_page_b_addr}
use bootloader_ota.Crc.{CrcUnit}
use bootloader_ota.Flash.{Flash, Controller, flash_ok, flash_erase_page}
use bootloader_ota.Flash.Frame.{IsController, erase_page-mem}
use bootloader_ota.Flash.Bytes.{IsErased}
use bootloader_ota.Flash.Verify.{erase_page-erased}
use bootloader_ota.Metadata.{metadata_magic, decode}
use bootloader_ota.Store.{
  meta_ok, meta_page, metadata_is_valid, load_page, metadata_read, metadata_erase_all,
}

blank_word :
    (b0 b1 b2 b3 : ℕ)
    → b0 ≡ 0xff
    → b1 ≡ 0xff
    → b2 ≡ 0xff
    → b3 ≡ 0xff
    → word32 b0 b1 b2 b3 ≢ metadata_magic
blank_word b0 b1 b2 b3 h0 h1 h2 h3 =
    omega (arith, word32_sum b0 b1 b2 b3 (omega arith) (omega arith) (omega arith))

module _ (unit : CrcUnit) where
  blank_magic :
      (p : ℕ) (mem : Memory)
      → IsErased mem p 4
      → (decode (bytes_at mem p 48)).magic ≢ metadata_magic
  unfolding decode bytes_at word32_at
  blank_magic p mem h =
      blank_word _ _ _ _ (h p (omega arith) (omega arith)) (h (p + 1) (omega arith) (omega arith))
        (h (p + 1 + 1) (omega arith) (omega arith)) (h (p + 1 + 1 + 1) (omega arith) (omega arith))

  blank_page :
      (i : ℕ) (mem : Memory) → IsErased mem (meta_page i) 4 → (load_page unit i mem).0 ≡ false
  unfolding load_page metadata_is_valid
  blank_page i mem h = ground (arith, blank_magic (meta_page i) mem h)

  module _ (hw : Controller) (laws : IsController hw) where
    erase_all-both :
        (s : Flash)
        → (metadata_erase_all unit hw s).0 ≡ meta_ok
        → let one = flash_erase_page hw meta_page_a_addr s in
          let two = flash_erase_page hw meta_page_b_addr (one.1) in
          (one.0 ≡ flash_ok) × (two.0 ≡ flash_ok) × ((metadata_erase_all unit hw s).1 ≡ two.1)
    unfolding metadata_erase_all
    erase_all-both s ok = ground arith

    -- When metadata_erase_all reports META_OK, under a controller that keeps to the page it is told, no record can be read any more.
    pub erase_all-forgets :
        (s : Flash)
        → (metadata_erase_all unit hw s).0 ≡ meta_ok
        → metadata_read unit (metadata_erase_all unit hw s).1.mem ≡ none
    unfolding metadata_read
    erase_all-forgets s ok =
        let one = flash_erase_page hw meta_page_a_addr s in
        let two = flash_erase_page hw meta_page_b_addr (one.1) in
        let (first, second, same) = erase_all-both s ok in
        let a : IsErased two.1.mem meta_page_a_addr 4 = λ b l h.
          erase_page-mem hw laws meta_page_b_addr (one.1) b (inl (omega arith))
          ∙ erase_page-erased hw meta_page_a_addr s first b l (omega arith) in
        let c : IsErased two.1.mem meta_page_b_addr 4 =
          λ b l h. erase_page-erased hw meta_page_b_addr (one.1) second b l (omega arith) in
        rw same (ground (arith, blank_page 0 two.1.mem a, blank_page 1 two.1.mem c))
