-- ===== src/Store/Committed.antt =====
-- What META_OK promises: the next read returns what was written, under the next counter.
use bootloader_ota.Base.{
  ℕ, ◌+◌, ◌^◌, ◌≤◌, ◌<◌, ◌≡◌, ◌≢◌, ◌∙◌, zero, suc, refl, ap, inl, inr, arith, true, some, Memory,
  bytes_at,
}
use bootloader_ota.Crc.{CrcUnit, compute-lt}
use bootloader_ota.Flash.{Flash, Controller, flash_erase_page}
use bootloader_ota.Flash.Frame.{IsController}
use bootloader_ota.Flash.Verify.{write-bytes_at}
use bootloader_ota.Metadata.{Metadata, encode, encode_covered, decode}
use bootloader_ota.Metadata.Codec.{IsMetadata, decode-encode, length-encode}
use bootloader_ota.Store.{
  meta_ok, meta_page, metadata_bytes, load_page, metadata_read, select_target, unsealed, sealed,
  metadata_write,
}
use bootloader_ota.Store.Atomic.{target-cases, other_page-load}

-- No usable page is at the last counter: the flash wears out long before.
abbrev pub CounterBelow : CrcUnit → Memory → Type 0
CounterBelow unit mem =
    (i : ℕ) → (load_page unit i mem).0 ≡ true → (load_page unit i mem).1.counter + 1 < 2 ^ 32

module _ (unit : CrcUnit) where
  pub sealed-IsMetadata :
      (c : ℕ) (src : Metadata) → c < 2 ^ 32 → IsMetadata src → IsMetadata (sealed unit c src)
  unfolding sealed unsealed
  sealed-IsMetadata c src h v = omega (arith, compute-lt unit (encode_covered (unsealed c src)))

  pub target-lt : (mem : Memory) → (select_target unit mem).1 < 2 ^ 32
  unfolding select_target
  target-lt mem = ground arith

  pub sealed-counter : (c : ℕ) (src : Metadata) → (sealed unit c src).counter ≡ c
  unfolding sealed unsealed
  sealed-counter c src = refl

  -- The new counter is above that of the page that stays.
  other_page-counter :
      (mem : Memory) (i : ℕ)
      → CounterBelow unit mem
      → i ≤ 1
      → i ≢ (select_target unit mem).0
      → (load_page unit i mem).0 ≡ true
      → (load_page unit i mem).1.counter < (select_target unit mem).1
  unfolding select_target
  other_page-counter mem zero below small other usable = ground (arith, below 0, below 1)
  other_page-counter mem (suc zero) below small other usable = ground (arith, below 0, below 1)
  other_page-counter mem (suc (suc i)) below small other usable = absurd (omega arith)

  module _ (hw : Controller) where
    write-stored :
        (src : Metadata) (s : Flash)
        → (metadata_write unit hw src s).0 ≡ meta_ok
        → let target = select_target unit s.mem in
          let after = (metadata_write unit hw src s).1.mem in
          (bytes_at after (meta_page (target.0)) metadata_bytes
            ≡ encode (sealed unit (target.1) src))
          × ((load_page unit (target.0) after).0 ≡ true)
    unfolding metadata_write
    write-stored src s ok =
        let target = select_target unit s.mem in
        let address = meta_page (target.0) in
        let out = encode (sealed unit (target.1) src) in
        ground (
          arith,
          write-bytes_at hw address out (flash_erase_page hw address s).1,
          length-encode (sealed unit (target.1) src),
        )

    -- After META_OK the selected page loads as the record that was built.
    pub write-load :
        (src : Metadata) (s : Flash)
        → IsMetadata src
        → (metadata_write unit hw src s).0 ≡ meta_ok
        → let target = select_target unit s.mem in
          load_page unit (target.0) (metadata_write unit hw src s).1.mem
          ≡ (true, sealed unit (target.1) src)
    write-load src s v ok =
        let target = select_target unit s.mem in
        let out = sealed unit (target.1) src in
        let (stored, usable) = write-stored src s ok in
        let copy : (load_page unit (target.0) (metadata_write unit hw src s).1.mem).1 ≡ out =
          unfold load_page in
          ap decode stored
          ∙ decode-encode out (sealed-IsMetadata (target.1) src (target-lt s.mem) v) in
        λ i. (usable i, copy i)

    module _ (laws : IsController hw) where
      -- With an argument that fits its types, and no page at the last counter, META_OK means that the
      -- next read gives the record that was built from the argument.
      pub read-write :
          (src : Metadata) (s : Flash)
          → IsMetadata src
          → CounterBelow unit s.mem
          → (metadata_write unit hw src s).0 ≡ meta_ok
          → metadata_read unit (metadata_write unit hw src s).1.mem
            ≡ some (sealed unit (select_target unit s.mem).1 src)
      read-write src s v below ok = elim (target-cases unit s.mem) [
        | inl t ↦
            unfold metadata_read in
            ground (
              arith,
              t,
              write-load src s v ok,
              other_page-load unit hw laws src s 1,
              other_page-counter s.mem 1 below,
              sealed-counter (select_target unit s.mem).1 src,
            )
        | inr t ↦
            unfold metadata_read in
            ground (
              arith,
              t,
              write-load src s v ok,
              other_page-load unit hw laws src s 0,
              other_page-counter s.mem 0 below,
              sealed-counter (select_target unit s.mem).1 src,
            )
      ]
