-- ===== src/Store/Room.antt =====
-- How many more records the counter has room for.
use native.Mathlib.Decide.{ℕ_discrete}
use bootloader_ota.Base.{
  ℕ, ◌+◌, ◌*◌, Agree, ◌^◌, ◌≤◌, ◌<◌, ◌≡◌, zero, suc, ap, arith, true, bytes_at, Memory,
}
use bootloader_ota.Layout.{meta_page_a_addr, flash_page_size}
use bootloader_ota.Crc.{CrcUnit}
use bootloader_ota.Flash.{Flash, Controller}
use bootloader_ota.Flash.Frame.{IsController}
use bootloader_ota.Metadata.{Metadata, decode}
use bootloader_ota.Metadata.Codec.{IsMetadata}
use bootloader_ota.Store.{
  meta_ok, meta_page, metadata_bytes, metadata_is_valid, load_page, metadata_read, select_target,
  sealed, metadata_write,
}
use bootloader_ota.Store.Atomic.{other_page-load, load_page-Agree}
use bootloader_ota.Store.Committed.{CounterBelow, write-load, sealed-counter}

-- No usable page is within `n` records of the last counter.
abbrev pub CounterRoom : CrcUnit → ℕ → Memory → Type 0
CounterRoom unit n mem =
    (i : ℕ) → (load_page unit i mem).0 ≡ true → (load_page unit i mem).1.counter + n < 2 ^ 32

-- The second memory has room for one record less than the first.
abbrev pub RoomKept : CrcUnit → Memory → Memory → Type 0
RoomKept unit m n = (k : ℕ) → suc k < 2 ^ 32 → CounterRoom unit (suc k) m → CounterRoom unit k n

module _ (unit : CrcUnit) where
  pub CounterRoom-below :
      (n : ℕ) (mem : Memory) → CounterRoom unit (suc n) mem → CounterBelow unit mem
  CounterRoom-below n mem h i usable = omega (arith, h i usable)

  target-room :
      (n : ℕ) (mem : Memory)
      → suc n < 2 ^ 32
      → CounterRoom unit (suc n) mem
      → (select_target unit mem).1 + n < 2 ^ 32
  unfolding select_target
  target-room n mem small h = ground (arith, h 0, h 1)

  -- The record of a page other than the first is the record of the second.
  load_second : (i : ℕ) (mem : Memory) → load_page unit (suc i) mem ≡ load_page unit 1 mem
  unfolding load_page
  load_second i mem =
      let e : meta_page (suc i) ≡ meta_page 1 = ground arith in
      ap (λ p. let m = decode (bytes_at mem p metadata_bytes) in (metadata_is_valid unit m, m)) e

  module _ (hw : Controller) (laws : IsController hw) where
    page-room :
        (n : ℕ) (src : Metadata) (s : Flash)
        → suc n < 2 ^ 32
        → IsMetadata src
        → CounterRoom unit (suc n) s.mem
        → (metadata_write unit hw src s).0 ≡ meta_ok
        → (i : ℕ) → i ≤ 1
        → let page = load_page unit i (metadata_write unit hw src s).1.mem in
          page.0 ≡ true → page.1.counter + n < 2 ^ 32
    page-room n src s small fits room ok i low usable =
        let target = select_target unit s.mem in
        elim (ℕ_discrete i (target.0)) [
          | yes e ↦
              let f : load_page unit i (metadata_write unit hw src s).1.mem
                  ≡ (true, sealed unit (target.1) src) =
                rw e (write-load unit hw src s fits ok) in
              rw f (rw (sealed-counter unit (target.1) src) (target-room n s.mem small room))
          | no other ↦ rw (other_page-load unit hw laws src s i low other) (
              omega
                (arith, room i (ground (arith, other_page-load unit hw laws src s i low other))))
        ]

    -- A write that succeeds takes one.
    pub write-room :
        (n : ℕ) (src : Metadata) (s : Flash)
        → suc n < 2 ^ 32
        → IsMetadata src
        → CounterRoom unit (suc n) s.mem
        → (metadata_write unit hw src s).0 ≡ meta_ok
        → CounterRoom unit n (metadata_write unit hw src s).1.mem
    write-room n src s small fits room ok zero =
        page-room n src s small fits room ok 0 (omega arith)
    write-room n src s small fits room ok (suc i) =
        rw (load_second i (metadata_write unit hw src s).1.mem)
          (page-room n src s small fits room ok 1 (omega arith))

  -- Memories that agree on the metadata pages hold the same records.
  abbrev pub SamePages : Memory → Memory → Type 0
  SamePages m n = Agree meta_page_a_addr (meta_page_a_addr + 2 * flash_page_size) m n

  load_page-SamePages :
      (i : ℕ) (m n : Memory) → SamePages m n → load_page unit i n ≡ load_page unit i m
  load_page-SamePages i m n h =
      load_page-Agree unit i m n (λ a p q. h a (ground arith) (ground arith))

  pub metadata_read-SamePages :
      (m n : Memory) → SamePages m n → metadata_read unit n ≡ metadata_read unit m
  unfolding metadata_read
  metadata_read-SamePages m n h = rw (load_page-SamePages 0 m n h, load_page-SamePages 1 m n h)

  pub CounterRoom-SamePages :
      (k : ℕ) (m n : Memory) → SamePages m n → CounterRoom unit k m → CounterRoom unit k n
  CounterRoom-SamePages k m n h room i = rw (load_page-SamePages i m n h) (room i)
