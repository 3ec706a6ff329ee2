-- ===== src/Protocol/Session/Block.antt =====
-- A block that fits is stored and acknowledged.
use bootloader_ota.Base.{
  ℕ, ◌+◌, ◌-◌, ◌%◌, ◌^◌, ◌≤◌, ◌<◌, ◌≡◌, ◌≢◌, ◌∙◌, refl, sym, ap, inl, inr, arith, ◌==◌, true, List,
  [], ◌++◌, length, Memory, bytes_at, bytes_at-Agree, bytes_at-append, length-append, Bool-cases,
  u16,
}
use mathlib.Core.Path.{ap₂}
use bootloader_ota.Layout.{slot_addr, slot_size, flash_page_size}
use bootloader_ota.Crc.{CrcUnit}
use bootloader_ota.Flash.{
  Controller, flash_ok, flash_erase_page, flash_write, address_in_flash, address_is_bootloader,
}
use bootloader_ota.Flash.Frame.{Outside}
use bootloader_ota.Flash.Working.{IsReady, IsWorking, erased_at}
use bootloader_ota.Flash.Erases.{erase_page-succeeds}
use bootloader_ota.Flash.Bytes.{IsErased}
use bootloader_ota.Flash.Writes.{flash_write-succeeds}
use bootloader_ota.Metadata.{Metadata}
use bootloader_ota.Store.Room.{SamePages, metadata_read-SamePages, CounterRoom-SamePages}
use bootloader_ota.Protocol.State.{Machine, rsp_ack, abort_transfer}
use bootloader_ota.Protocol.Send.{frame, sends}
use bootloader_ota.Protocol.Handlers.{refuse, store_block, on_data}
use bootloader_ota.Protocol.Data.{ready}
use bootloader_ota.Protocol.Session.{IsOpen, IsBlock}

-- A range in a slot is accepted by the driver.
slot-fits :
    (s w len : ℕ)
    → s ≤ 1
    → 0 < len
    → w + len ≤ slot_size
    → (address_in_flash (slot_addr s + w) len ≡ true)
      × (slot_addr s % flash_page_size ≡ 0)
      × (slot_addr s + w < 2 ^ 32)
unfolding address_in_flash address_is_bootloader
slot-fits s w len small pos fits = ground arith

erased-inside :
    (lo a : ℕ) (mem : Memory) → lo ≤ a → a < lo + flash_page_size → erased_at lo mem a ≡ 0xff
erased-inside lo a mem l h = ground arith

erased-Outside :
    (lo a : ℕ) (mem : Memory) → Outside lo flash_page_size a → erased_at lo mem a ≡ mem a
erased-Outside lo a mem h = ground arith

module _ (unit : CrcUnit) (hw : Controller) (works : IsWorking hw) where
  -- The flash is ready for a block: what is left of the page is blank, and the bytes before the page's end are unchanged.
  record IsPrepared (m : Machine) : Type 0 where
    erased :
        m.bytes_written % flash_page_size ≡ 0
        → (flash_erase_page hw (slot_addr m.target_slot + m.bytes_written) m.flash).0 ≡ flash_ok
    rests : IsReady (ready unit hw m)
    blank :
        IsErased
          (ready unit hw m).mem
          (slot_addr m.target_slot + m.bytes_written)
          (flash_page_size - m.bytes_written % flash_page_size)
    kept :
        (a : ℕ)
        → Outside
            (slot_addr m.target_slot + m.bytes_written)
            (flash_page_size - m.bytes_written % flash_page_size)
            a
        → (ready unit hw m).mem a ≡ m.flash.mem a

  ready-IsPrepared :
      {old : Metadata} {seq : ℕ} {stored : List ℕ} (m : Machine)
      → IsOpen unit old seq stored m
      → m.bytes_written < m.fw_size
      → IsPrepared m
  ready-IsPrepared m o more = elim (Bool-cases (m.bytes_written % flash_page_size == 0)) [
    | inl e ↦
        let start : m.bytes_written % flash_page_size ≡ 0 = ground arith in
        let room : m.bytes_written + flash_page_size ≤ slot_size =
          omega (arith, start, o.transfer.size_fits, more) in
        let (fits, aligned, small) =
          slot-fits m.target_slot m.bytes_written flash_page_size (o.transfer.target) (omega arith)
            room in
        let address = slot_addr m.target_slot + m.bytes_written in
        let (ok, rests, image) =
          erase_page-succeeds hw works address m.flash small o.ready fits
            (omega (arith, aligned, start)) in
        record {
          erased = λ h. ok;
          rests = rw e rests;
          blank = rw e λ a l h.
              ap (λ mem. mem a) image
              ∙ erased-inside address a m.flash.mem l (omega (arith, h, start));
          kept = rw e λ a h.
              ap (λ mem. mem a) image
              ∙ erased-Outside address a m.flash.mem (ground (arith, h, start));
        }
    | inr e ↦
        let inside : m.bytes_written % flash_page_size ≢ 0 = ground arith in
        record {
          erased = λ h. absurd (inside h);
          rests = rw e o.ready;
          blank = rw e λ a l h. o.blank a l (omega (arith, h, inside));
          kept = rw e λ a h. refl;
        }
  ]

  block_written :
      {old : Metadata} {seq : ℕ} {stored : List ℕ} (bs : List ℕ) (m : Machine)
      → IsOpen unit old seq stored m
      → IsBlock (length stored) bs
      → length stored + length bs ≤ m.fw_size
      → let address = slot_addr m.target_slot + m.bytes_written in
        let (status, after) = flash_write hw address bs (ready unit hw m) in
        (status ≡ flash_ok)
        × IsReady after
        × (bytes_at after.mem address (length bs) ≡ bs)
        × ((a : ℕ) → Outside address (length bs) a → after.mem a ≡ (ready unit hw m).mem a)
  block_written bs m o b fits =
      let p = ready-IsPrepared m o (omega (arith, o.written, fits, b.filled)) in
      let (accepted, aligned, small) =
        slot-fits m.target_slot m.bytes_written (length bs) o.transfer.target b.filled
          (omega (arith, o.written, o.transfer.size_fits)) in
      flash_write-succeeds hw works (slot_addr m.target_slot + m.bytes_written) bs (ready unit hw m)
        p.rests b.filled b.whole (omega (arith, aligned, o.transfer.whole)) accepted b.bytes
        (λ a l h. p.blank a l (omega (arith, b.in_page, o.written, h)))

  -- The state after a block is taken.
  abbrev pub taken : ℕ → List ℕ → Machine → Machine
  taken seq bs m = record m {
    flash = (flash_write hw (slot_addr m.target_slot + m.bytes_written) bs (ready unit hw m)).1;
    bytes_written = m.bytes_written + length bs;
    last_seq = seq;
    expected_seq = u16 (seq + 1);
    tx = m.tx ++ frame unit rsp_ack seq [];
  }

  pub on_data-taken :
      {old : Metadata} {seq : ℕ} {stored : List ℕ} (bs : List ℕ) (m : Machine)
      → IsOpen unit old seq stored m
      → IsBlock (length stored) bs
      → length stored + length bs ≤ m.fw_size
      → on_data unit hw seq bs m ≡ taken seq bs m
  unfolding on_data store_block refuse abort_transfer
  on_data-taken bs m o b fits =
      let p = ready-IsPrepared m o (omega (arith, o.written, fits, b.filled)) in
      let (ok, rests, bytes, others) = block_written bs m o b fits in
      simp sends (
        ground (
          arith, o.transfer.size_fits, o.transfer.written_fits, o.receiving, o.next, o.last,
          o.written, b.filled, b.whole, ok, p.erased,
        ))

  taken-kept :
      {old : Metadata} {seq : ℕ} {stored : List ℕ} (bs : List ℕ) (m : Machine)
      → IsOpen unit old seq stored m
      → IsBlock (length stored) bs
      → length stored + length bs ≤ m.fw_size
      → (a : ℕ)
      → Outside
          (slot_addr m.target_slot + m.bytes_written)
          (flash_page_size - m.bytes_written % flash_page_size)
          a
      → (taken seq bs m).flash.mem a ≡ m.flash.mem a
  taken-kept bs m o b fits a out =
      let p = ready-IsPrepared m o (omega (arith, o.written, fits, b.filled)) in
      let (ok, rests, bytes, others) = block_written bs m o b fits in
      others a (omega (arith, out, b.in_page, o.written)) ∙ p.kept a out

  -- No byte outside the target slot changes.
  pub taken-others :
      {old : Metadata} {seq : ℕ} {stored : List ℕ} (bs : List ℕ) (m : Machine)
      → IsOpen unit old seq stored m
      → IsBlock (length stored) bs
      → length stored + length bs ≤ m.fw_size
      → (a : ℕ) → Outside (slot_addr m.target_slot) slot_size a
      → (taken seq bs m).flash.mem a ≡ m.flash.mem a
  taken-others bs m o b fits a out =
      taken-kept bs m o b fits a
        (omega (arith, out, o.transfer.size_fits, o.written, fits, b.filled))

  -- With a working controller, a block that is next in order and fits what was announced is stored
  -- behind the earlier ones, and the transfer stays open for the block after it.
  pub on_data-IsOpen :
      {old : Metadata} {seq : ℕ} {stored : List ℕ} (bs : List ℕ) (m : Machine)
      → seq < 2 ^ 16
      → IsOpen unit old seq stored m
      → IsBlock (length stored) bs
      → length stored + length bs ≤ m.fw_size
      → IsOpen unit old (u16 (seq + 1)) (stored ++ bs) (taken seq bs m)
  on_data-IsOpen {old} {seq} {stored} bs m small o b fits =
      let p = ready-IsPrepared m o (omega (arith, o.written, fits, b.filled)) in
      let (ok, rests, bytes, others) = block_written bs m o b fits in
      let base = slot_addr m.target_slot in
      let after = (taken seq bs m).flash.mem in
      let size = length-append stored bs in
      let kept = taken-kept bs m o b fits in
      let pages : SamePages unit m.flash.mem after =
        λ a l h. taken-others bs m o b fits a (ground (arith, o.transfer.target)) in
      let earlier : bytes_at after base (length stored) ≡ stored =
        bytes_at-Agree m.flash.mem after base (length stored)
          (λ a l h. kept a (inl (omega (arith, o.written, h))))
        ∙ o.holds in
      let here : bytes_at after (base + length stored) (length bs) ≡ bs =
        ap (λ k. bytes_at after (base + k) (length bs)) (sym o.written) ∙ bytes in
      record {
        transfer = omega (arith, o.transfer, o.written, fits, b.whole);
        receiving = o.receiving;
        written = omega (arith, o.written, size);
        next = refl;
        last = omega arith;
        holds = rw (size, bytes_at-append) (ap₂ ◌++◌ earlier here);
        blank = λ a l h.
            others a (omega arith) ∙ p.blank a (omega arith) (omega (arith, b.in_page, o.written));
        ready = rests;
        read = metadata_read-SamePages unit m.flash.mem after pages ∙ o.read;
        room = CounterRoom-SamePages unit 1 m.flash.mem after pages o.room;
      }
