-- ===== src/Flash.antt =====
-- drivers/flash.c over the flash controller, which is hardware: its reactions to the driver's
-- register accesses are the fields of `Controller`. The registers are records of the bits that
-- the driver names; all flags of SR_ALL_ERRORS are the one bit `error`.
pub mod Frame
pub mod Guard
pub mod Verify
pub mod Working
pub mod Erases
pub mod Bytes
pub mod Writes
use bootloader_ota.Base.{
  ℕ, zero, suc, ◌+◌, ◌*◌, ◌-◌, ◌/◌, ◌%◌, ◌^◌, ◌==◌, ◌!=◌, ltb, leb, if◌then◌else◌, Bool, true,
  false, ◌&&◌, ◌||◌, not, List, [], ◌∷◌, Memory, length, drop, u32, word32_at,
}
use bootloader_ota.Layout.{
  flash_base_addr, flash_total_size, flash_page_size, bootloader_addr, bootloader_size,
}

-- FLASH_SR
pub record Sr : Type 0 where
  pub busy : Bool
  pub error : Bool
  pub eop : Bool

-- FLASH_CR
pub record Cr : Type 0 where
  pub lock : Bool
  pub strt : Bool
  pub bker : Bool
  pub pnb : ℕ
  pub mer1 : Bool
  pub mer2 : Bool
  pub per : Bool
  pub pg : Bool

-- The controller with the array that it guards.
pub record Flash : Type 0 where
  pub mem : Memory
  pub sr : Sr
  pub cr : Cr

-- What the hardware does at a write of each register and of the array, and in one turn of a
-- polling loop; `patience` bounds the turns that are waited for before the watchdog ends the wait.
pub record Controller : Type 0 where
  pub write_keyr : ℕ → Flash → Flash
  pub write_sr : Sr → Flash → Flash
  pub write_cr : Cr → Flash → Flash
  pub store_word : ℕ → ℕ → Flash → Flash
  pub tick : Flash → Flash
  pub patience : ℕ

-- `flash_status_t`
pub data FlashStatus : Type 0 where
  flash_ok err_align err_range err_locked err_busy err_prog err_verify : FlashStatus

abbrev pub is_flash_ok : FlashStatus → Bool
is_flash_ok flash_ok = true
is_flash_ok _ = false

abbrev pub pages_per_bank : ℕ
pages_per_bank = 256

-- Any overlap of `[address, address + len)` with the bootloader; the sum is a uint32_t.
unfoldable pub address_is_bootloader : ℕ → ℕ → Bool
address_is_bootloader address len =
    let bl_end = bootloader_addr + bootloader_size in
    ltb address bl_end && ltb bootloader_addr (u32 (address + len))

unfoldable pub address_in_flash : ℕ → ℕ → Bool
address_in_flash address len =
    if ltb address flash_base_addr
    then false
    else if ltb (flash_base_addr + flash_total_size) (u32 (address + len))
    then false
    else if ltb (u32 (address + len)) address
    then false
    else if address_is_bootloader address len
    then false
    else true

-- `for (i = 0; i < len; i++) if (p[i] != 0xFF) return 0;`
unfoldable pub flash_is_erased : Memory → ℕ → ℕ → Bool
flash_is_erased mem address zero = true
flash_is_erased mem address (suc len) =
    let rest = flash_is_erased mem (address + 1) len in if mem address != 0xff then false else rest

-- The read-back of `flash_write`: `written[i] != data[i]` ends it.
unfoldable pub reads_back : Memory → ℕ → List ℕ → Bool
reads_back mem address [] = true
reads_back mem address (b ∷ bs) =
    let rest = reads_back mem (address + 1) bs in if mem address != b then false else rest

-- PER with the page number, and BKER for the second bank; no other bit.
abbrev pub erase_cr : ℕ → Bool → Cr
erase_cr page start = record {
  lock = false;
  strt = start;
  bker = leb pages_per_bank page;
  pnb = page % pages_per_bank;
  mer1 = false;
  mer2 = false;
  per = true;
  pg = false;
}

module _ (hw : Controller) where
  -- `while (FLASH_SR & SR_BSY) { }`, with `n` turns left.
  unfoldable pub wait_busy : ℕ → Flash → Flash
  wait_busy zero s = s
  wait_busy (suc n) s = let rest = wait_busy n (hw.tick s) in if s.sr.busy then rest else s

  unfoldable pub flash_wait_busy : Flash → Flash
  flash_wait_busy s = wait_busy hw.patience s

  unfoldable pub flash_clear_errors : Flash → Flash
  flash_clear_errors s = hw.write_sr (record { busy = false; error = true; eop = false }) s

  unfoldable pub flash_check_errors : Flash → FlashStatus × Flash
  flash_check_errors s =
      if s.sr.error
      then (err_prog, flash_clear_errors s)
      else if s.sr.eop
      then (flash_ok, hw.write_sr (record { busy = false; error = false; eop = true }) s)
      else (flash_ok, s)

  unfoldable pub flash_unlock : Flash → FlashStatus × Flash
  flash_unlock s =
      if not s.cr.lock
      then (flash_ok, s)
      else (let t = hw.write_keyr 0xcdef89ab (hw.write_keyr 0x45670123 s) in
          (if t.cr.lock then err_locked else flash_ok, t))

  -- `FLASH_CR |= CR_LOCK`, and the other read-modify-writes of the register.
  unfoldable pub flash_lock : Flash → Flash
  flash_lock s = hw.write_cr (record (s.cr) { lock = true }) s

  unfoldable pub set_pg : Bool → Flash → Flash
  set_pg b s = hw.write_cr (record (s.cr) { pg = b }) s

  unfoldable pub clear_per : Flash → Flash
  clear_per s = hw.write_cr (record (s.cr) { per = false }) s

  -- From the register sequence to the relock: the state after it, and what the controller said.
  unfoldable pub erase_sequence : ℕ → Flash → FlashStatus × Flash
  erase_sequence page s =
      let started =
        hw.write_cr (erase_cr page true)
          (hw.write_cr (erase_cr page false) (flash_clear_errors s)) in
      let checked = flash_check_errors (flash_wait_busy started) in
      (checked.0, flash_lock (clear_per (checked.1)))

  unfoldable pub flash_erase_page : ℕ → Flash → FlashStatus × Flash
  flash_erase_page address s =
      if not (address_in_flash address flash_page_size)
      then (err_range, s)
      else if address % flash_page_size != 0
      then (err_align, s)
      else if s.sr.busy
      then (err_busy, s)
      else (let unlocked = flash_unlock s in
          if not (is_flash_ok (unlocked.0))
          then unlocked
          else (let page = (address - flash_base_addr) / flash_page_size in
              let erased = erase_sequence page (unlocked.1) in
              if not (is_flash_ok (erased.0))
              then erased
              else if not (flash_is_erased (erased.1.mem) address flash_page_size)
              then (err_verify, erased.1)
              else (flash_ok, erased.1)))

  -- One turn of the programming loop: the two words, the wait, and the controller's verdict.
  unfoldable pub program_dword : ℕ → List ℕ → Flash → FlashStatus × Flash
  program_dword address bytes s =
      let stored =
        hw.store_word (address + 4) (word32_at bytes 4)
          (hw.store_word address (word32_at bytes 0) s) in
      flash_check_errors (flash_wait_busy stored)

  -- `for (i = 0; i < len; i += 8)` with the rounds left; an error ends it.
  unfoldable pub program : ℕ → ℕ → List ℕ → Flash → FlashStatus × Flash
  program zero address bytes s = (flash_ok, s)
  program (suc n) address bytes s =
      let done = program_dword address bytes s in
      let rest = program n (address + 8) (drop 8 bytes) (done.1) in
      if is_flash_ok (done.0) then rest else done

  unfoldable pub flash_write : ℕ → List ℕ → Flash → FlashStatus × Flash
  flash_write address bytes s =
      let len = length bytes in
      if len == 0
      then (err_align, s)
      else if (address % 8 != 0) || (len % 8 != 0)
      then (err_align, s)
      else if not (address_in_flash address len)
      then (err_range, s)
      else if s.sr.busy
      then (err_busy, s)
      else (let unlocked = flash_unlock s in
          if not (is_flash_ok (unlocked.0))
          then unlocked
          else (let done =
                program (len / 8) address bytes (set_pg true (flash_clear_errors (unlocked.1))) in
              let locked = flash_lock (set_pg false (done.1)) in
              if not (is_flash_ok (done.0))
              then (done.0, locked)
              else if not (reads_back (locked.mem) address bytes)
              then (err_verify, locked)
              else (flash_ok, locked)))
