-- ===== src/Flash/Working.antt =====
-- A controller that does what the reference manual says of a healthy part, and what the driver
-- makes of it: an erase and a write whose preconditions hold succeed.
use bootloader_ota.Base.{
  ℕ, zero, suc, ◌+◌, ◌*◌, ◌-◌, ◌/◌, ◌%◌, ◌^◌, ◌≤◌, ◌<◌, ◌≡◌, refl, arith, ltb, leb, if◌then◌else◌,
  Bool, true, false, ◌&&◌, Memory, u8,
}
use bootloader_ota.Layout.{flash_page_size}
use bootloader_ota.Flash.{
  Sr, Cr, Flash, Controller, flash_ok, wait_busy, flash_wait_busy, flash_clear_errors,
  flash_check_errors, flash_unlock, flash_lock, set_pg, clear_per, erase_cr, erase_sequence,
}
use bootloader_ota.Flash.Frame.{selected}

-- Within `n` turns of a polling loop, BSY goes from the one state to 0 in the other.
pub data Settles (hw : Controller) : ℕ → Flash → Flash → Type 0 where
  settled : (n : ℕ) (s : Flash) → s.sr.busy ≡ false → Settles hw n s s
  waits :
      (n : ℕ) (s t : Flash) → s.sr.busy ≡ true → Settles hw n (hw.tick s) t → Settles hw (suc n) s t

-- The array after the erase of a page, and after two words were programmed.
abbrev pub erased_at : ℕ → Memory → Memory
erased_at lo mem a = if leb lo a && ltb a (lo + flash_page_size) then 0xff else mem a

abbrev pub byte_of : ℕ → ℕ → ℕ
byte_of w k = u8 (w / 2 ^ (8 * k))

abbrev pub programmed_at : ℕ → ℕ → ℕ → Memory → Memory
programmed_at p low high mem a =
    if leb p a && ltb a (p + 4)
    then byte_of low (a - p)
    else if leb (p + 4) a && ltb a (p + 8)
    then byte_of high (a - (p + 4))
    else mem a

-- No operation runs or is prepared.
pub record IsReady (s : Flash) : Type 0 where
  pub busy : s.sr.busy ≡ false
  pub strt : s.cr.strt ≡ false
  pub per : s.cr.per ≡ false
  pub pg : s.cr.pg ≡ false
  pub mer1 : s.cr.mer1 ≡ false
  pub mer2 : s.cr.mer2 ≡ false

abbrev pub finished : Bool → Sr
finished e = record { busy = false; error = false; eop = e }

pub record IsWorking (hw : Controller) : Type 0 where
  -- The two keys unlock the control register.
  pub unlocks :
      (s : Flash)
      → s.cr.lock ≡ true
      → hw.write_keyr 0xcdef89ab (hw.write_keyr 0x45670123 s)
        ≡ record s { cr = record (s.cr) { lock = false } }
  -- The flags are cleared by writing 1.
  pub clears :
      (v : Sr) (s : Flash)
      → hw.write_sr v s ≡ record s {
        sr = record (s.sr) {
          error = if v.error then false else s.sr.error;
          eop = if v.eop then false else s.sr.eop;
        };
      }
  -- An unlocked register takes what is written while nothing runs or is started.
  pub configures :
      (v : Cr) (s : Flash)
      → s.cr.lock ≡ false
      → s.sr.busy ≡ false
      → v.strt ≡ false
      → hw.write_cr v s ≡ record s { cr = v }
  -- STRT with PER alone erases the selected page, and is then cleared by the hardware.
  pub erases :
      (v : Cr) (s : Flash)
      → s.cr.lock ≡ false
      → s.cr.strt ≡ false
      → s.sr.busy ≡ false
      → s.sr.error ≡ false
      → v.strt ≡ true
      → v.per ≡ true
      → v.pg ≡ false
      → v.mer1 ≡ false
      → v.mer2 ≡ false
      → (e : Bool) × Settles hw hw.patience (hw.write_cr v s) (record {
        mem = erased_at (selected v) s.mem;
        sr = finished e;
        cr = record v { strt = false };
      })
  -- With PG alone, two words written to an erased double-word are programmed.
  pub programs :
      (p low high : ℕ) (s : Flash)
      → s.cr.lock ≡ false
      → s.cr.pg ≡ true
      → s.cr.per ≡ false
      → s.cr.mer1 ≡ false
      → s.cr.mer2 ≡ false
      → s.sr.busy ≡ false
      → s.sr.error ≡ false
      → p % 8 ≡ 0
      → ((a : ℕ) → p ≤ a → a < p + 8 → s.mem a ≡ 0xff)
      → (e : Bool) × Settles hw hw.patience
          (hw.store_word (p + 4) high (hw.store_word p low s))
          (record s { mem = programmed_at p low high s.mem; sr = finished e })

module _ (hw : Controller) where
  wait_idle : (n : ℕ) (s : Flash) → s.sr.busy ≡ false → wait_busy hw n s ≡ s
  unfolding wait_busy
  wait_idle zero s e = refl
  wait_idle (suc n) s e = ground arith

  pub Settles-wait : {n : ℕ} {s t : Flash} → Settles hw n s t → wait_busy hw n s ≡ t
  unfolding wait_busy
  Settles-wait (settled n s e) = wait_idle n s e
  Settles-wait (waits n s t e w) = ground (arith, Settles-wait w)

  module _ (works : IsWorking hw) where
    pub flash_clear_errors-eq :
        (s : Flash) → flash_clear_errors hw s ≡ record s { sr = record (s.sr) { error = false } }
    unfolding flash_clear_errors
    flash_clear_errors-eq s = works.clears _ s

    -- What the check makes of an operation that has finished.
    pub flash_check_errors-eq :
        (e : Bool) (s : Flash)
        → s.sr ≡ finished e
        → flash_check_errors hw s ≡ (flash_ok, record s { sr = finished false })
    unfolding flash_check_errors
    flash_check_errors-eq e s h =
        ground (arith, works.clears (record { busy = false; error = false; eop = true }) s)

    pub flash_unlock-eq :
        (s : Flash)
        → flash_unlock hw s ≡ (flash_ok, record s { cr = record (s.cr) { lock = false } })
    unfolding flash_unlock
    flash_unlock-eq s = ground (arith, works.unlocks s)

    pub flash_lock-eq :
        (s : Flash)
        → s.cr.lock ≡ false
        → s.sr.busy ≡ false
        → s.cr.strt ≡ false
        → flash_lock hw s ≡ record s { cr = record (s.cr) { lock = true } }
    unfolding flash_lock
    flash_lock-eq s unlocked idle quiet =
        works.configures (record (s.cr) { lock = true }) s unlocked idle quiet

    clear_per-eq :
        (s : Flash)
        → s.cr.lock ≡ false
        → s.sr.busy ≡ false
        → s.cr.strt ≡ false
        → clear_per hw s ≡ record s { cr = record (s.cr) { per = false } }
    unfolding clear_per
    clear_per-eq s unlocked idle quiet =
        works.configures (record (s.cr) { per = false }) s unlocked idle quiet

    pub set_pg-eq :
        (b : Bool) (s : Flash)
        → s.cr.lock ≡ false
        → s.sr.busy ≡ false
        → s.cr.strt ≡ false
        → set_pg hw b s ≡ record s { cr = record (s.cr) { pg = b } }
    unfolding set_pg
    set_pg-eq b s unlocked idle quiet =
        works.configures (record (s.cr) { pg = b }) s unlocked idle quiet

    -- The page that was selected is erased, and the register is locked again.
    abbrev pub after_erase : ℕ → Flash → Flash
    after_erase page s = record {
      mem = erased_at (selected (erase_cr page true)) s.mem;
      sr = finished false;
      cr = record (erase_cr page false) { per = false; lock = true };
    }

    pub erase_sequence-eq :
        (page : ℕ) (s : Flash)
        → s.cr.lock ≡ false
        → s.sr.busy ≡ false
        → erase_sequence hw page s ≡ (flash_ok, after_erase page s)
    unfolding erase_sequence flash_wait_busy
    erase_sequence-eq page s unlocked idle =
        let cleared = record s { sr = record (s.sr) { error = false } } in
        let prepared = record cleared { cr = erase_cr page false } in
        let (e, settles) =
          works.erases (erase_cr page true) prepared refl refl idle refl refl refl refl refl refl in
        let done = record prepared {
          mem = erased_at (selected (erase_cr page true)) s.mem;
          sr = finished e;
          cr = record (erase_cr page true) { strt = false };
        } in
        let checked = record done { sr = finished false } in
        let unper = record checked { cr = record (checked.cr) { per = false } } in
        rw (
          flash_clear_errors-eq s,
          works.configures (erase_cr page false) cleared unlocked idle refl,
          Settles-wait settles,
          flash_check_errors-eq e done refl,
          clear_per-eq checked refl refl refl,
          flash_lock-eq unper refl refl refl,
        )
