-- ===== src/Flash/Frame.antt =====
-- What the driver leaves alone. The laws are the reference manual's, and they only bound what a
-- controller may change: one that fails, or that stops halfway because the power is cut, obeys
-- them too. Reads of the array stall while an operation runs, so the array is seen to change at
-- the write that starts one.
use bootloader_ota.Base.{
  ℕ, zero, suc, ◌+◌, ◌*◌, ◌-◌, ◌/◌, ◌%◌, ◌≤◌, ◌<◌, ◌≡◌, ◌∙◌, ◌⊎◌, inl, inr, refl, arith, Bool, true,
  false, if◌then◌else◌, List, length, drop, ap, Memory,
}
use bootloader_ota.Layout.{flash_base_addr, flash_page_size}
use bootloader_ota.Flash.{
  Sr, Cr, Flash, Controller, wait_busy, flash_wait_busy, flash_clear_errors, flash_check_errors,
  flash_unlock, flash_lock, set_pg, clear_per, erase_cr, erase_sequence, flash_erase_page,
  program_dword, program, flash_write, address_in_flash,
}

-- The first byte of the page that BKER and PNB select.
abbrev pub selected : Cr → ℕ
selected v = flash_base_addr + (v.pnb + (if v.bker then 256 else 0)) * flash_page_size

-- `a` is not in the `n` bytes from `lo` on.
abbrev pub Outside : ℕ → ℕ → ℕ → Type 0
Outside lo n a = (a < lo) ⊎ (lo + n ≤ a)

pub record IsController (hw : Controller) : Type 0 where
  pub keyr_mem : (k : ℕ) (s : Flash) → (hw.write_keyr k s).mem ≡ s.mem
  pub sr_mem : (v : Sr) (s : Flash) → (hw.write_sr v s).mem ≡ s.mem
  pub tick_mem : (s : Flash) → (hw.tick s).mem ≡ s.mem
  -- An operation starts only when a write takes STRT from 0 to 1,
  pub cr_mem :
      (v : Cr) (s : Flash) → (v.strt ≡ false) ⊎ (v.strt ≡ s.cr.strt) → (hw.write_cr v s).mem ≡ s.mem
  -- and with MER1 and MER2 clear it is held to the selected page.
  pub cr_page :
      (v : Cr) (s : Flash) (a : ℕ)
      → v.mer1 ≡ false
      → v.mer2 ≡ false
      → Outside (selected v) flash_page_size a
      → (hw.write_cr v s).mem a ≡ s.mem a
  -- Programming is held to the double-word of the address.
  pub store_mem :
      (p w : ℕ) (s : Flash) (a : ℕ)
      → Outside (p / 8 * 8) 8 a
      → (hw.store_word p w s).mem a ≡ s.mem a

ap_mem : {m n : Memory} → m ≡ n → (b : ℕ) → m b ≡ n b
ap_mem e b = λ i. e i b

module _ (hw : Controller) (laws : IsController hw) where
  wait_busy-mem : (n : ℕ) (s : Flash) → (wait_busy hw n s).mem ≡ s.mem
  unfolding wait_busy
  wait_busy-mem zero s = refl
  wait_busy-mem (suc n) s = ground (arith, wait_busy-mem n (hw.tick s), laws.tick_mem s)

  flash_wait_busy-mem : (s : Flash) → (flash_wait_busy hw s).mem ≡ s.mem
  unfolding flash_wait_busy
  flash_wait_busy-mem s = wait_busy-mem hw.patience s

  flash_clear_errors-mem : (s : Flash) → (flash_clear_errors hw s).mem ≡ s.mem
  unfolding flash_clear_errors
  flash_clear_errors-mem s = laws.sr_mem _ s

  flash_check_errors-mem : (s : Flash) → (flash_check_errors hw s).1.mem ≡ s.mem
  unfolding flash_check_errors
  flash_check_errors-mem s = ground (
    arith,
    flash_clear_errors-mem s,
    laws.sr_mem (record { busy = false; error = false; eop = true }) s,
  )

  flash_unlock-mem : (s : Flash) → (flash_unlock hw s).1.mem ≡ s.mem
  unfolding flash_unlock
  flash_unlock-mem s =
      ground
        (arith, laws.keyr_mem 0x45670123 s, laws.keyr_mem 0xcdef89ab (hw.write_keyr 0x45670123 s))

  flash_lock-mem : (s : Flash) → (flash_lock hw s).mem ≡ s.mem
  unfolding flash_lock
  flash_lock-mem s = laws.cr_mem _ s (inr refl)

  set_pg-mem : (b : Bool) (s : Flash) → (set_pg hw b s).mem ≡ s.mem
  unfolding set_pg
  set_pg-mem b s = laws.cr_mem _ s (inr refl)

  clear_per-mem : (s : Flash) → (clear_per hw s).mem ≡ s.mem
  unfolding clear_per
  clear_per-mem s = laws.cr_mem _ s (inr refl)

  -- The bank and the number in it name the page of the address.
  selected-erase_cr :
      (page : ℕ) (b : Bool)
      → page < 512
      → selected (erase_cr page b) ≡ flash_base_addr + page * flash_page_size
  selected-erase_cr page b h = ground arith

  erase_sequence-mem :
      (page : ℕ) (s : Flash) (a : ℕ)
      → page < 512
      → Outside (flash_base_addr + page * flash_page_size) flash_page_size a
      → (erase_sequence hw page s).1.mem a ≡ s.mem a
  unfolding erase_sequence
  erase_sequence-mem page s a small out =
      rw (flash_lock-mem, clear_per-mem, flash_check_errors-mem, flash_wait_busy-mem)
        (laws.cr_page _ _ a refl refl (rw (selected-erase_cr page true small) out)
          ∙ ap (λ (m : Memory). m a) (laws.cr_mem _ _ (inl refl))
          ∙ ap (λ (m : Memory). m a) (flash_clear_errors-mem s))

  program_dword-mem :
      (p : ℕ) (bs : List ℕ) (s : Flash) (a : ℕ)
      → p % 8 ≡ 0
      → Outside p 8 a
      → (program_dword hw p bs s).1.mem a ≡ s.mem a
  unfolding program_dword
  program_dword-mem p bs s a aligned out =
      rw (flash_check_errors-mem, flash_wait_busy-mem)
        (laws.store_mem (p + 4) _ _ a (ground arith) ∙ laws.store_mem p _ _ a (ground arith))

  program-mem :
      (n p : ℕ) (bs : List ℕ) (s : Flash) (a : ℕ)
      → p % 8 ≡ 0
      → Outside p (n * 8) a
      → (program hw n p bs s).1.mem a ≡ s.mem a
  unfolding program
  program-mem zero p bs s a aligned out = refl
  program-mem (suc n) p bs s a aligned out = ground (
    arith,
    program_dword-mem p bs s a,
    program-mem n (p + 8) (drop 8 bs) (program_dword hw p bs s).1 a,
  )

  -- Whatever its status, an erase changes at most the page that it was given.
  pub erase_page-mem :
      (p : ℕ) (s : Flash) (a : ℕ)
      → Outside p flash_page_size a
      → (flash_erase_page hw p s).1.mem a ≡ s.mem a
  unfolding flash_erase_page address_in_flash
  erase_page-mem p s a out = ground (
    arith,
    ap_mem (flash_unlock-mem s) a,
    erase_sequence-mem ((p - flash_base_addr) / flash_page_size) (flash_unlock hw s).1 a,
  )

  -- Where the programming loop leaves the controller.
  abbrev programmed : ℕ → List ℕ → Flash → Flash
  programmed p bs s =
      (program hw (length bs / 8) p bs
        (set_pg hw true (flash_clear_errors hw (flash_unlock hw s).1))).1

  -- Whatever its status, a write changes at most the bytes that it was given.
  pub write-mem :
      (p : ℕ) (bs : List ℕ) (s : Flash) (a : ℕ)
      → Outside p (length bs) a
      → (flash_write hw p bs s).1.mem a ≡ s.mem a
  unfolding flash_write
  write-mem p bs s a out = ground (
    arith,
    ap_mem (flash_unlock-mem s) a,
    ap_mem (flash_clear_errors-mem (flash_unlock hw s).1) a,
    ap_mem (set_pg-mem true (flash_clear_errors hw (flash_unlock hw s).1)) a,
    program-mem (length bs / 8) p bs (set_pg hw true (flash_clear_errors hw (flash_unlock hw s).1))
        a,
    ap_mem (set_pg-mem false (programmed p bs s)) a,
    ap_mem (flash_lock-mem (set_pg hw false (programmed p bs s))) a,
  )
