-- ===== src/Flash/Writes.antt =====
-- Under a working controller a write to erased flash that the driver accepts succeeds.
use native.Mathlib.Decide.{dec_lt}
use bootloader_ota.Base.{
  ℕ, zero, suc, ◌+◌, ◌*◌, ◌-◌, ◌/◌, ◌%◌, ◌<◌, ◌≡◌, inr, refl, ap, ◌∙◌, arith, true, false, List,
  length, drop, bytes_at, word32_at, byte_at, get_or-drop,
}
use bootloader_ota.Flash.{
  Flash, Controller, flash_ok, flash_write, address_in_flash, program_dword, program,
  flash_wait_busy,
}
use bootloader_ota.Flash.Frame.{Outside}
use bootloader_ota.Flash.Verify.{write-bytes_at}
use bootloader_ota.Flash.Working.{
  IsReady, IsWorking, finished, programmed_at, Settles-wait, flash_check_errors-eq, flash_unlock-eq,
  flash_clear_errors-eq, flash_lock-eq, set_pg-eq,
}
use bootloader_ota.Flash.Bytes.{
  AllBytes, IsErased, programmed-Outside, programmed-byte, reads_back_complete,
}

-- Programming is possible: PG alone is set, nothing runs, no error is pending.
record IsProgramming (s : Flash) : Type 0 where
  pub lock : s.cr.lock ≡ false
  pub pg : s.cr.pg ≡ true
  pub per : s.cr.per ≡ false
  pub strt : s.cr.strt ≡ false
  pub mer1 : s.cr.mer1 ≡ false
  pub mer2 : s.cr.mer2 ≡ false
  pub busy : s.sr.busy ≡ false
  pub error : s.sr.error ≡ false

-- The state that the programming loop starts from.
abbrev opened_at : Flash → Flash
opened_at s = record s {
  sr = record (s.sr) { error = false };
  cr = record (s.cr) { lock = false; pg = true };
}

module _ (hw : Controller) (works : IsWorking hw) where
  program_dword-eq :
      (p : ℕ) (bs : List ℕ) (s : Flash)
      → IsProgramming s
      → p % 8 ≡ 0
      → IsErased s.mem p 8
      → program_dword hw p bs s ≡ (
        flash_ok,
        record s {
          mem = programmed_at p (word32_at bs 0) (word32_at bs 4) s.mem;
          sr = finished false;
        },
      )
  unfolding program_dword flash_wait_busy
  program_dword-eq p bs s r aligned empty =
      let (e, settles) =
        works.programs p (word32_at bs 0) (word32_at bs 4) s r.lock r.pg r.per r.mer1 r.mer2 r.busy
          r.error aligned empty in
      let done = record s {
        mem = programmed_at p (word32_at bs 0) (word32_at bs 4) s.mem;
        sr = finished e;
      } in
      rw (Settles-wait hw settles, flash_check_errors-eq hw works e done refl)

  program-succeeds :
      (n p : ℕ) (bs : List ℕ) (s : Flash)
      → IsProgramming s
      → p % 8 ≡ 0
      → AllBytes bs
      → IsErased s.mem p (8 * n)
      → let (status, after) = program hw n p bs s in
        (status ≡ flash_ok)
        × IsProgramming after
        × ((i : ℕ) → i < 8 * n → after.mem (p + i) ≡ byte_at bs i)
        × ((a : ℕ) → Outside p (8 * n) a → after.mem a ≡ s.mem a)
  unfolding program
  program-succeeds zero p bs s r aligned bytes empty =
      (refl, r, λ i h. absurd (omega arith), λ a o. refl)
  program-succeeds (suc n) p bs s r aligned bytes empty =
      let next = record s {
        mem = programmed_at p (word32_at bs 0) (word32_at bs 4) s.mem;
        sr = finished false;
      } in
      let prog : IsProgramming next = record {
        lock = r.lock;
        pg = r.pg;
        per = r.per;
        strt = r.strt;
        mer1 = r.mer1;
        mer2 = r.mer2;
        busy = refl;
        error = refl;
      } in
      let clean : IsErased next.mem (p + 8) (8 * n) =
        λ a l h. programmed-Outside p _ _ a s.mem (inr l) ∙ empty a (omega arith) (omega arith) in
      let rest =
        program-succeeds n (p + 8) (drop 8 bs) next prog (omega arith)
          (record { each = λ i. rw (get_or-drop 8 bs i 0) (bytes.each (8 + i)) }) clean in
      rw (program_dword-eq p bs s r aligned (λ a l h. empty a l (omega arith))) (
        rest.0,
        rest.1,
        λ i h. elim (dec_lt i 8) [
          | yes here ↦ rest.3 (p + i) (ground arith) ∙ programmed-byte p i bs s.mem bytes here
          | no later ↦
              let e : p + i ≡ p + 8 + (i - 8) = omega arith in
              let f : 8 + (i - 8) ≡ i = omega arith in
              rw e (rest.2 (i - 8) (omega arith) ∙ get_or-drop 8 bs (i - 8) 0 ∙ ap (byte_at bs) f)
        ],
        λ a o. rest.3 a (ground arith) ∙ programmed-Outside p _ _ a s.mem (ground arith),
      )

  program-flash_write :
      (p : ℕ) (bs : List ℕ) (s : Flash)
      → IsReady s
      → length bs % 8 ≡ 0
      → p % 8 ≡ 0
      → AllBytes bs
      → IsErased s.mem p (length bs)
      → let (status, after) = program hw (length bs / 8) p bs (opened_at s) in
        (status ≡ flash_ok)
        × IsProgramming after
        × ((i : ℕ) → i < length bs → after.mem (p + i) ≡ byte_at bs i)
        × ((a : ℕ) → Outside p (length bs) a → after.mem a ≡ s.mem a)
  program-flash_write p bs s r whole aligned bytes empty =
      let e : 8 * (length bs / 8) ≡ length bs = omega arith in
      let prog : IsProgramming (opened_at s) = record {
        lock = refl;
        pg = refl;
        per = r.per;
        strt = r.strt;
        mer1 = r.mer1;
        mer2 = r.mer2;
        busy = r.busy;
        error = refl;
      } in
      let done =
        program-succeeds (length bs / 8) p bs (opened_at s) prog aligned bytes (rw e empty) in
      (done.0, done.1, λ i h. done.2 i (omega arith), λ a o. done.3 a (rw e o))

  write-eq :
      (p : ℕ) (bs : List ℕ) (s : Flash)
      → IsReady s
      → 0 < length bs
      → length bs % 8 ≡ 0
      → p % 8 ≡ 0
      → address_in_flash p (length bs) ≡ true
      → AllBytes bs
      → IsErased s.mem p (length bs)
      → let done = (program hw (length bs / 8) p bs (opened_at s)).1 in
        flash_write hw p bs s
        ≡ (flash_ok, record done { cr = record (done.cr) { pg = false; lock = true } })
  unfolding flash_write
  write-eq p bs s r pos whole aligned fits bytes empty =
      let (ok, prog, holds, others) = program-flash_write p bs s r whole aligned bytes empty in
      let done = (program hw (length bs / 8) p bs (opened_at s)).1 in
      let unlocked = record s { cr = record (s.cr) { lock = false } } in
      let cleared = record unlocked { sr = record (s.sr) { error = false } } in
      let closed = record done { cr = record (done.cr) { pg = false } } in
      let back = reads_back_complete done.mem p bs holds in
      ground (
        arith,
        flash_unlock-eq hw works s,
        flash_clear_errors-eq hw works unlocked,
        set_pg-eq hw works true cleared refl r.busy r.strt,
        set_pg-eq hw works false done prog.lock prog.busy prog.strt,
        flash_lock-eq hw works closed prog.lock prog.busy prog.strt,
        ok,
        back,
      )

  -- With a working controller at rest, the write of whole double-words of bytes to an accepted and
  -- erased range succeeds: the range holds the bytes, the others are unchanged, and the controller
  -- is at rest again.
  pub flash_write-succeeds :
      (p : ℕ) (bs : List ℕ) (s : Flash)
      → IsReady s
      → 0 < length bs
      → length bs % 8 ≡ 0
      → p % 8 ≡ 0
      → address_in_flash p (length bs) ≡ true
      → AllBytes bs
      → IsErased s.mem p (length bs)
      → let (status, after) = flash_write hw p bs s in
        (status ≡ flash_ok)
        × IsReady after
        × (bytes_at after.mem p (length bs) ≡ bs)
        × ((a : ℕ) → Outside p (length bs) a → after.mem a ≡ s.mem a)
  flash_write-succeeds p bs s r pos whole aligned fits bytes empty =
      let (ok, prog, holds, others) = program-flash_write p bs s r whole aligned bytes empty in
      let e = write-eq p bs s r pos whole aligned fits bytes empty in
      let success : (flash_write hw p bs s).0 ≡ flash_ok = rw e refl in
      (
        success,
        rw e (record {
          busy = prog.busy;
          strt = prog.strt;
          per = prog.per;
          pg = refl;
          mer1 = prog.mer1;
          mer2 = prog.mer2;
        }),
        write-bytes_at hw p bs s success,
        rw e others,
      )
