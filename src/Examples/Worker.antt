-- ===== src/Examples/Worker.antt =====
-- A board whose flash controller does all that a healthy part does.
use mathlib.Core.Path.{subst, fun_ext}
use bootloader_ota.Base.{
  ℕ, ◌+◌, ◌-◌, ◌%◌, ◌==◌, ◌≡◌, ltb, leb, if◌then◌else◌, refl, sym, arith, true, false, ◌&&◌, not,
  Memory,
}
use bootloader_ota.Flash.{Cr, Flash, Controller}
use bootloader_ota.Flash.Frame.{IsController, selected}
use bootloader_ota.Flash.Working.{
  Settles, settled, IsWorking, IsReady, erased_at, programmed_at, byte_of, finished,
}
use bootloader_ota.Examples.Board.{idle_flash}

-- A word at an aligned address.
abbrev word_at : ℕ → ℕ → Memory → Memory
word_at p w mem a = if (p % 4 == 0) && leb p a && ltb a (p + 4) then byte_of w (a - p) else mem a

abbrev react : Cr → Flash → Flash
react v s =
    if v.strt && not s.cr.strt && v.per
    then record {
      mem = erased_at (selected v) s.mem;
      sr = finished true;
      cr = record v { strt = false };
    }
    else record s { cr = v }

abbrev pub worker : Controller
worker = record {
  write_keyr =
      λ k s. if k == 0xcdef89ab then record s { cr = record (s.cr) { lock = false } } else s;
  write_sr = λ v s. record s {
    sr = record (s.sr) {
      error = if v.error then false else s.sr.error;
      eop = if v.eop then false else s.sr.eop;
    };
  };
  write_cr = react;
  store_word = λ p w s. record s { mem = word_at p w s.mem; sr = finished true };
  tick = λ s. s;
  patience = 1;
}

pub worker-IsController : IsController worker
worker-IsController = record {
  keyr_mem = λ k s. ground arith;
  sr_mem = λ v s. refl;
  tick_mem = λ s. refl;
  cr_mem = λ v s h. ground arith;
  cr_page = λ v s a one two out. ground arith;
  store_mem = λ p w s a out. ground arith;
}

-- What is there at once is waited for in no turn.
settled_as : (n : ℕ) (s t : Flash) → s ≡ t → t.sr.busy ≡ false → Settles worker n s t
settled_as n s t e idle = subst (λ x. Settles worker n x t) (sym e) (settled n t idle)

two_words :
    (p low high : ℕ) (mem : Memory)
    → p % 8 ≡ 0
    → word_at (p + 4) high (word_at p low mem) ≡ programmed_at p low high mem
two_words p low high mem h = fun_ext (λ a. ground arith)

pub worker-IsWorking : IsWorking worker
worker-IsWorking = record {
  unlocks = λ s h. ground arith;
  clears = λ v s. refl;
  configures = λ v s unlocked idle quiet. ground arith;
  erases = λ v s unlocked quiet idle clean start page pg one two.
      (true, settled_as 1 _ _ (ground arith) refl);
  programs = λ p low high s unlocked pg per one two idle clean aligned blank. (
    true,
    settled_as 1 _ _
        (λ i. record s { mem = two_words p low high s.mem aligned i; sr = finished true }) refl,
  );
}

pub idle_flash-IsReady : (mem : Memory) → IsReady (idle_flash mem)
idle_flash-IsReady mem = record {
  busy = refl;
  strt = refl;
  per = refl;
  pg = refl;
  mer1 = refl;
  mer2 = refl;
}
