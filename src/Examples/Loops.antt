-- ===== src/Examples/Loops.antt =====
-- A host that holds the line down while the application runs, and the boot behind it.
use Prim.Native.Nat.{bit_and}
use bootloader_ota.Base.{
  ℕ, ◌+◌, ◌≡◌, ◌==◌, ◌!=◌, refl, sym, ◌∙◌, arith, Bool, true, false, if◌then◌else◌, List, [], ◌∷◌,
}
use bootloader_ota.Layout.{slot_b_addr}
use bootloader_ota.Store.{sealed, unsealed}
use bootloader_ota.App.{Pass, AppState}
use bootloader_ota.App.Link.{Receiver, IsReceiving, has_overrun, has_byte}
use bootloader_ota.App.Loop.{app_loop, held_rounds, held_line_opens_window}
use bootloader_ota.Boot.{boot, update_loop, after_window, ota_wait_ms, boot_request_pending}
use bootloader_ota.Boot.Served.{ready_of}
use bootloader_ota.Examples.Board.{crc_unit, idle_flash}
use bootloader_ota.Examples.Boards.{listening}
use bootloader_ota.Examples.Served.{settled, settled_memory, reads_settled, settled_intact}
use bootloader_ota.Examples.Worker.{worker}

-- A receiver with one data register.
record Cell : Type 0 where
  overrun : Bool
  full : Bool
  value : ℕ

abbrev status : Bool → Bool → ℕ
status overrun full = (if overrun then 8 else 0) + (if full then 32 else 0)

abbrev cell_receiver : Receiver Cell
cell_receiver = record {
  isr = λ p. status p.overrun p.full;
  rdr = λ p. p.value;
  rdr_read = λ p. record p { full = false };
  icr_written = λ mask p. if bit_and mask 8 == 8 then record p { overrun = false } else p;
  arrives = λ c p.
      if p.full
      then record p { overrun = true }
      else if p.overrun
      then p
      else record p { full = true; value = c };
}

overrun-status : (overrun full : Bool) → (bit_and (status overrun full) 8 != 0) ≡ overrun
overrun-status true true = refl
overrun-status true false = refl
overrun-status false true = refl
overrun-status false false = refl

full-status : (overrun full : Bool) → (bit_and (status overrun full) 32 != 0) ≡ full
full-status true true = refl
full-status true false = refl
full-status false true = refl
full-status false false = refl

abbrev cell : Bool → Bool → ℕ → Cell
cell o f v = record { overrun = o; full = f; value = v }

cell-stored :
    (o f : Bool) (v c : ℕ)
    → has_overrun cell_receiver (cell o f v) ≡ false
    → has_byte cell_receiver (cell o f v) ≡ false
    → (has_byte cell_receiver (cell_receiver.arrives c (cell o f v)) ≡ true)
      × (cell_receiver.rdr (cell_receiver.arrives c (cell o f v)) ≡ c)
cell-stored true true v c quiet empty = cc
cell-stored true false v c quiet empty = cc
cell-stored false true v c quiet empty = cc
cell-stored false false v c quiet empty = (refl, refl)

cell-lost :
    (o f : Bool) (v c : ℕ)
    → has_byte cell_receiver (cell o f v) ≡ true
    → (has_byte cell_receiver (cell_receiver.arrives c (cell o f v)) ≡ true)
      × (cell_receiver.rdr (cell_receiver.arrives c (cell o f v)) ≡ v)
cell-lost true true v c full = (refl, refl)
cell-lost false true v c full = (refl, refl)
cell-lost true false v c full = cc
cell-lost false false v c full = cc

cell-IsReceiving : IsReceiving cell_receiver
cell-IsReceiving = record {
  cleared = λ p. overrun-status false p.full;
  kept = λ p. full-status false p.full ∙ sym (full-status p.overrun p.full);
  kept_data = λ p. refl;
  taken = λ p. full-status p.overrun false;
  taken_quietly = λ p. overrun-status p.overrun false ∙ sym (overrun-status p.overrun p.full);
  stored = λ c p. cell-stored p.overrun p.full p.value c;
  lost = λ c p. cell-lost p.overrun p.full p.value c;
}

-- The receiver starts deaf, with a foreign byte in it.
abbrev deaf : Cell
deaf = record { overrun = true; full = true; value = 7 }

abbrev idle_pass : Pass
idle_pass = record {
  led_before = 0;
  led_after = 1;
  tc_samples = true ∷ [];
  received = [];
  link_enabled = true;
}

abbrev running : AppState
running = record { cycle = 9; is_confirmed = true; streak = 2; flash = idle_flash settled_memory }

abbrev held : List (Pass × ℕ)
held = (idle_pass, 0) ∷ (idle_pass, 3) ∷ (idle_pass, 0) ∷ (idle_pass, 1) ∷ (idle_pass, 5) ∷ []

held_line_opens_window_example :
    let ended =
      app_loop crc_unit worker cell_receiver slot_b_addr
        (held_rounds cell_receiver held)
        running
        deaf
        0 in
    let (end, after) =
      update_loop crc_unit worker ota_wait_ms 100 [] (ready_of (listening settled_memory)) in
    let booted = boot crc_unit worker ended.request 100 [] (listening settled_memory) in
    (ended.has_reset ≡ true)
    × (booted.outcome ≡ after_window slot_b_addr end)
    × (booted.machine ≡ after)
    × (boot_request_pending booted.request ≡ false)
unfolding sealed unsealed
held_line_opens_window_example =
    held_line_opens_window crc_unit worker cell_receiver slot_b_addr held running deaf 0 100 []
      (listening settled_memory) settled cell-IsReceiving (omega arith) reads_settled refl
      settled_intact
