-- ===== src/Boot/Window.antt =====
-- The listen window: it closes on a silent line, and never on a transfer.
use mathlib.Core.List.{append-nil}
use bootloader_ota.Base.{
  ℕ, suc, ◌+◌, ◌-◌, ◌^◌, ◌<◌, ◌≤◌, ◌≡◌, ◌∙◌, ap, sym, ◌≢◌, refl, arith, false, Bool, ltb, lt→ltb,
  if◌then◌else◌, none, List, [], ◌∷◌, ◌++◌, u32,
}
use bootloader_ota.Crc.{CrcUnit}
use bootloader_ota.Flash.{Controller}
use bootloader_ota.Uart.{uart_getc}
use bootloader_ota.Protocol.State.{
  Machine, proto_idle, protocol_get_state, protocol_update_complete,
}
use bootloader_ota.Protocol.Receive.{drain, check_timeout, protocol_poll}
use bootloader_ota.Boot.{Turn, listens, returns, serve_interrupts, update_loop}

-- No byte arrives in these turns.
abbrev pub AllSilent : List Turn → Type 0
AllSilent [] = Unit
AllSilent (t ∷ ts) = (t.interrupts ≡ []) × AllSilent ts

-- None of these turns is past the limit.
abbrev pub AllWithin : ℕ → ℕ → List Turn → Type 0
AllWithin limit start [] = Unit
AllWithin limit start (t ∷ ts) = (u32 (t.now + 2 ^ 32 - start) ≤ limit) × AllWithin limit start ts

module _ (unit : CrcUnit) (hw : Controller) where
  no_turns : (limit start : ℕ) (m : Machine) → update_loop unit hw limit start [] m ≡ (listens, m)
  unfolding update_loop
  no_turns limit start m = refl

  -- With a limit of 0 the update loop does not return, whatever the turns bring.
  pub unlimited_never_returns :
      (start : ℕ) (turns : List Turn) (m : Machine)
      → (update_loop unit hw 0 start turns m).0 ≢ returns
  unfolding update_loop
  unlimited_never_returns start [] m = λ e. cc
  unlimited_never_returns start (t ∷ ts) m = ground (
    arith,
    unlimited_never_returns start ts
        (protocol_poll unit hw t.now (serve_interrupts t.interrupts m)),
  )

  -- Whatever the host sends, where the update loop returns, no transfer is open.
  pub returns_idle :
      (limit start : ℕ) (turns : List Turn) (m : Machine)
      → (update_loop unit hw limit start turns m).0 ≡ returns
      → (update_loop unit hw limit start turns m).1.state ≡ proto_idle
  unfolding update_loop protocol_get_state
  returns_idle limit start [] m e = cc
  returns_idle limit start (t ∷ ts) m e = ground (
    arith,
    returns_idle limit start ts (protocol_poll unit hw t.now (serve_interrupts t.interrupts m)),
  )

  serve_nothing : (m : Machine) → serve_interrupts [] m ≡ m
  unfolding serve_interrupts
  serve_nothing m = refl

  drain_quiet :
      (budget : ℕ) (m : Machine) (received : Bool)
      → uart_getc m.uart ≡ (none, m.uart)
      → drain unit hw (suc budget) m received ≡ (m, received)
  unfolding drain
  drain_quiet budget m received quiet = ground arith

  -- With nothing in the ring an idle module is left alone by a poll.
  poll_silent :
      (now : ℕ) (m : Machine)
      → uart_getc m.uart ≡ (none, m.uart)
      → m.state ≡ proto_idle
      → protocol_poll unit hw now m ≡ m
  unfolding protocol_poll check_timeout
  poll_silent now m quiet idle = rw (drain_quiet 511 m false quiet) (ground arith)

  -- One such turn: the window closes if it is late, and else the loop goes on unchanged.
  silent_step :
      (limit start : ℕ) (t : Turn) (ts : List Turn) (m : Machine)
      → 0 < limit
      → uart_getc m.uart ≡ (none, m.uart)
      → m.state ≡ proto_idle
      → t.interrupts ≡ []
      → update_loop unit hw limit start (t ∷ ts) m ≡ (
          if ltb limit (u32 (t.now + 2 ^ 32 - start))
          then (returns, m)
          else update_loop unit hw limit start ts m)
  unfolding update_loop protocol_update_complete protocol_get_state
  silent_step limit start t ts m pos quiet idle empty =
      let same : protocol_poll unit hw t.now (serve_interrupts t.interrupts m) ≡ m =
        rw (empty, serve_nothing) (poll_silent t.now m quiet idle) in
      rw (same, lt→ltb 0 limit pos) (ground arith)

  -- Silent turns within the limit leave the loop where it was.
  silent_stays :
      (limit start : ℕ) (before rest : List Turn) (m : Machine)
      → 0 < limit
      → uart_getc m.uart ≡ (none, m.uart)
      → m.state ≡ proto_idle
      → AllSilent before
      → AllWithin limit start before
      → update_loop unit hw limit start (before ++ rest) m ≡ update_loop unit hw limit start rest m
  silent_stays limit start [] rest m pos quiet idle silent within = refl
  silent_stays limit start (t ∷ ts) rest m pos quiet idle silent within = ground (
    arith,
    silent_step limit start t (ts ++ rest) m pos quiet idle silent.0,
    within.0,
    silent_stays limit start ts rest m pos quiet idle silent.1 within.1,
  )

  -- With a limit, no transfer open, nothing in the ring and no interrupt in any turn, the loop goes on
  -- listening through all turns whose time is not past the limit, and returns at the first that is, with
  -- nothing changed.
  pub silent_returns :
      (limit start : ℕ) (before : List Turn) (last : Turn) (after : List Turn) (m : Machine)
      → 0 < limit
      → uart_getc m.uart ≡ (none, m.uart)
      → m.state ≡ proto_idle
      → AllSilent before
      → AllWithin limit start before
      → last.interrupts ≡ []
      → limit < u32 (last.now + 2 ^ 32 - start)
      → (update_loop unit hw limit start before m ≡ (listens, m))
        × (update_loop unit hw limit start (before ++ last ∷ after) m ≡ (returns, m))
  silent_returns limit start before last after m pos quiet idle silent within empty late = (
    ap (λ ts. update_loop unit hw limit start ts m) (sym (append-nil before))
        ∙ silent_stays limit start before [] m pos quiet idle silent within
        ∙ no_turns limit start m,
    silent_stays limit start before (last ∷ after) m pos quiet idle silent within
        ∙ rw (silent_step limit start last after m pos quiet idle empty, lt→ltb _ _ late) refl,
  )
