-- ===== src/Boot/Pieces.antt =====
-- An update that comes in pieces, with turns between them that bring nothing: the update loop from the
-- first turn to the one that completes the transfer.
use bootloader_ota.Base.{
  ℕ, ◌+◌, ◌-◌, ◌<◌, ◌≤◌, ◌^◌, ◌≡◌, ◌∙◌, ◌⊎◌, inl, inr, ◌&&◌, ltb, u32, refl, sym, ap, arith, true,
  false, List, [], ◌∷◌, ◌++◌, length,
}
use bootloader_ota.Crc.{CrcUnit}
use bootloader_ota.Flash.{Controller}
use bootloader_ota.Uart.{Uart, Isr, uart_rx_buffer_size}
use bootloader_ota.Uart.Ring.{IsRing, waiting}
use bootloader_ota.Protocol.State.{
  Machine, proto_idle, proto_receiving, proto_complete, timeout_data_ms, is_receiving,
  protocol_get_state, protocol_update_complete,
}
use bootloader_ota.Protocol.Receive.{feed_all, protocol_poll}
use bootloader_ota.Protocol.Over.{over}
use bootloader_ota.Protocol.Session.Quiet.{feed_all-append}
use bootloader_ota.Protocol.Steady.{AllIn, AllIn-split, AllIn-last}
use bootloader_ota.Protocol.Timed.{IsTimed, feed_all-IsTimed}
use bootloader_ota.Protocol.Poll.{poll_silence}
use bootloader_ota.Boot.Window.{AllWithin}
use bootloader_ota.Boot.{Turn, restarts, serve_interrupts, update_loop}
use bootloader_ota.Boot.Deliver.{AreReceived, serve_none, turn_over, loop_step, loop_end}

-- Interrupts that bring a byte each.
abbrev pub AreBytes : List (Isr × ℕ) → Type 0
AreBytes [] = Unit
AreBytes ((status, rdr) ∷ is) = (status.rxne ≡ true) × (rdr < 256) × AreBytes is

abbrev pub bytes_in : List (Isr × ℕ) → List ℕ
bytes_in [] = []
bytes_in ((status, rdr) ∷ is) = rdr ∷ bytes_in is

AreBytes-received : (is : List (Isr × ℕ)) → AreBytes is → AreReceived (bytes_in is) is
AreBytes-received [] h = _
AreBytes-received ((status, rdr) ∷ is) (full, small, later) =
    (full, refl, small, AreBytes-received is later)

-- Turns that bring any number of bytes each, also none, that fit the ring.
abbrev pub AreTurns : List Turn → Type 0
AreTurns [] = Unit
AreTurns (t ∷ ts) =
    AreBytes t.interrupts × (length (bytes_in t.interrupts) < uart_rx_buffer_size) × AreTurns ts

abbrev pub brought : List Turn → List ℕ
brought [] = []
brought (t ∷ ts) = bytes_in t.interrupts ++ brought ts

-- A turn without a byte comes within the timeout of the last byte.
abbrev pub InTime : List (Isr × ℕ) → ℕ → ℕ → Type 0
InTime [] now last = u32 (now + 2 ^ 32 - last) ≤ timeout_data_ms
InTime (i ∷ is) now last = Unit

abbrev pub noted : List (Isr × ℕ) → ℕ → ℕ → ℕ
noted [] now last = last
noted (i ∷ is) now last = now

abbrev pub AllInTime : ℕ → List Turn → Type 0
AllInTime last [] = Unit
AllInTime last (t ∷ ts) =
    InTime t.interrupts t.now last × AllInTime (noted t.interrupts t.now last) ts

AreTurns-split : (ts us : List Turn) → AreTurns (ts ++ us) → AreTurns ts × AreTurns us
AreTurns-split [] us h = (_, h)
AreTurns-split (t ∷ ts) us (bytes, fits, later) =
    let (left, right) = AreTurns-split ts us later in ((bytes, fits, left), right)

module _ (unit : CrcUnit) (hw : Controller) where
  -- A poll behind interrupts, none or more, that is not late.
  poll_runs :
      (is : List (Isr × ℕ)) (now : ℕ) (buf : List ℕ) (m : Machine) (u : Uart) (s : ℕ)
      → IsRing buf u
      → waiting buf u ≡ []
      → AreBytes is
      → length (bytes_in is) < uart_rx_buffer_size
      → (m.state ≡ proto_idle) ⊎ ((m.timeout_ms ≡ timeout_data_ms) × InTime is now s)
      → (next : List ℕ) × (v : Uart) × IsRing next v
        × (waiting next v ≡ [])
        × (protocol_poll unit hw now (serve_interrupts is (over u s m))
            ≡ over v (noted is now s) (feed_all unit hw (bytes_in is) m))
  unfolding feed_all
  poll_runs [] now buf m u s h empty bytes fits timely =
      let late = ltb m.timeout_ms (u32 (now + 2 ^ 32 - s)) in
      let idle : is_receiving m.state && late ≡ false = ground (arith, timely) in
      (
        buf,
        u,
        h,
        empty,
        ap (protocol_poll unit hw now) (serve_none (over u s m))
            ∙ poll_silence unit hw now buf (over u s m) h empty
            ∙ rw idle refl,
      )
  poll_runs (i ∷ is) now buf m u s h empty bytes fits timely =
      turn_over unit hw (bytes_in (i ∷ is)) buf (record { interrupts = i ∷ is; now = now }) m u s h
        empty (AreBytes-received (i ∷ is) bytes) (omega arith) fits

  loop_waits_on :
      (limit start : ℕ) (t : Turn) (ts : List Turn) (m p : Machine)
      → protocol_poll unit hw t.now (serve_interrupts t.interrupts m) ≡ p
      → p.state ≡ proto_idle
      → u32 (t.now + 2 ^ 32 - start) ≤ limit
      → update_loop unit hw limit start (t ∷ ts) m ≡ update_loop unit hw limit start ts p
  unfolding update_loop protocol_get_state protocol_update_complete
  loop_waits_on limit start t ts m p e idle within = rw e (ground (arith, idle, within))

  -- Bytes that open no transfer, within the limit.
  loop_waits :
      (limit start : ℕ) (ts more : List Turn) (buf : List ℕ) (m : Machine) (u : Uart) (s : ℕ)
      → IsRing buf u
      → waiting buf u ≡ []
      → AreTurns ts
      → AllWithin limit start ts
      → m.state ≡ proto_idle
      → AllIn unit hw proto_idle (brought ts) m
      → (next : List ℕ) × (v : Uart) × (now : ℕ) × IsRing next v
        × (waiting next v ≡ [])
        × (update_loop unit hw limit start (ts ++ more) (over u s m)
            ≡ update_loop unit hw limit start more (over v now (feed_all unit hw (brought ts) m)))
  unfolding feed_all
  loop_waits limit start [] more buf m u s h empty d w idle k = (buf, u, s, h, empty, refl)
  loop_waits limit start (t ∷ ts) more buf m u s h empty (bytes, fits, d) (in_limit, w) idle k =
      let x = bytes_in t.interrupts in
      let fed = feed_all unit hw x m in
      let (here, later) = AllIn-split unit hw proto_idle x (brought ts) m k in
      let still = AllIn-last unit hw proto_idle x m idle here in
      let (next, v, ring, none_left, polled) =
        poll_runs t.interrupts t.now buf m u s h empty bytes fits (inl idle) in
      let now = noted t.interrupts t.now s in
      let (last, w2, now2, ring2, none_left2, run) =
        loop_waits limit start ts more next fed v now ring none_left d w still later in
      (
        last,
        w2,
        now2,
        ring2,
        none_left2,
        loop_waits_on limit start t (ts ++ more) (over u s m) (over v now fed) polled still in_limit
            ∙ run
            ∙ ap (λ n. update_loop unit hw limit start more (over w2 now2 n))
                (sym (feed_all-append unit hw x (brought ts) m)),
      )

  -- Bytes behind which the transfer is open, none of them too late.
  loop_receives :
      (limit start : ℕ) (ts more : List Turn) (buf : List ℕ) (m : Machine) (u : Uart) (s : ℕ)
      → IsRing buf u
      → waiting buf u ≡ []
      → AreTurns ts
      → AllInTime s ts
      → IsTimed m
      → m.state ≡ proto_receiving
      → AllIn unit hw proto_receiving (brought ts) m
      → (next : List ℕ) × (v : Uart) × (now : ℕ) × IsRing next v
        × (waiting next v ≡ [])
        × (update_loop unit hw limit start (ts ++ more) (over u s m)
            ≡ update_loop unit hw limit start more (over v now (feed_all unit hw (brought ts) m)))
  unfolding feed_all
  loop_receives limit start [] more buf m u s h empty d w timed open_now k =
      (buf, u, s, h, empty, refl)
  loop_receives limit start (t ∷ ts) more buf m u s h empty (bytes, fits, d) (timely, w) timed
        open_now k =
      let x = bytes_in t.interrupts in
      let fed = feed_all unit hw x m in
      let (here, later) = AllIn-split unit hw proto_receiving x (brought ts) m k in
      let still = AllIn-last unit hw proto_receiving x m open_now here in
      let (next, v, ring, none_left, polled) =
        poll_runs t.interrupts t.now buf m u s h empty bytes fits (inr (timed open_now, timely)) in
      let now = noted t.interrupts t.now s in
      let (last, w2, now2, ring2, none_left2, run) =
        loop_receives limit start ts more next fed v now ring none_left d w
          (feed_all-IsTimed unit hw x m timed) still later in
      (
        last,
        w2,
        now2,
        ring2,
        none_left2,
        loop_step unit hw limit start t (ts ++ more) (over u s m) (over v now fed) polled still
            ∙ run
            ∙ ap (λ n. update_loop unit hw limit start more (over w2 now2 n))
                (sym (feed_all-append unit hw x (brought ts) m)),
      )

  -- Turns up to the one that opens the transfer, and on to the one that completes it.
  pub loop_restarts :
      (limit start : ℕ) (before : List Turn) (opens : Turn) (during : List Turn) (ends : Turn)
      (more : List Turn) (buf : List ℕ) (m : Machine)
      → IsRing buf m.uart
      → waiting buf m.uart ≡ []
      → AreTurns (before ++ (opens ∷ (during ++ (ends ∷ []))))
      → 0 < length (bytes_in opens.interrupts)
      → 0 < length (bytes_in ends.interrupts)
      → AllWithin limit start before
      → AllInTime opens.now during
      → m.state ≡ proto_idle
      → AllIn unit hw proto_idle (brought before) m
      → let opened = feed_all unit hw (brought before ++ bytes_in opens.interrupts) m in
        let rest = brought during ++ bytes_in ends.interrupts in
        (opened.state ≡ proto_receiving)
        → AllIn unit hw proto_receiving (brought during) opened
        → (feed_all unit hw rest opened).state ≡ proto_complete
        → (v : Uart) × (update_loop unit hw limit start
              (before ++ (opens ∷ (during ++ (ends ∷ more))))
              m
            ≡ (restarts, over v ends.now (feed_all unit hw rest opened)))
  loop_restarts limit start before opens during ends more buf m h empty turns some some2 within
        timely idle quiet is_open k complete =
      let (d, (ob, of, rest_turns)) =
        AreTurns-split before (opens ∷ (during ++ (ends ∷ []))) turns in
      let (d2, (eb, ef, none_more)) = AreTurns-split during (ends ∷ []) rest_turns in
      let x = bytes_in opens.interrupts in
      let y = bytes_in ends.interrupts in
      let after = during ++ ends ∷ more in
      let m1 = feed_all unit hw (brought before) m in
      let opened = feed_all unit hw (brought before ++ x) m in
      let (b1, u1, s1, r1, e1, run1) =
        loop_waits limit start before (opens ∷ after) buf m m.uart m.last_activity_ms h empty d
          within idle quiet in
      let (b2, u2, r2, e2, run2) =
        turn_over unit hw x b1 opens m1 u1 s1 r1 e1 (AreBytes-received opens.interrupts ob) some
          of in
      let joins = feed_all-append unit hw (brought before) x m in
      let run3 : protocol_poll unit hw opens.now (serve_interrupts opens.interrupts (over u1 s1 m1))
          ≡ over u2 opens.now opened =
        run2 ∙ ap (over u2 opens.now) (sym joins) in
      let (b4, u4, s4, r4, e4, run4) =
        loop_receives limit start during (ends ∷ more) b2 opened u2 opens.now r2 e2 d2 timely
          (feed_all-IsTimed unit hw (brought before ++ x) m (λ e. absurd (cc))) is_open k in
      let m4 = feed_all unit hw (brought during) opened in
      let (b5, u5, r5, e5, run5) =
        turn_over unit hw y b4 ends m4 u4 s4 r4 e4 (AreBytes-received ends.interrupts eb) some2
          ef in
      let joins2 = feed_all-append unit hw (brought during) y opened in
      let done : (feed_all unit hw y m4).state ≡ proto_complete =
        ap (λ n. Machine.state n) (sym joins2) ∙ complete in
      (
        u5,
        run1
            ∙ loop_step unit hw limit start opens after (over u1 s1 m1) (over u2 opens.now opened)
                run3 is_open
            ∙ run4
            ∙ loop_end unit hw limit start ends more (over u4 s4 m4)
                (over u5 ends.now (feed_all unit hw y m4)) run5 done
            ∙ ap (λ n. (restarts, over u5 ends.now n)) (sym joins2),
      )
