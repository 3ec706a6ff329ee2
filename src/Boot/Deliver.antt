-- ===== src/Boot/Deliver.antt =====
-- Bytes from the line into the update loop: a turn's interrupts put what has arrived into the ring,
-- its poll feeds it to the receiver, and a poll that finds nothing looks at the time.
use mathlib.Core.List.{append-nil, append_assoc}
use bootloader_ota.Base.{
  ℕ, ◌+◌, ◌-◌, ◌<◌, ◌≡◌, ◌∙◌, refl, sym, ap, arith, true, List, [], ◌∷◌, ◌++◌, length,
  length-append, u8,
}
use bootloader_ota.Crc.{CrcUnit}
use bootloader_ota.Flash.{Controller}
use bootloader_ota.Uart.{Uart, Isr, uart_rx_buffer_size, isr_errors, isr_receive, uart_isr}
use bootloader_ota.Uart.Ring.{IsRing, waiting, receive_appends}
use bootloader_ota.Protocol.State.{
  Machine, proto_receiving, proto_complete, protocol_get_state, protocol_update_complete,
}
use bootloader_ota.Protocol.Receive.{feed_all, protocol_poll}
use bootloader_ota.Protocol.Over.{over, alone, feed_all-over, feed_all-alone}
use bootloader_ota.Protocol.Poll.{poll_feeds_all}
use bootloader_ota.Boot.{Turn, restarts, serve_interrupts, update_loop}

-- Interrupts that bring these bytes, one each, with whatever error flags.
abbrev pub AreReceived : List ℕ → List (Isr × ℕ) → Type 0
AreReceived [] [] = Unit
AreReceived [] (i ∷ is) = ⊥
AreReceived (b ∷ bs) [] = ⊥
AreReceived (b ∷ bs) ((status, rdr) ∷ is) =
    (status.rxne ≡ true) × (rdr ≡ b) × (b < 256) × AreReceived bs is

errors-IsRing :
    (buf : List ℕ) (status : Isr) (u : Uart)
    → IsRing buf u
    → IsRing buf (isr_errors status u).0 × (waiting buf (isr_errors status u).0 ≡ waiting buf u)
unfolding isr_errors waiting
errors-IsRing buf status u h =
    (record { buffer = h.buffer; room = h.room; mask = h.mask; head = h.head; tail = h.tail }, refl)

isr-receive :
    (status : Isr) (rdr : ℕ) (u : Uart)
    → status.rxne ≡ true
    → (uart_isr status rdr u).0 ≡ isr_receive rdr (isr_errors status u).0
unfolding uart_isr
isr-receive status rdr u full = rw full refl

serve_next :
    (status : Isr) (rdr : ℕ) (is : List (Isr × ℕ)) (m : Machine)
    → serve_interrupts ((status, rdr) ∷ is) m
      ≡ serve_interrupts is (alone (uart_isr status rdr m.uart).0 m)
unfolding serve_interrupts
serve_next status rdr is m = refl

pub serve_none : (m : Machine) → serve_interrupts [] m ≡ m
unfolding serve_interrupts
serve_none m = refl

-- The bytes stand in the ring, behind what waited there.
serve_received :
    (bs : List ℕ) (is : List (Isr × ℕ)) (buf : List ℕ) (m : Machine)
    → IsRing buf m.uart
    → AreReceived bs is
    → length (waiting buf m.uart) + length bs < uart_rx_buffer_size
    → (next : List ℕ) × (u : Uart) × IsRing next u
      × (waiting next u ≡ waiting buf m.uart ++ bs)
      × (serve_interrupts is m ≡ alone u m)
serve_received [] [] buf m h r room =
    (buf, m.uart, h, sym (append-nil (waiting buf m.uart)), serve_none m)
serve_received [] (i ∷ is) buf m h r room = absurd r
serve_received (b ∷ bs) [] buf m h r room = absurd r
serve_received (b ∷ bs) ((status, rdr) ∷ is) buf m h (full, same, small, later) room =
    let noted = (isr_errors status m.uart).0 in
    let (ring, kept) = errors-IsRing buf status m.uart h in
    let space : length (waiting buf noted) < uart_rx_buffer_size - 1 =
      omega (arith, room, ap length kept) in
    let (next, ring2, longer, count) = receive_appends buf rdr noted ring space in
    let byte : u8 rdr ≡ b = omega (arith, same, small) in
    let after = (uart_isr status rdr m.uart).0 in
    let e = isr-receive status rdr m.uart full in
    let ring3 : IsRing next after = rw e ring2 in
    let has : waiting next after ≡ waiting buf m.uart ++ b ∷ [] =
      rw e
        (longer ∙ ap (λ w. w ++ u8 rdr ∷ []) kept ∙ ap (λ k. waiting buf m.uart ++ k ∷ []) byte) in
    let grown = ap length has ∙ length-append (waiting buf m.uart) (b ∷ []) in
    let (last, u, ring4, all, run) =
      serve_received bs is next (alone after m) ring3 later (omega (arith, room, grown)) in
    (
      last,
      u,
      ring4,
      all ∙ ap (λ w. w ++ bs) has ∙ append_assoc (waiting buf m.uart) (b ∷ []) bs,
      serve_next status rdr is m ∙ run,
    )

module _ (unit : CrcUnit) (hw : Controller) where
  -- A turn's poll over an empty ring.
  turn_feeds :
      (x buf : List ℕ) (t : Turn) (m : Machine)
      → IsRing buf m.uart
      → waiting buf m.uart ≡ []
      → AreReceived x t.interrupts
      → 0 < length x
      → length x < uart_rx_buffer_size
      → (next : List ℕ) × (u : Uart) × IsRing next u
        × (waiting next u ≡ [])
        × (protocol_poll unit hw t.now (serve_interrupts t.interrupts m)
            ≡ over u t.now (feed_all unit hw x m))
  turn_feeds [] buf t m h empty r pos fits = absurd (omega arith)
  turn_feeds (b ∷ bs) buf t m h empty r pos fits =
      let (next, u, ring, has, run) =
        serve_received (b ∷ bs) t.interrupts buf m h r (omega (arith, fits, ap length empty)) in
      let all : waiting next u ≡ b ∷ bs = has ∙ ap (λ w. w ++ b ∷ bs) empty in
      let (v, ring2, empty2, fed) = poll_feeds_all unit hw t.now next b bs (alone u m) ring all in
      (
        next,
        v,
        ring2,
        empty2,
        ap (protocol_poll unit hw t.now) run
            ∙ fed
            ∙ ap (over v t.now) (feed_all-alone unit hw (b ∷ bs) m u),
      )

  pub loop_step :
      (limit start : ℕ) (t : Turn) (ts : List Turn) (m p : Machine)
      → protocol_poll unit hw t.now (serve_interrupts t.interrupts m) ≡ p
      → p.state ≡ proto_receiving
      → update_loop unit hw limit start (t ∷ ts) m ≡ update_loop unit hw limit start ts p
  unfolding update_loop protocol_get_state protocol_update_complete
  loop_step limit start t ts m p e receiving = rw e (ground (arith, receiving))

  pub loop_end :
      (limit start : ℕ) (t : Turn) (ts : List Turn) (m p : Machine)
      → protocol_poll unit hw t.now (serve_interrupts t.interrupts m) ≡ p
      → p.state ≡ proto_complete
      → update_loop unit hw limit start (t ∷ ts) m ≡ (restarts, p)
  unfolding update_loop protocol_get_state protocol_update_complete
  loop_end limit start t ts m p e complete = rw e (ground (arith, complete))

  -- One turn, with the machine up to its ring and the time of the last byte.
  pub turn_over :
      (x buf : List ℕ) (t : Turn) (m : Machine) (u : Uart) (s : ℕ)
      → IsRing buf u
      → waiting buf u ≡ []
      → AreReceived x t.interrupts
      → 0 < length x
      → length x < uart_rx_buffer_size
      → (next : List ℕ) × (v : Uart) × IsRing next v
        × (waiting next v ≡ [])
        × (protocol_poll unit hw t.now (serve_interrupts t.interrupts (over u s m))
            ≡ over v t.now (feed_all unit hw x m))
  turn_over x buf t m u s h empty r pos fits =
      let (next, v, ring, none_left, run) = turn_feeds x buf t (over u s m) h empty r pos fits in
      (next, v, ring, none_left, run ∙ ap (over v t.now) (feed_all-over unit hw x m u s))
