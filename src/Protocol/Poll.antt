-- ===== src/Protocol/Poll.antt =====
-- `protocol_poll` over the receive ring: what waits there is the byte stream that the receiver is
-- fed, and silence is what the timeout is measured on.
use mathlib.Core.Path.{ap₂}
use bootloader_ota.Base.{
  ℕ, zero, suc, ◌+◌, ◌-◌, ◌^◌, ◌<◌, ◌≡◌, ◌∙◌, ap, arith, Bool, true, false, none, some, ◌||◌, ◌&&◌,
  if◌then◌else◌, ltb, sym, List, [], ◌∷◌, length, u32,
}
use bootloader_ota.Crc.{CrcUnit}
use bootloader_ota.Flash.{Controller}
use bootloader_ota.Uart.{Uart, uart_rx_buffer_size, uart_getc}
use bootloader_ota.Uart.Ring.{IsRing, waiting, fill, length-queued, getc_oldest}
use bootloader_ota.Protocol.Over.{alone, feed_all-alone}
use bootloader_ota.Protocol.State.{Machine, is_receiving, proto_idle, abort_transfer}
use bootloader_ota.Protocol.Receive.{feed, feed_all, drain, check_timeout, protocol_poll}

module _ (unit : CrcUnit) (hw : Controller) where
  waiting_count : (buf : List ℕ) (u : Uart) → length (waiting buf u) ≡ fill u
  unfolding waiting
  waiting_count buf u = length-queued buf u.rx_tail (fill u)

  getc_empty :
      (buf : List ℕ) (u : Uart) → IsRing buf u → waiting buf u ≡ [] → uart_getc u ≡ (none, u)
  unfolding uart_getc waiting
  getc_empty buf u h none_wait =
      let zero_fill : fill u ≡ 0 =
        sym (length-queued buf u.rx_tail (fill u)) ∙ ap length none_wait in
      ground (arith, h.buffer, h.head, h.tail, zero_fill)

  drain-none :
      (n : ℕ) (m : Machine) (received : Bool)
      → (uart_getc m.uart).0 ≡ none
      → drain unit hw (suc n) m received ≡ (m, received)
  unfolding drain
  drain-none n m received e = ground (arith, e)

  drain-some :
      (n b : ℕ) (m : Machine) (received : Bool)
      → (uart_getc m.uart).0 ≡ some b
      → drain unit hw (suc n) m received
        ≡ drain unit hw n (feed unit hw b (alone (uart_getc m.uart).1 m)) true
  unfolding drain
  drain-some n b m received e = ground (arith, e)

  -- The drain feeds all that waits, oldest first, when the budget suffices.
  drain-feed_all :
      (bs buf : List ℕ) (budget : ℕ) (m : Machine) (received : Bool)
      → IsRing buf m.uart
      → waiting buf m.uart ≡ bs
      → length bs < budget
      → (u : Uart) × IsRing buf u
        × (waiting buf u ≡ [])
        × (drain unit hw budget m received
            ≡ (alone u (feed_all unit hw bs m), received || ltb 0 (length bs)))
  unfolding drain feed_all
  drain-feed_all bs buf zero m received h w room = absurd (omega arith)
  drain-feed_all [] buf (suc n) m received h w room = (
    m.uart,
    h,
    w,
    drain-none n m received (ap (λ r. r.0) (getc_empty buf m.uart h w))
        ∙ ap (λ r. (m, r)) (ground arith),
  )
  drain-feed_all (b ∷ bs) buf (suc n) m received h w room =
      let (got, ring, rest) = getc_oldest buf m.uart b bs h w in
      let u = (uart_getc m.uart).1 in
      let (v, ring_v, empty, run) =
        drain-feed_all bs buf n (alone u (feed unit hw b m)) true ring rest (omega arith) in
      let flag : true || ltb 0 (length bs) ≡ received || ltb 0 (suc (length bs)) = ground arith in
      let fed = feed_all-alone unit hw bs (feed unit hw b m) u in
      (
        v,
        ring_v,
        empty,
        drain-some n b m received got
            ∙ ap (λ k. drain unit hw n k true) (feed_all-alone unit hw (b ∷ []) m u)
            ∙ run
            ∙ ap₂ (λ k r. (alone v k, r)) fed flag,
      )

  -- With bytes waiting in the ring, one poll feeds all of them to the receiver in the order of
  -- their arrival, leaves the ring empty, and notes the time.
  pub poll_feeds_all :
      (now : ℕ) (buf : List ℕ) (b : ℕ) (bs : List ℕ) (m : Machine)
      → IsRing buf m.uart
      → waiting buf m.uart ≡ b ∷ bs
      → (u : Uart) × IsRing buf u
        × (waiting buf u ≡ [])
        × (protocol_poll unit hw now m
            ≡ record (feed_all unit hw (b ∷ bs) m) { uart = u; last_activity_ms = now })
  unfolding protocol_poll
  poll_feeds_all now buf b bs m h w =
      let few : length (b ∷ bs) < uart_rx_buffer_size =
        let count = sym (ap length w) ∙ waiting_count buf m.uart in omega (arith, count) in
      let flag : false || ltb 0 (length (b ∷ bs)) ≡ true = ground arith in
      let after : Machine × Bool → Machine = λ r.
        if r.1 then record (r.0) { last_activity_ms = now } else check_timeout unit hw now (r.0) in
      let (u, ring, empty, run) = drain-feed_all (b ∷ bs) buf uart_rx_buffer_size m false h w few in
      (u, ring, empty, ap after (run ∙ ap (λ r. (alone u (feed_all unit hw (b ∷ bs) m), r)) flag))

  -- With no byte waiting, a poll of an open transfer that has been silent for longer than its timeout aborts
  -- it without a byte of flash changed, and any other poll changes nothing.
  pub poll_silence :
      (now : ℕ) (buf : List ℕ) (m : Machine)
      → IsRing buf m.uart
      → waiting buf m.uart ≡ []
      → let late = ltb m.timeout_ms (u32 (now + 2 ^ 32 - m.last_activity_ms)) in
        protocol_poll unit hw now m ≡ (
          if is_receiving m.state && late
          then record m {
            state = proto_idle;
            bytes_written = 0;
            expected_seq = 0;
            last_seq = 0xffff;
            last_activity_ms = now;
          }
          else m)
  unfolding protocol_poll check_timeout abort_transfer
  poll_silence now buf m h w =
      let quiet = drain-none 511 m false (ap (λ r. r.0) (getc_empty buf m.uart h w)) in
      let after : Machine × Bool → Machine = λ r.
        if r.1 then record (r.0) { last_activity_ms = now } else check_timeout unit hw now (r.0) in
      ap after quiet ∙ ground arith
