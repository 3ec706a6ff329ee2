-- ===== src/Uart/Ring.antt =====
-- The receive ring of uart.c against a queue: the interrupt appends a byte at one end, the main
-- context takes the oldest at the other, and a full ring drops the new byte and counts it.
use Prim.Native.Nat.{bit_and}
use mathlib.Core.Path.{ap₂}
use bootloader_ota.Base.{
  ℕ, ltb, Bool-cases, inl, inr, if◌then◌else◌, zero, suc, ◌+◌, ◌-◌, ◌%◌, ◌^◌, ◌<◌, ◌≤◌, ◌≡◌, ◌∙◌,
  refl, ap, sym, arith, List, [], ◌∷◌, ◌++◌, some, length, get_or, drop, set, length-set,
  get_or-set_ne, u8, u32, bit_and_mask,
}
use bootloader_ota.Uart.{Uart, uart_rx_buffer_size, isr_receive, uart_getc, uart_available}

-- `n` bytes of the buffer from `t` on, around its end.
unfoldable pub queued : List ℕ → ℕ → ℕ → List ℕ
queued buf t zero = []
queued buf t (suc n) = get_or buf t 0 ∷ queued buf ((t + 1) % uart_rx_buffer_size) n

abbrev pub fill : Uart → ℕ
fill u = (u.rx_head + uart_rx_buffer_size - u.rx_tail) % uart_rx_buffer_size

-- A receiving instance over the buffer `buf`, whose indices lie in it.
pub record IsRing (buf : List ℕ) (u : Uart) : Type 0 where
  pub buffer : u.rx_buf ≡ some buf
  pub room : length buf ≡ uart_rx_buffer_size
  pub mask : u.rx_mask ≡ uart_rx_buffer_size - 1
  pub head : u.rx_head < uart_rx_buffer_size
  pub tail : u.rx_tail < uart_rx_buffer_size

-- The bytes that wait, oldest first.
unfoldable pub waiting : List ℕ → Uart → List ℕ
waiting buf u = queued buf u.rx_tail (fill u)

masked : (x : ℕ) → bit_and x (uart_rx_buffer_size - 1) ≡ x % uart_rx_buffer_size
masked x = bit_and_mask 9 x

pub length-queued : (buf : List ℕ) (t n : ℕ) → length (queued buf t n) ≡ n
unfolding queued
length-queued buf t zero = refl
length-queued buf t (suc n) = ap suc (length-queued buf ((t + 1) % uart_rx_buffer_size) n)

-- A write outside the stretch does not show in it.
queued-set :
    (buf : List ℕ) (t n h v : ℕ)
    → t < 512
    → h < 512
    → n ≤ (h + 512 - t) % 512
    → queued (set buf h v) t n ≡ queued buf t n
unfolding queued
queued-set buf t zero h v lt lh fits = refl
queued-set buf t (suc n) h v lt lh fits =
    ap₂ ◌∷◌ (get_or-set_ne buf h t v 0 (omega arith))
      (queued-set buf ((t + 1) % 512) n h v (omega arith) lh (omega arith))

get_or-set_eq : (xs : List ℕ) (i v : ℕ) → i < length xs → get_or (set xs i v) i 0 ≡ v
get_or-set_eq [] i v h = elim h [ ]
get_or-set_eq (x ∷ xs) zero v h = refl
get_or-set_eq (x ∷ xs) (suc i) v h = get_or-set_eq xs i v (omega arith)

queued_next :
    (buf : List ℕ) (t n h : ℕ)
    → t < 512
    → h < 512
    → n ≡ (h + 512 - t) % 512
    → n < 511
    → queued buf t (suc n) ≡ queued buf t n ++ (get_or buf h 0 ∷ [])
unfolding queued
queued_next buf t zero h lt lh e fits = let same : t ≡ h = omega arith in rw same refl
queued_next buf t (suc n) h lt lh e fits =
    ap (λ r. get_or buf t 0 ∷ r)
      (queued_next buf ((t + 1) % 512) n h (omega arith) lh (omega arith) (omega arith))

-- The ring counts what waits in it.
available-waiting :
    (buf : List ℕ) (u : Uart) → IsRing buf u → uart_available u ≡ length (waiting buf u)
unfolding uart_available waiting
available-waiting buf u h = ground (
  arith,
  h.buffer,
  h.mask,
  masked (u32 (u.rx_head + 2 ^ 32 - u.rx_tail)),
  length-queued buf u.rx_tail (fill u),
)

received :
    (buf : List ℕ) (rdr : ℕ) (u : Uart)
    → IsRing buf u
    → fill u < uart_rx_buffer_size - 1
    → isr_receive rdr u ≡ record u {
      rx_buf = some (set buf u.rx_head (u8 rdr));
      rx_head = (u.rx_head + 1) % uart_rx_buffer_size;
    }
unfolding isr_receive
received buf rdr u h room = ground (arith, h.buffer, h.mask, masked (u32 (u.rx_head + 1)))

taken :
    (buf : List ℕ) (u : Uart)
    → IsRing buf u
    → 0 < fill u
    → uart_getc u ≡ (
      some (get_or buf u.rx_tail 0),
      record u { rx_tail = (u.rx_tail + 1) % uart_rx_buffer_size },
    )
unfolding uart_getc
taken buf u h some_wait = ground (arith, h.buffer, h.mask, masked (u32 (u.rx_tail + 1)))

-- With fewer than 511 bytes waiting, the interrupt puts the received byte behind them, counts no
-- overrun, and keeps the indices in the buffer.
pub receive_appends :
    (buf : List ℕ) (rdr : ℕ) (u : Uart)
    → IsRing buf u
    → length (waiting buf u) < uart_rx_buffer_size - 1
    → (next : List ℕ) × IsRing next (isr_receive rdr u)
      × (waiting next (isr_receive rdr u) ≡ waiting buf u ++ (u8 rdr ∷ []))
      × ((isr_receive rdr u).cnt_overrun_sw ≡ u.cnt_overrun_sw)
unfolding waiting
receive_appends buf rdr u h room =
    let space : fill u < 511 = omega (arith, length-queued buf u.rx_tail (fill u)) in
    let next = set buf u.rx_head (u8 rdr) in
    let head = h.head in
    let tail = h.tail in
    let longer : ((u.rx_head + 1) % 512 + 512 - u.rx_tail) % 512 ≡ suc (fill u) = omega arith in
    let here : u.rx_head < length buf = omega (arith, h.room) in
    rw (received buf rdr u h space) (
      next,
      record {
        buffer = refl;
        room = length-set buf u.rx_head (u8 rdr) ∙ h.room;
        mask = h.mask;
        head = omega arith;
        tail = h.tail;
      },
      ap (queued next u.rx_tail) longer
          ∙ queued_next next u.rx_tail (fill u) u.rx_head tail head refl space
          ∙ ap₂ (λ q b. q ++ (b ∷ []))
              (queued-set buf u.rx_tail (fill u) u.rx_head (u8 rdr) tail head (omega arith))
              (get_or-set_eq buf u.rx_head (u8 rdr) here),
      refl,
    )

-- With 511 bytes waiting, the interrupt changes nothing but the count of overruns.
pub receive_drops :
    (buf : List ℕ) (rdr : ℕ) (u : Uart)
    → IsRing buf u
    → length (waiting buf u) ≡ uart_rx_buffer_size - 1
    → isr_receive rdr u ≡ record u { cnt_overrun_sw = u32 (u.cnt_overrun_sw + 1) }
unfolding isr_receive waiting
receive_drops buf rdr u h full =
    ground
      (arith, h.buffer, h.mask, masked (u32 (u.rx_head + 1)), length-queued buf u.rx_tail (fill u))

-- The receive interrupt puts the byte behind those that wait while fewer than 511 do, and counts no
-- overrun; else it drops the byte and counts it. The indices stay in the buffer.
pub isr_receive-waiting :
    (buf : List ℕ) (rdr : ℕ) (u : Uart)
    → IsRing buf u
    → let after = isr_receive rdr u in
      let old = waiting buf u in
      let has_room = ltb (length old) (uart_rx_buffer_size - 1) in
      (next : List ℕ) × IsRing next after
      × (waiting next after ≡ (if has_room then old ++ (u8 rdr ∷ []) else old))
      × (after.cnt_overrun_sw ≡ (if has_room then u.cnt_overrun_sw else u32 (u.cnt_overrun_sw + 1)))
isr_receive-waiting buf rdr u h =
    let old = waiting buf u in
    elim (Bool-cases (ltb (length old) (uart_rx_buffer_size - 1))) [
      | inl room ↦
          let (next, ring, all, count) = receive_appends buf rdr u h (ground arith) in
          rw room (next, ring, all, count)
      | inr full ↦
          let size : length old ≡ fill u = unfold waiting in length-queued buf u.rx_tail (fill u) in
          let dropped = receive_drops buf rdr u h (ground (arith, size)) in
          rw (full, dropped)
            (
              buf,
              record {
                buffer = h.buffer;
                room = h.room;
                mask = h.mask;
                head = h.head;
                tail = h.tail;
              },
              unfold waiting in refl,
              refl,
            )
    ]

-- Where bytes wait, uart_getc returns the oldest and leaves the others in their order.
pub getc_oldest :
    (buf : List ℕ) (u : Uart) (b : ℕ) (bs : List ℕ)
    → IsRing buf u
    → waiting buf u ≡ b ∷ bs
    → ((uart_getc u).0 ≡ some b)
      × IsRing buf ((uart_getc u).1)
      × (waiting buf ((uart_getc u).1) ≡ bs)
unfolding waiting queued
getc_oldest buf u b bs h q =
    let head = h.head in
    let tail = h.tail in
    let count : fill u ≡ suc (length bs) =
      sym (length-queued buf u.rx_tail (fill u)) ∙ ap length q in
    let left : (u.rx_head + 512 - (u.rx_tail + 1) % 512) % 512 ≡ length bs = omega arith in
    let cells : queued buf u.rx_tail (suc (length bs)) ≡ b ∷ bs =
      ap (queued buf u.rx_tail) (sym count) ∙ q in
    rw (taken buf u h (omega arith)) (
      ap some (ap (λ xs. get_or xs 0 0) cells),
      record { buffer = h.buffer; room = h.room; mask = h.mask; head = h.head; tail = omega arith },
      ap (queued buf ((u.rx_tail + 1) % 512)) left ∙ ap (drop 1) cells,
    )
