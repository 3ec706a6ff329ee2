-- ===== src/Systick.antt =====
-- bootloader/src/systick.c: the millisecond count, and the busy wait on it. The timer's registers
-- are fields; what the environment does during a wait is the number of ticks between two looks at
-- the count.
use bootloader_ota.Base.{
  ℕ, zero, suc, ◌+◌, ◌-◌, ◌/◌, ◌^◌, ◌≤◌, ◌<◌, ◌≡◌, arith, ltb, if◌then◌else◌, Bool, true, false,
  List, [], ◌∷◌, u32,
}

pub record Systick : Type 0 where
  pub tick_count : ℕ
  pub rvr : ℕ
  pub cvr : ℕ
  pub csr : ℕ

abbrev pub syst_max_reload : ℕ
syst_max_reload = 0x00ffffff

-- The reload value; the subtraction is that of a uint32_t.
unfoldable pub reload_of : ℕ → ℕ
reload_of cpu_hz =
    let reload = u32 (cpu_hz / 1000 + 2 ^ 32 - 1) in
    if ltb syst_max_reload reload then syst_max_reload else reload

-- CLKSOURCE, TICKINT and ENABLE are the bits of 7.
unfoldable pub systick_init : ℕ → Systick → Systick
systick_init cpu_hz s = record { tick_count = 0; rvr = reload_of cpu_hz; cvr = 0; csr = 7 }

unfoldable pub systick_handler : Systick → Systick
systick_handler s = record s { tick_count = u32 (s.tick_count + 1) }

unfoldable pub millis : Systick → ℕ
millis s = s.tick_count

unfoldable pub systick_deinit : Systick → Systick
systick_deinit s = record s { rvr = 0; cvr = 0; csr = 0 }

-- A number of interrupts in a row.
unfoldable pub ticked : ℕ → Systick → Systick
ticked zero s = s
ticked (suc n) s = ticked n (systick_handler s)

-- `while ((tick_count - start) < ms) { }`, and whether it has been left when the ticks are used up.
unfoldable pub delay_loop : ℕ → ℕ → List ℕ → Systick → Bool × Systick
delay_loop start ms [] s = (if ltb (u32 (s.tick_count + 2 ^ 32 - start)) ms then false else true, s)
delay_loop start ms (k ∷ ks) s =
    let rest = delay_loop start ms ks (ticked k s) in
    if ltb (u32 (s.tick_count + 2 ^ 32 - start)) ms then rest else (true, s)

unfoldable pub delay_ms : ℕ → List ℕ → Systick → Bool × Systick
delay_ms ms ks s = delay_loop s.tick_count ms ks s

abbrev pub total : List ℕ → ℕ
total [] = 0
total (k ∷ ks) = k + total ks

ticked-count :
    (n : ℕ) (s : Systick) → s.tick_count < 2 ^ 32 → (ticked n s).tick_count ≡ u32 (s.tick_count + n)
unfolding ticked systick_handler
ticked-count zero s h = omega arith
ticked-count (suc n) s h = omega (arith, ticked-count n (systick_handler s) (omega arith))

-- The time since `start`, as the loop computes it.
abbrev pub elapsed : ℕ → Systick → ℕ
elapsed start s = u32 (s.tick_count + 2 ^ 32 - start)

delay_loop-returns :
    (start ms : ℕ) (ks : List ℕ) (s : Systick)
    → start < 2 ^ 32
    → s.tick_count < 2 ^ 32
    → elapsed start s + total ks < 2 ^ 32
    → ms ≤ elapsed start s + total ks
    → let (returned, after) = delay_loop start ms ks s in
      (returned ≡ true)
      × (ms ≤ elapsed start after)
      × (elapsed start after ≤ elapsed start s + total ks)
unfolding delay_loop
delay_loop-returns start ms [] s hs hc room long = ground arith
delay_loop-returns start ms (k ∷ ks) s hs hc room long =
    let count = ticked-count k s hc in
    let later : elapsed start (ticked k s) ≡ elapsed start s + k = omega arith in
    ground (
      arith,
      delay_loop-returns start ms ks (ticked k s) hs (omega arith) (omega arith) (omega arith),
    )

-- A delay returns once the ticks make up its milliseconds, and not before, even when the count
-- rolls over to zero in between; the ticks are fewer than the count has values.
pub delay_ms-returns :
    (ms : ℕ) (ks : List ℕ) (s : Systick)
    → s.tick_count < 2 ^ 32
    → total ks < 2 ^ 32
    → ms ≤ total ks
    → let (returned, after) = delay_ms ms ks s in
      (returned ≡ true)
      × (ms ≤ elapsed s.tick_count after)
      × (elapsed s.tick_count after ≤ total ks)
unfolding delay_ms
delay_ms-returns ms ks s hc room long =
    let none_yet : elapsed s.tick_count s ≡ 0 = omega arith in
    ground (arith, delay_loop-returns s.tick_count ms ks s hc hc (omega arith) (omega arith))
