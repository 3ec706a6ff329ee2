-- ===== src/Iwdg.antt =====
-- drivers/iwdg.c: the choice of the prescaler and reload value, and the register writes. The reset
-- flags and the debug freeze are functions of the registers of other peripherals.
use Prim.Native.Nat.{bit_and, bit_or}
use native.Mathlib.Decide.{dec_lt}
use native.Mathlib.Nat.{one-le-pow, pow-suc, mul-le-mul_right}
use native.Mathlib.Numerals.{add-one}
use bootloader_ota.Base.{
  ℕ, zero, suc, ◌+◌, ◌-◌, ◌*◌, ◌/◌, ◌^◌, ◌≤◌, ◌<◌, ◌≡◌, ◌⊎◌, ◌==◌, ◌!=◌, leb, quotient-cases, refl,
  ap, inl, inr, if◌then◌else◌, Bool, List, [], ◌∷◌, u32, arith,
}

abbrev pub rlr_max : ℕ
rlr_max = 0xfff

-- What the driver does to the peripheral, in order; `wait_updates` is the wait on IWDG_SR.
pub data IwdgAccess : Type 0 where
  kr pr rlr winr : ℕ → IwdgAccess
  wait_updates : IwdgAccess

unfoldable pub prescaler_value : ℕ → ℕ
prescaler_value p = 4 * 2 ^ p

-- The search of `iwdg_start` from prescaler `p` on, with the rounds left: prescaler and reload value.
unfoldable pub search_prescaler : ℕ → ℕ → ℕ → ℕ × ℕ
unfolding prescaler_value
search_prescaler zero p timeout_ms = (6, rlr_max)
search_prescaler (suc rounds) p timeout_ms =
    let found = u32 (timeout_ms * 32) / prescaler_value p in
    let ticks = if found == 0 then 1 else found in
    let rest = search_prescaler rounds (p + 1) timeout_ms in
    if leb ticks (rlr_max + 1) then (p, ticks - 1) else rest

unfoldable pub iwdg_start : ℕ → List IwdgAccess
iwdg_start timeout_ms =
    let chosen = search_prescaler 7 0 timeout_ms in
    kr 0xcccc
    ∷ kr 0x5555
    ∷ pr (chosen.0)
    ∷ rlr (chosen.1)
    ∷ wait_updates
    ∷ winr 0xfff
    ∷ kr 0xaaaa
    ∷ []

unfoldable pub iwdg_feed : List IwdgAccess
iwdg_feed = kr 0xaaaa ∷ []

unfoldable pub iwdg_feed_if : Bool → List IwdgAccess
iwdg_feed_if healthy = if healthy then kr 0xaaaa ∷ [] else []

-- RCC_CSR: the watchdog's reset flag, and the bit that clears the flags.
unfoldable pub iwdg_caused_last_reset : ℕ → Bool
iwdg_caused_last_reset csr = bit_and csr (2 ^ 29) != 0

unfoldable pub iwdg_clear_reset_flags : ℕ → ℕ
iwdg_clear_reset_flags csr = bit_or csr (2 ^ 23)

-- DBGMCU_APB1FZR1
unfoldable pub iwdg_freeze_on_debug : ℕ → ℕ
iwdg_freeze_on_debug fzr = bit_or fzr (2 ^ 12)

-- The values fit their registers, whatever timeout is asked for.
pub search-fits :
    (t : ℕ) → ((search_prescaler 7 0 t).0 ≤ 6) × ((search_prescaler 7 0 t).1 ≤ rlr_max)
unfolding search_prescaler
search-fits t = ground arith

-- The chosen values are those of the timeout to within one tick.
abbrev IsMet : ℕ → ℕ × ℕ → Type 0
IsMet t (p, reload) =
    ((reload + 1) * prescaler_value p ≤ t * 32) × (t * 32 < (reload + 2) * prescaler_value p)

IsMet-fits :
    (t p q : ℕ)
    → 0 < q
    → q * prescaler_value p ≤ t * 32
    → t * 32 < (q + 1) * prescaler_value p
    → IsMet t (p, q - 1)
IsMet-fits t p q pos low high =
    let one : q - 1 + 1 ≡ q = omega arith in
    let two : q - 1 + 2 ≡ q + 1 = omega arith in rw (one, two) (low, high)

search-found :
    (n p t : ℕ)
    → t ≤ 32768
    → 0 < t * 32 / prescaler_value p
    → t * 32 / prescaler_value p ≤ 4096
    → search_prescaler (suc n) p t ≡ (p, t * 32 / prescaler_value p - 1)
unfolding search_prescaler
search-found n p t small pos fits =
    let same : u32 (t * 32) ≡ t * 32 = omega arith in rw same (ground arith)

search-next :
    (n p t : ℕ)
    → t ≤ 32768
    → 4096 < t * 32 / prescaler_value p
    → search_prescaler (suc n) p t ≡ search_prescaler n (p + 1) t
unfolding search_prescaler
search-next n p t small large =
    let same : u32 (t * 32) ≡ t * 32 = omega arith in rw same (ground arith)

search-IsMet :
    (n p t : ℕ)
    → n + p ≡ 7
    → t ≤ 32768
    → 4 ≤ t * 32
    → (p ≡ 0) ⊎ (4097 * 2 * 2 ^ p ≤ t * 32)
    → IsMet t (search_prescaler n p t)
search-IsMet zero p t seven small pos larger =
    let last : p ≡ 7 = omega arith in
    let large : 4097 * 2 * 2 ^ p ≤ t * 32 = omega arith in
    absurd (omega (arith, ap (λ (k : ℕ). 2 ^ k) last))
search-IsMet (suc n) p t seven small pos larger =
    let some_value = one-le-pow p 2 in
    let fits : 4 * 2 ^ p ≤ t * 32 = elim larger [
      | inl e ↦ omega (arith, ap (λ (k : ℕ). 2 ^ k) e)
      | inr h ↦ omega arith
    ] in
    let (some_ticks, low, high) =
      quotient-cases (t * 32) (prescaler_value p) (unfold prescaler_value in omega arith)
        (unfold prescaler_value in fits) in
    elim (dec_lt 4096 (t * 32 / prescaler_value p)) [
      | yes large ↦
          let double : 2 ^ (p + 1) ≡ 2 * 2 ^ p = rw add-one (omega (arith, pow-suc 2 p)) in
          let above : 4097 * prescaler_value p ≤ t * 32 / prescaler_value p * prescaler_value p =
            mul-le-mul_right (prescaler_value p) large in
          let scaled : 4097 * 2 * (2 * 2 ^ p) ≤ t * 32 =
            unfold prescaler_value in omega (arith, above, low) in
          rw (search-next n p t small large)
            (search-IsMet n (p + 1) t (omega arith) small pos (inr (rw double scaled)))
      | no few ↦
          rw (search-found n p t small some_ticks (omega arith))
            (IsMet-fits t p (t * 32 / prescaler_value p) some_ticks low high)
    ]

-- A timeout of 1 ms to 32768 ms is met to within one tick of the chosen prescaler, at the nominal 32
-- ticks of the oscillator per millisecond: it is never exceeded, and one tick more would exceed it.
pub search-timeout :
    (t : ℕ)
    → 0 < t
    → t ≤ 32768
    → let (p, reload) = search_prescaler 7 0 t in
      ((reload + 1) * prescaler_value p ≤ t * 32) × (t * 32 < (reload + 2) * prescaler_value p)
search-timeout t pos small = search-IsMet 7 0 t refl small (omega arith) (inl refl)
