-- ===== src/Uart/Pins.antt =====
-- `uart_debug_init` and `uart_proto_init` of bootloader/src/uart.c: the clocks, the pins and the
-- interrupt line of the two links. A register is the function from the number of a bit to the bit.
use bootloader_ota.Base.{
  ℕ, ◌+◌, ◌-◌, ◌*◌, ◌/◌, ◌%◌, ◌^◌, ◌<◌, ◌≡◌, ◌==◌, refl, ltb, if◌then◌else◌, Bool, true, false,
  ◌||◌, List,
}
use bootloader_ota.Uart.{Uart}
use bootloader_ota.Uart.Registers.{
  Bits, or_mask, and_not_mask, each_bit, masks_fit, masks_fit_once, twice_masked, once_masked,
  once_set, twice_set, sets_fit,
}
use bootloader_ota.Uart.Configure.{UsartWrite, uart_configure}

-- The registers of RCC and GPIOA that the links share, and what is enabled in NVIC's second word.
pub record Pins : Type 0 where
  pub ahb2enr : Bits
  pub apb1enr1 : Bits
  pub apb2enr : Bits
  pub moder : Bits
  pub ospeedr : Bits
  pub pupdr : Bits
  pub afrl : Bits
  pub afrh : Bits
  pub iser1 : Bits

unfoldable pub debug_pins : Pins → Pins
debug_pins r = record r {
  ahb2enr = or_mask r.ahb2enr 1;
  apb1enr1 = or_mask r.apb1enr1 (2 ^ 17);
  moder = or_mask (and_not_mask r.moder (3 * 2 ^ 4 + 3 * 2 ^ 6)) (2 * 2 ^ 4 + 2 * 2 ^ 6);
  afrl = or_mask (and_not_mask r.afrl (15 * 2 ^ 8 + 15 * 2 ^ 12)) (7 * 2 ^ 8 + 7 * 2 ^ 12);
  ospeedr = or_mask r.ospeedr (3 * 2 ^ 4 + 3 * 2 ^ 6);
}

unfoldable pub uart_debug_init : ℕ → Pins → Uart → Pins × List UsartWrite × Uart
uart_debug_init baudrate r u =
    let (writes, after) = uart_configure baudrate false u in (debug_pins r, writes, after)

-- A write to ISER enables what it has set.
unfoldable pub proto_pins : Pins → Pins
proto_pins r = record r {
  ahb2enr = or_mask r.ahb2enr 1;
  apb2enr = or_mask r.apb2enr (2 ^ 14);
  moder = or_mask (and_not_mask r.moder (3 * 2 ^ 18 + 3 * 2 ^ 20)) (2 * 2 ^ 18 + 2 * 2 ^ 20);
  afrh = or_mask (and_not_mask r.afrh (15 * 2 ^ 4 + 15 * 2 ^ 8)) (7 * 2 ^ 4 + 7 * 2 ^ 8);
  pupdr = or_mask (and_not_mask r.pupdr (3 * 2 ^ 20)) (2 ^ 20);
  ospeedr = or_mask r.ospeedr (3 * 2 ^ 18 + 3 * 2 ^ 20);
  iser1 = or_mask r.iser1 (2 ^ (37 - 32));
}

unfoldable pub uart_proto_init : ℕ → Pins → Uart → Pins × List UsartWrite × Uart
uart_proto_init baudrate r u =
    let (writes, after) = uart_configure baudrate true u in (proto_pins r, writes, after)

-- The pins of the links: PA2 and PA3, PA9 and PA10.
abbrev pub is_link_pin : ℕ → Bool
is_link_pin p = (p == 2) || (p == 3) || (p == 9) || (p == 10)

-- What a register holds where it is owned, and what it held before elsewhere.
abbrev pub Owned : (ℕ → Bool) → (ℕ → Bool) → Bits → Bits → ℕ → Type 0
Owned owned wanted before after i = after i ≡ (if owned i then wanted i else before i)

-- The bits of the mode (alternate function is 2), of the function (7), and of the pull-up on PA10.
abbrev pub mode_owned : ℕ → Bool
mode_owned i = is_link_pin (i / 2)

abbrev pub mode_wanted : ℕ → Bool
mode_wanted i = i % 2 == 1

abbrev pub low_owned : ℕ → Bool
low_owned i = is_link_pin (i / 4)

abbrev pub high_owned : ℕ → Bool
high_owned i = is_link_pin (8 + i / 4)

abbrev pub function_wanted : ℕ → Bool
function_wanted i = ltb (i % 4) 3

-- For all 32 bits of each register, behind both initialisations, in whatever state the registers were: the
-- four pins of the links have the alternate function 7, PA10 is pulled up, all four are fast, the clocks of
-- GPIOA and of both links run, the interrupt 37 is enabled, and every other bit is what it was.
pub links_configured :
    (debug_baud proto_baud i : ℕ) (r : Pins) (u v : Uart)
    → i < 32
    → let after = (uart_proto_init proto_baud (uart_debug_init debug_baud r u).0 v).0 in
      Owned mode_owned mode_wanted r.moder after.moder i
      × Owned low_owned function_wanted r.afrl after.afrl i
      × Owned high_owned function_wanted r.afrh after.afrh i
      × Owned (λ k. k / 2 == 10) (λ k. k % 2 == 0) r.pupdr after.pupdr i
      × Owned mode_owned (λ k. true) r.ospeedr after.ospeedr i
      × Owned (λ k. k == 0) (λ k. true) r.ahb2enr after.ahb2enr i
      × Owned (λ k. k == 17) (λ k. true) r.apb1enr1 after.apb1enr1 i
      × Owned (λ k. k == 14) (λ k. true) r.apb2enr after.apb2enr i
      × Owned (λ k. k + 32 == 37) (λ k. true) r.iser1 after.iser1 i
unfolding uart_debug_init uart_proto_init debug_pins proto_pins each_bit masks_fit masks_fit_once
    sets_fit
links_configured debug_baud proto_baud i r u v small = (
  twice_masked r.moder mode_owned mode_wanted i _ _ _ _ refl small,
  once_masked r.afrl low_owned function_wanted i _ _ refl small,
  once_masked r.afrh high_owned function_wanted i _ _ refl small,
  once_masked r.pupdr (λ k. k / 2 == 10) (λ k. k % 2 == 0) i _ _ refl small,
  twice_set r.ospeedr mode_owned i _ _ refl small,
  twice_set r.ahb2enr (λ k. k == 0) i _ _ refl small,
  once_set r.apb1enr1 (λ k. k == 17) i _ refl small,
  once_set r.apb2enr (λ k. k == 14) i _ refl small,
  once_set r.iser1 (λ k. k + 32 == 37) i _ refl small,
)
