-- ===== src/App/Setup.antt =====
-- `uart_init` of app/main.c: what the application does to the links that it inherits.
use bootloader_ota.Base.{
  ℕ, ◌*◌, ◌+◌, ◌^◌, ◌<◌, ◌≡◌, ◌==◌, ◌∙◌, sym, refl, true, List, [], ◌∷◌, ◌++◌,
}
use bootloader_ota.Uart.{Uart}
use bootloader_ota.Uart.Configure.{
  UsartWrite, cr1, brr, icr, Usart, run_usart, write_usart, usart_brr_over16, system_clock_hz,
  uart_baud, uart_configure,
}
use bootloader_ota.Uart.Registers.{
  or_mask, and_not_mask, each_bit, masks_fit_once, sets_fit, once_masked, once_set,
}
use bootloader_ota.Uart.Pins.{
  Pins, uart_debug_init, uart_proto_init, links_configured, mode_owned, mode_wanted, low_owned,
  high_owned, function_wanted,
}

-- USART2 carries the console and USART1 the protocol.
pub data Link : Type 0 where
  usart1 usart2 : Link

-- A write to one of the links, and the read of RDR, whose value is dropped.
pub data LinkAccess : Type 0 where
  write : Link → UsartWrite → LinkAccess
  read_rdr : Link → LinkAccess

abbrev pub init_pins : Pins → Pins
init_pins r = record r {
  ahb2enr = or_mask r.ahb2enr 1;
  apb1enr1 = or_mask r.apb1enr1 (2 ^ 17);
  apb2enr = or_mask r.apb2enr (2 ^ 14);
  moder =
      or_mask (and_not_mask r.moder (3 * 2 ^ 4 + 3 * 2 ^ 6 + 3 * 2 ^ 18 + 3 * 2 ^ 20))
        (2 * 2 ^ 4 + 2 * 2 ^ 6 + 2 * 2 ^ 18 + 2 * 2 ^ 20);
  afrl = or_mask (and_not_mask r.afrl (15 * 2 ^ 8 + 15 * 2 ^ 12)) (7 * 2 ^ 8 + 7 * 2 ^ 12);
  afrh = or_mask (and_not_mask r.afrh (15 * 2 ^ 4 + 15 * 2 ^ 8)) (7 * 2 ^ 4 + 7 * 2 ^ 8);
}

-- Divider, TE, RE and UE, the error flags, and the byte that may be left over.
abbrev pub init_link : Link → List LinkAccess
init_link l =
    write l (brr (usart_brr_over16 system_clock_hz uart_baud))
    ∷ write l (cr1 0x0d)
    ∷ write l (icr 0x0f)
    ∷ read_rdr l
    ∷ []

unfoldable pub uart_init : Pins → Pins × List LinkAccess
uart_init r = (
  init_pins r,
  write usart2 (cr1 0) ∷ write usart1 (cr1 0) ∷ init_link usart2 ++ init_link usart1,
)

-- The two USARTs behind a run of accesses.
pub record Links : Type 0 where
  pub first : Usart
  pub second : Usart

unfoldable pub run_links : List LinkAccess → Links → Links
run_links [] l = l
run_links (write usart1 w ∷ rest) l = run_links rest (record l { first = write_usart w l.first })
run_links (write usart2 w ∷ rest) l = run_links rest (record l { second = write_usart w l.second })
run_links (read_rdr k ∷ rest) l = run_links rest l

-- Whatever the application inherits, its two links end with the bootloader's divider for 115200 baud, as
-- `uart_configure` leaves it whatever it finds, and with transmitter, receiver and USART on; its clocks, modes and
-- alternate functions of all pins are those that the bootloader's two initialisations set.
pub uart_init-agrees :
    (i : ℕ) (r : Pins) (u v w : Uart) (l : Links) (s : Usart)
    → i < 32
    → let (pins, accesses) = uart_init r in
      let after = run_links accesses l in
      let boot = (uart_proto_init uart_baud (uart_debug_init uart_baud r u).0 v).0 in
      let divider = (run_usart (uart_configure uart_baud true w).0 s).divider in
      (after.first ≡ record { control = 0x0d; divider = divider })
      × (after.second ≡ record { control = 0x0d; divider = divider })
      × (pins.moder i ≡ boot.moder i)
      × (pins.afrl i ≡ boot.afrl i)
      × (pins.afrh i ≡ boot.afrh i)
      × (pins.ahb2enr i ≡ boot.ahb2enr i)
      × (pins.apb1enr1 i ≡ boot.apb1enr1 i)
      × (pins.apb2enr i ≡ boot.apb2enr i)
unfolding uart_init run_links run_usart write_usart uart_configure each_bit masks_fit_once sets_fit
uart_init-agrees i r u v w l s small =
    let (mode, low, high, pull, fast, port, second, first, irq) =
      links_configured uart_baud uart_baud i r u v small in
    (
      refl,
      refl,
      once_masked r.moder mode_owned mode_wanted i _ _ refl small ∙ sym mode,
      once_masked r.afrl low_owned function_wanted i _ _ refl small ∙ sym low,
      once_masked r.afrh high_owned function_wanted i _ _ refl small ∙ sym high,
      once_set r.ahb2enr (λ k. k == 0) i _ refl small ∙ sym port,
      once_set r.apb1enr1 (λ k. k == 17) i _ refl small ∙ sym second,
      once_set r.apb2enr (λ k. k == 14) i _ refl small ∙ sym first,
    )
