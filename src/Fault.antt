-- ===== src/Fault.antt =====
-- drivers/fault.c: the report on the console, as the codes of its characters. The entry stubs are
-- assembly and the final loop never returns; both are left out.
use Prim.Native.Char.{code}
use Prim.Native.String.{String}
use bootloader_ota.Base.{
  ℕ, zero, suc, ◌*◌, ◌/◌, ◌%◌, ◌^◌, ◌≡◌, ◌==◌, refl, ap, if◌then◌else◌, Bool, false, List, [], ◌∷◌,
  ◌++◌,
}
use bootloader_ota.Uart.Format.{hex_digit, hex_loop, uart_hex32}

-- The characters of a literal.
abbrev pub codes : String → List ℕ
codes String.[] = []
codes (String.◌∷◌ c s) = code c ∷ codes s

-- The registers that the processor has pushed, and the fault status registers.
pub record Frame : Type 0 where
  pub r0 : ℕ
  pub r1 : ℕ
  pub r2 : ℕ
  pub r3 : ℕ
  pub r12 : ℕ
  pub lr : ℕ
  pub pc : ℕ
  pub xpsr : ℕ

pub record FaultStatus : Type 0 where
  pub cfsr : ℕ
  pub hfsr : ℕ
  pub mmfar : ℕ
  pub bfar : ℕ

-- A bit of CFSR.
abbrev pub bit : ℕ → ℕ → Bool
bit n w = w / 2 ^ n % 2 == 1

-- `digits[(v >> i) & 0xFU]` from `i = 4 * (n - 1)` down.
unfoldable pub fault_hex_loop : ℕ → ℕ → List ℕ
unfolding hex_digit
fault_hex_loop zero v = []
fault_hex_loop (suc n) v = hex_digit (v / 2 ^ (4 * n) % 16) ∷ fault_hex_loop n v

unfoldable pub fault_hex32 : ℕ → List ℕ
fault_hex32 v = codes "0x" ++ fault_hex_loop 8 v

unfoldable pub fault_line : String → ℕ → List ℕ
fault_line label v = codes label ++ fault_hex32 v ++ codes "\r\n"

-- `if (cfsr & …) fault_puts(…)`
abbrev pub cause : Bool → String → List ℕ
cause b text = if b then codes text else []

unfoldable pub fault_report : Frame → FaultStatus → String → List ℕ
fault_report frame status which =
    codes "\r\n\r\n!!! "
    ++ codes which
    ++ codes " !!!\r\n"
    ++ fault_line "  PC   : " frame.pc
    ++ fault_line "  LR   : " frame.lr
    ++ fault_line "  xPSR : " frame.xpsr
    ++ fault_line "  R0   : " frame.r0
    ++ fault_line "  R1   : " frame.r1
    ++ fault_line "  R2   : " frame.r2
    ++ fault_line "  R3   : " frame.r3
    ++ fault_line "  R12  : " frame.r12
    ++ fault_line "  CFSR : " status.cfsr
    ++ fault_line "  HFSR : " status.hfsr
    ++ (if bit 7 status.cfsr then fault_line "  MMFAR: " status.mmfar else [])
    ++ (if bit 15 status.cfsr then fault_line "  BFAR : " status.bfar else [])
    ++ cause (bit 19 status.cfsr) "  cause: coprocessor disabled (FPU not enabled?)\r\n"
    ++ cause (bit 24 status.cfsr) "  cause: unaligned access\r\n"
    ++ cause (bit 25 status.cfsr) "  cause: divide by zero\r\n"
    ++ cause (bit 16 status.cfsr) "  cause: undefined instruction\r\n"
    ++ cause (bit 17 status.cfsr) "  cause: invalid state (Thumb bit clear?)\r\n"
    ++ cause (bit 18 status.cfsr) "  cause: invalid PC on exception return\r\n"
    ++ codes "  halted; watchdog will reset\r\n"

unfoldable pub fault_hard : Frame → FaultStatus → List ℕ
fault_hard frame status = fault_report frame status "HARD FAULT"

unfoldable pub fault_mem : Frame → FaultStatus → List ℕ
fault_mem frame status = fault_report frame status "MEMMANAGE FAULT"

unfoldable pub fault_bus : Frame → FaultStatus → List ℕ
fault_bus frame status = fault_report frame status "BUS FAULT"

unfoldable pub fault_usage : Frame → FaultStatus → List ℕ
fault_usage frame status = fault_report frame status "USAGE FAULT"

hex_loop-fault : (n v : ℕ) → fault_hex_loop n v ≡ hex_loop n v
unfolding fault_hex_loop hex_loop hex_digit
hex_loop-fault zero v = refl
hex_loop-fault (suc n) v = ap (λ t. hex_digit (v / 2 ^ (4 * n) % 16) ∷ t) (hex_loop-fault n v)

-- The number format of the fault report is that of the console.
pub fault_hex32-uart_hex32 : (v : ℕ) → fault_hex32 v ≡ uart_hex32 v
unfolding fault_hex32 uart_hex32
fault_hex32-uart_hex32 v = ap (λ t. 48 ∷ 120 ∷ t) (hex_loop-fault 8 v)

-- A fault address is printed only with its VALID bit.
pub report-ignores_stale :
    (frame : Frame) (status : FaultStatus) (mmfar bfar : ℕ) (which : String)
    → bit 7 status.cfsr ≡ false
    → bit 15 status.cfsr ≡ false
    → fault_report frame (record status { mmfar = mmfar; bfar = bfar }) which
      ≡ fault_report frame status which
unfolding fault_report
report-ignores_stale frame status mmfar bfar which no_mm no_bf = rw (no_mm, no_bf) refl
