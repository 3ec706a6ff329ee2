-- ===== src/Examples/Board.antt =====
-- A board to evaluate the model on: the CRC unit as tests/host/fake_hw.c computes it, a flash
-- controller that does what it is told, and a memory with two images and a record.
use Prim.Native.Nat.{bit_and, bit_or, bit_xor}
use bootloader_ota.Base.{
  ℕ, zero, suc, ◌+◌, ◌-◌, ◌*◌, ◌/◌, ◌%◌, ◌^◌, ◌<◌, ◌≡◌, ◌==◌, ltb, leb, if◌then◌else◌, refl, arith,
  Bool, true, false, ◌&&◌, not, List, [], ◌∷◌, length, get_or, Memory, IsBytes, u8, u32,
}
use bootloader_ota.Layout.{flash_page_size}
use bootloader_ota.Crc.{CrcUnit, crc32_compute}
use bootloader_ota.Flash.{Cr, Flash, Controller}
use bootloader_ota.Flash.Frame.{IsController, selected}

-- `reverse_byte`
abbrev reverse_byte : ℕ → ℕ
reverse_byte b =
    let nibbles = bit_or (bit_and b 0xf0 / 16) (bit_and b 0x0f * 16) in
    let pairs = bit_or (bit_and nibbles 0xcc / 4) (bit_and nibbles 0x33 * 4) in
    bit_or (bit_and pairs 0xaa / 2) (bit_and pairs 0x55 * 2)

abbrev shift_bits : ℕ → ℕ → ℕ
shift_bits zero r = r
shift_bits (suc n) r =
    shift_bits n (bit_xor (u32 (r * 2)) (if ltb r (2 ^ 31) then 0 else 0x04c11db7))

-- One turn of the loop of the fake's `crc32_update`.
abbrev pub crc_unit : CrcUnit
crc_unit = record {
  absorb = λ r b. u32 (shift_bits 8 (bit_xor r (reverse_byte b * 2 ^ 24)));
  absorb-lt = λ r b. omega arith;
}

-- The check value that fake_hw.c names, of the characters 1 to 9.
check_value : crc32_compute crc_unit (49 ∷ 50 ∷ 51 ∷ 52 ∷ 53 ∷ 54 ∷ 55 ∷ 56 ∷ 57 ∷ []) ≡ 0x9b63d02c
unfolding crc32_compute
check_value = refl

-- A memory with some bytes put over another's.
abbrev pub place : ℕ → List ℕ → Memory → Memory
place lo bs mem a = if leb lo a && ltb a (lo + length bs) then get_or bs (a - lo) 0 else mem a

abbrev pub blank : Memory
blank a = 0xff

abbrev erased : ℕ → Memory → Memory
erased lo mem a = if leb lo a && ltb a (lo + flash_page_size) then 0xff else mem a

-- Programming clears bits, so it lands only where the byte is erased.
abbrev programmed : ℕ → ℕ → Memory → Memory
programmed p w mem a =
    if (a / 4 == p / 4) && (p / 4 * 4 == p)
    then bit_and (mem a) (u8 (w / 2 ^ (8 * (a % 4))))
    else mem a

abbrev react : Cr → Flash → Flash
react v s =
    if v.strt && not s.cr.strt && v.per
    then record s { mem = erased (selected v) s.mem; cr = record v { strt = false } }
    else record s { cr = v }

-- The second key unlocks; an erase or a store is done at once.
abbrev pub controller : Controller
controller = record {
  write_keyr =
      λ k s. if k == 0xcdef89ab then record s { cr = record (s.cr) { lock = false } } else s;
  write_sr = λ v s. record s { sr = record { busy = false; error = false; eop = false } };
  write_cr = react;
  store_word = λ p w s. record s { mem = programmed p w s.mem };
  tick = λ s. s;
  patience = 1;
}

pub controller-IsController : IsController controller
controller-IsController = record {
  keyr_mem = λ k s. ground arith;
  sr_mem = λ v s. refl;
  tick_mem = λ s. refl;
  cr_mem = λ v s h. ground arith;
  cr_page = λ v s a one two out. ground arith;
  store_mem = λ p w s a out. ground arith;
}

abbrev pub idle_flash : Memory → Flash
idle_flash mem = record {
  mem = mem;
  sr = record { busy = false; error = false; eop = false };
  cr = record {
    lock = true;
    strt = false;
    bker = false;
    pnb = 0;
    mer1 = false;
    mer2 = false;
    per = false;
    pg = false;
  };
}

-- Bytes stay bytes.
unfoldable pub fits : List ℕ → Bool
fits [] = true
fits (b ∷ bs) = ltb b 256 && fits bs

pub get_or-fits : (bs : List ℕ) (i : ℕ) → fits bs ≡ true → get_or bs i 0 < 256
unfolding fits
get_or-fits [] i h = omega arith
get_or-fits (b ∷ bs) zero h = ground arith
get_or-fits (b ∷ bs) (suc i) h = ground (arith, get_or-fits bs i)

pub place-IsBytes :
    (lo : ℕ) (bs : List ℕ) (mem : Memory) → fits bs ≡ true → IsBytes mem → IsBytes (place lo bs mem)
place-IsBytes lo bs mem h m a = ground (arith, get_or-fits bs (a - lo) h, m a)
