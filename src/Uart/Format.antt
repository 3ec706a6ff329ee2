-- ===== src/Uart/Format.antt =====
-- The formatting of bootloader/src/uart.c: the characters that go out, oldest first, as their codes.
use native.Mathlib.Nat.{pow-suc}
use bootloader_ota.Base.{
  ℕ, zero, suc, ◌+◌, ◌-◌, ◌*◌, ◌/◌, ◌%◌, ◌^◌, ◌≤◌, ◌<◌, ◌≡◌, ◌==◌, refl, ap, sym, ◌∙◌, Bool-cases,
  inl, inr, arith, ltb, if◌then◌else◌, List, [], ◌∷◌, length, drop,
}

-- `HEX_DIGITS[d]`
unfoldable pub hex_digit : ℕ → ℕ
hex_digit d = if ltb d 10 then 48 + d else 55 + d

-- `for (i = 28; i >= 0; i -= 4)`, with the digits left.
unfoldable pub hex_loop : ℕ → ℕ → List ℕ
hex_loop zero v = []
hex_loop (suc n) v = hex_digit (v / 2 ^ (4 * n) % 16) ∷ hex_loop n v

-- Behind "0x".
unfoldable pub uart_hex32 : ℕ → List ℕ
uart_hex32 v = 48 ∷ 120 ∷ hex_loop 8 v

unfoldable pub uart_hex8 : ℕ → List ℕ
uart_hex8 v = hex_digit (v / 16 % 16) ∷ hex_digit (v % 16) ∷ []

-- The two loops of uart_dec: the digits are pushed on `tmp`, least first, and popped from its end,
-- so that the array is a stack here. The fuel is the turns left.
unfoldable pub dec_loop : ℕ → ℕ → List ℕ → List ℕ
dec_loop zero v tmp = tmp
dec_loop (suc n) v tmp =
    let rest = dec_loop n (v / 10) ((48 + v % 10) ∷ tmp) in if v == 0 then tmp else rest

-- The room in `tmp`.
abbrev pub dec_room : ℕ
dec_room = 10

unfoldable pub uart_dec : ℕ → List ℕ
uart_dec v = if v == 0 then 48 ∷ [] else dec_loop dec_room v []

-- What a reader makes of the characters.
abbrev pub dec_value : ℕ → List ℕ → ℕ
dec_value a [] = a
dec_value a (c ∷ cs) = dec_value (10 * a + (c - 48)) cs

abbrev pub hex_digit_value : ℕ → ℕ
hex_digit_value c = if ltb c 65 then c - 48 else c - 55

abbrev pub hex_value : ℕ → List ℕ → ℕ
hex_value a [] = a
hex_value a (c ∷ cs) = hex_value (16 * a + hex_digit_value c) cs

hex_digit-value : (x : ℕ) → hex_digit_value (hex_digit (x % 16)) ≡ x % 16
unfolding hex_digit
hex_digit-value x = ground arith

dec_loop-value :
    (n v : ℕ) (tmp : List ℕ) → v < 10 ^ n → dec_value 0 (dec_loop n v tmp) ≡ dec_value v tmp
unfolding dec_loop
dec_loop-value zero v tmp h = let e : v ≡ 0 = omega arith in rw e
dec_loop-value (suc n) v tmp h =
    let room : v < 10 * 10 ^ n = omega (arith, h, pow-suc 10 n) in
    let push : 10 * (v / 10) + (48 + v % 10 - 48) ≡ v = omega arith in
    let rest = dec_loop-value n (v / 10) ((48 + v % 10) ∷ tmp) (omega (arith, room)) in
    let whole = rest ∙ ap (λ k. dec_value k tmp) push in
    elim (Bool-cases (v == 0)) [
      | inl e ↦ let zero_v : v ≡ 0 = ground arith in rw e (ap (λ k. dec_value k tmp) (sym zero_v))
      | inr e ↦ rw e whole
    ]

dec_loop-length : (n v : ℕ) (tmp : List ℕ) → length (dec_loop n v tmp) ≤ n + length tmp
unfolding dec_loop
dec_loop-length zero v tmp = omega arith
dec_loop-length (suc n) v tmp = ground (arith, dec_loop-length n (v / 10) ((48 + v % 10) ∷ tmp))

-- The decimal form of a uint32_t reads back as the number, and its digits fit the ten places of the buffer.
pub uart_dec-value :
    (v : ℕ) → v < 2 ^ 32 → (dec_value 0 (uart_dec v) ≡ v) × (length (uart_dec v) ≤ dec_room)
unfolding uart_dec
uart_dec-value v h = ground (arith, dec_loop-value dec_room v [], dec_loop-length dec_room v [])

-- The hexadecimal form of a uint32_t is 0x and eight digits that read back as the number.
pub uart_hex32-value :
    (v : ℕ) → v < 2 ^ 32 → (hex_value 0 (drop 2 (uart_hex32 v)) ≡ v) × (length (uart_hex32 v) ≡ 10)
unfolding uart_hex32 hex_loop
uart_hex32-value v h = (simp hex_digit-value (omega arith), refl)
