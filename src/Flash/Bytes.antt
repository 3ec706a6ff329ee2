-- ===== src/Flash/Bytes.antt =====
-- The bytes of the words that are programmed, and the array after it.
use native.Mathlib.Decide.{dec_lt}
use bootloader_ota.Base.{
  ℕ, zero, suc, ◌+◌, ◌-◌, ◌≤◌, ◌<◌, ◌≡◌, refl, ap, sym, ◌∙◌, arith, true, Memory, u8, le32, ◌++◌,
  List, [], ◌∷◌, length, word32, word32_at, byte_at, word32_sum,
}
use bootloader_ota.Flash.{reads_back}
use bootloader_ota.Flash.Frame.{Outside}
use bootloader_ota.Flash.Working.{byte_of, programmed_at}

-- Each element is a byte.
pub record AllBytes (bs : List ℕ) : Type 0 where
  pub each : (i : ℕ) → byte_at bs i < 256

pub AllBytes-cons : (b : ℕ) (bs : List ℕ) → b < 256 → AllBytes bs → AllBytes (b ∷ bs)
AllBytes-cons b bs h t = record { each = each_of }
  where
    each_of : (i : ℕ) → byte_at (b ∷ bs) i < 256
    each_of zero = h
    each_of (suc i) = t.each i

pub AllBytes-u8 : (b : ℕ) (bs : List ℕ) → AllBytes bs → AllBytes (u8 b ∷ bs)
AllBytes-u8 b bs t = AllBytes-cons (u8 b) bs (omega arith) t

pub AllBytes-nil : AllBytes []
AllBytes-nil = record { each = λ i. omega arith }

pub AllBytes-le32 : (w : ℕ) (bs : List ℕ) → AllBytes bs → AllBytes (le32 w ++ bs)
AllBytes-le32 w bs t = AllBytes-u8 _ _ (AllBytes-u8 _ _ (AllBytes-u8 _ _ (AllBytes-u8 _ _ t)))

-- Every byte of a range is erased.
abbrev pub IsErased : Memory → ℕ → ℕ → Type 0
IsErased mem lo n = (a : ℕ) → lo ≤ a → a < lo + n → mem a ≡ 0xff

byte_of-word32 :
    (b0 b1 b2 b3 : ℕ)
    → b0 < 256
    → b1 < 256
    → b2 < 256
    → b3 < 256
    → let w = word32 b0 b1 b2 b3 in
      (byte_of w 0 ≡ b0) × (byte_of w 1 ≡ b1) × (byte_of w 2 ≡ b2) × (byte_of w 3 ≡ b3)
byte_of-word32 b0 b1 b2 b3 h0 h1 h2 h3 = omega (arith, word32_sum b0 b1 b2 b3 h0 h1 h2)

bytes_of-word32_at :
    (bs : List ℕ) (o : ℕ)
    → AllBytes bs
    → let w = word32_at bs o in
      (byte_of w 0 ≡ byte_at bs o)
      × (byte_of w 1 ≡ byte_at bs (o + 1))
      × (byte_of w 2 ≡ byte_at bs (o + 2))
      × (byte_of w 3 ≡ byte_at bs (o + 3))
unfolding word32_at
bytes_of-word32_at bs o h =
    byte_of-word32 _ _ _ _ (h.each o) (h.each (o + 1)) (h.each (o + 2)) (h.each (o + 3))

byte_of-word32_at :
    (bs : List ℕ) (o k : ℕ) → AllBytes bs → k < 4 → byte_of (word32_at bs o) k ≡ byte_at bs (o + k)
byte_of-word32_at bs o zero bytes h =
    let e : o + zero ≡ o = omega arith in rw e ((bytes_of-word32_at bs o bytes).0)
byte_of-word32_at bs o (suc zero) bytes h = (bytes_of-word32_at bs o bytes).1
byte_of-word32_at bs o (suc (suc zero)) bytes h = (bytes_of-word32_at bs o bytes).2
byte_of-word32_at bs o (suc (suc (suc zero))) bytes h = (bytes_of-word32_at bs o bytes).3
byte_of-word32_at bs o (suc (suc (suc (suc k)))) bytes h = absurd (omega arith)

programmed-low :
    (p low high k : ℕ) (mem : Memory) → k < 4 → programmed_at p low high mem (p + k) ≡ byte_of low k
programmed-low p low high k mem h =
    let e : p + k - p ≡ k = omega arith in ground (arith, ap (byte_of low) e)

programmed-high :
    (p low high k : ℕ) (mem : Memory)
    → k < 4
    → programmed_at p low high mem (p + 4 + k) ≡ byte_of high k
programmed-high p low high k mem h =
    let e : p + 4 + k - (p + 4) ≡ k = omega arith in ground (arith, ap (byte_of high) e)

pub programmed-Outside :
    (p low high a : ℕ) (mem : Memory) → Outside p 8 a → programmed_at p low high mem a ≡ mem a
programmed-Outside p low high a mem h = ground arith

pub programmed-byte :
    (p i : ℕ) (bs : List ℕ) (mem : Memory)
    → AllBytes bs
    → i < 8
    → programmed_at p (word32_at bs 0) (word32_at bs 4) mem (p + i) ≡ byte_at bs i
programmed-byte p i bs mem bytes h = elim (dec_lt i 4) [
  | yes low ↦
      let zero_i : 0 + i ≡ i = omega arith in
      programmed-low p (word32_at bs 0) (word32_at bs 4) i mem low
      ∙ byte_of-word32_at bs 0 i bytes low
      ∙ ap (byte_at bs) zero_i
  | no high ↦
      let e : p + i ≡ p + 4 + (i - 4) = omega arith in
      let f : 4 + (i - 4) ≡ i = omega arith in
      rw e (
        programmed-high p (word32_at bs 0) (word32_at bs 4) (i - 4) mem (omega arith)
        ∙ byte_of-word32_at bs 4 (i - 4) bytes (omega arith)
        ∙ ap (byte_at bs) f)
]

pub reads_back_complete :
    (mem : Memory) (a : ℕ) (bs : List ℕ)
    → ((i : ℕ) → i < length bs → mem (a + i) ≡ byte_at bs i)
    → reads_back mem a bs ≡ true
unfolding reads_back
reads_back_complete mem a [] h = refl
reads_back_complete mem a (b ∷ bs) h =
    let e : a + 0 ≡ a = omega arith in
    let here : mem a ≡ b = ap mem (sym e) ∙ h 0 (omega arith) in
    let later : (i : ℕ) → i < length bs → mem (a + 1 + i) ≡ byte_at bs i =
      λ i l. let f : a + 1 + i ≡ a + suc i = omega arith in rw f (h (suc i) (omega arith)) in
    ground (arith, here, reads_back_complete mem (a + 1) bs later)
