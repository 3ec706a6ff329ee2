-- ===== src/App/Link.antt =====
-- The application's polled receive path: what its update trigger reads from USART1. The peripheral
-- is a parameter, given by its registers and by what reading, clearing and receiving do to it.
use Prim.Native.Nat.{bit_and}
use bootloader_ota.Base.{
  ℕ, zero, suc, ◌+◌, ◌<◌, ◌≤◌, ◌≡◌, ◌!=◌, leb, length, refl, ap, arith, if◌then◌else◌, Bool, true,
  false, Option, none, some, List, [], ◌∷◌,
}
use bootloader_ota.App.{ota_trigger_byte, ota_confirm_polls, trigger_drain, ota_trigger_poll}

-- The receive side of a USART with the state `Port`: the words that its registers read as, what
-- reading RDR and writing ICR leave behind, and the arrival of a byte on the line.
pub record Receiver (Port : Type 0) : Type 0 where
  pub isr : Port → ℕ
  pub rdr : Port → ℕ
  pub rdr_read : Port → Port
  pub icr_written : ℕ → Port → Port
  pub arrives : ℕ → Port → Port

-- ORE is bit 3 and RXNE is bit 5 of the status.
abbrev pub ore_mask : ℕ
ore_mask = 8

abbrev pub rxne_mask : ℕ
rxne_mask = 32

module _ {Port : Type 0} (usart : Receiver Port) where
  abbrev pub has_overrun : Port → Bool
  has_overrun p = bit_and (usart.isr p) ore_mask != 0

  abbrev pub has_byte : Port → Bool
  has_byte p = bit_and (usart.isr p) rxne_mask != 0

  -- The byte that is stored, if 1 is returned.
  unfoldable pub uart_getc : Port → Option ℕ × Port
  uart_getc p =
      let cleared = if has_overrun p then usart.icr_written ore_mask p else p in
      if has_byte cleared
      then (some (bit_and (usart.rdr cleared) 255), usart.rdr_read cleared)
      else (none, cleared)

  -- The bytes that the drain of a poll reads within its budget.
  unfoldable pub link_drain : ℕ → Port → List ℕ × Port
  link_drain zero p = ([], p)
  link_drain (suc budget) p =
      let got = uart_getc p in
      let rest = link_drain budget (got.1) in
      elim (got.0) [ none ↦ ([], got.1) | some c ↦ (c ∷ rest.0, rest.1) ]

  -- A poll on the peripheral: its result, the static `streak`, and the peripheral behind it.
  unfoldable pub poll_link : ℕ → Port → (Bool × ℕ) × Port
  poll_link streak p =
      let drained = link_drain 16 p in (ota_trigger_poll (drained.0) streak, drained.1)

  -- A number of trigger bytes on the line.
  unfoldable pub line_held : ℕ → Port → Port
  line_held zero p = p
  line_held (suc n) p = usart.arrives ota_trigger_byte (line_held n p)

  -- Polls with that many trigger bytes, and one more, before each: whether one reports a request.
  unfoldable pub request_taken : List ℕ → ℕ → Port → Bool
  request_taken [] streak p = false
  request_taken (n ∷ counts) streak p =
      let polled = poll_link streak (line_held (suc n) p) in
      let later = request_taken counts ((polled.0).1) (polled.1) in
      if (polled.0).0 then true else later

  -- The flags as the reference manual describes them: writing ORECF clears ORE, reading RDR clears
  -- RXNE, a byte that finds the receiver free is kept, and one that finds it full is lost.
  pub record IsReceiving : Type 0 where
    pub cleared : (p : Port) → has_overrun (usart.icr_written ore_mask p) ≡ false
    pub kept : (p : Port) → has_byte (usart.icr_written ore_mask p) ≡ has_byte p
    pub kept_data : (p : Port) → usart.rdr (usart.icr_written ore_mask p) ≡ usart.rdr p
    pub taken : (p : Port) → has_byte (usart.rdr_read p) ≡ false
    pub taken_quietly : (p : Port) → has_overrun (usart.rdr_read p) ≡ has_overrun p
    pub stored :
        (c : ℕ) (p : Port)
        → has_overrun p ≡ false
        → has_byte p ≡ false
        → (has_byte (usart.arrives c p) ≡ true) × (usart.rdr (usart.arrives c p) ≡ c)
    pub lost :
        (c : ℕ) (p : Port)
        → has_byte p ≡ true
        → (has_byte (usart.arrives c p) ≡ true) × (usart.rdr (usart.arrives c p) ≡ usart.rdr p)

  pub IsClear : Port → Type 0
  IsClear p = (has_overrun p ≡ false) × (has_byte p ≡ false)

module _ {Port : Type 0} (usart : Receiver Port) (laws : IsReceiving usart) where
  getc-IsClear : (p : Port) → IsClear usart ((uart_getc usart p).1)
  unfolding uart_getc IsClear
  getc-IsClear p =
      let unset = laws.cleared p in
      let same = laws.kept p in
      let drained = laws.taken p in
      let quiet = laws.taken_quietly p in
      let drained_clear = laws.taken (usart.icr_written ore_mask p) in
      let quiet_clear = laws.taken_quietly (usart.icr_written ore_mask p) in ground arith

  getc-clear : (p : Port) → IsClear usart p → uart_getc usart p ≡ (none, p)
  unfolding uart_getc IsClear
  getc-clear p (quiet, empty) = ground arith

  getc-full :
      (p : Port)
      → has_byte usart p ≡ true
      → (uart_getc usart p).0 ≡ some (bit_and (usart.rdr p) 255)
  unfolding uart_getc
  getc-full p full = let same = laws.kept p in let value = laws.kept_data p in ground arith

  drain-clear : (budget : ℕ) (p : Port) → IsClear usart p → link_drain usart budget p ≡ ([], p)
  unfolding link_drain
  drain-clear zero p clear = refl
  drain-clear (suc budget) p clear =
      rw (link_drain, getc-clear p clear) (ap (λ g. ([], g.1)) (getc-clear p clear))

  -- A receiver holds one byte, so a drain reads at most that.
  unfoldable read_once : Port → List ℕ
  read_once p = elim (uart_getc usart p).0 [ none ↦ [] | some c ↦ c ∷ [] ]

  drain-once :
      (budget : ℕ) (p : Port)
      → link_drain usart (suc budget) p ≡ (read_once p, (uart_getc usart p).1)
  unfolding link_drain read_once
  drain-once budget p =
      elim (uart_getc usart p).0
          as (λ g.
            (uart_getc usart p).0 ≡ g
            → link_drain usart (suc budget) p ≡ (read_once p, (uart_getc usart p).1)) [
              | none ↦ (λ h. rw (link_drain, read_once, h) refl)
              | some c ↦ (λ h.
                  rw
                    (
                      link_drain,
                      read_once,
                      h,
                      drain-clear budget ((uart_getc usart p).1) (getc-IsClear p),
                    )
                    refl)
            ]
        refl

  drain-full :
      (budget : ℕ) (p : Port)
      → has_byte usart p ≡ true
      → (link_drain usart (suc budget) p).0 ≡ bit_and (usart.rdr p) 255 ∷ []
  unfolding read_once
  drain-full budget p full = rw (drain-once budget p, read_once, getc-full p full) refl

  -- Bytes that come on top of the first are lost, and leave the first.
  held-full :
      (n : ℕ) (p : Port)
      → IsClear usart p
      → (has_byte usart (line_held usart (suc n) p) ≡ true)
        × (usart.rdr (line_held usart (suc n) p) ≡ ota_trigger_byte)
  unfolding line_held IsClear
  held-full zero p (quiet, empty) = laws.stored ota_trigger_byte p quiet empty
  held-full (suc n) p clear =
      let (full, value) = held-full n p clear in
      let (still, same) = laws.lost ota_trigger_byte (line_held usart (suc n) p) full in
      (still, rw same value)

  poll-IsClear : (streak : ℕ) (p : Port) → IsClear usart ((poll_link usart streak p).1)
  unfolding poll_link
  poll-IsClear streak p = rw (drain-once 15 p) (getc-IsClear p)

  poll-held :
      (streak n : ℕ) (p : Port)
      → IsClear usart p
      → (poll_link usart streak (line_held usart (suc n) p)).0
        ≡ (if leb ota_confirm_polls (streak + 1) then (true, 0) else (false, streak + 1))
  unfolding poll_link ota_trigger_poll trigger_drain
  poll-held streak n p clear =
      let (full, value) = held-full n p clear in
      rw (drain-full 15 (line_held usart (suc n) p) full, value) refl

  taken-next :
      (counts : List ℕ) (n streak s : ℕ) (p : Port) (fires : Bool)
      → (poll_link usart streak (line_held usart (suc n) p)).0 ≡ (fires, s)
      → request_taken usart (n ∷ counts) streak p ≡ (
          if fires
          then true
          else request_taken usart counts s (poll_link usart streak (line_held usart (suc n) p)).1)
  unfolding request_taken
  taken-next counts n streak s p fires polled = rw (request_taken, polled) refl

  taken-now :
      (counts : List ℕ) (n streak : ℕ) (p : Port)
      → IsClear usart p
      → leb ota_confirm_polls (streak + 1) ≡ true
      → request_taken usart (n ∷ counts) streak p ≡ true
  taken-now counts n streak p clear fires =
      taken-next counts n streak 0 p true (rw (poll-held streak n p clear, fires) refl)

  taken-clear :
      (counts : List ℕ) (n streak : ℕ) (p : Port)
      → IsClear usart p
      → ota_confirm_polls ≤ streak + length (n ∷ counts)
      → request_taken usart (n ∷ counts) streak p ≡ true
  taken-clear [] n streak p clear enough = taken-now [] n streak p clear (ground arith)
  taken-clear (m ∷ counts) n streak p clear enough =
      let q = line_held usart (suc n) p in
      elim (leb ota_confirm_polls (streak + 1))
          as (λ b.
            leb ota_confirm_polls (streak + 1) ≡ b
            → request_taken usart (n ∷ m ∷ counts) streak p ≡ true) [
              | true ↦ taken-now (m ∷ counts) n streak p clear
              | false ↦ (λ waits.
                  rw
                    (taken-next (m ∷ counts) n streak (streak + 1) p false
                      (rw (poll-held streak n p clear, waits) refl))
                    (taken-clear counts m (streak + 1) ((poll_link usart streak q).1)
                      (poll-IsClear streak q) (ground arith)))
            ]
        refl

  -- More than four polls, each with a trigger byte before it, report a request, whatever the receiver
  -- holds at first and however many more bytes are lost between them.
  pub held_line_taken :
      (counts : List ℕ) (streak : ℕ) (p : Port)
      → ota_confirm_polls < length counts
      → request_taken usart counts streak p ≡ true
  held_line_taken [] streak p many = absurd (ground arith)
  held_line_taken (n ∷ []) streak p many = absurd (ground arith)
  held_line_taken (n ∷ m ∷ counts) streak p many =
      let first = poll_link usart streak (line_held usart (suc n) p) in
      elim ((first.0).0)
          as (λ fires. (first.0).0 ≡ fires → request_taken usart (n ∷ m ∷ counts) streak p ≡ true) [
            | true ↦ (λ fires.
                taken-next (m ∷ counts) n streak ((first.0).1) p true
                  (ap (λ r. (r, (first.0).1)) fires))
            | false ↦ (λ waits.
                rw
                  (taken-next (m ∷ counts) n streak ((first.0).1) p false
                    (ap (λ r. (r, (first.0).1)) waits))
                  (taken-clear counts m ((first.0).1) (first.1)
                    (poll-IsClear streak (line_held usart (suc n) p)) (ground arith)))
          ]
        refl
