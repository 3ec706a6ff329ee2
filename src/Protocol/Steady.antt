-- ===== src/Protocol/Steady.antt =====
-- How long the receiver cannot change the state of the transfer: until the last byte of a frame.
use mathlib.Core.Path.{subst}
use bootloader_ota.Base.{
  ℕ, ◌+◌, ◌≤◌, ◌<◌, ◌≡◌, ◌∙◌, refl, ap, sym, arith, List, [], ◌∷◌, ◌++◌, length, length-append,
  le32, word16_at,
}
use bootloader_ota.Crc.{CrcUnit}
use bootloader_ota.Flash.{Controller}
use bootloader_ota.Protocol.State.{
  max_payload_size, Machine, RxState, ProtocolState, rx_magic0, rx_magic1, rx_header, rx_data,
  rx_crc, rx_reset,
}
use bootloader_ota.Protocol.Receive.{
  push_byte, feed_magic0, feed_magic1, header_done, feed_header, feed_data, feed_crc, feed,
  feed_all,
}
use bootloader_ota.Protocol.Send.{checked_frame}
use bootloader_ota.Protocol.Wire.{head_of}
use bootloader_ota.Protocol.Recognise.{
  at_state, header_bytes, held-len_field, header_done-empty, header_done-some,
}
use bootloader_ota.Protocol.Bounds.{IsReceiver, feed-IsReceiver}

-- At least so many bytes are wanted until a frame can be whole.
abbrev needs : RxState → ℕ → ℕ
needs rx_magic0 expected = 11
needs rx_magic1 expected = 10
needs rx_header expected = expected + 4
needs rx_data expected = expected + 4
needs rx_crc expected = expected

abbrev pub need : Machine → ℕ
need m = needs m.rx_state m.rx_expected

module _ (unit : CrcUnit) (hw : Controller) where
  -- All bytes leave the transfer in a state.
  abbrev pub AllIn : ProtocolState → List ℕ → Machine → Type 0
  AllIn st [] m = Unit
  AllIn st (b ∷ bs) m = ((feed unit hw b m).state ≡ st) × AllIn st bs (feed unit hw b m)

  -- All bytes but the last.
  abbrev pub AllBut : ProtocolState → List ℕ → Machine → Type 0
  AllBut st [] m = Unit
  AllBut st (b ∷ []) m = Unit
  AllBut st (b ∷ c ∷ bs) m = ((feed unit hw b m).state ≡ st) × AllBut st (c ∷ bs) (feed unit hw b m)

  feed-need :
      (b : ℕ) (m : Machine)
      → IsReceiver m
      → 1 < need m
      → ((feed unit hw b m).state ≡ m.state) × (need m ≤ need (feed unit hw b m) + 1)
  unfolding feed feed_magic0 feed_magic1 header_done feed_header feed_data feed_crc push_byte
      rx_reset
  feed-need b m r more = ground (arith, r.header, r.payload, r.trailer)

  feed_all-IsReceiver :
      (bs : List ℕ) (m : Machine) → IsReceiver m → IsReceiver (feed_all unit hw bs m)
  unfolding feed_all
  feed_all-IsReceiver [] m r = r
  feed_all-IsReceiver (b ∷ bs) m r =
      feed_all-IsReceiver bs (feed unit hw b m) (feed-IsReceiver unit hw b m r)

  AllIn-need :
      (st : ProtocolState) (bs : List ℕ) (m : Machine)
      → IsReceiver m
      → m.state ≡ st
      → length bs < need m
      → AllIn st bs m
  AllIn-need st [] m r same few = _
  AllIn-need st (b ∷ bs) m r same few =
      let (kept, left) = feed-need b m r (omega arith) in
      (
        kept ∙ same,
        AllIn-need st bs (feed unit hw b m) (feed-IsReceiver unit hw b m r) (kept ∙ same)
            (omega arith),
      )

  AllBut-need :
      (st : ProtocolState) (bs : List ℕ) (m : Machine)
      → IsReceiver m
      → m.state ≡ st
      → length bs ≤ need m
      → AllBut st bs m
  AllBut-need st [] m r same few = _
  AllBut-need st (b ∷ []) m r same few = _
  AllBut-need st (b ∷ c ∷ bs) m r same few =
      let (kept, left) = feed-need b m r (omega arith) in
      (
        kept ∙ same,
        AllBut-need st (c ∷ bs) (feed unit hw b m) (feed-IsReceiver unit hw b m r) (kept ∙ same)
            (omega arith),
      )

  pub AllBut-append :
      (st : ProtocolState) (xs ys : List ℕ) (m : Machine)
      → AllIn st xs m
      → AllBut st ys (feed_all unit hw xs m)
      → AllBut st (xs ++ ys) m
  unfolding feed_all
  AllBut-append st [] ys m first rest = rest
  AllBut-append st (x ∷ []) [] m (first, more) rest = _
  AllBut-append st (x ∷ []) (y ∷ ys) m (first, more) rest = (first, rest)
  AllBut-append st (x ∷ z ∷ xs) ys m (first, more) rest =
      (first, AllBut-append st (z ∷ xs) ys (feed unit hw x m) more rest)

  pub AllIn-append :
      (st : ProtocolState) (xs ys : List ℕ) (m : Machine)
      → AllIn st xs m
      → AllIn st ys (feed_all unit hw xs m)
      → AllIn st (xs ++ ys) m
  unfolding feed_all
  AllIn-append st [] ys m first rest = rest
  AllIn-append st (x ∷ xs) ys m (first, more) rest =
      (first, AllIn-append st xs ys (feed unit hw x m) more rest)

  pub AllIn-split :
      (st : ProtocolState) (xs ys : List ℕ) (m : Machine)
      → AllIn st (xs ++ ys) m
      → AllIn st xs m × AllIn st ys (feed_all unit hw xs m)
  unfolding feed_all
  AllIn-split st [] ys m all = (_, all)
  AllIn-split st (x ∷ xs) ys m (first, more) =
      let (left, right) = AllIn-split st xs ys (feed unit hw x m) more in ((first, left), right)

  pub AllIn-last :
      (st : ProtocolState) (xs : List ℕ) (m : Machine)
      → m.state ≡ st
      → AllIn st xs m
      → (feed_all unit hw xs m).state ≡ st
  unfolding feed_all
  AllIn-last st [] m same all = same
  AllIn-last st (x ∷ xs) m same (first, more) = AllIn-last st xs (feed unit hw x m) first more

  pub AllBut-ends :
      (st : ProtocolState) (xs : List ℕ) (m : Machine)
      → AllBut st xs m
      → (feed_all unit hw xs m).state ≡ st
      → AllIn st xs m
  unfolding feed_all
  AllBut-ends st [] m all same = _
  AllBut-ends st (x ∷ []) m all same = (same, _)
  AllBut-ends st (x ∷ y ∷ xs) m (first, more) same =
      (first, AllBut-ends st (y ∷ xs) (feed unit hw x m) more same)

  -- A part that leaves bytes out.
  AllBut-prefix :
      (st : ProtocolState) (xs : List ℕ) (y : ℕ) (ys : List ℕ) (m : Machine)
      → AllBut st (xs ++ y ∷ ys) m
      → AllIn st xs m
  AllBut-prefix st [] y ys m all = _
  AllBut-prefix st (x ∷ []) y ys m (first, more) = (first, _)
  AllBut-prefix st (x ∷ z ∷ xs) y ys m (first, more) =
      (first, AllBut-prefix st (z ∷ xs) y ys (feed unit hw x m) more)

  pub AllBut-part :
      (st : ProtocolState) (xs ys zs : List ℕ) (m : Machine)
      → xs ++ ys ≡ zs
      → 0 < length ys
      → AllBut st zs m
      → AllIn st xs m
  AllBut-part st xs [] zs m e some all = absurd (omega arith)
  AllBut-part st xs (y ∷ ys) zs m e some all =
      AllBut-prefix st xs y ys m (subst (λ t. AllBut st t m) (sym e) all)

  after_head :
      (bs : List ℕ) (c : ℕ) (f : List ℕ) (m n : Machine)
      → n ≡ header_done (at_state m rx_header f 7 0)
      → word16_at f 3 ≡ length bs
      → length bs ≤ max_payload_size
      → length (bs ++ le32 c) ≤ need n
  after_head [] c f m n run len fits = rw (run, header_done-empty unit hw f m len) (omega arith)
  after_head (b ∷ bs) c f m n run len fits =
      rw (run, header_done-some unit hw f m (length (b ∷ bs)) len (omega arith) fits)
        (omega (arith, length-append bs (le32 c)))

  -- The bytes of a frame, with whatever CRC, leave the transfer's state alone but for the last of them.
  pub frame-AllBut :
      (cmd seq c : ℕ) (bs : List ℕ) (m : Machine)
      → m.rx_state ≡ rx_magic0
      → IsReceiver m
      → length bs ≤ max_payload_size
      → AllBut m.state (checked_frame unit cmd seq bs c) m
  unfolding feed_all
  frame-AllBut cmd seq c bs m idle r fits =
      let head = head_of cmd seq (length bs) in
      let (f, text, room, run) = header_bytes unit hw cmd seq (length bs) [] m idle r.room in
      let n = feed_all unit hw head m in
      let ring = feed_all-IsReceiver head m r in
      let len = held-len_field unit hw cmd seq (length bs) f fits text in
      let waits : need m ≡ 11 = ap (λ s. needs s m.rx_expected) idle in
      let start : AllIn m.state head m = AllIn-need m.state head m r refl (omega (arith, waits)) in
      let same = AllIn-last m.state head m refl start in
      let enough : length (bs ++ le32 c) ≤ need n = after_head bs c f m n run len fits in
      AllBut-append m.state head (bs ++ le32 c) m start
        (AllBut-need m.state (bs ++ le32 c) n ring same enough)
