-- ===== src/Protocol/Recognise.antt =====
-- The receiver against the frame format: a frame of shared/protocol.h, byte by byte, reaches the
-- command dispatcher with the command, sequence number and payload that were sent.
use mathlib.Core.List.{append_assoc}
use mathlib.Core.Path.{subst}
use bootloader_ota.Base.{
  ℕ, ◌+◌, ◌≤◌, ◌<◌, ◌^◌, ◌≡◌, refl, ap, sym, ◌∙◌, inl, inr, arith, List, [], ◌∷◌, ◌++◌, length,
  length-set, set, take, drop, take-append-drop, take-set_next, le16, le32, word16_at,
}
use bootloader_ota.Crc.{CrcUnit, crc32_compute, compute-lt}
use bootloader_ota.Flash.{Controller}
use bootloader_ota.Protocol.State.{
  Machine, RxState, rx_magic0, rx_magic1, rx_header, rx_data, rx_crc, rx_frame_size, rx_reset,
  max_payload_size, frame_magic_0, frame_magic_1,
}
use bootloader_ota.Protocol.Send.{frame, frame_body, checked_frame}
use bootloader_ota.Protocol.Handlers.{dispatch}
use bootloader_ota.Protocol.Receive.{
  feed_all, feed, feed_magic0, feed_magic1, header_done, frame_done,
}
use bootloader_ota.Protocol.Buffer.{phase_done, feed_phase}
use bootloader_ota.Protocol.Wire.{head_of, head-len_field, IsHolding, IsHolding-framed}

-- What stands in the buffer between the states, as `feed_phase` leaves it.
abbrev pub at_state : Machine → RxState → List ℕ → ℕ → ℕ → Machine
at_state m s f index expected = record m {
  rx_state = s;
  rx_frame = f;
  rx_index = index;
  rx_expected = expected;
}

module _ (unit : CrcUnit) (hw : Controller) where
  frame_done-IsHolding :
      (cmd seq : ℕ) (bs : List ℕ) (m : Machine)
      → IsHolding unit cmd seq (crc32_compute unit (frame_body unit cmd seq bs)) bs m.rx_frame
      → frame_done unit hw m ≡ rx_reset (dispatch unit hw cmd seq bs m)
  unfolding frame_done
  frame_done-IsHolding cmd seq bs m h =
      rw (h.len, h.number, h.command, h.payload, h.covered, h.crc) (ground arith)

  first_magic :
      (m : Machine)
      → m.rx_state ≡ rx_magic0
      → feed unit hw frame_magic_0 m
        ≡ record m { rx_frame = set m.rx_frame 0 frame_magic_0; rx_state = rx_magic1 }
  unfolding feed feed_magic0
  first_magic m h = ground arith

  magic_bytes :
      (rest : List ℕ) (m : Machine)
      → m.rx_state ≡ rx_magic0
      → feed_all unit hw (frame_magic_0 ∷ frame_magic_1 ∷ rest) m
        ≡ feed_all unit hw rest
            (at_state m rx_header (set (set m.rx_frame 0 frame_magic_0) 1 frame_magic_1) 2 5)
  unfolding feed_all feed feed_magic1
  magic_bytes rest m h = rw (first_magic m h) refl

  -- The header's bytes leave the buffer with the frame's first seven bytes.
  pub header_bytes :
      (cmd seq len : ℕ) (rest : List ℕ) (m : Machine)
      → m.rx_state ≡ rx_magic0
      → length m.rx_frame ≡ rx_frame_size
      → (f : List ℕ) × (take 7 f ≡ head_of cmd seq len)
        × (length f ≡ rx_frame_size)
        × (feed_all unit hw (head_of cmd seq len ++ rest) m
            ≡ feed_all unit hw rest (header_done (at_state m rx_header f 7 0)))
  unfolding phase_done
  header_bytes cmd seq len rest m idle room =
      let m2 = at_state m rx_header (set (set m.rx_frame 0 frame_magic_0) 1 frame_magic_1) 2 5 in
      let first = set m.rx_frame 0 frame_magic_0 in
      let room1 = length-set m.rx_frame 0 frame_magic_0 in
      let room2 = length-set first 1 frame_magic_1 in
      let (full, filled, run) =
        feed_phase unit hw (cmd ∷ le16 len ++ le16 seq) rest m2 (inl refl) refl (omega arith)
          (omega arith) (omega arith) in
      (
        filled.buffer,
        filled.prefix
            ∙ ap (λ t. t ++ (cmd ∷ le16 len ++ le16 seq))
                (take-set_next first 1 frame_magic_1 (omega arith)
                  ∙ ap (λ t. t ++ (frame_magic_1 ∷ []))
                      (take-set_next m.rx_frame 0 frame_magic_0 (omega arith))),
        filled.room ∙ room2 ∙ room1 ∙ room,
        magic_bytes _ m idle ∙ run ∙ ap (λ x. feed_all unit hw rest (header_done x)) filled.same,
      )

  pub held-len_field :
      (cmd seq len : ℕ) (f : List ℕ)
      → len ≤ max_payload_size
      → take 7 f ≡ head_of cmd seq len
      → word16_at f 3 ≡ len
  held-len_field cmd seq len f fits head =
      ap (λ t. word16_at t 3) (sym (take-append-drop 7 f))
      ∙ ap (λ t. word16_at (t ++ drop 7 f) 3) head
      ∙ head-len_field cmd seq len (drop 7 f) (omega arith)

  pub header_done-empty :
      (f : List ℕ) (m : Machine)
      → word16_at f 3 ≡ 0
      → header_done (at_state m rx_header f 7 0) ≡ at_state m rx_crc f 7 4
  unfolding header_done
  header_done-empty f m h = ground arith

  pub header_done-some :
      (f : List ℕ) (m : Machine) (n : ℕ)
      → word16_at f 3 ≡ n
      → 0 < n
      → n ≤ max_payload_size
      → header_done (at_state m rx_header f 7 0) ≡ at_state m rx_data f 7 n
  unfolding header_done
  header_done-some f m n h pos fits = ground arith

  -- The payload, where there is one.
  payload_bytes :
      (cmd seq : ℕ) (bs rest f : List ℕ) (m : Machine)
      → take 7 f ≡ head_of cmd seq (length bs)
      → length f ≡ rx_frame_size
      → length bs ≤ max_payload_size
      → (g : List ℕ) × (take (7 + length bs) g ≡ head_of cmd seq (length bs) ++ bs)
        × (length g ≡ rx_frame_size)
        × (feed_all unit hw (bs ++ rest) (header_done (at_state m rx_header f 7 0))
            ≡ feed_all unit hw rest (at_state m rx_crc g (7 + length bs) 4))
  unfolding phase_done
  payload_bytes cmd seq [] rest f m head room fits = (
    f,
    head,
    room,
    ap (feed_all unit hw rest) (header_done-empty f m (held-len_field cmd seq 0 f fits head)),
  )
  payload_bytes cmd seq (b ∷ bs) rest f m head room fits =
      let len = length (b ∷ bs) in
      let (full, filled, run) =
        feed_phase unit hw (b ∷ bs) rest (at_state m rx_data f 7 len) (inr (inl refl)) refl
          (omega arith) (omega arith) (omega arith) in
      (
        filled.buffer,
        filled.prefix ∙ ap (λ t. t ++ (b ∷ bs)) head,
        filled.room ∙ room,
        ap (feed_all unit hw (b ∷ bs ++ rest))
              (header_done-some f m len (held-len_field cmd seq len f fits head) (omega arith) fits)
            ∙ run
            ∙ ap (λ x. feed_all unit hw rest (record x { rx_expected = 4; rx_state = rx_crc }))
                filled.same,
      )

  -- The CRC's bytes, whatever they are, end the frame.
  pub crc_bytes :
      (cmd seq c : ℕ) (bs g : List ℕ) (m : Machine)
      → take (7 + length bs) g ≡ head_of cmd seq (length bs) ++ bs
      → length g ≡ rx_frame_size
      → seq < 2 ^ 16
      → c < 2 ^ 32
      → length bs ≤ max_payload_size
      → (f : List ℕ) × IsHolding unit cmd seq c bs f
        × (feed_all unit hw (le32 c) (at_state m rx_crc g (7 + length bs) 4)
            ≡ frame_done unit hw (at_state m rx_crc f (7 + length bs + 4) 0))
  unfolding feed_all phase_done
  crc_bytes cmd seq c bs g m text room small check fits =
      let (full, filled, run) =
        feed_phase unit hw (le32 c) [] (at_state m rx_crc g (7 + length bs) 4) (inr (inr refl)) refl
          (omega arith) (omega arith) (omega arith) in
      let f = filled.buffer in
      let r = drop (7 + length bs + 4) f in
      let split : head_of cmd seq (length bs) ++ (bs ++ (le32 c ++ r)) ≡ f =
        ap (λ t. head_of cmd seq (length bs) ++ t) (sym (append_assoc bs (le32 c) r))
        ∙ ap (λ t. t ++ le32 c ++ r) (sym text)
        ∙ ap (λ t. t ++ r) (sym filled.prefix)
        ∙ take-append-drop (7 + length bs + 4) f in
      (
        f,
        subst (IsHolding unit cmd seq c bs) split
            (IsHolding-framed unit cmd seq c bs r small (omega arith) check),
        run ∙ ap (frame_done unit hw) filled.same,
      )

  -- All bytes of a frame, with whatever CRC.
  pub frame_bytes :
      (cmd seq c : ℕ) (bs : List ℕ) (m : Machine)
      → m.rx_state ≡ rx_magic0
      → length m.rx_frame ≡ rx_frame_size
      → seq < 2 ^ 16
      → c < 2 ^ 32
      → length bs ≤ max_payload_size
      → (f : List ℕ) × IsHolding unit cmd seq c bs f
        × (feed_all unit hw (checked_frame unit cmd seq bs c) m
            ≡ frame_done unit hw (at_state m rx_crc f (7 + length bs + 4) 0))
  frame_bytes cmd seq c bs m idle room small check fits =
      let (f, head, room_f, run_f) = header_bytes cmd seq (length bs) (bs ++ le32 c) m idle room in
      let (g, text, room_g, run_g) = payload_bytes cmd seq bs (le32 c) f m head room_f fits in
      let (h, held, run) = crc_bytes cmd seq c bs g m text room_g small check fits in
      (h, held, run_f ∙ run_g ∙ run)

  -- A frame with a payload of at most 1024 bytes that arrives whole, from rest, is dispatched once:
  -- with the command, the sequence number and the payload that were sent, over a state that only the
  -- receiver's variables tell apart from the state before; then the receiver is at rest again.
  pub feed_all-frame :
      (cmd seq : ℕ) (bs : List ℕ) (m : Machine)
      → m.rx_state ≡ rx_magic0
      → length m.rx_frame ≡ rx_frame_size
      → seq < 2 ^ 16
      → length bs ≤ max_payload_size
      → (f : List ℕ) × (feed_all unit hw (frame unit cmd seq bs) m
          ≡ rx_reset (dispatch unit hw cmd seq bs (at_state m rx_crc f (7 + length bs + 4) 0)))
  unfolding frame
  feed_all-frame cmd seq bs m idle room small fits =
      let c = crc32_compute unit (frame_body unit cmd seq bs) in
      let (f, held, run) = frame_bytes cmd seq c bs m idle room small (compute-lt unit _) fits in
      (f, run ∙ frame_done-IsHolding cmd seq bs (at_state m rx_crc f (7 + length bs + 4) 0) held)
