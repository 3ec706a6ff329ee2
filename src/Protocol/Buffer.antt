-- ===== src/Protocol/Buffer.antt =====
-- Filling the frame buffer: a state that expects as many bytes as arrive stores them in order and
-- then takes the step that ends it.
use bootloader_ota.Base.{
  ℕ, suc, ◌+◌, ◌-◌, ◌≤◌, ◌<◌, ◌^◌, ◌≡◌, ◌≢◌, ◌⊎◌, ◌∙◌, ◌==◌, refl, ap, sym, arith, if◌then◌else◌,
  List, [], ◌∷◌, ◌++◌, length, set, take, length-set, take-set_next,
}
use mathlib.Core.List.{append_assoc}
use native.Mathlib.Numerals.{add-one}
use bootloader_ota.Crc.{CrcUnit}
use bootloader_ota.Flash.{Controller}
use bootloader_ota.Protocol.State.{Machine, RxState, rx_header, rx_data, rx_crc, frame_crc_size}
use bootloader_ota.Protocol.Receive.{
  push_byte, header_done, feed_header, feed_data, frame_done, feed_crc, feed, feed_all,
}

abbrev pub IsBuffering : RxState → Type 0
IsBuffering s = (s ≡ rx_header) ⊎ ((s ≡ rx_data) ⊎ (s ≡ rx_crc))

-- The bytes `bs` stand in `m`'s buffer behind the first `idx` of `from`.
pub record IsFilled (from m : Machine) (bs : List ℕ) : Type 0 where
  pub buffer : List ℕ
  pub same :
      m ≡ record from { rx_frame = buffer; rx_index = from.rx_index + length bs; rx_expected = 0 }
  pub prefix : take (from.rx_index + length bs) buffer ≡ take from.rx_index from.rx_frame ++ bs
  pub room : length buffer ≡ length from.rx_frame

-- What a stored byte changes, where neither counter wraps.
push_byte-fields :
    (b : ℕ) (m : Machine)
    → 0 < m.rx_expected
    → m.rx_expected < 2 ^ 32
    → m.rx_index + 1 < 2 ^ 32
    → ((push_byte b m).rx_index ≡ m.rx_index + 1)
      × ((push_byte b m).rx_expected ≡ m.rx_expected - 1)
      × ((push_byte b m).rx_state ≡ m.rx_state)
      × (length (push_byte b m).rx_frame ≡ length m.rx_frame)
unfolding push_byte
push_byte-fields b m pos small room =
    (omega arith, omega arith, refl, length-set m.rx_frame m.rx_index b)

push_byte-prefix :
    (b : ℕ) (m : Machine)
    → m.rx_index < length m.rx_frame
    → take (m.rx_index + 1) (push_byte b m).rx_frame ≡ take m.rx_index m.rx_frame ++ (b ∷ [])
unfolding push_byte
push_byte-prefix b m h = rw add-one (take-set_next m.rx_frame m.rx_index b h)

IsFilled-push :
    (b : ℕ) (m : Machine)
    → m.rx_expected ≡ 1
    → m.rx_index < length m.rx_frame
    → length m.rx_frame < 2 ^ 32
    → IsFilled m (push_byte b m) (b ∷ [])
IsFilled-push b m one room small =
    let (index, expected, state, same) =
      push_byte-fields b m (omega arith) (omega arith) (omega arith) in
    record {
      buffer = (push_byte b m).rx_frame;
      same =
          unfold push_byte in
          λ i. record m {
            rx_frame = set m.rx_frame m.rx_index b;
            rx_index = index i;
            rx_expected = zero_left i;
          };
      prefix = push_byte-prefix b m room;
      room = same;
    }
  where
    zero_left : (push_byte b m).rx_expected ≡ 0
    zero_left = unfold push_byte in omega arith

IsFilled-cons :
    (b : ℕ) (bs : List ℕ) (m full : Machine)
    → m.rx_index < length m.rx_frame
    → length m.rx_frame < 2 ^ 32
    → 0 < m.rx_expected
    → m.rx_expected < 2 ^ 32
    → IsFilled (push_byte b m) full bs
    → IsFilled m full (b ∷ bs)
IsFilled-cons b bs m full room small pos bound filled =
    let (index, expected, state, same) = push_byte-fields b m pos bound (omega arith) in
    let shift : (push_byte b m).rx_index + length bs ≡ m.rx_index + suc (length bs) = omega arith in
    record {
      buffer = filled.buffer;
      same =
          filled.same
          ∙ (unfold push_byte in
              λ i. record m { rx_frame = filled.buffer; rx_index = shift i; rx_expected = 0 });
      prefix =
          ap (λ n. take n filled.buffer) (sym shift)
          ∙ filled.prefix
          ∙ ap (λ n. take n (push_byte b m).rx_frame ++ bs) index
          ∙ ap (λ xs. xs ++ bs) (push_byte-prefix b m room)
          ∙ append_assoc (take m.rx_index m.rx_frame) (b ∷ []) bs;
      room = filled.room ∙ same;
    }

module _ (unit : CrcUnit) (hw : Controller) where
  -- The step that ends a buffering state.
  unfoldable pub phase_done : RxState → Machine → Machine
  phase_done rx_header m = header_done m
  phase_done rx_data m = record m { rx_expected = frame_crc_size; rx_state = rx_crc }
  phase_done rx_crc m = frame_done unit hw m
  phase_done _ m = m

  feed-push :
      (b : ℕ) (m : Machine)
      → IsBuffering m.rx_state
      → feed unit hw b m ≡ (
          if (push_byte b m).rx_expected == 0
          then phase_done m.rx_state (push_byte b m)
          else push_byte b m)
  unfolding feed feed_header feed_data feed_crc phase_done
  feed-push b m h = ground arith

  feed_last :
      (b : ℕ) (m : Machine)
      → IsBuffering m.rx_state
      → m.rx_expected ≡ 1
      → feed unit hw b m ≡ phase_done m.rx_state (push_byte b m)
  feed_last b m h one =
      let none_left : (push_byte b m).rx_expected ≡ 0 = unfold push_byte in omega arith in
      rw (feed-push b m h, none_left) refl

  feed_more :
      (b : ℕ) (m : Machine)
      → IsBuffering m.rx_state
      → (push_byte b m).rx_expected ≢ 0
      → feed unit hw b m ≡ push_byte b m
  feed_more b m h more = feed-push b m h ∙ ground arith

  -- As many bytes as are expected fill the buffer behind what it holds, and end the state.
  pub feed_phase :
      (bs rest : List ℕ) (m : Machine)
      → IsBuffering m.rx_state
      → length bs ≡ m.rx_expected
      → 0 < m.rx_expected
      → m.rx_index + m.rx_expected ≤ length m.rx_frame
      → length m.rx_frame < 2 ^ 32
      → (full : Machine) × IsFilled m full bs
        × (feed_all unit hw (bs ++ rest) m ≡ feed_all unit hw rest (phase_done m.rx_state full))
  unfolding feed_all
  feed_phase [] rest m h e pos fits small = absurd (omega arith)
  feed_phase (b ∷ []) rest m h e pos fits small = (
    push_byte b m,
    IsFilled-push b m (sym e) (omega arith) small,
    ap (feed_all unit hw rest) (feed_last b m h (sym e)),
  )
  feed_phase (b ∷ c ∷ bs) rest m h e pos fits small =
      let p = push_byte b m in
      let (index, expected, state, room) = push_byte-fields b m pos (omega arith) (omega arith) in
      let (full, filled, run) =
        feed_phase (c ∷ bs) rest p (rw state h) (omega arith) (omega arith) (omega arith)
          (omega arith) in
      (
        full,
        IsFilled-cons b (c ∷ bs) m full (omega arith) small pos (omega arith) filled,
        ap (λ x. feed_all unit hw (c ∷ bs ++ rest) x) (feed_more b m h (omega arith))
            ∙ run
            ∙ ap (λ st. feed_all unit hw rest (phase_done st full)) state,
      )
