-- ===== src/Protocol/Session/Stream.antt =====
-- One DATA frame of a transfer.
use mathlib.Core.Path.{subst}
use bootloader_ota.Base.{
  ℕ, sym, ◌+◌, ◌^◌, ◌≤◌, ◌<◌, ◌≡◌, ◌∙◌, refl, arith, List, ◌++◌, length, u16, u32, ap,
}
use bootloader_ota.Layout.{slot_addr, slot_size}
use bootloader_ota.Crc.{CrcUnit}
use bootloader_ota.Flash.{Controller}
use bootloader_ota.Flash.Frame.{IsController, Outside}
use bootloader_ota.Flash.Working.{IsWorking}
use bootloader_ota.Metadata.{Metadata}
use bootloader_ota.Protocol.State.{
  Machine, RxState, rx_magic0, rx_crc, max_payload_size, cmd_data, rx_reset,
}
use bootloader_ota.Protocol.Send.{frame}
use bootloader_ota.Protocol.Handlers.{dispatch, on_data}
use bootloader_ota.Protocol.Receive.{feed_all}
use bootloader_ota.Protocol.Bounds.{IsReceiver}
use bootloader_ota.Protocol.Contain.{feed_all_contained}
use bootloader_ota.Protocol.Recognise.{feed_all-frame}
use bootloader_ota.Protocol.Session.{IsOpen, IsBlock}
use bootloader_ota.Protocol.Session.Block.{taken, taken-others, on_data-taken, on_data-IsOpen}

-- The receiver waits for a frame.
pub record IsListening (m : Machine) : Type 0 where
  pub idle : m.rx_state ≡ rx_magic0
  pub receiver : IsReceiver m

-- The receiver's variables play no part in a transfer.
abbrev pub reframed : Machine → RxState → List ℕ → ℕ → ℕ → ℕ → Machine
reframed m s f index expected count = record m {
  rx_state = s;
  rx_frame = f;
  rx_index = index;
  rx_expected = expected;
  cnt_frames_ok = count;
}

-- What the transfer has been told of the image, and the memory that it leaves alone.
abbrev pub SameTarget : Machine → Machine → Type 0
SameTarget m n =
    (n.target_slot ≡ m.target_slot)
    × (n.fw_size ≡ m.fw_size)
    × (n.fw_crc32 ≡ m.fw_crc32)
    × (n.fw_version ≡ m.fw_version)
    × ((a : ℕ) → Outside (slot_addr m.target_slot) slot_size a → n.flash.mem a ≡ m.flash.mem a)

pub SameTarget-trans : (a b c : Machine) → SameTarget a b → SameTarget b c → SameTarget a c
SameTarget-trans a b c same rest = (
  rest.0 ∙ same.0,
  rest.1 ∙ same.1,
  rest.2 ∙ same.2,
  rest.3 ∙ same.3,
  λ x out.
      rest.4 x (subst (λ k. Outside (slot_addr k) slot_size x) (sym same.0) out) ∙ same.4 x out,
)

module _ (unit : CrcUnit) where
  pub reframed-IsOpen :
      {old : Metadata} {seq : ℕ} {stored : List ℕ} (m : Machine) (s : RxState) (f : List ℕ)
      (index expected count : ℕ)
      → IsOpen unit old seq stored m
      → IsOpen unit old seq stored (reframed m s f index expected count)
  reframed-IsOpen m s f index expected count o = record {
    transfer = omega (arith, o.transfer);
    receiving = o.receiving;
    written = o.written;
    next = o.next;
    last = o.last;
    holds = o.holds;
    blank = o.blank;
    ready = o.ready;
    read = o.read;
    room = o.room;
  }

  pub rx_reset-IsOpen :
      {old : Metadata} {seq : ℕ} {stored : List ℕ} (m : Machine)
      → IsOpen unit old seq stored m
      → IsOpen unit old seq stored (rx_reset m)
  unfolding rx_reset
  rx_reset-IsOpen m o = reframed-IsOpen m rx_magic0 m.rx_frame 0 0 m.cnt_frames_ok o

  module _ (hw : Controller) where
    dispatch-data :
        (seq : ℕ) (bs : List ℕ) (m : Machine)
        → dispatch unit hw cmd_data seq bs m
          ≡ on_data unit hw seq bs (record m { cnt_frames_ok = u32 (m.cnt_frames_ok + 1) })
    unfolding dispatch
    dispatch-data seq bs m = refl

    module _ (laws : IsController hw) (works : IsWorking hw) where
      pub data_frame :
          {old : Metadata} {seq : ℕ} {stored : List ℕ} (bs : List ℕ) (m : Machine)
          → seq < 2 ^ 16
          → IsListening m
          → IsOpen unit old seq stored m
          → IsBlock (length stored) bs
          → length bs ≤ max_payload_size
          → length stored + length bs ≤ m.fw_size
          → let after = feed_all unit hw (frame unit cmd_data seq bs) m in
            IsListening after
            × IsOpen unit old (u16 (seq + 1)) (stored ++ bs) after
            × SameTarget m after
            × (after.last_seq ≡ seq)
      data_frame {old} {seq} {stored} bs m small listens o b short fits =
          let (f, run) =
            feed_all-frame unit hw cmd_data seq bs m listens.idle listens.receiver.room small
              short in
          let n = reframed m rx_crc f (7 + length bs + 4) 0 (u32 (m.cnt_frames_ok + 1)) in
          let p = reframed-IsOpen m rx_crc f (7 + length bs + 4) 0 (u32 (m.cnt_frames_ok + 1)) o in
          let done : feed_all unit hw (frame unit cmd_data seq bs) m
              ≡ rx_reset (taken unit hw works seq bs n) =
            run
            ∙ ap rx_reset (dispatch-data seq bs _ ∙ on_data-taken unit hw works bs n p b fits) in
          let (receiver, transfer, same) =
            feed_all_contained unit hw laws (frame unit cmd_data seq bs) m 0 listens.receiver
              o.transfer (omega arith) in
          let next =
            rx_reset-IsOpen (taken unit hw works seq bs n)
              (on_data-IsOpen unit hw works bs n small p b fits) in
          let idle : (rx_reset (taken unit hw works seq bs n)).rx_state ≡ rx_magic0 =
            unfold rx_reset in refl in
          (
            record { idle = ap (λ k. Machine.rx_state k) done ∙ idle; receiver = receiver },
            rw done next,
            rw done (
                unfold rx_reset in
                (refl, refl, refl, refl, taken-others unit hw works bs n p b fits)),
            rw done (unfold rx_reset in refl),
          )
