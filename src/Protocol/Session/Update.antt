-- ===== src/Protocol/Session/Update.antt =====
-- The blocks of an update, one after the other.
use mathlib.Core.Path.{subst}
use mathlib.Core.List.{append-nil, append_assoc}
use bootloader_ota.Base.{
  ℕ, sym, ◌+◌, ◌^◌, ◌≤◌, ◌<◌, ◌≡◌, ◌∙◌, refl, ap, arith, List, [], ◌∷◌, ◌++◌, length, u16,
  length-append,
}
use bootloader_ota.Crc.{CrcUnit}
use bootloader_ota.Flash.{Controller}
use bootloader_ota.Flash.Frame.{IsController}
use bootloader_ota.Flash.Working.{IsWorking}
use bootloader_ota.Metadata.{Metadata}
use bootloader_ota.Protocol.State.{Machine, cmd_data}
use bootloader_ota.Protocol.Send.{frame}
use bootloader_ota.Protocol.Receive.{feed_all}
use bootloader_ota.Protocol.Session.{IsOpen}
use bootloader_ota.Protocol.Session.Stream.{IsListening, SameTarget, SameTarget-trans, data_frame}
use bootloader_ota.Protocol.Session.Quiet.{events_bytes, feed_all-append, events-IsOpen}
use bootloader_ota.Protocol.Session.Sending.{Sending, AreBlocks, joined, seq_after, data_frames}

module _ (unit : CrcUnit) (hw : Controller) (laws : IsController hw) (works : IsWorking hw) where
  -- A block's frame and what comes after it.
  block_sent :
      {old : Metadata} {seq : ℕ} {stored : List ℕ} (b : Sending) (rest : List ℕ) (m : Machine)
      → seq < 2 ^ 16
      → IsListening m
      → IsOpen unit old seq stored m
      → AreBlocks unit (length stored) (b ∷ [])
      → length stored + length b.block ≤ m.fw_size
      → (next : Machine) × IsListening next
        × IsOpen unit old (u16 (seq + 1)) (stored ++ b.block) next
        × SameTarget m next
        × (feed_all unit hw
              (frame unit cmd_data seq b.block ++ events_bytes unit seq b.trouble ++ rest)
              m
            ≡ feed_all unit hw rest next)
  block_sent {old} {seq} {stored} b rest m small listens o blocks fits =
      let (block, short, harmless, later) = blocks in
      let (listens2, o2, same, last) =
        data_frame unit hw laws works b.block m small listens o block short fits in
      let first = frame unit cmd_data seq b.block in
      let sent = feed_all unit hw first m in
      let trouble = events_bytes unit seq b.trouble in
      let next = feed_all unit hw trouble sent in
      let (listens3, o3, same3, flash) =
        events-IsOpen unit hw laws b.trouble seq sent small listens2 o2 last harmless in
      (
        next,
        listens3,
        o3,
        SameTarget-trans m sent next same same3,
        feed_all-append unit hw (first ++ trouble) rest m
            ∙ ap (feed_all unit hw rest) (feed_all-append unit hw first trouble m),
      )

  -- All the blocks.
  pub blocks-IsOpen :
      {old : Metadata} (blocks : List Sending) (seq : ℕ) (stored : List ℕ) (m : Machine)
      → seq < 2 ^ 16
      → IsListening m
      → IsOpen unit old seq stored m
      → AreBlocks unit (length stored) blocks
      → length stored + length (joined blocks) ≤ m.fw_size
      → let after = feed_all unit hw (data_frames unit seq blocks) m in
        IsListening after
        × IsOpen unit old (seq_after seq blocks) (stored ++ joined blocks) after
        × SameTarget m after
  blocks-IsOpen {old} [] seq stored m small listens o blocks fits =
      unfold feed_all in
      (
        listens,
        subst (λ t. IsOpen unit old seq t m) (sym (append-nil stored)) o,
        (refl, refl, refl, refl, λ a out. refl),
      )
  blocks-IsOpen {old} (b ∷ bs) seq stored m small listens o blocks fits =
      let (block, short, harmless, later) = blocks in
      let size = length-append b.block (joined bs) in
      let frames = data_frames unit (u16 (seq + 1)) bs in
      let (next, listens2, o2, same, run) =
        block_sent b frames m small listens o (block, short, harmless, _)
          (omega (arith, fits, size)) in
      let rest =
        blocks-IsOpen bs (u16 (seq + 1)) (stored ++ b.block) next (omega arith) listens2 o2
          (rw (length-append stored b.block) later)
          (omega (arith, same, fits, size, length-append stored b.block)) in
      rw run (
        rest.0,
        subst (λ t. IsOpen unit old (seq_after (u16 (seq + 1)) bs) t (feed_all unit hw frames next))
            (append_assoc stored b.block (joined bs)) rest.1,
        SameTarget-trans m next (feed_all unit hw frames next) same rest.2,
      )
