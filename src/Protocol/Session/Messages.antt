-- ===== src/Protocol/Session/Messages.antt =====
-- A whole update, byte by byte: where the state of the transfer changes.
use mathlib.Core.Path.{subst}
use bootloader_ota.Base.{
  ℕ, ◌+◌, ◌^◌, ◌≤◌, ◌<◌, ◌≡◌, ◌∙◌, sym, ap, arith, some, List, [], ◌∷◌, ◌++◌, length, length-append,
  u16,
}
use bootloader_ota.Layout.{slot_size, other_slot}
use bootloader_ota.Crc.{CrcUnit, crc32_compute, compute-lt}
use bootloader_ota.Flash.{Controller}
use bootloader_ota.Flash.Frame.{IsController}
use bootloader_ota.Flash.Working.{IsReady, IsWorking}
use bootloader_ota.Metadata.{Metadata}
use bootloader_ota.Metadata.Codec.{IsMetadata}
use bootloader_ota.Store.{metadata_read}
use bootloader_ota.Store.Room.{CounterRoom}
use bootloader_ota.Store.Valid.{read-IsUsable}
use bootloader_ota.Protocol.State.{
  Machine, proto_idle, proto_receiving, max_payload_size, cmd_start_update, cmd_data,
  cmd_end_update, cmd_get_info,
}
use bootloader_ota.Protocol.Send.{frame, frame_body, checked_frame}
use bootloader_ota.Protocol.Receive.{feed_all}
use bootloader_ota.Protocol.Transfer.{IsTransfer}
use bootloader_ota.Protocol.Session.{IsOpen}
use bootloader_ota.Protocol.Session.Stream.{IsListening, data_frame}
use bootloader_ota.Protocol.Steady.{
  AllIn, AllBut, AllIn-append, AllBut-append, AllBut-ends, frame-AllBut,
}
use bootloader_ota.Protocol.Session.Line.{
  Event, noise, damaged, repeated, asked, event_bytes, IsHarmless,
}
use bootloader_ota.Protocol.Session.Quiet.{
  events_bytes, AreHarmless, feed_all-append, event-IsOpen, events-IsOpen,
}
use bootloader_ota.Protocol.Session.Sending.{
  Sending, AreBlocks, joined, seq_after, data_frames, start_payload, AllBytes-start_payload,
}
use bootloader_ota.Protocol.Session.Frames.{payload-fields, payload-accepted, start_frame}

-- All bytes of an update but END_UPDATE's, behind START_UPDATE's.
abbrev pub start_bytes : CrcUnit → ℕ → ℕ → ℕ → List Sending → List ℕ
start_bytes unit seq version target blocks =
    frame unit cmd_start_update seq
      (start_payload (length (joined blocks)) (crc32_compute unit (joined blocks)) version target)

abbrev pub data_bytes : CrcUnit → ℕ → List Event → List Sending → List ℕ
data_bytes unit seq opening blocks =
    events_bytes unit seq opening ++ data_frames unit (u16 (seq + 1)) blocks

abbrev pub end_bytes : CrcUnit → ℕ → List Sending → List ℕ
end_bytes unit seq blocks = frame unit cmd_end_update (seq_after (u16 (seq + 1)) blocks) []

module _ (unit : CrcUnit) (hw : Controller) where
  abbrev check_of : ℕ → ℕ → List ℕ → ℕ
  check_of cmd seq bs = crc32_compute unit (frame_body unit cmd seq bs)

  -- The bytes of a whole message that leaves the transfer open.
  message-AllIn :
      (cmd seq c : ℕ) (bs : List ℕ) (m : Machine)
      → IsListening m
      → m.state ≡ proto_receiving
      → length bs ≤ max_payload_size
      → (feed_all unit hw (checked_frame unit cmd seq bs c) m).state ≡ proto_receiving
      → AllIn unit hw proto_receiving (checked_frame unit cmd seq bs c) m
  message-AllIn cmd seq c bs m l receiving fits still =
      AllBut-ends unit hw proto_receiving (checked_frame unit cmd seq bs c) m
        (subst (λ st. AllBut unit hw st (checked_frame unit cmd seq bs c) m) receiving
          (frame-AllBut unit hw cmd seq c bs m l.idle l.receiver fits))
        still

  event-AllIn :
      (e : Event) (last : ℕ) (m : Machine)
      → IsListening m
      → m.state ≡ proto_receiving
      → IsHarmless unit e
      → (feed_all unit hw (event_bytes unit last e) m).state ≡ proto_receiving
      → AllIn unit hw proto_receiving (event_bytes unit last e) m
  unfolding frame
  event-AllIn (noise b) last m l receiving h still =
      AllBut-ends unit hw proto_receiving (b ∷ []) m _ still
  event-AllIn (damaged cmd seq bs c) last m l receiving h still =
      message-AllIn cmd seq c bs m l receiving (h.2) still
  event-AllIn (repeated bs) last m l receiving h still =
      message-AllIn cmd_data last (check_of cmd_data last bs) bs m l receiving h still
  event-AllIn (asked seq) last m l receiving h still =
      message-AllIn cmd_get_info seq (check_of cmd_get_info seq []) [] m l receiving (omega arith)
        still

  data-AllIn :
      (seq : ℕ) (bs : List ℕ) (m : Machine)
      → IsListening m
      → m.state ≡ proto_receiving
      → length bs ≤ max_payload_size
      → (feed_all unit hw (frame unit cmd_data seq bs) m).state ≡ proto_receiving
      → AllIn unit hw proto_receiving (frame unit cmd_data seq bs) m
  unfolding frame
  data-AllIn seq bs m l receiving fits still =
      message-AllIn cmd_data seq (check_of cmd_data seq bs) bs m l receiving fits still

  -- START_UPDATE's bytes but the last leave the receiver idle.
  pub start-AllBut :
      (seq : ℕ) (bs : List ℕ) (m : Machine)
      → IsListening m
      → m.state ≡ proto_idle
      → length bs ≤ max_payload_size
      → AllBut unit hw proto_idle (frame unit cmd_start_update seq bs) m
  unfolding frame
  start-AllBut seq bs m l resting fits =
      subst
        (λ st.
          AllBut unit hw st
            (checked_frame unit cmd_start_update seq bs (check_of cmd_start_update seq bs)) m)
        resting
        (frame-AllBut unit hw cmd_start_update seq (check_of cmd_start_update seq bs) bs m l.idle
          l.receiver fits)

  end-AllBut :
      (seq : ℕ) (m : Machine)
      → IsListening m
      → m.state ≡ proto_receiving
      → AllBut unit hw proto_receiving (frame unit cmd_end_update seq []) m
  unfolding frame
  end-AllBut seq m l receiving =
      subst
        (λ st.
          AllBut unit hw st
            (checked_frame unit cmd_end_update seq [] (check_of cmd_end_update seq [])) m)
        receiving
        (frame-AllBut unit hw cmd_end_update seq (check_of cmd_end_update seq []) [] m l.idle
          l.receiver (omega arith))

  module _ (laws : IsController hw) (works : IsWorking hw) where
    events-AllIn :
        {old : Metadata} {seq : ℕ} {stored : List ℕ} (es : List Event) (last : ℕ) (m : Machine)
        → last < 2 ^ 16
        → IsListening m
        → IsOpen unit old seq stored m
        → m.last_seq ≡ last
        → AreHarmless unit es
        → AllIn unit hw proto_receiving (events_bytes unit last es) m
    events-AllIn [] last m small l o same h = _
    events-AllIn (e ∷ es) last m small l o same (h, later) =
        let (l2, o2, kept, last2, flash) = event-IsOpen unit hw laws e last m small l o same h in
        AllIn-append unit hw proto_receiving (event_bytes unit last e) (events_bytes unit last es) m
          (event-AllIn e last m l o.receiving h o2.receiving)
          (events-AllIn es last (feed_all unit hw (event_bytes unit last e) m) small l2 o2 last2
            later)

    blocks-AllIn :
        {old : Metadata} (blocks : List Sending) (seq : ℕ) (stored : List ℕ) (m : Machine)
        → seq < 2 ^ 16
        → IsListening m
        → IsOpen unit old seq stored m
        → AreBlocks unit (length stored) blocks
        → length stored + length (joined blocks) ≤ m.fw_size
        → AllIn unit hw proto_receiving (data_frames unit seq blocks) m
          × ((after : Machine)
              → after ≡ feed_all unit hw (data_frames unit seq blocks) m
              → IsListening after × (after.state ≡ proto_receiving))
    unfolding feed_all
    blocks-AllIn [] seq stored m small listens o blocks fits =
        (_, λ after e. rw e (listens, o.receiving))
    blocks-AllIn (b ∷ bs) seq stored m small listens o (block, short, harmless, later) fits =
        let size = length-append b.block (joined bs) in
        let (listens2, o2, same2, last2) =
          data_frame unit hw laws works b.block m small listens o block short
            (omega (arith, fits, size)) in
        let first = frame unit cmd_data seq b.block in
        let noise_bytes = events_bytes unit seq b.trouble in
        let sent = feed_all unit hw first m in
        let (listens3, o3, same3, flash) =
          events-IsOpen unit hw laws b.trouble seq sent small listens2 o2 last2 harmless in
        let next = feed_all unit hw noise_bytes sent in
        let more = data_frames unit (u16 (seq + 1)) bs in
        let joins = feed_all-append unit hw first noise_bytes m in
        let (rest, end) =
          blocks-AllIn bs (u16 (seq + 1)) (stored ++ b.block) next (omega arith) listens3 o3
            (rw (length-append stored b.block) later)
            (omega (arith, same2, same3, fits, size, length-append stored b.block)) in
        (
          AllIn-append unit hw proto_receiving (first ++ noise_bytes) more m
              (AllIn-append unit hw proto_receiving first noise_bytes m
                (data-AllIn seq b.block m listens o.receiving short o2.receiving)
                (events-AllIn b.trouble seq sent small listens2 o2 last2 harmless))
              (subst (AllIn unit hw proto_receiving more) (sym joins) rest),
          λ after e. end after (
              e
              ∙ feed_all-append unit hw (first ++ noise_bytes) more m
              ∙ ap (feed_all unit hw more) joins),
        )

    -- START_UPDATE's last byte opens the transfer, and only END_UPDATE's last one ends it.
    pub update-AllBut :
        (seq version : ℕ) (opening : List Event) (blocks : List Sending) (m : Machine)
        (old : Metadata)
        → seq < 2 ^ 16
        → version < 2 ^ 32
        → AreHarmless unit opening
        → AreBlocks unit 0 blocks
        → 0 < length (joined blocks)
        → length (joined blocks) ≤ slot_size
        → IsListening m
        → m.state ≡ proto_idle
        → IsTransfer m
        → IsReady m.flash
        → IsMetadata old
        → metadata_read unit m.flash.mem ≡ some old
        → CounterRoom unit 2 m.flash.mem
        → let target = other_slot old.active_slot in
          let start = start_bytes unit seq version target blocks in
          let opened = feed_all unit hw start m in
          (opened.state ≡ proto_receiving)
          × AllBut unit hw proto_idle start m
          × AllBut unit hw proto_receiving
              (data_bytes unit seq opening blocks ++ end_bytes unit seq blocks)
              opened
    update-AllBut seq version opening blocks m old small ver quiet good pos fits listens resting h
          rests v e room =
        let image = joined blocks in
        let crc = crc32_compute unit image in
        let crc_fits = compute-lt unit image in
        let target = other_slot old.active_slot in
        let low = (read-IsUsable unit m.flash.mem old e).active in
        let payload = start_payload (length image) crc version target in
        let fine = payload-accepted unit old (length image) crc version pos fits crc_fits ver low in
        let told =
          payload-fields unit (length image) crc version target (omega arith) crc_fits ver in
        let first = u16 (seq + 1) in
        let bytes =
          (AllBytes-start_payload (length image) crc version target (ground arith)).each in
        let (listens0, open0, t0, s0, c0, v0, flash0, last0) =
          start_frame unit hw laws works seq payload m old small (omega arith) bytes listens h v
            room rests e fine in
        let m0 = feed_all unit hw (frame unit cmd_start_update seq payload) m in
        let (listens1, open1, same1, flash1) =
          events-IsOpen unit hw laws opening seq m0 small listens0 open0 last0 quiet in
        let m1 = feed_all unit hw (events_bytes unit seq opening) m0 in
        let (rest, end) =
          blocks-AllIn blocks first [] m1 (omega arith) listens1 open1 good
            (omega (arith, same1, s0, told)) in
        let events = events_bytes unit seq opening in
        let frames = data_frames unit first blocks in
        let (listens2, receiving2) =
          end (feed_all unit hw (events ++ frames) m0) (feed_all-append unit hw events frames m0) in
        (
          open0.receiving,
          start-AllBut seq payload m listens resting (omega arith),
          AllBut-append unit hw proto_receiving (events ++ frames) (end_bytes unit seq blocks) m0
              (AllIn-append unit hw proto_receiving events frames m0
                (events-AllIn opening seq m0 small listens0 open0 last0 quiet) rest)
              (end-AllBut (seq_after first blocks) (feed_all unit hw (events ++ frames) m0) listens2
                receiving2),
        )
