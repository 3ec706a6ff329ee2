-- ===== src/Protocol/Session/Complete.antt =====
-- A whole update, from the first byte that the host sends to the record of the new image.
use mathlib.Core.Path.{subst}
use bootloader_ota.Base.{
  ℕ, suc, Agree, Memory, sym, ◌+◌, ◌^◌, ◌≤◌, ◌<◌, ◌≡◌, ◌∙◌, refl, ap, arith, some, List, [], ◌++◌,
  length, u16, byte_at,
}
use bootloader_ota.Boot.Decision.{slot_kept}
use bootloader_ota.Protocol.Handlers.{finished_record}
use bootloader_ota.Layout.{slot_addr, slot_size, other_slot}
use bootloader_ota.Crc.{CrcUnit, crc32_compute, compute-lt}
use bootloader_ota.Flash.{Flash, Controller}
use bootloader_ota.Flash.Frame.{Outside, IsController}
use bootloader_ota.Flash.Working.{IsReady, IsWorking}
use bootloader_ota.Metadata.{Metadata, SlotInfo, slot}
use bootloader_ota.Metadata.Codec.{IsMetadata}
use bootloader_ota.Store.{carried_slot, metadata_read, select_target, sealed}
use bootloader_ota.Store.Committed.{sealed-IsMetadata, target-lt}
use bootloader_ota.Store.Room.{CounterRoom, SamePages, CounterRoom-SamePages, write-room}
use bootloader_ota.Store.Valid.{read-IsUsable}
use bootloader_ota.Protocol.State.{Machine, proto_complete, cmd_start_update, cmd_end_update}
use bootloader_ota.Protocol.Send.{frame}
use bootloader_ota.Protocol.Receive.{feed_all}
use bootloader_ota.Protocol.Start.{started_of, sealed-started}
use bootloader_ota.Protocol.Transfer.{IsTransfer}
use bootloader_ota.Protocol.Session.Opens.{start-written}
use bootloader_ota.Protocol.Session.Ends.{IsInstalled}
use bootloader_ota.Protocol.Session.Stream.{IsListening}
use bootloader_ota.Protocol.Session.Line.{Event}
use bootloader_ota.Protocol.Session.Quiet.{
  AreHarmless, events_bytes, events-IsOpen, feed_all-append,
}
use bootloader_ota.Protocol.Session.Sending.{
  Sending, AreBlocks, joined, seq_after, data_frames, start_payload, update_frames,
  AllBytes-start_payload, seq_after-lt,
}
use bootloader_ota.Protocol.Session.Update.{blocks-IsOpen}
use bootloader_ota.Protocol.Session.Frames.{
  payload-fields, payload-accepted, start_frame, end_frame,
}

IsInstalled-at :
    {unit : CrcUnit} {s t : ℕ} {image : List ℕ} {i j : SlotInfo} {mem : Memory}
    → s ≡ t
    → i ≡ j
    → IsInstalled unit s image i mem
    → IsInstalled unit t image j mem
IsInstalled-at {unit} {s} {t} {image} {i} {j} {mem} e f h =
    subst (λ k. IsInstalled unit k image j mem) e (subst (λ k. IsInstalled unit s image k mem) f h)

module _ (unit : CrcUnit) (hw : Controller) where
  -- The description of the image that runs, in the record of an accepted START_UPDATE.
  started-kept :
      (c : ℕ) (old : Metadata) (bs : List ℕ) (target : ℕ)
      → old.active_slot ≤ 1
      → target ≡ other_slot old.active_slot
      → byte_at bs 12 ≡ target
      → carried_slot (slot (sealed unit c (started_of old bs)) (other_slot target))
        ≡ carried_slot (slot old old.active_slot)
  started-kept c old bs target low e told =
      let (same_active, same_count, kept, marked, sized) =
        sealed-started unit hw c old bs low (ground arith) in
      let back : other_slot target ≡ old.active_slot = rw e (ground arith) in rw (back, kept) refl

  update_frames-run :
      (seq version target : ℕ) (opening : List Event) (blocks : List Sending) (m : Machine)
      → let image = joined blocks in
        let first = u16 (seq + 1) in
        let payload = start_payload (length image) (crc32_compute unit image) version target in
        let opened_m = feed_all unit hw (frame unit cmd_start_update seq payload) m in
        let asked_m = feed_all unit hw (events_bytes unit seq opening) opened_m in
        let stored_m = feed_all unit hw (data_frames unit first blocks) asked_m in
        feed_all unit hw (update_frames unit seq version target opening blocks) m
        ≡ feed_all unit hw (frame unit cmd_end_update (seq_after first blocks) []) stored_m
  update_frames-run seq version target opening blocks m =
      let image = joined blocks in
      let first = u16 (seq + 1) in
      let start =
        frame unit cmd_start_update seq
          (start_payload (length image) (crc32_compute unit image) version target) in
      let closing = frame unit cmd_end_update (seq_after first blocks) [] in
      let blocks_out = data_frames unit first blocks in
      let trouble = events_bytes unit seq opening in
      feed_all-append unit hw (start ++ trouble ++ blocks_out) closing m
      ∙ ap (feed_all unit hw closing) (
          feed_all-append unit hw (start ++ trouble) blocks_out m
          ∙ ap (feed_all unit hw blocks_out) (feed_all-append unit hw start trouble m))

  module _ (laws : IsController hw) (works : IsWorking hw) where
    -- A whole update: what it installs, and what it leaves.
    pub update_run :
        (seq version : ℕ) (opening : List Event) (blocks : List Sending) (m : Machine)
        (old : Metadata)
        → seq < 2 ^ 16
        → version < 2 ^ 32
        → AreHarmless unit opening
        → AreBlocks unit 0 blocks
        → 0 < length (joined blocks)
        → length (joined blocks) ≤ slot_size
        → IsListening m
        → IsTransfer m
        → IsReady m.flash
        → IsMetadata old
        → metadata_read unit m.flash.mem ≡ some old
        → CounterRoom unit 2 m.flash.mem
        → let target = other_slot old.active_slot in
          let after = feed_all unit hw (update_frames unit seq version target opening blocks) m in
          (after.state ≡ proto_complete)
          × IsListening after
          × IsInstalled unit target
              (joined blocks)
              (carried_slot (slot old old.active_slot))
              after.flash.mem
          × IsReady after.flash
          × Agree
              (slot_addr old.active_slot)
              (slot_addr old.active_slot + slot_size)
              m.flash.mem
              after.flash.mem
          × ((k : ℕ)
              → suc (suc k) < 2 ^ 32
              → CounterRoom unit (suc (suc k)) m.flash.mem
              → CounterRoom unit k after.flash.mem)
    update_run seq version opening blocks m old small ver quiet good pos fits listens h rests v e
          room =
        let image = joined blocks in
        let crc = crc32_compute unit image in
        let crc_fits = compute-lt unit image in
        let target = other_slot old.active_slot in
        let low = (read-IsUsable unit m.flash.mem old e).active in
        let payload = start_payload (length image) crc version target in
        let fine = payload-accepted unit old (length image) crc version pos fits crc_fits ver low in
        let told =
          payload-fields unit (length image) crc version target (omega arith) crc_fits ver in
        let first = u16 (seq + 1) in
        let c = (select_target unit m.flash.mem).1 in
        let bytes =
          (AllBytes-start_payload (length image) crc version target (ground arith)).each in
        let (fields, ok1, rests1) =
          start-written unit hw laws works payload m old bytes v rests e fine in
        let (listens0, open0, t0, s0, c0, v0, flash0, last0) =
          start_frame unit hw laws works seq payload m old small (omega arith) bytes listens h v
            room rests e fine in
        let m0 = feed_all unit hw (frame unit cmd_start_update seq payload) m in
        let m1 = feed_all unit hw (events_bytes unit seq opening) m0 in
        let (listens1, open1, (t1, s1, c1, v1, mem1), flash1) =
          events-IsOpen unit hw laws opening seq m0 small listens0 open0 last0 quiet in
        let (listens2, open2, same) =
          blocks-IsOpen unit hw laws works blocks first [] m1 (omega arith) listens1 open1 good
            (omega (arith, s1, s0, told)) in
        let m2 = feed_all unit hw (data_frames unit first blocks) m1 in
        let at_target : m2.target_slot ≡ target = same.0 ∙ t1 ∙ t0 ∙ told.3 in
        let new_fields =
          sealed-IsMetadata unit c (started_of old payload) (target-lt unit m.flash.mem) fields in
        let (complete, listens3, installed, flash3, rests3, left3) =
          end_frame unit hw laws works (sealed unit c (started_of old payload))
            (seq_after first blocks) image m2 (seq_after-lt first blocks (omega arith)) listens2
            open2 new_fields (omega (arith, same, v1, v0, told, ver))
            (omega (arith, same, s1, s0, told)) (omega (arith, same, c1, c0, told)) in
        let src = started_of old payload in
        let mine = old.active_slot in
        let pages : SamePages unit m1.flash.mem m2.flash.mem = λ a p q. same.4 a (ground arith) in
        let elsewhere : (a : ℕ)
            → slot_addr mine ≤ a
            → a < slot_addr mine + slot_size
            → Outside (slot_addr m1.target_slot) slot_size a =
          λ a p q.
            subst (λ t. Outside (slot_addr t) slot_size a) (sym (t1 ∙ t0 ∙ told.3))
              (ground (arith, low)) in
        rw (update_frames-run seq version target opening blocks m) (
          complete,
          listens3,
          IsInstalled-at at_target
              (started-kept c old payload m2.target_slot low at_target (told.3 ∙ sym at_target))
              installed,
          rests3,
          λ a p q.
              ap (λ f. Flash.mem f a) flash3
              ∙ slot_kept unit hw laws (finished_record (some (sealed unit c src)) m2) m2.flash mine
                  a p q
              ∙ same.4 a (elsewhere a p q)
              ∙ ap (λ f. Flash.mem f a) (flash1 ∙ flash0)
              ∙ slot_kept unit hw laws src m.flash mine a p q,
          λ k little left. left3 k (omega arith) (
              CounterRoom-SamePages unit (suc k) m1.flash.mem m2.flash.mem pages (
                subst (λ f. CounterRoom unit (suc k) f.mem) (sym (flash1 ∙ flash0))
                  (write-room unit hw laws (suc k) src m.flash little fields left ok1))),
        )

    -- With a working controller at rest, a record in store and room for two more, and the receiver
    -- between frames: when a host sends START_UPDATE with the size and the CRC of an image that fits
    -- a slot, then the image as DATA frames of whole double-words, each inside a page, in order, then
    -- END_UPDATE, the transfer completes, whatever noise, frames with a wrong CRC, repetitions of the
    -- last frame as DATA and GET_INFO frames come between these. The image lies in the slot that was
    -- not active, and the record that the next boot reads makes this slot active and TESTING with the
    -- image's size and CRC and no failed boot, and keeps the description of the image that ran.
    pub update_installs :
        (seq version : ℕ) (opening : List Event) (blocks : List Sending) (m : Machine)
        (old : Metadata)
        → seq < 2 ^ 16
        → version < 2 ^ 32
        → AreHarmless unit opening
        → AreBlocks unit 0 blocks
        → 0 < length (joined blocks)
        → length (joined blocks) ≤ slot_size
        → IsListening m
        → IsTransfer m
        → IsReady m.flash
        → IsMetadata old
        → metadata_read unit m.flash.mem ≡ some old
        → CounterRoom unit 2 m.flash.mem
        → let target = other_slot old.active_slot in
          let after = feed_all unit hw (update_frames unit seq version target opening blocks) m in
          (after.state ≡ proto_complete)
          × IsListening after
          × IsInstalled unit target
              (joined blocks)
              (carried_slot (slot old old.active_slot))
              after.flash.mem
    update_installs seq version opening blocks m old small ver quiet good pos fits listens h rests v
          e room =
        let (complete, again, installed, rested, kept, left) =
          update_run seq version opening blocks m old small ver quiet good pos fits listens h rests
            v e room in
        (complete, again, installed)
