-- ===== src/Protocol/Session/Quiet.antt =====
-- The events of the line change nothing of the transfer.
use bootloader_ota.Base.{ℕ, ◌^◌, ◌<◌, ◌≡◌, ◌∙◌, refl, arith, List, [], ◌∷◌, ◌++◌}
use bootloader_ota.Crc.{CrcUnit}
use bootloader_ota.Flash.{Controller}
use bootloader_ota.Flash.Frame.{IsController}
use bootloader_ota.Metadata.{Metadata}
use bootloader_ota.Protocol.State.{Machine, rx_magic0}
use bootloader_ota.Protocol.Receive.{feed_all}
use bootloader_ota.Protocol.Contain.{feed_all_contained}
use bootloader_ota.Protocol.Session.{IsOpen}
use bootloader_ota.Protocol.Session.Stream.{IsListening, SameTarget, SameTarget-trans}
use bootloader_ota.Protocol.Session.Line.{
  Event, aside, IsAside, event_bytes, IsHarmless, event-IsAside,
}

-- The bytes of a run of events.
abbrev pub events_bytes : CrcUnit → ℕ → List Event → List ℕ
events_bytes unit last [] = []
events_bytes unit last (e ∷ es) = event_bytes unit last e ++ events_bytes unit last es

abbrev pub AreHarmless : CrcUnit → List Event → Type 0
AreHarmless unit [] = Unit
AreHarmless unit (e ∷ es) = IsHarmless unit e × AreHarmless unit es

module _ (unit : CrcUnit) where
  aside-IsOpen :
      {old : Metadata} {seq : ℕ} {stored : List ℕ} (m : Machine) (f : List ℕ)
      (index expected ok ko : ℕ) (tx : List ℕ)
      → IsOpen unit old seq stored m
      → IsOpen unit old seq stored (aside m f index expected ok ko tx)
  aside-IsOpen m f index expected ok ko tx o = record {
    transfer = omega (arith, o.transfer);
    receiving = o.receiving;
    written = o.written;
    next = o.next;
    last = o.last;
    holds = o.holds;
    blank = o.blank;
    ready = o.ready;
    read = o.read;
    room = o.room;
  }

  -- What a state keeps that is aside.
  aside_kept :
      {old : Metadata} {seq : ℕ} {stored : List ℕ} (m n : Machine)
      → IsAside m n
      → IsOpen unit old seq stored m
      → (n.rx_state ≡ rx_magic0)
        × IsOpen unit old seq stored n
        × SameTarget m n
        × (n.last_seq ≡ m.last_seq)
        × (n.flash ≡ m.flash)
  aside_kept m n (f, index, expected, ok, ko, tx, e) o = rw e (
    refl,
    aside-IsOpen m f index expected ok ko tx o,
    (refl, refl, refl, refl, λ a out. refl),
    refl,
    refl,
  )

  module _ (hw : Controller) where
    pub feed_all-append :
        (xs ys : List ℕ) (m : Machine)
        → feed_all unit hw (xs ++ ys) m ≡ feed_all unit hw ys (feed_all unit hw xs m)
    unfolding feed_all
    feed_all-append [] ys m = refl
    feed_all-append (x ∷ xs) ys m = feed_all-append xs ys _

    module _ (laws : IsController hw) where
      pub event-IsOpen :
          {old : Metadata} {seq : ℕ} {stored : List ℕ} (e : Event) (last : ℕ) (m : Machine)
          → last < 2 ^ 16
          → IsListening m
          → IsOpen unit old seq stored m
          → m.last_seq ≡ last
          → IsHarmless unit e
          → let after = feed_all unit hw (event_bytes unit last e) m in
            IsListening after
            × IsOpen unit old seq stored after
            × SameTarget m after
            × (after.last_seq ≡ last)
            × (after.flash ≡ m.flash)
      event-IsOpen e last m small l o same h =
          let bytes = event_bytes unit last e in
          let next = feed_all unit hw bytes m in
          let (idle, o2, kept, last2, flash) =
            aside_kept m next (event-IsAside unit hw last e m small l o.receiving same h) o in
          let (receiver, transfer, fixed) =
            feed_all_contained unit hw laws bytes m 0 l.receiver o.transfer (omega arith) in
          (record { idle = idle; receiver = receiver }, o2, kept, last2 ∙ same, flash)

      -- Harmless events leave an open transfer open, where it was.
      pub events-IsOpen :
          {old : Metadata} {seq : ℕ} {stored : List ℕ} (es : List Event) (last : ℕ) (m : Machine)
          → last < 2 ^ 16
          → IsListening m
          → IsOpen unit old seq stored m
          → m.last_seq ≡ last
          → AreHarmless unit es
          → let after = feed_all unit hw (events_bytes unit last es) m in
            IsListening after
            × IsOpen unit old seq stored after
            × SameTarget m after
            × (after.flash ≡ m.flash)
      unfolding feed_all
      events-IsOpen [] last m small l o same h =
          (l, o, (refl, refl, refl, refl, λ a out. refl), refl)
      events-IsOpen (e ∷ es) last m small l o same (h, later) =
          let bytes = event_bytes unit last e in
          let next = feed_all unit hw bytes m in
          let (l2, o2, kept, last2, flash) = event-IsOpen e last m small l o same h in
          let (l3, o3, kept3, flash3) = events-IsOpen es last next small l2 o2 last2 later in
          rw (feed_all-append bytes (events_bytes unit last es) m) (
            l3,
            o3,
            SameTarget-trans m next (feed_all unit hw (events_bytes unit last es) next) kept kept3,
            flash3 ∙ flash,
          )
